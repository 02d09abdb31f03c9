-- ===== src/Orders/Careful.antt =====
-- Changes of one execution that go on with its story and leave the stories of all others alone.
use Prim.Native.String.{String}
use crypto_copy_trading_plat.Prelude.{ℕ, ◌≡◌, refl, ◌∙◌, List}
use crypto_copy_trading_plat.Prelude.Text.{Text}
use crypto_copy_trading_plat.Prelude.Exec.{Exec, Result, ok, err, continue, modify, ◌>>=◌}
use crypto_copy_trading_plat.Domain.{OrderExecutionStatus, OrderExecution}
use crypto_copy_trading_plat.OrderState.{
  Tracked, OrderStateError, transition_order_execution, flush,
}
use crypto_copy_trading_plat.OrderState.History.{
  IsHistory, transition-IsHistory, IsHistory-flush, history-flush,
}
use crypto_copy_trading_plat.OrderState.Runs.{transition_others}
use crypto_copy_trading_plat.Orders.Kept.{SameOthers}

-- From `m` to `m'`: the story of execution `i` is whole again, the other ones are as before.
pub record GoesOn (i : ℕ) (m m' : Tracked) : Type 0 where
  pub story : IsHistory i m'
  pub others : SameOthers i m.log m'.log

pub GoesOn-self : (i : ℕ) (m : Tracked) → IsHistory i m → GoesOn i m m
GoesOn-self i m h = record { story = h; others = λ j other. refl }

pub GoesOn-trans : (i : ℕ) (a b c : Tracked) → GoesOn i a b → GoesOn i b c → GoesOn i a c
GoesOn-trans i a b c f g = record {
  story = g.story;
  others = λ j other. g.others j other ∙ f.others j other;
}

pub GoesOn-transition :
    (i : ℕ) (m : Tracked) (to : OrderExecutionStatus) (reason : String)
    (details : List (String × Text))
    → IsHistory i m
    → GoesOn i m (transition_order_execution to reason details m).1
GoesOn-transition i m to reason details h = record {
  story = transition-IsHistory i m to reason details h;
  others = λ j other. transition_others i j m to reason details h.known other;
}

pub GoesOn-flush : (i : ℕ) (m : Tracked) → IsHistory i m → GoesOn i m (flush m)
GoesOn-flush i m h = record { story = IsHistory-flush i m h; others = λ j other. history-flush j m }

-- Fields other than the id and the status may change freely.
pub GoesOn-fields :
    (i : ℕ) (m : Tracked) (e : OrderExecution)
    → IsHistory i m
    → e.id ≡ m.execution.id
    → e.status ≡ m.execution.status
    → GoesOn i m (record m { execution = e })
GoesOn-fields i m e h same_id same_status = record {
  story = record {
    known = same_id ∙ h.known;
    chained = h.chained;
    current = rw same_status h.current;
  };
  others = λ j other. refl;
}

module _ {E : Type 0} (i : ℕ) where
  -- A call on an execution that goes on with its story, whether it returns or raises.
  abbrev pub Careful : {A : Type 0} → Exec Tracked E A → Type 0
  Careful f = (m : Tracked) → IsHistory i m → GoesOn i m (f m).1

  Careful-continue :
      {A B : Type 0} (r : Result E A) (f : A → Exec Tracked E B)
      → ((a : A) → Careful (f a))
      → Careful (continue r f)
  Careful-continue (ok a) f cf m h = cf a m h
  Careful-continue (err e) f cf m h = GoesOn-self i m h

  -- A chain of careful calls is careful.
  pub Careful-bind :
      {A B : Type 0} (f : Exec Tracked E A) (g : A → Exec Tracked E B)
      → Careful f
      → ((a : A) → Careful (g a))
      → Careful (f >>= g)
  Careful-bind f g cf cg m h =
      let first = cf m h in
      GoesOn-trans i m (f m).1 (continue (f m).0 g (f m).1).1 first
        (Careful-continue (f m).0 g cg (f m).1 first.story)

pub flush-Careful : (i : ℕ) → Careful {E = OrderStateError} i (modify flush)
flush-Careful i m h = GoesOn-flush i m h

pub transition-Careful :
    (i : ℕ) (to : OrderExecutionStatus) (reason : String) (details : List (String × Text))
    → Careful i (transition_order_execution to reason details)
transition-Careful i to reason details m h = GoesOn-transition i m to reason details h
