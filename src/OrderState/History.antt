-- ===== src/OrderState/History.antt =====
-- The rows of one execution, read as the story of its status.
use Prim.Native.String.{String}
use crypto_copy_trading_plat.Prelude.{
  ℕ, suc, max, ◌+◌, ◌≡◌, refl, true, Option, none, some, List, [], ◌∷◌, ◌++◌, arith, length, select,
  sym, ap, ◌∙◌, ◌==◌, Bool-cases, inl, inr,
}
use crypto_copy_trading_plat.Prelude.Text.{Text}
use crypto_copy_trading_plat.Domain.{OrderExecutionStatus, created, OrderExecutionTransition}
use crypto_copy_trading_plat.OrderState.{
  TransitionLog, Tracked, max_sequence, next_sequence_number, transition_row, add_row, set_status,
  may_move, transition_order_execution, record_initial_order_state, flush,
}
use crypto_copy_trading_plat.OrderState.Branches.{
  transition_allowed, transition_refused, record_initial_allowed,
}
use mathlib.Core.List.{append_assoc, append-nil}

abbrev pub owned : ℕ → List OrderExecutionTransition → List OrderExecutionTransition
owned i = select (λ t. t.order_execution_id == i)

-- The rows of execution `i`, in the order in which they were added.
abbrev pub history : ℕ → TransitionLog → List OrderExecutionTransition
history i log = owned i (log.flushed ++ log.added)

abbrev pub MayFollow : Option OrderExecutionStatus → OrderExecutionStatus → Type 0
MayFollow none s = s ≡ created
MayFollow (some a) s = may_move a s ≡ true

-- Each row goes on from the row before it, with the next number and an allowed move.
abbrev pub Follows : Option OrderExecutionStatus → ℕ → List OrderExecutionTransition → Type 0
Follows prev n [] = Unit
Follows prev n (t ∷ l) =
    (t.sequence_number ≡ suc n)
    × (t.from_status ≡ prev)
    × MayFollow prev t.to_status
    × Follows (some t.to_status) (suc n) l

abbrev pub last_status :
    Option OrderExecutionStatus → List OrderExecutionTransition → Option OrderExecutionStatus
last_status prev [] = prev
last_status prev (t ∷ l) = last_status (some t.to_status) l

-- The log tells the whole story of execution `i`: its rows are numbered from 1 with no gap, lead
-- from `CREATED` by allowed moves, and end in the status that the execution has.
pub record IsHistory (i : ℕ) (m : Tracked) : Type 0 where
  pub known : m.execution.id ≡ some i
  pub chained : Follows none 0 (history i m.log)
  pub current : last_status none (history i m.log) ≡ some m.execution.status

owned-append :
    (i : ℕ) (xs ys : List OrderExecutionTransition) → owned i (xs ++ ys) ≡ owned i xs ++ owned i ys
owned-append i [] ys = refl
owned-append i (x ∷ xs) ys = ground (arith, owned-append i xs ys)

max_sequence-append :
    (i : ℕ) (xs ys : List OrderExecutionTransition)
    → max_sequence i (xs ++ ys) ≡ max (max_sequence i xs) (max_sequence i ys)
unfolding max_sequence
max_sequence-append i [] ys = omega arith
max_sequence-append i (x ∷ xs) ys = ground (arith, max_sequence-append i xs ys)

max_sequence-Follows :
    (i n : ℕ) (prev : Option OrderExecutionStatus) (l : List OrderExecutionTransition)
    → Follows prev n (owned i l)
    → max n (max_sequence i l) ≡ n + length (owned i l)
unfolding max_sequence
max_sequence-Follows i n prev [] h = omega arith
max_sequence-Follows i n prev (t ∷ l) h = elim (Bool-cases (t.order_execution_id == i)) [
  | inl own ↦
      let h' : Follows prev n (t ∷ owned i l) = rw own at h in
      rw own (omega (arith, h'.0, max_sequence-Follows i (suc n) (some t.to_status) l h'.3))
  | inr other ↦ rw other (max_sequence-Follows i n prev l (rw other at h))
]

-- The next number is one more than the number of rows so far.
pub next_sequence_number-Follows :
    (i : ℕ) (log : TransitionLog)
    → Follows none 0 (history i log)
    → next_sequence_number log i ≡ suc (length (history i log))
unfolding next_sequence_number
next_sequence_number-Follows i log h = omega (
  arith,
  max_sequence-append i log.flushed log.added,
  max_sequence-Follows i 0 none (log.flushed ++ log.added) h,
)

Follows-append :
    (prev : Option OrderExecutionStatus) (n : ℕ) (l : List OrderExecutionTransition)
    (t : OrderExecutionTransition)
    → Follows prev n l
    → t.sequence_number ≡ suc (n + length l)
    → t.from_status ≡ last_status prev l
    → MayFollow (last_status prev l) t.to_status
    → Follows prev n (l ++ t ∷ [])
Follows-append prev n [] t h number from may = (omega arith, from, may, tt)
Follows-append prev n (x ∷ l) t h number from may =
    (h.0, h.1, h.2, Follows-append (some x.to_status) (suc n) l t h.3 (omega arith) from may)

last_status-append :
    (prev : Option OrderExecutionStatus) (l : List OrderExecutionTransition)
    (t : OrderExecutionTransition)
    → last_status prev (l ++ t ∷ []) ≡ some t.to_status
last_status-append prev [] t = refl
last_status-append prev (x ∷ l) t = last_status-append (some x.to_status) l t

-- A row of execution `i` comes behind its other rows.
pub history-add_row :
    (i : ℕ) (t : OrderExecutionTransition) (m : Tracked)
    → history i (add_row t m).log ≡ history i m.log ++ owned i (t ∷ [])
unfolding add_row
history-add_row i t m =
    rw (← append_assoc m.log.flushed m.log.added (t ∷ [])) (owned-append i _ (t ∷ []))

pub history-flush : (i : ℕ) (m : Tracked) → history i (flush m).log ≡ history i m.log
unfolding flush
history-flush i m = rw append-nil refl

owned_self :
    (i : ℕ) (t : OrderExecutionTransition) → t.order_execution_id ≡ i → owned i (t ∷ []) ≡ t ∷ []
owned_self i t own = ground arith

history-add_row_own :
    (i : ℕ) (t : OrderExecutionTransition) (m : Tracked)
    → t.order_execution_id ≡ i
    → history i (add_row t m).log ≡ history i m.log ++ t ∷ []
history-add_row_own i t m own = rw (history-add_row i t m, owned_self i t own) refl

-- A row with the next number, from the last status by an allowed move, goes on with the story.
pub IsHistory-add_row :
    (i : ℕ) (m : Tracked) (t : OrderExecutionTransition)
    → m.execution.id ≡ some i
    → t.order_execution_id ≡ i
    → t.sequence_number ≡ next_sequence_number m.log i
    → Follows none 0 (history i m.log)
    → t.from_status ≡ last_status none (history i m.log)
    → MayFollow (last_status none (history i m.log)) t.to_status
    → m.execution.status ≡ t.to_status
    → IsHistory i (add_row t m)
IsHistory-add_row i m t known own number chain from may now = record {
  known = unfold add_row in known;
  chained = rw (history-add_row_own i t m own) (
      Follows-append none 0 (history i m.log) t chain
        (omega (arith, number, next_sequence_number-Follows i m.log chain)) from may);
  current =
      rw (history-add_row_own i t m own)
        (last_status-append none (history i m.log) t ∙ ap some (sym (unfold add_row in now)));
}

-- Flushing the session keeps the story.
pub IsHistory-flush : (i : ℕ) (m : Tracked) → IsHistory i m → IsHistory i (flush m)
IsHistory-flush i m h = record {
  known = unfold flush in h.known;
  chained = rw (history-flush i m) h.chained;
  current = rw (history-flush i m) (unfold flush in h.current);
}

-- Whatever move is asked for, the story stays whole: it grows by one row or stays as it was.
pub transition-IsHistory :
    (i : ℕ) (m : Tracked) (to : OrderExecutionStatus) (reason : String)
    (details : List (String × Text))
    → IsHistory i m
    → IsHistory i (transition_order_execution to reason details m).1
transition-IsHistory i m to reason details h = elim (Bool-cases (may_move m.execution.status to)) [
  | inl allowed ↦
      let t = transition_row i (some m.execution.status) to reason details (set_status to m) in
      rw (transition_allowed m to reason details h.known allowed) (
        IsHistory-add_row i (set_status to m) t h.known (unfold transition_row in refl)
          (unfold transition_row in refl) h.chained (unfold transition_row in sym h.current)
          (unfold transition_row in rw h.current allowed) (unfold transition_row in refl))
  | inr refused ↦ rw (transition_refused m to reason details refused) h
]

-- The first row of an execution with no rows begins its story.
pub record_initial-IsHistory :
    (i : ℕ) (m : Tracked) (reason : String)
    → m.execution.id ≡ some i
    → m.execution.status ≡ created
    → history i m.log ≡ []
    → IsHistory i (record_initial_order_state reason m).1
record_initial-IsHistory i m reason known start fresh =
    let t = transition_row i none created reason [] m in
    rw (record_initial_allowed m reason known start) (
      IsHistory-add_row i m t known (unfold transition_row in refl) (unfold transition_row in refl)
        (rw fresh tt) (rw fresh (unfold transition_row in refl))
        (rw fresh (unfold transition_row in refl)) (unfold transition_row in start))
