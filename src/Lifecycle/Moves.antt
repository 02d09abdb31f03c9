-- ===== src/Lifecycle/Moves.antt =====
-- The abstract view of the table of executions, and the events of a user stream as runs of it.
use Prim.Native.String.{String}
use crypto_copy_trading_plat.Prelude.{
  ℕ, zero, suc, ◌≡◌, refl, ap, ◌∙◌, Bool, true, Option, none, some, List, [], ◌∷◌, map, arith,
  find?, ◌⊎◌, inl, inr, Bool-cases, Option-cases,
}
use mathlib.Core.Path.{subst}
use crypto_copy_trading_plat.Prelude.Exec.{ok, err}
use crypto_copy_trading_plat.Domain.{OrderExecution, OrderExecutionStatus, status_eq}
use crypto_copy_trading_plat.Database.{Database}
use crypto_copy_trading_plat.OrderState.{
  Tracked, may_move, set_status, add_row, transition_row, flush,
}
use crypto_copy_trading_plat.OrderState.Graph.{IsTerminal, IsTerminal-iff_no_move}
use crypto_copy_trading_plat.Orders.{replace_first, loaded}
use crypto_copy_trading_plat.Orders.Kept.{IsKept, found-IsHistory}
use crypto_copy_trading_plat.Lifecycle.{
  OrderEvent, has_identifier, is_event_row, safe_transition_details, apply_row, apply_found, apply,
}
use crypto_copy_trading_plat.Lifecycle.Branches.{
  apply_row_duplicate, apply_row_stale, apply_row_moves, fill_same,
}
use crypto_copy_trading_plat.Lifecycle.Kept.{apply-IsKept}
use crypto_copy_trading_plat.Lifecycle.Normalize.{
  Python, UserStreamEvent, EventType, handle_typed, order_event, balance_event, position_event,
  unknown_event, Normalized, normalize_stream_event, apply_normalized, handle_user_stream_event,
}

-- What the specification sees of the table: each execution's id and status.
abbrev pub View : Type 0
View = List (Option ℕ × OrderExecutionStatus)

abbrev pub view : List OrderExecution → View
view = map λ e. (e.id, e.status)

-- One step of the specification: one execution makes an allowed move.
pub data Step : View → View → Type 0 where
  here :
      {i : Option ℕ} {s s' : OrderExecutionStatus} {v : View}
      → may_move s s' ≡ true
      → Step ((i, s) ∷ v) ((i, s') ∷ v)
  there : {x : Option ℕ × OrderExecutionStatus} {v v' : View} → Step v v' → Step (x ∷ v) (x ∷ v')

pub data Runs : View → View → Type 0 where
  stay : {v : View} → Runs v v
  go : {a b c : View} → Step a b → Runs b c → Runs a c

pub Runs-trans : {a b c : View} → Runs a b → Runs b c → Runs a c
Runs-trans stay g = g
Runs-trans (go f fs) g = go f (Runs-trans fs g)

Runs-there : {x : Option ℕ × OrderExecutionStatus} {v v' : View} → Runs v v' → Runs (x ∷ v) (x ∷ v')
Runs-there stay = stay
Runs-there (go f fs) = go (there f) (Runs-there fs)

-- A row's new text is that of the same execution, in its old status or after one allowed move.
record MovesOn (e e' : OrderExecution) : Type 0 where
  same_id : e'.id ≡ e.id
  moves : (e'.status ≡ e.status) ⊎ (may_move e.status e'.status ≡ true)

step_here :
    (i : Option ℕ) (s s' : OrderExecutionStatus) (v : View)
    → (s' ≡ s) ⊎ (may_move s s' ≡ true)
    → Runs ((i, s) ∷ v) ((i, s') ∷ v)
step_here i s s' v (inl same) = rw same stay
step_here i s s' v (inr allowed) = go (here allowed) stay

replace_first-Runs :
    (p : OrderExecution → Bool) (e e' : OrderExecution) (es : List OrderExecution)
    → find? p es ≡ some e
    → MovesOn e e'
    → Runs (view es) (view (replace_first p e' es))
unfolding replace_first
replace_first-Runs p e e' [] found m = stay
replace_first-Runs p e e' (x ∷ es) found m = elim (Bool-cases (p x)) [
  | inl hit ↦
      let same : e ≡ x = ground (arith, rw hit at found) in
      let on : MovesOn x e' = subst (λ y. MovesOn y e') same m in
      rw (hit, on.same_id) (step_here x.id x.status e'.status (view es) on.moves)
  | inr miss ↦ rw miss (Runs-there (replace_first-Runs p e e' es (rw miss at found) m))
]

apply_row-MovesOn :
    (i : ℕ) (ev : OrderEvent) (reason : String) (m : Tracked)
    → m.execution.id ≡ some i
    → MovesOn m.execution (apply_row ev reason m).1.execution
apply_row-MovesOn i ev reason m known = elim (Bool-cases (status_eq m.execution.status ev.status)) [
  | inl same ↦
      rw (apply_row_duplicate ev reason m same) (record { same_id = refl; moves = inl refl })
  | inr other ↦ elim (Bool-cases (may_move m.execution.status ev.status)) [
    | inl allowed ↦
        let t =
          transition_row i (some m.execution.status) ev.status reason (safe_transition_details ev)
            (set_status ev.status m) in
        let e = (set_status ev.status m).execution in
        let (same_id, same_status) = fill_same ev e in
        rw (apply_row_moves ev reason m known other allowed) (
          unfold flush add_row in
          record {
            same_id = same_id;
            moves = inr (ap (may_move m.execution.status) same_status ∙ allowed);
          })
    | inr refused ↦
        rw (apply_row_stale ev reason m other refused) (record { same_id = refl; moves = inl refl })
  ]
]

-- An event is a run of the specification.
pub apply-Runs :
    (user account : ℕ) (ev : OrderEvent) (reason : String) (db : Database)
    → IsKept db
    → Runs (view db.executions) (view (apply user account ev reason db).1.executions)
unfolding apply apply_found
apply-Runs user account ev reason db k =
    let p = is_event_row user account ev in
    elim (Bool-cases (has_identifier ev)) [
      | inl given ↦ elim (Option-cases (find? p db.executions)) [
        | inl missing ↦ rw (given, missing) stay
        | inr (e, found) ↦
            let (i, h) = found-IsHistory p e db k found in
            rw (given, found)
              (replace_first-Runs p e (apply_row ev reason (loaded e db)).1.execution db.executions
                found (apply_row-MovesOn i ev reason (loaded e db) h.known))
      ]
      | inr missing ↦ rw missing stay
    ]

module _ (py : Python) (user account : ℕ) where
  -- The tables after the events of a stream, each handled whether or not the one before it raised.
  unfoldable pub handle_all : List UserStreamEvent → Database → Database
  unfolding handle_user_stream_event
  handle_all [] db = db
  handle_all (ev ∷ evs) db = handle_all evs (handle_user_stream_event py user account ev db).1

  normalized-Runs :
      (r : Normalized OrderEvent) (db : Database)
      → IsKept db
      → IsKept (apply_normalized user account r db).1
        × Runs (view db.executions) (view (apply_normalized user account r db).1.executions)
  unfolding apply_normalized
  normalized-Runs (err e) db k = (k, stay)
  normalized-Runs (ok ev) db k = (
    apply-IsKept user account ev "testnet_user_stream_event" db k,
    apply-Runs user account ev "testnet_user_stream_event" db k,
  )

  handle_typed-Runs :
      (type : EventType) (ev : UserStreamEvent) (db : Database)
      → IsKept db
      → let db' = (handle_typed py type user account ev db).1 in
        IsKept db' × Runs (view db.executions) (view db'.executions)
  unfolding handle_typed
  handle_typed-Runs order_event ev db k =
      normalized-Runs (normalize_stream_event py ev.exchange_name ev.raw_payload) db k
  handle_typed-Runs balance_event ev db k = (k, stay)
  handle_typed-Runs position_event ev db k = (k, stay)
  handle_typed-Runs unknown_event ev db k = (k, stay)

  -- An event of a user stream is a run of the specification.
  pub handle-Runs :
      (ev : UserStreamEvent) (db : Database)
      → IsKept db
      → let db' = (handle_user_stream_event py user account ev db).1 in
        IsKept db' × Runs (view db.executions) (view db'.executions)
  unfolding handle_user_stream_event
  handle-Runs ev db k = handle_typed-Runs ev.event_type ev db k

  -- Any events of a user stream, whatever their documents say, refine the specification: what they
  -- do to the table of executions is a run of single allowed moves, none of which adds, removes or
  -- renames an execution, and the table is kept, if it was kept before.
  pub handle_all-Runs :
      (evs : List UserStreamEvent) (db : Database)
      → IsKept db
      → IsKept (handle_all evs db) × Runs (view db.executions) (view (handle_all evs db).executions)
  unfolding handle_all
  handle_all-Runs [] db k = (k, stay)
  handle_all-Runs (ev ∷ evs) db k =
      let (k', first) = handle-Runs ev db k in
      let (k'', rest) = handle_all-Runs evs (handle_user_stream_event py user account ev db).1 k' in
      (k'', Runs-trans first rest)

-- The entry of the view at a position.
abbrev pub entry : ℕ → View → Option (Option ℕ × OrderExecutionStatus)
entry n [] = none
entry zero (x ∷ v) = some x
entry (suc n) (x ∷ v) = entry n v

step_terminal :
    (n : ℕ) (i : Option ℕ) (s : OrderExecutionStatus) {v v' : View}
    → Step v v'
    → IsTerminal s
    → entry n v ≡ some (i, s)
    → entry n v' ≡ some (i, s)
step_terminal zero i s (here {s = a} {s' = b} allowed) last at_n =
    let stuck = (IsTerminal-iff_no_move s).0 last b in cc
step_terminal (suc n) i s (here allowed) last at_n = at_n
step_terminal zero i s (there f) last at_n = at_n
step_terminal (suc n) i s (there f) last at_n = step_terminal n i s f last at_n

Runs-terminal :
    (n : ℕ) (i : Option ℕ) (s : OrderExecutionStatus) {v v' : View}
    → Runs v v'
    → IsTerminal s
    → entry n v ≡ some (i, s)
    → entry n v' ≡ some (i, s)
Runs-terminal n i s stay last at_n = at_n
Runs-terminal n i s (go f fs) last at_n =
    Runs-terminal n i s fs last (step_terminal n i s f last at_n)

-- An execution in a terminal status stays at its place in that status through any events of a user
-- stream, where the table of executions is kept.
pub handle_all_terminal :
    (py : Python) (user account n : ℕ) (i : Option ℕ) (s : OrderExecutionStatus)
    (evs : List UserStreamEvent) (db : Database)
    → IsKept db
    → IsTerminal s
    → entry n (view db.executions) ≡ some (i, s)
    → entry n (view (handle_all py user account evs db).executions) ≡ some (i, s)
handle_all_terminal py user account n i s evs db k last at_n =
    Runs-terminal n i s (handle_all-Runs py user account evs db k).1 last at_n
