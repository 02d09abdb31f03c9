-- ===== src/Lifecycle/Again.antt =====
-- An event that comes twice.
use Prim.Native.String.{String}
use crypto_copy_trading_plat.Prelude.{
  ℕ, ◌≡◌, refl, ap, Bool, true, false, not, ◌&&◌, ◌||◌, some, List, [], ◌∷◌, arith, ◌==◌, find?,
  inl, inr, Bool-cases, Option-cases,
}
use crypto_copy_trading_plat.Prelude.Text.{Text, text_eq_refl}
use crypto_copy_trading_plat.Domain.{
  OrderExecution, exchange_eq, client_id_text, exchange_id_text, status_eq,
}
use crypto_copy_trading_plat.Database.{Database}
use crypto_copy_trading_plat.Database.Rows.{find?-sound}
use crypto_copy_trading_plat.OrderState.{Tracked, may_move, set_status, add_row, flush}
use crypto_copy_trading_plat.Orders.{replace_first, put_row, loaded}
use crypto_copy_trading_plat.Orders.Kept.{IsKept, found-IsHistory}
use crypto_copy_trading_plat.Lifecycle.{
  OrderEvent, has_identifier, is_given, is_named, exchange_column, is_event_row, fill_exchange_id,
  apply_row, apply_found, apply,
}
use crypto_copy_trading_plat.Lifecycle.Branches.{
  apply_row_duplicate, apply_row_stale, apply_row_moves, fill_same,
}

-- The row that a query finds is found again after it was changed to a row that the query selects.
find?-replace_first :
    (p : OrderExecution → Bool) (e e' : OrderExecution) (es : List OrderExecution)
    → find? p es ≡ some e
    → p e' ≡ true
    → find? p (replace_first p e' es) ≡ some e'
unfolding replace_first
find?-replace_first p e e' [] found fits = cc
find?-replace_first p e e' (x ∷ es) found fits = elim (Bool-cases (p x)) [
  | inl hit ↦ rw (hit, fits) refl
  | inr miss ↦ rw (miss, miss) (find?-replace_first p e e' es (rw miss at found) fits)
]

replace_first_same :
    (p : OrderExecution → Bool) (e : OrderExecution) (es : List OrderExecution)
    → find? p es ≡ some e
    → replace_first p e es ≡ es
unfolding replace_first
replace_first_same p e [] found = refl
replace_first_same p e (x ∷ es) found = elim (Bool-cases (p x)) [
  | inl hit ↦ ground (arith, rw hit at found)
  | inr miss ↦ rw miss (ap (λ l. x ∷ l) (replace_first_same p e es (rw miss at found)))
]

replace_first_twice :
    (p : OrderExecution → Bool) (e : OrderExecution) (es : List OrderExecution)
    → p e ≡ true
    → replace_first p e (replace_first p e es) ≡ replace_first p e es
unfolding replace_first
replace_first_twice p e [] fits = refl
replace_first_twice p e (x ∷ es) fits = elim (Bool-cases (p x)) [
  | inl hit ↦ rw (hit, fits) refl
  | inr miss ↦ rw (miss, miss) (ap (λ l. x ∷ l) (replace_first_twice p e es fits))
]

and_left : (a b : Bool) → (a && b) ≡ true → a ≡ true
and_left a b h = ground arith

named_anyway :
    (a b c d f f' : Bool)
    → (a && (b && (c && (d || f)))) ≡ true
    → f' ≡ true
    → (a && (b && (c && (d || f')))) ≡ true
named_anyway a b c d f f' h fits = ground arith

given_id-is_named : (t : Text) → is_given (some t) ≡ true → is_named (some t) (some t) ≡ true
unfolding is_named
given_id-is_named [] given = cc
given_id-is_named (c ∷ s) given = text_eq_refl (c ∷ s)

-- The event still names the row whose missing exchange id it gave.
is_event_row-fill :
    (user account : ℕ) (ev : OrderEvent) (e : OrderExecution)
    → is_event_row user account ev e ≡ true
    → is_event_row user account ev (fill_exchange_id ev e) ≡ true
unfolding is_event_row exchange_id_text
is_event_row-fill user account ev e h =
    let missing_id = not (is_given (exchange_column e)) in
    elim (Bool-cases (is_given ev.exchange_order_id && missing_id)) [
      | inl fills ↦ elim (Option-cases ev.exchange_order_id) [
        | inl missing ↦ cc (rw missing at fills)
        | inr (t, given) ↦
            let now : (is_given (some t) && missing_id) ≡ true = rw given at fills in
            rw (fills, given)
              (named_anyway (e.user_id == user) (e.exchange_account_id == account)
                (exchange_eq e.exchange_name ev.exchange_name)
                (is_named ev.client_order_id (some (client_id_text e.client_order_id)))
                (is_named ev.exchange_order_id (exchange_column e)) (is_named (some t) (some t)) h
                (given_id-is_named t (and_left (is_given (some t)) missing_id now)))
      ]
      | inr keeps ↦ rw keeps h
    ]

-- After an event's move its execution has the event's status and is still the one that it names.
apply_row_moves-fits :
    (user account i : ℕ) (ev : OrderEvent) (reason : String) (m : Tracked)
    → m.execution.id ≡ some i
    → status_eq m.execution.status ev.status ≡ false
    → may_move m.execution.status ev.status ≡ true
    → is_event_row user account ev m.execution ≡ true
    → let e = (apply_row ev reason m).1.execution in
      (is_event_row user account ev e ≡ true) × (status_eq e.status ev.status ≡ true)
apply_row_moves-fits user account i ev reason m known other allowed fits =
    let e = (set_status ev.status m).execution in
    let (same_id, same_status) = fill_same ev e in
    rw (apply_row_moves ev reason m known other allowed) (
      unfold flush add_row in
      (
        is_event_row-fill user account ev e (unfold is_event_row in fits),
        rw same_status (ground arith),
      ))

module _ (user account : ℕ) (ev : OrderEvent) (reason reason' : String) where
  -- What one event left is what the same event leaves again.
  apply_row_settled :
      (i : ℕ) (m : Tracked)
      → m.execution.id ≡ some i
      → is_event_row user account ev m.execution ≡ true
      → let m' = (apply_row ev reason m).1 in
        (is_event_row user account ev m'.execution ≡ true) × ((apply_row ev reason' m').1 ≡ m')
  apply_row_settled i m known fits = elim (Bool-cases (status_eq m.execution.status ev.status)) [
    | inl same ↦
        rw (apply_row_duplicate ev reason m same)
          (fits, rw (apply_row_duplicate ev reason' m same) refl)
    | inr other ↦ elim (Bool-cases (may_move m.execution.status ev.status)) [
      | inl allowed ↦
          let (fits', same') =
            apply_row_moves-fits user account i ev reason m known other allowed fits in
          (fits', ap (λ r. r.1) (apply_row_duplicate ev reason' (apply_row ev reason m).1 same'))
      | inr refused ↦
          rw (apply_row_stale ev reason m other refused)
            (fits, ap (λ r. r.1) (apply_row_stale ev reason' m other refused))
    ]
  ]

  store_again :
      (e : OrderExecution) (m' : Tracked) (db : Database)
      → let p = is_event_row user account ev in
        find? p db.executions ≡ some e
        → p m'.execution ≡ true
        → (apply_row ev reason' m').1 ≡ m'
        → let db' = put_row p m' db in
          (apply_found p ev reason' (find? p db'.executions) db').1 ≡ db'
  unfolding apply_found
  store_again e m' db found fits settled =
      let p = is_event_row user account ev in
      rw (find?-replace_first p e m'.execution db.executions found fits) (
        rw settled (
          ap (λ l. record db { executions = l; log = m'.log })
            (replace_first_twice p m'.execution db.executions fits)))

  -- The same event a second time, under any reason, changes nothing, where the log tells the story
  -- of every execution.
  pub apply_again :
      (db : Database)
      → IsKept db
      → let db' = (apply user account ev reason db).1 in (apply user account ev reason' db').1 ≡ db'
  unfolding apply apply_found
  apply_again db k =
      let p = is_event_row user account ev in
      elim (Bool-cases (has_identifier ev)) [
        | inl given ↦ elim (Option-cases (find? p db.executions)) [
          | inl missing ↦ rw (given, missing, missing) refl
          | inr (e, found) ↦
              let (i, h) = found-IsHistory p e db k found in
              let (fits, settled) =
                apply_row_settled i (loaded e db) h.known (find?-sound p db.executions e found) in
              rw (given, found)
                (store_again e (apply_row ev reason (loaded e db)).1 db found fits settled)
        ]
        | inr missing ↦ rw missing refl
      ]
