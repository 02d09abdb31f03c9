-- ===== src/Position/Fills.antt =====
-- What fills do to the positions, and that a computed delta leads to its target.
use crypto_copy_trading_plat.Prelude.{
  ℕ, ◌≡◌, refl, ap, ◌∙◌, Bool, true, false, ◌&&◌, Option, none, some, List, [], ◌∷◌, ◌++◌, find?,
  ◌==◌, arith, Option-cases, inl, inr,
}
use crypto_copy_trading_plat.Prelude.Int.{pos, ◌+ℤ◌, ◌-ℤ◌, int_laws, magnitude}
use crypto_copy_trading_plat.Prelude.Text.{Text, text_eq, text_eq_refl, text_eq_iff}
use crypto_copy_trading_plat.Decimal.{Decimal, sub, abs}
use crypto_copy_trading_plat.Decimal.Laws.{Fits, add-exact, sub-exact, abs-exact}
use crypto_copy_trading_plat.Domain.{OrderSide, buy, sell, Position}
use crypto_copy_trading_plat.Database.Rows.{find?-append_none}
use crypto_copy_trading_plat.Position.{
  is_position, new_position, get_or_create_position, delta_side, calculate_delta, filled_quantity,
  update_first, fill_row, apply_fill,
}

abbrev quantity_or_zero : Option Position → Decimal
quantity_or_zero none = pos 0
quantity_or_zero (some p) = p.quantity

-- The quantity that an account holds, 0 where it has no row.
abbrev pub held : ℕ → ℕ → Text → List Position → Decimal
held user account symbol rows = quantity_or_zero (find? (is_position user account symbol) rows)

find?-update_first :
    (p : Position → Bool) (f : Position → Position) (rows : List Position) (x : Position)
    → ((y : Position) → p (f y) ≡ p y)
    → find? p rows ≡ some x
    → find? p (update_first p f rows) ≡ some (f x)
unfolding update_first
find?-update_first p f [] x keeps found = cc
find?-update_first p f (y ∷ rows) x keeps found =
    ground (arith, keeps y, find?-update_first p f rows x keeps)

find?-update_other :
    (p q : Position → Bool) (f : Position → Position) (rows : List Position)
    → ((y : Position) → q (f y) ≡ q y)
    → ((y : Position) → p y ≡ true → q y ≡ false)
    → find? q (update_first p f rows) ≡ find? q rows
unfolding update_first
find?-update_other p q f [] keeps apart = refl
find?-update_other p q f (y ∷ rows) keeps apart =
    ground (arith, keeps y, apart y, find?-update_other p q f rows keeps apart)

is_position_self :
    (user account : ℕ) (symbol : Text)
    → is_position user account symbol (new_position user account symbol) ≡ true
is_position_self user account symbol = ground (arith, text_eq_refl symbol)

-- After `get_or_create_position` the query finds the row that was returned.
get_or_create-found :
    (user account : ℕ) (symbol : Text) (rows : List Position)
    → let (p, rows') = get_or_create_position user account symbol rows in
      find? (is_position user account symbol) rows' ≡ some p
unfolding get_or_create_position
get_or_create-found user account symbol rows =
    elim (Option-cases (find? (is_position user account symbol) rows)) [
      | inl missing ↦ rw missing (
          find?-append_none (is_position user account symbol) rows
            (new_position user account symbol) missing (is_position_self user account symbol))
      | inr (p, found) ↦ rw (found, found) refl
    ]

-- The row that `get_or_create_position` returns holds what the account holds.
pub get_or_create-held :
    (user account : ℕ) (symbol : Text) (rows : List Position)
    → (get_or_create_position user account symbol rows).0.quantity ≡ held user account symbol rows
unfolding get_or_create_position
get_or_create-held user account symbol rows =
    elim (Option-cases (find? (is_position user account symbol) rows)) [
      | inl missing ↦ rw missing refl
      | inr (p, found) ↦ rw found refl
    ]

-- A position is made at most once: a second call finds what the first returned, and changes nothing.
get_or_create_position_again :
    (user account : ℕ) (symbol : Text) (rows : List Position)
    → get_or_create_position user account symbol (get_or_create_position user account symbol rows).1
      ≡ get_or_create_position user account symbol rows
unfolding get_or_create_position
get_or_create_position_again user account symbol rows =
    elim (Option-cases (find? (is_position user account symbol) rows)) [
      | inl missing ↦
          rw
            (
              missing,
              find?-append_none (is_position user account symbol) rows
                  (new_position user account symbol) missing (is_position_self user account symbol),
            )
            refl
      | inr (p, found) ↦ rw (found, found) refl
    ]

-- A fill makes the position itself where it is missing.
pub apply_fill-get_or_create :
    (user account : ℕ) (symbol : Text) (side : OrderSide) (quantity : Decimal)
    (rows : List Position)
    → apply_fill user account symbol side quantity
        (get_or_create_position user account symbol rows).1
      ≡ apply_fill user account symbol side quantity rows
unfolding apply_fill
apply_fill-get_or_create user account symbol side quantity rows =
    rw (get_or_create_position_again user account symbol rows) refl

-- A fill changes the held quantity of its account and symbol by the filled quantity, also where the
-- account had no row.
held-apply_fill :
    (user account : ℕ) (symbol : Text) (side : OrderSide) (quantity : Decimal)
    (rows : List Position)
    → held user account symbol (apply_fill user account symbol side quantity rows)
      ≡ filled_quantity side quantity (held user account symbol rows)
unfolding apply_fill
held-apply_fill user account symbol side quantity rows =
    let (p, rows') = get_or_create_position user account symbol rows in
    let after =
      find?-update_first (is_position user account symbol) (fill_row side quantity) rows' p
        (λ y. refl) (get_or_create-found user account symbol rows) in
    ap quantity_or_zero after
    ∙ ap (filled_quantity side quantity) (get_or_create-held user account symbol rows)

-- Two keys of positions that no row has both of.
is_position_apart :
    (u a u' a' : ℕ) (s s' : Text) (y : Position)
    → (u == u' && (a == a' && text_eq s s')) ≡ false
    → is_position u a s y ≡ true
    → is_position u' a' s' y ≡ false
is_position_apart u a u' a' s s' y other h =
    ground (arith, text_eq_iff y.symbol s, text_eq_iff y.symbol s', text_eq_iff s s')

find?-append_other :
    (q : Position → Bool) (rows : List Position) (x : Position)
    → q x ≡ false
    → find? q (rows ++ x ∷ []) ≡ find? q rows
find?-append_other q [] x h = rw h refl
find?-append_other q (y ∷ rows) x h = ground (arith, find?-append_other q rows x h)

get_or_create-other :
    (q : Position → Bool) (user account : ℕ) (symbol : Text) (rows : List Position)
    → q (new_position user account symbol) ≡ false
    → find? q (get_or_create_position user account symbol rows).1 ≡ find? q rows
unfolding get_or_create_position
get_or_create-other q user account symbol rows h =
    elim (Option-cases (find? (is_position user account symbol) rows)) [
      | inl missing ↦ rw missing (find?-append_other q rows (new_position user account symbol) h)
      | inr (p, found) ↦ rw found refl
    ]

-- A fill leaves the held quantity of every other user, account or symbol alone.
held-apply_fill_other :
    (u a u' a' : ℕ) (s s' : Text) (side : OrderSide) (quantity : Decimal) (rows : List Position)
    → (u == u' && (a == a' && text_eq s s')) ≡ false
    → held u' a' s' (apply_fill u a s side quantity rows) ≡ held u' a' s' rows
unfolding apply_fill
held-apply_fill_other u a u' a' s s' side quantity rows other =
    let kept =
      find?-update_other (is_position u a s) (is_position u' a' s') (fill_row side quantity)
        (get_or_create_position u a s rows).1 (λ y. refl)
        (λ y. is_position_apart u a u' a' s s' y other) in
    let same =
      get_or_create-other (is_position u' a' s') u a s rows
        (is_position_apart u a u' a' s s' (new_position u a s) other (is_position_self u a s)) in
    ap quantity_or_zero (kept ∙ same)

delta_reaches :
    (side : OrderSide) (current target : Decimal)
    → Fits (target -ℤ current)
    → Fits target
    → delta_side (target -ℤ current) ≡ some side
    → filled_quantity side (abs (target -ℤ current)) current ≡ target
unfolding delta_side filled_quantity
delta_reaches buy current target fits fits' h =
    let e : current +ℤ pos (magnitude (target -ℤ current)) ≡ target = grind int_laws in
    rw (abs-exact (target -ℤ current) fits)
      (add-exact current (pos (magnitude (target -ℤ current))) (rw e fits') ∙ e)
delta_reaches sell current target fits fits' h =
    let e : current -ℤ pos (magnitude (target -ℤ current)) ≡ target = grind int_laws in
    rw (abs-exact (target -ℤ current) fits)
      (sub-exact current (pos (magnitude (target -ℤ current))) (rw e fits') ∙ e)

delta_none : (current target : Decimal) → delta_side (target -ℤ current) ≡ none → current ≡ target
unfolding delta_side
delta_none current target h = grind int_laws

-- Filling the computed delta on the computed side makes the held quantity the target, and where no
-- side is computed it is the target already, if target and difference have at most 28 digits.
pub delta_fill_reaches :
    (user account : ℕ) (symbol : Text) (target : Decimal) (rows : List Position)
    → Fits target
    → Fits (target -ℤ held user account symbol rows)
    → let d = calculate_delta symbol (held user account symbol rows) target in
      ((side : OrderSide)
        → d.side ≡ some side
        → held user account symbol (apply_fill user account symbol side d.delta_quantity rows)
          ≡ target)
      × (d.side ≡ none → held user account symbol rows ≡ target)
unfolding calculate_delta
delta_fill_reaches user account symbol target rows fits' fits =
    let current = held user account symbol rows in
    let exact = sub-exact target current fits in
    (
      λ side h.
          held-apply_fill user account symbol side (abs (sub target current)) rows
          ∙ rw exact (delta_reaches side current target fits fits' (rw exact at h)),
      λ h. delta_none current target (rw exact at h),
    )
