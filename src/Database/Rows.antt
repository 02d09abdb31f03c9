-- ===== src/Database/Rows.antt =====
-- What a query's answer tells, and what an update of every row does to it.
use crypto_copy_trading_plat.Prelude.{
  ◌≡◌, refl, Bool, true, false, none, some, List, [], ◌∷◌, ◌++◌, map, arith, find?, All, Bool-cases,
  inl, inr,
}
use mathlib.Core.Path.{subst}

module _ {ℓ} {A : Type ℓ} where
  -- The row that a query returns passes its test.
  pub find?-sound : (p : A → Bool) (xs : List A) (x : A) → find? p xs ≡ some x → p x ≡ true
  find?-sound p [] x h = cc
  find?-sound p (y ∷ ys) x h = elim (Bool-cases (p y)) [
    | inl yes_row ↦ ground (arith, find?-sound p ys x)
    | inr no_row ↦ find?-sound p ys x (rw no_row at h)
  ]

  -- What holds of every row holds of the row that a query returns.
  pub find?-All {κ} :
      (P : A → Type κ) (p : A → Bool) (xs : List A) (x : A) → All P xs → find? p xs ≡ some x → P x
  find?-All P p [] x all h = cc
  find?-All P p (y ∷ ys) x all h = elim (Bool-cases (p y)) [
    | inl yes_row ↦ let same : y ≡ x = ground arith in subst P same all.0
    | inr no_row ↦ find?-All P p ys x all.1 (rw no_row at h)
  ]

  -- A row that is added last is found if no row before it is.
  pub find?-append_none :
      (p : A → Bool) (xs : List A) (x : A)
      → find? p xs ≡ none
      → p x ≡ true
      → find? p (xs ++ x ∷ []) ≡ some x
  find?-append_none p [] x h fits = rw fits refl
  find?-append_none p (y ∷ ys) x h fits = elim (Bool-cases (p y)) [
    | inl yes_row ↦ cc (rw yes_row at h)
    | inr no_row ↦ rw no_row (find?-append_none p ys x (rw no_row at h) fits)
  ]

  -- A row that is added last and passes the test is found, or one before it.
  pub find?-append_some :
      (p : A → Bool) (xs : List A) (x : A)
      → p x ≡ true
      → (y : A) × (find? p (xs ++ x ∷ []) ≡ some y)
  find?-append_some p [] x fits = rw fits (x, refl)
  find?-append_some p (z ∷ zs) x fits = elim (Bool-cases (p z)) [
    | inl yes_row ↦ rw yes_row (z, refl)
    | inr no_row ↦ rw no_row (find?-append_some p zs x fits)
  ]

  -- A row that does not pass the test changes nothing when it is added last.
  pub find?-append_other :
      (p : A → Bool) (xs : List A) (x : A)
      → find? p xs ≡ none
      → p x ≡ false
      → find? p (xs ++ x ∷ []) ≡ none
  find?-append_other p [] x h differs = rw differs refl
  find?-append_other p (z ∷ zs) x h differs = elim (Bool-cases (p z)) [
    | inl yes_row ↦ cc (rw yes_row at h)
    | inr no_row ↦ rw no_row (find?-append_other p zs x (rw no_row at h) differs)
  ]

  pub All-map {κ} :
      (P : A → Type κ) (f : A → A) (xs : List A) → ((x : A) → P (f x)) → All P (map f xs)
  All-map P f [] h = tt
  All-map P f (x ∷ xs) h = (h x, All-map P f xs h)
