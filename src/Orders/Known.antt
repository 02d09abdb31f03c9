-- ===== src/Orders/Known.antt =====
-- Whether some row of the table of executions passes a test, through changes of the table.
use crypto_copy_trading_plat.Prelude.{
  ◌≡◌, refl, Bool, true, List, [], ◌∷◌, ◌++◌, find?, Bool-cases, inl, inr,
}
use crypto_copy_trading_plat.Domain.{OrderExecution}
use crypto_copy_trading_plat.Gate.{is_some}
use crypto_copy_trading_plat.Orders.{replace_first}

module _ (p : OrderExecution → Bool) where
  abbrev pub is_known : List OrderExecution → Bool
  is_known es = is_some (find? p es)

  pub is_known-append :
      (es : List OrderExecution) (e : OrderExecution) → p e ≡ true → is_known (es ++ e ∷ []) ≡ true
  is_known-append [] e fits = rw fits refl
  is_known-append (x ∷ es) e fits = elim (Bool-cases (p x)) [
    | inl hit ↦ rw hit refl
    | inr miss ↦ rw miss (is_known-append es e fits)
  ]

  pub is_known-replace_first :
      (q : OrderExecution → Bool) (e : OrderExecution) (es : List OrderExecution)
      → p e ≡ true
      → is_known es ≡ true
      → is_known (replace_first q e es) ≡ true
  unfolding replace_first
  is_known-replace_first q e [] fits known = known
  is_known-replace_first q e (x ∷ es) fits known = elim (Bool-cases (q x)) [
    | inl hit ↦ rw (hit, fits) refl
    | inr miss ↦ elim (Bool-cases (p x)) [
      | inl first ↦ rw (miss, first) refl
      | inr later ↦ rw (miss, later) (is_known-replace_first q e es fits (rw later at known))
    ]
  ]
