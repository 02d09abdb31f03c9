-- ===== src/Reconcile/Report.antt =====
-- When a report finds the positions matched.
use crypto_copy_trading_plat.Prelude.{
  ◌≡◌, ◌↔◌, refl, Bool, true, false, Bool-cases, inl, inr, List, [], ◌∷◌, ◌++◌, arith, is_empty,
}
use crypto_copy_trading_plat.Prelude.Int.{pos, ◌≤ℤ◌, ◌-ℤ◌}
use crypto_copy_trading_plat.Prelude.Text.{Text, text_eq, text_eq_iff, text_in}
use crypto_copy_trading_plat.Decimal.{Decimal, sub, abs, round, round_digits}
use crypto_copy_trading_plat.Reconcile.{
  Difference, matched, is_fine, Snapshot, Quantities, quantity_of, normalize_snapshots, sorted_keys,
  difference_for_symbol, drifted, report_of, reconcile_position_snapshots,
}
use crypto_copy_trading_plat.Reconcile.Quantities.{quantity_of_missing, sorted_keys-append}

-- Three quantities that differ by at most the tolerance.
abbrev pub Agree : Decimal → Decimal → Decimal → Decimal → Type 0
Agree e d t tolerance =
    (abs (sub e d) ≤ℤ tolerance) × (abs (sub e t) ≤ℤ tolerance) × (abs (sub d t) ≤ℤ tolerance)

difference-Agree :
    (s : Text) (e d t tolerance threshold : Decimal)
    → (is_fine (difference_for_symbol s e d t tolerance threshold).severity ≡ true)
      ↔ Agree e d t tolerance
unfolding difference_for_symbol
difference-Agree s e d t tolerance threshold = (λ h. ground arith, λ h. ground arith)

abs-sub_zero : abs (sub (pos 0) (pos 0)) ≡ pos 0
unfolding abs sub round round_digits ◌-ℤ◌
abs-sub_zero = refl

zero-Agree : (tolerance : Decimal) → pos 0 ≤ℤ tolerance → Agree (pos 0) (pos 0) (pos 0) tolerance
zero-Agree tolerance positive = rw abs-sub_zero (positive, positive, positive)

-- The quantities of one symbol agree.
abbrev pub AgreeOn : Quantities → Quantities → Quantities → Decimal → Text → Type 0
AgreeOn e d t tolerance s = Agree (quantity_of s e) (quantity_of s d) (quantity_of s t) tolerance

module _ (e d t : Quantities) (tolerance threshold : Decimal) where
  abbrev none_drifted : List Text → Bool
  none_drifted ss = is_empty (drifted e d t tolerance threshold ss)

  drifted-Agree :
      (ss : List Text) (s : Text)
      → none_drifted ss ≡ true
      → text_in s ss ≡ true
      → AgreeOn e d t tolerance s
  unfolding drifted text_in
  drifted-Agree [] s h listed = cc listed
  drifted-Agree (r ∷ ss) s h listed =
      let judge =
        difference_for_symbol r (quantity_of r e) (quantity_of r d) (quantity_of r t) tolerance
          threshold in
      elim (Bool-cases (is_fine judge.severity)) [
        | inl good ↦ elim (Bool-cases (text_eq s r)) [
          | inl same ↦ rw ((text_eq_iff s r).0 same) (
              (difference-Agree r (quantity_of r e) (quantity_of r d) (quantity_of r t) tolerance
                  threshold).0
                good)
          | inr other ↦ drifted-Agree ss s (rw good at h) (rw other at listed)
        ]
        | inr bad ↦ cc (rw bad at h)
      ]

  Agree-drifted :
      (ss : List Text) → ((s : Text) → AgreeOn e d t tolerance s) → none_drifted ss ≡ true
  unfolding drifted
  Agree-drifted [] all = refl
  Agree-drifted (s ∷ ss) all =
      rw
        ((difference-Agree s (quantity_of s e) (quantity_of s d) (quantity_of s t) tolerance
            threshold).1
          (all s))
        (Agree-drifted ss all)

  -- A symbol that none of the three lists is at zero in all of them.
  unlisted-Agree :
      (s : Text)
      → pos 0 ≤ℤ tolerance
      → text_in s (sorted_keys (e ++ (d ++ t))) ≡ false
      → AgreeOn e d t tolerance s
  unlisted-Agree s positive unlisted =
      let in_e : text_in s (sorted_keys e) ≡ false =
        ground (arith, sorted_keys-append s e (d ++ t)) in
      let in_d : text_in s (sorted_keys d) ≡ false =
        ground (arith, sorted_keys-append s e (d ++ t), sorted_keys-append s d t) in
      let in_t : text_in s (sorted_keys t) ≡ false =
        ground (arith, sorted_keys-append s e (d ++ t), sorted_keys-append s d t) in
      rw (quantity_of_missing s e in_e, quantity_of_missing s d in_d, quantity_of_missing s t in_t)
        (zero-Agree tolerance positive)

matched_none : (ds : List Difference) → (report_of ds).status ≡ matched → is_empty ds ≡ true
unfolding report_of
matched_none [] h = refl
matched_none (d ∷ ds) h = cc h

-- With a tolerance that is not negative, a report says that the positions match exactly when the
-- quantities on the exchange, in the database and of the target differ by at most the tolerance
-- for every symbol, also for those that some or all of the lists leave out.
pub reconcile_matched_iff :
    (exchange database target : List Snapshot) (tolerance threshold : Decimal)
    → pos 0 ≤ℤ tolerance
    → ((reconcile_position_snapshots exchange database target tolerance threshold).status ≡ matched)
      ↔ ((s : Text)
          → AgreeOn
              (normalize_snapshots exchange)
              (normalize_snapshots database)
              (normalize_snapshots target)
              tolerance
              s)
unfolding reconcile_position_snapshots
reconcile_matched_iff exchange database target tolerance threshold positive =
    let e = normalize_snapshots exchange in
    let d = normalize_snapshots database in
    let t = normalize_snapshots target in
    let keys = sorted_keys (e ++ (d ++ t)) in
    (
      λ h s. elim (Bool-cases (text_in s keys)) [
        | inl listed ↦ drifted-Agree e d t tolerance threshold keys s (matched_none _ h) listed
        | inr unlisted ↦ unlisted-Agree e d t tolerance threshold s positive unlisted
      ],
      λ all. rw (Agree-drifted e d t tolerance threshold keys all) refl,
    )
