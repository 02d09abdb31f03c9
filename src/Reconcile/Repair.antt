-- ===== src/Reconcile/Repair.antt =====
-- What the proposals of a repair plan lead to.
use mathlib.Core.Path.{subst}
use crypto_copy_trading_plat.Prelude.{
  ◌≡◌, ◌↔◌, inl, inr, refl, true, false, Option, none, some, List, [], ◌∷◌, All, arith, Bool-cases,
}
use crypto_copy_trading_plat.Prelude.Int.{ℤ, pos, ltb_ℤ, magnitude, ◌-ℤ◌, ◌+ℤ◌, int_laws}
use crypto_copy_trading_plat.Decimal.{Decimal, sub}
use crypto_copy_trading_plat.Decimal.Laws.{Fits, sub-exact, abs-exact}
use crypto_copy_trading_plat.Reconcile.{
  Difference, Proposal, nonzero, buy_to_target, sell_to_target, review_database_position,
  proposal_for_difference, ReconcileReport, RepairSettings, build_reconciliation_repair_plan,
  proposals_for, cons_some, is_matched,
}

-- The exchange quantity after the order that a proposal asks for.
abbrev pub repaired : Proposal → Decimal
repaired p = elim p.action [
  | buy_to_target ↦ p.of.exchange_quantity +ℤ p.quantity_delta
  | sell_to_target ↦ p.of.exchange_quantity -ℤ p.quantity_delta
  | review_database_position ↦ p.of.exchange_quantity
]

-- A proposal's quantity is positive, and its order brings the exchange quantity to the target.
pub record Leads (p : Proposal) : Type 0 where
  pub positive : ltb_ℤ (pos 0) p.quantity_delta ≡ true
  pub arrives : repaired p ≡ p.of.target_quantity

-- `delta` is the difference before it is rounded.
abbrev pub gap : Difference → ℤ
gap d = d.target_quantity -ℤ d.exchange_quantity

up_to : (e t : ℤ) → e +ℤ (t -ℤ e) ≡ t
up_to e t = grind int_laws

down_to : (e t : ℤ) → ltb_ℤ (t -ℤ e) (pos 0) ≡ true → e -ℤ pos (magnitude (t -ℤ e)) ≡ t
down_to e t h = grind int_laws

no_gap : (e t : ℤ) → ltb_ℤ (pos 0) (t -ℤ e) ≡ false → ltb_ℤ (t -ℤ e) (pos 0) ≡ false → e ≡ t
no_gap e t h h' = grind int_laws

gap_closed : (e t : ℤ) → e ≡ t → t -ℤ e ≡ pos 0
gap_closed e t h = grind int_laws

magnitude_positive : (a : ℤ) → ltb_ℤ a (pos 0) ≡ true → ltb_ℤ (pos 0) (pos (magnitude a)) ≡ true
magnitude_positive a h = ground arith

nonzero_positive : (a : ℤ) → nonzero a ≡ true → ltb_ℤ (pos 0) (pos (magnitude a)) ≡ true
nonzero_positive a h = ground arith

some_same : {A : Type 0} (a b : A) → some a ≡ some b → a ≡ b
some_same a b h = cc h

proposal-Leads :
    (d : Difference) (p : Proposal)
    → Fits (gap d)
    → Fits d.database_target_delta
    → proposal_for_difference d ≡ some p
    → Leads p
unfolding proposal_for_difference
proposal-Leads d p fits fits' h =
    let e = d.exchange_quantity in
    let t = d.target_quantity in
    let exact : sub t e ≡ gap d = sub-exact t e fits in
    elim (Bool-cases (ltb_ℤ (pos 0) (gap d))) [
      | inl up ↦
          subst Leads (some_same _ p (rw (exact, up) at h))
            (record { positive = up; arrives = up_to e t })
      | inr not_up ↦ elim (Bool-cases (ltb_ℤ (gap d) (pos 0))) [
        | inl down ↦
            subst Leads (some_same _ p (rw (exact, not_up, down, abs-exact (gap d) fits) at h))
              (record { positive = magnitude_positive (gap d) down; arrives = down_to e t down })
        | inr not_down ↦ elim (Bool-cases (nonzero d.database_target_delta)) [
          | inl review ↦
              subst Leads
                (some_same _ p (
                  rw (exact, not_up, not_down, review, abs-exact d.database_target_delta fits') at
                    h))
                (record {
                  positive = nonzero_positive d.database_target_delta review;
                  arrives = no_gap e t not_up not_down;
                })
          | inr nothing ↦ cc (rw (exact, not_up, not_down, nothing) at h)
        ]
      ]
    ]

-- Both differences that decide about a proposal have at most 28 digits.
abbrev pub Sized : Difference → Type 0
Sized d = Fits (gap d) × Fits d.database_target_delta

cons-Leads :
    (o : Option Proposal) (ps : List Proposal)
    → ((p : Proposal) → o ≡ some p → Leads p)
    → All Leads ps
    → All Leads (cons_some o ps)
cons-Leads none ps h all = all
cons-Leads (some p) ps h all = (h p refl, all)

proposals-Leads : (ds : List Difference) → All Sized ds → All Leads (proposals_for ds)
unfolding proposals_for
proposals-Leads [] sized = tt
proposals-Leads (d ∷ ds) sized =
    cons-Leads (proposal_for_difference d) (proposals_for ds)
      (λ p h. proposal-Leads d p sized.0.0 sized.0.1 h) (proposals-Leads ds sized.1)

-- Where both differences of every reported symbol, from the exchange and from the database to the
-- target, have at most 28 digits: each proposal of a plan has a positive quantity, and trading that
-- quantity brings the exchange to the target, or leaves it there where only the database is to be
-- reviewed; whatever the settings say, the plan allows neither a repair nor an execution by itself.
pub build_plan-Leads :
    (report : ReconcileReport) (settings : RepairSettings)
    → All Sized report.differences
    → All Leads (build_reconciliation_repair_plan report settings).proposals
      × ((build_reconciliation_repair_plan report settings).auto_fix_allowed ≡ false)
      × ((build_reconciliation_repair_plan report settings).execution_allowed ≡ false)
unfolding build_reconciliation_repair_plan
build_plan-Leads report settings sized =
    let leads = proposals-Leads report.differences sized in
    elim (Bool-cases settings.proposal_generation_enabled) [
      | inl on ↦ elim (Bool-cases (is_matched report.status)) [
        | inl same ↦ rw (on, same) (tt, refl, refl)
        | inr drifted ↦ rw (on, drifted) (leads, refl, refl)
      ]
      | inr off ↦ rw off (tt, refl, refl)
    ]

-- There is no proposal for a difference exactly when the exchange is at the target and the
-- database is too.
no_proposal_iff :
    (d : Difference)
    → Fits (gap d)
    → (proposal_for_difference d ≡ none)
      ↔ ((d.exchange_quantity ≡ d.target_quantity) × (d.database_target_delta ≡ pos 0))
unfolding proposal_for_difference
no_proposal_iff d fits =
    let e = d.exchange_quantity in
    let t = d.target_quantity in
    let exact : sub t e ≡ gap d = sub-exact t e fits in
    rw exact (
      λ h. (no_gap e t (ground arith) (ground arith), ground arith),
      λ h. rw (h.1, gap_closed e t h.0) refl,
    )
