-- ===== src/Reconcile/Tests.antt =====
-- Reports and repairs on concrete snapshots.
use crypto_copy_trading_plat.Prelude.{◌≡◌, ◌↔◌, true, false, [], ◌∷◌, List, arith, All}
use crypto_copy_trading_plat.Prelude.Int.{pos, ◌-ℤ◌}
use crypto_copy_trading_plat.Prelude.Text.{Text, codes}
use crypto_copy_trading_plat.Decimal.Laws.{Fits}
use crypto_copy_trading_plat.Samples.{units, btc}
use crypto_copy_trading_plat.Reconcile.{
  matched, critical, exchange_target, Snapshot, Difference, ReconcileReport, RepairSettings,
  quantity_of, normalize_snapshots, reconcile_position_snapshots, build_reconciliation_repair_plan,
  report_of,
}
use crypto_copy_trading_plat.Reconcile.Quantities.{total, quantity_of-normalize_snapshots}
use crypto_copy_trading_plat.Reconcile.Report.{AgreeOn, reconcile_matched_iff}
use crypto_copy_trading_plat.Reconcile.Repair.{gap, Leads, build_plan-Leads}

abbrev snapshot : Text → Text → List Snapshot
snapshot s t =
    record { symbol = s; quantity = units 2 } ∷ record { symbol = t; quantity = units 3 } ∷ []

abbrev exchange : List Snapshot
exchange = snapshot btc (codes "btcusdt")

quantity_of-normalize_snapshots_example :
    quantity_of btc (normalize_snapshots exchange) ≡ total btc (pos 0) exchange
quantity_of-normalize_snapshots_example = quantity_of-normalize_snapshots btc exchange

reconcile_matched_iff_example :
    ((reconcile_position_snapshots exchange [] exchange (units 1) (units 1)).status ≡ matched) ↔ (
      (s : Text)
      → AgreeOn
          (normalize_snapshots exchange)
          (normalize_snapshots [])
          (normalize_snapshots exchange)
          (units 1)
          s)
reconcile_matched_iff_example =
    reconcile_matched_iff exchange [] exchange (units 1) (units 1) (omega arith)

-- The exchange holds 5, the database 5, and the target is 3.
abbrev difference : Difference
difference = record {
  symbol = btc;
  exchange_quantity = units 5;
  database_quantity = units 5;
  target_quantity = units 3;
  exchange_database_delta = pos 0;
  exchange_target_delta = units 2;
  database_target_delta = units 2;
  severity = critical;
  reasons = exchange_target ∷ [];
}

abbrev report : ReconcileReport
report = report_of (difference ∷ [])

abbrev proposing : RepairSettings
proposing = record { proposal_generation_enabled = true; execution_enabled = true }

gap-Fits : Fits (gap difference)
unfolding ◌-ℤ◌
gap-Fits = omega arith

build_plan-Leads_example :
    All Leads (build_reconciliation_repair_plan report proposing).proposals
    × ((build_reconciliation_repair_plan report proposing).auto_fix_allowed ≡ false)
    × ((build_reconciliation_repair_plan report proposing).execution_allowed ≡ false)
unfolding report_of
build_plan-Leads_example = build_plan-Leads report proposing ((gap-Fits, omega arith), tt)
