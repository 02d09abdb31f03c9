-- ===== src/Reconcile.antt =====
-- backend/app/services/position_reconciliation.py and reconciliation_repair.py: the comparison of
-- the positions of the exchange, the database and the target, and the proposals of a repair.
pub mod Quantities
pub mod Report
pub mod Repair
mod Tests
use crypto_copy_trading_plat.Prelude.{
  Bool, true, false, not, ◌||◌, ◌&&◌, Option, none, some, List, [], ◌∷◌, ◌++◌, when, is_empty,
  if◌then◌else◌, map,
}
use crypto_copy_trading_plat.Prelude.Int.{pos, ltb_ℤ}
use crypto_copy_trading_plat.Prelude.Text.{Text, text_eq, upper}
use crypto_copy_trading_plat.Decimal.{Decimal, add, sub, abs}
use crypto_copy_trading_plat.Risk.{insert_symbol}

pub data ReconcileStatus : Type 0 where
  matched drift_detected : ReconcileStatus

pub data ReconcileSeverity : Type 0 where
  fine warning critical : ReconcileSeverity

-- The texts of `_difference_reasons`.
pub data DifferenceReason : Type 0 where
  exchange_database exchange_target database_target : DifferenceReason

pub record Snapshot : Type 0 where
  pub symbol : Text
  pub quantity : Decimal

pub record Difference : Type 0 where
  pub symbol : Text
  pub exchange_quantity : Decimal
  pub database_quantity : Decimal
  pub target_quantity : Decimal
  pub exchange_database_delta : Decimal
  pub exchange_target_delta : Decimal
  pub database_target_delta : Decimal
  pub severity : ReconcileSeverity
  pub reasons : List DifferenceReason

-- `PositionReconciliationReport`, without the two ids that it repeats.
pub record ReconcileReport : Type 0 where
  pub status : ReconcileStatus
  pub severity : ReconcileSeverity
  pub differences : List Difference
  pub auto_fix_allowed : Bool

-- A dictionary from symbols to quantities.
abbrev pub Quantities : Type 0
Quantities = List (Text × Decimal)

-- `quantities.get(symbol, Decimal("0"))`
unfoldable pub quantity_of : Text → Quantities → Decimal
quantity_of s [] = pos 0
quantity_of s ((t, d) ∷ ts) = if text_eq t s then d else quantity_of s ts

-- `normalized[symbol] = normalized.get(symbol, Decimal("0")) + quantity`
unfoldable pub add_quantity : Text → Decimal → Quantities → Quantities
add_quantity s q [] = (s, add (pos 0) q) ∷ []
add_quantity s q ((t, d) ∷ ts) =
    let rest = add_quantity s q ts in if text_eq t s then (t, add d q) ∷ ts else (t, d) ∷ rest

unfoldable pub add_snapshots : Quantities → List Snapshot → Quantities
unfolding add_quantity
add_snapshots m [] = m
add_snapshots m (x ∷ xs) = add_snapshots (add_quantity (upper x.symbol) x.quantity m) xs

-- `_normalize_snapshots`
unfoldable pub normalize_snapshots : List Snapshot → Quantities
unfolding add_snapshots
normalize_snapshots xs = add_snapshots [] xs

-- `sorted` of the keys, each once.
unfoldable pub sorted_keys : Quantities → List Text
unfolding insert_symbol
sorted_keys [] = []
sorted_keys ((t, d) ∷ ts) = insert_symbol t (sorted_keys ts)

unfoldable pub outside_tolerance : Decimal → Decimal → Bool
outside_tolerance delta tolerance = ltb_ℤ tolerance (abs delta)

unfoldable pub difference_reasons : Decimal → Decimal → Decimal → Decimal → List DifferenceReason
unfolding outside_tolerance
difference_reasons ed et dt tolerance =
    when (outside_tolerance ed tolerance) exchange_database
    ++ (when (outside_tolerance et tolerance) exchange_target
        ++ when (outside_tolerance dt tolerance) database_target)

-- `abs(delta) >= critical_threshold`
abbrev pub reaches : Decimal → Decimal → Bool
reaches threshold delta = not (ltb_ℤ (abs delta) threshold)

unfoldable pub difference_severity :
    Decimal → Decimal → Decimal → List DifferenceReason → Decimal → ReconcileSeverity
difference_severity ed et dt reasons threshold =
    if is_empty reasons
    then fine
    else if reaches threshold ed || (reaches threshold et || reaches threshold dt)
    then critical
    else warning

unfoldable pub difference_for_symbol :
    Text → Decimal → Decimal → Decimal → Decimal → Decimal → Difference
unfolding difference_reasons difference_severity
difference_for_symbol symbol exchange database target tolerance threshold =
    let ed = sub exchange database in
    let et = sub exchange target in
    let dt = sub database target in
    let reasons = difference_reasons ed et dt tolerance in
    record {
      symbol = symbol;
      exchange_quantity = exchange;
      database_quantity = database;
      target_quantity = target;
      exchange_database_delta = ed;
      exchange_target_delta = et;
      database_target_delta = dt;
      severity = difference_severity ed et dt reasons threshold;
      reasons = reasons;
    }

abbrev pub is_fine : ReconcileSeverity → Bool
is_fine fine = true
is_fine _ = false

abbrev pub is_critical : ReconcileSeverity → Bool
is_critical critical = true
is_critical _ = false

unfoldable pub any_critical : List Difference → Bool
any_critical [] = false
any_critical (d ∷ ds) = is_critical d.severity || any_critical ds

unfoldable pub report_severity : List Difference → ReconcileSeverity
unfolding any_critical
report_severity ds = if any_critical ds then critical else if is_empty ds then fine else warning

-- The differences that are not `OK`, in the order of their symbols.
unfoldable pub drifted :
    Quantities → Quantities → Quantities → Decimal → Decimal → List Text → List Difference
unfolding difference_for_symbol quantity_of
drifted e d t tolerance threshold [] = []
drifted e d t tolerance threshold (s ∷ ss) =
    let difference =
      difference_for_symbol s (quantity_of s e) (quantity_of s d) (quantity_of s t) tolerance
        threshold in
    let rest = drifted e d t tolerance threshold ss in
    if is_fine difference.severity then rest else difference ∷ rest

unfoldable pub report_of : List Difference → ReconcileReport
unfolding report_severity
report_of ds = record {
  status = if is_empty ds then matched else drift_detected;
  severity = report_severity ds;
  differences = ds;
  auto_fix_allowed = false;
}

unfoldable pub reconcile_position_snapshots :
    List Snapshot → List Snapshot → List Snapshot → Decimal → Decimal → ReconcileReport
unfolding normalize_snapshots sorted_keys drifted report_of
reconcile_position_snapshots exchange database target tolerance threshold =
    let e = normalize_snapshots exchange in
    let d = normalize_snapshots database in
    let t = normalize_snapshots target in
    report_of (drifted e d t tolerance threshold (sorted_keys (e ++ (d ++ t))))

pub data RepairStatus : Type 0 where
  disabled no_drift proposal_created execution_blocked : RepairStatus

pub data RepairAction : Type 0 where
  buy_to_target sell_to_target review_database_position : RepairAction

pub record RepairSettings : Type 0 where
  pub proposal_generation_enabled : Bool
  pub execution_enabled : Bool

-- `ReconciliationRepairProposal`; the fields that it copies are those of its difference.
pub record Proposal : Type 0 where
  pub action : RepairAction
  pub quantity_delta : Decimal
  pub of : Difference

pub record RepairPlan : Type 0 where
  pub status : RepairStatus
  pub proposals : List Proposal
  pub auto_fix_allowed : Bool
  pub execution_allowed : Bool

proposal : Difference → RepairAction → Decimal → Option Proposal
proposal d action delta = some (record { action = action; quantity_delta = delta; of = d })

-- `delta != Decimal("0")`
abbrev pub nonzero : Decimal → Bool
nonzero d = ltb_ℤ (pos 0) d || ltb_ℤ d (pos 0)

unfoldable pub proposal_for_difference : Difference → Option Proposal
unfolding proposal
proposal_for_difference d =
    let delta = sub d.target_quantity d.exchange_quantity in
    if ltb_ℤ (pos 0) delta
    then proposal d buy_to_target delta
    else if ltb_ℤ delta (pos 0)
    then proposal d sell_to_target (abs delta)
    else if nonzero d.database_target_delta
    then proposal d review_database_position (abs d.database_target_delta)
    else none

abbrev pub cons_some : Option Proposal → List Proposal → List Proposal
cons_some none ps = ps
cons_some (some p) ps = p ∷ ps

unfoldable pub proposals_for : List Difference → List Proposal
unfolding proposal_for_difference
proposals_for [] = []
proposals_for (d ∷ ds) = cons_some (proposal_for_difference d) (proposals_for ds)

abbrev pub plan : RepairStatus → List Proposal → RepairPlan
plan status proposals = record {
  status = status;
  proposals = proposals;
  auto_fix_allowed = false;
  execution_allowed = false;
}

abbrev pub is_matched : ReconcileStatus → Bool
is_matched matched = true
is_matched drift_detected = false

unfoldable pub build_reconciliation_repair_plan : ReconcileReport → RepairSettings → RepairPlan
unfolding proposals_for
build_reconciliation_repair_plan report settings =
    if not settings.proposal_generation_enabled
    then plan disabled []
    else if is_matched report.status
    then plan no_drift []
    else plan (if settings.execution_enabled then execution_blocked else proposal_created)
        (proposals_for report.differences)
