-- ===== src/Orders/Kept.antt =====
-- The invariant of the table of executions: the log tells the whole story of every row, and no two
-- rows have one id.
use crypto_copy_trading_plat.Prelude.{
  ℕ, ◌≡◌, ◌≢◌, sym, ap, ◌∙◌, Bool, Option, some, List, [], ◌∷◌, ◌++◌, All, find?, arith, Bool-cases,
  inl, inr,
}
use mathlib.Core.Path.{subst}
use crypto_copy_trading_plat.Domain.{OrderExecution}
use crypto_copy_trading_plat.Database.{Database}
use crypto_copy_trading_plat.Database.Rows.{find?-All}
use crypto_copy_trading_plat.OrderState.{Tracked, TransitionLog}
use crypto_copy_trading_plat.OrderState.History.{history, IsHistory}
use crypto_copy_trading_plat.Orders.{replace_first, put_row, add_execution, loaded}

-- The log tells the whole story of the row.
abbrev pub Told : TransitionLog → OrderExecution → Type 0
Told log e = (i : ℕ) × IsHistory i (record { execution = e; log = log })

abbrev pub HasOtherId : Option ℕ → OrderExecution → Type 0
HasOtherId o e = e.id ≢ o

abbrev pub Distinct : List OrderExecution → Type 0
Distinct [] = Unit
Distinct (e ∷ es) = All (HasOtherId e.id) es × Distinct es

pub record IsKept (db : Database) : Type 0 where
  pub told : All (Told db.log) db.executions
  pub distinct : Distinct db.executions

-- The log has the same rows of every execution but `i`.
abbrev pub SameOthers : ℕ → TransitionLog → TransitionLog → Type 0
SameOthers i log log' = (j : ℕ) → i ≢ j → history j log' ≡ history j log

Told-other :
    (i : ℕ) (log log' : TransitionLog) (e : OrderExecution)
    → SameOthers i log log'
    → HasOtherId (some i) e
    → Told log e
    → Told log' e
Told-other i log log' e same other (j, h) =
    let rows : history j log' ≡ history j log = same j (λ k. other (h.known ∙ ap some (sym k))) in
    (j, record { known = h.known; chained = rw rows h.chained; current = rw rows h.current })

all-Told_other :
    (i : ℕ) (log log' : TransitionLog) (es : List OrderExecution)
    → SameOthers i log log'
    → All (HasOtherId (some i)) es
    → All (Told log) es
    → All (Told log') es
all-Told_other i log log' [] same other told = tt
all-Told_other i log log' (e ∷ es) same other told =
    (Told-other i log log' e same other.0 told.0, all-Told_other i log log' es same other.1 told.1)

module _ (p : OrderExecution → Bool) (e : OrderExecution) (m : Tracked) (i : ℕ)
    (known : e.id ≡ some i) (known' : m.execution.id ≡ some i) where
  replace_first-HasOtherId :
      (o : Option ℕ) (es : List OrderExecution)
      → find? p es ≡ some e
      → All (HasOtherId o) es
      → All (HasOtherId o) (replace_first p m.execution es)
  unfolding replace_first
  replace_first-HasOtherId o [] found all = tt
  replace_first-HasOtherId o (x ∷ es) found all = elim (Bool-cases (p x)) [
    | inl hit ↦
        let same : x ≡ e = ground (arith, rw hit at found) in
        rw hit ((λ k. all.0 (ap (λ y. y.id) same ∙ known ∙ sym known' ∙ k)), all.1)
    | inr miss ↦ rw miss (all.0, replace_first-HasOtherId o es (rw miss at found) all.1)
  ]

  replace_first-Distinct :
      (es : List OrderExecution)
      → find? p es ≡ some e
      → Distinct es
      → Distinct (replace_first p m.execution es)
  unfolding replace_first
  replace_first-Distinct [] found d = tt
  replace_first-Distinct (x ∷ es) found d = elim (Bool-cases (p x)) [
    | inl hit ↦
        let same : x ≡ e = ground (arith, rw hit at found) in
        let ids : x.id ≡ m.execution.id = ap (λ y. y.id) same ∙ known ∙ sym known' in
        rw hit (subst (λ o. All (HasOtherId o) es) ids d.0, d.1)
    | inr miss ↦ rw miss (
      replace_first-HasOtherId x.id es (rw miss at found) d.0,
      replace_first-Distinct es (rw miss at found) d.1,
    )
  ]

  replace_first-Told :
      (log : TransitionLog) (es : List OrderExecution)
      → IsHistory i m
      → SameOthers i log m.log
      → find? p es ≡ some e
      → Distinct es
      → All (Told log) es
      → All (Told m.log) (replace_first p m.execution es)
  unfolding replace_first
  replace_first-Told log [] h same found d told = tt
  replace_first-Told log (x ∷ es) h same found d told = elim (Bool-cases (p x)) [
    | inl hit ↦
        let is_it : x ≡ e = ground (arith, rw hit at found) in
        let id : x.id ≡ some i = ap (λ y. y.id) is_it ∙ known in
        rw hit (
          (i, h),
          all-Told_other i log m.log es same (subst (λ o. All (HasOtherId o) es) id d.0) told.1,
        )
    | inr miss ↦
        let other : e.id ≢ x.id = find?-All (HasOtherId x.id) p es e d.0 (rw miss at found) in
        rw miss (
          Told-other i log m.log x same (λ k. other (known ∙ sym k)) told.0,
          replace_first-Told log es h same (rw miss at found) d.1 told.1,
        )
  ]

  -- A change of one row that goes on with its story keeps the table.
  pub put_row-IsKept :
      (db : Database)
      → IsHistory i m
      → SameOthers i db.log m.log
      → find? p db.executions ≡ some e
      → IsKept db
      → IsKept (put_row p m db)
  put_row-IsKept db h same found k = record {
    told = replace_first-Told db.log db.executions h same found k.distinct k.told;
    distinct = replace_first-Distinct db.executions found k.distinct;
  }

-- An id that no row and no log entry has.
pub record IsFresh (i : ℕ) (db : Database) : Type 0 where
  pub no_row : All (HasOtherId (some i)) db.executions
  pub no_log : history i db.log ≡ []

all_append :
    (P : OrderExecution → Type 0) (es : List OrderExecution) (e : OrderExecution)
    → All P es
    → P e
    → All P (es ++ e ∷ [])
all_append P [] e all h = (h, tt)
all_append P (x ∷ es) e all h = (all.0, all_append P es e all.1 h)

Distinct-append :
    (es : List OrderExecution) (e : OrderExecution)
    → Distinct es
    → All (HasOtherId e.id) es
    → Distinct (es ++ e ∷ [])
Distinct-append [] e d other = (tt, tt)
Distinct-append (x ∷ es) e d other =
    (all_append (HasOtherId x.id) es e d.0 (λ k. other.0 (sym k)), Distinct-append es e d.1 other.1)

-- A new row under a fresh id, with its own story, keeps the table.
pub add_execution-IsKept :
    (i : ℕ) (m : Tracked) (db : Database)
    → IsHistory i m
    → SameOthers i db.log m.log
    → IsFresh i db
    → IsKept db
    → IsKept (add_execution m db)
add_execution-IsKept i m db h same fresh k = record {
  told =
      all_append (Told m.log) db.executions m.execution
        (all-Told_other i db.log m.log db.executions same fresh.no_row k.told) (i, h);
  distinct =
      Distinct-append db.executions m.execution k.distinct
        (subst (λ o. All (HasOtherId o) db.executions) (sym h.known) fresh.no_row);
}

-- The row that a query selects has its whole story in the log.
pub found-IsHistory :
    (p : OrderExecution → Bool) (e : OrderExecution) (db : Database)
    → IsKept db
    → find? p db.executions ≡ some e
    → (i : ℕ) × IsHistory i (loaded e db)
found-IsHistory p e db k found = find?-All (Told db.log) p db.executions e k.told found

-- The invariant and the freshness of an id are about the executions and their log only.
pub same-IsKept :
    (db db' : Database) → db'.executions ≡ db.executions → db'.log ≡ db.log → IsKept db → IsKept db'
same-IsKept db db' rows log k = record {
  told = rw (rows, log) k.told;
  distinct = rw rows k.distinct;
}

pub same-IsFresh :
    (i : ℕ) (db db' : Database)
    → db'.executions ≡ db.executions
    → db'.log ≡ db.log
    → IsFresh i db
    → IsFresh i db'
same-IsFresh i db db' rows log f = record { no_row = rw rows f.no_row; no_log = rw log f.no_log }
