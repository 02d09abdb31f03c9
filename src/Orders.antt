-- ===== src/Orders.antt =====
-- The table of executions with its transition log: the change of one row through its object in the
-- session, and the addition of a row.
pub mod Kept
pub mod Careful
pub mod Known
use crypto_copy_trading_plat.Prelude.{
  ℕ, Bool, Option, none, some, List, [], ◌∷◌, ◌++◌, if◌then◌else◌, map,
}
use crypto_copy_trading_plat.Prelude.Exec.{Result}
use crypto_copy_trading_plat.Domain.{OrderExecution}
use crypto_copy_trading_plat.Database.{Database}
use crypto_copy_trading_plat.OrderState.{Tracked}

-- The rows after the first one that a query selects was changed to `e`.
unfoldable pub replace_first :
    (OrderExecution → Bool) → OrderExecution → List OrderExecution → List OrderExecution
replace_first p e [] = []
replace_first p e (x ∷ xs) = if p x then e ∷ xs else x ∷ replace_first p e xs

-- The tables after a call that worked on the first row that `p` selects.
abbrev pub put_row : (OrderExecution → Bool) → Tracked → Database → Database
put_row p m db = record db { executions = replace_first p m.execution db.executions; log = m.log }

-- The tables after a call that added a row.
abbrev pub add_execution : Tracked → Database → Database
add_execution m db = record db { executions = db.executions ++ m.execution ∷ []; log = m.log }

-- An execution as the session sees it.
abbrev pub loaded : OrderExecution → Database → Tracked
loaded e db = record { execution = e; log = db.log }
