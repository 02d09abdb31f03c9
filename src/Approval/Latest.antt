-- ===== src/Approval/Latest.antt =====
-- The latest of the rows that a query selects.
use crypto_copy_trading_plat.Prelude.{
  ◌≤◌, ◌≡◌, refl, Bool, true, some, List, [], ◌∷◌, ◌++◌, All, arith,
}
use crypto_copy_trading_plat.Database.{AuditLog}
use crypto_copy_trading_plat.Approval.{latest}

-- A row that is added last, and is not earlier than any other, is the latest.
pub latest-append :
    (p : AuditLog → Bool) (rows : List AuditLog) (x : AuditLog)
    → All (λ a. a.created_at ≤ x.created_at) rows
    → p x ≡ true
    → latest p (rows ++ x ∷ []) ≡ some x
unfolding latest
latest-append p [] x earlier fits = rw fits refl
latest-append p (a ∷ rows) x earlier fits = ground (arith, latest-append p rows x earlier.1 fits)
