-- ===== src/Reconcile/Quantities.antt =====
-- The quantities that the snapshots of a position add up to.
use crypto_copy_trading_plat.Prelude.{
  ◌≡◌, refl, false, ◌||◌, List, [], ◌∷◌, ◌++◌, arith, if◌then◌else◌,
}
use crypto_copy_trading_plat.Prelude.Int.{pos}
use crypto_copy_trading_plat.Prelude.Text.{Text, text_eq, text_eq_iff, text_eq_refl, text_in, upper}
use crypto_copy_trading_plat.Decimal.{Decimal, add}
use crypto_copy_trading_plat.Risk.Settings.{text_in-insert_symbol}
use crypto_copy_trading_plat.Reconcile.{
  Snapshot, Quantities, quantity_of, add_quantity, add_snapshots, normalize_snapshots, sorted_keys,
}

-- The sum of the quantities that are listed for a symbol, in whatever case it is written.
abbrev pub total : Text → Decimal → List Snapshot → Decimal
total s acc [] = acc
total s acc (x ∷ xs) = total s (if text_eq (upper x.symbol) s then add acc x.quantity else acc) xs

quantity_of-add_quantity :
    (s t : Text) (q : Decimal) (m : Quantities)
    → quantity_of s (add_quantity t q m)
      ≡ (if text_eq t s then add (quantity_of s m) q else quantity_of s m)
unfolding quantity_of add_quantity
quantity_of-add_quantity s t q [] = ground arith
quantity_of-add_quantity s t q ((u, d) ∷ m) =
    ground
      (arith, quantity_of-add_quantity s t q m, text_eq_iff u t, text_eq_iff u s, text_eq_iff t s)

quantity_of-add_snapshots :
    (s : Text) (m : Quantities) (xs : List Snapshot)
    → quantity_of s (add_snapshots m xs) ≡ total s (quantity_of s m) xs
unfolding add_snapshots
quantity_of-add_snapshots s m [] = refl
quantity_of-add_snapshots s m (x ∷ xs) =
    rw
      (
        quantity_of-add_snapshots s (add_quantity (upper x.symbol) x.quantity m) xs,
        quantity_of-add_quantity s (upper x.symbol) x.quantity m,
      )
      refl

-- The quantity kept under a symbol is the sum of all snapshots of that symbol.
pub quantity_of-normalize_snapshots :
    (s : Text) (xs : List Snapshot) → quantity_of s (normalize_snapshots xs) ≡ total s (pos 0) xs
unfolding normalize_snapshots quantity_of
quantity_of-normalize_snapshots s xs = quantity_of-add_snapshots s [] xs

-- A symbol that is no key has no quantity.
pub quantity_of_missing :
    (s : Text) (m : Quantities) → text_in s (sorted_keys m) ≡ false → quantity_of s m ≡ pos 0
unfolding quantity_of sorted_keys
quantity_of_missing s [] h = refl
quantity_of_missing s ((t, d) ∷ m) h = ground (
  arith,
  text_in-insert_symbol s t (sorted_keys m),
  quantity_of_missing s m,
  text_eq_iff t s,
  text_eq_refl s,
)

pub sorted_keys-append :
    (s : Text) (a b : Quantities)
    → text_in s (sorted_keys (a ++ b)) ≡ (text_in s (sorted_keys a) || text_in s (sorted_keys b))
unfolding sorted_keys text_in
sorted_keys-append s [] b = refl
sorted_keys-append s ((t, d) ∷ a) b = ground (
  arith,
  text_in-insert_symbol s t (sorted_keys (a ++ b)),
  text_in-insert_symbol s t (sorted_keys a),
  sorted_keys-append s a b,
)
