-- ===== src/Response/Clean.antt =====
-- What the sanitizing of an answer removes, and what it keeps.
use crypto_copy_trading_plat.Prelude.{
  ◌≡◌, refl, ap, false, Bool-cases, inl, inr, Option, none, some, arith, if◌then◌else◌,
}
use crypto_copy_trading_plat.Prelude.Text.{Text, text_eq_iff}
use crypto_copy_trading_plat.Json.{
  Json, null, boolean, int, float, text, decimal, foreign, array, object, Items, nil, cons, Fields,
  end, field,
}
use crypto_copy_trading_plat.Response.{
  is_sensitive, keep_field, safe_value, safe_items, safe_fields, get_field,
}

-- No key at any depth is sensitive, and no value is other than a JSON one.
unfoldable mutual
  pub IsSafe : Json → Type 0
  IsSafe (object fs) = AreSafeFields fs
  IsSafe (array xs) = AreSafeItems xs
  IsSafe (decimal t) = ⊥
  IsSafe (foreign t) = ⊥
  IsSafe null = Unit
  IsSafe (boolean b) = Unit
  IsSafe (int n) = Unit
  IsSafe (float t) = Unit
  IsSafe (text t) = Unit

  pub AreSafeItems : Items → Type 0
  AreSafeItems nil = Unit
  AreSafeItems (cons x xs) = IsSafe x × AreSafeItems xs

  pub AreSafeFields : Fields → Type 0
  AreSafeFields end = Unit
  AreSafeFields (field k v fs) = (is_sensitive k ≡ false) × IsSafe v × AreSafeFields fs

keep_field-AreSafeFields :
    (k : Text) (v : Json) (fs : Fields)
    → IsSafe v
    → AreSafeFields fs
    → AreSafeFields (keep_field (is_sensitive k) k v fs)
unfolding IsSafe
keep_field-AreSafeFields k v fs hv hfs = elim (Bool-cases (is_sensitive k)) [
  | inl secret ↦ rw secret hfs
  | inr shown ↦ rw shown (shown, hv, hfs)
]

mutual
  unfolding IsSafe safe_value

  value-IsSafe : (v : Json) → IsSafe (safe_value v)
  value-IsSafe (object fs) = fields-AreSafeFields fs
  value-IsSafe (array xs) = items-AreSafeItems xs
  value-IsSafe (decimal t) = tt
  value-IsSafe (foreign t) = tt
  value-IsSafe null = tt
  value-IsSafe (boolean b) = tt
  value-IsSafe (int n) = tt
  value-IsSafe (float t) = tt
  value-IsSafe (text t) = tt

  items-AreSafeItems : (xs : Items) → AreSafeItems (safe_items xs)
  items-AreSafeItems nil = tt
  items-AreSafeItems (cons x xs) = (value-IsSafe x, items-AreSafeItems xs)

  fields-AreSafeFields : (fs : Fields) → AreSafeFields (safe_fields fs)
  fields-AreSafeFields end = tt
  fields-AreSafeFields (field k v fs) =
      keep_field-AreSafeFields k (safe_value v) (safe_fields fs) (value-IsSafe v)
        (fields-AreSafeFields fs)

mutual
  unfolding IsSafe safe_value

  value_kept : (v : Json) → IsSafe v → safe_value v ≡ v
  value_kept (object fs) h = ap object (fields_kept fs h)
  value_kept (array xs) h = ap array (items_kept xs h)
  value_kept (decimal t) h = absurd h
  value_kept (foreign t) h = absurd h
  value_kept null h = refl
  value_kept (boolean b) h = refl
  value_kept (int n) h = refl
  value_kept (float t) h = refl
  value_kept (text t) h = refl

  items_kept : (xs : Items) → AreSafeItems xs → safe_items xs ≡ xs
  items_kept nil h = refl
  items_kept (cons x xs) h = rw (value_kept x h.0, items_kept xs h.1) refl

  fields_kept : (fs : Fields) → AreSafeFields fs → safe_fields fs ≡ fs
  fields_kept end h = refl
  fields_kept (field k v fs) h = rw (h.0, value_kept v h.1, fields_kept fs h.2) refl

-- What is kept of an answer has no sensitive key at any depth and holds JSON values only, and an
-- answer that is so already is kept as it is.
pub safe_value-IsSafe : (v : Json) → IsSafe (safe_value v) × (IsSafe v → safe_value v ≡ v)
safe_value-IsSafe v = (value-IsSafe v, value_kept v)

-- Sanitizing twice is sanitizing once.
pub safe_value_idem : (v : Json) → safe_value (safe_value v) ≡ safe_value v
safe_value_idem v = value_kept (safe_value v) (value-IsSafe v)

abbrev pub map_safe : Option Json → Option Json
map_safe none = none
map_safe (some v) = some (safe_value v)

-- A key that is not sensitive has the sanitized value of before, or is missing as before; a
-- sensitive key is missing.
get_field-safe_fields :
    (k : Text) (fs : Fields)
    → get_field k (safe_fields fs) ≡ (if is_sensitive k then none else map_safe (get_field k fs))
unfolding get_field safe_value
get_field-safe_fields k end = ground arith
get_field-safe_fields k (field j v fs) = ground (arith, get_field-safe_fields k fs, text_eq_iff j k)
