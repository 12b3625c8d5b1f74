-- ===== src/Exceptions/Safe.antt =====
-- `safe_for_serialization`. What `six.text_type` returns for an object is a parameter: `none` is
-- a `__str__` that raises. `none` as a result is the TypeError of an unhashable dict key.
pub mod Dicts
pub mod Plain
use nameko_zh_cn.Base.{
  ℕ, Str, codes, ◌≡◌, refl, Bool, true, false, ◌&&◌, Option, none, some, arith, ◌>>=◌, is_some,
  if◌then◌else◌, ◌==◌, str_keys,
}
use nameko_zh_cn.Values.{
  Value, str, atom, dict, list, iterable, Items, nil, cons, Fields, end, field,
}

abbrev pub unicode_failed : Str
unicode_failed = codes "[__unicode__ failed]"

-- out[k] = v, in the dict that a comprehension builds
unfoldable pub insert_field : Str → Value → Fields → Fields
insert_field k v end = field (str k) v end
insert_field k v (field (str j) w fs) =
    if j == k then field (str j) v fs else field (str j) w (insert_field k v fs)
insert_field k v (field key w fs) = field key w (insert_field k v fs)

-- A list or a dict cannot be a key: `hash` raises.
unfoldable pub store_field : Value → Value → Fields → Option Fields
store_field (str k) v fs = some (insert_field k v fs)
store_field _ v fs = none

module _ (text_type : ℕ → Option Str) where
  unfoldable pub text_of : ℕ → Str
  text_of a = elim (text_type a) [ some s ↦ s | none ↦ unicode_failed ]

  unfoldable mutual
    pub safe_for_serialization : Value → Option Value
    safe_for_serialization (str s) = some (str s)
    safe_for_serialization (atom a) = some (str (text_of a))
    safe_for_serialization (dict fs) = do out ← safe_fields fs end; some (dict out)
    safe_for_serialization (list xs) = do out ← safe_items xs; some (list out)
    safe_for_serialization (iterable xs) = do out ← safe_items xs; some (list out)

    pub safe_items : Items → Option Items
    safe_items nil = some nil
    safe_items (cons v vs) = do w ← safe_for_serialization v; ws ← safe_items vs; some (cons w ws)

    -- The comprehension goes over the items in order and stores each in what it has built.
    pub safe_fields : Fields → Fields → Option Fields
    safe_fields end out = some out
    safe_fields (field k v fs) out = do
      key ← safe_for_serialization k
      w ← safe_for_serialization v
      out' ← store_field key w out
      safe_fields fs out'
