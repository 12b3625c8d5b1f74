-- ===== src/Redact/Fields.antt =====
-- nameko/utils/__init__.py: reading what was assigned under a key.
use nameko_zh_cn.Base.{
  ℕ, zero, suc, ◌≡◌, refl, ap, ◌∙◌, true, false, some, ◌↔◌, arith, eqb, eqb_iff, str_eq_iff,
  if◌then◌else◌,
}
use nameko_zh_cn.Redact.{
  Key, name, index, Data, text, number, other, dict, list, Dict, empty, entry, Items, nil, cons,
  same_key, get_entry, put_entry, get_item, set_item, item, assign,
}

pub same_key_iff : (j k : Key) → (same_key j k ≡ true) ↔ (j ≡ k)
unfolding same_key
same_key_iff (name s) (name t) =
    (λ h. ap name ((str_eq_iff s t).0 h), λ h. ground (arith, str_eq_iff s t))
same_key_iff (index i) (index j) =
    (λ h. ap index ((eqb_iff i j).0 h), λ h. ground (arith, eqb_iff i j))
same_key_iff (name s) (index j) = (λ h. cc, λ h. cc)
same_key_iff (index i) (name t) = (λ h. cc, λ h. cc)

pub get-put_entry :
    (j k : Key) (v : Data) (d : Dict)
    → get_entry j (put_entry k v d) ≡ (if same_key k j then some v else get_entry j d)
unfolding get_entry put_entry
get-put_entry j k v empty = ground arith
get-put_entry j k v (entry i w d) =
    ground (arith, get-put_entry j k v d, same_key_iff i k, same_key_iff i j, same_key_iff k j)

pub get_item-set_item :
    (i j : ℕ) (v : Data) (xs : Items)
    → eqb j i ≡ false
    → get_item i (set_item j v xs) ≡ get_item i xs
unfolding get_item set_item
get_item-set_item i j v nil n = refl
get_item-set_item zero zero v (cons w xs) n = absurd (cc (n, (eqb_iff zero zero).1 refl))
get_item-set_item (suc i) zero v (cons w xs) n = refl
get_item-set_item zero (suc j) v (cons w xs) n = refl
get_item-set_item (suc i) (suc j) v (cons w xs) n =
    get_item-set_item i j v xs (ground (arith, eqb_iff j i, eqb_iff (suc j) (suc i)))

-- What is assigned under one key does not change what is under another.
pub item-assign_other :
    (j k : Key) (v d : Data) → same_key k j ≡ false → item j (assign k v d) ≡ item j d
unfolding item assign
item-assign_other j k v (dict d) n = get-put_entry j k v d ∙ ground arith
item-assign_other (index i) (index j) v (list xs) n = get_item-set_item i j v xs n
item-assign_other (name s) (index j) v (list xs) n = refl
item-assign_other (index i) (name t) v (list xs) n = refl
item-assign_other (name s) (name t) v (list xs) n = refl
item-assign_other j k v (text t) n = refl
item-assign_other j k v (number i) n = refl
item-assign_other j k v (other o) n = refl

get_item-set_item_same :
    (i : ℕ) (v : Data) (xs : Items) {w : Data}
    → get_item i xs ≡ some w
    → get_item i (set_item i v xs) ≡ some v
unfolding get_item set_item
get_item-set_item_same i v nil h = cc
get_item-set_item_same zero v (cons u xs) h = refl
get_item-set_item_same (suc i) v (cons u xs) h = get_item-set_item_same i v xs h

-- What is assigned under a key that was there is under it.
pub item-assign :
    (k : Key) (v d : Data) {w : Data} → item k d ≡ some w → item k (assign k v d) ≡ some v
unfolding item assign
item-assign k v (dict d) h = get-put_entry k k v d ∙ ground (arith, same_key_iff k k)
item-assign (index i) v (list xs) h = get_item-set_item_same i v xs h
item-assign (name s) v (list xs) h = cc
item-assign k v (text t) h = cc
item-assign k v (number i) h = cc
item-assign k v (other o) h = cc
