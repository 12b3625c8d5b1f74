-- ===== src/Redact/Indices.antt =====
-- nameko/utils/__init__.py: sensitive arguments with a list index before their end.
use nameko_zh_cn.Base.{
  ℕ, zero, suc, ◌≡◌, refl, sym, ap, ◌∙◌, subst, Bool, true, false, not, ◌&&◌, some, is_some, List,
  [], ◌∷◌, ◌++◌, ◌≢◌, Bool-cases, inl, inr,
}
use mathlib.Core.Option.{some-injective}
use nameko_zh_cn.Redact.{
  Key, name, index, Data, text, number, other, dict, list, Dict, empty, entry, Items, nil, cons,
  same_key, get_entry, put_entry, get_item, set_item, is_key, any_item, item, assign, member,
  redact,
}
use nameko_zh_cn.Redact.Paths.{Inside, untouched, inside, redact_cases}

-- No list inside the data has the number among its items, and no dict has it for a key.
unfoldable mutual
  unfolding is_key same_key

  pub without_index : ℕ → Data → Bool
  without_index i (dict d) = without_entries i d
  without_index i (list xs) = without_items i xs
  without_index i _ = true

  pub without_entries : ℕ → Dict → Bool
  without_entries i empty = true
  without_entries i (entry k v d) =
      not (same_key k (index i)) && (without_index i v && without_entries i d)

  pub without_items : ℕ → Items → Bool
  without_items i nil = true
  without_items i (cons v xs) =
      not (is_key (index i) v) && (without_index i v && without_items i xs)

and3 : (a b c : Bool) → (a && (b && c)) ≡ true → (a ≡ true) × (b ≡ true) × (c ≡ true)
and3 true true true h = (refl, refl, refl)
and3 true true false h = cc
and3 true false c h = cc
and3 false b c h = cc

without-get_entry :
    (i : ℕ) (k : Key) (d : Dict) {v : Data}
    → without_entries i d ≡ true
    → get_entry k d ≡ some v
    → without_index i v ≡ true
unfolding without_index get_entry
without-get_entry i k empty w h = cc
without-get_entry i k (entry j u d) {v} w h =
    let (_, wu, wd) = and3 _ _ _ w in
    elim (Bool-cases (same_key j k)) [
      | inl q ↦ subst (λ x. without_index i x ≡ true) (some-injective u v (rw q at h)) wu
      | inr q ↦ without-get_entry i k d wd (rw q at h)
    ]

without-get_item :
    (i j : ℕ) (xs : Items) {v : Data}
    → without_items i xs ≡ true
    → get_item j xs ≡ some v
    → without_index i v ≡ true
unfolding without_index get_item
without-get_item i j nil w h = cc
without-get_item i zero (cons u xs) {v} w h =
    let (_, wu, _) = and3 _ _ _ w in subst (λ x. without_index i x ≡ true) (some-injective u v h) wu
without-get_item i (suc j) (cons u xs) w h =
    let (_, _, wx) = and3 _ _ _ w in without-get_item i j xs wx h

without-item :
    (i : ℕ) (k : Key) (d : Data) {v : Data}
    → without_index i d ≡ true
    → item k d ≡ some v
    → without_index i v ≡ true
unfolding without_index item
without-item i k (dict d) w h = without-get_entry i k d w h
without-item i (index j) (list xs) w h = without-get_item i j xs w h
without-item i (name s) (list xs) w h = cc
without-item i k (text t) w h = cc
without-item i k (number t) w h = cc
without-item i k (other t) w h = cc

no_entry : (i : ℕ) (d : Dict) → without_entries i d ≡ true → is_some (get_entry (index i) d) ≡ false
unfolding without_index get_entry
no_entry i empty w = refl
no_entry i (entry k v d) w =
    let (n, _, wd) =
      and3 (not (same_key k (index i))) (without_index i v) (without_entries i d) w in
    elim (Bool-cases (same_key k (index i))) [
      | inl q ↦ absurd (cc (ap not q, n))
      | inr q ↦ rw q (no_entry i d wd)
    ]

no_item : (i : ℕ) (xs : Items) → without_items i xs ≡ true → any_item (index i) xs ≡ false
unfolding without_index any_item
no_item i nil w = refl
no_item i (cons v xs) w =
    let (n, _, wx) = and3 (not (is_key (index i) v)) (without_index i v) (without_items i xs) w in
    elim (Bool-cases (is_key (index i) v)) [
      | inl q ↦ absurd (cc (ap not q, n))
      | inr q ↦ rw q (no_item i xs wx)
    ]

not_member : (i : ℕ) (d : Data) → without_index i d ≡ true → member (index i) d ≢ some true
unfolding without_index member
not_member i (dict d) w h = cc (no_entry i d w, some-injective _ _ h)
not_member i (list xs) w h = cc (no_item i xs w, some-injective _ _ h)
not_member i (text t) w h = cc
not_member i (number n) w h = cc
not_member i (other o) w h = cc

put_same : (k : Key) (v : Data) (d : Dict) → get_entry k d ≡ some v → put_entry k v d ≡ d
unfolding get_entry put_entry
put_same k v empty h = cc
put_same k v (entry j w d) h = elim (Bool-cases (same_key j k)) [
  | inl q ↦ rw q (ap (λ x. entry j x d) (sym (some-injective w v (rw q at h))))
  | inr q ↦ rw q (ap (entry j w) (put_same k v d (rw q at h)))
]

set_same : (i : ℕ) (v : Data) (xs : Items) → get_item i xs ≡ some v → set_item i v xs ≡ xs
unfolding get_item set_item
set_same i v nil h = cc
set_same zero v (cons w xs) h = ap (λ x. cons x xs) (sym (some-injective w v h))
set_same (suc i) v (cons w xs) h = ap (cons w) (set_same i v xs h)

assign_same : (k : Key) (v d : Data) → item k d ≡ some v → assign k v d ≡ d
unfolding item assign
assign_same k v (dict d) h = ap dict (put_same k v d h)
assign_same (index i) v (list xs) h = ap list (set_same i v xs h)
assign_same (name s) v (list xs) h = refl
assign_same k v (text t) h = refl
assign_same k v (number t) h = refl
assign_same k v (other t) h = refl

Inside-same :
    (k j : Key) (keys : List Key) (d : Data) {d' : Data}
    → Inside k j keys d d'
    → ((v w : Data)
        → member k d ≡ some true
        → item k d ≡ some v
        → redact (j ∷ keys) v ≡ some w
        → w ≡ v)
    → d' ≡ d
Inside-same k j keys d (untouched _ e) same = e
Inside-same k j keys d (inside v w m i r e) same =
    e ∙ ap (λ x. assign k x d) (same v w m i r) ∙ assign_same k v d i

-- A sensitive argument that has a list index before its end hides nothing, in data where no list
-- holds that number among its items and no dict has it for a key: whatever the index leads to in a
-- list, and whatever is asked of it, is left as it is.
pub middle_index_hides_nothing :
    (before : List Key) (i : ℕ) (k : Key) (after : List Key) (d : Data) {d' : Data}
    → without_index i d ≡ true
    → redact (before ++ index i ∷ k ∷ after) d ≡ some d'
    → d' ≡ d
middle_index_hides_nothing [] i k after d w h =
    Inside-same (index i) k after d (redact_cases (index i) k after d h)
      (λ v u m e r. absurd (not_member i d w m))
middle_index_hides_nothing (j ∷ []) i k after d w h =
    Inside-same j (index i) (k ∷ after) d (redact_cases j (index i) (k ∷ after) d h)
      (λ v u m e r. middle_index_hides_nothing [] i k after v (without-item i j d w e) r)
middle_index_hides_nothing (j ∷ j' ∷ before) i k after d w h =
    Inside-same j j' (before ++ index i ∷ k ∷ after) d
      (redact_cases j j' (before ++ index i ∷ k ∷ after) d h)
      (λ v u m e r. middle_index_hides_nothing (j' ∷ before) i k after v (without-item i j d w e) r)
