-- ===== src/Exceptions/Safe/Plain.antt =====
-- `safe_for_serialization` of nameko/exceptions.py: when it succeeds, and what it makes.
use nameko_zh_cn.Base.{
  ℕ, Str, ◌≡◌, refl, true, ◌&&◌, Option, some, arith, is_some, str_keys, ap, ◌∙◌, Option-cases, inl,
  inr,
}
use nameko_zh_cn.Values.{
  Value, str, atom, dict, list, iterable, Items, nil, cons, Fields, end, field, append_fields,
}
use nameko_zh_cn.Exceptions.Safe.{
  store_field, text_of, safe_for_serialization, safe_items, safe_fields,
}
unfoldable pub use nameko_zh_cn.Exceptions.Safe.Dicts.{
  textual_keys, textual_items, textual_fields, plain, plain_items, plain_fields, lacks_key, apart,
}
use nameko_zh_cn.Exceptions.Safe.Dicts.{
  insert_field-append, append_fields_assoc, append_fields-end, apart-append, apart-end,
  succeeds_step, plain_step, plain_fields_parts, apart_parts,
}

module _ (text_type : ℕ → Option Str) where
  mutual
    unfolding safe_for_serialization textual_keys store_field

    succeeds_value : (v : Value) → is_some (safe_for_serialization text_type v) ≡ textual_keys v
    succeeds_value (str s) = refl
    succeeds_value (atom a) = refl
    succeeds_value (dict fs) = ground (arith, succeeds_fields fs end)
    succeeds_value (list xs) = ground (arith, succeeds_items xs)
    succeeds_value (iterable xs) = ground (arith, succeeds_items xs)

    succeeds_items : (xs : Items) → is_some (safe_items text_type xs) ≡ textual_items xs
    succeeds_items nil = refl
    succeeds_items (cons v vs) = ground (arith, succeeds_value v, succeeds_items vs)

    succeeds_fields : (fs out : Fields) → is_some (safe_fields text_type fs out) ≡ textual_fields fs
    succeeds_fields end out = refl
    succeeds_fields (field (str k) v fs) out =
        succeeds_step k (safe_for_serialization text_type v) out (safe_fields text_type fs)
          (succeeds_fields fs)
        ∙ ap (λ b. b && textual_fields fs) (succeeds_value v)
    succeeds_fields (field (atom k) v fs) out =
        succeeds_step (text_of text_type k) (safe_for_serialization text_type v) out
          (safe_fields text_type fs) (succeeds_fields fs)
        ∙ ap (λ b. b && textual_fields fs) (succeeds_value v)
    succeeds_fields (field (dict k) v fs) out = ground arith
    succeeds_fields (field (list k) v fs) out = ground arith
    succeeds_fields (field (iterable k) v fs) out = ground arith

  mutual
    unfolding safe_for_serialization plain store_field

    made_plain : (v w : Value) → safe_for_serialization text_type v ≡ some w → plain w ≡ true
    made_plain (str s) w h = ground arith
    made_plain (atom a) w h = ground arith
    made_plain (dict fs) w h = elim (Option-cases (safe_fields text_type fs end)) [
      | inl e ↦ ground arith
      | inr (out, e) ↦ ground (arith, made_plain_fields fs end out refl e)
    ]
    made_plain (list xs) w h = elim (Option-cases (safe_items text_type xs)) [
      | inl e ↦ ground arith
      | inr (out, e) ↦ ground (arith, made_plain_items xs out e)
    ]
    made_plain (iterable xs) w h = elim (Option-cases (safe_items text_type xs)) [
      | inl e ↦ ground arith
      | inr (out, e) ↦ ground (arith, made_plain_items xs out e)
    ]

    made_plain_items : (xs ys : Items) → safe_items text_type xs ≡ some ys → plain_items ys ≡ true
    made_plain_items nil ys h = ground arith
    made_plain_items (cons v vs) ys h = elim (Option-cases (safe_for_serialization text_type v)) [
      | inl e ↦ ground arith
      | inr (w, e) ↦ elim (Option-cases (safe_items text_type vs)) [
        | inl e' ↦ ground arith
        | inr (ws, e') ↦ ground (arith, made_plain v w e, made_plain_items vs ws e')
      ]
    ]

    made_plain_fields :
        (fs out res : Fields)
        → plain_fields out ≡ true
        → safe_fields text_type fs out ≡ some res
        → plain_fields res ≡ true
    made_plain_fields end out res p h = ground arith
    made_plain_fields (field (str k) v fs) out res p h =
        plain_step k (safe_for_serialization text_type v) out (safe_fields text_type fs) p
          (made_plain v) (λ o. made_plain_fields fs o res) h
    made_plain_fields (field (atom k) v fs) out res p h =
        plain_step (text_of text_type k) (safe_for_serialization text_type v) out
          (safe_fields text_type fs) p (made_plain v) (λ o. made_plain_fields fs o res) h
    made_plain_fields (field (dict k) v fs) out res p h = ground arith
    made_plain_fields (field (list k) v fs) out res p h = ground arith
    made_plain_fields (field (iterable k) v fs) out res p h = ground arith

  mutual
    unfolding safe_for_serialization plain store_field

    kept_value : (v : Value) → plain v ≡ true → safe_for_serialization text_type v ≡ some v
    kept_value (str s) h = refl
    kept_value (atom a) h = cc
    kept_value (dict fs) h = rw (kept_fields fs end h (apart-end fs))
    kept_value (list xs) h = rw (kept_items xs h)
    kept_value (iterable xs) h = cc

    kept_items : (xs : Items) → plain_items xs ≡ true → safe_items text_type xs ≡ some xs
    kept_items nil h = refl
    kept_items (cons v vs) h = ground (arith, kept_value v, kept_items vs)

    kept_fields :
        (fs out : Fields)
        → plain_fields fs ≡ true
        → apart out fs ≡ true
        → safe_fields text_type fs out ≡ some (append_fields out fs)
    kept_fields end out h a = rw append_fields-end
    kept_fields (field (str k) v fs) out h a =
        let (hv, (hk, hf)) = plain_fields_parts k v fs h in
        let (ak, af) = apart_parts k v fs out a in
        rw (kept_value v hv) (
          rw (insert_field-append k v out ak) (
            kept_fields fs (append_fields out (field (str k) v end)) hf
              (apart-append k v out fs af hk)
            ∙ ap some (append_fields_assoc out (field (str k) v end) fs)))
    kept_fields (field (atom k) v fs) out h a = cc
    kept_fields (field (dict k) v fs) out h a = cc
    kept_fields (field (list k) v fs) out h a = cc
    kept_fields (field (iterable k) v fs) out h a = cc

  -- Making a value safe succeeds exactly when no dict in it has a key that is an iterable; with such
  -- a key it is a TypeError.
  pub safe_for_serialization_total :
      (v : Value) → is_some (safe_for_serialization text_type v) ≡ textual_keys v
  safe_for_serialization_total = succeeds_value

  -- What is made safe holds only strings, lists, and dicts with distinct strings for keys; and
  -- making it safe once more changes nothing.
  pub safe_for_serialization-plain :
      (v w : Value)
      → safe_for_serialization text_type v ≡ some w
      → (plain w ≡ true) × (safe_for_serialization text_type w ≡ some w)
  safe_for_serialization-plain v w h = (made_plain v w h, kept_value w (made_plain v w h))

  pub safe_for_serialization_kept :
      (v : Value) → plain v ≡ true → safe_for_serialization text_type v ≡ some v
  safe_for_serialization_kept = kept_value
