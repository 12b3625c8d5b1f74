-- ===== src/Redact/Hidden.antt =====
-- nameko/utils/__init__.py: which sensitive arguments are redacted.
use nameko_zh_cn.Base.{
  ◌≡◌, refl, ap, ◌∙◌, Bool, true, false, Option, none, some, is_some, List, [], ◌∷◌, Option-cases,
  inl, inr, arith,
}
use nameko_zh_cn.Redact.{
  Key, Data, text, number, other, dict, list, Dict, get_entry, item, assign, member, redacted,
  redact, redact_inside, redact_variable, get_redacted_args,
}
use nameko_zh_cn.Redact.Fields.{item-assign}
use nameko_zh_cn.Redact.Paths.{look, look_at}

under : Option Data → (Data → Bool) → Bool
under none f = false
under (some v) f = f v

-- The path leads to something, and each of its keys but the last is a key of a dict.
unfoldable pub through_dicts : List Key → Data → Bool
unfolding under
through_dicts [] d = false
through_dicts (k ∷ []) d = is_some (item k d)
through_dicts (k ∷ j ∷ keys) (dict d) = under (get_entry k d) (through_dicts (j ∷ keys))
through_dicts (k ∷ j ∷ keys) _ = false

redact_inside-some :
    (k : Key) (d : Data) (inner : Data → Option Data) {v w : Data}
    → item k d ≡ some v
    → inner v ≡ some w
    → redact_inside (some true) inner k d ≡ some (assign k w d)
unfolding redact_inside
redact_inside-some k d inner i r = rw i (rw r refl)

redact_hides :
    (keys : List Key) (d : Data)
    → through_dicts keys d ≡ true
    → (d' : Data) × (redact keys d ≡ some d') × (look keys d' ≡ some redacted)
unfolding redact through_dicts item member look
redact_hides [] d h = absurd (cc h)
redact_hides (k ∷ []) d h = elim (Option-cases (item k d)) [
  | inl e ↦ absurd (cc (h, ap is_some e))
  | inr (v, e) ↦ (
    assign k redacted d,
    refl,
    look_at k [] (assign k redacted d) redacted (item-assign k redacted d e),
  )
]
redact_hides (k ∷ j ∷ keys) (dict d) h = elim (Option-cases (get_entry k d)) [
  | inl e ↦ absurd (cc (rw e at h))
  | inr (v, e) ↦
      let (w, r, l) = redact_hides (j ∷ keys) v (rw e at h) in
      (
        assign k w (dict d),
        ap (λ b. redact_inside (some b) (redact (j ∷ keys)) k (dict d)) (ap is_some e)
            ∙ redact_inside-some k (dict d) (redact (j ∷ keys)) e r,
        look_at k (j ∷ keys) (assign k w (dict d)) w (item-assign k w (dict d) e) ∙ l,
      )
]
redact_hides (k ∷ j ∷ keys) (text t) h = absurd (cc h)
redact_hides (k ∷ j ∷ keys) (number t) h = absurd (cc h)
redact_hides (k ∷ j ∷ keys) (other t) h = absurd (cc h)
redact_hides (k ∷ j ∷ keys) (list t) h = absurd (cc h)

found_first :
    (k : Key) (keys : List Key) (d : Dict)
    → through_dicts (k ∷ keys) (dict d) ≡ true
    → is_some (get_entry k d) ≡ true
unfolding through_dicts under item
found_first k [] d h = h
found_first k (j ∷ keys) d h = elim (Option-cases (get_entry k d)) [
  | inl e ↦ absurd (cc (rw e at h))
  | inr (v, e) ↦ ap is_some e
]

-- A sensitive argument that leads to something, through dicts, is redacted: no exception is raised,
-- and where it leads there are only asterisks.
pub get_redacted_args_hides :
    (keys : List Key) (callargs : Dict)
    → through_dicts keys (dict callargs) ≡ true
    → (callargs' : Data) × (get_redacted_args (keys ∷ []) (dict callargs) ≡ some callargs')
      × (look keys callargs' ≡ some redacted)
unfolding get_redacted_args redact_variable member through_dicts
get_redacted_args_hides [] d h = absurd (cc h)
get_redacted_args_hides (k ∷ keys) d h =
    let (d', r, l) = redact_hides (k ∷ keys) (dict d) h in
    (d', ground (arith, found_first k keys d h, r), l)
