-- ===== src/Redact/Paths.antt =====
-- nameko/utils/__init__.py: what a path of keys leads to, before and after redaction.
use nameko_zh_cn.Base.{
  ◌≡◌, refl, sym, ap, ◌∙◌, subst, Bool, true, false, Option, some, ◌>>=◌, List, [], ◌∷◌, All,
  Option-cases, Bool-cases, ◌⊎◌, inl, inr, if◌then◌else◌,
}
use mathlib.Core.Option.{some-injective}
use nameko_zh_cn.Redact.{
  Key, Data, same_key, item, assign, member, redacted, redact, redact_variable, get_redacted_args,
}
use nameko_zh_cn.Redact.Fields.{same_key_iff, item-assign, item-assign_other}

-- data[k1][k2]..., as far as each key is there.
unfoldable pub look : List Key → Data → Option Data
unfolding item
look [] d = some d
look (k ∷ ks) d = item k d >>= look ks

-- The paths part before the end of both.
unfoldable pub diverge : List Key → List Key → Bool
unfolding same_key
diverge (k ∷ ks) (j ∷ js) = if same_key k j then diverge ks js else true
diverge _ _ = false

-- What `redact` does on a path of two keys or more.
pub data Inside (k j : Key) (keys : List Key) (d d' : Data) : Type 0 where
  untouched : member k d ≡ some false → d' ≡ d → Inside k j keys d d'
  inside :
      (v w : Data)
      → member k d ≡ some true
      → item k d ≡ some v
      → redact (j ∷ keys) v ≡ some w
      → d' ≡ assign k w d
      → Inside k j keys d d'

pub redact_cases :
    (k j : Key) (keys : List Key) (d : Data) {d' : Data}
    → redact (k ∷ j ∷ keys) d ≡ some d'
    → Inside k j keys d d'
unfolding redact
redact_cases k j keys d h = elim (Option-cases (member k d)) [
  | inl e ↦ absurd (cc (rw e at h))
  | inr (true, e) ↦ elim (Option-cases (item k d)) [
    | inl i ↦ absurd (cc (rw (e, i) at h))
    | inr (v, i) ↦ elim (Option-cases (redact (j ∷ keys) v)) [
      | inl r ↦ absurd (cc (rw (e, i, r) at h))
      | inr (w, r) ↦ inside v w e i r (sym (some-injective _ _ (rw (e, i, r) at h)))
    ]
  ]
  | inr (false, e) ↦ untouched e (sym (some-injective _ _ (rw e at h)))
]

diverge_other :
    (k j : Key) (ks js : List Key) → same_key k j ≡ true → diverge (k ∷ ks) (j ∷ js) ≡ diverge ks js
unfolding diverge
diverge_other k j ks js h = rw h refl

look_same :
    (j : Key) (js : List Key) (d d' : Data)
    → item j d ≡ item j d'
    → look (j ∷ js) d ≡ look (j ∷ js) d'
unfolding look
look_same j js d d' h = ap (λ o. o >>= look js) h

pub look_at :
    (k : Key) (js : List Key) (d v : Data) → item k d ≡ some v → look (k ∷ js) d ≡ look js v
unfolding look
look_at k js d v h = ap (λ o. o >>= look js) h

pub redact_keeps :
    (keys js : List Key) (d : Data) {d' : Data}
    → redact keys d ≡ some d'
    → diverge keys js ≡ true
    → look js d' ≡ look js d
unfolding redact diverge
redact_keeps [] js d h a = cc
redact_keeps (k ∷ keys) [] d h a = cc
redact_keeps (k ∷ []) (j ∷ js) d {d'} h a = elim (Bool-cases (same_key k j)) [
  | inl q ↦ absurd (cc (rw q at a))
  | inr q ↦
      subst (λ x. look (j ∷ js) x ≡ look (j ∷ js) d) (some-injective (assign k redacted d) d' h)
        (look_same j js _ d (item-assign_other j k redacted d q))
]
redact_keeps (k ∷ k' ∷ keys) (j ∷ js) d {d'} h a = elim (redact_cases k k' keys d h) [
  | untouched _ e ↦ ap (look (j ∷ js)) e
  | inside v w _ i r e ↦ elim (Bool-cases (same_key k j)) [
    | inr q ↦ ap (look (j ∷ js)) e ∙ look_same j js _ d (item-assign_other j k w d q)
    | inl q ↦
        let k≡j = (same_key_iff k j).0 q in
        ap (look (j ∷ js)) e
        ∙ subst (λ x. look (x ∷ js) (assign k w d) ≡ look (x ∷ js) d) k≡j
            (look_at k js (assign k w d) w (item-assign k w d i)
              ∙ redact_keeps (k' ∷ keys) js v r (sym (diverge_other k j (k' ∷ keys) js q) ∙ a)
              ∙ sym (look_at k js d v i))
  ]
]

found_cases :
    (k : Key) (keys : List Key) (d : Data) {d' : Data}
    → redact_variable (k ∷ keys) d ≡ some d'
    → (d' ≡ d) ⊎ (redact (k ∷ keys) d ≡ some d')
unfolding redact_variable
found_cases k keys d h = elim (Option-cases (member k d)) [
  | inl e ↦ absurd (cc (rw e at h))
  | inr (true, e) ↦ inr (rw e at h)
  | inr (false, e) ↦ inl (sym (some-injective _ _ (rw e at h)))
]

redact_variable_keeps :
    (keys js : List Key) (d : Data) {d' : Data}
    → redact_variable keys d ≡ some d'
    → diverge keys js ≡ true
    → look js d' ≡ look js d
unfolding redact_variable
redact_variable_keeps [] js d h a = cc
redact_variable_keeps (k ∷ keys) js d h a = elim (found_cases k keys d h) [
  | inl e ↦ ap (look js) e
  | inr r ↦ redact_keeps (k ∷ keys) js d r a
]

-- Whatever redaction gives has changed nothing under a path that parts from each of the sensitive
-- arguments before the end of both.
pub get_redacted_args_keeps :
    (variables : List (List Key)) (js : List Key) (callargs : Data) {callargs' : Data}
    → get_redacted_args variables callargs ≡ some callargs'
    → All (λ keys. diverge keys js ≡ true) variables
    → look js callargs' ≡ look js callargs
unfolding get_redacted_args
get_redacted_args_keeps [] js d h a = ap (look js) (sym (some-injective _ _ h))
get_redacted_args_keeps (keys ∷ variables) js d h a = elim (Option-cases (redact_variable keys d)) [
  | inl e ↦ absurd (cc (rw e at h))
  | inr (d1, e) ↦
      get_redacted_args_keeps variables js d1 (rw e at h) a.1
      ∙ redact_variable_keeps keys js d e a.0
]
