-- ===== src/Restricting/Named.antt =====
-- Which entrypoints restrict_entrypoints keeps.
use mathlib.Core.List.{append_assoc}
use nameko_zh_cn.Base.{
  ℕ, Str, Bool, true, false, List, [], ◌∷◌, ◌++◌, contains, str_keys, nat_eq, if◌then◌else◌, map,
  ◌≡◌, ◌↔◌, refl, sym, ap, ◌∙◌, arith, All, Bool-cases, inl, inr, eqb, eqb_iff,
}
use nameko_zh_cn.Restricting.{
  Entrypoint, Container, Restricted, done, runtime_error, missing_from, remove_entrypoint,
  remove_unnamed, restricted, restrict_entrypoints,
}

-- The entrypoints whose method is named.
unfoldable pub named : List Str → List Entrypoint → List Entrypoint
named names [] = []
named names (e ∷ es) =
    let rest = named names es in if contains e.method_name names then e ∷ rest else rest

abbrev pub Apart : ℕ → List Entrypoint → Type 0
Apart i = All (λ e. eqb e.ident i ≡ false)

-- No object twice, as in a set.
abbrev pub NoneTwice : List Entrypoint → Type 0
NoneTwice [] = Unit
NoneTwice (e ∷ es) = Apart e.ident es × NoneTwice es

remove-append :
    (e : Entrypoint) (pre es : List Entrypoint)
    → Apart e.ident pre
    → remove_entrypoint e.ident (pre ++ e ∷ es) ≡ pre ++ es
unfolding remove_entrypoint
remove-append e [] es h = rw ((eqb_iff e.ident e.ident).1 refl) refl
remove-append e (p ∷ pre) es h = rw (h.0, remove-append e pre es h.1) refl

Apart-one :
    (e f : Entrypoint) (pre : List Entrypoint)
    → Apart f.ident pre
    → eqb e.ident f.ident ≡ false
    → Apart f.ident (pre ++ e ∷ [])
Apart-one e f [] h k = (k, tt)
Apart-one e f (p ∷ pre) h k = (h.0, Apart-one e f pre h.1 k)

-- No object of the first list is in the second.
abbrev Disjoint : List Entrypoint → List Entrypoint → Type 0
Disjoint pre = All (λ e. Apart e.ident pre)

Disjoint-one :
    (e : Entrypoint) (pre es : List Entrypoint)
    → Disjoint pre es
    → Apart e.ident es
    → Disjoint (pre ++ e ∷ []) es
Disjoint-one e pre [] h k = tt
Disjoint-one e pre (f ∷ es) h k = (
  Apart-one e f pre h.0 (ground (arith, eqb_iff e.ident f.ident, eqb_iff f.ident e.ident)),
  Disjoint-one e pre es h.1 k.1,
)

removes-none : (names : List Str) (es : List Entrypoint) → remove_unnamed names [] es ≡ es
unfolding remove_unnamed
removes-none names es = refl

removes-kept :
    (names : List Str) (e : Entrypoint) (deps es : List Entrypoint)
    → contains e.method_name names ≡ true
    → remove_unnamed names (e ∷ deps) es ≡ remove_unnamed names deps es
unfolding remove_unnamed
removes-kept names e deps es c = rw c refl

removes-other :
    (names : List Str) (e : Entrypoint) (deps es : List Entrypoint)
    → contains e.method_name names ≡ false
    → remove_unnamed names (e ∷ deps) es ≡ remove_unnamed names deps (remove_entrypoint e.ident es)
unfolding remove_unnamed
removes-other names e deps es c = rw c refl

removes :
    (names : List Str) (es pre : List Entrypoint)
    → NoneTwice es
    → Disjoint pre es
    → remove_unnamed names es (pre ++ es) ≡ pre ++ named names es
unfolding named
removes names [] pre h k = removes-none names (pre ++ [])
removes names (e ∷ es) pre h k = elim (Bool-cases (contains e.method_name names)) [
  | inl c ↦ rw c (
      removes-kept names e es (pre ++ e ∷ es) c
      ∙ ap (remove_unnamed names es) (sym (append_assoc pre (e ∷ []) es))
      ∙ removes names es (pre ++ e ∷ []) h.1 (Disjoint-one e pre es k.1 h.0)
      ∙ append_assoc pre (e ∷ []) (named names es))
  | inr c ↦ rw c (
      removes-other names e es (pre ++ e ∷ es) c
      ∙ ap (remove_unnamed names es) (remove-append e pre es k.0)
      ∙ removes names es pre h.1 k.1)
]

missing-nil :
    (known names : List Str)
    → (missing_from known names ≡ []) ↔ All (λ n. contains n known ≡ true) names
unfolding missing_from
missing-nil known [] = (λ h. tt, λ h. refl)
missing-nil known (n ∷ names) = elim (Bool-cases (contains n known)) [
  | inl c ↦
      rw c ((λ h. (refl, (missing-nil known names).0 h)), λ h. (missing-nil known names).1 h.1)
  | inr c ↦ rw c ((λ h. cc), λ h. cc)
]

restricted_iff :
    (missing names : List Str) (c d : Container)
    → (restricted missing names c ≡ done d) ↔ (
        (missing ≡ [])
        × (d ≡ record c { entrypoints = remove_unnamed names c.entrypoints c.entrypoints }))
unfolding restricted
restricted_iff [] names c d = (λ h. (refl, cc), λ h. ap done (sym h.1))
restricted_iff (m ∷ missing) names c d = (λ h. cc, λ h. cc)

unless_started :
    (b : Bool) (r : Restricted) (d : Container)
    → ((if b then runtime_error else r) ≡ done d) ↔ ((b ≡ false) × (r ≡ done d))
unless_started true r d = (λ h. cc, λ h. cc)
unless_started false r d = (λ h. (refl, h), λ h. h.1)

Disjoint-nil : (es : List Entrypoint) → Disjoint [] es
Disjoint-nil [] = tt
Disjoint-nil (e ∷ es) = (tt, Disjoint-nil es)

-- restrict_entrypoints succeeds exactly before the container is started and when every name is that
-- of a method with an entrypoint; then the container's entrypoints are those of the methods that are
-- named, all of them, and nothing else of the container changes.
pub restrict_entrypoints_iff :
    (names : List Str) (c d : Container)
    → NoneTwice c.entrypoints
    → (restrict_entrypoints names c ≡ done d) ↔ (
        (c.started ≡ false)
        × All (λ n. contains n (map (λ (e : Entrypoint). e.method_name) c.entrypoints) ≡ true) names
        × (d ≡ record c { entrypoints = named names c.entrypoints }))
unfolding restrict_entrypoints
restrict_entrypoints_iff names c d h =
    let missing = missing_from (map (λ (e : Entrypoint). e.method_name) c.entrypoints) names in
    let removed = removes names c.entrypoints [] h (Disjoint-nil c.entrypoints) in
    let put = λ (es : List Entrypoint). record c { entrypoints = es } in
    let started = unless_started c.started (restricted missing names c) d in
    let found = missing-nil (map (λ (e : Entrypoint). e.method_name) c.entrypoints) names in
    let ends = restricted_iff missing names c d in
    (
      λ p. let q = started.0 p in let r = ends.0 q.1 in (q.0, found.0 r.0, r.1 ∙ ap put removed),
      λ q. started.1 (q.0, ends.1 (found.1 q.1, q.2 ∙ ap put (sym removed))),
    )
