-- ===== src/Extensions/Started.antt =====
-- nameko/containers.py: which extensions a container sets up and starts.
use nameko_zh_cn.Base.{
  ℕ, ◌+◌, ◌≡◌, refl, sym, ap, ◌∙◌, Bool, true, false, not, Option, List, [], ◌∷◌, ◌++◌, Dict, put,
  nat_eq, eqb, eqb_iff, if◌then◌else◌, ◌||◌, ◌&&◌, inl, inr, arith, Bool-cases, Option-cases,
  has_key, Distinct, Distinct-put, is_some,
}
use mathlib.Core.List.{append-nil}
use nameko_zh_cn.Extensions.{
  Instance, Container, add_instance, update, values, extensions, ref_of, Call, setup, start, calls,
  first_raised, start_extensions,
}

-- How often a log sets an object up, and starts it.
abbrev pub setups : ℕ → List Call → ℕ
setups r [] = 0
setups r (setup q ∷ log) = (if eqb q r then 1 else 0) + setups r log
setups r (start q ∷ log) = setups r log

abbrev pub starts : ℕ → List Call → ℕ
starts r [] = 0
starts r (setup q ∷ log) = starts r log
starts r (start q ∷ log) = (if eqb q r then 1 else 0) + starts r log

setups-append :
    (r : ℕ) (log more : List Call) → setups r (log ++ more) ≡ setups r log + setups r more
setups-append r [] more = omega arith
setups-append r (setup q ∷ log) more = omega (arith, setups-append r log more)
setups-append r (start q ∷ log) more = setups-append r log more

starts-append :
    (r : ℕ) (log more : List Call) → starts r (log ++ more) ≡ starts r log + starts r more
starts-append r [] more = omega arith
starts-append r (setup q ∷ log) more = starts-append r log more
starts-append r (start q ∷ log) more = omega (arith, starts-append r log more)

-- A dict without a repeated key has each of its keys once.
abbrev once : ℕ → Dict ℕ Instance → ℕ
once r d = if has_key r d then 1 else 0

setups-calls : (r : ℕ) (d : Dict ℕ Instance) → Distinct d → setups r (calls setup d) ≡ once r d
unfolding calls has_key
setups-calls r [] h = refl
setups-calls r ((q, i) ∷ d) (apart, h) = elim (Bool-cases (eqb q r)) [
  | inl same ↦
      let q≡ = (eqb_iff q r).0 same in ground (arith, setups-calls r d h, ap (λ x. has_key x d) q≡)
  | inr other ↦ ground (arith, setups-calls r d h)
]

starts-calls : (r : ℕ) (d : Dict ℕ Instance) → Distinct d → starts r (calls start d) ≡ once r d
unfolding calls has_key
starts-calls r [] h = refl
starts-calls r ((q, i) ∷ d) (apart, h) = elim (Bool-cases (eqb q r)) [
  | inl same ↦
      let q≡ = (eqb_iff q r).0 same in ground (arith, starts-calls r d h, ap (λ x. has_key x d) q≡)
  | inr other ↦ ground (arith, starts-calls r d h)
]

no_starts : (r : ℕ) (d : Dict ℕ Instance) → starts r (calls setup d) ≡ 0
unfolding calls
no_starts r [] = refl
no_starts r ((q, i) ∷ d) = no_starts r d

no_setups : (r : ℕ) (d : Dict ℕ Instance) → setups r (calls start d) ≡ 0
unfolding calls
no_setups r [] = refl
no_setups r ((q, i) ∷ d) = no_setups r d

has_key-put :
    (r q : ℕ) (i : Instance) (d : Dict ℕ Instance)
    → has_key r (put q i d) ≡ (eqb q r || has_key r d)
unfolding has_key put
has_key-put r q i [] = refl
has_key-put r q i ((p, j) ∷ d) =
    ground (arith, has_key-put r q i d, eqb_iff p q, eqb_iff p r, eqb_iff q r)

abbrev pub has_ref : ℕ → List Instance → Bool
has_ref r [] = false
has_ref r (i ∷ instances) = eqb (ref_of i) r || has_ref r instances

has_key-update :
    (r : ℕ) (instances : List Instance) (d : Dict ℕ Instance)
    → has_key r (update instances d) ≡ (has_ref r instances || has_key r d)
unfolding update add_instance
has_key-update r [] d = refl
has_key-update r (i ∷ instances) d =
    ground (arith, has_key-update r instances (put (ref_of i) i d), has_key-put r (ref_of i) i d)

Distinct-update :
    (instances : List Instance) (d : Dict ℕ Instance) → Distinct d → Distinct (update instances d)
unfolding update add_instance
Distinct-update [] d h = h
Distinct-update (i ∷ instances) d h =
    Distinct-update instances (put (ref_of i) i d) (Distinct-put (ref_of i) i d h)

-- Whether an object is among the extensions of a container.
abbrev pub holds : ℕ → Container → Bool
holds r c =
    has_ref r (values c.subextensions)
    || (has_ref r (values c.dependencies) || has_key r c.entrypoints)

-- What is asked of a log of setups and starts.
abbrev pub Starts : (ℕ → Bool) → Bool → List Call → Type 0
Starts held fails log =
    ((r : ℕ) → setups r log ≡ (if held r then 1 else 0))
    × ((r : ℕ) → starts r log ≡ (if held r && not fails then 1 else 0))
    × (before : List Call) × (after : List Call) × (log ≡ before ++ after)
    × ((r : ℕ) → (starts r before ≡ 0) × (setups r after ≡ 0))

has_key-extensions : (r : ℕ) (c : Container) → has_key r (extensions c) ≡ holds r c
unfolding extensions
has_key-extensions r c =
    has_key-update r (values c.subextensions) (update (values c.dependencies) c.entrypoints)
    ∙ ap (λ b. has_ref r (values c.subextensions) || b)
        (has_key-update r (values c.dependencies) c.entrypoints)

Distinct-extensions : (c : Container) → Distinct c.entrypoints → Distinct (extensions c)
unfolding extensions
Distinct-extensions c h =
    Distinct-update (values c.subextensions) _ (Distinct-update (values c.dependencies) _ h)

log-Starts :
    (c : Container) (d : Dict ℕ Instance)
    → ((r : ℕ) → has_key r d ≡ holds r c)
    → Distinct d
    → Starts (λ r. holds r c) false (calls setup d ++ calls start d)
log-Starts c d held h = (
  λ r.
      setups-append r (calls setup d) (calls start d)
      ∙ ground (arith, setups-calls r d h, no_setups r d, held r),
  λ r.
      starts-append r (calls setup d) (calls start d)
      ∙ ground (arith, starts-calls r d h, no_starts r d, held r),
  calls setup d,
  calls start d,
  refl,
  λ r. (no_starts r d, no_setups r d),
)

log_fails :
    (c : Container) (d : Dict ℕ Instance)
    → ((r : ℕ) → has_key r d ≡ holds r c)
    → Distinct d
    → Starts (λ r. holds r c) true (calls setup d)
log_fails c d held h = (
  λ r. ground (arith, setups-calls r d h, held r),
  λ r. ground (arith, no_starts r d),
  calls setup d,
  [],
  sym (append-nil (calls setup d)),
  λ r. (no_starts r d, refl),
)

-- A container that starts sets up each of its entrypoints, dependencies and their extensions once,
-- and nothing else; it starts each of them once if no setup raises, and none of them otherwise; and
-- it sets up none after it has started one. Its set of entrypoints has no object twice.
pub container-Starts :
    (setup_raises start_raises : ℕ → Option ℕ) (c : Container)
    → Distinct c.entrypoints
    → Starts
        (λ r. holds r c)
        (is_some (first_raised setup_raises (extensions c)))
        (start_extensions setup_raises start_raises c).0
unfolding start_extensions
container-Starts setup_raises start_raises c h =
    let held = λ (r : ℕ). has_key-extensions r c in
    let apart = Distinct-extensions c h in
    elim (Option-cases (first_raised setup_raises (extensions c))) [
      | inl e ↦ rw (e, start_extensions) (log-Starts c (extensions c) held apart)
      | inr (x, e) ↦ rw (e, start_extensions) (log_fails c (extensions c) held apart)
    ]
