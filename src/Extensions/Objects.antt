-- ===== src/Extensions/Objects.antt =====
-- nameko/containers.py: the extensions of a container, and their setup and start.
use nameko_zh_cn.Base.{
  ℕ, Str, ◌≡◌, sym, ap, ◌∙◌, subst, true, some, List, [], ◌∷◌, Dict, get, put, nat_eq, eqb, inl,
  inr, Bool-cases, All, All-imp,
}
use mathlib.Core.Option.{some-injective}
use nameko_zh_cn.Extensions.{
  Prototype, Instance, Binder, bind, iter_extensions, Container, new_container, add_instance,
  update, bind_dependency, bind_dependencies, bind_entrypoint, bind_entrypoints, init, values,
  extensions, ref_of,
}
use nameko_zh_cn.Extensions.Sharing.{
  IsFlat, class_of, is_shared, Found, IsClosed, Extends, bind_lem, bind_some,
}

-- What a set holds is found in the container.
abbrev Holds : Binder → Dict ℕ Instance → Type 0
Holds s = All (λ item. Found s (item.1))

Holds-mono : (s s' : Binder) (d : Dict ℕ Instance) → Extends s s' → Holds s d → Holds s' d
Holds-mono s s' d f h = All-imp d (λ item found e. f (class_of (item.1)) (item.1) (found e)) h

Holds-put :
    (s : Binder) (r : ℕ) (i : Instance) (d : Dict ℕ Instance)
    → Found s i
    → Holds s d
    → Holds s (put r i d)
unfolding put
Holds-put s r i [] f h = (f, tt)
Holds-put s r i ((q, j) ∷ d) f (g, h) = elim (Bool-cases (eqb q r)) [
  | inl same ↦ rw same (f, h)
  | inr other ↦ rw other (g, Holds-put s r i d f h)
]

Holds-add :
    (s : Binder) (i : Instance) (d : Dict ℕ Instance)
    → Found s i
    → Holds s d
    → Holds s (add_instance i d)
unfolding add_instance
Holds-add s i d f h = Holds-put s (ref_of i) i d f h

Holds-update :
    (s : Binder) (instances : List Instance) (d : Dict ℕ Instance)
    → All (Found s) instances
    → Holds s d
    → Holds s (update instances d)
unfolding update
Holds-update s [] d a h = h
Holds-update s (i ∷ instances) d a h =
    Holds-update s instances (add_instance i d) a.1 (Holds-add s i d a.0 h)

-- The invariant of a container while its extensions are bound.
record IsShared (c : Container) : Type 0 where
  closed : IsClosed c.binder
  entrypoints : Holds c.binder c.entrypoints
  dependencies : Holds c.binder c.dependencies
  subextensions : Holds c.binder c.subextensions

bind_dependency-IsShared :
    (name : Str) (e : Prototype) (c c' : Container)
    → IsFlat e
    → IsShared c
    → bind_dependency name e c ≡ some c'
    → IsShared c'
unfolding bind_dependency
bind_dependency-IsShared name e c c' flat v h =
    let ((i, s), made, finished) = bind_some (bind e c.binder) _ h in
    let (binds, (root, below)) = bind_lem e c.binder flat v.closed made in
    subst IsShared (some-injective _ c' finished) (record {
      closed = binds.closed;
      entrypoints = Holds-mono c.binder s c.entrypoints binds.extends v.entrypoints;
      dependencies =
          Holds-add s i c.dependencies root
            (Holds-mono c.binder s c.dependencies binds.extends v.dependencies);
      subextensions =
          Holds-update s (iter_extensions i) c.subextensions below
            (Holds-mono c.binder s c.subextensions binds.extends v.subextensions);
    })

bind_entrypoint-IsShared :
    (name : Str) (e : Prototype) (c c' : Container)
    → IsFlat e
    → IsShared c
    → bind_entrypoint name e c ≡ some c'
    → IsShared c'
unfolding bind_entrypoint
bind_entrypoint-IsShared name e c c' flat v h =
    let ((i, s), made, finished) = bind_some (bind e c.binder) _ h in
    let (binds, (root, below)) = bind_lem e c.binder flat v.closed made in
    subst IsShared (some-injective _ c' finished) (record {
      closed = binds.closed;
      entrypoints =
          Holds-add s i c.entrypoints root
            (Holds-mono c.binder s c.entrypoints binds.extends v.entrypoints);
      dependencies = Holds-mono c.binder s c.dependencies binds.extends v.dependencies;
      subextensions =
          Holds-update s (iter_extensions i) c.subextensions below
            (Holds-mono c.binder s c.subextensions binds.extends v.subextensions);
    })

-- Each of the prototypes has none of its own class below any of its extensions.
abbrev pub AllFlat : List (Str × Prototype) → Type 0
AllFlat = All (λ attr. IsFlat (attr.1))

bind_dependencies-IsShared :
    (attrs : List (Str × Prototype)) (c c' : Container)
    → AllFlat attrs
    → IsShared c
    → bind_dependencies attrs c ≡ some c'
    → IsShared c'
unfolding bind_dependencies
bind_dependencies-IsShared [] c c' flat v h = subst IsShared (some-injective c c' h) v
bind_dependencies-IsShared ((name, e) ∷ attrs) c c' (flat, flats) v h =
    let (c1, made, rest) = bind_some (bind_dependency name e c) _ h in
    bind_dependencies-IsShared attrs c1 c' flats (bind_dependency-IsShared name e c c1 flat v made)
      rest

bind_entrypoints-IsShared :
    (methods : List (Str × Prototype)) (c c' : Container)
    → AllFlat methods
    → IsShared c
    → bind_entrypoints methods c ≡ some c'
    → IsShared c'
unfolding bind_entrypoints
bind_entrypoints-IsShared [] c c' flat v h = subst IsShared (some-injective c c' h) v
bind_entrypoints-IsShared ((name, e) ∷ methods) c c' (flat, flats) v h =
    let (c1, made, rest) = bind_some (bind_entrypoint name e c) _ h in
    bind_entrypoints-IsShared methods c1 c' flats (bind_entrypoint-IsShared name e c c1 flat v made)
      rest

values-Found : (s : Binder) (d : Dict ℕ Instance) → Holds s d → All (Found s) (values d)
unfolding values
values-Found s [] h = tt
values-Found s ((r, i) ∷ d) (f, h) = (f, values-Found s d h)

get-Found :
    (s : Binder) (r : ℕ) (i : Instance) (d : Dict ℕ Instance)
    → Holds s d
    → get r d ≡ some i
    → Found s i
unfolding get
get-Found s r i [] h e = cc
get-Found s r i ((q, j) ∷ d) (f, h) e = elim (Bool-cases (eqb q r)) [
  | inl same ↦ subst (Found s) (some-injective j i (rw same at e)) f
  | inr other ↦ get-Found s r i d h (rw other at e)
]

init-IsShared :
    (attrs methods : List (Str × Prototype)) (c : Container)
    → AllFlat attrs
    → AllFlat methods
    → init attrs methods ≡ some c
    → IsShared c
unfolding init get
init-IsShared attrs methods c flat flat' h =
    let (c1, made, rest) = bind_some (bind_dependencies attrs new_container) _ h in
    let empty : IsShared new_container = record {
      closed = record { own = λ k i e. cc };
      entrypoints = tt;
      dependencies = tt;
      subextensions = tt;
    } in
    bind_entrypoints-IsShared methods c1 c flat'
      (bind_dependencies-IsShared attrs new_container c1 flat empty made) rest

extensions-Found : (c : Container) → IsShared c → Holds c.binder (extensions c)
unfolding extensions
extensions-Found c v =
    let s = c.binder in
    Holds-update s (values c.subextensions) _ (values-Found s c.subextensions v.subextensions) (
      Holds-update s (values c.dependencies) c.entrypoints
        (values-Found s c.dependencies v.dependencies) v.entrypoints)

-- Among the extensions of a new container, two of one class that shares are one object. No
-- extension has one of its own class below it.
pub shared_once :
    (attrs methods : List (Str × Prototype)) (c : Container) (r r' : ℕ) (i j : Instance)
    → AllFlat attrs
    → AllFlat methods
    → init attrs methods ≡ some c
    → get r (extensions c) ≡ some i
    → get r' (extensions c) ≡ some j
    → is_shared i ≡ true
    → is_shared j ≡ true
    → class_of i ≡ class_of j
    → i ≡ j
shared_once attrs methods c r r' i j flat flat' made has has' shares shares' same =
    let found = extensions-Found c (init-IsShared attrs methods c flat flat' made) in
    let first = get-Found c.binder r i (extensions c) found has shares in
    let second = get-Found c.binder r' j (extensions c) found has' shares' in
    some-injective i j (sym first ∙ ap (λ k. get k c.binder.shared_extensions) same ∙ second)
