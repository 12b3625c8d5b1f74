-- ===== src/Extensions.antt =====
-- nameko/extensions.py: Extension.bind and its overrides, and iter_extensions; nameko/containers.py:
-- the extensions that a ServiceContainer binds, and its start. A class and an object are numbers;
-- the class stands for the sharing key; what the extensions' own `setup` and `start` do is their
-- own code.
pub mod Sharing
pub mod Objects
pub mod Started
use nameko_zh_cn.Base.{
  ℕ, suc, Str, Bool, true, false, Option, none, some, ◌>>=◌, List, [], ◌∷◌, ◌++◌, Dict, get, put,
  nat_eq, add, contains, eqb, if◌then◌else◌, ◌||◌, ◌&&◌, ◌==◌,
}

-- An extension before it is bound, with its members that are extensions, in the order of their names.
mutual
  pub data Prototype : Type 0 where
    prototype : (cls : ℕ) → (shared : Bool) → (is_bound : Bool) → Members → Prototype

  pub data Members : Type 0 where
    no_members : Members
    member : Str → Prototype → Members → Members

-- An instance that is bound to the container, an object of its own.
mutual
  pub data Instance : Type 0 where
    instance_of : (cls : ℕ) → (shared : Bool) → (ref : ℕ) → Bound → Instance

  pub data Bound : Type 0 where
    no_bound : Bound
    bound_member : Str → Instance → Bound → Bound

-- `shared_extensions`, and the next object.
pub record Binder : Type 0 where
  pub shared_extensions : Dict ℕ Instance
  pub next_ref : ℕ

abbrev pub new_binder : Binder
new_binder = record { shared_extensions = []; next_ref = 0 }

-- The instance that SharedExtension.bind finds.
find_shared : ℕ → Bool → Binder → Option Instance
find_shared cls false s = none
find_shared cls true s = get cls s.shared_extensions

save_shared : ℕ → Bool → Instance → Binder → Binder
save_shared cls false i s = s
save_shared cls true i s = record s { shared_extensions = put cls i s.shared_extensions }

-- `if shared: return shared`
unfoldable pub unless_shared :
    Option Instance → Binder → Option (Instance × Binder) → Option (Instance × Binder)
unless_shared (some i) s made = some (i, s)
unless_shared none s made = made

-- The clone of a prototype, with its bound members set on it; a bound prototype is a RuntimeError.
unfoldable pub clone : ℕ → Bool → ℕ → Bool → Option (Bound × Binder) → Option (Instance × Binder)
unfolding save_shared
clone cls shared ref true made = none
clone cls shared ref false none = none
clone cls shared ref false (some (bound, s)) =
    let i = instance_of cls shared ref bound in some (i, save_shared cls shared i s)

-- Extension.bind and SharedExtension.bind; `none` is the RuntimeError of a bound prototype.
unfoldable mutual
  unfolding find_shared unless_shared clone

  pub bind : Prototype → Binder → Option (Instance × Binder)
  bind (prototype cls shared is_bound members) s = unless_shared (find_shared cls shared s) s (
      clone cls shared s.next_ref is_bound
        (bind_members members (record s { next_ref = suc s.next_ref })))

  pub bind_members : Members → Binder → Option (Bound × Binder)
  bind_members no_members s = some (no_bound, s)
  bind_members (member name e members) s = do
    (i, s') ← bind e s
    (bound, s'') ← bind_members members s'
    some (bound_member name i bound, s'')

-- iter_extensions
unfoldable mutual
  pub iter_extensions : Instance → List Instance
  iter_extensions (instance_of cls shared ref bound) = iter_members bound

  pub iter_members : Bound → List Instance
  iter_members no_bound = []
  iter_members (bound_member name i bound) = iter_extensions i ++ i ∷ iter_members bound

unfoldable pub ref_of : Instance → ℕ
ref_of (instance_of cls shared ref bound) = ref

-- The extensions of a ServiceContainer; a SpawningSet is a dict by the object. `names` are the
-- attributes `attr_name` and `method_name` that bind leaves on an instance.
pub record Container : Type 0 where
  pub entrypoints : Dict ℕ Instance
  pub dependencies : Dict ℕ Instance
  pub subextensions : Dict ℕ Instance
  pub names : Dict ℕ Str
  pub binder : Binder

abbrev pub new_container : Container
new_container = record {
  entrypoints = [];
  dependencies = [];
  subextensions = [];
  names = [];
  binder = new_binder;
}

-- SpawningSet.add, and update
unfoldable pub add_instance : Instance → Dict ℕ Instance → Dict ℕ Instance
unfolding ref_of
add_instance i d = put (ref_of i) i d

unfoldable pub update : List Instance → Dict ℕ Instance → Dict ℕ Instance
unfolding add_instance
update [] d = d
update (i ∷ instances) d = update instances (add_instance i d)

-- DependencyProvider.bind, and the container's sets
unfoldable pub bind_dependency : Str → Prototype → Container → Option Container
unfolding bind add_instance update iter_extensions ref_of
bind_dependency attr_name e c = do
  (i, s) ← bind e c.binder
  some (record c {
    dependencies = add_instance i c.dependencies;
    subextensions = update (iter_extensions i) c.subextensions;
    names = put (ref_of i) attr_name c.names;
    binder = s;
  })

unfoldable pub bind_dependencies : List (Str × Prototype) → Container → Option Container
unfolding bind_dependency
bind_dependencies [] c = some c
bind_dependencies ((name, e) ∷ attrs) c = do
  c' ← bind_dependency name e c
  bind_dependencies attrs c'

-- Entrypoint.bind, and the container's sets
unfoldable pub bind_entrypoint : Str → Prototype → Container → Option Container
unfolding bind add_instance update iter_extensions ref_of
bind_entrypoint method_name e c = do
  (i, s) ← bind e c.binder
  some (record c {
    entrypoints = add_instance i c.entrypoints;
    subextensions = update (iter_extensions i) c.subextensions;
    names = put (ref_of i) method_name c.names;
    binder = s;
  })

-- The entrypoints of each method, in turn.
unfoldable pub bind_entrypoints : List (Str × Prototype) → Container → Option Container
unfolding bind_entrypoint
bind_entrypoints [] c = some c
bind_entrypoints ((name, e) ∷ methods) c = do
  c' ← bind_entrypoint name e c
  bind_entrypoints methods c'

-- The extensions of ServiceContainer.__init__
unfoldable pub init : List (Str × Prototype) → List (Str × Prototype) → Option Container
unfolding bind_dependencies bind_entrypoints
init attrs methods = do c ← bind_dependencies attrs new_container; bind_entrypoints methods c

unfoldable pub values : Dict ℕ Instance → List Instance
values [] = []
values ((r, i) ∷ d) = i ∷ values d

-- ServiceContainer.extensions
unfoldable pub extensions : Container → Dict ℕ Instance
unfolding update values
extensions c = update (values c.subextensions) (update (values c.dependencies) c.entrypoints)

pub data Call : Type 0 where
  setup start : ℕ → Call

unfoldable pub calls : (ℕ → Call) → Dict ℕ Instance → List Call
calls method [] = []
calls method ((r, i) ∷ d) = method r ∷ calls method d

-- The first exception that a call of a method of the extensions raises.
unfoldable pub first_raised : (ℕ → Option ℕ) → Dict ℕ Instance → Option ℕ
first_raised raises [] = none
first_raised raises ((r, i) ∷ d) =
    let rest = first_raised raises d in elim (raises r) [ some e ↦ some e | none ↦ rest ]

-- ServiceContainer.start, from what each `setup` and each `start` raises
unfoldable pub start_extensions : (ℕ → Option ℕ) → (ℕ → Option ℕ) → Container → List Call × Option ℕ
unfolding extensions calls first_raised
start_extensions setup_raises start_raises c = elim (first_raised setup_raises (extensions c)) [
  | some e ↦ (calls setup (extensions c), some e)
  | none ↦ (
    calls setup (extensions c) ++ calls start (extensions c),
    first_raised start_raises (extensions c),
  )
]
