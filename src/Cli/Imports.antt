-- ===== src/Cli/Imports.antt =====
-- nameko/cli/run.py: what import_service finds.
use nameko_zh_cn.Base.{
  Str, ◌≡◌, refl, sym, ap, ◌∙◌, subst, ◌≢◌, Bool, arith, Option, none, some, List, [], ◌∷◌, ◌↔◌,
  get, str_keys,
}
use nameko_zh_cn.Runners.{ServiceClass}
use nameko_zh_cn.Cli.{
  Member, service_class, other_member, Module, Imported, imported, import_error, Env, found,
  split_colon, services, found_or, class_at, find_services, import_failed, import_parts,
  import_service,
}

-- What is found in a module, with and without the name of a class.
abbrev pub Finds : Option Str → Module → List ServiceClass → Type 0
Finds none m classes = (classes ≡ services m) × (classes ≢ [])
Finds (some class_name) m classes =
    (cls : ServiceClass) × (has_entrypoints : Bool) × (get class_name m
      ≡ some (service_class cls has_entrypoints))
    × (classes ≡ cls ∷ [])

found_or_iff :
    (name : Str) (ss classes : List ServiceClass)
    → (found_or name ss ≡ found classes) ↔ ((classes ≡ ss) × (classes ≢ []))
unfolding found_or
found_or_iff name [] classes = (λ e. cc, λ h. absurd (h.1 (h.0)))
found_or_iff name (s ∷ ss) classes = (λ e. (cc, λ empty. cc), λ h. ap found (sym (h.0)))

class_at_iff :
    (class_name name : Str) (m : Module) (o : Option Member) (classes : List ServiceClass)
    → get class_name m ≡ o
    → (class_at class_name name o ≡ found classes) ↔ Finds (some class_name) m classes
unfolding class_at
class_at_iff class_name name m none classes has = (λ e. cc, λ (cls, b, member, h). cc)
class_at_iff class_name name m (some other_member) classes has =
    (λ e. cc, λ (cls, b, member, h). cc)
class_at_iff class_name name m (some (service_class cls b)) classes has =
    (λ e. (cls, b, has, cc), λ (cls', b', member, h). cc)

find_services_iff :
    (name : Str) (obj : Option Str) (m : Module) (classes : List ServiceClass)
    → (find_services name obj m ≡ found classes) ↔ Finds obj m classes
unfolding find_services
find_services_iff name none m classes = found_or_iff name (services m) classes
find_services_iff name (some class_name) m classes =
    class_at_iff class_name name m (get class_name m) classes refl

failed_finds_nothing :
    (env : Env) (name text : Str) (classes : List ServiceClass)
    → import_failed env name text ≢ found classes
unfolding import_failed
failed_finds_nothing env name text classes e = ground arith

import_parts_iff :
    (env : Env) (name : Str) (obj : Option Str) (classes : List ServiceClass) (i : Imported)
    → env.import_module name ≡ i
    → (import_parts env name obj ≡ found classes)
      ↔ ((m : Module) × (env.import_module name ≡ imported m) × Finds obj m classes)
unfolding import_parts
import_parts_iff env name obj classes (imported m) has =
    let (to, from) = find_services_iff name obj m classes in
    (
      λ e. (m, has, to (rw (has, import_parts) at e)),
      λ (m', has', finds).
          let same : imported m' ≡ imported m = sym has' ∙ has in
          let e : m' ≡ m = cc in
          rw (has, import_parts) (from (subst (λ x. Finds obj x classes) e finds)),
    )
import_parts_iff env name obj classes (import_error text) has = (
  λ e. absurd (failed_finds_nothing env name text classes (rw (has, import_parts) at e)),
  λ (m, has', finds). cc,
)

-- import_service finds these classes exactly when the module before the first colon can be imported
-- and: with no class name after it, they are the module's classes that have an entrypoint, in order,
-- and there is one; with a class name, the module has that class, and it is the one that is found,
-- with or without entrypoints.
pub import_service_iff :
    (env : Env) (path : Str) (classes : List ServiceClass)
    → (import_service env path ≡ found classes) ↔ (
        (m : Module) × (env.import_module (split_colon path).0 ≡ imported m)
        × Finds (split_colon path).1 m classes)
unfolding import_service
import_service_iff env path classes =
    let name = (split_colon path).0 in
    import_parts_iff env name (split_colon path).1 classes (env.import_module name) refl
