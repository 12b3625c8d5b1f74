-- ===== src/Runners/Kept.antt =====
-- nameko/runners.py: which containers a runner keeps, and what becomes of them.
use nameko_zh_cn.Base.{
  ℕ, Str, ◌≡◌, refl, sym, ap, ◌∙◌, Bool, true, Option, none, some, is_some, List, [], ◌∷◌, get, put,
  get-put, str_keys, str_eq, Option-cases, inl, inr, if◌then◌else◌, ◌&&◌,
}
use nameko_zh_cn.Runners.{
  ServiceClass, get_service_name, ServiceRunner, new_runner, add_service, add_services,
}

-- The last class of a name, in the order of the calls of `add_service`.
unfoldable pub last_named : Str → List ServiceClass → Option ℕ → Option ℕ
last_named k [] found = found
last_named k (cls ∷ services) found = elim (get_service_name cls) [
  | some s ↦ last_named k services (if str_eq s k then some cls.ident else found)
  | none ↦ last_named k services found
]

unfoldable pub all_named : List ServiceClass → Bool
unfolding get_service_name
all_named [] = true
all_named (cls ∷ services) = is_some (get_service_name cls) && all_named services

last_named-cons :
    (k s : Str) (cls : ServiceClass) (services : List ServiceClass) (found : Option ℕ)
    → get_service_name cls ≡ some s
    → last_named k (cls ∷ services) found
      ≡ last_named k services (if str_eq s k then some cls.ident else found)
unfolding last_named
last_named-cons k s cls services found e = rw (e, last_named) refl

kept_from :
    (services : List ServiceClass) (r : ServiceRunner)
    → all_named services ≡ true
    → (r' : ServiceRunner) × (add_services services r ≡ some r')
      × ((k : Str) → get k r'.service_map ≡ last_named k services (get k r.service_map))
unfolding all_named add_services add_service get_service_name last_named
kept_from [] r h = (r, refl, λ k. refl)
kept_from (cls ∷ services) r h = elim (Option-cases (get_service_name cls)) [
  | inl e ↦ absurd (cc (rw e at h))
  | inr (name, e) ↦
      let r1 : ServiceRunner = record { service_map = put name cls.ident r.service_map } in
      let (r', run, all) = kept_from services r1 (rw e at h) in
      (
        r',
        rw (e, add_service) run,
        λ k.
            all k
            ∙ ap (last_named k services) (get-put name k cls.ident r.service_map)
            ∙ sym (last_named-cons k name cls services (get k r.service_map) e),
      )
]

-- When every class has a name, all are added, and the runner keeps for each name the container of
-- the class that was added last under it, and no other.
pub add_services_lem :
    (services : List ServiceClass)
    → all_named services ≡ true
    → (r : ServiceRunner) × (add_services services new_runner ≡ some r)
      × ((k : Str) → get k r.service_map ≡ last_named k services none)
unfolding get
add_services_lem services h = kept_from services new_runner h
