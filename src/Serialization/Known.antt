-- ===== src/Serialization/Known.antt =====
-- When the setup of the serialization succeeds.
use nameko_zh_cn.Base.{
  ℕ, Str, codes, Bool, true, false, Option, none, some, List, [], ◌∷◌, Dict, put, has_key, str_keys,
  str_eq, str_eq_iff, ◌||◌, All, ◌≡◌, ◌↔◌, refl, sym, ap, ◌∙◌, arith, is_some, Bool-cases, inl, inr,
  Option-cases,
}
use nameko_zh_cn.Serialization.{
  Error, Result, ok, raise, import_error, Options, Registered, Registry, Config, import_from_path,
  import_option, with_encoder, import_serializer, registering, register_all, check_names, get_or,
  default_serializer, unless_error, checked, setup, located,
}

has_key-put :
    (k j : Str) (v : Registered) (d : Registry)
    → has_key j (put k v d) ≡ (str_eq k j || has_key j d)
unfolding has_key put
has_key-put k j v [] = refl
has_key-put k j v ((i, w) ∷ d) =
    ground (arith, has_key-put k j v d, str_eq_iff i k, str_eq_iff i j, str_eq_iff k j)

or_swap : (a b c : Bool) → (a || (b || c)) ≡ ((b || a) || c)
or_swap a b c = ground arith

module _ (locate : Str → Option ℕ) (takes : Dict Str Str → Bool) where
  -- A key that is there, and whose path, if it is not None, leads to an object.
  abbrev pub Locates : Option (Option Str) → Type 0
  Locates none = ⊥
  Locates (some none) = Unit
  Locates (some (some path)) = is_some (locate path) ≡ true

  abbrev pub Imports : Str × Options → Type 0
  Imports (name, o) = Locates o.encoder × Locates o.decoder × (takes o.others ≡ true)

  -- A name that is registered, before or by the configuration.
  abbrev pub Known : Config → Registry → Str → Type 0
  Known config registry name = (has_key name config.serializers || has_key name registry) ≡ true

  located-ok :
      (path : Str)
      → is_some (locate path) ≡ true
      → (x : Option ℕ) × (located path (locate path) ≡ ok x)
  located-ok path h = elim (Option-cases (locate path)) [
    | inl e ↦ absurd (let q : false ≡ true = rw e at h in cc)
    | inr (x, e) ↦ (some x, rw e refl)
  ]

  located-some :
      (path : Str) (x : Option ℕ) → located path (locate path) ≡ ok x → is_some (locate path) ≡ true
  located-some path x h = elim (Option-cases (locate path)) [
    | inl e ↦
        absurd
          (let q : ◌≡◌ {A = Result (Option ℕ)} (raise (import_error path)) (ok x) = rw e at h in cc)
    | inr (y, e) ↦ rw e refl
  ]

  import_option-ok :
      (key : Str) (o : Option (Option Str))
      → Locates o
      → (x : Option ℕ) × (import_option locate key o ≡ ok x)
  unfolding import_option import_from_path
  import_option-ok key none h = absurd h
  import_option-ok key (some none) h = (none, refl)
  import_option-ok key (some (some path)) h = located-ok path h

  import_option-Locates :
      (key : Str) (o : Option (Option Str)) (x : Option ℕ)
      → import_option locate key o ≡ ok x
      → Locates o
  unfolding import_option import_from_path
  import_option-Locates key none x h = cc
  import_option-Locates key (some none) x h = tt
  import_option-Locates key (some (some path)) x h = located-some path x h

  with_encoder-ok :
      (o : Options) (e d : Result (Option ℕ)) (r : Registered)
      → with_encoder locate takes o e d ≡ ok r
      → ((x : Option ℕ) × (e ≡ ok x)) × ((y : Option ℕ) × (d ≡ ok y)) × (takes o.others ≡ true)
  with_encoder-ok o (raise e) d r h = cc
  with_encoder-ok o (ok x) (raise e) r h = cc
  with_encoder-ok o (ok x) (ok y) r h = ((x, refl), (y, refl), ground arith)

  import_serializer-ok :
      (name : Str) (o : Options)
      → Imports (name, o)
      → (r : Registered) × (import_serializer locate takes o ≡ ok r)
  unfolding import_serializer
  import_serializer-ok name o h =
      let (x, e) = import_option-ok (codes "encoder") o.encoder h.0 in
      let (y, d) = import_option-ok (codes "decoder") o.decoder h.1 in
      (record { encoder = x; decoder = y; others = o.others }, rw (e, d) (rw h.2 refl))

  import_serializer-Imports :
      (name : Str) (o : Options) (r : Registered)
      → import_serializer locate takes o ≡ ok r
      → Imports (name, o)
  unfolding import_serializer
  import_serializer-Imports name o r h =
      let ((x, e), (y, d), t) = with_encoder-ok o _ _ r h in
      (
        import_option-Locates (codes "encoder") o.encoder x e,
        import_option-Locates (codes "decoder") o.decoder y d,
        t,
      )

  registering-ok :
      (name : Str) (i : Result Registered) (registry made : Registry)
      (rest : Registry → Result Registry)
      → registering locate takes name i registry rest ≡ ok made
      → (r : Registered) × (i ≡ ok r) × (rest (put name r registry) ≡ ok made)
  registering-ok name (raise e) registry made rest h = cc
  registering-ok name (ok r) registry made rest h = (r, refl, h)

  register_all-ok :
      (ss : Dict Str Options) (registry : Registry)
      → All Imports ss
      → (made : Registry) × (register_all locate takes ss registry ≡ ok made)
  unfolding register_all
  register_all-ok [] registry h = (registry, refl)
  register_all-ok ((name, o) ∷ ss) registry h =
      let (r, e) = import_serializer-ok name o h.0 in
      let (made, rest) = register_all-ok ss (put name r registry) h.1 in
      (
        made,
        ap (λ i. registering locate takes name i registry (register_all locate takes ss)) e ∙ rest,
      )

  register_all-Imports :
      (ss : Dict Str Options) (registry made : Registry)
      → register_all locate takes ss registry ≡ ok made
      → All Imports ss × ((n : Str) → has_key n made ≡ (has_key n ss || has_key n registry))
  unfolding register_all has_key
  register_all-Imports [] registry made h =
      (tt, λ n. (let e : registry ≡ made = cc in ap (has_key n) (sym e)))
  register_all-Imports ((name, o) ∷ ss) registry made h =
      let (r, e, rest) =
        registering-ok name (import_serializer locate takes o) registry made
          (register_all locate takes ss) h in
      let more = register_all-Imports ss (put name r registry) made rest in
      (
        (import_serializer-Imports name o r e, more.0),
        λ n.
            more.1 n
            ∙ ap (λ b. has_key n ss || b) (has_key-put name n r registry)
            ∙ or_swap (has_key n ss) (str_eq name n) (has_key n registry),
      )

  check_names_iff :
      (registry : Registry) (names : List Str)
      → (check_names locate takes registry names ≡ none)
        ↔ All (λ n. has_key n registry ≡ true) names
  unfolding check_names
  check_names_iff registry [] = (λ h. tt, λ h. refl)
  check_names_iff registry (n ∷ names) = elim (Bool-cases (has_key n registry)) [
    | inl c ↦ rw c (
      (λ h. (refl, (check_names_iff registry names).0 h)),
      λ h. (check_names_iff registry names).1 h.1,
    )
    | inr c ↦ rw c ((λ h. cc), λ h. cc)
  ]

  unless_error-ok :
      (e : Option Error) (r q : Str × List Str)
      → (unless_error locate takes e r ≡ ok q) ↔ ((e ≡ none) × (r ≡ q))
  unless_error-ok none r q = (λ h. (refl, cc), λ h. ap ok h.1)
  unless_error-ok (some e) r q = (λ h. cc, λ h. cc)

  checked-ok :
      (s : Str) (a : List Str) (made : Result Registry) (q : Str × List Str)
      → checked locate takes s a made ≡ ok q
      → (r : Registry) × (made ≡ ok r) × All (λ n. has_key n r ≡ true) (s ∷ a) × ((s, a) ≡ q)
  checked-ok s a (raise e) q h = cc
  checked-ok s a (ok r) q h =
      let p = (unless_error-ok (check_names locate takes r (s ∷ a)) (s, a) q).0 h in
      (r, refl, (check_names_iff r (s ∷ a)).0 p.0, p.1)

  All-Known :
      (config : Config) (registry made : Registry) (names : List Str)
      → ((n : Str) → has_key n made ≡ (has_key n config.serializers || has_key n registry))
      → All (λ n. has_key n made ≡ true) names ↔ All (Known config registry) names
  All-Known config registry made [] h = (λ p. p, λ p. p)
  All-Known config registry made (n ∷ names) h =
      let rest = All-Known config registry made names h in
      (λ p. (sym (h n) ∙ p.0, rest.0 p.1), λ p. (h n ∙ p.0, rest.1 p.1))

  setup-ok :
      (config : Config) (registry : Registry) (q : Str × List Str)
      → let s = get_or config.serializer default_serializer in
        let a = get_or config.accept (s ∷ []) in
        checked locate takes s a (register_all locate takes config.serializers registry) ≡ ok q
        → All Imports config.serializers × All (Known config registry) (s ∷ a) × ((s, a) ≡ q)
  setup-ok config registry q h =
      let s = get_or config.serializer default_serializer in
      let a = get_or config.accept (s ∷ []) in
      let (r, made, known, is) =
        checked-ok s a (register_all locate takes config.serializers registry) q h in
      let all = register_all-Imports config.serializers registry r made in
      (all.0, (All-Known config registry r (s ∷ a) all.1).0 known, is)

  ok-setup :
      (config : Config) (registry : Registry)
      → let s = get_or config.serializer default_serializer in
        let a = get_or config.accept (s ∷ []) in
        All Imports config.serializers
        → All (Known config registry) (s ∷ a)
        → checked locate takes s a (register_all locate takes config.serializers registry)
          ≡ ok (s, a)
  ok-setup config registry h k =
      let s = get_or config.serializer default_serializer in
      let a = get_or config.accept (s ∷ []) in
      let (r, made) = register_all-ok config.serializers registry h in
      let all = register_all-Imports config.serializers registry r made in
      let known = (All-Known config registry r (s ∷ a) all.1).1 k in
      ap (checked locate takes s a) made
      ∙ (unless_error-ok (check_names locate takes r (s ∷ a)) (s, a) (s, a)).1
          ((check_names_iff r (s ∷ a)).1 known, refl)

  -- The serialization of a configuration is set up exactly when each of its serializers has the keys
  -- encoder and decoder, what these give a path for can be imported, kombu takes the other keys, and the chosen serializer and the accepted ones are registered,
  -- before or by the configuration; then they are the ones that the configuration names, or json for
  -- the serializer, and the serializer alone for the accepted ones.
  pub setup_iff :
      (config : Config) (registry : Registry) (q : Str × List Str)
      → let s = get_or config.serializer default_serializer in
        let a = get_or config.accept (s ∷ []) in
        (setup locate takes config registry ≡ ok q)
        ↔ (All Imports config.serializers × All (Known config registry) (s ∷ a) × ((s, a) ≡ q))
  unfolding setup
  setup_iff config registry q =
      (setup-ok config registry q, λ h. ok-setup config registry h.0 h.1 ∙ ap ok h.2)
