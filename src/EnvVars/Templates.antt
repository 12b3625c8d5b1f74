-- ===== src/EnvVars/Templates.antt =====
-- The parts of a text that env_var_constructor reads: characters, and references to
-- environment variables with or without a default value, which has parts of its own.
use Prim.Native.Nat.{max}
use mathlib.Core.List.{append_assoc, append-nil}
use nameko_zh_cn.Base.{
  ℕ, suc, ◌+◌, Str, Bool, true, false, Option, none, some, [], ◌∷◌, ◌++◌, eqb, ◌≡◌, refl, arith,
  All, ap, ◌∙◌,
}
use nameko_zh_cn.EnvVars.{prepend, balanced, after_name, in_name, span_name, match_env_var}

pub data Template : Type 0 where
  done : Template
  lit : ℕ → Template → Template
  var : Str → Template → Template
  or_else : Str → Template → Template → Template

abbrev pub braced : Str → Str
braced s = b'{' ∷ (s ++ b'}' ∷ [])

-- The text in the configuration file.
unfoldable pub show : Template → Str
show done = []
show (lit c t) = c ∷ show t
show (var name t) = b'$' ∷ (braced name ++ show t)
show (or_else name d t) = b'$' ∷ (braced (name ++ b':' ∷ show d) ++ show t)

-- How deep the references stand within one another.
unfoldable pub depth : Template → ℕ
depth done = 0
depth (lit c t) = depth t
depth (var name t) = max 1 (depth t)
depth (or_else name d t) = max (depth d + 2) (depth t)

module _ (is_space : ℕ → Bool) (environ : Str → Option Str) where
  -- The text with the environment's values, or the default values, in place of the references.
  unfoldable pub value : Template → Str
  value done = []
  value (lit c t) = c ∷ value t
  value (var name t) = elim (environ name) [ some v ↦ v | none ↦ [] ] ++ value t
  value (or_else name d t) = elim (environ name) [ some v ↦ v | none ↦ value d ] ++ value t

  abbrev pub IsName : Str → Type 0
  IsName [] = ⊥
  IsName (c ∷ s) = All (λ n. in_name is_space n ≡ true) (c ∷ s)

  abbrev pub NoBrace : Str → Type 0
  NoBrace = All (λ c. eqb c b'{' ≡ false)

  abbrev pub Plain : Str → Type 0
  Plain name = (v : Str) → environ name ≡ some v → NoBrace v

  -- A text within a default value: on one line, and its variables' values have no brace.
  abbrev pub Inner : Template → Type 0
  Inner done = Unit
  Inner (lit c t) = (eqb c b'{' ≡ false) × (eqb c b'}' ≡ false) × (eqb c 10 ≡ false) × Inner t
  Inner (var name t) = IsName name × Plain name × Inner t
  Inner (or_else name d t) = IsName name × Plain name × Inner d × Inner t

  abbrev pub Outer : Template → Type 0
  Outer done = Unit
  Outer (lit c t) = (eqb c b'{' ≡ false) × (eqb c b'}' ≡ false) × Outer t
  Outer (var name t) = IsName name × Outer t
  Outer (or_else name d t) = IsName name × Inner d × Outer t

  pub Inner-Outer : (t : Template) → Inner t → Outer t
  Inner-Outer done h = tt
  Inner-Outer (lit c t) h = (h.0, h.1, Inner-Outer t h.3)
  Inner-Outer (var name t) h = (h.0, Inner-Outer t h.2)
  Inner-Outer (or_else name d t) h = (h.0, h.2, Inner-Outer t h.3)

  span_name-append :
      (name : Str) (c : ℕ) (s : Str)
      → All (λ n. in_name is_space n ≡ true) name
      → in_name is_space c ≡ false
      → span_name is_space (name ++ c ∷ s) ≡ (name, c ∷ s)
  unfolding span_name
  span_name-append [] c s h k = ground arith
  span_name-append (n ∷ name) c s h k = ground (arith, span_name-append name c s h.1 k)

  -- Text in which the braces match does not end a default value.
  prepends : Str → Option (Str × Str) → Option (Str × Str)
  prepends [] r = r
  prepends (c ∷ s) r = prepend c (prepends s r)

  prepends-append :
      (s t : Str) (r : Option (Str × Str)) → prepends (s ++ t) r ≡ prepends s (prepends t r)
  unfolding prepends
  prepends-append [] t r = refl
  prepends-append (c ∷ s) t r = ap (prepend c) (prepends-append s t r)

  prepends-some : (s t u : Str) → prepends s (some (t, u)) ≡ some (s ++ t, u)
  unfolding prepends
  prepends-some [] t u = refl
  prepends-some (c ∷ s) t u = rw (prepends-some s t u) refl

  abbrev Balances : Str → Type 0
  Balances s = (k : ℕ) (r : Str) → balanced k (s ++ r) ≡ prepends s (balanced k r)

  Balances-append : (s t : Str) → Balances s → Balances t → Balances (s ++ t)
  Balances-append s t hs ht k r =
      rw (append_assoc s t r, hs k (t ++ r), ht k r, prepends-append s t (balanced k r)) refl

  Balances-char : (c : ℕ) → eqb c b'{' ≡ false → eqb c b'}' ≡ false → Balances (c ∷ [])
  unfolding balanced prepends
  Balances-char c h h' k r = ground arith

  Balances-name : (name : Str) → All (λ n. in_name is_space n ≡ true) name → Balances name
  unfolding balanced prepends
  Balances-name [] h k s = refl
  Balances-name (n ∷ name) h k s = ground (arith, Balances-name name h.1 k s)

  balanced-open : (k : ℕ) (s : Str) → balanced k (b'{' ∷ s) ≡ prepend b'{' (balanced (suc k) s)
  unfolding balanced
  balanced-open k s = refl

  balanced-close : (k : ℕ) (s : Str) → balanced (suc k) (b'}' ∷ s) ≡ prepend b'}' (balanced k s)
  unfolding balanced
  balanced-close k s = ground arith

  Balances-braced : (s : Str) → Balances s → Balances (braced s)
  unfolding prepends
  Balances-braced s h k r =
      balanced-open k ((s ++ b'}' ∷ []) ++ r)
      ∙ ap (prepend b'{') (
          rw
            (
              append_assoc s (b'}' ∷ []) r,
              h (suc k) (b'}' ∷ r),
              balanced-close k r,
              prepends-append s (b'}' ∷ []) (balanced k r),
            )
            refl)

  pub name_chars : (name : Str) → IsName name → All (λ n. in_name is_space n ≡ true) name
  name_chars [] h = absurd h
  name_chars (c ∷ name) h = h

  show-Balances : (t : Template) → Outer t → Balances (show t)
  unfolding show prepends
  show-Balances done h = λ k r. refl
  show-Balances (lit c t) h =
      Balances-append (c ∷ []) (show t) (Balances-char c h.0 h.1) (show-Balances t h.2)
  show-Balances (var name t) h =
      Balances-append (b'$' ∷ []) (braced name ++ show t) (Balances-char b'$' refl refl) (
        Balances-append (braced name) (show t)
          (Balances-braced name (Balances-name name (name_chars name h.0))) (show-Balances t h.1))
  show-Balances (or_else name d t) h =
      Balances-append (b'$' ∷ []) (braced (name ++ b':' ∷ show d) ++ show t)
        (Balances-char b'$' refl refl)
        (Balances-append (braced (name ++ b':' ∷ show d)) (show t)
          (Balances-braced (name ++ b':' ∷ show d) (
            Balances-append name (b':' ∷ show d) (Balances-name name (name_chars name h.0)) (
              Balances-append (b':' ∷ []) (show d) (Balances-char b':' refl refl)
                (show-Balances d (Inner-Outer d h.1)))))
          (show-Balances t h.2))

  balanced-end : (s : Str) → balanced 0 (b'}' ∷ s) ≡ some ([], s)
  unfolding balanced
  balanced-end s = refl

  pub balanced-show :
      (t : Template) (s : Str) → Outer t → balanced 0 (show t ++ b'}' ∷ s) ≡ some (show t, s)
  balanced-show t s h =
      rw (show-Balances t h 0 (b'}' ∷ s), balanced-end s, prepends-some (show t) [] s, append-nil)
        refl

  match-open :
      (name : Str) (c : ℕ) (s t : Str)
      → IsName name
      → in_name is_space c ≡ false
      → t ≡ name ++ c ∷ s
      → match_env_var is_space (b'$' ∷ (b'{' ∷ t)) ≡ after_name name (c ∷ s)
  unfolding match_env_var
  match-open name c s t h k e = rw (e, span_name-append name c s (name_chars name h) k) refl

  after_name-close :
      (name s : Str)
      → IsName name
      → after_name name (b'}' ∷ s) ≡ some (record { env_var = name; default = none }, s)
  unfolding after_name
  after_name-close [] s h = absurd h
  after_name-close (n ∷ name) s h = refl

  after_name-colon :
      (name s d r : Str)
      → IsName name
      → balanced 0 s ≡ some (d, r)
      → after_name name (b':' ∷ s) ≡ some (record { env_var = name; default = some d }, r)
  unfolding after_name
  after_name-colon [] s d r h e = absurd h
  after_name-colon (n ∷ name) s d r h e = rw (after_name, e) refl

  pub match-var :
      (name s : Str)
      → IsName name
      → match_env_var is_space (b'$' ∷ (braced name ++ s))
        ≡ some (record { env_var = name; default = none }, s)
  match-var name s h =
      match-open name b'}' s ((name ++ b'}' ∷ []) ++ s) h (ground arith) (append_assoc name _ s)
      ∙ after_name-close name s h

  pub match-default :
      (name s : Str)
      → IsName name
      → balanced 0 (s ++ b'}' ∷ []) ≡ some (s, [])
      → match_env_var is_space (b'$' ∷ braced (name ++ b':' ∷ s))
        ≡ some (record { env_var = name; default = some s }, [])
  match-default name s h e =
      match-open name b':' (s ++ b'}' ∷ []) ((name ++ b':' ∷ s) ++ b'}' ∷ []) h (ground arith)
        (append_assoc name (b':' ∷ s) (b'}' ∷ []))
      ∙ after_name-colon name (s ++ b'}' ∷ []) s [] h e

  pub match-or_else :
      (name : Str) (d : Template) (s : Str)
      → IsName name
      → Outer d
      → match_env_var is_space (b'$' ∷ (braced (name ++ b':' ∷ show d) ++ s))
        ≡ some (record { env_var = name; default = some (show d) }, s)
  match-or_else name d s h k =
      match-open name b':' (show d ++ b'}' ∷ s) (((name ++ b':' ∷ show d) ++ b'}' ∷ []) ++ s) h
        (ground arith)
        (append_assoc (name ++ b':' ∷ show d) (b'}' ∷ []) s
          ∙ append_assoc name (b':' ∷ show d) (b'}' ∷ s))
      ∙ after_name-colon name (show d ++ b'}' ∷ s) (show d) s h (balanced-show d s k)

  pub match-lit : (c : ℕ) (t : Template) → Outer t → match_env_var is_space (c ∷ show t) ≡ none
  unfolding match_env_var show
  match-lit c done h = refl
  match-lit c (lit d t) h = ground arith
  match-lit c (var name t) h = ground arith
  match-lit c (or_else name d t) h = ground arith
