-- ===== src/EnvVars/Expanded.antt =====
-- What env_var_constructor makes of a text, from the text's parts.
use nameko_zh_cn.Base.{
  ℕ, zero, suc, ◌+◌, ◌≤◌, Str, Bool, true, false, Option, none, some, [], ◌∷◌, ◌++◌, eqb, eqb_iff,
  ◌≡◌, refl, sym, subst, arith, All, All-append, Option-cases, Bool-cases, inl, inr, ap, ◌∙◌,
}
use nameko_zh_cn.EnvVars.{
  sub, in_name, is_implicit, scalar, replace_env_var, expand, constructed, env_var_constructor,
}
use nameko_zh_cn.EnvVars.Templates.{
  Template, done, lit, var, or_else, braced, show, depth, value, NoBrace, Plain, Inner, Outer,
  Inner-Outer, match-var, match-or_else, match-lit, name_chars,
}
use nameko_zh_cn.EnvVars.Scanned.{
  sub_from-match, sub_from-char, NoBrace-is_implicit, is_implicit-braced,
}

is_implicit-tail :
    (c : ℕ) (s : Str) → eqb c 10 ≡ false → is_implicit (c ∷ s) ≡ false → is_implicit s ≡ false
unfolding is_implicit
is_implicit-tail c s h e = ground arith

module _ (is_space : ℕ → Bool) (environ : Str → Option Str) (newline : is_space 10 ≡ true) where
  name_char : (c : ℕ) → in_name is_space c ≡ true → eqb c 10 ≡ false
  name_char c h = elim (Bool-cases (eqb c 10)) [
    | inl e ↦
        let h' : in_name is_space 10 ≡ true =
          subst (λ n. in_name is_space n ≡ true) ((eqb_iff c 10).0 e) h in
        ground arith
    | inr e ↦ e
  ]

  name_line :
      (name : Str) → All (λ n. in_name is_space n ≡ true) name → All (λ c. eqb c 10 ≡ false) name
  name_line [] h = tt
  name_line (c ∷ name) h = (name_char c h.0, name_line name h.1)

  show_line : (t : Template) → Inner is_space environ t → All (λ c. eqb c 10 ≡ false) (show t)
  unfolding show
  show_line done h = tt
  show_line (lit c t) h = (h.2, show_line t h.3)
  show_line (var name t) h = (
    refl,
    (
      refl,
      All-append _ (name ++ b'}' ∷ []) (show t)
          (All-append _ name (b'}' ∷ []) (name_line name (name_chars is_space environ name h.0))
            (refl, tt))
          (show_line t h.2),
    ),
  )
  show_line (or_else name d t) h = (
    refl,
    (
      refl,
      All-append _ ((name ++ b':' ∷ show d) ++ b'}' ∷ []) (show t)
          (All-append _ (name ++ b':' ∷ show d) (b'}' ∷ [])
            (All-append _ name (b':' ∷ show d)
              (name_line name (name_chars is_space environ name h.0)) (refl, show_line d h.2))
            (refl, tt))
          (show_line t h.3),
    ),
  )

  found_NoBrace :
      (name d : Str)
      → Plain is_space environ name
      → NoBrace is_space environ d
      → NoBrace is_space environ (elim (environ name) [ some v ↦ v | none ↦ d ])
  found_NoBrace name d h k = elim (Option-cases (environ name)) [
    | inl e ↦ rw e k
    | inr (v, e) ↦ rw e (h v e)
  ]

  value_NoBrace :
      (t : Template)
      → Inner is_space environ t
      → NoBrace is_space environ (value is_space environ t)
  unfolding value
  value_NoBrace done h = tt
  value_NoBrace (lit c t) h = (h.0, value_NoBrace t h.3)
  value_NoBrace (var name t) h =
      All-append _ _ (value is_space environ t) (found_NoBrace name [] h.1 tt) (value_NoBrace t h.2)
  value_NoBrace (or_else name d t) h =
      All-append _ _ (value is_space environ t)
        (found_NoBrace name (value is_space environ d) h.1 (value_NoBrace d h.2))
        (value_NoBrace t h.3)

  -- Text without references stands for itself.
  value-show :
      (t : Template)
      → Inner is_space environ t
      → is_implicit (show t) ≡ false
      → value is_space environ t ≡ show t
  unfolding value show
  value-show done h e = refl
  value-show (lit c t) h e = ap (λ s. c ∷ s) (value-show t h.3 (is_implicit-tail c (show t) h.2 e))
  value-show (var name t) h e =
      let e' =
        is_implicit-braced name (show t) (name_line name (name_chars is_space environ name h.0)) in
      cc
  value-show (or_else name d t) h e =
      let e' = is_implicit-braced (name ++ b':' ∷ show d) (show t) (
        All-append _ name (b':' ∷ show d) (name_line name (name_chars is_space environ name h.0))
          (refl, show_line d h.2)) in
      cc

  -- With enough fuel, each reference in a text is replaced once and for all.
  abbrev Expands : Template → Type 0
  Expands d =
      (n : ℕ)
      → depth d + 2 ≤ n
      → expand is_space environ n (show d) ≡ some (value is_space environ d)

  expand_end :
      (n : ℕ) (s : Str) → is_implicit s ≡ false → expand is_space environ (suc n) s ≡ some s
  unfolding expand
  expand_end n s e = rw (expand, e) refl

  expand_more :
      (n : ℕ) (s t : Str)
      → is_implicit s ≡ true
      → sub is_space (replace_env_var is_space environ (expand is_space environ n)) s ≡ some t
      → expand is_space environ (suc n) s ≡ expand is_space environ n t
  unfolding expand
  expand_more n s t e h = rw (expand, e, h) refl

  Expands-sub :
      (d : Template)
      → Inner is_space environ d
      → ((n : ℕ)
          → depth d ≤ n
          → sub is_space (replace_env_var is_space environ (expand is_space environ n)) (show d)
            ≡ some (value is_space environ d))
      → Expands d
  Expands-sub d h f zero k = absurd (omega arith)
  Expands-sub d h f (suc zero) k = absurd (omega arith)
  Expands-sub d h f (suc (suc n)) k = elim (Bool-cases (is_implicit (show d))) [
    | inl e ↦
        expand_more (suc n) _ _ e (f (suc n) (omega arith))
        ∙ expand_end n _ (NoBrace-is_implicit (value is_space environ d) (value_NoBrace d h))
    | inr e ↦ expand_end (suc n) _ e ∙ ap some (sym (value-show d h e))
  ]

  replace-var :
      (name : Str) (n : ℕ)
      → 1 ≤ n
      → replace_env_var is_space environ
          (expand is_space environ n)
          (record { env_var = name; default = none })
        ≡ some (elim (environ name) [ some v ↦ v | none ↦ [] ])
  unfolding replace_env_var is_implicit
  replace-var name zero k = absurd (omega arith)
  replace-var name (suc n) k = elim (Option-cases (environ name)) [
    | inl e ↦ rw (replace_env_var, e) (expand_end n [] refl)
    | inr (v, e) ↦ rw (replace_env_var, e) refl
  ]

  replace-or_else :
      (name : Str) (d : Template) (n : ℕ)
      → expand is_space environ n (show d) ≡ some (value is_space environ d)
      → replace_env_var is_space environ
          (expand is_space environ n)
          (record { env_var = name; default = some (show d) })
        ≡ some (elim (environ name) [ some v ↦ v | none ↦ value is_space environ d ])
  unfolding replace_env_var
  replace-or_else name d n k = elim (Option-cases (environ name)) [
    | inl e ↦ rw (replace_env_var, e) k
    | inr (v, e) ↦ rw (replace_env_var, e) refl
  ]

  sub-show :
      (t : Template) (n : ℕ)
      → Outer is_space environ t
      → depth t ≤ n
      → sub is_space (replace_env_var is_space environ (expand is_space environ n)) (show t)
        ≡ some (value is_space environ t)
  unfolding sub show value depth
  sub-show done n h k = refl
  sub-show (lit c t) n h k =
      sub_from-char is_space _ c (show t) _ (match-lit is_space environ c t h.2)
        (sub-show t n h.2 k)
  sub-show (var name t) n h k =
      sub_from-match is_space _ b'$' (braced name) (show t) _ _ _
        (match-var is_space environ name (show t) h.0) (replace-var name n (omega arith))
        (sub-show t n h.1 (omega arith))
  sub-show (or_else name d t) n h k =
      sub_from-match is_space _ b'$' (braced (name ++ b':' ∷ show d)) (show t) _ _ _
        (match-or_else is_space environ name d (show t) h.0 (Inner-Outer is_space environ d h.1))
        (replace-or_else name d n (
          Expands-sub d h.1 (λ m. sub-show d m (Inner-Outer is_space environ d h.1)) n
            (omega arith)))
        (sub-show t n h.2 (omega arith))

-- Of a text all of whose braces are those of its references, each with a name and perhaps a default
-- value of that kind, the constructor ends, and gives the text with each reference replaced by the variable's value, else
-- by its default value's text with the references in there replaced, else by nothing: as it is if
-- nothing changed or raw is set, and as YAML otherwise. The fuel is at least the depth of the
-- references; within a default value there is no line break, and the values of the variables there
-- have no opening brace; a line break is a space.
pub config_value_expands :
    (is_space : ℕ → Bool) (environ : Str → Option Str) (raw : Bool) (t : Template) (n : ℕ)
    → is_space 10 ≡ true
    → Outer is_space environ t
    → depth t ≤ n
    → env_var_constructor is_space environ n raw (scalar (show t))
      ≡ some (constructed is_space environ raw (show t) (value is_space environ t))
unfolding env_var_constructor
config_value_expands is_space environ raw t n newline h k =
    rw (sub-show is_space environ newline t n h k) refl
