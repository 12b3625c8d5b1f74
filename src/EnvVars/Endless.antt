-- ===== src/EnvVars/Endless.antt =====
-- Default values of environment variables with which the loop of _replace_env_var goes on for ever.
use nameko_zh_cn.Base.{ℕ, zero, suc, Str, Bool, true, Option, none, some, [], ◌∷◌, ◌++◌, ◌≡◌, refl}
use nameko_zh_cn.EnvVars.{
  Match, balanced, match_env_var, sub_from, sub, is_implicit, scalar, replace_env_var, expand,
  env_var_constructor,
}
use nameko_zh_cn.EnvVars.Templates.{braced, IsName, match-default}

-- Text in which nothing is a reference, as the matcher sees it.
abbrev pub Unmatched : (ℕ → Bool) → Str → Type 0
Unmatched is_space [] = Unit
Unmatched is_space (c ∷ s) = (match_env_var is_space (c ∷ s) ≡ none) × Unmatched is_space s

-- Replacing the references gives the text again.
abbrev pub Fixed : (ℕ → Bool) → (Str → Option Str) → Str → Type 0
Fixed is_space environ s =
    (loop : Str → Option Str) → sub is_space (replace_env_var is_space environ loop) s ≡ some s

pub sub-Unmatched :
    (is_space : ℕ → Bool) (replace : Match → Option Str) (s : Str)
    → Unmatched is_space s
    → sub is_space replace s ≡ some s
unfolding sub sub_from
sub-Unmatched is_space replace [] h = refl
sub-Unmatched is_space replace (c ∷ s) h =
    rw (sub_from, h.0, sub-Unmatched is_space replace s h.1) refl

expand-Fixed :
    (is_space : ℕ → Bool) (environ : Str → Option Str) (s : Str) (n : ℕ)
    → is_implicit s ≡ true
    → Fixed is_space environ s
    → expand is_space environ n s ≡ none
unfolding expand
expand-Fixed is_space environ s zero e h = refl
expand-Fixed is_space environ s (suc n) e h =
    rw (expand, e, h (expand is_space environ n)) (expand-Fixed is_space environ s n e h)

sub_from-none :
    (is_space : ℕ → Bool) (replace : Match → Option Str) (c : ℕ) (s t : Str) (m : Match)
    → match_env_var is_space (c ∷ s) ≡ some (m, t)
    → replace m ≡ none
    → sub_from is_space replace 0 (c ∷ s) ≡ none
unfolding sub_from
sub_from-none is_space replace c s t m e h = rw (sub_from, e, h) refl

replace-none :
    (is_space : ℕ → Bool) (environ : Str → Option Str) (loop : Str → Option Str) (name s : Str)
    → environ name ≡ none
    → loop s ≡ none
    → replace_env_var is_space environ loop (record { env_var = name; default = some s }) ≡ none
unfolding replace_env_var
replace-none is_space environ loop name s e h = rw (replace_env_var, e) h

-- A reference to a variable that is not set never ends, however long it runs, if its default value
-- is taken for text with a reference, and replacing the references in there gives the same text again.
pub default_never_ends :
    (is_space : ℕ → Bool) (environ : Str → Option Str) (raw : Bool) (name s : Str) (n : ℕ)
    → IsName is_space environ name
    → environ name ≡ none
    → balanced 0 (s ++ b'}' ∷ []) ≡ some (s, [])
    → is_implicit s ≡ true
    → Fixed is_space environ s
    → env_var_constructor is_space environ n raw (scalar (b'$' ∷ braced (name ++ b':' ∷ s))) ≡ none
unfolding env_var_constructor sub
default_never_ends is_space environ raw name s n h unset e i f =
    rw
      (sub_from-none is_space (replace_env_var is_space environ (expand is_space environ n)) b'$'
        (braced (name ++ b':' ∷ s)) [] (record { env_var = name; default = some s })
        (match-default is_space environ name s h e)
        (replace-none is_space environ (expand is_space environ n) name s unset
          (expand-Fixed is_space environ s n i f)))
      refl
