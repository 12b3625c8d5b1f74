-- ===== src/EnvVars/Scanned.antt =====
-- The scan of a text for references, and of a line for the signs of one.
use mathlib.Core.List.{append_assoc}
use nameko_zh_cn.Base.{
  ℕ, ◌-◌, Str, Bool, true, false, Option, none, some, [], ◌∷◌, ◌++◌, length, eqb, ◌≡◌, refl, arith,
  All, length-append,
}
use nameko_zh_cn.EnvVars.{Match, match_env_var, sub_from, closes, opens, is_implicit}
use nameko_zh_cn.EnvVars.Templates.{braced}

module _ (is_space : ℕ → Bool) (replace : Match → Option Str) where
  sub_from-skip :
      (s t : Str) → sub_from is_space replace (length s) (s ++ t) ≡ sub_from is_space replace 0 t
  unfolding sub_from
  sub_from-skip [] t = refl
  sub_from-skip (c ∷ s) t = sub_from-skip s t

  sub_from-rest :
      (s t : Str)
      → sub_from is_space replace (length (s ++ t) - length t) (s ++ t)
        ≡ sub_from is_space replace 0 t
  sub_from-rest s t =
      let e : length (s ++ t) - length t ≡ length s = omega (arith, length-append {0} s t) in
      rw e (sub_from-skip s t)

  pub sub_from-match :
      (c : ℕ) (s t v u : Str) (m : Match)
      → match_env_var is_space (c ∷ (s ++ t)) ≡ some (m, t)
      → replace m ≡ some v
      → sub_from is_space replace 0 t ≡ some u
      → sub_from is_space replace 0 (c ∷ (s ++ t)) ≡ some (v ++ u)
  unfolding sub_from
  sub_from-match c s t v u m e h k = rw (sub_from, e, h, sub_from-rest s t, k) refl

  pub sub_from-char :
      (c : ℕ) (s u : Str)
      → match_env_var is_space (c ∷ s) ≡ none
      → sub_from is_space replace 0 s ≡ some u
      → sub_from is_space replace 0 (c ∷ s) ≡ some (c ∷ u)
  unfolding sub_from
  sub_from-char c s u e h = rw (sub_from, e, h) refl

NoBrace-opens : (s : Str) → All (λ c. eqb c b'{' ≡ false) s → opens s ≡ false
unfolding opens
NoBrace-opens [] h = refl
NoBrace-opens (c ∷ s) h = ground arith

pub NoBrace-is_implicit : (s : Str) → All (λ c. eqb c b'{' ≡ false) s → is_implicit s ≡ false
unfolding is_implicit
NoBrace-is_implicit [] h = refl
NoBrace-is_implicit (c ∷ s) h = ground (arith, NoBrace-opens s, NoBrace-is_implicit s)

closes-append : (s t : Str) → All (λ c. eqb c 10 ≡ false) s → closes (s ++ b'}' ∷ t) ≡ true
unfolding closes
closes-append [] t h = refl
closes-append (c ∷ s) t h = ground (arith, closes-append s t)

pub is_implicit-braced :
    (s t : Str) → All (λ c. eqb c 10 ≡ false) s → is_implicit (b'$' ∷ (braced s ++ t)) ≡ true
unfolding is_implicit opens
is_implicit-braced s t h = rw (append_assoc s (b'}' ∷ []) t, closes-append s t h) refl
