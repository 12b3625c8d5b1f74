-- ===== src/EnvVars.antt =====
-- nameko/cli/main.py: environment variables in the configuration. ENV_VAR_MATCHER, with the `regex`
-- module, and IMPLICIT_ENV_VAR_MATCHER are scanned by hand: both patterns match in one way only. The
-- class of spaces is regex's, os.environ is a function, and so is yaml.safe_load. The loop of
-- _replace_env_var runs on fuel; none is a loop that has not ended.
pub mod Templates
pub mod Scanned
pub mod Expanded
pub mod Endless
use nameko_zh_cn.Base.{
  ℕ, zero, suc, ◌-◌, Str, Bool, true, false, not, Option, none, some, List, [], ◌∷◌, ◌++◌, length,
  eqb, str_eq, ◌&&◌, ◌||◌, ◌>>=◌, if◌then◌else◌,
}

-- match.groups()
pub record Match : Type 0 where
  pub env_var : Str
  pub default : Option Str

-- A text that was scanned, and the text that is left.
abbrev pub prepend : ℕ → Option (Str × Str) → Option (Str × Str)
prepend c none = none
prepend c (some (s, rest)) = some (c ∷ s, rest)

abbrev pub depth_after : ℕ → ℕ → ℕ
depth_after k c = if eqb c b'{' then suc k else if eqb c b'}' then k - 1 else k

-- (?:[^{}]|\{(?2)\})*\}: a text in which braces match, and the brace that closes it
unfoldable pub balanced : ℕ → Str → Option (Str × Str)
balanced k [] = none
balanced k (c ∷ s) =
    let rest = balanced (depth_after k c) s in
    if eqb c b'}' && eqb k 0 then some ([], s) else prepend c rest

-- (?::(...))?\} after a name
unfoldable pub after_name : Str → Str → Option (Match × Str)
unfolding balanced
after_name [] s = none
after_name (n ∷ name) [] = none
after_name (n ∷ name) (c ∷ s) =
    let whole : Match = record { env_var = n ∷ name; default = none } in
    if eqb c b'}'
    then some (whole, s)
    else if eqb c b':'
    then (balanced 0 s >>= λ r. some (record { env_var = n ∷ name; default = some (r.0) }, r.1))
    else none

module _ (is_space : ℕ → Bool) where
  -- [^{}:\s]
  abbrev pub in_name : ℕ → Bool
  in_name c = not (eqb c b'{' || eqb c b'}' || eqb c b':' || is_space c)

  -- [^{}:\s]+, and what is left
  unfoldable pub span_name : Str → Str × Str
  span_name [] = ([], [])
  span_name (c ∷ s) =
      let rest = span_name s in if in_name c then (c ∷ rest.0, rest.1) else ([], c ∷ s)

  -- ENV_VAR_MATCHER at the beginning of a text
  unfoldable pub match_env_var : Str → Option (Match × Str)
  unfolding span_name after_name
  match_env_var (c ∷ (d ∷ s)) =
      let name = span_name s in if eqb c b'$' && eqb d b'{' then after_name name.0 name.1 else none
  match_env_var _ = none

  -- ENV_VAR_MATCHER.sub(replace, value), with `skip` characters of a match still to go
  module _ (replace : Match → Option Str) where
    unfoldable pub sub_from : ℕ → Str → Option Str
    unfolding match_env_var
    sub_from skip [] = some []
    sub_from (suc skip) (c ∷ s) = sub_from skip s
    sub_from zero (c ∷ s) = elim (match_env_var (c ∷ s)) [
      | none ↦ sub_from zero s >>= λ t. some (c ∷ t)
      | some (m, rest) ↦
          replace m >>= λ v. sub_from (length s - length rest) s >>= λ t. some (v ++ t)
    ]

    unfoldable pub sub : Str → Option Str
    unfolding sub_from
    sub value = sub_from 0 value

-- .*\} on the rest of a line
unfoldable pub closes : Str → Bool
closes [] = false
closes (c ∷ s) = not (eqb c 10) && (eqb c b'}' || closes s)

-- \{.*\} on the rest of a line
unfoldable pub opens : Str → Bool
unfolding closes
opens [] = false
opens (c ∷ s) = eqb c b'{' && closes s

-- IMPLICIT_ENV_VAR_MATCHER.match(value)
unfoldable pub is_implicit : Str → Bool
unfolding opens
is_implicit [] = false
is_implicit (c ∷ s) = not (eqb c 10) && (eqb c b'$' && opens s || is_implicit s)

abbrev pub or_empty : Option Str → Str
or_empty none = []
or_empty (some s) = s

pub data Node : Type 0 where
  scalar : Str → Node
  other_node : Node

-- What the constructor gives for a node: a text, what safe_load makes of a text, or a ValueError.
pub data Constructed : Type 0 where
  text loaded : Str → Constructed
  value_error : Constructed

module _ (is_space : ℕ → Bool) (environ : Str → Option Str) where
  -- _replace_env_var, with its loop
  unfoldable pub replace_env_var : (Str → Option Str) → Match → Option Str
  replace_env_var loop m = elim (environ (m.env_var)) [
    | some value ↦ some value
    | none ↦ loop (or_empty (m.default))
  ]

  -- while IMPLICIT_ENV_VAR_MATCHER.match(value): value = ENV_VAR_MATCHER.sub(_replace_env_var, value)
  unfoldable pub expand : ℕ → Str → Option Str
  unfolding is_implicit sub replace_env_var
  expand zero value = none
  expand (suc fuel) value = elim (is_implicit value) [
    | false ↦ some value
    | true ↦ sub is_space (replace_env_var (expand fuel)) value >>= expand fuel
  ]

  abbrev pub constructed : Bool → Str → Str → Constructed
  constructed raw raw_value value =
      if str_eq value raw_value then text value else if raw then text value else loaded value

  unfoldable pub env_var_constructor : ℕ → Bool → Node → Option Constructed
  unfolding expand sub replace_env_var
  env_var_constructor fuel raw other_node = some value_error
  env_var_constructor fuel raw (scalar raw_value) =
      sub is_space (replace_env_var (expand fuel)) raw_value >>= λ value.
      some (constructed raw raw_value value)
