-- ===== src/Examples/Configs.antt =====
-- The configuration of a service: references to environment variables, and addresses.
use nameko_zh_cn.Base.{
  Str, Bool, codes, All, subst, false, Option, none, some, ◌≡◌, refl, ℕ, eqb, ◌||◌, arith,
  if◌then◌else◌, str_eq, leb, ◌&&◌, ◌-◌, ◌↔◌,
}
use nameko_zh_cn.Web.Address.{parse_address}
use nameko_zh_cn.Web.Address.Accepted.{Stands, parse_address_iff}
use nameko_zh_cn.EnvVars.{env_var_constructor, balanced, is_implicit, match_env_var, scalar, loaded}
use nameko_zh_cn.EnvVars.Templates.{Template, done, lit, var, or_else, show, depth, value}
use nameko_zh_cn.EnvVars.Expanded.{config_value_expands}
use nameko_zh_cn.EnvVars.Endless.{default_never_ends, sub-Unmatched}

abbrev is_space : ℕ → Bool
is_space c = eqb c 32 || eqb c 10

abbrev host : Str
host = codes "HOST"

abbrev environ : Str → Option Str
environ name = if str_eq name host then some (codes "h") else none

-- ${URI:a${HOST}}
abbrev template : Template
template = or_else (codes "URI") (lit b'a' (var host done)) done

expands_text :
    env_var_constructor is_space environ 4 false (scalar (codes "${URI:a${HOST}}"))
    ≡ some (loaded (codes "ah"))
unfolding env_var_constructor str_eq
expands_text = refl

abbrev OptionPlain : Option Str → Type 0
OptionPlain none = Unit
OptionPlain (some v) = All (λ c. eqb c b'{' ≡ false) v

host_plain : (v : Str) → environ host ≡ some v → All (λ c. eqb c b'{' ≡ false) v
unfolding str_eq
host_plain v e = subst OptionPlain e (refl, tt)

config_value_expands_example :
    env_var_constructor is_space environ 4 false (scalar (show template))
    ≡ some (loaded (codes "ah"))
unfolding show value depth str_eq
config_value_expands_example =
    config_value_expands is_space environ false template 4 refl
      (
        (refl, (refl, (refl, tt))),
        (refl, refl, refl, ((refl, (refl, (refl, (refl, tt)))), host_plain, tt)),
        tt,
      )
      (omega arith)

default_never_ends_example :
    (env_var_constructor is_space environ 1000 false (scalar (codes "${A:${}}"))) ≡ none
unfolding balanced is_implicit match_env_var str_eq
default_never_ends_example =
    default_never_ends is_space environ false (codes "A") (codes "${}") 1000 (refl, tt) refl refl
      refl (λ loop. sub-Unmatched is_space _ (codes "${}") (refl, (refl, (refl, tt))))

abbrev pub digit : ℕ → Option ℕ
digit c = if leb b'0' c && leb c b'9' then some (c - b'0') else none

parses_text : parse_address digit (codes "h:80") ≡ some (record { address = codes "h"; port = 80 })
unfolding parse_address
parses_text = refl

parse_address_iff_example :
    (parse_address digit (codes "h:80") ≡ some (record { address = codes "h"; port = 80 }))
    ↔ Stands digit (codes "h:80") (record { address = codes "h"; port = 80 })
parse_address_iff_example =
    parse_address_iff digit (codes "h:80") (record { address = codes "h"; port = 80 }) refl refl
