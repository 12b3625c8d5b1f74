-- ===== src/Examples/Serializers.antt =====
-- The theorems of Serialization, and a run of Restricting, at small configurations.
use nameko_zh_cn.Base.{
  ℕ, Str, codes, false, Option, none, some, Bool, Dict, has_key, [], ◌∷◌, ◌≡◌, ◌↔◌, ◌++◌, refl, All,
  put, str_eq, List, str_keys, nat_eq, contains,
}
use nameko_zh_cn.Serialization.{Config, Options, setup, ok, sanitize_url}
use nameko_zh_cn.Serialization.Known.{Imports, Known, setup_iff}
use nameko_zh_cn.Serialization.Sanitized.{password_is_hidden}
use nameko_zh_cn.Restricting.{
  Container, done, restrict_entrypoints, remove_entrypoint, missing_from, remove_unnamed,
}

abbrev locate : Str → Option ℕ
locate path = some 1

abbrev takes : Dict Str Str → Bool
takes others = has_key (codes "content_type") others

abbrev upper : Options
upper = record {
  encoder = some (some (codes "m.up"));
  decoder = some none;
  others = (codes "content_type", codes "text/plain") ∷ [];
}

abbrev config : Config
config = record {
  serializers = (codes "upper", upper) ∷ [];
  serializer = some (codes "upper");
  accept = none;
}

abbrev chosen : Str × List Str
chosen = (codes "upper", codes "upper" ∷ [])

setup_iff_example : (setup locate takes config [] ≡ ok chosen) ↔ (
    All (Imports locate takes) config.serializers
    × All (Known locate takes config []) (codes "upper" ∷ (codes "upper" ∷ []))
    × (chosen ≡ chosen))
setup_iff_example = setup_iff locate takes config [] chosen

sets_up : setup locate takes config [] ≡ ok (codes "upper", codes "upper" ∷ [])
unfolding setup str_eq put
sets_up = refl

-- pyamqp://u:p@h, as the netloc u:p@h
abbrev urlparse : Str → Str × Str
urlparse url = (codes "u:p@h", codes "pyamqp")

abbrev geturl : Str → Str → Str
geturl netloc scheme = scheme ++ (codes "://" ++ netloc)

password_is_hidden_example :
    sanitize_url urlparse geturl
      (λ n. some (codes "u"))
      (λ n. some (codes "p"))
      (codes "pyamqp://u:p@h")
    ≡ codes "pyamqp://u:********@h"
password_is_hidden_example =
    password_is_hidden urlparse geturl (λ n. some (codes "u")) (λ n. some (codes "p"))
      (codes "pyamqp://u:p@h") (codes "u") (codes "p") (codes "h") (codes "pyamqp") refl refl refl
      (refl, tt)

abbrev bare : Container
bare = record {
  started = false;
  entrypoints =
      record { ident = 1; method_name = codes "foo" }
      ∷ (record { ident = 2; method_name = codes "ba" } ∷ []);
  dependencies = [];
}

abbrev only_ba : Container
only_ba = record bare { entrypoints = record { ident = 2; method_name = codes "ba" } ∷ [] }

keeps_ba : restrict_entrypoints (codes "ba" ∷ []) bare ≡ done only_ba
unfolding restrict_entrypoints missing_from remove_unnamed remove_entrypoint contains str_eq
keeps_ba = refl
