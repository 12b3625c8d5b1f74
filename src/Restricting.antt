-- ===== src/Restricting.antt =====
-- nameko/testing/services.py: restrict_entrypoints. An extension is an object, by its
-- number; a container's set of entrypoints is a list.
pub mod Named
use nameko_zh_cn.Base.{
  ℕ, Str, Bool, true, false, not, Option, none, some, List, [], ◌∷◌, ◌++◌, Dict, get, put, has_key,
  contains, str_keys, nat_eq, ◌==◌, if◌then◌else◌, map,
}

pub record Entrypoint : Type 0 where
  pub ident : ℕ
  pub method_name : Str

pub record Container : Type 0 where
  pub started : Bool
  pub entrypoints : List Entrypoint
  pub dependencies : List ℕ

pub data Restricted : Type 0 where
  done : Container → Restricted
  runtime_error : Restricted
  extension_not_found : (missing : List Str) → Restricted

-- set(names) - known
unfoldable pub missing_from : List Str → List Str → List Str
missing_from known [] = []
missing_from known (n ∷ names) =
    let rest = missing_from known names in if contains n known then rest else n ∷ rest

-- container.entrypoints.remove(entrypoint)
unfoldable pub remove_entrypoint : ℕ → List Entrypoint → List Entrypoint
remove_entrypoint i [] = []
remove_entrypoint i (e ∷ es) =
    let rest = remove_entrypoint i es in if e.ident == i then es else e ∷ rest

-- for entrypoint in entrypoint_deps: ...
unfoldable pub remove_unnamed : List Str → List Entrypoint → List Entrypoint → List Entrypoint
unfolding remove_entrypoint
remove_unnamed names [] es = es
remove_unnamed names (e ∷ deps) es =
    remove_unnamed names deps
      (if contains e.method_name names then es else remove_entrypoint e.ident es)

restricted : List Str → List Str → Container → Restricted
unfolding remove_unnamed
restricted [] names c =
    done (record c { entrypoints = remove_unnamed names c.entrypoints c.entrypoints })
restricted (m ∷ missing) names c = extension_not_found (m ∷ missing)

unfoldable pub restrict_entrypoints : List Str → Container → Restricted
unfolding restricted missing_from
restrict_entrypoints names c =
    let known = map (λ e. e.method_name) c.entrypoints in
    if c.started then runtime_error else restricted (missing_from known names) names c
