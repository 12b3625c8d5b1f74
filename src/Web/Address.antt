-- ===== src/Web/Address.antt =====
-- nameko/web/server.py: parse_address. The class \d and the value that int gives a digit are Python's;
-- the pattern's optional address is what stands before the first colon.
pub mod Ports
pub mod Accepted
use Prim.Native.Nat.{◌+◌, ◌*◌}
use nameko_zh_cn.Base.{
  ℕ, Str, Bool, true, false, Option, none, some, [], ◌∷◌, ◌++◌, eqb, nat_eq, if◌then◌else◌, ◌≡◌,
  ◌≢◌, refl, arith, All, ◌⊎◌, inl, inr, Option-cases, ◌↔◌, is_some, ◌>>=◌, ap, ◌∙◌, sym, subst,
  Bool-cases, eqb_iff, All-append,
}
use nameko_zh_cn.Cli.{split_colon}

pub record BindAddress : Type 0 where
  pub address : Str
  pub port : ℕ

abbrev pub ends_line : Str → Bool
ends_line [] = true
ends_line (c ∷ []) = eqb c 10
ends_line (c ∷ (d ∷ s)) = false

module _ (digit : ℕ → Option ℕ) where
  -- int of the digits, up to the end of the text or a line break that ends it
  unfoldable pub port_from : ℕ → Str → Option ℕ
  port_from n [] = some n
  port_from n (c ∷ s) = elim (digit c) [
    | some d ↦ port_from (n * 10 + d) s
    | none ↦ if ends_line (c ∷ s) then some n else none
  ]

  -- (?P<port>\d+)$
  unfoldable pub port_of : Str → Option ℕ
  unfolding port_from
  port_of [] = none
  port_of (c ∷ s) = digit c >>= λ d. port_from d s

  abbrev pub bound : Str → Option ℕ → Option BindAddress
  bound address none = none
  bound address (some n) = some (record { address = address; port = n })

  -- ^((?P<address>[^:]+):)? with what follows
  abbrev pub after_address : Str → Option Str → Str → Option BindAddress
  after_address (c ∷ address) (some rest) s = bound (c ∷ address) (port_of rest)
  after_address _ _ s = bound [] (port_of s)

  -- none is the ConfigurationError.
  unfoldable pub parse_address : Str → Option BindAddress
  unfolding port_of split_colon
  parse_address s = after_address (split_colon s).0 (split_colon s).1 s
