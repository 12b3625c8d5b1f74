-- ===== src/Web/Address/Accepted.antt =====
-- nameko/web/server.py: which addresses parse_address accepts, and what it makes of them.
use nameko_zh_cn.Base.{
  ℕ, Str, true, false, Option, none, some, [], ◌∷◌, ◌++◌, eqb, nat_eq, ◌≡◌, ◌≢◌, refl, arith, All,
  ◌⊎◌, inl, inr, ◌↔◌, is_some, ap, sym, subst, Bool-cases, eqb_iff, All-append,
}
use nameko_zh_cn.Cli.{split_colon}
use nameko_zh_cn.Web.Address.{BindAddress, ends_line, port_of, bound, after_address, parse_address}
use nameko_zh_cn.Web.Address.Ports.{Digits, Port, port_of-Port, Port-port_of}

module _ (digit : ℕ → Option ℕ) where
  abbrev pub NoColon : Str → Type 0
  NoColon = All (λ c. eqb c b':' ≡ false)

  -- address:port, or the port alone.
  abbrev pub Stands : Str → BindAddress → Type 0
  Stands s b =
      ((rest : Str) × (b.address ≢ [])
        × NoColon b.address
        × (s ≡ b.address ++ b':' ∷ rest)
        × Port digit rest b.port)
      ⊎ ((b.address ≡ []) × Port digit s b.port)

  abbrev SplitAt : Str → Str → Option Str → Type 0
  SplitAt s a none = (s ≡ a) × NoColon a
  SplitAt s a (some r) = (s ≡ a ++ b':' ∷ r) × NoColon a

  SplitAt-char :
      (c : ℕ) (s a : Str) (o : Option Str)
      → eqb c b':' ≡ false
      → SplitAt s a o
      → SplitAt (c ∷ s) (c ∷ a) o
  SplitAt-char c s a none n h = (ap (λ t. c ∷ t) h.0, (n, h.1))
  SplitAt-char c s a (some r) n h = (ap (λ t. c ∷ t) h.0, (n, h.1))

  split_colon_lem : (s : Str) → SplitAt s (split_colon s).0 (split_colon s).1
  unfolding split_colon
  split_colon_lem [] = (refl, tt)
  split_colon_lem (c ∷ s) = elim (Bool-cases (eqb c b':')) [
    | inl e ↦ rw e (ap (λ d. d ∷ s) ((eqb_iff c b':').0 e), tt)
    | inr e ↦ rw e (SplitAt-char c s (split_colon s).0 (split_colon s).1 e (split_colon_lem s))
  ]

  split_colon-append : (a r : Str) → NoColon a → split_colon (a ++ b':' ∷ r) ≡ (a, some r)
  unfolding split_colon
  split_colon-append [] r h = refl
  split_colon-append (c ∷ a) r h = rw (h.0, split_colon-append a r h.1) refl

  split_colon-NoColon : (a : Str) → NoColon a → split_colon a ≡ (a, none)
  unfolding split_colon
  split_colon-NoColon [] h = refl
  split_colon-NoColon (c ∷ a) h = rw (h.0, split_colon-NoColon a h.1) refl

  bound-some :
      (a : Str) (o : Option ℕ) (b : BindAddress)
      → bound digit a o ≡ some b
      → (b.address ≡ a) × (o ≡ some b.port)
  bound-some a none b h = cc
  bound-some a (some n) b h =
      let e : record { address = a; port = n } ≡ b =
        (let h' : some (record { address = a; port = n }) ≡ some b = h in cc) in
      (ap (λ r. r.address) (sym e), ap (λ r. some (r.port)) e)

  port-Stands : (s : Str) (b : BindAddress) → bound digit [] (port_of digit s) ≡ some b → Stands s b
  port-Stands s b e =
      let q = bound-some [] (port_of digit s) b e in inr (q.0, port_of-Port digit s (b.port) q.1)

  after_address-Stands :
      (a s : Str) (o : Option Str) (b : BindAddress)
      → SplitAt s a o
      → after_address digit a o s ≡ some b
      → Stands s b
  after_address-Stands [] s none b h e = port-Stands s b e
  after_address-Stands [] s (some r) b h e = port-Stands s b e
  after_address-Stands (c ∷ a) s none b h e = port-Stands s b e
  after_address-Stands (c ∷ a) s (some r) b h e =
      let q = bound-some (c ∷ a) (port_of digit r) b e in
      inl (r, rw q.0 (λ n. cc), rw q.0 h.1, rw q.0 h.0, port_of-Port digit r (b.port) q.1)

  NoColon-end : (e : Str) → ends_line e ≡ true → NoColon e
  NoColon-end [] h = tt
  NoColon-end (c ∷ []) h = (ground arith, tt)
  NoColon-end (c ∷ (d ∷ e)) h = cc

  NoColon-Digits : (ds : Str) → digit b':' ≡ none → Digits digit ds → NoColon ds
  NoColon-Digits [] z h = tt
  NoColon-Digits (c ∷ ds) z h = (
    elim (Bool-cases (eqb c b':')) [
      | inl e ↦
          let q : is_some (digit b':') ≡ true =
            subst (λ n. is_some (digit n) ≡ true) ((eqb_iff c b':').0 e) h.0 in
          cc
      | inr e ↦ e
    ],
    NoColon-Digits ds z h.1,
  )

  Port-NoColon : (s : Str) (m : ℕ) → digit b':' ≡ none → Port digit s m → NoColon s
  Port-NoColon s m z p = rw p.parts (
      All-append _ p.digits p.end (NoColon-Digits p.digits z p.is_digits)
        (NoColon-end p.end p.is_end))

  after_address-some :
      (a r s : Str) → a ≢ [] → after_address digit a (some r) s ≡ bound digit a (port_of digit r)
  after_address-some [] r s n = absurd (n refl)
  after_address-some (c ∷ a) r s n = refl

  after_address-none : (a s : Str) → after_address digit a none s ≡ bound digit [] (port_of digit s)
  after_address-none [] s = refl
  after_address-none (c ∷ a) s = refl

  Stands-parse_address :
      (s : Str) (b : BindAddress)
      → digit 10 ≡ none
      → digit b':' ≡ none
      → Stands s b
      → parse_address digit s ≡ some b
  unfolding parse_address
  Stands-parse_address s b z y (inl (rest, nonempty, colon, parts, port)) =
      rw
        (
          parts,
          split_colon-append b.address rest colon,
          after_address-some b.address rest (b.address ++ b':' ∷ rest) nonempty,
          Port-port_of digit rest b.port z port,
        )
        refl
  Stands-parse_address s b z y (inr (empty, port)) =
      rw
        (
          split_colon-NoColon s (Port-NoColon s b.port y port),
          after_address-none s s,
          Port-port_of digit s b.port z port,
          sym empty,
        )
        refl

  -- parse_address accepts a text exactly when it is a port in digits, or an address, a colon and a
  -- port, where the address is not empty and has no colon; then it gives that address, empty if there
  -- is none, and the number that the digits stand for. A line break may follow the digits. Neither a
  -- colon nor a line break is a digit.
  pub parse_address_iff :
      (s : Str) (b : BindAddress)
      → digit 10 ≡ none
      → digit b':' ≡ none
      → (parse_address digit s ≡ some b) ↔ Stands s b
  unfolding parse_address
  parse_address_iff s b z y = (
    after_address-Stands (split_colon s).0 s (split_colon s).1 b (split_colon_lem s),
    Stands-parse_address s b z y,
  )
