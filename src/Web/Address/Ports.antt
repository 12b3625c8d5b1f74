-- ===== src/Web/Address/Ports.antt =====
-- nameko/web/server.py: the port of an address, as parse_address reads it.
use Prim.Native.Nat.{◌+◌, ◌*◌}
use nameko_zh_cn.Base.{
  ℕ, Str, true, Option, none, some, [], ◌∷◌, ◌++◌, nat_eq, if◌then◌else◌, ◌≡◌, ◌≢◌, refl, arith,
  All, inl, inr, Option-cases, is_some, ap, ◌∙◌, sym, Bool-cases, eqb_iff,
}
use nameko_zh_cn.Web.Address.{ends_line, port_from, port_of}

module _ (digit : ℕ → Option ℕ) where
  -- The number that digits stand for, after those of `n`.
  unfoldable pub value_from : ℕ → Str → ℕ
  value_from n [] = n
  value_from n (c ∷ s) = elim (digit c) [ some d ↦ value_from (n * 10 + d) s | none ↦ n ]

  abbrev pub Digits : Str → Type 0
  Digits = All (λ c. is_some (digit c) ≡ true)

  -- A text of digits for a port, with at most a line break after it.
  pub record Port (s : Str) (port : ℕ) : Type 0 where
    pub digits : Str
    pub end : Str
    pub parts : s ≡ digits ++ end
    pub is_digits : Digits digits
    pub is_end : ends_line end ≡ true
    pub some_digit : digits ≢ []
    pub value : port ≡ value_from 0 digits

  port_from-digit :
      (n c d : ℕ) (s : Str)
      → digit c ≡ some d
      → port_from digit n (c ∷ s) ≡ port_from digit (n * 10 + d) s
  unfolding port_from
  port_from-digit n c d s p = rw (port_from, p) refl

  port_from-end :
      (n c : ℕ) (s : Str)
      → digit c ≡ none
      → port_from digit n (c ∷ s) ≡ (if ends_line (c ∷ s) then some n else none)
  unfolding port_from
  port_from-end n c s p = rw (port_from, p) refl

  value_from-digit :
      (n c d : ℕ) (s : Str) → digit c ≡ some d → value_from n (c ∷ s) ≡ value_from (n * 10 + d) s
  unfolding value_from
  value_from-digit n c d s p = rw (value_from, p) refl

  port_from-line :
      (n : ℕ) (e : Str) → digit 10 ≡ none → ends_line e ≡ true → port_from digit n e ≡ some n
  unfolding port_from
  port_from-line n [] z k = refl
  port_from-line n (c ∷ []) z k =
      let p : c ≡ 10 = (eqb_iff c 10).0 k in port_from-end n c [] (ap digit p ∙ z) ∙ rw k refl
  port_from-line n (c ∷ (d ∷ e)) z k = cc

  port_from-Digits :
      (n : ℕ) (ds e : Str)
      → digit 10 ≡ none
      → Digits ds
      → ends_line e ≡ true
      → port_from digit n (ds ++ e) ≡ some (value_from n ds)
  unfolding value_from
  port_from-Digits n [] e z h k = port_from-line n e z k
  port_from-Digits n (c ∷ ds) e z h k = elim (Option-cases (digit c)) [
    | inl p ↦ let q : is_some (digit c) ≡ true = h.0 in cc
    | inr (d, p) ↦
        port_from-digit n c d (ds ++ e) p
        ∙ port_from-Digits (n * 10 + d) ds e z h.1 k
        ∙ ap some (sym (value_from-digit n c d ds p))
  ]

  abbrev Parts : ℕ → Str → ℕ → Type 0
  Parts n s m =
      (ds : Str) × (e : Str) × (s ≡ ds ++ e)
      × Digits ds
      × (ends_line e ≡ true)
      × (m ≡ value_from n ds)

  Parts-digit :
      (n c d : ℕ) (s : Str) (m : ℕ) → digit c ≡ some d → Parts (n * 10 + d) s m → Parts n (c ∷ s) m
  Parts-digit n c d s m p (ds, e, parts, digits, end, value) = (
    c ∷ ds,
    e,
    ap (λ t. c ∷ t) parts,
    (ap is_some p, digits),
    end,
    value ∙ sym (value_from-digit n c d ds p),
  )

  port_from-stop :
      (n c : ℕ) (s : Str) (m : ℕ)
      → digit c ≡ none
      → port_from digit n (c ∷ s) ≡ some m
      → (ends_line (c ∷ s) ≡ true) × (m ≡ n)
  unfolding port_from
  port_from-stop n c s m p h =
      let e : (if ends_line (c ∷ s) then some n else none) ≡ some m =
        sym (port_from-end n c s p) ∙ h in
      elim (Bool-cases (ends_line (c ∷ s))) [
        | inl k ↦ let q : some n ≡ some m = rw k at e in (k, cc)
        | inr k ↦ let q : ◌≡◌ {A = Option ℕ} none (some m) = rw k at e in cc
      ]

  port_from-some : (n : ℕ) (s : Str) (m : ℕ) → port_from digit n s ≡ some m → Parts n s m
  unfolding port_from value_from
  port_from-some n [] m h = ([], [], refl, tt, refl, cc)
  port_from-some n (c ∷ s) m h = elim (Option-cases (digit c)) [
    | inl p ↦ let q = port_from-stop n c s m p h in ([], c ∷ s, refl, tt, q.0, q.1)
    | inr (d, p) ↦
        Parts-digit n c d s m p
          (port_from-some (n * 10 + d) s m (sym (port_from-digit n c d s p) ∙ h))
  ]

  port_of-digit :
      (c d : ℕ) (s : Str) → digit c ≡ some d → port_of digit (c ∷ s) ≡ port_from digit d s
  unfolding port_of
  port_of-digit c d s p = rw (port_of, p) refl

  value_of-digit : (c d : ℕ) (s : Str) → digit c ≡ some d → value_from 0 (c ∷ s) ≡ value_from d s
  value_of-digit c d s p =
      let e : 0 * 10 + d ≡ d = omega arith in
      value_from-digit 0 c d s p ∙ ap (λ n. value_from n s) e

  port_of-Digits :
      (ds e : Str)
      → digit 10 ≡ none
      → ds ≢ []
      → Digits ds
      → ends_line e ≡ true
      → port_of digit (ds ++ e) ≡ some (value_from 0 ds)
  port_of-Digits [] e z n h k = absurd (n refl)
  port_of-Digits (c ∷ ds) e z n h k = elim (Option-cases (digit c)) [
    | inl p ↦ let q : is_some (digit c) ≡ true = h.0 in cc
    | inr (d, p) ↦
        port_of-digit c d (ds ++ e) p
        ∙ port_from-Digits d ds e z h.1 k
        ∙ ap some (sym (value_of-digit c d ds p))
  ]

  pub port_of-Port : (s : Str) (m : ℕ) → port_of digit s ≡ some m → Port s m
  unfolding port_of
  port_of-Port [] m h = cc
  port_of-Port (c ∷ s) m h = elim (Option-cases (digit c)) [
    | inl p ↦ let q : ◌≡◌ {A = Option ℕ} none (some m) = rw (port_of, p) at h in cc
    | inr (d, p) ↦ made d p (port_from-some d s m (sym (port_of-digit c d s p) ∙ h))
  ]
    where
      made : (d : ℕ) → digit c ≡ some d → Parts d s m → Port (c ∷ s) m
      made d p (ds, e, parts, digits, end, value) = record {
        digits = c ∷ ds;
        end = e;
        parts = ap (λ t. c ∷ t) parts;
        is_digits = (ap is_some p, digits);
        is_end = end;
        some_digit = λ q. cc;
        value = value ∙ sym (value_of-digit c d ds p);
      }

  pub Port-port_of : (s : Str) (m : ℕ) → digit 10 ≡ none → Port s m → port_of digit s ≡ some m
  Port-port_of s m z p =
      ap (port_of digit) p.parts
      ∙ port_of-Digits p.digits p.end z p.some_digit p.is_digits p.is_end
      ∙ ap some (sym p.value)
