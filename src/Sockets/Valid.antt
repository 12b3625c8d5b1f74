-- ===== src/Sockets/Valid.antt =====
-- A client whose calls wait for events of their own, and a new call at it.
use nameko_zh_cn.Base.{
  ℕ, suc, ◌<◌, Str, none, some, Dict, get, put, remove, str_keys, str_eq, str_eq_iff, eqb, eqb_iff,
  if◌then◌else◌, ◌≡◌, ◌≢◌, refl, sym, ◌∙◌, arith, get-put, get-remove, Bool-cases, inl, inr, ◌⊎◌,
}
use nameko_zh_cn.Sockets.{Client, rpc}

-- Each handler is of an event that nothing was sent to, and of no other id.
pub record IsValid (c : Client) : Type 0 where
  pub unsent : (j : Str) (e : ℕ) → get j c.result_handlers ≡ some e → c.sent e ≡ none
  pub known : (j : Str) (e : ℕ) → get j c.result_handlers ≡ some e → e < c.next_event
  pub apart :
      (i j : Str) (e : ℕ)
      → get i c.result_handlers ≡ some e
      → get j c.result_handlers ≡ some e
      → i ≡ j

pub get-put_cases :
    (k j : Str) (v w : ℕ) (d : Dict Str ℕ)
    → get j (put k v d) ≡ some w
    → ((k ≡ j) × (v ≡ w)) ⊎ (get j d ≡ some w)
get-put_cases k j v w d h = elim (Bool-cases (str_eq k j)) [
  | inl e ↦ inl ((str_eq_iff k j).0 e, ground (arith, get-put k j v d))
  | inr e ↦ inr (ground (arith, get-put k j v d))
]

pub get-remove-some :
    (k j : Str) (w : ℕ) (d : Dict Str ℕ)
    → get j (remove k d) ≡ some w
    → (k ≢ j) × (get j d ≡ some w)
get-remove-some k j w d h = elim (Bool-cases (str_eq k j)) [
  | inl e ↦ absurd (ground (arith, get-remove k j d))
  | inr e ↦ (λ p. ground (arith, str_eq_iff k j), ground (arith, get-remove k j d))
]

pub get-put_self : (k : Str) (v : ℕ) (d : Dict Str ℕ) → get k (put k v d) ≡ some v
get-put_self k v d = ground (arith, get-put k k v d, str_eq_iff k k)

pub get-remove_other : (k j : Str) (d : Dict Str ℕ) → k ≢ j → get j (remove k d) ≡ get j d
get-remove_other k j d n = ground (arith, get-remove k j d, str_eq_iff k j)

pub rpc-IsValid : (id : Str) (c : Client) → IsValid c → IsValid (rpc id c).1
unfolding rpc
rpc-IsValid id c v = record { unsent = unsent; known = known; apart = apart }
  where
    unsent :
        (j : Str) (e : ℕ)
        → get j (put id c.next_event c.result_handlers) ≡ some e
        → (if eqb c.next_event e then none else c.sent e) ≡ none
    unsent j e h = elim (get-put_cases id j c.next_event e c.result_handlers h) [
      | inl p ↦ rw ((eqb_iff c.next_event e).1 p.1) refl
      | inr p ↦ ground (arith, v.unsent j e p)
    ]

    known :
        (j : Str) (e : ℕ)
        → get j (put id c.next_event c.result_handlers) ≡ some e
        → e < suc c.next_event
    known j e h = elim (get-put_cases id j c.next_event e c.result_handlers h) [
      | inl p ↦ omega (arith, p.1)
      | inr p ↦ omega (arith, v.known j e p)
    ]

    apart :
        (i j : Str) (e : ℕ)
        → get i (put id c.next_event c.result_handlers) ≡ some e
        → get j (put id c.next_event c.result_handlers) ≡ some e
        → i ≡ j
    apart i j e h k = elim (get-put_cases id i c.next_event e c.result_handlers h) [
      | inl p ↦ elim (get-put_cases id j c.next_event e c.result_handlers k) [
        | inl q ↦ sym p.0 ∙ q.0
        | inr q ↦ absurd (omega (arith, p.1, v.known j e q))
      ]
      | inr p ↦ elim (get-put_cases id j c.next_event e c.result_handlers k) [
        | inl q ↦ absurd (omega (arith, q.1, v.known i e p))
        | inr q ↦ v.apart i j e p q
      ]
    ]
