-- ===== src/Providers/Collected.antt =====
-- nameko/extensions.py, ProviderCollector: when the wait for the providers ends.
use nameko_zh_cn.Base.{
  ℕ, ◌≡◌, refl, sym, ap, ◌∙◌, true, false, not, ◌&&◌, some, is_some, List, [], ◌∷◌, contains,
  discard, nat_eq, Bool-cases, inl, inr, arith, contains-discard, eqb, eqb_iff,
}
use nameko_zh_cn.Eventlet.{EventApi}
use nameko_zh_cn.Providers.{
  is_empty, ProviderCollector, send_last, unregister_provider, wait_for_providers, unregister_all,
}

module _ (api : EventApi (Unit {0})) where
  open api use {Event, ready, send, send_once, ready-eq-outcome, outcome}

  -- Some provider was registered, and the event was sent to exactly if none is left.
  pub record IsCollecting (c : ProviderCollector api) : Type 0 where
    pub registered : c.providers_registered ≡ true
    pub last : ready c.last_provider_unregistered ≡ is_empty c.providers

  nonempty : (p : ℕ) (ps : List ℕ) → contains p ps ≡ true → is_empty ps ≡ false
  unfolding contains is_empty
  nonempty p [] h = cc
  nonempty p (q ∷ ps) h = refl

  -- What one `unregister_provider` makes.
  pub unregister_step :
      (p : ℕ) (c : ProviderCollector api)
      → IsCollecting c
      → (c' : ProviderCollector api) × (unregister_provider api p c ≡ some c')
        × IsCollecting c'
        × ((q : ℕ) → contains q c'.providers ≡ (not (eqb p q) && contains q c.providers))
  unfolding unregister_provider send_last is_empty
  unregister_step p c v = elim (Bool-cases (contains p c.providers)) [
    | inr absent ↦ (c, simp absent refl, v, λ q. ground (arith, eqb_iff p q))
    | inl present ↦ elim (Bool-cases (is_empty (discard p c.providers))) [
      | inr more ↦ (
        record c { providers = discard p c.providers },
        simp (present, more) refl,
        record {
          registered = v.registered;
          last = v.last ∙ nonempty p c.providers present ∙ sym more;
        },
        λ q. contains-discard q p c.providers,
      )
      | inl done ↦
          let (e, sent, out) =
            send_once c.last_provider_unregistered tt (v.last ∙ nonempty p c.providers present) in
          (
            record c { providers = discard p c.providers; last_provider_unregistered = e },
            rw present (rw done (rw (sent, send_last) refl)),
            record {
              registered = v.registered;
              last = ready-eq-outcome e ∙ ap is_some out ∙ sym done;
            },
            λ q. contains-discard q p c.providers,
          )
    ]
  ]

  -- Once some provider is registered, unregistering any providers, known or not, repeated or not, in
  -- any order, raises nothing: just these are gone, and the wait for the providers ends exactly when
  -- none is left.
  pub unregister_all_lem :
      (ps : List ℕ) (c : ProviderCollector api)
      → IsCollecting c
      → (c' : ProviderCollector api) × (unregister_all api ps c ≡ some c')
        × (wait_for_providers api c' ≡ is_empty c'.providers)
        × ((q : ℕ) → contains q c'.providers ≡ (not (contains q ps) && contains q c.providers))
  unfolding unregister_all wait_for_providers contains
  unregister_all_lem [] c v = (c, refl, simp (v.registered, v.last) refl, λ q. refl)
  unregister_all_lem (p ∷ ps) c v =
      let (d, step, v', left) = unregister_step p c v in
      let (c', rest, waits, all) = unregister_all_lem ps d v' in
      (c', rw step rest, waits, λ q. all q ∙ ground (arith, left q))
