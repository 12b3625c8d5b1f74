-- ===== src/Providers/Cancelled.antt =====
-- nameko/messaging.py, QueueConsumer: what one iteration does with the consumers.
use nameko_zh_cn.Base.{
  ℕ, ◌≡◌, refl, is_some, sym, ap, ◌∙◌, Bool, true, false, not, ◌&&◌, ◌||◌, none, some, ◌>>=◌, List,
  [], ◌∷◌, contains, discard, nat_eq, Bool-cases, inl, inr, arith, contains-discard, eqb_iff,
}
use nameko_zh_cn.Eventlet.{EventApi}
use nameko_zh_cn.Providers.{
  is_empty, QueueConsumer, cancel_all, cancel_consumers_if_requested, stop_if_idle, on_iteration,
  request_unregister, send_last,
}

-- The providers to remove are all there, and none is there twice.
unfoldable pub removable : List ℕ → List ℕ → Bool
unfolding contains
removable [] consumers = true
removable (p ∷ ps) consumers =
    not (contains p ps) && (contains p consumers && removable ps consumers)

removable-discard :
    (p : ℕ) (ps consumers : List ℕ)
    → contains p ps ≡ false
    → removable ps consumers ≡ true
    → removable ps (discard p consumers) ≡ true
unfolding removable contains
removable-discard p [] consumers n r = refl
removable-discard p (q ∷ ps) consumers n r = ground (
  arith,
  removable-discard p ps consumers,
  contains-discard q p consumers,
  eqb_iff p q,
  eqb_iff q p,
)

module _ (api : EventApi (Unit {0})) where
  cancel_all_lem :
      (ps consumers : List ℕ)
      → removable ps consumers ≡ true
      → (left : List ℕ) × (cancel_all api ps consumers ≡ some left)
        × ((q : ℕ) → contains q left ≡ (not (contains q ps) && contains q consumers))
  unfolding cancel_all removable contains
  cancel_all_lem [] consumers r = (consumers, refl, λ q. refl)
  cancel_all_lem (p ∷ ps) consumers r = elim (Bool-cases (contains p consumers)) [
    | inr absent ↦ absurd (ground arith)
    | inl present ↦ elim (Bool-cases (contains p ps)) [
      | inl twice ↦ absurd (ground arith)
      | inr once ↦
          let (left, run, all) =
            cancel_all_lem ps (discard p consumers)
              (removable-discard p ps consumers once (ground arith)) in
          (left, rw present run, λ q. all q ∙ ground (arith, contains-discard q p consumers))
    ]
  ]

  stopping :
      (q : QueueConsumer api)
      → (stop_if_idle api q).should_stop ≡ (is_empty q.consumers || q.should_stop)
  unfolding stop_if_idle
  stopping q = ground arith

  same_consumers :
      (q : QueueConsumer api)
      → ((stop_if_idle api q).consumers ≡ q.consumers)
        × ((stop_if_idle api q).pending_remove_providers ≡ q.pending_remove_providers)
  unfolding stop_if_idle
  same_consumers q = (ground arith, ground arith)

  -- An iteration cancels just the consumers of the providers that are to be removed, each once, and
  -- none is pending after it; it asks the loop to stop exactly when no consumer is left. The
  -- providers to be removed all have a consumer.
  pub on_iteration_lem :
      (q : QueueConsumer api)
      → removable q.pending_remove_providers q.consumers ≡ true
      → (q' : QueueConsumer api) × (on_iteration api q ≡ some q')
        × ((p : ℕ)
            → contains p q'.consumers
              ≡ (not (contains p q.pending_remove_providers) && contains p q.consumers))
        × (q'.pending_remove_providers ≡ [])
        × (q'.should_stop ≡ (is_empty q'.consumers || q.should_stop))
  unfolding on_iteration cancel_consumers_if_requested
  on_iteration_lem q r =
      let (left, run, all) = cancel_all_lem q.pending_remove_providers q.consumers r in
      let after = record q { consumers = left; pending_remove_providers = [] } in
      let (consumers, pending) = same_consumers after in
      (
        stop_if_idle api after,
        simp run refl,
        λ p. ap (contains p) consumers ∙ all p,
        pending,
        stopping after ∙ ap (λ c. is_empty c || q.should_stop) (sym consumers),
      )

  open api use {ready, send, send_again, send_once, ready-eq-outcome}

  early_request :
      (p : ℕ) (q : QueueConsumer api)
      → q.consumers_ready ≡ false
      → request_unregister api p q
        ≡ (send_last api q.collector >>= λ c. some (record q { collector = c }))
  unfolding request_unregister
  early_request p q early = simp early refl

  -- Before the consumers are ready, the first provider that unregisters ends the wait for all of
  -- them, and the second one's `unregister_provider` raises an AssertionError.
  pub early_unregister_fails :
      (p p' : ℕ) (q : QueueConsumer api)
      → q.consumers_ready ≡ false
      → ready q.collector.last_provider_unregistered ≡ false
      → (q' : QueueConsumer api) × (request_unregister api p q ≡ some q')
        × (ready q'.collector.last_provider_unregistered ≡ true)
        × (request_unregister api p' q' ≡ none)
  unfolding send_last
  early_unregister_fails p p' q early idle =
      let (e, sent, out) = send_once q.collector.last_provider_unregistered tt idle in
      let c' = record q.collector { last_provider_unregistered = e } in
      let q' = record q { collector = c' } in
      let is_sent = ready-eq-outcome e ∙ ap is_some out in
      (
        q',
        early_request p q early ∙ rw (sent, send_last) refl,
        is_sent,
        early_request p' q' early ∙ rw (send_again e tt is_sent, send_last) refl,
      )
