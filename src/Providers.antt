-- ===== src/Providers.antt =====
-- nameko/extensions.py: ProviderCollector, and nameko/messaging.py: the providers and consumers of
-- QueueConsumer. A provider is a number; `unregister_provider` of the queue consumer is the part up
-- to its wait, and the base class's method is what it runs when it wakes.
pub mod Collected
pub mod Thread
pub mod Cancelled
use nameko_zh_cn.Base.{
  ℕ, Bool, true, false, Option, none, some, ◌>>=◌, List, [], ◌∷◌, ◌++◌, contains, add, discard,
  nat_eq, if◌then◌else◌,
}
use nameko_zh_cn.Eventlet.{EventApi}

unfoldable pub is_empty : List ℕ → Bool
is_empty [] = true
is_empty (p ∷ ps) = false

module _ (api : EventApi (Unit {0})) where
  open api use {Event, new, ready, send}

  pub record ProviderCollector : Type 0 where
    pub providers : List ℕ
    pub providers_registered : Bool
    pub last_provider_unregistered : Event

  abbrev pub new_collector : ProviderCollector
  new_collector = record {
    providers = [];
    providers_registered = false;
    last_provider_unregistered = new;
  }

  unfoldable pub register_provider : ℕ → ProviderCollector → ProviderCollector
  register_provider p c = record c { providers = add p c.providers; providers_registered = true }

  -- self._last_provider_unregistered.send(); `none` is the AssertionError of a second send.
  unfoldable pub send_last : ProviderCollector → Option ProviderCollector
  send_last c = elim (send c.last_provider_unregistered tt) [
    | none ↦ none
    | some e ↦ some (record c { last_provider_unregistered = e })
  ]

  -- ProviderCollector.unregister_provider
  unfoldable pub unregister_provider : ℕ → ProviderCollector → Option ProviderCollector
  unfolding send_last is_empty
  unregister_provider p c =
      let c' = record c { providers = discard p c.providers } in
      let sent = send_last c' in
      if contains p c.providers then (if is_empty c'.providers then sent else some c') else some c

  -- Whether `wait_for_providers` returns, or waits on.
  unfoldable pub wait_for_providers : ProviderCollector → Bool
  wait_for_providers c = if c.providers_registered then ready c.last_provider_unregistered else true

  unfoldable pub unregister_all : List ℕ → ProviderCollector → Option ProviderCollector
  unregister_all [] c = some c
  unregister_all (p ∷ ps) c = unregister_provider p c >>= unregister_all ps

  pub record QueueConsumer : Type 0 where
    pub collector : ProviderCollector
    pub consumers : List ℕ
    pub pending_remove_providers : List ℕ
    pub consumers_ready : Bool
    pub should_stop : Bool

  -- QueueConsumer.unregister_provider, up to `removed_event.wait()`.
  unfoldable pub request_unregister : ℕ → QueueConsumer → Option QueueConsumer
  unfolding send_last
  request_unregister p q =
      if q.consumers_ready
      then some (record q { pending_remove_providers = add p q.pending_remove_providers })
      else (do c ← send_last q.collector; some (record q { collector = c }))

  -- self._consumers.pop(provider), for each; `none` is a KeyError.
  unfoldable pub cancel_all : List ℕ → List ℕ → Option (List ℕ)
  cancel_all [] consumers = some consumers
  cancel_all (p ∷ ps) consumers =
      let rest = cancel_all ps (discard p consumers) in if contains p consumers then rest else none

  unfoldable pub cancel_consumers_if_requested : QueueConsumer → Option QueueConsumer
  unfolding cancel_all
  cancel_consumers_if_requested q = do
    left ← cancel_all q.pending_remove_providers q.consumers
    some (record q { consumers = left; pending_remove_providers = [] })

  -- if len(self._consumers) == 0: self.should_stop = True
  stop_if_idle : QueueConsumer → QueueConsumer
  unfolding is_empty
  stop_if_idle q = if is_empty q.consumers then record q { should_stop = true } else q

  unfoldable pub on_iteration : QueueConsumer → Option QueueConsumer
  unfolding cancel_consumers_if_requested stop_if_idle
  on_iteration q = do q' ← cancel_consumers_if_requested q; some (stop_if_idle q')

  -- self._consumers[provider] = consumer, for each provider
  unfoldable pub add_all : List ℕ → List ℕ → List ℕ
  add_all [] consumers = consumers
  add_all (p ∷ ps) consumers = add_all ps (add p consumers)

  unfoldable pub get_consumers : QueueConsumer → QueueConsumer
  unfolding add_all
  get_consumers q = record q { consumers = add_all q.collector.providers q.consumers }

  -- QueueConsumer.kill, up to its wait; `alive` is that the thread was started and is not dead.
  unfoldable pub kill : (alive : Bool) → QueueConsumer → QueueConsumer
  kill alive q =
      if alive
      then record q {
        collector = record q.collector { providers = [] };
        pending_remove_providers = [];
        should_stop = true;
      }
      else q
