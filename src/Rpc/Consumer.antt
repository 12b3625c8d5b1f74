-- ===== src/Rpc/Consumer.antt =====
-- nameko/rpc.py, RpcConsumer: its queue, and how its providers leave it. A provider's thread gives
-- way where it waits for the queue consumer to cancel the consumer, and where it waits for the event
-- that tells that this is done.
pub mod Leaving
use nameko_zh_cn.Base.{
  ℕ, suc, Str, codes, Bool, true, false, not, ◌&&◌, Option, none, some, ◌>>=◌, List, [], ◌∷◌, ◌++◌,
  contains, add, discard, nat_eq, if◌then◌else◌,
}
use nameko_zh_cn.Eventlet.{EventApi}
use nameko_zh_cn.Providers.{ProviderCollector, new_collector, unregister_provider}

pub record RpcQueue : Type 0 where
  pub name : Str
  pub exchange : Str
  pub routing_key : Str

-- get_rpc_exchange: the name that the configuration has, or the default one
unfoldable pub get_rpc_exchange : Option Str → Str
get_rpc_exchange none = codes "nameko-rpc"
get_rpc_exchange (some name) = name

-- The calls that are made of the queue consumer.
pub data QueueCall : Type 0 where
  register unregister : QueueCall

-- One turn of a thread: a provider asks to leave, the consumer of the queue has been cancelled for
-- it, or it is woken.
pub data Turn : Type 0 where
  asks removed wakes : ℕ → Turn

-- providers - unregistering, is it empty?
unfoldable pub all_in : List ℕ → List ℕ → Bool
all_in [] ps = true
all_in (q ∷ qs) ps = contains q ps && all_in qs ps

module _ (api : EventApi (Unit {0})) where
  open api use {Event, new, ready, send}

  -- `removing` and `waiting` are the providers whose threads wait for the queue consumer and for
  -- the event.
  pub record RpcConsumer : Type 0 where
    pub queue : Option RpcQueue
    pub queue_calls : List QueueCall
    pub collector : ProviderCollector api
    pub unregistering : List ℕ
    pub unregistered : Event
    pub removing : List ℕ
    pub waiting : List ℕ

  abbrev pub new_consumer : RpcConsumer
  new_consumer = record {
    queue = none;
    queue_calls = [];
    collector = new_collector api;
    unregistering = [];
    unregistered = new;
    removing = [];
    waiting = [];
  }

  -- RpcConsumer.setup
  unfoldable pub setup : Option Str → Str → RpcConsumer → RpcConsumer
  unfolding get_rpc_exchange
  setup config service_name s = elim s.queue [
    | some q ↦ s
    | none ↦ record s {
      queue = some (record {
        name = codes "rpc-" ++ service_name;
        exchange = get_rpc_exchange config;
        routing_key = service_name ++ codes ".*";
      });
      queue_calls = s.queue_calls ++ register ∷ [];
    }
  ]

  -- self._unregistered_from_queue_consumer.send(True); `none` is the AssertionError of a second send.
  send_unregistered : RpcConsumer → Option RpcConsumer
  send_unregistered s = elim (send s.unregistered tt) [
    | none ↦ none
    | some e ↦ some (record s { unregistered = e })
  ]

  -- RpcConsumer.stop, once the queue consumer has cancelled the consumer
  unfoldable pub stop : RpcConsumer → Option RpcConsumer
  unfolding send_unregistered
  stop s =
      let s' = record s { queue_calls = s.queue_calls ++ unregister ∷ [] } in
      let sent = send_unregistered s' in if s.collector.providers_registered then some s else sent

  -- RpcConsumer.unregister_provider, up to its first wait
  ask : ℕ → RpcConsumer → RpcConsumer
  unfolding all_in
  ask p s =
      let s' = record s { unregistering = add p s.unregistering } in
      if all_in s.collector.providers s'.unregistering
      then record s' { queue_calls = s.queue_calls ++ unregister ∷ []; removing = p ∷ s.removing }
      else record s' { waiting = p ∷ s.waiting }

  -- The end of RpcConsumer.unregister_provider
  leave : ℕ → RpcConsumer → Option RpcConsumer
  leave p s = do c ← unregister_provider api p s.collector; some (record s { collector = c })

  unfoldable pub step : Turn → RpcConsumer → Option RpcConsumer
  unfolding ask leave send_unregistered
  step (asks p) s = some (ask p s)
  step (removed p) s =
      let left = send_unregistered (record s { removing = discard p s.removing }) >>= leave p in
      if contains p s.removing then left else some s
  step (wakes p) s =
      let left = leave p (record s { waiting = discard p s.waiting }) in
      if contains p s.waiting && ready s.unregistered then left else some s

  unfoldable pub run : List Turn → RpcConsumer → Option RpcConsumer
  unfolding step
  run [] s = some s
  run (t ∷ turns) s = step t s >>= run turns
