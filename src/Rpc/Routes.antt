-- ===== src/Rpc/Routes.antt =====
-- nameko/rpc.py: where a request and its reply go. How a topic of the broker matches a routing key is
-- a parameter.
use nameko_zh_cn.Base.{
  Str, codes, ◌≡◌, refl, Bool, true, false, Option, none, some, List, [], ◌∷◌, ◌++◌, Dict, get,
  str_keys, contains, nat_eq,
}
use nameko_zh_cn.Headers.{Datum}
use nameko_zh_cn.Eventlet.{EventApi}
use nameko_zh_cn.Amqp.{Exchange, exchange_entity, entity, text, Sending, sending, produced}
use nameko_zh_cn.Publish.{CompatAttrs}
use nameko_zh_cn.Rpc.Effects.{Effect, ok}
use nameko_zh_cn.Rpc.Server.{Env, get_provider_for_method}
use nameko_zh_cn.Rpc.Call.{request}
use nameko_zh_cn.Rpc.Call.Answered.{request_finds_method}
use nameko_zh_cn.Rpc.Consumer.{RpcQueue, RpcConsumer, get_rpc_exchange, setup}
use nameko_zh_cn.Rpc.Proxy.{ProxyOptions, new_method_proxy, method_call, calls_are_mandatory}

-- ReplyListener.setup: the queue of the replies, from the uuid that is its routing key
unfoldable pub reply_queue : Option Str → Str → Str → RpcQueue
reply_queue config service_name uuid = record {
  name = codes "rpc.reply-" ++ (service_name ++ b'-' ∷ uuid);
  exchange = get_rpc_exchange config;
  routing_key = uuid;
}

-- A message with this routing key is put into a queue that is bound to its exchange with a topic that
-- matches the key.
abbrev pub RoutedTo : (Str → Str → Bool) → Sending → Str → RpcQueue → Type 0
RoutedTo matches s key q =
    (e : Exchange) × (get (codes "exchange") s.rest ≡ some (entity (exchange_entity e)))
    × (get (codes "routing_key") s.rest ≡ some (text key))
    × (e.name ≡ q.exchange)
    × (matches q.routing_key key ≡ true)

-- The call of a method whose name has no dot reaches the queue that the RpcConsumer of the service
-- sets up with the same configuration, and there the routing key that it was published with leads to
-- that method, if the service has it; its reply address is the routing key of the caller's reply queue, which is bound to the
-- same exchange. A topic that ends with a star in place of one word matches a routing key with any
-- word there.
pub request_is_routed :
    (matches : Str → Str → Bool)
    → ((prefix word : Str)
        → contains b'.' word ≡ false
        → matches (prefix ++ codes ".*") (prefix ++ b'.' ∷ word) ≡ true)
    → (api : EventApi (Unit {0})) (env : Env) (config : Option Str) (attrs : CompatAttrs)
      (serializer : Option Str) (o : ProxyOptions) (exchange : Exchange)
      (caller service method uuid correlation_id : Str) (context_data : Dict Str Datum)
      (methods : List Str) (log : List Effect) (consumer : RpcConsumer api)
    → exchange.name ≡ get_rpc_exchange config
    → consumer.queue ≡ none
    → contains b'.' method ≡ false
    → contains method methods ≡ true
    → let m = new_method_proxy attrs serializer service method o in
      let s = sending (method_call exchange uuid correlation_id context_data m) m.publisher in
      let replies = reply_queue config caller uuid in
      (q : RpcQueue) × (key : Str) × ((setup api config service consumer).queue ≡ some q)
      × RoutedTo matches s key q
      × (get_provider_for_method env service key methods log ≡ (ok method, log))
      × (get (codes "reply_to") s.rest ≡ some (text replies.routing_key))
      × (replies.exchange ≡ q.exchange)
unfolding setup reply_queue request
request_is_routed matches star api env config attrs serializer o exchange caller service method uuid
      correlation_id context_data methods log consumer named fresh word has =
    let (mandatory, confirms, serialized, (to, key, back, id), headers, unroutable) =
      calls_are_mandatory attrs serializer service method o exchange uuid correlation_id
        context_data (λ s. produced) in
    let q : RpcQueue = record {
      name = codes "rpc-" ++ service;
      exchange = get_rpc_exchange config;
      routing_key = service ++ codes ".*";
    } in
    (
      q,
      service ++ b'.' ∷ method,
      rw (fresh, setup) refl,
      (exchange, to, key, named, star service method word),
      request_finds_method env service method uuid correlation_id [] [] context_data methods log
          has,
      back,
      refl,
    )
