-- ===== src/Examples/Messages.antt =====
-- The theorem of Events.Dispatch and the theorem of Amqp at one publisher and one event.
use nameko_zh_cn.Base.{
  Str, codes, ◌≡◌, refl, true, false, none, some, ◌↔◌, [], ◌∷◌, Dict, get, str_keys, str_eq,
  has_key,
}
use nameko_zh_cn.Values.{str}
use nameko_zh_cn.Headers.{Datum, other, get_message_headers}
use nameko_zh_cn.Amqp.{
  Exchange, exchange_entity, text, Attributes, no_keywords, Call, defaults, new_publisher, sending,
}
use nameko_zh_cn.Amqp.Headers.{or_else, sending_precedence}
use nameko_zh_cn.Rpc.Proxy.{ProxyOptions}
use nameko_zh_cn.Publish.{CompatAttrs, Provider, new_provider}
use nameko_zh_cn.Events.{singleton, EventHandler, Config, get_event_exchange, setup}
use nameko_zh_cn.Events.Queues.{queue_of}
use nameko_zh_cn.Events.Dispatch.{
  Reaches, dispatcher_setup, dispatch, standalone_publisher, standalone_dispatch, event_arrives,
}

abbrev pub language : Str → Dict Str Datum
language s = (codes "language", other (str s)) ∷ []

abbrev config : Config
config = record { auto_delete_event_exchanges = true; declare_event_exchanges = some false }

-- publish(..., headers={...}, extra_headers={...}, declare=[...], retry=None, routing_key="spam")
abbrev one_call : Call
one_call = record {
  options = record no_keywords { retry = some none };
  declare = exchange_entity (get_event_exchange (codes "eggs") config) ∷ [];
  headers = language (codes "fr");
  extra_headers = language (codes "zh");
  rest = (codes "routing_key", text (codes "spam")) ∷ [];
}

abbrev confirms_off : Attributes
confirms_off = record defaults { use_confirms = some false }

sending_precedence_example :
    let s = sending one_call (new_publisher confirms_off (some []) (language (codes "en")) []) in
    ((k : Str)
      → get k s.headers
        ≡ or_else
            (get k (language (codes "zh")))
            (or_else (get k (language (codes "fr"))) (get k (language (codes "en")))))
    × ((k : Str) → get k s.rest ≡ or_else (get k one_call.rest) none)
    × (s.options.use_confirms ≡ some false)
    × (s.options.delivery_mode ≡ some 2)
    × (s.options.mandatory ≡ some false)
    × (s.options.priority ≡ some 0)
    × (s.options.expiration ≡ none)
    × (s.options.serializer ≡ some (codes "json"))
    × (s.options.compression ≡ none)
    × (s.options.retry ≡ none)
    × (s.options.retry_policy ≡ some 0)
    × (s.declare ≡ one_call.declare)
unfolding has_key get
sending_precedence_example =
    sending_precedence confirms_off [] (language (codes "en")) [] one_call (refl, tt) (refl, tt)
      (refl, tt)

abbrev handler : EventHandler
handler = record {
  source_service = codes "orders";
  event_type = codes "paid";
  handler_type = singleton;
  reliable_delivery = true;
  service_name = codes "mailer";
  method_name = codes "on_paid";
  own_identifier = none;
}

abbrev dispatcher : Provider
dispatcher =
    new_provider (record { retry = none; retry_policy = none; use_confirms = some (some false) })
      none none none no_keywords [] []

event_arrives_example :
    let exchange = (dispatcher_setup config (codes "orders") none dispatcher).0 in
    let publisher = (dispatcher_setup config (codes "orders") none dispatcher).1.1 in
    let s = sending (dispatch exchange (language (codes "zh")) (codes "paid")) publisher in
    let standalone = standalone_publisher none none defaults none [] [] in
    let q = queue_of config handler (codes "evt-orders-paid") in
    (Reaches str_eq s q
      ↔ ((codes "orders" ≡ handler.source_service) × (str_eq (codes "paid") (codes "paid") ≡ true)))
    × (Reaches str_eq
          (sending (standalone_dispatch config (codes "orders") (codes "paid")) standalone)
          q
        ↔ ((codes "orders" ≡ handler.source_service)
            × (str_eq (codes "paid") (codes "paid") ≡ true)))
    × ((k : Str)
        → get k s.headers
          ≡ or_else
              (get k (get_message_headers (language (codes "zh"))))
              (get k dispatcher.headers))
unfolding setup
event_arrives_example =
    event_arrives str_eq config config (codes "orders") (codes "paid") (codes "7") handler
      (queue_of config handler (codes "evt-orders-paid")) none dispatcher (language (codes "zh"))
      defaults none [] [] refl

abbrev pub rpc_exchange : Exchange
rpc_exchange = record { name = codes "nameko-rpc"; auto_delete = false; no_declare = false }

abbrev pub no_attrs : CompatAttrs
no_attrs = record { retry = none; retry_policy = none; use_confirms = none }

-- RpcProxy("math", use_confirms=False, mandatory=False)
abbrev pub options : ProxyOptions
options = record {
  options = record no_keywords { use_confirms = some (some false); mandatory = some (some false) };
  headers = language (codes "en");
  rest = [];
}
