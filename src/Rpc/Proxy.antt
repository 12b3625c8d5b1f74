-- ===== src/Rpc/Proxy.antt =====
-- nameko/rpc.py: RpcProxy, ServiceProxy and MethodProxy, as far as they choose what a call is
-- published with, through Publisher of nameko/amqp/publish.py. The constructor's options are keywords
-- of the publisher.
use nameko_zh_cn.Base.{
  Str, codes, ◌≡◌, refl, true, Option, none, some, [], ◌∷◌, ◌++◌, Dict, get, str_keys, str_eq,
  has_key, Distinct,
}
use nameko_zh_cn.Headers.{Datum, get_message_headers}
use nameko_zh_cn.Amqp.{
  Exchange, exchange_entity, entity, text, Keywords, no_keywords, Rest, Publisher, new_publisher,
  Call, Sending, sending, publish, update, pop, override, Produced, channel_error, undeliverable,
  ended,
}
use nameko_zh_cn.Amqp.Headers.{get-update, or_else, worker_headers}
use nameko_zh_cn.Redact.{substring}
use nameko_zh_cn.Publish.{CompatAttrs, compat, given}

-- What RpcProxy is made with, and hands on through ServiceProxy to each MethodProxy.
pub record ProxyOptions : Type 0 where
  pub options : Keywords
  pub headers : Dict Str Datum
  pub rest : Rest

-- A MethodProxy: the service, the method and its publisher.
pub record MethodProxy : Type 0 where
  pub service_name : Str
  pub method_name : Str
  pub publisher : Publisher

-- config.get(SERIALIZER_CONFIG_KEY, DEFAULT_SERIALIZER)
unfoldable pub default_serializer : Option Str → Str
default_serializer none = codes "json"
default_serializer (some s) = s

-- MethodProxy.__init__
unfoldable pub new_method_proxy : CompatAttrs → Option Str → Str → Str → ProxyOptions → MethodProxy
unfolding compat given pop default_serializer
new_method_proxy attrs serializer service_name method_name o = record {
  service_name = service_name;
  method_name = method_name;
  publisher =
      new_publisher
        (record {
          use_confirms = given (compat attrs.use_confirms o.options.use_confirms);
          delivery_mode = given o.options.delivery_mode;
          mandatory = given o.options.mandatory;
          priority = given o.options.priority;
          expiration = given o.options.expiration;
          serializer = pop o.options.serializer (some (default_serializer serializer));
          compression = given o.options.compression;
          retry = given (compat attrs.retry o.options.retry);
          retry_policy = given (compat attrs.retry_policy o.options.retry_policy);
        })
        none o.headers o.rest;
}

call_rest : Exchange → Str → Str → Str → Rest
call_rest exchange routing_key reply_to correlation_id =
    (codes "exchange", entity (exchange_entity exchange))
    ∷ (codes "routing_key", text routing_key)
    ∷ (codes "reply_to", text reply_to)
    ∷ (codes "correlation_id", text correlation_id)
    ∷ []

-- The publication that MethodProxy._call makes.
unfoldable pub method_call : Exchange → Str → Str → Dict Str Datum → MethodProxy → Call
unfolding call_rest
method_call exchange reply_to correlation_id context_data m = record {
  options = record no_keywords { mandatory = some (some true) };
  declare = [];
  headers = [];
  extra_headers = get_message_headers context_data;
  rest = call_rest exchange (m.service_name ++ b'.' ∷ m.method_name) reply_to correlation_id;
}

override_lem :
    {A : Type 0} (o : Option A) (attribute : Option A) → override o attribute ≡ or_else o attribute
unfolding override
override_lem none attribute = refl
override_lem (some v) attribute = refl

sent_with :
    (exchange : Exchange) (routing_key reply_to correlation_id : Str) (rest : Rest)
    → let sent = update rest (call_rest exchange routing_key reply_to correlation_id) in
      (get (codes "exchange") sent ≡ some (entity (exchange_entity exchange)))
      × (get (codes "routing_key") sent ≡ some (text routing_key))
      × (get (codes "reply_to") sent ≡ some (text reply_to))
      × (get (codes "correlation_id") sent ≡ some (text correlation_id))
unfolding call_rest has_key get str_eq
sent_with exchange routing_key reply_to correlation_id rest =
    let r = call_rest exchange routing_key reply_to correlation_id in
    let apart : Distinct r = (refl, (refl, (refl, (refl, tt)))) in
    (
      get-update (codes "exchange") r rest apart,
      get-update (codes "routing_key") r rest apart,
      get-update (codes "reply_to") r rest apart,
      get-update (codes "correlation_id") r rest apart,
    )

-- Whatever its options are, a call is published as mandatory, to the exchange that is given, with
-- the service and the method in the routing key, and with its own reply address and correlation id;
-- the context's headers come before those of the options. It waits for the broker's confirmation
-- unless the options or a class attribute turn that off, and its serializer is that of the options,
-- else the configured one, or json where both are lacking or the option is None. Where the broker
-- says that there is no route, it is undeliverable.
pub calls_are_mandatory :
    (attrs : CompatAttrs) (serializer : Option Str) (service_name method_name : Str)
    (o : ProxyOptions) (exchange : Exchange) (reply_to correlation_id : Str)
    (context_data : Dict Str Datum) (producer : Sending → Produced)
    → let m = new_method_proxy attrs serializer service_name method_name o in
      let c = method_call exchange reply_to correlation_id context_data m in
      let s = sending c m.publisher in
      (s.options.mandatory ≡ some true)
      × (s.options.use_confirms
          ≡ or_else (given (compat attrs.use_confirms o.options.use_confirms)) (some true))
      × (s.options.serializer
          ≡ or_else
              (pop o.options.serializer (some (default_serializer serializer)))
              (some (codes "json")))
      × ((get (codes "exchange") s.rest ≡ some (entity (exchange_entity exchange)))
          × (get (codes "routing_key") s.rest ≡ some (text (service_name ++ b'.' ∷ method_name)))
          × (get (codes "reply_to") s.rest ≡ some (text reply_to))
          × (get (codes "correlation_id") s.rest ≡ some (text correlation_id)))
      × ((k : Str)
          → get k s.headers ≡ or_else (get k (get_message_headers context_data)) (get k o.headers))
      × ((message : Str)
          → producer s ≡ channel_error message
          → substring (codes "NO_ROUTE") message ≡ true
          → (publish producer c m.publisher).1 ≡ undeliverable)
unfolding new_method_proxy method_call sending new_publisher publish ended pop
calls_are_mandatory attrs serializer service_name method_name o exchange reply_to correlation_id
      context_data producer =
    (
      refl,
      override_lem (given (compat attrs.use_confirms o.options.use_confirms)) (some true),
      override_lem (pop o.options.serializer (some (default_serializer serializer)))
          (some (codes "json")),
      sent_with exchange (service_name ++ b'.' ∷ method_name) reply_to correlation_id o.rest,
      worker_headers context_data o.headers,
      λ message fails no_route. rw (fails, ended) (rw (no_route, ended) refl),
    )
