-- ===== src/Events/Dispatch.antt =====
-- nameko/events.py and nameko/standalone/events.py: EventDispatcher and event_dispatcher, and the
-- queues that their events reach. How a topic matches a routing key is a parameter: the broker's.
use nameko_zh_cn.Base.{
  Str, codes, ◌≡◌, refl, sym, ap, ◌∙◌, Bool, true, Option, none, some, ◌↔◌, List, [], ◌∷◌, ◌++◌,
  Dict, get, str_keys, str_eq, has_key, contains,
}
use mathlib.Core.Option.{some-injective}
use nameko_zh_cn.Headers.{Datum, get_message_headers}
use nameko_zh_cn.Amqp.{
  Exchange, Entity, exchange_entity, Argument, entity, text, Attributes, no_keywords, Rest,
  Publisher, Call, Sending, sending, pop, new_publisher, update,
}
use nameko_zh_cn.Amqp.Headers.{get-update, or_else, worker_headers}
use nameko_zh_cn.Publish.{Provider, worker_call}
use nameko_zh_cn.Publish
use nameko_zh_cn.Events.{Config, get_event_exchange, EventHandler, Queue, setup, queue_name}
use nameko_zh_cn.Events.Queues.{last_separator, mapped, queue_of}

-- EventDispatcher.setup: `self.exchange`, the declared entities, and `self.publisher`
unfoldable pub dispatcher_setup :
    Config → Str → Option Str → Provider → Exchange × (List Entity × Publisher)
dispatcher_setup config service_name serializer p =
    let exchange = get_event_exchange service_name config in
    (
      exchange,
      Publish.setup serializer (record p {
        exchange = some exchange;
        declare = p.declare ++ exchange_entity exchange ∷ [];
      }),
    )

event_rest : Exchange → Str → Rest
event_rest exchange event_type =
    (codes "exchange", entity (exchange_entity exchange))
    ∷ (codes "routing_key", text event_type)
    ∷ []

event_call : Exchange → Str → Call
unfolding event_rest
event_call exchange event_type = record {
  options = no_keywords;
  declare = [];
  headers = [];
  extra_headers = [];
  rest = event_rest exchange event_type;
}

-- EventDispatcher: the function that `get_dependency` returns for a worker
unfoldable pub dispatch : Exchange → Dict Str Datum → Str → Call
unfolding event_call worker_call
dispatch exchange context_data event_type =
    worker_call context_data (event_call exchange event_type)

-- event_dispatcher of nameko/standalone/events.py: its publisher, from the keywords it is given
unfoldable pub standalone_publisher :
    Option Str
    → Option (Option Str)
    → Attributes
    → Option (List Entity)
    → Dict Str Datum
    → Rest
    → Publisher
unfolding pop
standalone_publisher config_serializer serializer o declare headers rest =
    new_publisher (record o { serializer = pop serializer config_serializer }) declare headers rest

-- event_dispatcher of nameko/standalone/events.py: the function that it returns
unfoldable pub standalone_dispatch : Config → Str → Str → Call
unfolding event_call
standalone_dispatch config service_name event_type =
    event_call (get_event_exchange service_name config) event_type

-- A message is put into a queue that is bound to the exchange that it is sent to, when the queue's
-- topic matches the routing key.
abbrev pub Reaches : (Str → Str → Bool) → Sending → Queue → Type 0
Reaches matches s q =
    (e : Exchange) × (k : Str) × (get (codes "exchange") s.rest ≡ some (entity (exchange_entity e)))
    × (get (codes "routing_key") s.rest ≡ some (text k))
    × (e.name ≡ q.exchange.name)
    × (matches q.routing_key k ≡ true)

name_injective :
    (c c' : Config) (s s' : Str)
    → (get_event_exchange s c).name ≡ (get_event_exchange s' c').name
    → s ≡ s'
unfolding get_event_exchange contains
name_injective c c' s s' e =
    (last_separator b'.' s s' (codes "events") (codes "events") refl refl e).0

sent_exchange :
    (e : Exchange) (t : Str) (rest : Rest)
    → get (codes "exchange") (update rest (event_rest e t)) ≡ some (entity (exchange_entity e))
unfolding event_rest has_key get str_eq
sent_exchange e t rest = get-update (codes "exchange") (event_rest e t) rest (refl, (refl, tt))

sent_key :
    (e : Exchange) (t : Str) (rest : Rest)
    → get (codes "routing_key") (update rest (event_rest e t)) ≡ some (text t)
unfolding event_rest has_key get str_eq
sent_key e t rest = get-update (codes "routing_key") (event_rest e t) rest (refl, (refl, tt))

entity_of : Option Argument → Option Exchange
entity_of (some (entity (exchange_entity e))) = some e
entity_of _ = none

argument_text : Option Argument → Option Str
argument_text (some (text k)) = some k
argument_text _ = none

sent_iff :
    (matches : Str → Str → Bool) (config config' : Config) (service t u : Str) (h : EventHandler)
    (q : Queue) (s : Sending) (rest : Rest)
    → s.rest ≡ update rest (event_rest (get_event_exchange service config) t)
    → setup config' u h ≡ some q
    → Reaches matches s q ↔ ((service ≡ h.source_service) × (matches h.event_type t ≡ true))
unfolding setup entity_of argument_text
sent_iff matches config config' service t u h q s rest e ready =
    let exchange = get_event_exchange service config in
    let (n, known, same) = mapped (queue_name u h) (queue_of config' h) ready in
    let at = λ (name : Str). ap (get name) e in
    let sent = at (codes "exchange") ∙ sent_exchange exchange t rest in
    let keyed = at (codes "routing_key") ∙ sent_key exchange t rest in
    let bound = ap (λ x. x.exchange.name) same in
    let topic = ap (λ x. x.routing_key) same in
    (
      λ (x, k, has, key, name, topical).
          let x≡ = some-injective _ _ (ap entity_of (sym has ∙ sent)) in
          let k≡ = some-injective _ _ (ap argument_text (sym key ∙ keyed)) in
          (
            name_injective config config' service h.source_service
                (ap (λ y. y.name) (sym x≡) ∙ name ∙ sym bound),
            ap (λ y. matches y t) topic ∙ ap (matches q.routing_key) (sym k≡) ∙ topical,
          ),
      λ (service≡, topical). (
        exchange,
        t,
        sent,
        keyed,
        ap (λ y. (get_event_exchange y config).name) service≡ ∙ bound,
        ap (λ y. matches y t) (sym topic) ∙ topical,
      ),
    )

-- An event that a service's EventDispatcher sends, and one that event_dispatcher sends in its name,
-- each reach the queue that a handler has set up exactly when the handler's source is that service
-- and its topic matches the event's type, whatever the two configurations are, once the
-- exchange and the queue have been declared; and the first carries the headers of the worker's
-- context, before those of the dispatcher's own options.
pub event_arrives :
    (matches : Str → Str → Bool) (config config' : Config) (service t u : Str) (h : EventHandler)
    (q : Queue) (serializer : Option Str) (p : Provider) (context_data : Dict Str Datum)
    (o : Attributes) (declare : Option (List Entity)) (headers : Dict Str Datum) (rest : Rest)
    → setup config' u h ≡ some q
    → let exchange = (dispatcher_setup config service serializer p).0 in
      let publisher = (dispatcher_setup config service serializer p).1.1 in
      let s = sending (dispatch exchange context_data t) publisher in
      let standalone = standalone_publisher serializer none o declare headers rest in
      (Reaches matches s q ↔ ((service ≡ h.source_service) × (matches h.event_type t ≡ true)))
      × (Reaches matches (sending (standalone_dispatch config service t) standalone) q
          ↔ ((service ≡ h.source_service) × (matches h.event_type t ≡ true)))
      × ((k : Str)
          → get k s.headers ≡ or_else (get k (get_message_headers context_data)) (get k p.headers))
unfolding dispatcher_setup dispatch standalone_publisher standalone_dispatch sending event_call
    worker_call Publish.setup new_publisher
event_arrives matches config config' service t u h q serializer p context_data o declare headers
      rest ready =
    let exchange = (dispatcher_setup config service serializer p).0 in
    let publisher = (dispatcher_setup config service serializer p).1.1 in
    let standalone = standalone_publisher serializer none o declare headers rest in
    (
      sent_iff matches config config' service t u h q
          (sending (dispatch exchange context_data t) publisher) _ refl ready,
      sent_iff matches config config' service t u h q
          (sending (standalone_dispatch config service t) standalone) _ refl ready,
      worker_headers context_data p.headers,
    )
