-- ===== src/Events.antt =====
-- nameko/events.py and nameko/standalone/events.py: the exchange of events, and EventHandler, whose setup declares the queue that it consumes. The uuid of the
-- default `broadcast_identifier` is an argument; a subclass's own identifier is part of the handler.
pub mod Queues
pub mod Dispatch
use nameko_zh_cn.Base.{
  Str, codes, Bool, true, false, not, ◌&&◌, Option, none, some, ◌>>=◌, List, [], ◌∷◌, ◌++◌,
  if◌then◌else◌,
}
use nameko_zh_cn.Amqp.{Exchange}

pub data HandlerType : Type 0 where
  service_pool singleton broadcast : HandlerType

pub record EventHandler : Type 0 where
  pub source_service : Str
  pub event_type : Str
  pub handler_type : HandlerType
  pub reliable_delivery : Bool
  -- the container's service name, and the method that `bind` gave
  pub service_name : Str
  pub method_name : Str
  -- what a subclass's `broadcast_identifier` returns; `none` is the default property
  pub own_identifier : Option Str

-- The configuration's AUTO_DELETE_EVENT_EXCHANGES and DECLARE_EVENT_EXCHANGES.
pub record Config : Type 0 where
  pub auto_delete_event_exchanges : Bool
  pub declare_event_exchanges : Option Bool

-- config.get("DECLARE_EVENT_EXCHANGES") is False
is_false : Option Bool → Bool
is_false (some false) = true
is_false _ = false

-- get_event_exchange of nameko/standalone/events.py
unfoldable pub get_event_exchange : Str → Config → Exchange
unfolding is_false
get_event_exchange service_name config = record {
  name = service_name ++ codes ".events";
  auto_delete = config.auto_delete_event_exchanges;
  no_declare = is_false config.declare_event_exchanges;
}

pub record Queue : Type 0 where
  pub name : Str
  pub exchange : Exchange
  pub routing_key : Str
  pub durable : Bool
  pub auto_delete : Bool
  pub exclusive : Bool

-- The default property of a BROADCAST handler; `none` is EventHandlerConfigurationError.
unfoldable pub default_identifier : Str → Bool → Option Str
default_identifier uuid true = none
default_identifier uuid false = some uuid

unfoldable pub broadcast_identifier : Str → EventHandler → Option Str
unfolding default_identifier
broadcast_identifier uuid h = elim h.own_identifier [
  | some s ↦ some s
  | none ↦ default_identifier uuid h.reliable_delivery
]

-- "evt-{}-{}".format(...)
unfoldable pub event_name : EventHandler → Str
event_name h = codes "evt-" ++ (h.source_service ++ b'-' ∷ h.event_type)

-- "{}--{}.{}".format(...)
unfoldable pub method_queue : Str → Str → Str → Str
method_queue event service method = event ++ b'-' ∷ b'-' ∷ (service ++ b'.' ∷ method)

name_of : HandlerType → Str → EventHandler → Option Str
unfolding broadcast_identifier event_name method_queue
name_of service_pool uuid h = some (method_queue (event_name h) h.service_name h.method_name)
name_of singleton uuid h = some (event_name h)
name_of broadcast uuid h = do
  identifier ← broadcast_identifier uuid h
  some (method_queue (event_name h) h.service_name h.method_name ++ b'-' ∷ identifier)

unfoldable pub queue_name : Str → EventHandler → Option Str
unfolding name_of
queue_name uuid h = name_of h.handler_type uuid h

unfoldable pub is_broadcast : HandlerType → Bool
is_broadcast broadcast = true
is_broadcast _ = false

-- The queue that EventHandler.setup declares.
unfoldable pub setup : Config → Str → EventHandler → Option Queue
unfolding queue_name is_broadcast get_event_exchange
setup config uuid h = do
  name ← queue_name uuid h
  some (record {
    name = name;
    exchange = get_event_exchange h.source_service config;
    routing_key = h.event_type;
    durable = true;
    auto_delete = not h.reliable_delivery;
    exclusive = if h.reliable_delivery then false else is_broadcast h.handler_type;
  })
