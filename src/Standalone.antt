-- ===== src/Standalone.antt =====
-- nameko/standalone/rpc.py: ConsumeEvent, PollingQueueConsumer, SingleThreadedReplyListener and
-- ClusterProxy. What the connection delivers to each call of `drain_events`, and how it fails, is a
-- list; a ConsumeEvent is a reference into `events`, as the listener's dict and the call share it.
pub mod Polled
pub mod Steps
pub mod Waits
pub mod Crossing
use nameko_zh_cn.Base.{
  ℕ, suc, Str, ◌≡◌, Bool, true, false, Option, none, some, List, [], ◌∷◌, ◌++◌, Dict, get, put,
  remove, Key, str_keys, str_eq, str_eq_iff, ◌↔◌, eqb, if◌then◌else◌, arith, has_key,
}
use nameko_zh_cn.Exceptions.{Exc}
use nameko_zh_cn.Rpc.Effects.{Payload}

-- What a client is raised: its timeout, Ctrl-C, a socket's error, another error of the broker's
-- client, the two RuntimeErrors of `wait`, a KeyError, and the AttributeError of a missing body.
pub data Error : Type 0 where
  rpc_timeout keyboard_interrupt stopped disconnected no_body : Error
  key_error : Str → Error
  socket_error : Exc → Error
  other_error : Exc → Error

-- What a call of the connection raises: socket.timeout, IOError or amqp's ConnectionError,
-- KeyboardInterrupt, or any other exception.
pub data Trouble : Type 0 where
  timeout disconnect interrupt : Trouble
  other : Exc → Trouble

-- `setup` is what `_setup_consumer` raises when it is called next; none when it succeeds.
pub record Failure : Type 0 where
  pub trouble : Trouble
  pub setup : Option Error

-- A reply, with how its `ack` fails; none when it succeeds.
pub record Arrival : Type 0 where
  pub ident : ℕ
  pub correlation_id : Option Str
  pub body : Payload
  pub acking : Option Failure

-- One call of `drain_events`.
pub data Drained : Type 0 where
  delivered : List Arrival → Drained
  failed : Failure → Drained

unfoldable pub id_eq : Option Str → Option Str → Bool
id_eq none none = true
id_eq (some c) (some d) = str_eq c d
id_eq _ _ = false

pub id_eq_iff : (c d : Option Str) → (id_eq c d ≡ true) ↔ (c ≡ d)
unfolding id_eq
id_eq_iff none none = ground arith
id_eq_iff none (some d) = ground arith
id_eq_iff (some c) none = ground arith
id_eq_iff (some c) (some d) = ground (arith, str_eq_iff c d)

-- Correlation ids, None among them.
instance abbrev pub id_keys : Key (Option Str)
id_keys = record { same = id_eq; same_iff = id_eq_iff }

pub record ConsumeEvent : Type 0 where
  pub body : Option Payload
  pub exception : Option Error

abbrev pub new_event : ConsumeEvent
new_event = record { body = none; exception = none }

-- The listener and its queue consumer; `consumers` counts the consumers that were set up.
pub record Client : Type 0 where
  pub reply_events : Dict Str ℕ
  pub events : ℕ → ConsumeEvent
  pub next_event : ℕ
  pub replies : Dict (Option Str) Arrival
  pub acked : List ℕ
  pub stopped : Bool
  pub consumers : ℕ

abbrev pub new_client : Client
new_client = record {
  reply_events = [];
  events = λ i. new_event;
  next_event = 0;
  replies = [];
  acked = [];
  stopped = true;
  consumers = 0;
}

-- PollingQueueConsumer._setup_consumer, when it succeeds
unfoldable pub setup_consumer : Client → Client
setup_consumer p = record p { consumers = suc p.consumers }

unfoldable pub register_provider : Client → Client
unfolding setup_consumer
register_provider p = record (setup_consumer p) { stopped = false }

unfoldable pub unregister_provider : Client → Client
unregister_provider p = record p { stopped = true }

unfoldable pub set_event : ℕ → ConsumeEvent → Client → Client
set_event r e p = record p { events = λ i. if eqb r i then e else p.events i }

-- ConsumeEvent.send and send_exception
unfoldable pub send : ℕ → Payload → Client → Client
unfolding set_event
send r body p = set_event r (record (p.events r) { body = some body }) p

unfoldable pub send_exception : ℕ → Error → Client → Client
unfolding set_event
send_exception r e p = set_event r (record (p.events r) { exception = some e }) p

-- SingleThreadedReplyListener.get_reply_event
unfoldable pub get_reply_event : Str → Client → ℕ × Client
unfolding set_event
get_reply_event correlation_id p = (
  p.next_event,
  set_event p.next_event new_event (record p {
    reply_events = put correlation_id p.next_event p.reply_events;
    next_event = suc p.next_event;
  }),
)

unfoldable pub on_message : Arrival → Client → Client
on_message a p = record p { replies = put a.correlation_id a p.replies }

unfoldable pub on_messages : List Arrival → Client → Client
unfolding on_message
on_messages [] p = p
on_messages (a ∷ arrivals) p = on_messages arrivals (on_message a p)

-- Where `get_message` is: still in its loop, returned, or raised.
pub data Step : Type 0 where
  go_on : Client → Step
  done : Client → Step
  raised : Error → Client → Step

-- self._setup_consumer() at the end of an `except` clause
set_up : Option Error → Client → Step
unfolding setup_consumer
set_up none p = done (setup_consumer p)
set_up (some e) p = raised e p

reconnect : Option Error → Client → Step
unfolding setup_consumer
reconnect none p = go_on (setup_consumer p)
reconnect (some e) p = raised e p

-- event = self.provider._reply_events.pop(correlation_id); event.send_exception(...)
give_up : Str → Error → Option Error → Client → Step
unfolding send_exception set_up
give_up c e setup p = elim (get c p.reply_events) [
  | none ↦ raised (key_error c) p
  | some r ↦ set_up setup (send_exception r e (record p { reply_events = remove c p.reply_events }))
]

-- The `except` clauses of PollingQueueConsumer.get_message
trouble_step : Str → Trouble → Option Error → Client → Step
unfolding give_up reconnect
trouble_step c timeout setup p = give_up c rpc_timeout setup p
trouble_step c disconnect setup p = reconnect setup p
trouble_step c interrupt setup p = give_up c keyboard_interrupt setup p
trouble_step c (other e) setup p = raised (other_error e) p

-- ReplyListener.handle_message, once the message is acknowledged
settle : Option Str → Payload → Client → Client
unfolding send
settle none body p = p
settle (some c) body p = elim (get c p.reply_events) [
  | none ↦ p
  | some r ↦ send r body (record p { reply_events = remove c p.reply_events })
]

handle : Str → Arrival → Client → Step
unfolding settle trouble_step
handle c a p = elim a.acking [
  | some f ↦ trouble_step c f.trouble f.setup p
  | none ↦ done (settle a.correlation_id a.body (record p { acked = p.acked ++ a.ident ∷ [] }))
]

-- `while correlation_id not in self.replies`, and the reply once it is there
unfoldable pub take : Str → Client → Step
unfolding handle
take c p = elim (get (some c) p.replies) [
  | none ↦ go_on p
  | some a ↦ handle c a (record p { replies = remove (some c) p.replies })
]

unfoldable pub drain : Str → Drained → Client → Step
unfolding on_messages trouble_step
drain c (delivered arrivals) p = go_on (on_messages arrivals p)
drain c (failed f) p = trouble_step c f.trouble f.setup p

-- PollingQueueConsumer.get_message, with what is left of the deliveries
unfoldable pub get_message : Str → List Drained → Client → Step × List Drained
unfolding take drain
get_message c [] p = (take c p, [])
get_message c (d ∷ ds) p = elim (take c p) [
  | done p' ↦ (done p', d ∷ ds)
  | raised e p' ↦ (raised e p', d ∷ ds)
  | go_on p' ↦ elim (drain c d p') [
    | done p'' ↦ (done p'', ds)
    | raised e p'' ↦ (raised e p'', ds)
    | go_on p'' ↦ get_message c ds p''
  ]
]

-- How `wait` ends; `pending` is that it still blocks.
pub data Outcome : Type 0 where
  pending : Outcome
  returned : Payload → Outcome
  threw : Error → Outcome

event_outcome : ConsumeEvent → Outcome
event_outcome e = elim e.exception [
  | some x ↦ threw x
  | none ↦ elim e.body [ some body ↦ returned body | none ↦ threw no_body ]
]

-- `except socket.error`, and the end of `wait`
unfoldable pub conclude : ℕ → Step → Outcome × Client
unfolding event_outcome send_exception
conclude r (go_on p) = (pending, p)
conclude r (done p) = (event_outcome (p.events r), p)
conclude r (raised (socket_error e) p) =
    (threw (socket_error e), send_exception r (socket_error e) p)
conclude r (raised e p) = (threw e, p)

unfoldable pub ended : ℕ → Step × List Drained → (Outcome × Client) × List Drained
unfolding conclude
ended r (step, rest) = (conclude r step, rest)

-- ConsumeEvent.wait; `connected` is what the connection says.
unfoldable pub wait : ℕ → Str → Bool → List Drained → Client → (Outcome × Client) × List Drained
unfolding get_message ended
wait r c connected ds p = elim (p.events r).exception [
  | some e ↦ ((threw e, p), ds)
  | none ↦
      if p.stopped
      then ((threw stopped, p), ds)
      else if connected
      then ended r (get_message c ds p)
      else ((threw disconnected, p), ds)
]

-- ClusterProxy: the ServiceProxy objects by name, each a reference.
pub record Cluster : Type 0 where
  pub proxies : Dict Str ℕ
  pub next_proxy : ℕ

unfoldable pub get_proxy : Str → Cluster → ℕ × Cluster
get_proxy name cluster = elim (get name cluster.proxies) [
  | some proxy ↦ (proxy, cluster)
  | none ↦ (
    cluster.next_proxy,
    record {
      proxies = put name cluster.next_proxy cluster.proxies;
      next_proxy = suc cluster.next_proxy;
    },
  )
]
