-- ===== src/Sockets.antt =====
-- nameko/testing/websocket.py: make_virtual_socket. A message is what json.loads makes of it; the uuid
-- of a call is an argument; an event is a number, and `sent` says what was sent to it. The opening of
-- the connection is websocket-client's.
pub mod Valid
pub mod Received
pub mod Answered
pub mod Crossing
use nameko_zh_cn.Base.{
  ℕ, suc, Str, Bool, true, false, Option, none, some, List, [], ◌∷◌, ◌++◌, Dict, get, put, remove,
  str_keys, eqb, ◌>>=◌, if◌then◌else◌,
}
use nameko_zh_cn.Values.{Value, str}
use nameko_zh_cn.Exceptions.{Exc, ExcType, ErrorData, Registry, deserialize}
use nameko_zh_cn.Rpc.Client.{Ending, blocked, returned, raised, raised_by_class}
use nameko_zh_cn.Websocket.Requests.{Response}

-- By its 'type': another type is left alone.
pub data Message : Type 0 where
  event : (event_type : Str) → Value → Message
  result : Response → Message
  other_type : Message

-- The frame of a call.
pub record Frame : Type 0 where
  pub method : Str
  pub data_ : Value
  pub correlation_id : Str

pub record Client : Type 0 where
  pub result_handlers : Dict Str ℕ
  pub sent : ℕ → Option Response
  pub next_event : ℕ
  pub event_queues : Dict Str (List (Str × Value))

abbrev pub new_client : Client
new_client = record { result_handlers = []; sent = λ e. none; next_event = 0; event_queues = [] }

-- self._event_queues[event_type], of a defaultdict
unfoldable pub get_event_queue : Str → Client → List (Str × Value)
get_event_queue event_type c = elim (get event_type c.event_queues) [ none ↦ [] | some q ↦ q ]

abbrev pub update : (ℕ → Option Response) → ℕ → Response → ℕ → Option Response
update sent e r i = if eqb e i then some r else sent i

-- event.send; none is the AssertionError of an event that was sent to.
unfoldable pub send : ℕ → Response → Client → Option Client
send e r c = elim (c.sent e) [
  | some r' ↦ none
  | none ↦ some (record c { sent = update c.sent e r })
]

-- The key under which result_handlers are looked up: ids are texts, and no other value is one.
abbrev pub result_id : Response → Option Str
result_id r = elim (r.correlation_id) [ some (str s) ↦ some s | _ ↦ none ]

abbrev pub send_to : Option ℕ → Response → Client → Option Client
send_to none r c = some c
send_to (some e) r c = send e r c

-- result_handlers.pop(result_id, None), and the handler's call
unfoldable pub take_result : Option Str → Response → Client → Option Client
unfolding send
take_result none r c = some c
take_result (some id) r c =
    send_to (get id c.result_handlers) r
      (record c { result_handlers = remove id c.result_handlers })

unfoldable pub on_message : Message → Client → Option Client
unfolding take_result get_event_queue
on_message (event event_type v) c = some (record c {
  event_queues =
      put event_type (get_event_queue event_type c ++ (event_type, v) ∷ []) c.event_queues;
})
on_message (result r) c = take_result (result_id r) r c
on_message other_type c = some c

unfoldable pub on_messages : List Message → Client → Option Client
unfolding on_message
on_messages [] c = some c
on_messages (m ∷ messages) c = on_message m c >>= on_messages messages

-- Socket.rpc up to its wait: the event that it waits for, and the client then.
unfoldable pub rpc : Str → Client → ℕ × Client
rpc id c = (
  c.next_event,
  record c {
    result_handlers = put id c.next_event c.result_handlers;
    sent = λ i. if eqb c.next_event i then none else c.sent i;
    next_event = suc c.next_event;
  },
)

module _ (construct : ExcType → List Value → Option Exc) (registry : Registry) where
  -- How Socket.rpc ends, from what its event gives.
  unfoldable pub rpc_ending : Option Response → Ending
  rpc_ending none = blocked
  rpc_ending (some r) =
      if r.success then returned r.data_ else elim (r.error >>= deserialize construct registry) [
        | none ↦ raised_by_class
        | some e ↦ raised e
      ]
