-- ===== src/Websocket.antt =====
-- nameko/web/websocket.py: the sockets of WebSocketServer, and WebSocketHub with its provider's
-- `cleanup_websocket`. The uuid of a new socket is an argument.
pub mod Channels
pub mod Linked
pub mod Broadcasts
pub mod Requests
pub mod Rpc
use nameko_zh_cn.Base.{
  Str, Bool, true, false, Option, none, some, ◌>>=◌, is_some, List, [], ◌∷◌, Dict, get, put, remove,
  str_keys, add, discard, if◌then◌else◌,
}
use nameko_zh_cn.Headers.{Datum}

abbrev pub ContextData : Type 0
ContextData = Dict Str Datum

-- WebSocketServer.sockets, each with its context data.
abbrev pub Sockets : Type 0
Sockets = Dict Str ContextData

pub record Connection : Type 0 where
  pub context_data : ContextData
  pub subscriptions : List Str

pub record Hub : Type 0 where
  pub connections : Dict Str Connection
  pub subscriptions : Dict Str (List Str)

abbrev pub new_hub : Hub
new_hub = record { connections = []; subscriptions = [] }

-- WebSocketHub._get_connection with create=True; `none` is ConnectionNotFound.
unfoldable pub get_connection : Sockets → Str → Hub → Option (Connection × Hub)
get_connection sockets socket_id h = elim (get socket_id h.connections) [
  | some con ↦ some (con, h)
  | none ↦ elim (get socket_id sockets) [
    | none ↦ none
    | some data_ ↦
        let con : Connection = record { context_data = data_; subscriptions = [] } in
        some (con, record h { connections = put socket_id con h.connections })
  ]
]

or_empty : Option (List Str) → List Str
or_empty none = []
or_empty (some s) = s

-- self.subscriptions.setdefault(channel, set()).add(socket_id)
unfoldable pub add_listener : Str → Str → Dict Str (List Str) → Dict Str (List Str)
unfolding or_empty
add_listener channel socket_id d = put channel (add socket_id (or_empty (get channel d))) d

unfoldable pub subscribe : Sockets → Str → Str → Hub → Option Hub
unfolding get_connection add_listener
subscribe sockets socket_id channel h = do
  (con, h') ← get_connection sockets socket_id h
  some (record {
    connections =
        put socket_id (record con { subscriptions = add channel con.subscriptions }) h'.connections;
    subscriptions = add_listener channel socket_id h'.subscriptions;
  })

-- subs.discard(socket_id), if the channel has a set
unfoldable pub drop_listener : Str → Str → Dict Str (List Str) → Dict Str (List Str)
drop_listener channel socket_id d = elim (get channel d) [
  | none ↦ d
  | some subs ↦ put channel (discard socket_id subs) d
]

-- con.subscriptions.discard(channel), if there is a connection
unfoldable pub leave : Str → Str → Dict Str Connection → Dict Str Connection
leave socket_id channel d = elim (get socket_id d) [
  | none ↦ d
  | some con ↦ put socket_id (record con { subscriptions = discard channel con.subscriptions }) d
]

unfoldable pub unsubscribe : Str → Str → Hub → Hub
unfolding leave drop_listener
unsubscribe socket_id channel h = record {
  connections = leave socket_id channel h.connections;
  subscriptions = drop_listener channel socket_id h.subscriptions;
}

-- for channel in con.subscriptions: ...
unfoldable pub drop_all : List Str → Str → Dict Str (List Str) → Dict Str (List Str)
unfolding drop_listener
drop_all [] socket_id d = d
drop_all (channel ∷ channels) socket_id d =
    drop_all channels socket_id (drop_listener channel socket_id d)

-- WebSocketHubProvider.cleanup_websocket
unfoldable pub cleanup_websocket : Str → Hub → Hub
unfolding drop_all
cleanup_websocket socket_id h = elim (get socket_id h.connections) [
  | none ↦ h
  | some con ↦ record {
    connections = remove socket_id h.connections;
    subscriptions = drop_all con.subscriptions socket_id h.subscriptions;
  }
]

-- The sockets of a channel that still are in the server: each is sent the event.
unfoldable pub live_only : Sockets → List Str → List Str
live_only sockets [] = []
live_only sockets (s ∷ ss) =
    let rest = live_only sockets ss in if is_some (get s sockets) then s ∷ rest else rest

unfoldable pub broadcast : Sockets → Str → Hub → List Str
unfolding live_only or_empty
broadcast sockets channel h = live_only sockets (or_empty (get channel h.subscriptions))

-- The Boolean that `unicast` returns: whether the event is sent.
unfoldable pub unicast : Sockets → Str → Bool
unicast sockets socket_id = is_some (get socket_id sockets)

-- The names of the channels, before they are sorted.
unfoldable pub get_subscriptions : Str → Hub → List Str
get_subscriptions socket_id h = elim (get socket_id h.connections) [
  | none ↦ []
  | some con ↦ con.subscriptions
]

-- WebSocketServer with one hub.
pub record Server : Type 0 where
  pub sockets : Sockets
  pub hub : Hub

pub data Action : Type 0 where
  add_websocket : Str → ContextData → Action
  remove_socket : Str → Action
  subscribing unsubscribing : Str → Str → Action

subscribed : Option Hub → Server → Server
subscribed none s = s
subscribed (some h) s = record s { hub = h }

unfoldable pub step : Action → Server → Server
unfolding subscribe unsubscribe cleanup_websocket subscribed
step (add_websocket socket_id data_) s = record s { sockets = put socket_id data_ s.sockets }
step (remove_socket socket_id) s = record {
  sockets = remove socket_id s.sockets;
  hub = cleanup_websocket socket_id s.hub;
}
step (subscribing socket_id channel) s = subscribed (subscribe s.sockets socket_id channel s.hub) s
step (unsubscribing socket_id channel) s = record s { hub = unsubscribe socket_id channel s.hub }

unfoldable pub run : List Action → Server → Server
unfolding step
run [] s = s
run (a ∷ as_) s = run as_ (step a s)
