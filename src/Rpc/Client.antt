-- ===== src/Rpc/Client.antt =====
-- nameko/rpc.py: ReplyListener and RpcReply, and the call of MethodProxy. A reply event is an
-- object that the listener's dict and the RpcReply share: a reference into `events`.
pub mod Listeners
pub mod Replies
use nameko_zh_cn.Base.{
  ℕ, suc, Str, Bool, true, false, Option, none, some, List, [], ◌∷◌, ◌++◌, Dict, get, put, remove,
  str_keys, eqb, if◌then◌else◌, is_some, ◌||◌,
}
use nameko_zh_cn.Values.{Value, str}
use nameko_zh_cn.Exceptions.{
  Exc, ExcType, unknown_service, ErrorData, Registry, Deserialized, deserialize,
}
use nameko_zh_cn.Eventlet.{EventApi}
use nameko_zh_cn.Rpc.Effects.{Payload, ReplyBody}

module _ (api : EventApi ReplyBody) where
  open api use {Event, new, ready, send, outcome}

  -- `next_event` is the reference of the next object.
  pub record Listener : Type 0 where
    pub reply_events : Dict Str ℕ
    pub events : ℕ → Event
    pub next_event : ℕ
    pub acked : List ℕ

  unfoldable pub update : (ℕ → Event) → ℕ → Event → ℕ → Event
  update events r e i = if eqb r i then e else events i

  -- ReplyListener.get_reply_event
  unfoldable pub get_reply_event : Str → Listener → ℕ × Listener
  unfolding update
  get_reply_event correlation_id l = (
    l.next_event,
    record l {
      reply_events = put correlation_id l.next_event l.reply_events;
      events = update l.events l.next_event new;
      next_event = suc l.next_event;
    },
  )

  -- A reply as it arrives: the message, its correlation id if it has one, its body.
  pub record Arrival : Type 0 where
    pub ident : ℕ
    pub correlation_id : Option Str
    pub body : ReplyBody

  -- self._reply_events.pop(correlation_id, None): None is no key
  client_event : Option Str → Dict Str ℕ → Option ℕ
  client_event none d = none
  client_event (some c) d = get c d

  without_event : Option Str → Dict Str ℕ → Dict Str ℕ
  without_event none d = d
  without_event (some c) d = remove c d

  -- `none` is the AssertionError of an event that was sent to before.
  send_to : Option ℕ → ReplyBody → Listener → Option Listener
  unfolding update
  send_to none body l = some l
  send_to (some r) body l = elim (send (l.events r) body) [
    | none ↦ none
    | some e ↦ some (record l { events = update l.events r e })
  ]

  -- ReplyListener.handle_message
  unfoldable pub handle_message : Arrival → Listener → Option Listener
  unfolding client_event without_event send_to
  handle_message a l = send_to (client_event a.correlation_id l.reply_events) a.body (record l {
    reply_events = without_event a.correlation_id l.reply_events;
    acked = l.acked ++ a.ident ∷ [];
  })

-- `if error:` is false for a dict with no key.
unfoldable pub has_key_left : ErrorData → Bool
has_key_left d =
    is_some d.exc_type || (is_some d.exc_path || (is_some d.exc_args || is_some d.value))

-- How RpcReply.result ends: it blocks, returns, raises, raises from an exception's class, or raises
-- the ValueError for a reply without a body.
pub data Ending : Type 0 where
  blocked : Ending
  returned : Option Value → Ending
  raised : Deserialized → Ending
  raised_by_class : Ending
  value_error : Ending

module _ (construct : ExcType → List Value → Option Exc) (registry : Registry) where
  raised_from : Option Deserialized → Ending
  raised_from none = raised_by_class
  raised_from (some e) = raised e

  -- RpcReply.result, from what its event gives
  unfoldable pub result : Option ReplyBody → Ending
  unfolding raised_from has_key_left
  result none = blocked
  result (some none) = value_error
  result (some (some body)) = elim body.error [
    | none ↦ returned body.result
    | some error ↦
        let exc = raised_from (deserialize construct registry error) in
        if has_key_left error then exc else returned body.result
  ]
