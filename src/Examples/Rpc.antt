-- ===== src/Examples/Rpc.antt =====
-- Runs of the model of nameko/rpc.py.
use nameko_zh_cn.Base.{
  codes, ◌≡◌, refl, true, false, Option, none, some, List, [], ◌∷◌, get, put, str_eq, str_keys,
}
use nameko_zh_cn.Values.{Value, str}
use nameko_zh_cn.Exceptions.{Exc, imported, instance_of}
use nameko_zh_cn.Eventlet.{EventApi, slot}
use nameko_zh_cn.Rpc.Effects.{Payload, ReplyBody, published, acked, ok}
use nameko_zh_cn.Rpc.Server.{Env, Message, Body, handle_message, handle_result}
use nameko_zh_cn.Rpc.Server.Dispatch.{
  IsAnswerable, ServiceSerializes, Settled, handle_message_settles,
}
use nameko_zh_cn.Rpc.Server.Answers.{
  IsSendable, ExpectedReply, reply_of, handle_result_replies_once,
}
use nameko_zh_cn.Rpc.Client.{Listener, Arrival, get_reply_event, result, raised}
use nameko_zh_cn.Rpc.Client.Listeners.{IsValid, get_reply_event-IsValid}
use nameko_zh_cn.Rpc.Client.Replies.{deliver, first_reply, replies_reach_their_calls}
use nameko_zh_cn.Rpc.Crossing.{exception_crosses}
use nameko_zh_cn.Examples.Exceptions.{
  text_type, exc_text, construct, no_such_method, method_not_found-registered, spam_plain,
}

abbrev pub env : Env
env = record {
  text_type = text_type;
  exc_text = exc_text;
  type_to_name = λ t. some (codes "json");
  dumps = λ v s. none;
  publish = λ r. none;
  getcallargs = λ m a k. none;
  service_cls = none;
  being_killed = false;
  connected = λ i. true;
}

abbrev pub request : Message
request = record {
  ident = 5;
  routing_key = codes "math.spam";
  headers = [];
  content_type = some (codes "application/json");
  reply_to = some (codes "q");
  correlation_id = some (codes "c1");
}

abbrev body : Body
body = record { args = some []; kwargs = some [] }

request-IsAnswerable : IsAnswerable env request (codes "json") (codes "q")
request-IsAnswerable = record {
  content_type = codes "application/json";
  has_type = refl;
  known = refl;
  encodes_none = refl;
  has_reply_to = refl;
  publishes = λ r. refl;
  alive = refl;
}

pub request-IsSendable : IsSendable env request (codes "json") (codes "q")
request-IsSendable = record {
  content_type = codes "application/json";
  has_type = refl;
  known = refl;
  has_reply_to = refl;
  publishes = λ r. refl;
  alive = refl;
}

env-ServiceSerializes : ServiceSerializes env
env-ServiceSerializes = λ e h. absurd (cc h)

handle_message_settles_example :
    ((handle_message env (codes "math") (codes "add" ∷ []) body request []).0 ≡ ok tt)
    × Settled env request
        (codes "json")
        (codes "q")
        (handle_message env (codes "math") (codes "add" ∷ []) body request []).1
handle_message_settles_example =
    handle_message_settles env (codes "math") (codes "add" ∷ []) body request (codes "json")
      (codes "q") request-IsAnswerable env-ServiceSerializes

abbrev pub four : Option Value
four = some (str (codes "4"))

handle_result_replies_once_example :
    (p : Payload) × (handed : Option Exc) × (handle_result env request four none [] ≡ (
      ok (p.result, handed),
      published (reply_of env request (codes "json") (codes "q") p) ∷ acked 5 ∷ [],
    ))
    × ExpectedReply env none four none none p handed
handle_result_replies_once_example =
    handle_result_replies_once env request (codes "json") (codes "q") four none none
      request-IsSendable refl

exception_crosses_example :
    (p : Payload) × (handle_result env request none (some no_such_method) [] ≡ (
      ok (none, some no_such_method),
      published (reply_of env request (codes "json") (codes "q") p) ∷ acked 5 ∷ [],
    ))
    × (result construct imported (some (some p)) ≡ raised (instance_of no_such_method))
exception_crosses_example =
    exception_crosses env (λ p. p) request (codes "json") (codes "q") construct imported
      no_such_method request-IsSendable refl method_not_found-registered refl (spam_plain, tt)
      (λ e d h s. refl)

abbrev pub events : EventApi ReplyBody
events = slot ReplyBody

pub empty : Listener events
unfolding slot
empty = record { reply_events = []; events = λ i. none; next_event = 0; acked = [] }

empty-IsValid : IsValid events empty
unfolding empty slot get
empty-IsValid = record { waits = λ c r h. absurd (cc h); apart = λ c d r h h'. absurd (cc h) }

-- Two calls wait, and the replies come in the other order.
abbrev pub waiting : Listener events
waiting = (get_reply_event events (codes "c2") (get_reply_event events (codes "c1") empty).1).1

pub waiting-IsValid : IsValid events waiting
waiting-IsValid =
    (get_reply_event-IsValid events (codes "c2") (get_reply_event events (codes "c1") empty).1
      (get_reply_event-IsValid events (codes "c1") empty empty-IsValid).0).0

abbrev pub answer : ReplyBody
answer = some (record { result = four; error = none })

abbrev pub arrivals : List (Arrival events)
arrivals =
    record { ident = 1; correlation_id = some (codes "c2"); body = none }
    ∷ record { ident = 2; correlation_id = some (codes "c1"); body = answer }
    ∷ []

waiting-c1 : get (codes "c1") waiting.reply_events ≡ some 0
unfolding get put get_reply_event empty str_eq
waiting-c1 = refl

replies_reach_their_calls_example :
    (l' : Listener events) × (deliver events arrivals waiting ≡ some l')
    × (events.outcome (l'.events 0) ≡ first_reply events (codes "c1") arrivals)
replies_reach_their_calls_example =
    replies_reach_their_calls events arrivals waiting (codes "c1") 0 waiting-IsValid waiting-c1
