-- ===== src/Rpc/Call.antt =====
-- nameko/rpc.py: the call of MethodProxy. The uuid that is the correlation id, and how the broker
-- takes the message, are arguments.
pub mod Answered
use nameko_zh_cn.Base.{ℕ, Str, Option, none, some, List, [], ◌∷◌, ◌++◌, Dict, Bool, true}
use nameko_zh_cn.Values.{Value, str}
use nameko_zh_cn.Exceptions.{Exc, unknown_service}
use nameko_zh_cn.Headers.{Datum, get_message_headers}
use nameko_zh_cn.Eventlet.{EventApi}
use nameko_zh_cn.Rpc.Effects.{ReplyBody}
use nameko_zh_cn.Rpc.Server.{exception}
use nameko_zh_cn.Rpc.Client.{Listener, get_reply_event}

pub record Request : Type 0 where
  pub args : List Value
  pub kwargs : Dict Str Value
  pub routing_key : Str
  pub mandatory : Bool
  pub reply_to : Str
  pub correlation_id : Str
  pub extra_headers : Dict Str Datum

-- How `publisher.publish` ends.
pub data Publishing : Type 0 where
  confirmed : Publishing
  undeliverable : Publishing
  failed : Exc → Publishing

-- An RpcReply on the event of a reference, or an exception.
pub data Called : Type 0 where
  reply : ℕ → Called
  raised : Exc → Called

called : Str → ℕ → Publishing → Called
called service_name event confirmed = reply event
called service_name event undeliverable = raised (exception unknown_service (str service_name ∷ []))
called service_name event (failed e) = raised e

unfoldable pub request :
    Str → Str → Str → Str → List Value → Dict Str Value → Dict Str Datum → Request
request service_name method_name reply_to correlation_id args kwargs context_data = record {
  args = args;
  kwargs = kwargs;
  routing_key = service_name ++ b'.' ∷ method_name;
  mandatory = true;
  reply_to = reply_to;
  correlation_id = correlation_id;
  extra_headers = get_message_headers context_data;
}

module _ (api : EventApi ReplyBody) (publish : Request → Publishing) where
  -- MethodProxy._call
  unfoldable pub call :
      Str
      → Str
      → Str
      → Str
      → List Value
      → Dict Str Value
      → Dict Str Datum
      → Listener api
      → Called × Listener api
  unfolding called request
  call service_name method_name reply_to correlation_id args kwargs context_data l =
      let (event, l') = get_reply_event api correlation_id l in
      let msg = request service_name method_name reply_to correlation_id args kwargs context_data in
      (called service_name event (publish msg), l')
