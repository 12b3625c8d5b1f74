-- ===== src/Rpc/Server/Answers.antt =====
-- nameko/rpc.py, Responder.send_response and RpcConsumer.handle_result: the reply to a request whose
-- worker has ended.
use nameko_zh_cn.Base.{
  Str, ◌≡◌, refl, true, Option, none, some, List, [], ◌∷◌, Option-cases, inl, inr, ◌∙◌, sym,
}
use nameko_zh_cn.Values.{Value}
use nameko_zh_cn.Exceptions.{Exc, unserializable_value, ErrorData, serialize, safe_args}
use nameko_zh_cn.Rpc.Effects.{Payload, Reply, Effect, published, acked, ok}
use nameko_zh_cn.Rpc.Server.{Message, Env, handle_result, error_of}

-- A reply to the message can be sent, whatever it holds.
pub record IsSendable (env : Env) (m : Message) (serializer reply_to : Str) : Type 0 where
  pub content_type : Str
  pub has_type : m.content_type ≡ some content_type
  pub known : env.type_to_name content_type ≡ some serializer
  pub has_reply_to : m.reply_to ≡ some reply_to
  pub publishes : (r : Reply) → env.publish r ≡ none
  pub alive : env.connected m.ident ≡ true

module _ (env : Env) where
  -- What `serialize` makes of the outcome's exception, None included.
  abbrev pub ErrorOf : Option Exc → Option ErrorData → Type 0
  ErrorOf none d = d ≡ none
  ErrorOf (some e) d = serialize env.text_type env.exc_text e ≡ d × (d' : ErrorData) × (d ≡ some d')

  abbrev pub not_serializable : Option Value → Exc
  not_serializable result = record { exc_type = unserializable_value; args = []; about = result }

  -- What is sent and handed on when the check of the result gives `failure`.
  abbrev pub ExpectedReply :
      Option Exc → Option Value → Option Exc → Option ErrorData → Payload → Option Exc → Type 0
  ExpectedReply none result exc_info error p handed =
      (p ≡ record { result = result; error = error }) × (handed ≡ exc_info)
  ExpectedReply (some failure) result exc_info error p handed =
      (p.result ≡ none)
      × (p.error ≡ serialize env.text_type env.exc_text (not_serializable result))
      × (handed ≡ some failure)

  abbrev pub reply_of : Message → Str → Str → Payload → Reply
  reply_of m serializer reply_to p = record {
    payload = p;
    serializer = serializer;
    routing_key = reply_to;
    correlation_id = m.correlation_id;
  }

  not_serializable_data :
      (result : Option Value)
      → (d : ErrorData) × (serialize env.text_type env.exc_text (not_serializable result) ≡ some d)
  unfolding serialize safe_args
  not_serializable_data result = (_, refl)

  error_of_lem :
      (exc_info : Option Exc) (error : Option ErrorData) (log : List Effect)
      → ErrorOf exc_info error
      → error_of env exc_info log ≡ (ok error, log)
  unfolding error_of
  error_of_lem none error log h = rw h
  error_of_lem (some e) error log (s, d, h) = rw (s ∙ h, h)

  -- A worker's result or exception, once the worker has ended, for a request with a reply address and
  -- a known content type, on a connection that lives and with replies that can be published, and for an
  -- exception that can be serialized: exactly one reply goes to where the
  -- request says, under its correlation id, and then the request is acknowledged. The reply has the
  -- result and the error; but if the result cannot be encoded it has no result and the error of an
  -- UnserializableValueError, and the exception of the encoder is handed on.
  pub handle_result_replies_once :
      (m : Message) (serializer reply_to : Str) (result : Option Value) (exc_info : Option Exc)
      (error : Option ErrorData)
      → IsSendable env m serializer reply_to
      → ErrorOf exc_info error
      → (p : Payload) × (handed : Option Exc) × (handle_result env m result exc_info [] ≡ (
        ok (p.result, handed),
        published (reply_of m serializer reply_to p) ∷ acked m.ident ∷ [],
      ))
        × ExpectedReply (env.dumps result serializer) result exc_info error p handed
  unfolding handle_result
  handle_result_replies_once m serializer reply_to result exc_info error a h =
      elim (Option-cases (env.dumps result serializer)) [
        | inl e ↦ (
          record { result = result; error = error },
          exc_info,
          rw (error_of_lem exc_info error [] h)
              (rw (a.has_type, a.known, e, a.has_reply_to, a.publishes _, a.alive)),
          rw e (refl, refl),
        )
        | inr (x, e) ↦
            let (d, s) = not_serializable_data result in
            (
              record { result = none; error = some d },
              some x,
              rw (error_of_lem exc_info error [] h)
                  (rw (a.has_type, a.known, e, s, a.has_reply_to, a.publishes _, a.alive)),
              rw e (refl, sym s, refl),
            )
      ]
