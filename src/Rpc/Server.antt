-- ===== src/Rpc/Server.antt =====
-- nameko/rpc.py: RpcConsumer, Rpc and Responder. What kombu, the broker, `inspect` and the service
-- do is the environment.
pub mod Dispatch
pub mod Answers
use nameko_zh_cn.Base.{
  ℕ, Str, codes, Bool, true, false, Option, none, some, List, [], ◌∷◌, ◌++◌, Dict, str_eq, ◌==◌,
  nat_eq, str_keys, if◌then◌else◌,
}
use nameko_zh_cn.Values.{Value, str}
use nameko_zh_cn.Exceptions.{
  Exc, ExcType, malformed_request, method_not_found, incorrect_signature, unserializable_value,
  container_being_killed, ErrorData, serialize, get_module_path,
}
use nameko_zh_cn.Headers.{Datum, unpack_message_headers}
use nameko_zh_cn.Rpc.Effects.{
  Payload, Reply, Spawned, Effect, published, acked, requeued, spawned, Result, ok, raise, M, pure,
  throw, emit, ◌>>=◌, ◌>>◌, try_except, or_raise, or_throw, key_error, type_error,
}

pub record Message : Type 0 where
  pub ident : ℕ
  pub routing_key : Str
  pub headers : Dict Str Datum
  pub content_type : Option Str
  pub reply_to : Option Str
  pub correlation_id : Option Str

-- The body of a request; `none` is a key that is missing.
pub record Body : Type 0 where
  pub args : Option (List Value)
  pub kwargs : Option (Dict Str Value)

pub record Env : Type 0 where
  -- `six.text_type` of an object and of an exception; `none` is a `__str__` that raises
  pub text_type : ℕ → Option Str
  pub exc_text : Exc → Option Str
  -- `kombu.serialization.registry.type_to_name`
  pub type_to_name : Str → Option Str
  -- the exception of `kombu.serialization.dumps(result, serializer)`, if any
  pub dumps : Option Value → Str → Option Exc
  -- the exception of `publisher.publish`, if any
  pub publish : Reply → Option Exc
  -- the text of the TypeError of `inspect.getcallargs` for a method, if any
  pub getcallargs : Str → List Value → Dict Str Value → Option Str
  -- the exception of `service_cls()`, if any
  pub service_cls : Option Exc
  -- `container._being_killed`, and whether the channel of a message has a connection
  pub being_killed : Bool
  pub connected : ℕ → Bool

abbrev pub exception : ExcType → List Value → Exc
exception t args = record { exc_type = t; args = args; about = none }

-- routing_key.split(".")[-1], after the segment that is read so far
unfoldable pub last_segment : Str → Str → Str
last_segment seen [] = seen
last_segment seen (c ∷ s) = last_segment (if c == b'.' then [] else seen ++ c ∷ []) s

module _ (env : Env) where
  -- QueueConsumer.ack_message and requeue_message: a message whose connection is gone is left.
  unfoldable pub ack_message : Message → M (Unit {0})
  ack_message m = if env.connected m.ident then emit (acked m.ident) else pure tt

  unfoldable pub requeue_message : Message → M (Unit {0})
  requeue_message m = if env.connected m.ident then emit (requeued m.ident) else pure tt

  serialize_exception : Exc → M ErrorData
  serialize_exception e = or_raise (serialize env.text_type env.exc_text e) type_error

  -- if exc_info is not None: error = serialize(exc_info[1])
  error_of : Option Exc → M (Option ErrorData)
  unfolding serialize_exception
  error_of none = pure none
  error_of (some e) = do d ← serialize_exception e; pure (some d)

  -- The serialization check of the result: what is sent and what is handed on.
  unfoldable checked :
      Option Exc → Option Value → Option Exc → Option ErrorData → M (Payload × Option Exc)
  unfolding serialize_exception
  checked none result exc_info error = pure (record { result = result; error = error }, exc_info)
  checked (some failure) result exc_info error = do
    d ← serialize_exception (record { exc_type = unserializable_value; args = []; about = result })
    pure (record { result = none; error = some d }, some failure)

  -- Responder.send_response
  unfoldable pub send_response : Message → Option Value → Option Exc → M (Option Value × Option Exc)
  unfolding error_of checked
  send_response m result exc_info = do
    error ← error_of exc_info
    content_type ← or_raise m.content_type key_error
    serializer ← or_raise (env.type_to_name content_type) key_error
    out ← checked (env.dumps result serializer) result exc_info error
    routing_key ← or_raise m.reply_to key_error
    let reply : Reply = record {
      payload = out.0;
      serializer = serializer;
      routing_key = routing_key;
      correlation_id = m.correlation_id;
    }
    or_throw (env.publish reply)
    emit (published reply)
    pure (out.0.result, out.1)

  -- RpcConsumer.handle_result
  unfoldable pub handle_result : Message → Option Value → Option Exc → M (Option Value × Option Exc)
  unfolding send_response ack_message
  handle_result m result exc_info = do
    out ← send_response m result exc_info
    ack_message m
    pure out

  -- RpcConsumer.get_provider_for_method, over the names of the providers' methods
  unfoldable pub get_provider_for_method : Str → Str → List Str → M Str
  unfolding last_segment
  get_provider_for_method service routing_key [] =
      throw (exception method_not_found (str (last_segment [] routing_key) ∷ []))
  get_provider_for_method service routing_key (method ∷ methods) =
      if str_eq (service ++ b'.' ∷ method) routing_key
      then pure method
      else get_provider_for_method service routing_key methods

  -- ServiceContainer.spawn_worker
  unfoldable pub spawn_worker : Spawned → M (Unit {0})
  spawn_worker call =
      if env.being_killed
      then throw (exception container_being_killed [])
      else (do or_throw env.service_cls; emit (spawned call))

  -- Entrypoint.check_signature
  unfoldable pub check_signature : Str → List Value → Dict Str Value → M (Unit {0})
  check_signature method args kwargs = elim (env.getcallargs method args kwargs) [
    | none ↦ pure tt
    | some text ↦ throw (exception incorrect_signature (str text ∷ []))
  ]

  -- `except ContainerBeingKilled:` in the class of the raised exception
  requeue_if_killed : Message → Exc → M (Unit {0})
  unfolding requeue_message get_module_path
  requeue_if_killed m e =
      if str_eq (get_module_path e.exc_type) (get_module_path container_being_killed)
      then requeue_message m
      else throw e

  missing : Exc
  missing = exception malformed_request (str (codes "Message 缺失 `args` 或 `kwargs`") ∷ [])

  -- Rpc.handle_message
  unfoldable pub provider_handle_message : Str → Body → Message → M (Unit {0})
  unfolding spawn_worker check_signature requeue_if_killed missing
  provider_handle_message method body m = do
    args ← or_raise body.args missing
    kwargs ← or_raise body.kwargs missing
    check_signature method args kwargs
    try_except
        (spawn_worker (record {
          method_name = method;
          args = args;
          kwargs = kwargs;
          context_data = unpack_message_headers m.headers;
        }))
        (requeue_if_killed m)

  -- RpcConsumer.handle_message
  unfoldable pub handle_message : Str → List Str → Body → Message → M (Unit {0})
  unfolding get_provider_for_method provider_handle_message handle_result
  handle_message service methods body m =
      try_except
        (do
          method ← get_provider_for_method service m.routing_key methods
          provider_handle_message method body m)
        (λ e. handle_result m none (some e) >>= λ _. pure tt)
