-- ===== src/Consume.antt =====
-- nameko/messaging.py: Consumer, the entrypoint that consumes a queue, in the environment of
-- Rpc/Server.
pub mod Settled
use nameko_zh_cn.Base.{Str, Bool, ◌&&◌, Option, is_some, [], ◌∷◌, if◌then◌else◌, str_eq}
use nameko_zh_cn.Values.{Value}
use nameko_zh_cn.Exceptions.{Exc, container_being_killed, get_module_path}
use nameko_zh_cn.Headers.{unpack_message_headers}
use nameko_zh_cn.Rpc.Effects.{M, pure, throw, ◌>>◌, try_except}
use nameko_zh_cn.Rpc.Server.{Env, Message, ack_message, requeue_message, spawn_worker}

module _ (env : Env) where
  -- `except ContainerBeingKilled:` in the class of the raised exception
  requeue_if_killed : Message → Exc → M (Unit {0})
  unfolding requeue_message get_module_path
  requeue_if_killed m e =
      if str_eq (get_module_path e.exc_type) (get_module_path container_being_killed)
      then requeue_message env m
      else throw e

  -- Consumer.handle_message
  unfoldable pub handle_message : Str → Value → Message → M (Unit {0})
  unfolding spawn_worker requeue_if_killed
  handle_message method body m =
      try_except
        (spawn_worker env (record {
          method_name = method;
          args = body ∷ [];
          kwargs = [];
          context_data = unpack_message_headers m.headers;
        }))
        (requeue_if_killed m)

  -- Consumer.handle_message_processed
  unfoldable pub handle_message_processed : Bool → Message → Option Exc → M (Unit {0})
  unfolding ack_message requeue_message
  handle_message_processed requeue_on_error m exc_info =
      if is_some exc_info && requeue_on_error then requeue_message env m else ack_message env m

  -- Consumer.handle_result
  unfoldable pub handle_result :
      Bool → Message → Option Value → Option Exc → M (Option Value × Option Exc)
  unfolding handle_message_processed
  handle_result requeue_on_error m result exc_info = do
    handle_message_processed requeue_on_error m exc_info
    pure (result, exc_info)
