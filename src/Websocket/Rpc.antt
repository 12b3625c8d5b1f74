-- ===== src/Websocket/Rpc.antt =====
-- nameko/web/websocket.py: WebSocketRpc, from a frame's data to what its worker gives, and the handlers
-- of a server from the WebSocketRpc entrypoints. What JSON makes of texts, and how a worker ends, are
-- parameters: `worker` is what a worker hands to handle_result, if it calls that; `falsy` says which other objects are false in `data.get('data') or {}`.
use nameko_zh_cn.Base.{ℕ, Str, Bool, Option, none, some, ◌>>=◌, List, [], ◌∷◌, Dict, if◌then◌else◌}
use nameko_zh_cn.Values.{Value, str, atom, dict, list, iterable, Fields, nil, cons}
use nameko_zh_cn.Values
use nameko_zh_cn.Exceptions.{incorrect_signature}
use nameko_zh_cn.Rpc.Effects.{Spawned, Result, ok, raise, M, throw}
use nameko_zh_cn.Rpc.Effects
use nameko_zh_cn.Rpc.Server.{Env, check_signature, spawn_worker, exception}
use nameko_zh_cn.Websocket.{ContextData, Action}
use nameko_zh_cn.Websocket.Requests.{Outcome, gives, raises, waits, Handlers, Loaded, Response}

-- The keywords of a dict; the keys of a JSON object are texts.
unfoldable pub keywords : Fields → Option (Dict Str Value)
keywords Values.end = some []
keywords (Values.field (str k) v fs) = keywords fs >>= λ d. some ((k, v) ∷ d)
keywords (Values.field _ v fs) = none

-- data.get('data') or {}, as keywords; none is no mapping
unfoldable pub kwargs_of : (ℕ → Bool) → Option Value → Option (Dict Str Value)
unfolding keywords
kwargs_of falsy none = some []
kwargs_of falsy (some (dict fs)) = keywords fs
kwargs_of falsy (some (str [])) = some []
kwargs_of falsy (some (str (c ∷ s))) = none
kwargs_of falsy (some (list nil)) = some []
kwargs_of falsy (some (list (cons v vs))) = none
kwargs_of falsy (some (iterable vs)) = none
kwargs_of falsy (some (atom n)) = if falsy n then some [] else none

abbrev pub call_of : ContextData → Str → Str → Dict Str Value → Spawned
call_of context_data method socket_id kwargs = record {
  method_name = method;
  args = str socket_id ∷ [];
  kwargs = kwargs;
  context_data = context_data;
}

-- `ok none` is a wait that does not end.
abbrev pub outcome : Result (Option (Option Value)) → Outcome
outcome (ok none) = waits
outcome (ok (some v)) = gives v
outcome (raise e) = raises e

-- event.wait()
abbrev pub awaited : Option (Result (Option Value)) → M (Option (Option Value))
awaited none log = (ok none, log)
awaited (some (ok v)) log = (ok (some v), log)
awaited (some (raise e)) log = (raise e, log)

module _ (env : Env) (falsy : ℕ → Bool) (not_a_mapping : Str) (context_data : ContextData)
    (worker : Spawned → Option (Result (Option Value))) where
  -- WebSocketRpc.handle_message; what is no mapping is the TypeError that check_signature hands on
  -- as an IncorrectSignature.
  unfoldable pub handle_kwargs : Str → Str → Option (Dict Str Value) → M (Option (Option Value))
  unfolding check_signature spawn_worker
  handle_kwargs method socket_id none =
      throw (exception incorrect_signature (str not_a_mapping ∷ []))
  handle_kwargs method socket_id (some kwargs) =
      Effects.◌>>◌ (check_signature env method (str socket_id ∷ []) kwargs) (
        Effects.◌>>◌ (spawn_worker env (call_of context_data method socket_id kwargs))
          (awaited (worker (call_of context_data method socket_id kwargs))))

  unfoldable pub handle_message : Str → Str → Option Value → Outcome
  unfolding handle_kwargs kwargs_of
  handle_message method socket_id data_ =
      outcome (handle_kwargs method socket_id (kwargs_of falsy data_) []).0

  -- A server whose methods are those of WebSocketRpc entrypoints.
  abbrev pub handlers :
      List Str → (Str → Option Loaded) → (Response → Bool) → (Str → List Action) → Handlers
  handlers methods loads dumps meanwhile = record {
    text_type = env.text_type;
    exc_text = env.exc_text;
    loads = loads;
    dumps = dumps;
    methods = methods;
    handle_message = handle_message;
    meanwhile = meanwhile;
  }
