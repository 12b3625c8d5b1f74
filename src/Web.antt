-- ===== src/Web.antt =====
-- nameko/web/handlers.py, HttpRequestHandler: the response to a request; nameko/web/server.py:
-- WsgiApp. How werkzeug matches a request to a handler, how a worker that is spawned ends, and the
-- check of a Response's arguments are parameters.
pub mod Responses
pub mod Address
pub mod Server
use nameko_zh_cn.Base.{
  ℕ, Str, codes, Bool, true, false, Option, none, some, List, [], ◌∷◌, ◌++◌, Dict, ◌||◌,
  if◌then◌else◌,
}
use nameko_zh_cn.Values.{Value, str}
use nameko_zh_cn.Exceptions.{Exc, ErrorData, serialize}
use nameko_zh_cn.Rpc.Effects.{
  Spawned, Result, ok, raise, M, pure, throw, ◌>>=◌, ◌>>◌, try_except, or_throw, or_raise, builtin,
  type_error,
}
use nameko_zh_cn.Rpc.Server.{Env, check_signature, spawn_worker}

-- A number of this module's own, or what a method gives.
pub data Status : Type 0 where
  code : ℕ → Status
  given : Value → Status

pub record Response : Type 0 where
  pub payload : Str
  pub status : Status
  pub headers : Option Value

-- What a method returns: a Response, a tuple, or another value.
pub data HttpResult : Type 0 where
  response : Response → HttpResult
  tuple : List Value → HttpResult
  plain : Value → HttpResult

abbrev pub value_error : Exc
value_error = builtin (codes "ValueError")

module _ (new_response : Response → Option Exc) where
  make_response : Response → Result Response
  make_response r = elim (new_response r) [ none ↦ ok r | some e ↦ raise e ]

  -- The end of HttpRequestHandler.response_from_result; a payload that is no str is a TypeError.
  from_payload : Status → Option Value → Value → Result Response
  unfolding make_response
  from_payload status headers (str s) =
      make_response (record { payload = s; status = status; headers = headers })
  from_payload status headers _ = raise type_error

  -- A tuple that is neither of two nor of three items cannot be unpacked.
  from_tuple : List Value → Result Response
  unfolding from_payload
  from_tuple (status ∷ (headers ∷ (payload ∷ []))) =
      from_payload (given status) (some headers) payload
  from_tuple (status ∷ (payload ∷ [])) = from_payload (given status) none payload
  from_tuple _ = raise value_error

  unfoldable pub response_from_result : HttpResult → Result Response
  unfolding from_payload from_tuple
  response_from_result (response r) = ok r
  response_from_result (tuple items) = from_tuple items
  response_from_result (plain v) = from_payload (code 200) none v

-- 'Error: {exc_type}: {value}\n'.format(...)
abbrev pub error_text : Str → Str → Str
error_text exc_type value = codes "Error: " ++ (exc_type ++ (codes ": " ++ (value ++ b'\n' ∷ [])))

abbrev pub or_empty : Option Str → Str
or_empty none = []
or_empty (some s) = s

module _ (env : Env) (expected : Exc → Bool) where
  -- `expected` is isinstance(exc, self.expected_exceptions)
  unfoldable pub status_code : Exc → ℕ
  status_code e = if expected e || e.exc_type.bad_request then 400 else 500

  error_response : Exc → ErrorData → Response
  unfolding status_code
  error_response e d = record {
    payload = error_text (or_empty d.exc_type) (or_empty d.value);
    status = code (status_code e);
    headers = none;
  }

  unfoldable pub response_from_exception : Exc → M Response
  unfolding error_response
  response_from_exception e = do
    d ← or_raise (serialize env.text_type env.exc_text e) type_error
    pure (error_response e d)

unfoldable pub of_result : {A : Type 0} → Result A → M A
of_result (ok a) = pure a
of_result (raise e) = throw e

-- A request, as the value that is the method's argument, with the values of its path.
pub record Request : Type 0 where
  pub request : Value
  pub path_values : Dict Str Value

-- get_entrypoint_parameters, and the context data of WebServer.context_data_from_headers
abbrev pub call_of : Str → Request → Spawned
call_of method r = record {
  method_name = method;
  args = r.request ∷ [];
  kwargs = r.path_values;
  context_data = [];
}

pub data Served : Type 0 where
  http_exception : Served
  handled : Response → Served

-- A handler, by its method; `worker` is what the worker of a call hands to handle_result, if it ever
-- calls that: a worker whose dependencies cannot be made or set up does not. none as an answer is a
-- request whose event.wait() never ends.
module _ (env : Env) (expected : Exc → Bool) (new_response : Response → Option Exc)
    (worker : Spawned → Option (Result HttpResult)) where
  unfoldable pub awaited : Option (Result HttpResult) → M (Option Response)
  unfolding response_from_result of_result
  awaited none = pure none
  awaited (some outcome) = do
    result ← of_result outcome
    made ← of_result (response_from_result new_response result)
    pure (some made)

  unfoldable pub respond : Str → Request → M (Option Response)
  unfolding check_signature spawn_worker awaited
  respond method r = do
    check_signature env method (r.request ∷ []) r.path_values
    spawn_worker env (call_of method r)
    awaited (worker (call_of method r))

  -- HttpRequestHandler.handle_request
  unfoldable pub handle_request : Str → Request → M (Option Response)
  unfolding respond response_from_exception
  handle_request method r =
      try_except (respond method r)
        (λ e. do made ← response_from_exception env expected e; pure (some made))

  -- WsgiApp.__call__: what it answers with. `matched` is the handler that the URL map finds for the
  -- request; none is an HTTPException, which is a response itself.
  unfoldable pub wsgi_app : Option (Str × Request) → M (Option Served)
  unfolding handle_request
  wsgi_app none = pure (some http_exception)
  wsgi_app (some (method, r)) = do
    out ← handle_request method r
    pure (elim out [ none ↦ none | some r ↦ some (handled r) ])
