-- ===== src/Websocket/Requests.antt =====
-- nameko/web/websocket.py: the frames that a socket sends and the responses that it gets. What
-- `json.loads` makes of a frame and what a provider's method gives are parameters.
pub mod Answers
use nameko_zh_cn.Base.{
  ℕ, Str, codes, Bool, true, false, Option, none, some, ◌>>=◌, List, [], ◌∷◌, ◌++◌, str_eq,
  if◌then◌else◌,
}
use nameko_zh_cn.Values.{Value, str}
use nameko_zh_cn.Exceptions.{Exc, ErrorData, malformed_request, method_not_found, serialize}
use nameko_zh_cn.Rpc.Server.{exception}
use nameko_zh_cn.Websocket.{
  Server, Action, ContextData, Sockets, add_websocket, remove_socket, step, run,
}

-- A frame that `json.loads` reads as a dict: None is a key that is missing, or null.
pub record Loaded : Type 0 where
  pub method : Option Str
  pub data_ : Option Value
  pub correlation_id : Option Value

pub record Response : Type 0 where
  pub success : Bool
  pub data_ : Option Value
  pub error : Option ErrorData
  pub correlation_id : Option Value

-- What a provider's method gives; `waits` is an event.wait() that does not end, for a worker that
-- never calls handle_result.
pub data Outcome : Type 0 where
  gives : Option Value → Outcome
  raises : Exc → Outcome
  waits : Outcome

-- How the handling of a frame goes: a response, an exception, or the wait of a method.
pub data Handling : Type 0 where
  answers : Response → Handling
  fails blocks : Handling

-- `none` is a TypeError of `serialize` or of `json.dumps`.
abbrev pub made_of : Option Response → Handling
made_of none = fails
made_of (some r) = answers r

pub record Handlers : Type 0 where
  pub text_type : ℕ → Option Str
  pub exc_text : Exc → Option Str
  -- `none` is a frame that `json.loads` refuses, or reads as something else than a dict
  pub loads : Str → Option Loaded
  -- whether `json.dumps` takes the response
  pub dumps : Response → Bool
  -- the methods of the providers that are WebSocketRpc entrypoints
  pub methods : List Str
  pub handle_message : Str → Str → Option Value → Outcome
  -- what the worker of a frame does with the hub meanwhile
  pub meanwhile : Str → List Action

module _ (env : Handlers) where
  -- A `method` that is missing is a KeyError, and so Invalid JSON data.
  unfoldable pub deserialize_ws_frame : Str → Option (Str × Option Value × Option Value)
  deserialize_ws_frame raw = do
    loaded ← env.loads raw
    method ← loaded.method
    some (method, loaded.data_, loaded.correlation_id)

  unfoldable pub has_method : Str → List Str → Bool
  has_method method [] = false
  has_method method (m ∷ ms) =
      let rest = has_method method ms in if str_eq m method then true else rest

  -- The except clause; `none` is a TypeError of `serialize`.
  unfoldable pub refuse : Exc → Option Value → Option Response
  refuse e correlation_id = do
    error ← serialize env.text_type env.exc_text e
    some (record {
      success = false;
      data_ = none;
      error = some error;
      correlation_id = correlation_id;
    })

  unfoldable pub respond : Outcome → Option Value → Handling
  unfolding refuse
  respond (gives v) correlation_id =
      answers (record { success = true; data_ = v; error = none; correlation_id = correlation_id })
  respond (raises e) correlation_id = made_of (refuse e correlation_id)
  respond waits correlation_id = blocks

  unfoldable pub dispatch : Str → Option (Str × Option Value × Option Value) → Handling
  unfolding respond refuse has_method
  dispatch socket_id none =
      made_of (refuse (exception malformed_request (str (codes "Invalid JSON data") ∷ [])) none)
  dispatch socket_id (some (method, data_, correlation_id)) =
      if has_method method env.methods
      then respond (env.handle_message method socket_id data_) correlation_id
      else made_of (refuse (exception method_not_found []) correlation_id)

  -- WebSocketServer.handle_websocket_request
  unfoldable pub handle_websocket_request : Str → Str → Handling
  unfolding deserialize_ws_frame dispatch
  handle_websocket_request socket_id raw = elim (dispatch socket_id (deserialize_ws_frame raw)) [
    | answers r ↦ if env.dumps r then answers r else fails
    | fails ↦ fails
    | blocks ↦ blocks
  ]

  -- The loop over the frames: it ends when there is none left, or when a response cannot be made; and
  -- it goes no further where a method does not. The responses, whether it ends, and the server then.
  unfoldable pub serve : Str → List Str → Server → List Response × (Bool × Server)
  unfolding handle_websocket_request
  serve socket_id [] s = ([], (true, s))
  serve socket_id (raw ∷ frames) s =
      let s' = run (env.meanwhile raw) s in
      let (rest, s'') = serve socket_id frames s' in
      elim (handle_websocket_request socket_id raw) [
        | fails ↦ ([], (true, s'))
        | blocks ↦ ([], (false, s'))
        | answers r ↦ (r ∷ rest, s'')
      ]

  -- WebSocketServer.websocket_mainloop, with its `finally`, which a loop that does not end never reaches
  unfoldable pub websocket_mainloop : Str → ContextData → List Str → Server → List Response × Server
  unfolding serve
  websocket_mainloop socket_id context_data frames s =
      let (responses, (ends, s')) =
        serve socket_id frames (step (add_websocket socket_id context_data) s) in
      (responses, if ends then step (remove_socket socket_id) s' else s')
