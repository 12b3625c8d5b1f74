-- ===== src/Websocket/Requests/Answers.antt =====
-- nameko/web/websocket.py: every frame is answered, and the socket is gone in the end.
use nameko_zh_cn.Base.{Str, ◌≡◌, ◌≢◌, All, refl, true, Option, none, some, is_some, List, str_keys}
use nameko_zh_cn.Values.{Value}
use nameko_zh_cn.Exceptions.{Exc, serialize}
use nameko_zh_cn.Websocket.{Server}
use nameko_zh_cn.Websocket.Requests.{
  Response, raises, waits, answers, Handlers, deserialize_ws_frame, dispatch,
  handle_websocket_request,
}

abbrev pub id_of : Option (Str × Option Value × Option Value) → Option Value
id_of none = none
id_of (some (method, data_, correlation_id)) = correlation_id

module _ (env : Handlers) where
  -- What the providers' methods raise can be serialized.
  abbrev pub Serializes : Type 0
  Serializes =
      (method socket_id : Str) (data_ : Option Value) (e : Exc)
      → env.handle_message method socket_id data_ ≡ raises e
      → is_some (serialize env.text_type env.exc_text e) ≡ true

  abbrev pub AllEnd : Type 0
  AllEnd =
      (method socket_id : Str) (data_ : Option Value)
      → env.handle_message method socket_id data_ ≢ waits

  -- The response to each of these frames can be encoded.
  abbrev pub Encodes : Str → List Str → Type 0
  Encodes socket_id = All (λ raw.
      (r : Response)
      → dispatch env socket_id (deserialize_ws_frame env raw) ≡ answers r
      → env.dumps r ≡ true)

  pub handled :
      (socket_id raw : Str) (r : Response)
      → env.dumps r ≡ true
      → dispatch env socket_id (deserialize_ws_frame env raw) ≡ answers r
      → handle_websocket_request env socket_id raw ≡ answers r
  unfolding handle_websocket_request
  handled socket_id raw r encodes made = rw (made, handle_websocket_request) (rw encodes refl)
