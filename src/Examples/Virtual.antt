-- ===== src/Examples/Virtual.antt =====
-- The theorems of Sockets at a call that raises, while an event and another call's response arrive.
use nameko_zh_cn.Base.{
  Str, codes, ◌≡◌, refl, true, false, Option, none, some, [], ◌∷◌, ◌++◌, List, get, str_keys,
  str_eq,
}
use nameko_zh_cn.Values.{Value, str, dict, end, field}
use nameko_zh_cn.Exceptions.{imported, instance_of}
use nameko_zh_cn.Rpc.Effects.{raise, Result, Spawned}
use nameko_zh_cn.Rpc.Client.{raised}
use nameko_zh_cn.Websocket.Requests.{
  Response, answers, Loaded, has_method, handle_websocket_request,
}
use nameko_zh_cn.Websocket.Rpc.{handlers, kwargs_of}
use nameko_zh_cn.Sockets.{
  Frame, Message, event, result, Client, new_client, on_messages, rpc, rpc_ending,
}
use nameko_zh_cn.Sockets.Valid.{IsValid}
use nameko_zh_cn.Sockets.Crossing.{socket_rpc_crosses}
use nameko_zh_cn.Examples.Rpc.{env}
use nameko_zh_cn.Examples.Exceptions.{
  construct, no_such_method, method_not_found-registered, spam_plain,
}

abbrev frame : Frame
frame = record {
  method = codes "spam";
  data_ = dict (field (str (codes "n")) (str (codes "x")) end);
  correlation_id = codes "c1";
}

abbrev loads : Str → Option Loaded
loads raw = some (record {
  method = some (codes "spam");
  data_ = some frame.data_;
  correlation_id = some (str (codes "c1"));
})

abbrev worker : Spawned → Option (Result (Option Value))
worker call = some (raise no_such_method)

abbrev other_response : Response
other_response = record {
  success = true;
  data_ = none;
  error = none;
  correlation_id = some (str []);
}

abbrev before : List Message
before = event (codes "news") (str (codes "x")) ∷ (result other_response ∷ [])

new_client-IsValid : IsValid new_client
unfolding get
new_client-IsValid = record { unsent = λ j e h. cc; known = λ j e h. cc; apart = λ i j e h k. cc }

socket_rpc_crosses_example :
    (r : Response) × (t : Client) × (handle_websocket_request
        (handlers env (λ a. false) [] [] worker (codes "spam" ∷ []) loads (λ x. true) (λ x. []))
        (codes "s")
        (codes "raw")
      ≡ answers r)
    × (on_messages (before ++ result r ∷ []) (rpc (codes "c1") new_client).1 ≡ some t)
    × (rpc_ending construct imported (t.sent (rpc (codes "c1") new_client).0)
        ≡ raised (instance_of no_such_method))
unfolding has_method kwargs_of str_eq
socket_rpc_crosses_example =
    socket_rpc_crosses env (λ a. false) [] [] worker (codes "spam" ∷ []) loads (λ x. true) (λ r. r)
      (λ x. []) construct imported frame (codes "raw") (codes "s")
      ((codes "n", str (codes "x")) ∷ []) before [] new_client (raise no_such_method) refl refl refl
      refl refl refl refl (method_not_found-registered, refl, (spam_plain, tt))
      (λ r h. (refl, refl)) new_client-IsValid (λ p. cc, (λ p. cc, tt))
