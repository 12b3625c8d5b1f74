-- ===== src/Sockets/Crossing.antt =====
-- A method of a WebSocketRpc entrypoint, from the frame of a virtual socket to what the call gives.
use nameko_zh_cn.Base.{
  ℕ, Str, Bool, true, false, Option, none, some, List, [], ◌∷◌, ◌++◌, Dict, get, str_keys, ◌≡◌,
  refl, ap, ◌∙◌, All, Option-cases, inl, inr, arith,
}
use nameko_zh_cn.Values.{Value, str}
use nameko_zh_cn.Exceptions.{
  Exc, ExcType, ErrorData, Registry, instance_of, get_module_path, serialize, deserialize,
}
use nameko_zh_cn.Exceptions.Wire.Trip.{IsPlain, deserialize-serialize}
use mathlib.Core.Option.{some-injective}
use nameko_zh_cn.Rpc.Effects.{Spawned, Effect, spawned, Result, ok, raise}
use nameko_zh_cn.Rpc.Server.{Env, check_signature, spawn_worker}
use nameko_zh_cn.Rpc.Client.{Ending, returned, raised}
use nameko_zh_cn.Websocket.{ContextData, Action}
use nameko_zh_cn.Websocket.Requests.{
  Response, Outcome, gives, raises, answers, made_of, Loaded, Handlers, has_method, respond, refuse,
  dispatch, deserialize_ws_frame, handle_websocket_request,
}
use nameko_zh_cn.Websocket.Requests.Answers.{handled}
use nameko_zh_cn.Websocket.Rpc.{
  handlers, kwargs_of, outcome, awaited, handle_message, handle_kwargs, call_of,
}
use nameko_zh_cn.Sockets.{Frame, Message, result, Client, on_messages, rpc, rpc_ending}
use nameko_zh_cn.Sockets.Valid.{IsValid}
use nameko_zh_cn.Sockets.Answered.{Others, rpc_gets_its_response}

-- `wire r` is what the client's json.loads reads of the server's json.dumps of `r`.
module _ (env : Env) (falsy : ℕ → Bool) (not_a_mapping : Str) (context_data : ContextData)
    (worker : Spawned → Option (Result (Option Value))) (methods : List Str)
    (loads : Str → Option Loaded) (dumps : Response → Bool) (wire : Response → Response)
    (meanwhile : Str → List Action) (construct : ExcType → List Value → Option Exc)
    (registry : Registry) where
  abbrev server : Handlers
  server = handlers env falsy not_a_mapping context_data worker methods loads dumps meanwhile

  -- What a worker hands over.
  abbrev settled : Result (Option Value) → Outcome
  settled (ok v) = gives v
  settled (raise e) = raises e

  -- A value, or an exception whose class is registered and keeps its arguments, which are made of texts,
  -- lists and dicts with distinct texts for keys.
  abbrev pub Travels : Result (Option Value) → Type 0
  Travels (ok v) = Unit
  Travels (raise e) =
      (get (get_module_path e.exc_type) registry ≡ some e.exc_type)
      × (construct e.exc_type e.args ≡ some e)
      × All IsPlain e.args

  abbrev pub ending : Result (Option Value) → Ending
  ending (ok v) = returned v
  ending (raise e) = raised (instance_of e)

  abbrev pub loaded : Frame → Loaded
  loaded f = record {
    method = some f.method;
    data_ = some f.data_;
    correlation_id = some (str f.correlation_id);
  }

  kwargs-worker :
      (method socket_id : Str) (kwargs : Dict Str Value)
      → env.getcallargs method (str socket_id ∷ []) kwargs ≡ none
      → env.being_killed ≡ false
      → env.service_cls ≡ none
      → (handle_kwargs env falsy not_a_mapping context_data worker method socket_id
          (some kwargs)
          []).0
        ≡ (awaited
            (worker (call_of context_data method socket_id kwargs))
            (spawned (call_of context_data method socket_id kwargs) ∷ [])).0
  unfolding handle_kwargs check_signature spawn_worker
  kwargs-worker method socket_id kwargs fits live made = ground arith

  hands_over :
      (w : Option (Result (Option Value))) (o : Result (Option Value)) (log : List Effect)
      → w ≡ some o
      → outcome (awaited w log).0 ≡ settled o
  hands_over none o log e = cc
  hands_over (some (ok v)) o log e = ap settled (some-injective _ _ e)
  hands_over (some (raise x)) o log e = ap settled (some-injective _ _ e)

  handle_message-worker :
      (method socket_id : Str) (data_ : Option Value) (kwargs : Dict Str Value)
      (o : Result (Option Value))
      → kwargs_of falsy data_ ≡ some kwargs
      → env.getcallargs method (str socket_id ∷ []) kwargs ≡ none
      → env.being_killed ≡ false
      → env.service_cls ≡ none
      → worker (call_of context_data method socket_id kwargs) ≡ some o
      → handle_message env falsy not_a_mapping context_data worker method socket_id data_
        ≡ settled o
  unfolding handle_message
  handle_message-worker method socket_id data_ kwargs o k fits live made gives_ =
      rw (k, kwargs-worker method socket_id kwargs fits live made)
        (hands_over (worker (call_of context_data method socket_id kwargs)) o
          (spawned (call_of context_data method socket_id kwargs) ∷ []) gives_)

  refused :
      (e : Exc) (d : ErrorData) (id : Option Value)
      → serialize env.text_type env.exc_text e ≡ some d
      → refuse server e id
        ≡ some (record { success = false; data_ = none; error = some d; correlation_id = id })
  unfolding refuse
  refused e d id s = rw s refl

  raised_ending :
      (d : ErrorData) (e : Exc) (id : Option Value)
      → deserialize construct registry d ≡ some (instance_of e)
      → rpc_ending construct registry
          (some (record { success = false; data_ = none; error = some d; correlation_id = id }))
        ≡ raised (instance_of e)
  unfolding rpc_ending
  raised_ending d e id back = rw back refl

  answered :
      (o : Result (Option Value)) (id : Option Value)
      → Travels o
      → (r : Response) × (respond server (settled o) id ≡ answers r)
        × (r.correlation_id ≡ id)
        × (rpc_ending construct registry (some r) ≡ ending o)
  unfolding respond rpc_ending
  answered (ok v) id h = (_, refl, refl, refl)
  answered (raise e) id h =
      let back =
        deserialize-serialize env.text_type env.exc_text construct registry e h.0 h.1 h.2 in
      elim (Option-cases (serialize env.text_type env.exc_text e)) [
        | inl s ↦ absurd (cc (rw s at back))
        | inr (d, s) ↦ (
          record { success = false; data_ = none; error = some d; correlation_id = id },
          ap made_of (refused e d id s),
          refl,
          raised_ending d e id (rw s at back),
        )
      ]

  read :
      (f : Frame) (raw : Str)
      → loads raw ≡ some (loaded f)
      → deserialize_ws_frame server raw ≡ some (f.method, some f.data_, some (str f.correlation_id))
  unfolding deserialize_ws_frame
  read f raw reads = rw reads refl

  dispatch-known :
      (f : Frame) (socket_id : Str) (r : Response)
      → has_method server f.method methods ≡ true
      → respond server
          (handle_message env falsy not_a_mapping context_data worker f.method socket_id
            (some f.data_))
          (some (str f.correlation_id))
        ≡ answers r
      → dispatch server socket_id (some (f.method, some f.data_, some (str f.correlation_id)))
        ≡ answers r
  unfolding dispatch
  dispatch-known f socket_id r known e = rw known e

  dispatched :
      (f : Frame) (raw socket_id : Str) (r : Response)
      → loads raw ≡ some (loaded f)
      → has_method server f.method methods ≡ true
      → dumps r ≡ true
      → respond server
          (handle_message env falsy not_a_mapping context_data worker f.method socket_id
            (some f.data_))
          (some (str f.correlation_id))
        ≡ answers r
      → handle_websocket_request server socket_id raw ≡ answers r
  dispatched f raw socket_id r reads known encodes e =
      handled server socket_id raw r encodes
        (rw (read f raw reads) (dispatch-known f socket_id r known e))

  -- JSON can hold the response to the frame, and gives it back as it was.
  abbrev pub Carries : Frame → Result (Option Value) → Type 0
  Carries f o =
      (r : Response)
      → respond server (settled o) (some (str f.correlation_id)) ≡ answers r
      → (dumps r ≡ true) × (wire r ≡ r)

  -- A client's call of a method of a WebSocketRpc entrypoint, with the frame's arguments fitting the
  -- method, the container not being killed, the service made, and a worker that hands over a result or
  -- an exception: the server's response to the frame, among whatever events and responses to other calls
  -- arrive at the client, makes the call return the value that the worker returns, or raise the
  -- exception that it raises, if that is of a registered class that keeps its arguments, and
  -- these are made of texts, lists and dicts with distinct texts for keys. The frame is read as it was
  -- made, and JSON can hold the response and gives it back as it was.
  pub socket_rpc_crosses :
      (f : Frame) (raw socket_id : Str) (kwargs : Dict Str Value) (before after : List Message)
      (c : Client) (o : Result (Option Value))
      → loads raw ≡ some (loaded f)
      → has_method server f.method methods ≡ true
      → kwargs_of falsy (some f.data_) ≡ some kwargs
      → env.getcallargs f.method (str socket_id ∷ []) kwargs ≡ none
      → env.being_killed ≡ false
      → env.service_cls ≡ none
      → worker (call_of context_data f.method socket_id kwargs) ≡ some o
      → Travels o
      → Carries f o
      → IsValid c
      → Others f.correlation_id before
      → (r : Response) × (t : Client) × (handle_websocket_request server socket_id raw ≡ answers r)
        × (on_messages (before ++ result (wire r) ∷ after) (rpc f.correlation_id c).1 ≡ some t)
        × (rpc_ending construct registry (t.sent (rpc f.correlation_id c).0) ≡ ending o)
  socket_rpc_crosses f raw socket_id kwargs before after c o reads known keys fits live made gives_
        travels carries v n =
      let called =
        handle_message-worker f.method socket_id (some f.data_) kwargs o keys fits live made
          gives_ in
      let (r, given, id, ends) = answered o (some (str f.correlation_id)) travels in
      let (encodes, back) = carries r given in
      let (t, received, sent) =
        rpc_gets_its_response before after f.correlation_id (wire r) c v n
          (ap (λ (x : Response). x.correlation_id) back ∙ id) in
      (
        r,
        t,
        dispatched f raw socket_id r reads known encodes
            (ap (λ x. respond server x (some (str f.correlation_id))) called ∙ given),
        received,
        ap (rpc_ending construct registry) (sent ∙ ap some back) ∙ ends,
      )
