-- ===== src/Rpc/Server/Dispatch.antt =====
-- nameko/rpc.py, RpcConsumer.handle_message: what becomes of a request.
use nameko_zh_cn.Base.{
  Str, ◌≡◌, refl, inl, inr, true, false, none, some, List, [], ◌∷◌, ◌++◌, Dict, Bool-cases,
  Option-cases, str_eq, str_eq_iff,
}
use nameko_zh_cn.Values.{Value, str}
use nameko_zh_cn.Exceptions.{
  Exc, ExcType, method_not_found, incorrect_signature, malformed_request, container_being_killed,
  ErrorData, serialize, safe_args, safe_for_serialization, get_module_path,
}
use nameko_zh_cn.Headers.{unpack_message_headers}
use nameko_zh_cn.Rpc.Effects.{
  Reply, Spawned, Effect, published, acked, requeued, spawned, Result, ok, raise, ◌>>=◌, try_except,
}
use nameko_zh_cn.Rpc.Server.{
  Message, Body, Env, exception, last_segment, handle_result, get_provider_for_method, spawn_worker,
  check_signature, requeue_if_killed, provider_handle_message, handle_message,
}

-- A reply to the message can be made and sent: its serializer is known and can encode None, it says
-- where to reply, publishing does not fail, and its connection is there for the acknowledgement.
pub record IsAnswerable (env : Env) (m : Message) (serializer reply_to : Str) : Type 0 where
  pub content_type : Str
  pub has_type : m.content_type ≡ some content_type
  pub known : env.type_to_name content_type ≡ some serializer
  pub encodes_none : env.dumps none serializer ≡ none
  pub has_reply_to : m.reply_to ≡ some reply_to
  pub publishes : (r : Reply) → env.publish r ≡ none
  pub alive : env.connected m.ident ≡ true

module _ (env : Env) where
  abbrev pub Serializes : Exc → ErrorData → Type 0
  Serializes e d = serialize env.text_type env.exc_text e ≡ some d

  abbrev pub error_reply : Message → Str → Str → ErrorData → Reply
  error_reply m serializer reply_to d = record {
    payload = record { result = none; error = some d };
    serializer = serializer;
    routing_key = reply_to;
    correlation_id = m.correlation_id;
  }

  -- The handler of an exception: one reply with the error, then the acknowledgement.
  answers_error :
      (m : Message) (serializer reply_to : Str) (e : Exc) (d : ErrorData) (log : List Effect)
      → IsAnswerable env m serializer reply_to
      → Serializes e d
      → handle_result env m none (some e) log ≡ (
        ok (none, some e),
        (log ++ published (error_reply m serializer reply_to d) ∷ []) ++ acked m.ident ∷ [],
      )
  unfolding handle_result
  answers_error m serializer reply_to e d log a s =
      rw (s, a.has_type, a.known, a.encodes_none, a.has_reply_to, a.publishes _, a.alive)

  text-Serializes :
      (t : ExcType) (s : Str) → (d : ErrorData) × Serializes (exception t (str s ∷ [])) d
  unfolding serialize safe_args safe_for_serialization
  text-Serializes t s = (_, refl)

  -- How the body of the `try` of `handle_message` ends.
  data Attempt (m : Message) (o : Result (Unit {0}) × List Effect) : Type 0 where
    spawns : (c : Spawned) → o ≡ (ok tt, spawned c ∷ []) → Attempt m o
    requeues : o ≡ (ok tt, requeued m.ident ∷ []) → Attempt m o
    refuses : (e : Exc) (d : ErrorData) → o ≡ (raise e, []) → Serializes e d → Attempt m o

  -- An exception of `service_cls()` can be serialized, and is not a ContainerBeingKilled.
  abbrev pub ServiceSerializes : Type 0
  ServiceSerializes =
      (e : Exc)
      → env.service_cls ≡ some e
      → ((d : ErrorData) × Serializes e d)
        × (str_eq (get_module_path e.exc_type) (get_module_path container_being_killed) ≡ false)

  Attempt-spawn :
      (m : Message) (c : Spawned)
      → env.connected m.ident ≡ true
      → ServiceSerializes
      → Attempt m (try_except (spawn_worker env c) (requeue_if_killed env m) [])
  unfolding spawn_worker requeue_if_killed
  Attempt-spawn m c alive q = elim (Bool-cases env.being_killed) [
    | inl k ↦
        simp (k, alive, (str_eq_iff (get_module_path container_being_killed) _).1 refl)
          (requeues refl)
    | inr k ↦ elim (Option-cases env.service_cls) [
      | inl e ↦ simp (k, e) (spawns c refl)
      | inr (x, e) ↦ let ((d, s), other) = q x e in simp (k, e, other) (refuses x d refl s)
    ]
  ]

  Attempt-checked :
      (method : Str) (args : List Value) (kwargs : Dict Str Value) (m : Message)
      → env.connected m.ident ≡ true
      → ServiceSerializes
      → Attempt m (
          (check_signature env method args kwargs >>= λ _.
          try_except
            (spawn_worker env (record {
              method_name = method;
              args = args;
              kwargs = kwargs;
              context_data = unpack_message_headers m.headers;
            }))
            (requeue_if_killed env m))
            [])
  unfolding check_signature
  Attempt-checked method args kwargs m alive q =
      elim (Option-cases (env.getcallargs method args kwargs)) [
        | inl e ↦ rw (e, check_signature) (Attempt-spawn m _ alive q)
        | inr (text, e) ↦
            let (d, s) = text-Serializes incorrect_signature text in
            rw (e, check_signature) (refuses _ d refl s)
      ]

  Attempt-provider :
      (method : Str) (body : Body) (m : Message)
      → env.connected m.ident ≡ true
      → ServiceSerializes
      → Attempt m (provider_handle_message env method body m [])
  unfolding provider_handle_message
  Attempt-provider method body m alive q =
      let (d, s) = text-Serializes malformed_request _ in
      elim (Option-cases body.args) [
        | inl e ↦ rw e (refuses _ d refl s)
        | inr (args, e) ↦ elim (Option-cases body.kwargs) [
          | inl e' ↦ rw (e, e') (refuses _ d refl s)
          | inr (kwargs, e') ↦ rw (e, e') (Attempt-checked method args kwargs m alive q)
        ]
      ]

  Attempt-dispatch :
      (service : Str) (methods : List Str) (body : Body) (m : Message)
      → env.connected m.ident ≡ true
      → ServiceSerializes
      → Attempt m (
          (get_provider_for_method env service m.routing_key methods >>= λ method.
          provider_handle_message env method body m)
            [])
  unfolding get_provider_for_method
  Attempt-dispatch service [] body m alive q =
      let (d, s) = text-Serializes method_not_found (last_segment [] m.routing_key) in
      refuses _ d refl s
  Attempt-dispatch service (method ∷ methods) body m alive q =
      elim (Bool-cases (str_eq (service ++ b'.' ∷ method) m.routing_key)) [
        | inl e ↦ rw e (Attempt-provider method body m alive q)
        | inr e ↦ rw e (Attempt-dispatch service methods body m alive q)
      ]

  -- The request is with a worker, or back in the queue, or answered with an error and acknowledged:
  -- one of these, and nothing else is done.
  pub data Settled (m : Message) (serializer reply_to : Str) (effects : List Effect) : Type 0 where
    by_worker : (c : Spawned) → effects ≡ spawned c ∷ [] → Settled m serializer reply_to effects
    by_requeue : effects ≡ requeued m.ident ∷ [] → Settled m serializer reply_to effects
    by_error :
        (d : ErrorData)
        → effects ≡ published (error_reply m serializer reply_to d) ∷ acked m.ident ∷ []
        → Settled m serializer reply_to effects

  -- Every request that can be answered is settled, whatever its routing key and body are and whatever
  -- the signatures of the methods; and `handle_message` raises nothing.
  pub handle_message_settles :
      (service : Str) (methods : List Str) (body : Body) (m : Message) (serializer reply_to : Str)
      → IsAnswerable env m serializer reply_to
      → ServiceSerializes
      → ((handle_message env service methods body m []).0 ≡ ok tt)
        × Settled m serializer reply_to (handle_message env service methods body m []).1
  unfolding handle_message
  handle_message_settles service methods body m serializer reply_to a q =
      elim (Attempt-dispatch service methods body m a.alive q) [
        | spawns c e ↦ rw e (refl, by_worker c refl)
        | requeues e ↦ rw e (refl, by_requeue refl)
        | refuses x d e s ↦
            rw e (rw (answers_error m serializer reply_to x d [] a s) (refl, by_error d refl))
      ]
