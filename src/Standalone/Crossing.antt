-- ===== src/Standalone/Crossing.antt =====
-- nameko/standalone/rpc.py with both ends of nameko/rpc.py: from a worker's result to the client that
-- polls for it.
use nameko_zh_cn.Base.{
  ℕ, Str, ◌≡◌, refl, ap, true, false, Option, none, some, List, [], ◌∷◌, ◌++◌, get, ==_iff,
  if◌then◌else◌,
}
use nameko_zh_cn.Values.{Value}
use nameko_zh_cn.Exceptions.{Exc, ExcType, Registry}
use nameko_zh_cn.Rpc.Effects.{Payload, Reply, published, acked, ok}
use nameko_zh_cn.Rpc.Server.{Env, Message, handle_result}
use nameko_zh_cn.Rpc.Server.Answers.{IsSendable, reply_of}
use nameko_zh_cn.Rpc.Client.{result}
use nameko_zh_cn.Rpc.Client
use nameko_zh_cn.Rpc.Crossing.{value_crosses}
use nameko_zh_cn.Standalone.{Arrival, Drained, delivered, Client, id_keys, returned, wait}
use nameko_zh_cn.Standalone.Polled.{IsKeyed, Awaits, arrived}
use nameko_zh_cn.Standalone.Waits.{IsIdle, reply_ends_wait}

-- A reply as it is delivered to a client that can acknowledge it, its body read from the wire.
abbrev pub delivery : (Payload → Payload) → ℕ → Reply → Arrival
delivery wire ident reply = record {
  ident = ident;
  correlation_id = reply.correlation_id;
  body = wire reply.payload;
  acking = none;
}

module _ (env : Env) (wire : Payload → Payload) (m : Message) (serializer reply_to : Str)
    (construct : ExcType → List Value → Option Exc) (registry : Registry) where
  -- The value that a worker returns, if it can be encoded and its reply is decoded to what was
  -- encoded, is published in a reply to the request; a polling client that waits for the
  -- request's correlation id, and to whom that reply is delivered after others' replies and
  -- failures after which it connects again, gets that reply, and the call's result is the value.
  -- The request has a reply address and a known content type, its connection lives, and replies
  -- can be published.
  pub polled_value_crosses :
      (v : Option Value) (ident r : ℕ) (c : Str) (before after : List Drained) (p : Client)
      → IsSendable env m serializer reply_to
      → env.dumps v serializer ≡ none
      → wire (record { result = v; error = none }) ≡ record { result = v; error = none }
      → m.correlation_id ≡ some c
      → IsKeyed p
      → Awaits r c p
      → p.stopped ≡ false
      → get (some c) p.replies ≡ none
      → IsIdle c before
      → (body : Payload) × (handle_result env m v none [] ≡ (
        ok (v, none),
        published (reply_of env m serializer reply_to body) ∷ acked m.ident ∷ [],
      ))
        × (let reply = delivery wire ident (reply_of env m serializer reply_to body) in
            (wait r c true (before ++ delivered (reply ∷ []) ∷ after) p).0.0 ≡ returned (wire body))
        × (result construct registry (some (some (wire body))) ≡ Client.returned v)
  polled_value_crosses v ident r c before after p sendable encodes back asks keyed awaits runs
        none_kept idle =
      let (body, sent, gives) =
        value_crosses env wire m serializer reply_to construct registry v sendable encodes back in
      let reply = delivery wire ident (reply_of env m serializer reply_to body) in
      let mine : arrived (some c) (delivered (reply ∷ [])) none ≡ some reply =
        ap (λ q. if q then some reply else none) ((==_iff m.correlation_id (some c)).1 asks) in
      (
        body,
        sent,
        (reply_ends_wait r c before after (reply ∷ []) reply p keyed awaits runs mine refl).1
            none_kept idle,
        gives,
      )
