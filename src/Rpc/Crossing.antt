-- ===== src/Rpc/Crossing.antt =====
-- nameko/rpc.py and nameko/exceptions.py together: what a worker returns or raises, from the service
-- that answers to the call that waits.
use nameko_zh_cn.Base.{
  Str, ◌≡◌, refl, ap, ◌∙◌, Option, none, some, ◌>>=◌, List, [], ◌∷◌, get, str_keys, All,
  Option-cases, inl, inr, arith, subst, true,
}
use mathlib.Core.Option.{some-injective}
use nameko_zh_cn.Values.{Value}
use nameko_zh_cn.Exceptions.{
  Exc, ExcType, ErrorData, Registry, Deserialized, instance_of, get_module_path, serialize,
  deserialize, safe_args,
}
use nameko_zh_cn.Exceptions.Wire.Trip.{IsPlain, deserialize-serialize}
use nameko_zh_cn.Rpc.Effects.{Payload, published, acked, ok}
use nameko_zh_cn.Rpc.Server.{Env, Message, handle_result}
use nameko_zh_cn.Rpc.Server.Answers.{IsSendable, reply_of, handle_result_replies_once}
use nameko_zh_cn.Rpc.Client.{has_key_left, result, returned, raised}

-- `wire p` is what the caller's serializer reads of the text that the service's makes of `p`.
module _ (env : Env) (wire : Payload → Payload) (m : Message) (serializer reply_to : Str)
    (construct : ExcType → List Value → Option Exc) (registry : Registry) where
  -- The value that a worker returns, if it can be encoded and its reply is decoded to what was encoded,
  -- is what the caller's `result` returns.
  pub value_crosses :
      (v : Option Value)
      → IsSendable env m serializer reply_to
      → env.dumps v serializer ≡ none
      → wire (record { result = v; error = none }) ≡ record { result = v; error = none }
      → (p : Payload) × (handle_result env m v none []
          ≡ (ok (v, none), published (reply_of env m serializer reply_to p) ∷ acked m.ident ∷ []))
        × (result construct registry (some (some (wire p))) ≡ returned v)
  unfolding result
  value_crosses v a encodes back =
      let (p, handed, sent, expected) =
        handle_result_replies_once env m serializer reply_to v none none a refl in
      let (e, h) = rw encodes at expected in
      (
        p,
        sent ∙ ground arith,
        ap (λ (q : Payload). result construct registry (some (some q))) (ap wire e ∙ back),
      )

  has_key_left-serialize :
      (e : Exc) {d : ErrorData}
      → serialize env.text_type env.exc_text e ≡ some d
      → has_key_left d ≡ true
  unfolding serialize has_key_left
  has_key_left-serialize e {d} h = elim (Option-cases (safe_args env.text_type e.args)) [
    | inl s ↦ absurd (cc (rw s at h))
    | inr (args, s) ↦ subst (λ d. has_key_left d ≡ true) (some-injective _ _ (rw s at h)) refl
  ]

  serialized :
      (e : Exc) {x : Deserialized}
      → (serialize env.text_type env.exc_text e >>= deserialize construct registry) ≡ some x
      → (d : ErrorData) × (serialize env.text_type env.exc_text e ≡ some d)
        × (deserialize construct registry d ≡ some x)
  serialized e h = elim (Option-cases (serialize env.text_type env.exc_text e)) [
    | inl s ↦ absurd (cc (rw s at h))
    | inr (d, s) ↦ (d, s, rw s at h)
  ]

  -- The reply with an exception whose arguments are made of texts, lists and dicts with texts for keys is
  -- decoded to what was encoded.
  abbrev pub CarriesErrors : Type 0
  CarriesErrors =
      (e : Exc) (d : ErrorData)
      → All IsPlain e.args
      → serialize env.text_type env.exc_text e ≡ some d
      → wire (record { result = none; error = some d }) ≡ record { result = none; error = some d }

  -- The exception that a worker raises is the exception that the caller's `result` raises, if its
  -- class is registered and keeps its arguments, and these are made of texts, lists and dicts with
  -- distinct texts for keys: no numbers, which arrive as texts. The request has a reply address and a
  -- known content type, replies can be published, None can be encoded, the connection lives, and the
  -- serializer of the reply gives back what it was given.
  pub exception_crosses :
      (e : Exc)
      → IsSendable env m serializer reply_to
      → env.dumps none serializer ≡ none
      → get (get_module_path e.exc_type) registry ≡ some e.exc_type
      → construct e.exc_type e.args ≡ some e
      → All IsPlain e.args
      → CarriesErrors
      → (p : Payload) × (handle_result env m none (some e) [] ≡ (
        ok (none, some e),
        published (reply_of env m serializer reply_to p) ∷ acked m.ident ∷ [],
      ))
        × (result construct registry (some (some (wire p))) ≡ raised (instance_of e))
  unfolding result
  exception_crosses e a encodes known keeps plain_args carries =
      let (d, s, back) = serialized e (
        deserialize-serialize env.text_type env.exc_text construct registry e known keeps
          plain_args) in
      let (p, handed, sent, expected) =
        handle_result_replies_once env m serializer reply_to none (some e) (some d) a
          (s, d, refl) in
      let (eq, h) = rw encodes at expected in
      (
        p,
        sent ∙ ground arith,
        ap (λ (q : Payload). result construct registry (some (some q)))
              (ap wire eq ∙ carries e d plain_args s)
            ∙ rw (back, has_key_left-serialize e s) refl,
      )
