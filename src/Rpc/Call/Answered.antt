-- ===== src/Rpc/Call/Answered.antt =====
-- nameko/rpc.py: a call's request reaches the method that it names, and its reply the call.
use nameko_zh_cn.Base.{
  ℕ, Str, ◌≡◌, ap, true, false, some, List, [], ◌∷◌, ◌++◌, Dict, str_eq, str_eq_iff, str_keys,
  contains, Bool-cases, inl, inr,
}
use nameko_zh_cn.Values.{Value}
use nameko_zh_cn.Headers.{Datum}
use nameko_zh_cn.Eventlet.{EventApi}
use nameko_zh_cn.Rpc.Effects.{ReplyBody, Effect, ok}
use nameko_zh_cn.Rpc.Server.{Env, get_provider_for_method}
use nameko_zh_cn.Rpc.Client.{Listener, Arrival}
use nameko_zh_cn.Rpc.Client.Listeners.{IsValid, get_reply_event-IsValid}
use nameko_zh_cn.Rpc.Client.Replies.{deliver, first_reply, replies_reach_their_calls}
use nameko_zh_cn.Rpc.Call.{Request, Publishing, confirmed, reply, called, request, call}

after_prefix : (p s t : Str) → (p ++ s) ≡ (p ++ t) → s ≡ t
after_prefix [] s t e = e
after_prefix (x ∷ p) s t e = after_prefix p s t cc

elsewhere :
    (service m method : Str) (methods : List Str)
    → str_eq (service ++ b'.' ∷ m) (service ++ b'.' ∷ method) ≡ false
    → contains method (m ∷ methods) ≡ true
    → contains method methods ≡ true
unfolding contains
elsewhere service m method methods differs h = elim (Bool-cases (str_eq m method)) [
  | inl q ↦
      let whole = ap (λ x. service ++ b'.' ∷ x) ((str_eq_iff m method).0 q) in
      absurd (cc (differs, (str_eq_iff _ _).1 whole))
  | inr q ↦ rw q at h
]

-- The routing key of a request leads, in a service of that name that has the method, to the method
-- and to no other.
pub request_finds_method :
    (env : Env) (service method reply_to correlation_id : Str) (args : List Value)
    (kwargs : Dict Str Value) (context_data : Dict Str Datum) (methods : List Str)
    (log : List Effect)
    → contains method methods ≡ true
    → get_provider_for_method env service
        (request service method reply_to correlation_id args kwargs context_data).routing_key
        methods
        log
      ≡ (ok method, log)
unfolding get_provider_for_method request contains
request_finds_method env service method rt c args kwargs ctx [] log h = cc
request_finds_method env service method rt c args kwargs ctx (m ∷ methods) log h =
    elim (Bool-cases (str_eq (service ++ b'.' ∷ m) (service ++ b'.' ∷ method))) [
      | inl same ↦
          let tail = after_prefix service (b'.' ∷ m) (b'.' ∷ method) ((str_eq_iff _ _).0 same) in
          let this : m ≡ method = cc in rw same (ap (λ x. (ok x, log)) this)
      | inr differs ↦ rw differs (
          request_finds_method env service method rt c args kwargs ctx methods log
            (elsewhere service m method methods differs h))
    ]

module _ (api : EventApi ReplyBody) (publish : Request → Publishing) where
  -- A call whose request the broker takes waits on an event of its own, and whatever replies come
  -- then, none of them raises, and the event gets the body of the first under the call's id.
  pub call_is_answered :
      (service method reply_to correlation_id : Str) (args : List Value) (kwargs : Dict Str Value)
      (context_data : Dict Str Datum) (l : Listener api) (replies : List (Arrival api))
      → IsValid api l
      → publish (request service method reply_to correlation_id args kwargs context_data)
        ≡ confirmed
      → let o =
          call api publish service method reply_to correlation_id args kwargs context_data l in
        (event : ℕ) × (o.0 ≡ reply event)
        × IsValid api o.1
        × (l' : Listener api) × (deliver api replies o.1 ≡ some l')
        × (api.outcome (l'.events event) ≡ first_reply api correlation_id replies)
  unfolding call called
  call_is_answered service method rt c args kwargs ctx l replies v taken =
      let (valid, waits) = get_reply_event-IsValid api c l v in
      let (l', run, out) = replies_reach_their_calls api replies _ c _ valid waits in
      (_, ap (called service _) taken, valid, l', run, out)
