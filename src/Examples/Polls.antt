-- ===== src/Examples/Polls.antt =====
-- The theorems of Standalone at two calls whose replies arrive out of order, with a lost connection
-- between.
use nameko_zh_cn.Base.{
  ℕ, Str, codes, ◌≡◌, ◌≢◌, refl, true, none, some, List, [], ◌∷◌, ◌++◌, get, put, str_keys, str_eq,
}
use nameko_zh_cn.Values.{str}
use nameko_zh_cn.Rpc.Effects.{Payload}
use nameko_zh_cn.Standalone.{
  disconnect, Failure, Arrival, Drained, delivered, failed, Client, new_client, register_provider,
  get_reply_event, setup_consumer, set_event, pending, returned, wait, id_keys, id_eq,
}
use nameko_zh_cn.Standalone.Polled.{IsKeyed, Awaits, expected}
use nameko_zh_cn.Standalone.Crossing.{delivery, polled_value_crosses}
use nameko_zh_cn.Exceptions.{imported}
use nameko_zh_cn.Rpc.Effects.{published, acked, ok}
use nameko_zh_cn.Rpc.Server.{handle_result}
use nameko_zh_cn.Rpc.Server.Answers.{reply_of}
use nameko_zh_cn.Rpc.Client
use nameko_zh_cn.Examples.Exceptions.{construct}
use nameko_zh_cn.Examples.Rpc.{env, request, request-IsSendable, four}
use nameko_zh_cn.Standalone.Waits.{Polled, IsIdle, wait_refines, reply_ends_wait}

abbrev first_id : Str
first_id = codes "1f"

abbrev second_id : Str
second_id = codes "2f"

abbrev reply_body : Payload
reply_body = record { result = some (str (codes "done")); error = none }

abbrev reply_to : ℕ → Str → Arrival
reply_to n c = record { ident = n; correlation_id = some c; body = reply_body; acking = none }

abbrev lost : Failure
lost = record { trouble = disconnect; setup = none }

-- The reply to the second call, a lost connection, the reply to the first call.
abbrev before : List Drained
before = delivered (reply_to 1 second_id ∷ []) ∷ failed lost ∷ []

abbrev deliveries : List Drained
deliveries = before ++ delivered (reply_to 2 first_id ∷ []) ∷ []

abbrev client : Client
client = (get_reply_event second_id (get_reply_event first_id (register_provider new_client)).1).1

client-IsKeyed : IsKeyed client
unfolding get_reply_event register_provider setup_consumer set_event get
client-IsKeyed = record { own = λ k a h. cc }

first-Awaits : Awaits 0 first_id client
unfolding get_reply_event register_provider setup_consumer set_event get put str_eq
first-Awaits = record { held = refl; clear = refl }

wait_refines_example :
    Polled 0 first_id deliveries client
      (wait 0 first_id true deliveries client)
      (returned reply_body)
unfolding get_reply_event register_provider setup_consumer set_event get expected id_eq str_eq
wait_refines_example = wait_refines 0 first_id deliveries client client-IsKeyed first-Awaits refl

reply_ends_wait_example :
    let outcome = (wait 0 first_id true deliveries client).0.0 in
    (outcome ≢ pending)
    × (get (some first_id) client.replies ≡ none
        → IsIdle first_id before
        → outcome ≡ returned reply_body)
unfolding get_reply_event register_provider setup_consumer set_event get id_eq str_eq
reply_ends_wait_example =
    reply_ends_wait 0 first_id before [] (reply_to 2 first_id ∷ []) (reply_to 2 first_id) client
      client-IsKeyed first-Awaits refl refl refl

-- The client waits for the reply to the request, and another reply comes before it.
abbrev polling : Client
polling = (get_reply_event (codes "c1") (register_provider new_client)).1

polling-IsKeyed : IsKeyed polling
unfolding get_reply_event register_provider setup_consumer set_event get
polling-IsKeyed = record { own = λ k a h. cc }

polling-Awaits : Awaits 0 (codes "c1") polling
unfolding get_reply_event register_provider setup_consumer set_event get put str_eq
polling-Awaits = record { held = refl; clear = refl }

polled_value_crosses_example :
    (body : Payload) × (handle_result env request four none [] ≡ (
      ok (four, none),
      published (reply_of env request (codes "json") (codes "q") body) ∷ acked 5 ∷ [],
    ))
    × (let reply = delivery (λ p. p) 9 (reply_of env request (codes "json") (codes "q") body) in
        (wait 0 (codes "c1") true (before ++ delivered (reply ∷ []) ∷ []) polling).0.0
        ≡ returned body)
    × (Client.result construct imported (some (some body)) ≡ Client.returned four)
unfolding get_reply_event register_provider setup_consumer set_event get id_eq str_eq
polled_value_crosses_example =
    polled_value_crosses env (λ p. p) request (codes "json") (codes "q") construct imported four 9 0
      (codes "c1") before [] polling request-IsSendable refl refl refl polling-IsKeyed
      polling-Awaits refl refl (refl, refl, (refl, refl, tt))
