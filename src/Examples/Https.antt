-- ===== src/Examples/Https.antt =====
-- The theorems of Web at a worker that returns a status and a text, and one that raises.
use nameko_zh_cn.Base.{codes, ◌≡◌, false, none, some, [], ◌∷◌}
use nameko_zh_cn.Values.{Value, str}
use nameko_zh_cn.Rpc.Effects.{spawned, ok}
use nameko_zh_cn.Web.{given, tuple, Request, call_of, handle_request, response_from_result}
use nameko_zh_cn.Web.Responses.{request_is_answered}
use nameko_zh_cn.Examples.Rpc.{env}

abbrev get_spam : Request
get_spam = record { request = Value.atom 1; path_values = [] }

abbrev created : Value
created = Value.atom 201

request_is_answered_example :
    handle_request env
      (λ e. false)
      (λ r. none)
      (λ call. some (ok (tuple (created ∷ (str (codes "spam") ∷ [])))))
      (codes "get")
      get_spam
      []
    ≡ (
      ok (some (record { payload = codes "spam"; status = given created; headers = none })),
      spawned (call_of (codes "get") get_spam) ∷ [],
    )
unfolding response_from_result
request_is_answered_example =
    request_is_answered env (λ e. false) (λ r. none)
      (λ call. some (ok (tuple (created ∷ (str (codes "spam") ∷ []))))) (codes "get") get_spam []
