-- ===== src/Examples/Consumers.antt =====
-- The theorem of Consume at a worker whose method raises.
use nameko_zh_cn.Base.{codes, ◌≡◌, true, none, [], ◌∷◌, refl}
use nameko_zh_cn.Values.{str}
use nameko_zh_cn.Lifecycle.{Provider, raised}
use nameko_zh_cn.Rpc.Effects.{spawned, requeued}
use nameko_zh_cn.Consume.Settled.{worker_call, consumed, all_none, message_is_settled}
use nameko_zh_cn.Examples.Rpc.{env, request}
use nameko_zh_cn.Examples.Exceptions.{no_such_method}

abbrev database : Provider
database = record {
  attr_name = codes "db";
  get_dependency = none;
  worker_setup = none;
  worker_result = none;
  worker_teardown = none;
}

message_is_settled_example :
    consumed env true
      (codes "spam")
      (str (codes "payload"))
      request
      (database ∷ [])
      (raised no_such_method)
    ≡ spawned (worker_call env true (codes "spam") (str (codes "payload")) request)
      ∷ requeued 5
      ∷ []
unfolding all_none
message_is_settled_example =
    message_is_settled env true (codes "spam") (str (codes "payload")) request (database ∷ [])
      (raised no_such_method) refl refl
