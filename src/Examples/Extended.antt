-- ===== src/Examples/Extended.antt =====
-- The theorems of Extensions at a service with an RpcProxy and a method with an rpc entrypoint, which
-- both use the one QueueConsumer.
use nameko_zh_cn.Base.{
  Str, codes, ◌≡◌, refl, true, false, none, some, List, [], ◌∷◌, get, put, nat_eq, is_some, has_key,
}
use nameko_zh_cn.Extensions.{
  Prototype, prototype, no_members, member, Instance, instance_of, no_bound, bound_member,
  Container, init, extensions, first_raised, start_extensions,
}
use nameko_zh_cn.Extensions.Sharing.{IsFlat}
use nameko_zh_cn.Extensions.Objects.{shared_once}
use nameko_zh_cn.Extensions.Started.{Starts, holds, container-Starts}

abbrev queue_consumer : Prototype
queue_consumer = prototype 1 true false no_members

-- RpcProxy, ReplyListener, Rpc and RpcConsumer
abbrev rpc_proxy : Prototype
rpc_proxy = prototype 2 false false (
    member (codes "rpc_reply_listener")
      (prototype 3 true false (member (codes "queue_consumer") queue_consumer no_members))
      no_members)

abbrev rpc : Prototype
rpc = prototype 4 false false (
    member (codes "rpc_consumer")
      (prototype 5 true false (member (codes "queue_consumer") queue_consumer no_members))
      no_members)

abbrev attrs : List (Str × Prototype)
attrs = (codes "other", rpc_proxy) ∷ []

abbrev methods : List (Str × Prototype)
methods = (codes "spam", rpc) ∷ []

abbrev consumer : Instance
consumer = instance_of 1 true 2 no_bound

abbrev listener : Instance
listener = instance_of 3 true 1 (bound_member (codes "queue_consumer") consumer no_bound)

abbrev rpc_consumer : Instance
rpc_consumer = instance_of 5 true 4 (bound_member (codes "queue_consumer") consumer no_bound)

abbrev proxy : Instance
proxy = instance_of 2 false 0 (bound_member (codes "rpc_reply_listener") listener no_bound)

abbrev entrypoint : Instance
entrypoint = instance_of 4 false 3 (bound_member (codes "rpc_consumer") rpc_consumer no_bound)

abbrev container : Container
container = record {
  entrypoints = (3, entrypoint) ∷ [];
  dependencies = (0, proxy) ∷ [];
  subextensions = (2, consumer) ∷ (1, listener) ∷ (4, rpc_consumer) ∷ [];
  names = (0, codes "other") ∷ (3, codes "spam") ∷ [];
  binder = record {
    shared_extensions = (1, consumer) ∷ (3, listener) ∷ (5, rpc_consumer) ∷ [];
    next_ref = 5;
  };
}

init_makes : init attrs methods ≡ some container
unfolding init get put
init_makes = refl

shared_once_example : consumer ≡ consumer
unfolding extensions IsFlat get put
shared_once_example =
    shared_once attrs methods container 2 2 consumer consumer
      ((refl, ((refl, ((refl, tt), tt)), tt)), tt) ((refl, ((refl, ((refl, tt), tt)), tt)), tt)
      init_makes refl refl refl refl refl

container-Starts_example :
    Starts
      (λ r. holds r container)
      (is_some (first_raised (λ r. none) (extensions container)))
      (start_extensions (λ r. none) (λ r. none) container).0
unfolding has_key
container-Starts_example = container-Starts (λ r. none) (λ r. none) container (refl, tt)
