-- ===== src/Examples/Leavings.antt =====
-- The theorems of Rpc.Consumer at two providers.
use nameko_zh_cn.Base.{
  codes, ◌≡◌, refl, true, false, none, some, List, [], ◌∷◌, contains, add, nat_eq,
}
use nameko_zh_cn.Eventlet.{slot}
use nameko_zh_cn.Rpc.Consumer.{
  Turn, asks, removed, wakes, RpcConsumer, new_consumer, setup, all_in, run,
}
use nameko_zh_cn.Rpc.Consumer.Leaving.{unregisters, leaves_queue_once}
use nameko_zh_cn.Examples.Providers.{events, collector, collector-IsCollecting}

abbrev consumer : RpcConsumer events
consumer = record (setup events none (codes "math") (new_consumer events)) { collector = collector }

-- The first asks, the second asks, the queue consumer is done, the first wakes.
abbrev turns : List Turn
turns = asks 1 ∷ wakes 1 ∷ asks 2 ∷ removed 2 ∷ wakes 1 ∷ []

leaves_queue_once_example :
    (s' : RpcConsumer events) × (run events turns consumer ≡ some s')
    × (unregisters s'.queue_calls ≡ 1)
    × (true ≡ false → s'.collector.providers ≡ 1 ∷ 2 ∷ [])
unfolding setup all_in contains slot add
leaves_queue_once_example =
    leaves_queue_once events turns consumer collector-IsCollecting refl refl refl refl refl
      ((refl, refl), (tt, ((refl, refl), (tt, (tt, tt)))))
