-- ===== src/Examples/Workers.antt =====
-- Runs of the model of a worker's life.
use nameko_zh_cn.Base.{codes, ◌≡◌, refl, Option, none, some, [], ◌∷◌}
use nameko_zh_cn.Exceptions.{Exc, method_not_found}
use nameko_zh_cn.Lifecycle.{
  Provider, Outcome, injected, set_up, raised, Handling, gives, run_worker, end_with, failed,
}
use nameko_zh_cn.Lifecycle.Order.{Part, whole, run_worker_order}

abbrev boom : Exc
boom = record { exc_type = method_not_found; args = []; about = none }

abbrev quiet : Provider
quiet = record {
  attr_name = codes "db";
  get_dependency = none;
  worker_setup = none;
  worker_result = none;
  worker_teardown = none;
}

-- A provider whose `worker_setup` raises.
abbrev broken : Provider
broken = record {
  attr_name = codes "cache";
  get_dependency = none;
  worker_setup = some boom;
  worker_result = none;
  worker_teardown = none;
}

abbrev replies : Option (Outcome → Handling)
replies = some (λ out. gives out)

run_worker_order_example :
    Part
      (whole (quiet ∷ broken ∷ []) (raised boom) replies)
      []
      (run_worker (quiet ∷ broken ∷ []) (raised boom) replies [])
run_worker_order_example = run_worker_order (quiet ∷ broken ∷ []) (raised boom) replies

broken_stops : run_worker (quiet ∷ broken ∷ []) (raised boom) replies [] ≡ (
  end_with (failed boom),
  injected (codes "db")
      ∷ injected (codes "cache")
      ∷ set_up (codes "db")
      ∷ set_up (codes "cache")
      ∷ [],
)
unfolding run_worker
broken_stops = refl
