-- ===== src/Examples/Containers.antt =====
-- Runs of the model of a container.
use nameko_zh_cn.Base.{◌≡◌, refl, true, false, Option, none, some, List, [], ◌∷◌, All}
use nameko_zh_cn.Exceptions.{Exc, method_not_found}
use nameko_zh_cn.Lifecycle.{failed}
use nameko_zh_cn.Eventlet.{EventApi, slot}
use nameko_zh_cn.Container.{
  System, Action, call_stop, call_kill, worker_exited, run_greenlet, returned, run,
}
use nameko_zh_cn.Container.Turns.{IsFair}
use nameko_zh_cn.Container.Death.{NoStart, container_dies_once}
use nameko_zh_cn.Container.Failure.{failed_worker_kills}

abbrev events : EventApi (Option Exc)
events = slot (Option Exc)

abbrev boom : Exc
boom = record { exc_type = method_not_found; args = []; about = none }

live : System events
unfolding slot
live = record {
  container = record {
    started = true;
    being_killed = false;
    died = none;
    worker_threads = [];
    managed_threads = [];
  };
  greenlets = [];
}

-- `stop` and `kill` race: `kill` overtakes.
abbrev race : List (Action events)
race =
    call_stop
    ∷ call_kill (some boom)
    ∷ run_greenlet 0 false
    ∷ run_greenlet 1 false
    ∷ run_greenlet 1 false
    ∷ run_greenlet 0 false
    ∷ run_greenlet 1 false
    ∷ run_greenlet 1 false
    ∷ run_greenlet 1 false
    ∷ run_greenlet 0 false
    ∷ []

container_dies_once_example :
    All
      (IsFair (events.ready (run events race live).container.died))
      (run events race live).greenlets
    × (NoStart events race
        → events.ready (run events race live).container.died ≡ true
        → (run events race live).container.started ≡ false)
unfolding live slot
container_dies_once_example = container_dies_once events race live (refl, refl)

failed_worker_kills_example :
    let t =
      run events
        (worker_exited 3 (failed boom)
          ∷ run_greenlet 0 false
          ∷ run_greenlet 0 true
          ∷ run_greenlet 0 false
          ∷ run_greenlet 0 true
          ∷ run_greenlet 0 false
          ∷ [])
        live in
    (events.outcome t.container.died ≡ some (some boom))
    × (t.container.started ≡ false)
    × (t.greenlets ≡ returned ∷ [])
unfolding live slot
failed_worker_kills_example =
    failed_worker_kills events live 3 boom false true false true false refl refl refl
