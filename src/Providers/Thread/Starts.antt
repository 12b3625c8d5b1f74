-- ===== src/Providers/Thread/Starts.antt =====
-- nameko/messaging.py, QueueConsumer: how its thread starts, and which starts return.
use nameko_zh_cn.Base.{◌≡◌, true, false, ◌⊎◌, ◌≢◌}
use nameko_zh_cn.Eventlet.{EventApi}
use nameko_zh_cn.Providers.Thread.{
  ThreadExit, killed, Ready, Thread, not_started, running, dead, ConsumerThread,
}

module _ (api : EventApi Ready) where
  open api use {Event, ready, outcome, ready-new, ready-eq-outcome, send_once}

  record IsSound (s : ConsumerThread api) : Type 0 where
    phase :
        ((s.gt ≡ not_started)
          × (s.starting ≡ false)
          × (s.spawned ≡ 0)
          × (ready s.consumers_ready ≡ false))
        ⊎ ((s.gt ≡ running) × (s.starting ≡ true) × (s.spawned ≡ 1))
        ⊎ ((e : ThreadExit) × (s.gt ≡ dead e)
            × (s.starting ≡ true)
            × (s.spawned ≡ 1)
            × (e ≢ killed → ready s.consumers_ready ≡ true))

  -- A waiting start goes on, once its thread was started, unless GreenletExit ended it.
  abbrev Released : ConsumerThread api → Type 0
  Released s = s.spawned ≡ 1 → s.gt ≢ dead killed → ready s.consumers_ready ≡ true
