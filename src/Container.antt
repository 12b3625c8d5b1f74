-- ===== src/Container.antt =====
-- nameko/containers.py, ServiceContainer: its state, its `start`, and `stop`, `kill` and the threads' exits as
-- greenlets that run by turns. A greenlet gives way where it calls its extensions, waits for the
-- worker pool, kills threads or waits for `_died`; between these places it runs alone.
pub mod Turns
pub mod Death
pub mod Failure
use nameko_zh_cn.Base.{
  ℕ, Bool, true, false, Option, none, some, List, [], ◌∷◌, ◌++◌, ◌==◌, set, get_elem?,
  if◌then◌else◌, nat_eq, discard,
}
use nameko_zh_cn.Exceptions.{Exc}
use nameko_zh_cn.Lifecycle.{Exit, finished, failed, exited}
use nameko_zh_cn.Eventlet.{EventApi}

-- Where a greenlet that runs `stop` is: the call that it waits for.
pub data Stopping : Type 0 where
  entrypoints workers dependencies subextensions managed : Stopping

-- Where a greenlet that runs `kill` is.
pub data Killing : Type 0 where
  entrypoints workers extensions managed : Killing

pub data Greenlet : Type 0 where
  stop_called : Greenlet
  stop_waiting : Greenlet
  stopping : Stopping → Greenlet
  kill_called : Option Exc → Greenlet
  kill_waiting : Greenlet
  killing : Killing → Option Exc → Greenlet
  returned : Greenlet
  raised : Greenlet
  assertion_error : Greenlet

abbrev pub is_empty : List ℕ → Bool
is_empty [] = true
is_empty (x ∷ xs) = false

module _ (api : EventApi (Option Exc)) where
  open api use {Event, ready, send}

  -- `_died` is sent None, or the exception that `wait` is to raise.
  pub record Container : Type 0 where
    pub started : Bool
    pub being_killed : Bool
    pub died : Event
    pub worker_threads : List ℕ
    pub managed_threads : List ℕ

  -- if not self._died.ready(): self._died.send(...)
  unfoldable pub send_death : Option Exc → Container → Greenlet × Container
  send_death result c = if ready c.died then (returned, c) else elim (send c.died result) [
    | none ↦ (assertion_error, c)
    | some died' ↦ (returned, record c { died = died' })
  ]

  -- The end of `stop` and of `kill`.
  unfoldable pub die : Option Exc → Container → Greenlet × Container
  unfolding send_death
  die result c = send_death result (record c { started = false })

  -- What `stop` does up to its first call, and from one call to the next. An extension's `stop`
  -- that raises ends it. `self._worker_pool.waitall()` returns when no worker is left.
  unfoldable pub stop_from : Bool → Stopping → Container → Greenlet × Container
  unfolding die
  stop_from fails Stopping.entrypoints c = (if fails then raised else stopping Stopping.workers, c)
  stop_from fails Stopping.workers c =
      (if is_empty c.worker_threads then stopping dependencies else stopping Stopping.workers, c)
  stop_from fails dependencies c = (if fails then raised else stopping subextensions, c)
  stop_from fails subextensions c = (if fails then raised else stopping Stopping.managed, c)
  stop_from fails Stopping.managed c = die none c

  unfoldable pub stop : Container → Greenlet × Container
  stop c =
      if ready c.died
      then (returned, c)
      else if c.being_killed
      then (stop_waiting, c)
      else (stopping Stopping.entrypoints, c)

  -- An extension's `kill` that raises is logged, and `kill` goes on.
  unfoldable pub kill_from : Bool → Killing → Option Exc → Container → Greenlet × Container
  unfolding die
  kill_from fails Killing.entrypoints e c = (killing Killing.workers e, c)
  kill_from fails Killing.workers e c = (killing extensions e, c)
  kill_from fails extensions e c = (killing Killing.managed e, c)
  kill_from fails Killing.managed e c = die e c

  unfoldable pub kill : Option Exc → Container → Greenlet × Container
  kill e c =
      if c.being_killed
      then (kill_waiting, c)
      else let c' = record c { being_killed = true } in
        if ready c'.died then (returned, c') else (killing Killing.entrypoints e, c')

  -- One turn of a greenlet. The Boolean says whether the extensions that it called raise.
  unfoldable pub turn : Bool → Greenlet → Container → Greenlet × Container
  unfolding stop stop_from kill kill_from
  turn fails stop_called c = stop c
  turn fails stop_waiting c = (if ready c.died then returned else stop_waiting, c)
  turn fails (stopping at) c = stop_from fails at c
  turn fails (kill_called e) c = kill e c
  turn fails kill_waiting c = (if ready c.died then returned else kill_waiting, c)
  turn fails (killing at e) c = kill_from fails at e c
  turn fails returned c = (returned, c)
  turn fails raised c = (raised, c)
  turn fails assertion_error c = (assertion_error, c)

  pub record System : Type 0 where
    pub container : Container
    pub greenlets : List Greenlet

  pub data Action : Type 0 where
    call_start : Action
    call_stop : Action
    call_kill : Option Exc → Action
    spawn_worker : ℕ → Action
    spawn_managed_thread : ℕ → Action
    worker_exited : ℕ → Exit → Action
    managed_exited : ℕ → Exit → Action
    run_greenlet : ℕ → Bool → Action

  -- None, or the ContainerBeingKilled of `spawn_worker`.
  unfoldable pub spawn : ℕ → Container → Option Container
  spawn ctx c =
      if c.being_killed then none else some (record c { worker_threads = ctx ∷ c.worker_threads })

  -- `_handle_thread_exited`: an Exception kills the container, in the thread that exits.
  unfoldable pub handle_thread_exited : Exit → List Greenlet → List Greenlet
  handle_thread_exited finished gs = gs
  handle_thread_exited exited gs = gs
  handle_thread_exited (failed e) gs = gs ++ kill_called (some e) ∷ []

  unfoldable pub run_at : ℕ → Bool → Option Greenlet → System → System
  unfolding turn
  run_at i fails none s = s
  run_at i fails (some g) s =
      let (g', c') = turn fails g s.container in
      record { container = c'; greenlets = set s.greenlets i g' }

  unfoldable pub spawned : Option Container → System → System
  spawned none s = s
  spawned (some c) s = record s { container = c }

  -- What `start` does to the container itself, at any time.
  abbrev pub start : Container → Container
  start c = record c { started = true }

  unfoldable pub step : Action → System → System
  unfolding run_at spawn spawned handle_thread_exited discard
  step call_start s = record s { container = start s.container }
  step call_stop s = record s { greenlets = s.greenlets ++ stop_called ∷ [] }
  step (call_kill e) s = record s { greenlets = s.greenlets ++ kill_called e ∷ [] }
  step (spawn_worker ctx) s = spawned (spawn ctx s.container) s
  step (spawn_managed_thread gt) s = record s {
    container = record s.container { managed_threads = gt ∷ s.container.managed_threads };
  }
  step (worker_exited ctx e) s = record {
    container = record s.container { worker_threads = discard ctx s.container.worker_threads };
    greenlets = handle_thread_exited e s.greenlets;
  }
  step (managed_exited gt e) s = record {
    container = record s.container { managed_threads = discard gt s.container.managed_threads };
    greenlets = handle_thread_exited e s.greenlets;
  }
  step (run_greenlet i fails) s = run_at i fails (get_elem? s.greenlets i) s

  unfoldable pub run : List Action → System → System
  unfolding step
  run [] s = s
  run (a ∷ as_) s = run as_ (step a s)
