-- ===== src/Providers/Thread.antt =====
-- nameko/messaging.py, QueueConsumer: the start, stop and kill of its thread, and the event that the
-- start waits for. What the thread runs is kombu's ConsumerMixin: its calls of on_consume_ready and
-- its end are turns of their own.
pub mod Starts
use nameko_zh_cn.Base.{
  ℕ, zero, suc, ◌≤◌, ◌≡◌, refl, sym, ap, ◌∙◌, subst, Bool, true, false, not, ◌&&◌, Option, none,
  some, ◌>>=◌, is_some, List, [], ◌∷◌, if◌then◌else◌, Bool-cases, Option-cases, inl, inr, ◌⊎◌, ◌≢◌,
  arith,
}
use nameko_zh_cn.Exceptions.{Exc}
use nameko_zh_cn.Eventlet.{EventApi}

-- How the thread ends: it returns, is killed with GreenletExit, which is no Exception, or raises
-- QueueConsumerStopped or another exception.
pub data ThreadExit : Type 0 where
  finished killed stopped : ThreadExit
  failed : Exc → ThreadExit

-- What is sent to `_consumers_ready`: None, or the exception of the thread, if it had one.
pub data Ready : Type 0 where
  consuming : Ready
  exited : ThreadExit → Ready

-- What QueueConsumer._handle_thread_exited sends; a GreenletExit of `gt.wait()` leaves it.
unfoldable pub tells : ThreadExit → Option Ready
tells finished = some (exited finished)
tells killed = none
tells stopped = some (exited stopped)
tells (failed e) = some (exited (failed e))

pub data Thread : Type 0 where
  not_started running : Thread
  dead : ThreadExit → Thread

-- A call of start or stop, up to its wait, and a turn of the thread.
pub data Act : Type 0 where
  starts stops consumes : Act
  exits : ThreadExit → Act

-- What a call of `stop` comes to: the wait for its providers, or an AttributeError.
pub data Stopping : Type 0 where
  waits attribute_error : Stopping

-- How `start` goes on, and how `stop` ends once its providers are gone: it waits, returns, or raises
-- GreenletExit or another exception.
pub data Waited : Type 0 where
  blocked returns exits_too : Waited
  raises : Exc → Waited

module _ (api : EventApi Ready) where
  open api use {Event, new, ready, send, outcome, ready-new, ready-eq-outcome, send_once}

  pub record ConsumerThread : Type 0 where
    pub starting : Bool
    pub gt : Thread
    pub consumers_ready : Event
    pub spawned : ℕ

  abbrev pub new_thread : ConsumerThread
  new_thread = record { starting = false; gt = not_started; consumers_ready = new; spawned = 0 }

  -- `none` is the AssertionError of a second send.
  send_ready : Ready → ConsumerThread → Option ConsumerThread
  send_ready r s = elim (send s.consumers_ready r) [
    | none ↦ none
    | some e ↦ some (record s { consumers_ready = e })
  ]

  -- if not self._consumers_ready.ready(): ...
  unless_ready : Ready → ConsumerThread → Option ConsumerThread
  unfolding send_ready
  unless_ready r s = if ready s.consumers_ready then some s else send_ready r s

  -- The end of the thread, with QueueConsumer._handle_thread_exited, which is linked to it.
  thread_exits : ThreadExit → Thread → ConsumerThread → Option ConsumerThread
  unfolding unless_ready tells
  thread_exits e running s = elim (tells e) [
    | none ↦ some (record s { gt = dead e })
    | some r ↦ unless_ready r (record s { gt = dead e })
  ]
  thread_exits e not_started s = some s
  thread_exits e (dead x) s = some s

  -- QueueConsumer.on_consume_ready
  on_consume_ready : Thread → ConsumerThread → Option ConsumerThread
  unfolding unless_ready
  on_consume_ready running s = unless_ready consuming s
  on_consume_ready not_started s = some s
  on_consume_ready (dead x) s = some s

  -- QueueConsumer.start, up to its wait
  start_call : ConsumerThread → ConsumerThread
  start_call s =
      if s.starting then s else record s { starting = true; gt = running; spawned = suc s.spawned }

  -- self._gt.kill(stop_exc): None has no `kill`, and a thread that has ended is left alone
  unfoldable pub kill_thread : Thread → ConsumerThread → Option (Stopping × ConsumerThread)
  unfolding thread_exits
  kill_thread not_started s = some (attribute_error, s)
  kill_thread running s = thread_exits stopped running s >>= λ s'. some (waits, s')
  kill_thread (dead x) s = some (waits, s)

  -- QueueConsumer.stop, up to its wait for the providers
  unfoldable pub stop_call : ConsumerThread → Option (Stopping × ConsumerThread)
  unfolding kill_thread
  stop_call s =
      let killed = kill_thread s.gt s in if ready s.consumers_ready then some (waits, s) else killed

  unfoldable pub step : Act → ConsumerThread → Option ConsumerThread
  unfolding start_call stop_call on_consume_ready thread_exits
  step starts s = some (start_call s)
  step stops s = stop_call s >>= λ r. some r.1
  step consumes s = on_consume_ready s.gt s
  step (exits e) s = thread_exits e s.gt s

  unfoldable pub run : List Act → ConsumerThread → Option ConsumerThread
  unfolding step
  run [] s = some s
  run (a ∷ acts) s = step a s >>= run acts

  -- `self._consumers_ready.wait()` of start: whatever it raises is logged.
  unfoldable pub start_waits : ConsumerThread → Waited
  start_waits s = elim (outcome s.consumers_ready) [ none ↦ blocked | some r ↦ returns ]

  -- `self._gt.wait()` of stop
  unfoldable pub stop_waits : Thread → Waited
  stop_waits not_started = blocked
  stop_waits running = blocked
  stop_waits (dead finished) = returns
  stop_waits (dead killed) = exits_too
  stop_waits (dead stopped) = returns
  stop_waits (dead (failed e)) = raises e
