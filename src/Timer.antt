-- ===== src/Timer.antt =====
-- nameko/timer.py: the loop of Timer, and its end by stop. Times are whole numbers; how long the worker
-- of each tick takes is given, in order.
pub mod Schedule
pub mod Stopped
use Prim.Native.Nat.{max}
use nameko_zh_cn.Base.{
  ℕ, suc, ◌+◌, ◌-◌, ◌*◌, Bool, true, false, Option, none, some, List, [], ◌∷◌, leb, ltb, ◌||◌,
  if◌then◌else◌,
}

-- max(start_time + count * self.interval - time.time(), 0): the subtraction stops at 0.
unfoldable pub sleep_time : ℕ → ℕ → ℕ → ℕ → ℕ
sleep_time start_time interval count now = (start_time + count * interval) - now

-- The times of the ticks: each comes after its sleep, and the next sleep begins when the tick's
-- worker is complete.
unfoldable pub ticks : ℕ → ℕ → ℕ → ℕ → List ℕ → List ℕ
unfolding sleep_time
ticks start_time interval count now [] = []
ticks start_time interval count now (worker ∷ workers) =
    let tick = now + sleep_time start_time interval count now in
    tick ∷ ticks start_time interval (suc count) (tick + worker) workers

-- start = 0 if self.eager else 1
unfoldable pub first_count : Bool → ℕ
first_count true = 0
first_count false = 1

-- Timer._run, from the time that it is started
unfoldable pub run : Bool → ℕ → ℕ → List ℕ → List ℕ
unfolding ticks first_count
run eager interval start_time workers =
    ticks start_time interval (first_count eager) start_time workers

abbrev pub with_tick : ℕ → Option (List ℕ × ℕ) → Option (List ℕ × ℕ)
with_tick t none = none
with_tick t (some (ticks, end)) = some (t ∷ ticks, end)

-- Whether `should_stop` ends the sleep: it was sent to before, or it is sent to before the sleep's end.
unfoldable pub is_stopped : ℕ → ℕ → ℕ → Bool
is_stopped stop_at now wake = leb stop_at now || ltb stop_at wake

-- The loop of a timer that `stop` is called on: its ticks, and when its thread ends. none is a loop that goes on when the workers that are given are used up.
unfoldable pub ticks_until : ℕ → ℕ → ℕ → ℕ → ℕ → List ℕ → Option (List ℕ × ℕ)
unfolding sleep_time is_stopped
ticks_until stop_at start_time interval count now [] = none
ticks_until stop_at start_time interval count now (worker ∷ workers) =
    let wake = now + sleep_time start_time interval count now in
    let rest = ticks_until stop_at start_time interval (suc count) (wake + worker) workers in
    if is_stopped stop_at now wake then some ([], max now stop_at) else with_tick wake rest

-- When Timer.stop returns: it sends to `should_stop` and waits for the thread, which may have ended.
unfoldable pub stop : ℕ → ℕ → ℕ
stop stop_at end = max stop_at end

abbrev pub with_stop : ℕ → Option (List ℕ × ℕ) → Option (List ℕ × (ℕ × ℕ))
with_stop stop_at none = none
with_stop stop_at (some (ticks, end)) = some (ticks, (end, stop stop_at end))

-- Timer.start and Timer.stop: the ticks, when the thread ends, and when `stop` returns.
unfoldable pub run_until : ℕ → Bool → ℕ → ℕ → List ℕ → Option (List ℕ × (ℕ × ℕ))
unfolding ticks_until first_count stop
run_until stop_at eager interval start_time workers =
    with_stop stop_at
      (ticks_until stop_at start_time interval (first_count eager) start_time workers)
