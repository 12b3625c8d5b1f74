-- ===== src/Timer/Schedule.antt =====
-- nameko/timer.py: a timer whose workers are quick keeps its schedule.
use native.Mathlib.Nat.{suc-mul}
use nameko_zh_cn.Base.{
  ℕ, zero, suc, ◌+◌, ◌-◌, ◌*◌, ◌≤◌, ◌<◌, ◌≡◌, sym, ap, ◌∙◌, Bool, some, List, [], ◌∷◌, length,
  get_elem?, All, arith,
}
use nameko_zh_cn.Timer.{sleep_time, ticks, first_count, run}

on_time :
    (start interval count now k : ℕ) (workers : List ℕ)
    → All (λ w. w ≤ interval) workers
    → now ≤ start + count * interval
    → k < length workers
    → get_elem? (ticks start interval count now workers) k ≡ some (start + (count + k) * interval)
unfolding ticks sleep_time
on_time start interval count now k [] quick early h = absurd (omega arith)
on_time start interval count now zero (w ∷ ws) quick early h =
    let same : count + 0 ≡ count = omega arith in
    ap some (
      let tick : now + ((start + count * interval) - now) ≡ start + count * interval =
        omega arith in
      tick ∙ ap (λ c. start + c * interval) (sym same))
on_time start interval count now (suc k) (w ∷ ws) (slow, quick) early h =
    let tick = now + ((start + count * interval) - now) in
    let at : tick ≡ start + count * interval = omega arith in
    let more : suc count * interval ≡ count * interval + interval =
      suc-mul count interval ∙ omega arith in
    let shift : suc count + k ≡ count + suc k = omega arith in
    on_time start interval (suc count) (tick + w) k ws quick (omega arith) (omega arith)
    ∙ ap (λ c. some (start + c * interval)) shift

-- If no worker takes longer than the interval, tick number k comes exactly k intervals after the
-- start of an eager timer, and k + 1 intervals after that of another: the time that the workers take
-- does not add up.
pub timer_keeps_schedule :
    (eager : Bool) (interval start k : ℕ) (workers : List ℕ)
    → All (λ w. w ≤ interval) workers
    → k < length workers
    → get_elem? (run eager interval start workers) k
      ≡ some (start + (first_count eager + k) * interval)
unfolding run
timer_keeps_schedule eager interval start k workers quick h =
    on_time start interval (first_count eager) start k workers quick (omega arith) h
