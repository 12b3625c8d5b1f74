-- ===== src/Timer/Stopped.antt =====
-- nameko/timer.py: a timer that is stopped.
use Prim.Native.Nat.{max}
use native.Mathlib.Nat.{suc-mul}
use mathlib.Core.Option.{some-injective}
use nameko_zh_cn.Base.{
  ℕ, zero, suc, ◌+◌, ◌-◌, ◌*◌, ◌≤◌, ◌<◌, ◌≡◌, refl, ap, ◌∙◌, Bool, true, false, some, List, [], ◌∷◌,
  length, get_elem?, All, arith, if◌then◌else◌, Bool-cases, inl, inr,
}
use nameko_zh_cn.Timer.{
  sleep_time, ticks, first_count, run, is_stopped, with_tick, ticks_until, with_stop, stop,
  run_until,
}

abbrev pub take : ℕ → List ℕ → List ℕ
take zero xs = []
take (suc n) [] = []
take (suc n) (x ∷ xs) = x ∷ take n xs

-- How a timer that was stopped has ticked: it made the first ticks of its schedule, none of them after
-- the stop, and the next one would not come before the stop; and it ends no earlier than the stop.
pub record Stops (stop_at : ℕ) (all made : List ℕ) (end : ℕ) : Type 0 where
  pub number : ℕ
  pub first : made ≡ take number all
  pub before : All (λ t. t ≤ stop_at) made
  pub next : (t : ℕ) → get_elem? all number ≡ some t → stop_at ≤ t
  pub ends : stop_at ≤ end

stopped_facts :
    (stop_at now wake : ℕ) → now ≤ wake → is_stopped stop_at now wake ≡ true → stop_at ≤ wake
unfolding is_stopped
stopped_facts stop_at now wake h e = ground arith

going_facts : (stop_at now wake : ℕ) → is_stopped stop_at now wake ≡ false → wake ≤ stop_at
unfolding is_stopped
going_facts stop_at now wake e = ground arith

Stops-now :
    (stop_at now wake : ℕ) (rest : List ℕ)
    → stop_at ≤ wake
    → Stops stop_at (wake ∷ rest) [] (max now stop_at)
Stops-now stop_at now wake rest h = record {
  number = 0;
  first = refl;
  before = tt;
  next = λ t q. (let e : wake ≡ t = some-injective _ _ q in omega arith);
  ends = omega arith;
}

Stops-later :
    (stop_at wake : ℕ) (all made : List ℕ) (end : ℕ)
    → wake ≤ stop_at
    → Stops stop_at all made end
    → Stops stop_at (wake ∷ all) (wake ∷ made) end
Stops-later stop_at wake all made end h s = record {
  number = suc s.number;
  first = ap (λ ts. wake ∷ ts) s.first;
  before = (h, s.before);
  next = s.next;
  ends = s.ends;
}

if_true {ℓ} : {A : Type ℓ} {x : A} (y : A) (b : Bool) → b ≡ true → (if b then x else y) ≡ x
if_true y b e = rw e refl

if_false {ℓ} : {A : Type ℓ} {y : A} (x : A) (b : Bool) → b ≡ false → (if b then x else y) ≡ y
if_false x b e = rw e refl

-- A timer that is given workers beyond the stop, as counted by its interval.
stops :
    (stop_at start interval count now total : ℕ) (workers : List ℕ)
    → count + length workers ≡ total
    → start + count * interval ≤ stop_at + interval
    → stop_at + interval < start + total * interval
    → (made : List ℕ) × (end : ℕ) × (ticks_until stop_at start interval count now workers
        ≡ some (made, end))
      × Stops stop_at (ticks start interval count now workers) made end
unfolding ticks_until ticks sleep_time
stops stop_at start interval count now total [] n j h =
    let same : count ≡ total = omega arith in
    absurd (omega (arith, ap (λ (c : ℕ). c * interval) same))
stops stop_at start interval count now total (w ∷ ws) n j h =
    let wake = now + ((start + count * interval) - now) in
    elim (Bool-cases (is_stopped stop_at now wake)) [
      | inl e ↦ (
        [],
        max now stop_at,
        if_true _ (is_stopped stop_at now wake) e,
        Stops-now stop_at now wake _ (stopped_facts stop_at now wake (omega arith) e),
      )
      | inr e ↦
          let going = going_facts stop_at now wake e in
          let more : suc count * interval ≡ count * interval + interval =
            suc-mul count interval ∙ omega arith in
          let (made, end, ended, how) =
            stops stop_at start interval (suc count) (wake + w) total ws (omega arith) (omega arith)
              h in
          (
            wake ∷ made,
            end,
            if_false _ (is_stopped stop_at now wake) e ∙ ap (with_tick wake) ended,
            Stops-later stop_at wake _ made end going how,
          )
    ]

first_room :
    (eager : Bool) (interval start stop_at : ℕ)
    → start ≤ stop_at
    → start + first_count eager * interval ≤ stop_at + interval
unfolding first_count
first_room true interval start stop_at h = omega arith
first_room false interval start stop_at h = omega arith

-- A timer that is stopped once it was started ends, if it is given workers enough to be busy beyond
-- the stop: it has made the first ticks of its schedule, none after the stop, and all that come before
-- it; its thread ends no earlier than the stop; and `stop` returns, no earlier than the thread ends.
pub timer_stops :
    (stop_at : ℕ) (eager : Bool) (interval start : ℕ) (workers : List ℕ)
    → start ≤ stop_at
    → stop_at + interval < start + (first_count eager + length workers) * interval
    → (made : List ℕ) × (end : ℕ) × (returned : ℕ) × (run_until stop_at eager interval start workers
        ≡ some (made, (end, returned)))
      × Stops stop_at (run eager interval start workers) made end
      × (end ≤ returned)
unfolding run_until run stop
timer_stops stop_at eager interval start workers h k =
    let (made, end, ended, how) =
      stops stop_at start interval (first_count eager) start _ workers refl
        (first_room eager interval start stop_at h) k in
    (made, end, max stop_at end, ap (with_stop stop_at) ended, how, omega arith)
