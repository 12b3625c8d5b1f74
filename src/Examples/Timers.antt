-- ===== src/Examples/Timers.antt =====
-- The theorem of Timer at three ticks.
use nameko_zh_cn.Timer.Stopped.{Stops, timer_stops}
use nameko_zh_cn.Base.{ℕ, List, ◌≡◌, false, some, [], ◌∷◌, arith, ◌≤◌}
use nameko_zh_cn.Timer.{first_count, run, run_until}

timer_stops_example :
    (made : List ℕ) × (end : ℕ) × (returned : ℕ) × (run_until 112 false 5 100 (3 ∷ 7 ∷ 1 ∷ 1 ∷ [])
      ≡ some (made, (end, returned)))
    × Stops 112 (run false 5 100 (3 ∷ 7 ∷ 1 ∷ 1 ∷ [])) made end
    × (end ≤ returned)
unfolding first_count
timer_stops_example = timer_stops 112 false 5 100 (3 ∷ 7 ∷ 1 ∷ 1 ∷ []) (omega arith) (omega arith)
