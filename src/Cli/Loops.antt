-- ===== src/Cli/Loops.antt =====
-- nameko/cli/run.py: how the loop of run ends, and what it calls.
use nameko_zh_cn.Base.{◌≡◌, Bool, true, false, none, some, List, [], ◌∷◌, ◌++◌}
use nameko_zh_cn.Runners.{ServiceRunner, stop_all, kill_all}
use nameko_zh_cn.Cli.{
  stopped, stop_raised, stop_interrupted, Wait, completed, eintr, failed, interrupted, Ended, ended,
  raised, waits, Calls,
}

-- The waits after which the runner is waited for again.
abbrev pub passes : Wait → Bool
passes completed = false
passes eintr = true
passes (failed e) = false
passes (interrupted stopped) = true
passes (interrupted (stop_raised e)) = false
passes (interrupted (stop_interrupted none)) = true
passes (interrupted (stop_interrupted (some e))) = false

-- Ctrl-C stops the containers, and a second one during the stop kills them.
abbrev pub calls_of : ServiceRunner → Wait → Calls
calls_of r completed = []
calls_of r eintr = []
calls_of r (failed e) = []
calls_of r (interrupted stopped) = stop_all r
calls_of r (interrupted (stop_raised e)) = stop_all r
calls_of r (interrupted (stop_interrupted kill_raised)) = stop_all r ++ kill_all r

abbrev pub end_of : Wait → Ended
end_of completed = ended
end_of eintr = waits
end_of (failed e) = raised e
end_of (interrupted stopped) = waits
end_of (interrupted (stop_raised e)) = raised e
end_of (interrupted (stop_interrupted none)) = waits
end_of (interrupted (stop_interrupted (some e))) = raised e

abbrev pub calls_all : ServiceRunner → List Wait → Calls
calls_all r [] = []
calls_all r (w ∷ ws) = calls_of r w ++ calls_all r ws

abbrev pub AllPass : List Wait → Type 0
AllPass [] = Unit
AllPass (w ∷ ws) = (passes w ≡ true) × AllPass ws
