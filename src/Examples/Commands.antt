-- ===== src/Examples/Commands.antt =====
-- The theorem of Cli at a run of two services that is interrupted.
use nameko_zh_cn.Base.{codes, none, List, [], ◌∷◌, str_keys}
use nameko_zh_cn.Runners.{ServiceRunner}
use nameko_zh_cn.Cli.{stop_interrupted, Wait, eintr, interrupted}

abbrev runner : ServiceRunner
runner = record { service_map = (codes "spam", 1) ∷ (codes "eggs", 2) ∷ [] }

-- An interrupted call, Ctrl-C twice, and the end.
abbrev before : List Wait
before = eintr ∷ interrupted (stop_interrupted none) ∷ []
