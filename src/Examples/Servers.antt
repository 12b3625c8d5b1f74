-- ===== src/Examples/Servers.antt =====
-- The theorems of Web/Server at a server with one extension.
use nameko_zh_cn.Base.{codes, none, some, [], ◌∷◌, ◌++◌, List, ◌≡◌, refl, nat_eq, add}
use nameko_zh_cn.Eventlet.{EventApi, slot}
use nameko_zh_cn.Providers.{register_provider}
use nameko_zh_cn.Web.Server.{
  Env, Act, starts, stops, registers, connects, run, new_server, listen, spawn_run, spawn_request,
  close, bind_addr,
}
use nameko_zh_cn.Web.Server.Phases.{requests, closings, registered}
use nameko_zh_cn.Web.Server.Served.{serves_until_stop}
use nameko_zh_cn.Examples.Configs.{digit}

abbrev unit_events : EventApi (Unit {0})
unit_events = slot (Unit {0})

abbrev env : Env
env = record { digit = digit; bind_address = some (codes "h:80"); listens = λ b. none }

abbrev before : List Act
before = connects 1 ∷ (registers 7 ∷ [])

abbrev during : List Act
during = connects 2 ∷ (starts ∷ (connects 3 ∷ []))

abbrev after : List Act
after = connects 4 ∷ (stops ∷ [])

serves_until_stop_example :
    let s =
      run unit_events env (before ++ starts ∷ (during ++ stops ∷ after)) (new_server unit_events) in
    (s.calls
      ≡ listen (record { address = codes "h"; port = 80 })
        ∷ (spawn_run ∷ (spawn_request 2 ∷ (spawn_request 3 ∷ (close ∷ (close ∷ []))))))
    × (s.routes ≡ some (7 ∷ []))
unfolding requests closings registered bind_addr register_provider add
serves_until_stop_example =
    serves_until_stop unit_events env before during after
      (record { address = codes "h"; port = 80 }) tt tt refl refl
