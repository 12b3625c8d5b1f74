-- ===== src/Web/Server/Served.antt =====
-- A WebServer from its setup to its stop: what it listens at, which connections it serves, and which
-- providers it knows.
use mathlib.Core.List.{append_assoc}
use nameko_zh_cn.Base.{true, none, some, List, [], ◌∷◌, ◌++◌, ◌≡◌, ap, ◌∙◌}
use nameko_zh_cn.Exceptions.{Exc}
use nameko_zh_cn.Eventlet.{EventApi}
use nameko_zh_cn.Providers.{new_collector}
use nameko_zh_cn.Web.Address.{BindAddress}
use nameko_zh_cn.Web.Server.{
  listen, spawn_run, close, Env, Act, starts, stops, bind_addr, start, run, new_server,
}
use nameko_zh_cn.Web.Server.Phases.{
  Quiet, NoStop, requests, closings, registered, idle, serving, closed, run-append, run-idle,
  run-serving, run-closed, run-cons, stop-serving, start-again, start-idle, refuse-idle,
  run-refused,
}

module _ (api : EventApi (Unit {0})) (env : Env) where
  serve :
      (before during after : List Act) (b : BindAddress)
      → Quiet before
      → NoStop during
      → bind_addr env ≡ some b
      → env.listens b ≡ none
      → run api env (before ++ starts ∷ (during ++ stops ∷ after)) (new_server api)
        ≡ closed api
            (registered api after
              (registered api during (registered api before (new_collector api))))
            (some ((registered api before (new_collector api)).providers))
            (((listen b ∷ (spawn_run ∷ requests during)) ++ close ∷ []) ++ closings after)
  serve before during after b q n e k =
      let c = registered api before (new_collector api) in
      rw
        (
          run-append api env before (starts ∷ (during ++ stops ∷ after)) (new_server api),
          run-idle api env before (new_collector api) q,
          run-cons api env starts (during ++ stops ∷ after) (idle api c),
          start-idle api env c b e k,
          run-append api env during (stops ∷ after)
              (serving api c (some (c.providers)) (listen b ∷ (spawn_run ∷ []))),
          run-serving api env during c (some (c.providers)) (listen b ∷ (spawn_run ∷ [])) n,
          run-cons api env stops after (
              serving api (registered api during c) (some (c.providers))
                (listen b ∷ (spawn_run ∷ requests during))),
          stop-serving api env (registered api during c) (some (c.providers))
              (listen b ∷ (spawn_run ∷ requests during)),
        )
        (run-closed api env after (registered api during c) (some (c.providers))
          ((listen b ∷ (spawn_run ∷ requests during)) ++ close ∷ []))

  -- A server that can listen at its address, started, and stopped later: it listens once and has one
  -- thread that accepts; each connection that comes before the stop and after the start gets a thread,
  -- in order, and no other does; each stop closes the socket; and it knows the URLs of the extensions
  -- that registered before the start. More starts make no difference.
  pub serves_until_stop :
      (before during after : List Act) (b : BindAddress)
      → Quiet before
      → NoStop during
      → bind_addr env ≡ some b
      → env.listens b ≡ none
      → let s = run api env (before ++ starts ∷ (during ++ stops ∷ after)) (new_server api) in
        (s.calls ≡ listen b ∷ (spawn_run ∷ (requests during ++ close ∷ closings after)))
        × (s.routes ≡ some ((registered api before (new_collector api)).providers))
  serves_until_stop before during after b q n e k =
      let p = serve before during after b q n e k in
      (
        ap (λ s. s.calls) p
            ∙ append_assoc (listen b ∷ (spawn_run ∷ requests during)) (close ∷ []) (closings after),
        ap (λ s. s.routes) p,
      )

  -- Once a start could not listen at the address, the server never listens, accepts or routes,
  -- although every start that follows raises nothing.
  pub failed_start_is_final :
      (before after : List Act) (b : BindAddress) (x : Exc)
      → Quiet before
      → bind_addr env ≡ some b
      → env.listens b ≡ some x
      → let s = run api env (before ++ starts ∷ after) (new_server api) in
        (s.calls ≡ listen b ∷ []) × (s.routes ≡ none) × ((start api env s).0 ≡ none)
  failed_start_is_final before after b x q e k =
      let c = registered api before (new_collector api) in
      rw
        (
          run-append api env before (starts ∷ after) (new_server api),
          run-idle api env before (new_collector api) q,
          run-cons api env starts after (idle api c),
          refuse-idle api env c b x e k,
        )
        (let r = run-refused api env after c true (listen b ∷ []) in
          (r.0, r.2, start-again api env _ r.1))
