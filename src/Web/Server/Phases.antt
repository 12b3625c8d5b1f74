-- ===== src/Web/Server/Phases.antt =====
-- The phases of a WebServer: before its start, while it serves, when it is closed, and when it could
-- not listen.
use mathlib.Core.List.{append-nil, append_assoc}
use nameko_zh_cn.Base.{
  ℕ, Bool, true, false, Option, none, some, List, [], ◌∷◌, ◌++◌, ◌≡◌, refl, ap, ◌∙◌,
}
use nameko_zh_cn.Exceptions.{Exc}
use nameko_zh_cn.Eventlet.{EventApi}
use nameko_zh_cn.Providers.{ProviderCollector, register_provider}
use nameko_zh_cn.Web.Address.{BindAddress}
use nameko_zh_cn.Web.Server.{
  WebServer, Call, listen, spawn_run, spawn_request, close, Env, Act, registers, starts, stops,
  connects, bind_addr, start, step, run, running, no_thread, ended, listen_at, open_at,
}

-- No start and no stop.
abbrev pub Quiet : List Act → Type 0
Quiet [] = Unit
Quiet (starts ∷ acts) = ⊥
Quiet (stops ∷ acts) = ⊥
Quiet (registers p ∷ acts) = Quiet acts
Quiet (connects c ∷ acts) = Quiet acts

abbrev pub NoStop : List Act → Type 0
NoStop [] = Unit
NoStop (stops ∷ acts) = ⊥
NoStop (starts ∷ acts) = NoStop acts
NoStop (registers p ∷ acts) = NoStop acts
NoStop (connects c ∷ acts) = NoStop acts

-- A thread for each connection, and the closing of the socket at each stop.
unfoldable pub requests : List Act → List Call
requests [] = []
requests (connects c ∷ acts) = spawn_request c ∷ requests acts
requests (starts ∷ acts) = requests acts
requests (stops ∷ acts) = requests acts
requests (registers p ∷ acts) = requests acts

unfoldable pub closings : List Act → List Call
closings [] = []
closings (stops ∷ acts) = close ∷ closings acts
closings (starts ∷ acts) = closings acts
closings (connects c ∷ acts) = closings acts
closings (registers p ∷ acts) = closings acts

module _ (api : EventApi (Unit {0})) where
  unfoldable pub registered : List Act → ProviderCollector api → ProviderCollector api
  registered [] c = c
  registered (registers p ∷ acts) c = registered acts (register_provider api p c)
  registered (starts ∷ acts) c = registered acts c
  registered (stops ∷ acts) c = registered acts c
  registered (connects p ∷ acts) c = registered acts c

  abbrev pub idle : ProviderCollector api → WebServer api
  idle c = record {
    collector = c;
    gt = no_thread;
    starting = false;
    is_accepting = true;
    routes = none;
    calls = [];
  }

  abbrev pub serving : ProviderCollector api → Option (List ℕ) → List Call → WebServer api
  serving c routes calls = record {
    collector = c;
    gt = running;
    starting = true;
    is_accepting = true;
    routes = routes;
    calls = calls;
  }

  abbrev pub closed : ProviderCollector api → Option (List ℕ) → List Call → WebServer api
  closed c routes calls = record {
    collector = c;
    gt = ended;
    starting = true;
    is_accepting = false;
    routes = routes;
    calls = calls;
  }

  abbrev pub refused : ProviderCollector api → Bool → List Call → WebServer api
  refused c accepting calls = record {
    collector = c;
    gt = no_thread;
    starting = true;
    is_accepting = accepting;
    routes = none;
    calls = calls;
  }

  module _ (env : Env) where
    pub run-append :
        (acts more : List Act) (s : WebServer api)
        → run api env (acts ++ more) s ≡ run api env more (run api env acts s)
    unfolding run
    run-append [] more s = refl
    run-append (a ∷ acts) more s = run-append acts more (step api env s a)

    pub run-idle :
        (acts : List Act) (c : ProviderCollector api)
        → Quiet acts
        → run api env acts (idle c) ≡ idle (registered acts c)
    unfolding run registered
    run-idle [] c h = refl
    run-idle (registers p ∷ acts) c h = run-idle acts (register_provider api p c) h
    run-idle (connects p ∷ acts) c h = run-idle acts c h
    run-idle (starts ∷ acts) c h = absurd h
    run-idle (stops ∷ acts) c h = absurd h

    pub run-serving :
        (acts : List Act) (c : ProviderCollector api) (routes : Option (List ℕ)) (calls : List Call)
        → NoStop acts
        → run api env acts (serving c routes calls)
          ≡ serving (registered acts c) routes (calls ++ requests acts)
    unfolding run registered requests
    run-serving [] c routes calls h = rw append-nil refl
    run-serving (registers p ∷ acts) c routes calls h =
        run-serving acts (register_provider api p c) routes calls h
    run-serving (connects p ∷ acts) c routes calls h =
        run-serving acts c routes (calls ++ spawn_request p ∷ []) h
        ∙ ap (serving (registered acts c) routes)
            (append_assoc calls (spawn_request p ∷ []) (requests acts))
    run-serving (starts ∷ acts) c routes calls h = run-serving acts c routes calls h
    run-serving (stops ∷ acts) c routes calls h = absurd h

    pub run-closed :
        (acts : List Act) (c : ProviderCollector api) (routes : Option (List ℕ)) (calls : List Call)
        → run api env acts (closed c routes calls)
          ≡ closed (registered acts c) routes (calls ++ closings acts)
    unfolding run registered closings
    run-closed [] c routes calls = rw append-nil refl
    run-closed (registers p ∷ acts) c routes calls =
        run-closed acts (register_provider api p c) routes calls
    run-closed (connects p ∷ acts) c routes calls = run-closed acts c routes calls
    run-closed (starts ∷ acts) c routes calls = run-closed acts c routes calls
    run-closed (stops ∷ acts) c routes calls =
        run-closed acts c routes (calls ++ close ∷ [])
        ∙ ap (closed (registered acts c) routes) (append_assoc calls (close ∷ []) (closings acts))

    listen_at-none :
        (b : BindAddress) (s : WebServer api)
        → env.listens b ≡ none
        → listen_at api env b s ≡ (
          none,
          record s {
            gt = running;
            routes = some (s.collector.providers);
            calls = s.calls ++ (listen b ∷ (spawn_run ∷ []));
          },
        )
    unfolding listen_at
    listen_at-none b s k = rw (listen_at, k) refl

    listen_at-some :
        (b : BindAddress) (x : Exc) (s : WebServer api)
        → env.listens b ≡ some x
        → listen_at api env b s ≡ (some x, record s { calls = s.calls ++ listen b ∷ [] })
    unfolding listen_at
    listen_at-some b x s k = rw (listen_at, k) refl

    pub run-cons :
        (a : Act) (acts : List Act) (s : WebServer api)
        → run api env (a ∷ acts) s ≡ run api env acts (step api env s a)
    unfolding run
    run-cons a acts s = refl

    pub stop-serving :
        (c : ProviderCollector api) (routes : Option (List ℕ)) (calls : List Call)
        → step api env (serving c routes calls) stops ≡ closed c routes (calls ++ close ∷ [])
    unfolding step
    stop-serving c routes calls = refl

    pub start-again : (s : WebServer api) → s.starting ≡ true → (start api env s).0 ≡ none
    unfolding start
    start-again s e = rw e refl

    pub start-idle :
        (c : ProviderCollector api) (b : BindAddress)
        → bind_addr env ≡ some b
        → env.listens b ≡ none
        → step api env (idle c) starts
          ≡ serving c (some (c.providers)) (listen b ∷ (spawn_run ∷ []))
    unfolding step start
    start-idle c b e k =
        let s = record (idle c) { starting = true } in
        ap (λ o. (open_at api env o s).1) e ∙ ap (λ r. r.1) (listen_at-none b s k)

    pub refuse-idle :
        (c : ProviderCollector api) (b : BindAddress) (x : Exc)
        → bind_addr env ≡ some b
        → env.listens b ≡ some x
        → step api env (idle c) starts ≡ refused c true (listen b ∷ [])
    unfolding step start
    refuse-idle c b x e k =
        let s = record (idle c) { starting = true } in
        ap (λ o. (open_at api env o s).1) e ∙ ap (λ r. r.1) (listen_at-some b x s k)

    pub run-refused :
        (acts : List Act) (c : ProviderCollector api) (accepting : Bool) (calls : List Call)
        → ((run api env acts (refused c accepting calls)).calls ≡ calls)
          × ((run api env acts (refused c accepting calls)).starting ≡ true)
          × ((run api env acts (refused c accepting calls)).routes ≡ none)
    unfolding run
    run-refused [] c accepting calls = (refl, refl, refl)
    run-refused (registers p ∷ acts) c accepting calls =
        run-refused acts (register_provider api p c) accepting calls
    run-refused (connects p ∷ acts) c accepting calls = run-refused acts c accepting calls
    run-refused (starts ∷ acts) c accepting calls = run-refused acts c accepting calls
    run-refused (stops ∷ acts) c accepting calls = run-refused acts c false calls
