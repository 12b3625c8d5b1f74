-- ===== src/Web/Server.antt =====
-- nameko/web/server.py: WebServer. What eventlet.listen raises, what a text of an OSError is and how
-- the WSGI server ends with a connection are parameters; a connection is a number. The thread of `run`
-- accepts while it is alive and waits at `accept` otherwise; `kill` ends it there.
pub mod Phases
pub mod Served
use nameko_zh_cn.Base.{
  ℕ, Str, codes, Bool, true, false, not, Option, none, some, List, [], ◌∷◌, ◌++◌, starts_with, ◌||◌,
  ◌&&◌, if◌then◌else◌, map,
}
use nameko_zh_cn.Exceptions.{Exc}
use nameko_zh_cn.Rpc.Effects.{builtin}
use nameko_zh_cn.Eventlet.{EventApi}
use nameko_zh_cn.Providers.{
  ProviderCollector, new_collector, register_provider, unregister_provider, wait_for_providers,
}
use nameko_zh_cn.Web.Address.{BindAddress, parse_address}

abbrev pub attribute_error : Exc
attribute_error = builtin (codes "AttributeError")

abbrev pub configuration_error : Exc
configuration_error = builtin (codes "ConfigurationError")

-- self._gt: none yet, running `run`, or at its end.
pub data Thread : Type 0 where
  no_thread running ended : Thread

-- What the server asks of eventlet and of its container, in order.
pub data Call : Type 0 where
  listen : BindAddress → Call
  spawn_run : Call
  spawn_request : (connection : ℕ) → Call
  close : Call

pub record Env : Type 0 where
  pub digit : ℕ → Option ℕ
  pub bind_address : Option Str
  pub listens : BindAddress → Option Exc

unfoldable pub bind_addr : Env → Option BindAddress
unfolding parse_address
bind_addr env =
    parse_address env.digit (elim (env.bind_address) [ none ↦ codes "0.0.0.0:8000" | some s ↦ s ])

module _ (api : EventApi (Unit {0})) where
  pub record WebServer : Type 0 where
    pub collector : ProviderCollector api
    pub gt : Thread
    pub starting : Bool
    pub is_accepting : Bool
    -- The providers in the URL map of the WsgiApp.
    pub routes : Option (List ℕ)
    pub calls : List Call

  abbrev pub new_server : WebServer
  new_server = record {
    collector = new_collector api;
    gt = no_thread;
    starting = false;
    is_accepting = true;
    routes = none;
    calls = [];
  }

  module _ (env : Env) where
    -- make_url_map: a rule for each provider
    abbrev pub make_url_map : WebServer → List ℕ
    make_url_map s = s.collector.providers

    -- The rest of `start`, once there is an address to listen at.
    unfoldable pub listen_at : BindAddress → WebServer → Option Exc × WebServer
    listen_at b s = elim (env.listens b) [
      | some e ↦ (some e, record s { calls = s.calls ++ listen b ∷ [] })
      | none ↦ (
        none,
        record s {
          gt = running;
          routes = some (make_url_map s);
          calls = s.calls ++ (listen b ∷ (spawn_run ∷ []));
        },
      )
    ]

    unfoldable pub open_at : Option BindAddress → WebServer → Option Exc × WebServer
    unfolding listen_at
    open_at none s = (some configuration_error, s)
    open_at (some b) s = listen_at b s

    -- What is raised, and the server then.
    unfoldable pub start : WebServer → Option Exc × WebServer
    unfolding open_at
    start s =
        if s.starting then (none, s) else open_at (bind_addr env) (record s { starting = true })

  -- `stop`, up to the wait for the providers.
  unfoldable pub stop : WebServer → Option Exc × WebServer
  stop s =
      let s' = record s { is_accepting = false } in
      elim (s.gt) [
        | no_thread ↦ (some attribute_error, s')
        | _ ↦ (none, record s' { gt = ended; calls = s.calls ++ close ∷ [] })
      ]

  -- A turn of `run` for a connection that comes.
  unfoldable pub accept : ℕ → WebServer → WebServer
  accept connection s = elim (s.gt) [
    | running ↦
        if s.is_accepting
        then record s { calls = s.calls ++ spawn_request connection ∷ [] }
        else record s { gt = ended }
    | _ ↦ s
  ]

-- What happens to a server: an extension registers, starts or stops it, and connections come.
pub data Act : Type 0 where
  starts stops : Act
  registers connects : ℕ → Act

-- part in text
unfoldable pub contains_text : Str → Str → Bool
contains_text part [] = starts_with [] part
contains_text part (c ∷ s) = starts_with (c ∷ s) part || contains_text part s

pub data Processed : Type 0 where
  served : Processed
  os_error : (text : Str) (e : Exc) → Processed
  other_error : Exc → Processed

-- process_request: the exception that its thread ends with, from how the WSGI server ends.
unfoldable pub process_request : Processed → Option Exc
unfolding contains_text
process_request served = none
process_request (os_error text e) =
    if contains_text (codes "raw readinto() returned invalid length") text then none else some e
process_request (other_error e) = some e

module _ (api : EventApi (Unit {0})) (env : Env) where
  unfoldable pub step : WebServer api → Act → WebServer api
  unfolding start stop accept register_provider
  step s (registers p) = record s { collector = register_provider api p s.collector }
  step s starts = (start api env s).1
  step s stops = (stop api s).1
  step s (connects c) = accept api c s

  unfoldable pub run : List Act → WebServer api → WebServer api
  unfolding step
  run [] s = s
  run (a ∷ acts) s = run acts (step s a)
