-- ===== src/Runners.antt =====
-- nameko/runners.py: ServiceRunner and run_services, with `get_service_name` of nameko/containers.py.
-- A container is a number, and how its calls end is a parameter: the calls are given by what
-- SpawningProxy hands to each container, in order.
pub mod Kept
pub mod Waiting
use nameko_zh_cn.Base.{
  ℕ, suc, Str, codes, Bool, true, false, Option, none, some, ◌>>=◌, List, [], ◌∷◌, ◌++◌, map, Dict,
  get, put, str_keys, if◌then◌else◌,
}
use nameko_zh_cn.Exceptions.{Exc}
use nameko_zh_cn.Concurrency.{Imap, Consumer, testing, getting, finished, threw, Action, call_all}

-- The `name` of a class: missing or None, not a str, or a str.
pub data NameAttr : Type 0 where
  missing : NameAttr
  other : NameAttr
  named : Str → NameAttr

pub record ServiceClass : Type 0 where
  pub ident : ℕ
  pub name : NameAttr

-- `none` is ConfigurationError.
unfoldable pub get_service_name : ServiceClass → Option Str
get_service_name cls = elim cls.name [ missing ↦ none | other ↦ none | named s ↦ some s ]

-- A container, by the class that it was made for.
pub record ServiceRunner : Type 0 where
  pub service_map : Dict Str ℕ

abbrev pub new_runner : ServiceRunner
new_runner = record { service_map = [] }

unfoldable pub add_service : ServiceClass → ServiceRunner → Option ServiceRunner
unfolding get_service_name
add_service cls r = do
  service_name ← get_service_name cls
  some (record { service_map = put service_name cls.ident r.service_map })

unfoldable pub add_services : List ServiceClass → ServiceRunner → Option ServiceRunner
unfolding add_service
add_services [] r = some r
add_services (cls ∷ services) r = do r' ← add_service cls r; add_services services r'

unfoldable pub values : Dict Str ℕ → List ℕ
values [] = []
values ((k, c) ∷ d) = c ∷ values d

unfoldable pub containers : ServiceRunner → List ℕ
unfolding values
containers r = values r.service_map

-- A call that is made on a container.
pub data Call : Type 0 where
  start stop kill : ℕ → Call

-- SpawningProxy(self.containers).start() and the like
unfoldable pub start_all : ServiceRunner → List Call
unfolding containers
start_all r = map start (containers r)

unfoldable pub stop_all : ServiceRunner → List Call
unfolding containers
stop_all r = map stop (containers r)

unfoldable pub kill_all : ServiceRunner → List Call
unfolding containers
kill_all r = map kill (containers r)

-- How `wait` goes on: it returns, it raises once the others are stopped, or it still waits.
pub data Waited : Type 0 where
  returned : Waited
  raised : Exc → Waited
  still_waiting : Waited

after_wait : Consumer → ServiceRunner → Waited × List Call
unfolding stop_all
after_wait finished r = (returned, [])
after_wait (threw e) r = (raised e, stop_all r)
after_wait _ r = (still_waiting, [])

-- ServiceRunner.wait: the waits of the containers as threads of SpawningProxy, by their turns.
unfoldable pub wait : List Action → ServiceRunner → Waited × List Call
unfolding containers call_all after_wait
wait schedule r = after_wait (call_all (containers r) schedule).consumer r

-- `yield runner`: the block of the caller runs to its end, or raises here.
pub data Block : Type 0 where
  completes : Block
  raises : Exc → Block

after_block : Block → Bool → ServiceRunner → List Call × Option Exc
unfolding stop_all kill_all
after_block completes kill_on_exit r = (if kill_on_exit then kill_all r else stop_all r, none)
after_block (raises e) kill_on_exit r = ([], some e)

after_start : Option Exc → Block → Bool → ServiceRunner → List Call × Option Exc
unfolding after_block
after_start none block kill_on_exit r = after_block block kill_on_exit r
after_start (some e) block kill_on_exit r = ([], some e)

-- The calls that run_services makes, and the exception that leaves it, from what `runner.start()`
-- raises, if it does; `none` is a ConfigurationError before any call.
unfoldable pub run_services :
    List ServiceClass → Bool → Option Exc → Block → Option (List Call × Option Exc)
unfolding add_services start_all after_start
run_services services kill_on_exit failure block = do
  runner ← add_services services new_runner
  let ended = after_start failure block kill_on_exit runner
  some (start_all runner ++ ended.0, ended.1)
