-- ===== src/Cli.antt =====
-- nameko/cli/run.py: import_service and the loop of run. Python's import, the existence of a file and
-- the match of an ImportError's text with MISSING_MODULE_TEMPLATE are the environment; how each wait
-- for the runner ends, and each stop, is a list. The signal handler and the backdoor are calls of
-- the system.
pub mod Imports
pub mod Loops
use nameko_zh_cn.Base.{
  ℕ, suc, ◌-◌, Str, codes, Bool, true, false, Option, none, some, List, [], ◌∷◌, ◌++◌, Dict, get,
  str_keys, str_eq, length, drop, ◌&&◌, ◌==◌, nat_eq, if◌then◌else◌,
}
use nameko_zh_cn.Exceptions.{Exc}
use nameko_zh_cn.Runners.{
  ServiceRunner, ServiceClass, new_runner, add_services, start_all, stop_all, kill_all,
}
use nameko_zh_cn.Runners

-- A member of a module: a class, and whether one of its members is an entrypoint, or another object.
pub data Member : Type 0 where
  service_class : ServiceClass → (has_entrypoints : Bool) → Member
  other_member : Member

abbrev pub Module : Type 0
Module = Dict Str Member

pub data Imported : Type 0 where
  imported : Module → Imported
  import_error : (text : Str) → Imported

pub record Env : Type 0 where
  pub import_module : Str → Imported
  pub path_exists : Str → Bool
  pub says_missing : (module_name text : Str) → Bool

pub data CommandError : Type 0 where
  did_you_mean : Str → CommandError
  no_module : (text : Str) → CommandError
  no_service : (module_name : Str) → CommandError
  no_class : (class_name module_name : Str) → CommandError
  not_a_class : CommandError

pub data Found : Type 0 where
  found : List ServiceClass → Found
  command_error : CommandError → Found
  reraised : (text : Str) → Found

-- module_name.split(":", 1): what stands before the first colon, and after it
unfoldable pub split_colon : Str → Str × Option Str
split_colon [] = ([], none)
split_colon (c ∷ s) =
    let rest = split_colon s in if c == b':' then ([], some s) else (c ∷ rest.0, rest.1)

ends_with : Str → Str → Bool
ends_with s suffix = str_eq (drop (length s - length suffix) s) suffix

take : ℕ → Str → Str
take ℕ.zero s = []
take (suc n) [] = []
take (suc n) (c ∷ s) = c ∷ take n s

-- .replace("/", ".")
dotted : Str → Str
dotted [] = []
dotted (c ∷ s) = (if c == b'/' then b'.' else c) ∷ dotted s

-- inspect.getmembers(module, is_type), and of these the ones with an entrypoint
unfoldable pub services : Module → List ServiceClass
services [] = []
services ((name, service_class cls true) ∷ members) = cls ∷ services members
services ((name, service_class cls false) ∷ members) = services members
services ((name, other_member) ∷ members) = services members

found_or : Str → List ServiceClass → Found
found_or module_name [] = command_error (no_service module_name)
found_or module_name (cls ∷ classes) = found (cls ∷ classes)

class_at : Str → Str → Option Member → Found
class_at class_name module_name none = command_error (no_class class_name module_name)
class_at class_name module_name (some other_member) = command_error not_a_class
class_at class_name module_name (some (service_class cls has_entrypoints)) = found (cls ∷ [])

find_services : Str → Option Str → Module → Found
unfolding services found_or class_at
find_services module_name none m = found_or module_name (services m)
find_services module_name (some class_name) m = class_at class_name module_name (get class_name m)

import_failed : Env → Str → Str → Found
unfolding ends_with take dotted
import_failed env module_name text =
    if ends_with module_name (codes ".py") && env.path_exists module_name
    then command_error (did_you_mean (dotted (take (length module_name - 3) module_name)))
    else if env.says_missing module_name text
    then command_error (no_module text)
    else reraised text

import_parts : Env → Str → Option Str → Found
unfolding find_services import_failed
import_parts env module_name obj = elim (env.import_module module_name) [
  | imported m ↦ find_services module_name obj m
  | import_error text ↦ import_failed env module_name text
]

unfoldable pub import_service : Env → Str → Found
unfolding split_colon import_parts
import_service env path =
    let (module_name, obj) = split_colon path in import_parts env module_name obj

-- How `service_runner.stop()` ends when Ctrl-C was pressed, and `kill()` when it was pressed again.
pub data Stopped : Type 0 where
  stopped : Stopped
  stop_raised : Exc → Stopped
  stop_interrupted : (kill_raised : Option Exc) → Stopped

-- How one `runnlet.wait()` ends: it returns, or raises an OSError of EINTR, another exception, or a
-- KeyboardInterrupt.
pub data Wait : Type 0 where
  completed : Wait
  eintr : Wait
  failed : Exc → Wait
  interrupted : Stopped → Wait

pub data Ended : Type 0 where
  ended : Ended
  raised : Exc → Ended
  waits : Ended

abbrev pub Calls : Type 0
Calls = List Runners.Call

-- `while True` of run
unfoldable pub run_loop : List Wait → ServiceRunner → Calls × Ended
run_loop [] r = ([], waits)
run_loop (completed ∷ ws) r = ([], ended)
run_loop (eintr ∷ ws) r = run_loop ws r
run_loop (failed e ∷ ws) r = ([], raised e)
run_loop (interrupted stopped ∷ ws) r =
    let (calls, end) = run_loop ws r in (stop_all r ++ calls, end)
run_loop (interrupted (stop_raised e) ∷ ws) r = (stop_all r, raised e)
run_loop (interrupted (stop_interrupted none) ∷ ws) r =
    let (calls, end) = run_loop ws r in (stop_all r ++ (kill_all r ++ calls), end)
run_loop (interrupted (stop_interrupted (some e)) ∷ ws) r = (stop_all r ++ kill_all r, raised e)

-- run, without the signal handler and the backdoor; `none` is a ConfigurationError of a service.
unfoldable pub run : List ServiceClass → List Wait → Option (Calls × Ended)
unfolding run_loop
run services ws = elim (add_services services new_runner) [
  | none ↦ none
  | some r ↦ let (calls, end) = run_loop ws r in some (start_all r ++ calls, end)
]
