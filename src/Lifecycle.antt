-- ===== src/Lifecycle.antt =====
-- nameko/containers.py, the life of one worker: `_run_worker` with the hooks of the dependency
-- providers that it calls. What a provider, the service method and `handle_result` do is code of
-- the service: each is given as what it returns or raises. The log holds the calls, in order.
pub mod Order
use nameko_zh_cn.Base.{Str, Option, none, some, List, [], ◌∷◌, ◌++◌}
use nameko_zh_cn.Values.{Value}
use nameko_zh_cn.Exceptions.{Exc}

-- A dependency provider: for each hook the exception that it raises, if any.
pub record Provider : Type 0 where
  pub attr_name : Str
  pub get_dependency : Option Exc
  pub worker_setup : Option Exc
  pub worker_result : Option Exc
  pub worker_teardown : Option Exc

-- A result with no exception is `(some v, none)`; a failed call is `(none, some e)`.
abbrev pub Outcome : Type 0
Outcome = Option Value × Option Exc

pub data Call : Type 0 where
  injected : Str → Call
  set_up : Str → Call
  called : Call
  handled : Outcome → Call
  resulted : Str → Outcome → Call
  torn_down : Str → Call

-- How the service method ends: GreenletExit is no `Exception`, and is not caught.
pub data Ending : Type 0 where
  returned : Value → Ending
  raised : Exc → Ending
  greenlet_exit : Ending

-- How a worker's thread ends: `wait` on it returns, raises an Exception, or raises GreenletExit.
pub data Exit : Type 0 where
  finished : Exit
  failed : Exc → Exit
  exited : Exit

-- A statement goes on with a value, or ends the thread.
pub data Result (A : Type 0) : Type 0 where
  ok : A → Result A
  end_with : Exit → Result A

abbrev pub Run : Type 0 → Type 0
Run A = List Call → Result A × List Call

abbrev pub pure : {A : Type 0} → A → Run A
pure a log = (ok a, log)

abbrev pub continue_with : {A B : Type 0} → Result A → (A → Run B) → Run B
continue_with (ok a) f log = f a log
continue_with (end_with e) f log = (end_with e, log)

infixl 5 ◌>>=◌ ◌>>◌
abbrev pub ◌>>=◌ : {A B : Type 0} → Run A → (A → Run B) → Run B
◌>>=◌ m f log = let (r, log') = m log in continue_with r f log'

abbrev pub ◌>>◌ : {B : Type 0} → Run (Unit {0}) → Run B → Run B
m >> k = m >>= λ _. k

-- A call is logged when it is made, and may raise.
unfoldable pub hook : Call → Option Exc → Run (Unit {0})
hook c none log = (ok tt, log ++ c ∷ [])
hook c (some e) log = (end_with (failed e), log ++ c ∷ [])

-- for provider in self.dependencies: ...
unfoldable pub for_each : (Provider → Run (Unit {0})) → List Provider → Run (Unit {0})
for_each body [] log = (ok tt, log)
for_each body (p ∷ ps) log = let rest = for_each body ps in (body p >> rest) log

unfoldable pub inject_dependencies : List Provider → Run (Unit {0})
unfolding hook for_each
inject_dependencies = for_each (λ p. hook (injected p.attr_name) p.get_dependency)

unfoldable pub worker_setup : List Provider → Run (Unit {0})
unfolding hook for_each
worker_setup = for_each (λ p. hook (set_up p.attr_name) p.worker_setup)

unfoldable pub worker_result : Outcome → List Provider → Run (Unit {0})
unfolding hook for_each
worker_result out = for_each (λ p. hook (resulted p.attr_name out) p.worker_result)

unfoldable pub worker_teardown : List Provider → Run (Unit {0})
unfolding hook for_each
worker_teardown = for_each (λ p. hook (torn_down p.attr_name) p.worker_teardown)

-- The call of the service method in its `try`: an Exception becomes `exc_info`.
unfoldable pub call_method : Ending → Run Outcome
call_method (returned v) log = (ok (some v, none), log ++ called ∷ [])
call_method (raised e) log = (ok (none, some e), log ++ called ∷ [])
call_method greenlet_exit log = (end_with exited, log ++ called ∷ [])

-- What `handle_result` does with the outcome: gives another one, or raises.
pub data Handling : Type 0 where
  gives : Outcome → Handling
  raises : Exc → Handling

unfoldable pub handled_by : Handling → Outcome → Run Outcome
handled_by (gives out') out log = (ok out', log ++ handled out ∷ [])
handled_by (raises e) out log = (end_with (failed e), log ++ handled out ∷ [])

-- if handle_result is not None: ...
unfoldable pub handle_result : Option (Outcome → Handling) → Outcome → Run Outcome
unfolding handled_by
handle_result none out log = (ok out, log)
handle_result (some h) out log = handled_by (h out) out log

unfoldable pub run_worker : List Provider → Ending → Option (Outcome → Handling) → Run (Unit {0})
unfolding inject_dependencies worker_setup call_method handle_result worker_result worker_teardown
run_worker providers method handler = do
  inject_dependencies providers
  worker_setup providers
  out ← call_method method
  out' ← handle_result handler out
  worker_result out' providers
  worker_teardown providers

-- How the thread of the worker ends.
unfoldable pub exit_of : Result (Unit {0}) × List Call → Exit
exit_of (ok _, log) = finished
exit_of (end_with e, log) = e
