-- ===== src/Consume/Settled.antt =====
-- nameko/messaging.py, Consumer, with ServiceContainer._run_worker: what becomes of a message that it
-- takes, by its worker's life.
use nameko_zh_cn.Base.{
  ◌≡◌, refl, sym, ap, ◌∙◌, Bool, true, false, ◌&&◌, not, Option, none, some, is_some, List, [], ◌∷◌,
  ◌++◌, Str, Bool-cases, Option-cases, inl, inr, if◌then◌else◌, str_eq,
}
use mathlib.Core.List.{append_assoc, append-nil}
use nameko_zh_cn.Values.{Value}
use nameko_zh_cn.Exceptions.{Exc, get_module_path}
use nameko_zh_cn.Headers.{unpack_message_headers}
use nameko_zh_cn.Lifecycle.{
  Provider, Outcome, Call, injected, set_up, called, handled, resulted, torn_down, Ending, returned,
  raised, greenlet_exit, Run, hook, for_each, inject_dependencies, worker_setup, worker_result,
  worker_teardown, call_method, Handling, gives, raises, handled_by, run_worker, continue_with,
  end_with, ◌>>◌, ◌>>=◌,
}
use nameko_zh_cn.Lifecycle
use nameko_zh_cn.Rpc.Effects.{Spawned, Effect, spawned, acked, requeued, ok, raise}
use nameko_zh_cn.Rpc.Effects
use nameko_zh_cn.Rpc.Server.{Env, Message, ack_message, requeue_message, spawn_worker}
use nameko_zh_cn.Consume.{
  handle_message, handle_message_processed, handle_result, requeue_if_killed,
}

-- A hook that no provider raises in.
unfoldable pub all_none : (Provider → Option Exc) → List Provider → Bool
all_none h [] = true
all_none h (p ∷ ps) = not (is_some (h p)) && all_none h ps

-- Whether the dependencies of a worker are made and set up.
abbrev pub begins : List Provider → Bool
begins ps = all_none (λ p. p.get_dependency) ps && all_none (λ p. p.worker_setup) ps

abbrev is_ok : {A : Type 0} → Lifecycle.Result A → Bool
is_ok (Lifecycle.ok a) = true
is_ok (end_with e) = false

module _ (env : Env) (requeue_on_error : Bool) (method : Str) (body : Value) (m : Message) where
  abbrev pub worker_call : Spawned
  worker_call = record {
    method_name = method;
    args = body ∷ [];
    kwargs = [];
    context_data = unpack_message_headers m.headers;
  }

  abbrev handling_of : Effects.Result Outcome → Handling
  handling_of (ok out) = gives out
  handling_of (raise e) = raises e

  -- What Consumer.handle_result gives to the worker that calls it.
  handling : Outcome → Handling
  handling out = handling_of (handle_result env requeue_on_error m out.0 out.1 []).0

  -- What it does to the message for each of the worker's calls of it.
  unfoldable pub settlements : List Call → List Effect
  settlements [] = []
  settlements (handled out ∷ cs) =
      (handle_result env requeue_on_error m out.0 out.1 []).1 ++ settlements cs
  settlements (injected a ∷ cs) = settlements cs
  settlements (set_up a ∷ cs) = settlements cs
  settlements (called ∷ cs) = settlements cs
  settlements (resulted a out ∷ cs) = settlements cs
  settlements (torn_down a ∷ cs) = settlements cs

  settlements-append :
      (xs ys : List Call) → settlements (xs ++ ys) ≡ settlements xs ++ settlements ys
  unfolding settlements
  settlements-append [] ys = refl
  settlements-append (handled out ∷ xs) ys =
      ap (λ es. (handle_result env requeue_on_error m out.0 out.1 []).1 ++ es)
        (settlements-append xs ys)
      ∙ sym (append_assoc (handle_result env requeue_on_error m out.0 out.1 []).1 _ _)
  settlements-append (injected a ∷ xs) ys = settlements-append xs ys
  settlements-append (set_up a ∷ xs) ys = settlements-append xs ys
  settlements-append (called ∷ xs) ys = settlements-append xs ys
  settlements-append (resulted a out ∷ xs) ys = settlements-append xs ys
  settlements-append (torn_down a ∷ xs) ys = settlements-append xs ys

  one_more :
      (c : Call) (log : List Call)
      → settlements (c ∷ []) ≡ []
      → settlements (log ++ c ∷ []) ≡ settlements log
  one_more c log q =
      settlements-append log (c ∷ [])
      ∙ ap (λ es. settlements log ++ es) q
      ∙ append-nil (settlements log)

  loops :
      (c : Provider → Call) (h : Provider → Option Exc) (ps : List Provider) (log : List Call)
      → ((p : Provider) → settlements (c p ∷ []) ≡ [])
      → (settlements (for_each (λ p. hook (c p) (h p)) ps log).1 ≡ settlements log)
        × (is_ok (for_each (λ p. hook (c p) (h p)) ps log).0 ≡ all_none h ps)
  unfolding for_each hook all_none
  loops c h [] log q = (refl, refl)
  loops c h (p ∷ ps) log q = elim (Option-cases (h p)) [
    | inl e ↦
        let rest = loops c h ps (log ++ c p ∷ []) q in
        rw e (rest.0 ∙ one_more (c p) log (q p), rest.1)
    | inr (x, e) ↦ rw e (one_more (c p) log (q p), refl)
  ]

  quiet_then :
      (x : Lifecycle.Result (Unit {0}) × List Call) (k : Run (Unit {0})) (es : List Effect)
      → settlements x.1 ≡ es
      → ((log : List Call) → settlements (k log).1 ≡ settlements log)
      → settlements (continue_with x.0 (λ _. k) x.1).1 ≡ es
  quiet_then (Lifecycle.ok u, log) k es h q = q log ∙ h
  quiet_then (end_with e, log) k es h q = h

  begun_then :
      (x : Lifecycle.Result (Unit {0}) × List Call) (k : Run (Unit {0})) (es : List Effect)
      (b : Bool)
      → settlements x.1 ≡ []
      → is_ok x.0 ≡ b
      → ((log : List Call) → settlements log ≡ [] → settlements (k log).1 ≡ es)
      → settlements (continue_with x.0 (λ _. k) x.1).1 ≡ (if b then es else [])
  begun_then (Lifecycle.ok u, log) k es b h o q =
      q log h ∙ ap (λ (b' : Bool). if b' then es else []) o
  begun_then (end_with e, log) k es b h o q = h ∙ ap (λ (b' : Bool). if b' then es else []) o

  -- What a worker whose method has ended does to the message.
  abbrev pub settlement : Ending → List Effect
  settlement (returned v) = acked m.ident ∷ []
  settlement (raised e) = (if requeue_on_error then requeued m.ident else acked m.ident) ∷ []
  settlement greenlet_exit = []

  settles :
      (r : Bool) (result : Option Value) (exc_info : Option Exc)
      → env.connected m.ident ≡ true
      → is_some exc_info && requeue_on_error ≡ r
      → handle_result env requeue_on_error m result exc_info []
        ≡ (ok (result, exc_info), (if r then requeued m.ident else acked m.ident) ∷ [])
  unfolding handle_result handle_message_processed ack_message requeue_message
  settles true result exc_info alive q = simp (q, alive) refl
  settles false result exc_info alive q = simp (q, alive) refl

  hands_on :
      (r : Bool) (result : Option Value) (exc_info : Option Exc)
      → env.connected m.ident ≡ true
      → is_some exc_info && requeue_on_error ≡ r
      → handling (result, exc_info) ≡ gives (result, exc_info)
  unfolding handling
  hands_on r result exc_info alive q =
      ap (λ (x : Effects.Result Outcome × List Effect). handling_of x.0)
        (settles r result exc_info alive q)

  -- From the end of the method to the end of the worker.
  abbrev finish : List Provider → Outcome → Run (Unit {0})
  finish ps out = Lifecycle.handle_result (some handling) out >>= λ out'.
      worker_result out' ps >> worker_teardown ps

  results_quiet :
      (ps : List Provider) (out : Outcome) (log : List Call)
      → settlements ((worker_result out ps >> worker_teardown ps) log).1 ≡ settlements log
  unfolding worker_result worker_teardown settlements
  results_quiet ps out log =
      quiet_then (worker_result out ps log) (worker_teardown ps) (settlements log)
        (loops (λ p. resulted p.attr_name out) (λ p. p.worker_result) ps log (λ p. refl)).0
        (λ l. (loops (λ p. torn_down p.attr_name) (λ p. p.worker_teardown) ps l (λ p. refl)).0)

  finishes :
      (ps : List Provider) (r : Bool) (result : Option Value) (exc_info : Option Exc)
      (log : List Call)
      → env.connected m.ident ≡ true
      → is_some exc_info && requeue_on_error ≡ r
      → settlements log ≡ []
      → settlements (finish ps (result, exc_info) log).1
        ≡ (if r then requeued m.ident else acked m.ident) ∷ []
  unfolding Lifecycle.handle_result handled_by handling settlements
  finishes ps r result exc_info log alive q h =
      let s = settles r result exc_info alive q in
      let told = log ++ handled (result, exc_info) ∷ [] in
      let here : settlements told ≡ (if r then requeued m.ident else acked m.ident) ∷ [] =
        settlements-append log (handled (result, exc_info) ∷ [])
        ∙ ap (λ es. es ++ settlements (handled (result, exc_info) ∷ [])) h
        ∙ ap (λ (x : Effects.Result (Option Value × Option Exc) × List Effect). x.1 ++ []) s in
      ap
        (λ (x : Handling).
          settlements
            ((handled_by x (result, exc_info) >>= λ out'.
                worker_result out' ps >> worker_teardown ps)
              log).1)
        (hands_on r result exc_info alive q)
      ∙ results_quiet ps (result, exc_info) told
      ∙ here

  calls :
      (ps : List Provider) (ending : Ending) (log : List Call)
      → env.connected m.ident ≡ true
      → settlements log ≡ []
      → settlements ((call_method ending >>= finish ps) log).1 ≡ settlement ending
  unfolding call_method settlements
  calls ps (returned v) log alive h =
      finishes ps false (some v) none (log ++ called ∷ []) alive refl (one_more called log refl ∙ h)
  calls ps (raised e) log alive h =
      finishes ps requeue_on_error none (some e) (log ++ called ∷ []) alive refl
        (one_more called log refl ∙ h)
  calls ps greenlet_exit log alive h = one_more called log refl ∙ h

  if_both :
      (a b : Bool) (es : List Effect)
      → (if a then (if b then es else []) else []) ≡ (if a && b then es else [])
  if_both true b es = refl
  if_both false b es = refl

  works :
      (ps : List Provider) (ending : Ending)
      → env.connected m.ident ≡ true
      → settlements (run_worker ps ending (some handling) []).1
        ≡ (if begins ps then settlement ending else [])
  unfolding run_worker inject_dependencies worker_setup settlements
  works ps ending alive =
      let injects = loops (λ p. injected p.attr_name) (λ p. p.get_dependency) ps [] (λ p. refl) in
      begun_then (inject_dependencies ps []) (worker_setup ps >> (call_method ending >>= finish ps))
        (if all_none (λ p. p.worker_setup) ps then settlement ending else [])
        (all_none (λ p. p.get_dependency) ps) injects.0 injects.1
        (λ log h.
          let sets = loops (λ p. set_up p.attr_name) (λ p. p.worker_setup) ps log (λ p. refl) in
          begun_then (worker_setup ps log) (call_method ending >>= finish ps) (settlement ending)
            (all_none (λ p. p.worker_setup) ps) (sets.0 ∙ h) sets.1
            (λ l q. calls ps ending l alive q))
      ∙ if_both (all_none (λ p. p.get_dependency) ps) (all_none (λ p. p.worker_setup) ps)
          (settlement ending)

  -- The calls of the queue consumer and of the container, with those of the worker that is spawned.
  unfoldable pub worked : List Provider → Ending → List Effect → List Effect
  unfolding handling
  worked ps ending [] = []
  worked ps ending (spawned call ∷ log) =
      settlements (run_worker ps ending (some handling) []).1 ++ worked ps ending log
  worked ps ending (f ∷ log) = worked ps ending log

  unfoldable pub consumed : List Provider → Ending → List Effect
  unfolding worked
  consumed ps ending =
      let log = (handle_message env method body m []).1 in log ++ worked ps ending log

  turned_away :
      env.connected m.ident ≡ true
      → env.being_killed ≡ true
      → handle_message env method body m [] ≡ (ok tt, requeued m.ident ∷ [])
  unfolding handle_message spawn_worker requeue_if_killed requeue_message get_module_path str_eq
  turned_away alive killed = simp (killed, alive) refl

  taken :
      env.being_killed ≡ false
      → env.service_cls ≡ none
      → handle_message env method body m [] ≡ (ok tt, spawned worker_call ∷ [])
  unfolding handle_message spawn_worker
  taken living builds = simp (living, builds) refl

  abbrev with_worker : List Provider → Ending → List Effect → List Effect
  with_worker ps ending log = log ++ worked ps ending log

  -- A message of a live connection, whose service class can be made: if the container is being killed
  -- it is put back into the queue, and no worker takes it. Else a worker does, and settles it once if
  -- all of its dependencies are made and set up and its method is not killed: it is put back if the
  -- method raised and `requeue_on_error` is set, and acknowledged otherwise. In every other case it is
  -- never settled.
  pub message_is_settled :
      (ps : List Provider) (ending : Ending)
      → env.connected m.ident ≡ true
      → env.service_cls ≡ none
      → consumed ps ending ≡ (
          if env.being_killed
          then requeued m.ident ∷ []
          else spawned worker_call ∷ (if begins ps then settlement ending else []))
  unfolding consumed worked
  message_is_settled ps ending alive builds = elim (Bool-cases env.being_killed) [
    | inl killed ↦
        ap (λ (x : Effects.Result (Unit {0}) × List Effect). with_worker ps ending x.1)
          (turned_away alive killed)
        ∙ rw killed refl
    | inr living ↦
        ap (λ (x : Effects.Result (Unit {0}) × List Effect). with_worker ps ending x.1)
          (taken living builds)
        ∙ ap (λ es. spawned worker_call ∷ es) (append-nil _ ∙ works ps ending alive)
        ∙ rw living refl
  ]
