-- ===== src/Lifecycle/Order.antt =====
-- nameko/containers.py, `_run_worker`: which calls a worker makes, in which order, and how it ends.
use mathlib.Core.List.{append_assoc, append-nil}
use nameko_zh_cn.Base.{
  ◌≡◌, refl, ◌≢◌, ◌⊎◌, inl, inr, Option, none, some, List, [], ◌∷◌, ◌++◌, map, All, All-imp, sym,
  ap, ◌∙◌,
}
use nameko_zh_cn.Exceptions.{Exc}
use nameko_zh_cn.Lifecycle.{
  Provider, Outcome, Call, injected, set_up, called, handled, resulted, torn_down, Ending, returned,
  raised, greenlet_exit, Exit, failed, exited, Result, ok, end_with, Run, ◌>>=◌, hook, for_each,
  inject_dependencies, worker_setup, worker_result, call_method, Handling, gives, raises,
  handled_by, handle_result, run_worker,
}

for_each_quiet :
    (c : Provider → Call) (h : Provider → Option Exc) (ps : List Provider) (log : List Call)
    → All (λ p. h p ≡ none) ps
    → for_each (λ p. hook (c p) (h p)) ps log ≡ (ok tt, log ++ map c ps)
unfolding for_each hook
for_each_quiet c h [] log q = rw append-nil
for_each_quiet c h (p ∷ ps) log q = rw (q.0) (
    for_each_quiet c h ps (log ++ c p ∷ []) q.1
    ∙ ap (λ l. (ok tt, l)) (append_assoc log (c p ∷ []) (map c ps)))

-- What the `try` round the service method makes of its ending.
abbrev pub outcome_of : Ending → Outcome
outcome_of (returned v) = (some v, none)
outcome_of (raised e) = (none, some e)
outcome_of greenlet_exit = (none, none)

abbrev pub given : Handling → Outcome → Outcome
given (gives out') out = out'
given (raises e) out = out

-- The outcome that the providers are told.
abbrev pub final_outcome : Option (Outcome → Handling) → Outcome → Outcome
final_outcome none out = out
final_outcome (some h) out = given (h out) out

abbrev pub handled_calls : Option (Outcome → Handling) → Outcome → List Call
handled_calls none out = []
handled_calls (some h) out = handled out ∷ []

-- The calls of a worker that runs to its end.
abbrev pub whole : List Provider → Ending → Option (Outcome → Handling) → List Call
whole ps method handler =
    let out = outcome_of method in
    let out' = final_outcome handler out in
    map (λ p. injected p.attr_name) ps
    ++ (map (λ p. set_up p.attr_name) ps
        ++ ((called ∷ [])
            ++ (handled_calls handler out
                ++ (map (λ p. resulted p.attr_name out') ps
                    ++ map (λ p. torn_down p.attr_name) ps))))

-- A part of a worker, begun with `log`, that was to make the calls `cs`: it made them all and goes
-- on, or it made the first of them and ends the thread.
abbrev pub Part : {A : Type 0} → List Call → List Call → Result A × List Call → Type 0
Part {A} cs log o =
    ((a : A) × (o ≡ (ok a, log ++ cs)))
    ⊎ ((e : Exit) × (made : List Call) × (left : List Call) × (o ≡ (end_with e, log ++ made))
        × (made ++ left ≡ cs))

Part-bind :
    {A B : Type 0} (m : Run A) (f : A → Run B) (cs ds log : List Call)
    → Part cs log (m log)
    → ((a : A) → m log ≡ (ok a, log ++ cs) → Part ds (log ++ cs) (f a (log ++ cs)))
    → Part (cs ++ ds) log ((m >>= f) log)
Part-bind m f cs ds log (inl (a, e)) k = elim (k a e) [
  | inl (b, e') ↦ inl (b, rw e (rw append_assoc at e'))
  | inr (x, made, left, e', s) ↦ inr (
    x,
    cs ++ made,
    left,
    rw e (rw append_assoc at e'),
    append_assoc cs made left ∙ ap (λ l. cs ++ l) s,
  )
]
Part-bind m f cs ds log (inr (x, made, left, e, s)) k =
    inr (x, made, left ++ ds, rw e, sym (append_assoc made left ds) ∙ ap (λ l. l ++ ds) s)

Part-hook : (c : Call) (o : Option Exc) (log : List Call) → Part (c ∷ []) log (hook c o log)
unfolding hook
Part-hook c none log = inl (tt, refl)
Part-hook c (some e) log = inr (failed e, c ∷ [], [], refl, refl)

Part-handled :
    (h : Handling) (out : Outcome) (log : List Call)
    → Part (handled out ∷ []) log (handled_by h out log)
unfolding handled_by
Part-handled (gives out') out log = inl (out', refl)
Part-handled (raises e) out log = inr (failed e, handled out ∷ [], [], refl, refl)

handled-eq :
    (h : Handling) (out : Outcome) (log : List Call) {out' : Outcome} {log' : List Call}
    → handled_by h out log ≡ (ok out', log')
    → out' ≡ given h out
unfolding handled_by
handled-eq (gives out') out log e = cc
handled-eq (raises x) out log e = cc

Part-for_each :
    (c : Provider → Call) (h : Provider → Option Exc) (ps : List Provider) (log : List Call)
    → Part (map c ps) log (for_each (λ p. hook (c p) (h p)) ps log)
unfolding for_each hook
Part-for_each c h [] log = inl (tt, rw append-nil)
Part-for_each c h (p ∷ ps) log =
    Part-bind (hook (c p) (h p)) (λ _. for_each (λ q. hook (c q) (h q)) ps) (c p ∷ []) (map c ps)
      log (Part-hook (c p) (h p) log) (λ _ _. Part-for_each c h ps (log ++ c p ∷ []))

Part-call_method :
    (method : Ending) (log : List Call) → Part (called ∷ []) log (call_method method log)
unfolding call_method
Part-call_method (returned v) log = inl ((some v, none), refl)
Part-call_method (raised e) log = inl ((none, some e), refl)
Part-call_method greenlet_exit log = inr (exited, called ∷ [], [], refl, refl)

call_method-eq :
    (method : Ending) (log : List Call) {out : Outcome} {log' : List Call}
    → call_method method log ≡ (ok out, log')
    → out ≡ outcome_of method
unfolding call_method
call_method-eq (returned v) log e = cc
call_method-eq (raised x) log e = cc
call_method-eq greenlet_exit log e = cc

Part-handle_result :
    (handler : Option (Outcome → Handling)) (out : Outcome) (log : List Call)
    → Part (handled_calls handler out) log (handle_result handler out log)
unfolding handle_result
Part-handle_result none out log = inl (out, rw append-nil)
Part-handle_result (some h) out log = Part-handled (h out) out log

handle_result-eq :
    (handler : Option (Outcome → Handling)) (out : Outcome) (log : List Call) {out' : Outcome}
    {log' : List Call}
    → handle_result handler out log ≡ (ok out', log')
    → out' ≡ final_outcome handler out
unfolding handle_result
handle_result-eq none out log e = cc
handle_result-eq (some h) out log e = handled-eq (h out) out log e

-- A worker makes its calls in one order: each provider's dependency, each provider's set-up, the
-- service method, the entrypoint's `handle_result`, then every provider is told the outcome, then
-- each is torn down. It makes all of them, or its thread ends after the first of them.
pub run_worker_order :
    (ps : List Provider) (method : Ending) (handler : Option (Outcome → Handling))
    → Part (whole ps method handler) [] (run_worker ps method handler [])
unfolding run_worker
run_worker_order ps method handler =
    Part-bind (inject_dependencies ps) _ _ _ [] (Part-for_each _ _ ps []) λ _ _.
      Part-bind (worker_setup ps) _ _ _ _ (Part-for_each _ _ ps _) λ _ _.
        Part-bind (call_method method) _ (called ∷ []) _ _ (Part-call_method method _) λ out e.
          rw (call_method-eq method _ e) (
            Part-bind (handle_result handler (outcome_of method)) _ _ _ _
              (Part-handle_result handler (outcome_of method) _)
              λ out' e'. rw (handle_result-eq handler (outcome_of method) _ e') (
                Part-bind (worker_result (final_outcome handler (outcome_of method)) ps) _ _ _ _
                  (Part-for_each _ _ ps _) (λ _ _. Part-for_each _ _ ps _)))

abbrev pub IsQuiet : Provider → Type 0
IsQuiet p =
    (p.get_dependency ≡ none)
    × (p.worker_setup ≡ none)
    × (p.worker_result ≡ none)
    × (p.worker_teardown ≡ none)

-- `handle_result`, where there is one, does not raise.
abbrev pub Answers : Option (Outcome → Handling) → Outcome → Type 0
Answers none out = Unit
Answers (some h) out = (out' : Outcome) × (h out ≡ gives out')

handle_result-Answers :
    (handler : Option (Outcome → Handling)) (out : Outcome) (log : List Call)
    → Answers handler out
    → handle_result handler out log
      ≡ (ok (final_outcome handler out), log ++ handled_calls handler out)
unfolding handle_result handled_by
handle_result-Answers none out log a = rw append-nil
handle_result-Answers (some h) out log (out', e) = rw e

call_method_caught :
    (method : Ending) (log : List Call)
    → method ≢ greenlet_exit
    → call_method method log ≡ (ok (outcome_of method), log ++ called ∷ [])
unfolding call_method
call_method_caught (returned v) log n = refl
call_method_caught (raised e) log n = refl
call_method_caught greenlet_exit log n = absurd (n refl)

-- The rule of a statement that goes on.
goes_on :
    {A B : Type 0} (m : Run A) (f : A → Run B) {a : A} {log log' : List Call}
    → m log ≡ (ok a, log')
    → (m >>= f) log ≡ f a log'
goes_on m f e = rw e

-- Whether the service method returns or raises, a worker whose providers' hooks and whose
-- `handle_result` do not raise makes every call and ends its thread with no exception.
pub run_worker_complete :
    (ps : List Provider) (method : Ending) (handler : Option (Outcome → Handling))
    → All IsQuiet ps
    → method ≢ greenlet_exit
    → Answers handler (outcome_of method)
    → run_worker ps method handler [] ≡ (ok tt, whole ps method handler)
unfolding run_worker
run_worker_complete ps method handler quiet n a =
    goes_on (inject_dependencies ps) _ (for_each_quiet _ _ ps _ (All-imp ps (λ p q. q.0) quiet))
    ∙ goes_on (worker_setup ps) _ (for_each_quiet _ _ ps _ (All-imp ps (λ p q. q.1) quiet))
    ∙ goes_on (call_method method) _ (call_method_caught method _ n)
    ∙ goes_on (handle_result handler (outcome_of method)) _
        (handle_result-Answers handler (outcome_of method) _ a)
    ∙ goes_on (worker_result (final_outcome handler (outcome_of method)) ps) _
        (for_each_quiet _ _ ps _ (All-imp ps (λ p q. q.2) quiet))
    ∙ for_each_quiet _ _ ps _ (All-imp ps (λ p q. q.3) quiet)
    ∙ ap (λ l. (ok tt, l)) (simp append_assoc)
