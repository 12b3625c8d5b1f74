-- ===== src/Runners/Waiting.antt =====
-- nameko/runners.py: ServiceRunner.wait, with the threads of nameko/utils/concurrency/__init__.py.
use nameko_zh_cn.Base.{ℕ, ◌≡◌, refl, ap, ◌∙◌, true, List, [], ◌∷◌, ◌++◌, contains, discard, nat_eq}
use nameko_zh_cn.Values.{Value}
use nameko_zh_cn.Exceptions.{Exc}
use nameko_zh_cn.Concurrency.{Imap, ends, resumes, raised, run, spawn_all, call_all, Action}
use nameko_zh_cn.Concurrency.Prompt.{one_by_one, ongoing, rounds, prompt_consumer_fails_fast}
use nameko_zh_cn.Runners.{ServiceRunner, containers, wait, Waited, stop_all, after_wait}

run-append : (xs ys : List Action) (s : Imap) → run (xs ++ ys) s ≡ run ys (run xs s)
unfolding run
run-append [] ys s = refl
run-append (x ∷ xs) ys s = run-append xs ys _

none_ongoing : (ps : List (ℕ × Value)) → ongoing [] ps ≡ []
unfolding ongoing discard
none_ongoing [] = refl
none_ongoing ((gt, v) ∷ ps) = none_ongoing ps

all_called :
    (ts : List ℕ) (c : ℕ) (ps : List (ℕ × Value)) (schedule : List Action)
    → contains c (ongoing ts ps) ≡ true
    → call_all ts schedule ≡ run schedule (spawn_all ts)
unfolding call_all contains
all_called [] c ps schedule h = absurd (cc (h, ap (contains c) (none_ongoing ps)))
all_called (t ∷ ts) c ps schedule h = refl

-- Containers that stopped before do not count: when one that still runs dies of an exception, `wait`
-- stops all the containers of the runner and raises that exception. The runner's thread runs after
-- each container's death.
pub failure_stops_all :
    (r : ServiceRunner) (ps : List (ℕ × Value)) (c : ℕ) (e : Exc)
    → one_by_one (containers r) ps ≡ true
    → contains c (ongoing (containers r) ps) ≡ true
    → wait ((resumes ∷ rounds ps) ++ ends c (raised e) ∷ resumes ∷ []) r
      ≡ (Waited.raised e, stop_all r)
unfolding wait after_wait
failure_stops_all r ps c e h here =
    let prompt = prompt_consumer_fails_fast (containers r) ps h in
    let killed = prompt.2 c e here in
    let whole =
      all_called (containers r) c ps ((resumes ∷ rounds ps) ++ ends c (raised e) ∷ resumes ∷ [])
        here
      ∙ run-append (resumes ∷ rounds ps) (ends c (raised e) ∷ resumes ∷ [])
          (spawn_all (containers r)) in
    ap (λ x. after_wait x r) (ap (λ x. x.consumer) whole ∙ killed.0)
