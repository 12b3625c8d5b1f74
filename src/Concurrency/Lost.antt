-- ===== src/Concurrency/Lost.antt =====
-- nameko/utils/concurrency/__init__.py: a consumer that is too late.
use nameko_zh_cn.Base.{
  ℕ, ◌≡◌, refl, sym, ap, ◌∙◌, Bool, true, false, ◌&&◌, List, [], ◌∷◌, ◌++◌, contains, discard,
  nat_eq,
}
use mathlib.Core.List.{append_assoc, append-nil}
use nameko_zh_cn.Values.{Value}
use nameko_zh_cn.Concurrency.{
  Outcome, returned, getting, finished, Imap, spawn_all, handle_result, test_loop, take_result,
  consume, Action, ends, resumes, step, run,
}
use nameko_zh_cn.Concurrency.Prompt.{
  one_by_one, ongoing, values, rounds, at, after_some, both, all_rounds, starts,
}

-- Each of the threads ends, once, and there is no other.
unfoldable pub all_end : List ℕ → List (ℕ × Outcome) → Bool
unfolding contains discard
all_end [] [] = true
all_end (t ∷ ts) [] = false
all_end ts ((gt, o) ∷ ends_) = contains gt ts && all_end (discard gt ts) ends_

unfoldable pub endings : List (ℕ × Outcome) → List Action
endings [] = []
endings ((gt, o) ∷ ends_) = ends gt o ∷ endings ends_

unfoldable pub outcomes : List (ℕ × Outcome) → List Outcome
outcomes [] = []
outcomes ((gt, o) ∷ ends_) = o ∷ outcomes ends_

abbrev queued : List ℕ → List Outcome → List Value → Imap
queued ts queue ys = record {
  spawned_threads = ts;
  result_queue = queue;
  consumer = getting;
  yielded = ys;
  killed = [];
}

thread_ends :
    (gt : ℕ) (o : Outcome) (ts : List ℕ) (queue : List Outcome) (ys : List Value)
    → contains gt ts ≡ true
    → handle_result gt o (queued ts queue ys) ≡ queued (discard gt ts) (queue ++ o ∷ []) ys
unfolding handle_result
thread_ends gt o ts queue ys here = rw here refl

-- While the consumer does not run, what the threads end with piles up in the queue.
piles_up :
    (ends_ : List (ℕ × Outcome)) (ts : List ℕ) (queue : List Outcome) (ys : List Value)
    (later : List Action)
    → all_end ts ends_ ≡ true
    → run (endings ends_ ++ later) (queued ts queue ys)
      ≡ run later (queued [] (queue ++ outcomes ends_) ys)
unfolding all_end endings outcomes run step
piles_up [] [] queue ys later h = ap (λ q. run later (queued [] q ys)) (sym (append-nil queue))
piles_up [] (t ∷ ts) queue ys later h = cc
piles_up ((gt, o) ∷ ends_) ts queue ys later h =
    let (here, rest) = both (contains gt ts) (all_end (discard gt ts) ends_) h in
    ap (run (endings ends_ ++ later)) (thread_ends gt o ts queue ys here)
    ∙ piles_up ends_ (discard gt ts) (queue ++ o ∷ []) ys later rest
    ∙ ap (λ q. run later (queued [] q ys)) (append_assoc queue (o ∷ []) (outcomes ends_))

stops_early :
    (v : Value) (queue : List Outcome) (ys : List Value)
    → run (resumes ∷ resumes ∷ []) (queued [] (returned v ∷ queue) ys)
      ≡ record (queued [] queue (ys ++ v ∷ [])) { consumer = finished }
unfolding run step consume take_result test_loop
stops_early v queue ys = refl

-- However many threads there are, and however many of their results the consumer has handed on as
-- they ended: if all the threads that are left end before it runs again, the first of them with a
-- result, it hands on that result and ends itself; what the others ended with stays in the queue,
-- so that no result of theirs is handed on and no exception of theirs is thrown.
pub late_outcomes_are_lost :
    (ts : List ℕ) (ps : List (ℕ × Value)) (gt : ℕ) (v : Value) (others : List (ℕ × Outcome))
    → one_by_one ts ps ≡ true
    → all_end (ongoing ts ps) ((gt, returned v) ∷ others) ≡ true
    → let s = run (resumes ∷ rounds ps) (spawn_all ts) in
      let late = endings ((gt, returned v) ∷ others) in
      let t = run (late ++ (resumes ∷ resumes ∷ [])) s in
      (t.consumer ≡ finished)
      × (t.yielded ≡ values ps ++ v ∷ [])
      × (t.result_queue ≡ outcomes others)
      × (t.killed ≡ [])
unfolding run all_end endings outcomes
late_outcomes_are_lost ts ps gt v others h k =
    let left = ongoing ts ps in
    let here = (both (contains gt left) (all_end (discard gt left) others) k).0 in
    let late = endings ((gt, returned v) ∷ others) ++ (resumes ∷ resumes ∷ []) in
    let reached =
      ap (run (rounds ps)) (starts ts)
      ∙ all_rounds ps ts [] h
      ∙ ap (λ c. at left c (values ps)) (after_some gt left here) in
    let ended =
      ap (run late) reached
      ∙ piles_up ((gt, returned v) ∷ others) left [] (values ps) (resumes ∷ resumes ∷ []) k
      ∙ stops_early v (outcomes others) (values ps) in
    (
      ap (λ x. x.consumer) ended,
      ap (λ x. x.yielded) ended,
      ap (λ x. x.result_queue) ended,
      ap (λ x. x.killed) ended,
    )
