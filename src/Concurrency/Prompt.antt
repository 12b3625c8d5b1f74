-- ===== src/Concurrency/Prompt.antt =====
-- nameko/utils/concurrency/__init__.py: a consumer that runs after each thread's end, and one that
-- does not.
use nameko_zh_cn.Base.{
  ℕ, ◌≡◌, refl, sym, ap, ◌∙◌, Bool, true, false, ◌&&◌, List, [], ◌∷◌, ◌++◌, contains, discard,
  nat_eq,
}
use mathlib.Core.List.{append_assoc, append-nil}
use nameko_zh_cn.Values.{Value}
use nameko_zh_cn.Exceptions.{Exc}
use nameko_zh_cn.Concurrency.{
  returned, raised, Consumer, getting, finished, threw, Imap, spawn_all, handle_result, test_loop,
  take_result, consume, Action, ends, resumes, step, run,
}

-- Each thread ends once, while it is among the spawned ones.
unfoldable pub one_by_one : List ℕ → List (ℕ × Value) → Bool
unfolding contains discard
one_by_one ts [] = true
one_by_one ts ((gt, v) ∷ ends_) = contains gt ts && one_by_one (discard gt ts) ends_

-- The threads that are still going.
unfoldable pub ongoing : List ℕ → List (ℕ × Value) → List ℕ
unfolding discard
ongoing ts [] = ts
ongoing ts ((gt, v) ∷ ends_) = ongoing (discard gt ts) ends_

unfoldable pub values : List (ℕ × Value) → List Value
values [] = []
values ((gt, v) ∷ ends_) = v ∷ values ends_

-- After each end the consumer takes the result, and tests the loop.
unfoldable pub rounds : List (ℕ × Value) → List Action
rounds [] = []
rounds ((gt, v) ∷ ends_) = ends gt (returned v) ∷ resumes ∷ resumes ∷ rounds ends_

abbrev pub after : List ℕ → Consumer
after [] = finished
after (t ∷ ts) = getting

left_after :
    (ts : List ℕ) (s : Imap)
    → s.spawned_threads ≡ ts
    → test_loop ts s ≡ record s { consumer = after ts }
unfolding test_loop
left_after [] s e = refl
left_after (t ∷ ts) s e = refl

round :
    (gt : ℕ) (v : Value) (ts : List ℕ) (ys : List Value) (ks : List ℕ)
    → contains gt ts ≡ true
    → run (ends gt (returned v) ∷ resumes ∷ resumes ∷ []) (record {
      spawned_threads = ts;
      result_queue = [];
      consumer = getting;
      yielded = ys;
      killed = ks;
    })
      ≡ record {
        spawned_threads = discard gt ts;
        result_queue = [];
        consumer = after (discard gt ts);
        yielded = ys ++ v ∷ [];
        killed = ks;
      }
unfolding run step handle_result consume take_result
round gt v ts ys ks here = rw here (left_after (discard gt ts) _ refl)

abbrev pub at : List ℕ → Consumer → List Value → Imap
at ts c ys = record {
  spawned_threads = ts;
  result_queue = [];
  consumer = c;
  yielded = ys;
  killed = [];
}

pub after_some : (gt : ℕ) (ts : List ℕ) → contains gt ts ≡ true → after ts ≡ getting
unfolding contains
after_some gt [] h = cc
after_some gt (t ∷ ts) h = refl

pub both : (a b : Bool) → (a && b) ≡ true → (a ≡ true) × (b ≡ true)
both true true h = (refl, refl)
both true false h = cc
both false b h = cc

pub all_rounds :
    (ps : List (ℕ × Value)) (ts : List ℕ) (ys : List Value)
    → one_by_one ts ps ≡ true
    → run (rounds ps) (at ts (after ts) ys)
      ≡ at (ongoing ts ps) (after (ongoing ts ps)) (ys ++ values ps)
unfolding one_by_one ongoing values rounds run
all_rounds [] ts ys h = ap (at ts (after ts)) (sym (append-nil ys))
all_rounds ((gt, v) ∷ ps) ts ys h =
    let (here, rest) = both (contains gt ts) (one_by_one (discard gt ts) ps) h in
    ap (λ c. run (rounds ((gt, v) ∷ ps)) (at ts c ys)) (after_some gt ts here)
    ∙ ap (run (rounds ps)) (round gt v ts ys [] here)
    ∙ all_rounds ps (discard gt ts) (ys ++ v ∷ []) rest
    ∙ ap (at _ _) (append_assoc ys (v ∷ []) (values ps))

failure :
    (gt : ℕ) (e : Exc) (ts : List ℕ) (ys : List Value)
    → contains gt ts ≡ true
    → run (ends gt (raised e) ∷ resumes ∷ []) (at ts (after ts) ys) ≡ record {
      spawned_threads = discard gt ts;
      result_queue = [];
      consumer = threw e;
      yielded = ys;
      killed = discard gt ts;
    }
unfolding run step handle_result consume take_result
failure gt e ts ys here = rw (after_some gt ts here) (rw here refl)

pub starts : (ts : List ℕ) → run (resumes ∷ []) (spawn_all ts) ≡ at ts (after ts) []
unfolding run step consume spawn_all
starts ts = left_after ts (spawn_all ts) refl

-- If the consumer runs after each end: it hands on the results in the order in which the threads end,
-- and it ends itself when none is going any more; and at the first thread that raises it kills just
-- those that are still going, and throws the exception.
pub prompt_consumer_fails_fast :
    (ts : List ℕ) (ps : List (ℕ × Value))
    → one_by_one ts ps ≡ true
    → let s = run (resumes ∷ rounds ps) (spawn_all ts) in
      (s.yielded ≡ values ps)
      × (s.consumer ≡ after (ongoing ts ps))
      × ((gt : ℕ) (e : Exc)
          → contains gt (ongoing ts ps) ≡ true
          → let t = run (ends gt (raised e) ∷ resumes ∷ []) s in
            (t.consumer ≡ threw e)
            × (t.yielded ≡ values ps)
            × (t.killed ≡ discard gt (ongoing ts ps)))
unfolding run
prompt_consumer_fails_fast ts ps h =
    let reached = ap (run (rounds ps)) (starts ts) ∙ all_rounds ps ts [] h in
    (
      ap (λ x. x.yielded) reached,
      ap (λ x. x.consumer) reached,
      λ gt e here.
          let failed =
            ap (run (ends gt (raised e) ∷ resumes ∷ [])) reached
            ∙ failure gt e (ongoing ts ps) (values ps) here in
          (ap (λ x. x.consumer) failed, ap (λ x. x.yielded) failed, ap (λ x. x.killed) failed),
    )
