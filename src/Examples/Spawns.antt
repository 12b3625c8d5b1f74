-- ===== src/Examples/Spawns.antt =====
-- The theorems of Concurrency and Runners at two containers.
use nameko_zh_cn.Base.{
  ℕ, codes, ◌≡◌, refl, true, [], ◌∷◌, ◌++◌, str_keys, contains, discard, nat_eq,
}
use nameko_zh_cn.Values.{Value, str}
use nameko_zh_cn.Exceptions.{Exc}
use nameko_zh_cn.Concurrency.{returned, finished, raised, threw, ends, resumes, run, spawn_all}
use nameko_zh_cn.Concurrency.Prompt.{
  one_by_one, ongoing, values, rounds, after, prompt_consumer_fails_fast,
}
use nameko_zh_cn.Concurrency.Lost.{all_end, endings, outcomes, late_outcomes_are_lost}
use nameko_zh_cn.Runners.{ServiceClass, named, ServiceRunner, containers, Waited, stop_all, wait}
use nameko_zh_cn.Runners.Waiting.{failure_stops_all}
use nameko_zh_cn.Examples.Exceptions.{no_such_method}

abbrev done : Value
done = str (codes "done")

prompt_consumer_fails_fast_example :
    let s = run (resumes ∷ rounds ((2, done) ∷ [])) (spawn_all (1 ∷ 2 ∷ 3 ∷ [])) in
    (s.yielded ≡ values ((2, done) ∷ []))
    × (s.consumer ≡ after (ongoing (1 ∷ 2 ∷ 3 ∷ []) ((2, done) ∷ [])))
    × ((gt : ℕ) (e : Exc)
        → contains gt (ongoing (1 ∷ 2 ∷ 3 ∷ []) ((2, done) ∷ [])) ≡ true
        → let t = run (ends gt (raised e) ∷ resumes ∷ []) s in
          (t.consumer ≡ threw e)
          × (t.yielded ≡ values ((2, done) ∷ []))
          × (t.killed ≡ discard gt (ongoing (1 ∷ 2 ∷ 3 ∷ []) ((2, done) ∷ []))))
unfolding one_by_one contains
prompt_consumer_fails_fast_example =
    prompt_consumer_fails_fast (1 ∷ 2 ∷ 3 ∷ []) ((2, done) ∷ []) refl

-- The last two of three threads end together, and one of them raises.
late_outcomes_are_lost_example :
    let s = run (resumes ∷ rounds ((2, done) ∷ [])) (spawn_all (1 ∷ 2 ∷ 3 ∷ [])) in
    let late = endings ((3, returned done) ∷ (1, raised no_such_method) ∷ []) in
    let t = run (late ++ (resumes ∷ resumes ∷ [])) s in
    (t.consumer ≡ finished)
    × (t.yielded ≡ values ((2, done) ∷ []) ++ done ∷ [])
    × (t.result_queue ≡ outcomes ((1, raised no_such_method) ∷ []))
    × (t.killed ≡ [])
unfolding one_by_one contains all_end ongoing discard
late_outcomes_are_lost_example =
    late_outcomes_are_lost (1 ∷ 2 ∷ 3 ∷ []) ((2, done) ∷ []) 3 done
      ((1, raised no_such_method) ∷ []) refl refl

abbrev pub spam : ServiceClass
spam = record { ident = 1; name = named (codes "spam") }

abbrev pub eggs : ServiceClass
eggs = record { ident = 2; name = named (codes "eggs") }

abbrev runner : ServiceRunner
runner = record { service_map = (codes "spam", 1) ∷ (codes "eggs", 2) ∷ [] }

failure_stops_all_example :
    wait
      ((resumes ∷ rounds ((2, done) ∷ [])) ++ ends 1 (raised no_such_method) ∷ resumes ∷ [])
      runner
    ≡ (Waited.raised no_such_method, stop_all runner)
unfolding containers one_by_one ongoing contains discard
failure_stops_all_example = failure_stops_all runner ((2, done) ∷ []) 1 no_such_method refl refl
