-- ===== src/Concurrency/Accounts.antt =====
-- nameko/utils/concurrency/__init__.py: where the outcome of each thread is, in any order of turns.
use nameko_zh_cn.Base.{
  ℕ, ◌≡◌, refl, sym, ap, ◌∙◌, List, [], ◌∷◌, ◌++◌, map, contains, discard, nat_eq, Bool-cases, inl,
  inr, if◌then◌else◌,
}
use mathlib.Core.List.{append_assoc, append-nil, map-append}
use nameko_zh_cn.Values.{Value}
use nameko_zh_cn.Concurrency.{
  Outcome, returned, raised, Consumer, testing, getting, finished, threw, Imap, handle_result,
  test_loop, take_result, consume, Action, ends, resumes, step, run,
}

-- The outcomes that were put into the queue, in order.
unfoldable pub reported : List Action → Imap → List Outcome
unfolding step
reported [] s = []
reported (resumes ∷ as_) s = reported as_ (step resumes s)
reported (ends gt outcome ∷ as_) s =
    let rest = reported as_ (step (ends gt outcome) s) in
    if contains gt s.spawned_threads then outcome ∷ rest else rest

-- The exception that the consumer took out of the queue to throw it.
abbrev pub thrown : Consumer → List Outcome
thrown (threw e) = raised e ∷ []
thrown _ = []

-- What left the queue, and what is in it.
abbrev pub account : List Value → Consumer → List Outcome → List Outcome
account yielded consumer queue = (map returned yielded ++ thrown consumer) ++ queue

abbrev pub accounted : Imap → List Outcome
accounted s = account s.yielded s.consumer s.result_queue

as_was :
    (s : Imap) (c : Consumer) (queue : List Outcome)
    → s.consumer ≡ c
    → s.result_queue ≡ queue
    → account s.yielded c queue ≡ accounted s
as_was s c queue at q =
    ap (λ x. account s.yielded x queue) (sym at) ∙ ap (account s.yielded s.consumer) (sym q)

taken :
    (queue : List Outcome) (s : Imap)
    → s.consumer ≡ getting
    → s.result_queue ≡ queue
    → accounted (take_result queue s) ≡ accounted s
unfolding take_result
taken [] s at q = refl
taken (returned v ∷ queue) s at q =
    simp (map-append, append_assoc) refl ∙ as_was s getting (returned v ∷ queue) at q
taken (raised e ∷ queue) s at q =
    simp (append_assoc) refl ∙ as_was s getting (raised e ∷ queue) at q

tested : (ts : List ℕ) (s : Imap) → s.consumer ≡ testing → accounted (test_loop ts s) ≡ accounted s
unfolding test_loop
tested [] s at = as_was s testing s.result_queue at refl
tested (t ∷ ts) s at = as_was s testing s.result_queue at refl

consumed : (c : Consumer) (s : Imap) → s.consumer ≡ c → accounted (consume c s) ≡ accounted s
unfolding consume test_loop
consumed testing s at = tested s.spawned_threads s at
consumed getting s at = taken s.result_queue s at refl
consumed finished s at = refl
consumed (threw e) s at = refl

-- In any order of turns: the results that were handed on, then the exception that was thrown if one
-- was, then what is left in the queue, are together the outcomes of the threads in the order in which
-- they ended. None is doubled, reordered or made up.
pub outcomes_are_accounted :
    (as_ : List Action) (s : Imap) → accounted (run as_ s) ≡ accounted s ++ reported as_ s
unfolding run step reported handle_result
outcomes_are_accounted [] s = sym (append-nil _)
outcomes_are_accounted (resumes ∷ as_) s =
    outcomes_are_accounted as_ (step resumes s)
    ∙ ap (λ o. o ++ reported as_ (step resumes s)) (consumed s.consumer s refl)
outcomes_are_accounted (ends gt outcome ∷ as_) s =
    elim (Bool-cases (contains gt s.spawned_threads)) [
      | inl here ↦
          let s' = record s {
            spawned_threads = discard gt s.spawned_threads;
            result_queue = s.result_queue ++ outcome ∷ [];
          } in
          simp here (outcomes_are_accounted as_ s' ∙ simp append_assoc refl)
      | inr gone ↦ simp gone (outcomes_are_accounted as_ s)
    ]
