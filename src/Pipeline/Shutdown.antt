-- ===== src/Pipeline/Shutdown.antt =====
-- A pipeline destroys all its resources when it shuts down.
use nameko_zh_cn.Base.{
  ℕ, ◌+◌, ◌≤◌, Bool, true, false, Option, none, some, List, [], length, if◌then◌else◌, ◌≡◌, refl,
  subst, eqb, arith, is_some, ap,
}
use nameko_zh_cn.Pipeline.{Pipeline, new_pipeline, started, Turn, run}
use nameko_zh_cn.Pipeline.Accounted.{
  IsAccounted, run-IsAccounted, places, count, count_trash, count_made, below,
}
use nameko_zh_cn.Pipeline.Steps.{run-IsOrderly}
use nameko_zh_cn.Pipeline.Orderly.{IsOrderly, has_stop}

pub started-IsOrderly : (n : ℕ) → IsOrderly (started n)
unfolding started has_stop
started-IsOrderly n = record {
  dead_empty = λ x. refl;
  dead_stopped = λ x. cc;
  ended = λ x y. cc;
  room = omega arith;
  running_room = λ x. refl;
  most = omega arith;
  running_waiting = λ x. refl;
  drained_dead = λ x. cc;
  drained_empty = λ x. refl;
  stop_drained = λ x. cc;
  dead_drained = λ x. cc;
}

pub started-IsAccounted : (n : ℕ) → IsAccounted (started n)
unfolding started places count count_trash count_made below
started-IsAccounted n i = ground arith

else_some : (b : Bool) (s p : Pipeline) → (if b then none else some s) ≡ some p → s ≡ p
else_some true s p e = cc
else_some false s p e = cc

pub is_started : (n : ℕ) (p : Pipeline) → new_pipeline n ≡ some p → started n ≡ p
unfolding new_pipeline
is_started n p e = else_some (eqb n 0) (started n) p e

one_at_most : (o : Option ℕ) → (if is_some o then 1 else 0) ≤ 1
one_at_most none = omega arith
one_at_most (some i) = omega arith

below_le : (i n : ℕ) → below i n ≤ 1
unfolding below
below_le i n = ground arith

ahead :
    (q : Pipeline)
    → IsOrderly q
    → q.running ≡ true
    → length q.ready + (if is_some q.made then 1 else 0) ≤ q.size + 1
ahead q o r = omega (arith, o.room, o.running_room r, one_at_most q.made)

apart : (q : Pipeline) → IsAccounted q → (i : ℕ) → count i q.in_use + count i q.destroyed ≤ 1
unfolding places
apart q a i = omega (arith, a i, below_le i q.created)

pub all_destroyed :
    (q : Pipeline)
    → IsOrderly q
    → IsAccounted q
    → q.destroy_dead ≡ true
    → q.in_use ≡ []
    → q.trash ≡ []
    → (i : ℕ) → count i q.destroyed ≡ below i q.created
unfolding places count count_trash count_made
all_destroyed q o a d u t i =
    let x = o.dead_drained d in
    omega (
      arith,
      a i,
      ap (count i) u,
      ap (count_trash i) t,
      ap (count i) (o.drained_empty x),
      ap (count_made i) (o.dead_empty (o.drained_dead x)),
    )

-- Whatever its users and its threads do, in whatever order: while a pipeline runs, at most one more
-- than `size` resources are created that nobody got; a resource in use was not destroyed and none is
-- destroyed twice; and once the destroy thread has ended, with no resource in use or given back since,
-- exactly the resources that were created have been destroyed, each once.
pub destroyed_once :
    (n : ℕ) (turns : List Turn) (p : Pipeline)
    → new_pipeline n ≡ some p
    → let q = run turns p in
      (q.running ≡ true → length q.ready + (if is_some q.made then 1 else 0) ≤ q.size + 1)
      × ((i : ℕ) → count i q.in_use + count i q.destroyed ≤ 1)
      × (q.destroy_dead ≡ true
          → q.in_use ≡ []
          → q.trash ≡ []
          → (i : ℕ) → count i q.destroyed ≡ below i q.created)
destroyed_once n turns p e =
    let q = run turns p in
    let s = is_started n p e in
    let o = run-IsOrderly turns p (subst IsOrderly s (started-IsOrderly n)) in
    let a = run-IsAccounted turns p (subst (λ r. IsAccounted r) s (started-IsAccounted n)) in
    (ahead q o, apart q a, all_destroyed q o a)
