-- ===== src/Pipeline/Completed.antt =====
-- A pipeline's shutdown comes to an end.
use nameko_zh_cn.Base.{
  ℕ, zero, suc, ◌+◌, Bool, true, false, Option, none, some, List, [], ◌∷◌, ◌++◌, length, ltb,
  if◌then◌else◌, ◌≡◌, refl, sym, subst, arith, lt→ltb, Bool-cases, ◌||◌, inl, inr, ap, ◌∙◌,
}
use nameko_zh_cn.Pipeline.{
  Trash, unused, stop, Pipeline, new_pipeline, create, put_ready, create_from, destroy_from,
  drain_from, create_turn, destroy_turn, begin_shutdown, drain_turn, Turn, creates, destroys,
  shuts_down, drains, step, run,
}
use nameko_zh_cn.Pipeline.Accounted.{IsAccounted, run-IsAccounted, count, below}
use nameko_zh_cn.Pipeline.Steps.{run-IsOrderly, or_dead}
use nameko_zh_cn.Pipeline.Orderly.{IsOrderly, has_stop, has_stop-append}
use nameko_zh_cn.Pipeline.Shutdown.{
  started-IsOrderly, started-IsAccounted, is_started, all_destroyed,
}

replicate : ℕ → Turn → List Turn
replicate zero t = []
replicate (suc n) t = t ∷ replicate n t

run-append : (ts us : List Turn) (p : Pipeline) → run (ts ++ us) p ≡ run us (run ts p)
unfolding run
run-append [] us p = refl
run-append (t ∷ ts) us p = run-append ts us (step t p)

if_true : (b : Bool) (p q : Pipeline) → b ≡ true → (if b then p else q) ≡ p
if_true b p q e = rw e refl

if_false : (b : Bool) (p q : Pipeline) → b ≡ false → (if b then p else q) ≡ q
if_false b p q e = rw e refl

neither : (b c : Bool) → b ≡ false → c ≡ false → (b || c) ≡ false
neither b c e f = rw (e, f) refl

drain-last :
    (p : Pipeline)
    → p.ready ≡ []
    → p.running ≡ false
    → p.create_dead ≡ true
    → p.waiting ≡ false
    → p.drained ≡ false
    → step drains p ≡ record p { trash = p.trash ++ stop ∷ []; drained = true }
unfolding step drain_turn drain_from
drain-last p e s d w n =
    if_false p.running p _ s
    ∙ ap (λ r. drain_from r p) e
    ∙ if_false (p.waiting || p.drained) p _ (neither p.waiting p.drained w n)
    ∙ if_true p.create_dead _ _ d

drain-next :
    (i : ℕ) (r : List ℕ) (p : Pipeline)
    → p.ready ≡ i ∷ r
    → p.running ≡ false
    → p.drained ≡ false
    → step drains p ≡ record p { ready = r; trash = p.trash ++ unused i ∷ []; waiting = false }
unfolding step drain_turn drain_from
drain-next i r p e s n =
    if_false p.running p _ s ∙ ap (λ r. drain_from r p) e ∙ if_false p.drained p _ n

-- What the shutdown leaves for the destroy thread.
record IsDrained (in_use : List ℕ) (destroy_dead : Bool) (q : Pipeline) : Type 0 where
  drained : q.drained ≡ true
  same_use : q.in_use ≡ in_use
  same_thread : q.destroy_dead ≡ destroy_dead
  stops : (t : List Trash) × (q.trash ≡ t ++ stop ∷ []) × (has_stop t ≡ false)

drains_all :
    (r : List ℕ) (p : Pipeline)
    → p.ready ≡ r
    → p.running ≡ false
    → p.create_dead ≡ true
    → p.waiting ≡ false
    → p.drained ≡ false
    → has_stop p.trash ≡ false
    → IsDrained p.in_use p.destroy_dead (run (replicate (suc (length r)) drains) p)
unfolding run replicate has_stop
drains_all [] p e s d w n h =
    subst (IsDrained p.in_use p.destroy_dead) (sym (drain-last p e s d w n))
      (record { drained = refl; same_use = refl; same_thread = refl; stops = (p.trash, refl, h) })
drains_all (i ∷ r) p e s d w n h =
    subst (λ x. IsDrained p.in_use p.destroy_dead (run (replicate (suc (length r)) drains) x))
      (sym (drain-next i r p e s n))
      (drains_all r (record p { ready = r; trash = p.trash ++ unused i ∷ []; waiting = false }) refl
        s d refl n (has_stop-append p.trash (unused i ∷ []) ∙ neither _ _ h refl))

record IsDestroyed (in_use : List ℕ) (q : Pipeline) : Type 0 where
  dead : q.destroy_dead ≡ true
  empty : q.trash ≡ []
  same_use : q.in_use ≡ in_use

destroy-next :
    (t : List Trash) (p : Pipeline)
    → p.trash ≡ t
    → p.destroy_dead ≡ false
    → step destroys p ≡ destroy_from t p
unfolding step destroy_turn
destroy-next t p e d = if_false p.destroy_dead p _ d ∙ ap (λ t. destroy_from t p) e

-- The destroy thread works through the trash up to STOP.
destroys_all :
    (t : List Trash) (p : Pipeline)
    → p.trash ≡ t ++ stop ∷ []
    → has_stop t ≡ false
    → p.destroy_dead ≡ false
    → IsDestroyed p.in_use (run (replicate (suc (length t)) destroys) p)
unfolding run replicate has_stop destroy_from
destroys_all [] p e h d =
    subst (IsDestroyed p.in_use) (sym (destroy-next (stop ∷ []) p e d))
      (record { dead = refl; empty = refl; same_use = refl })
destroys_all (stop ∷ t) p e h d = cc
destroys_all (unused i ∷ t) p e h d =
    subst (λ x. IsDestroyed p.in_use (run (replicate (suc (length t)) destroys) x))
      (sym (destroy-next (unused i ∷ (t ++ stop ∷ [])) p e d))
      (destroys_all t (record p { trash = t ++ stop ∷ []; destroyed = p.destroyed ++ i ∷ [] }) refl
        h d)

-- A pipeline whose create thread has ended, and whose shutdown has its loop to do.
record IsClosing (in_use : List ℕ) (q : Pipeline) : Type 0 where
  stopped : q.running ≡ false
  dead : q.create_dead ≡ true
  same_use : q.in_use ≡ in_use
  awake : q.waiting ≡ false
  undrained : q.drained ≡ false
  no_stop : has_stop q.trash ≡ false
  alive : q.destroy_dead ≡ false

contradiction : (b : Bool) → (b ≡ true → ⊥) → b ≡ false
contradiction true h = absurd (h refl)
contradiction false h = refl

undrained_running : (p : Pipeline) → IsOrderly p → p.running ≡ true → p.drained ≡ false
undrained_running p h r = elim (Bool-cases p.drained) [
  | inl x ↦ let y : p.running ≡ false = h.dead_stopped (h.drained_dead x) in cc
  | inr x ↦ x
]

closes :
    (o : Option ℕ) (p : Pipeline)
    → p.made ≡ o
    → IsOrderly p
    → p.running ≡ true
    → IsClosing p.in_use (step creates (step shuts_down p))
unfolding step create_turn begin_shutdown create_from put_ready create
closes none p e h r =
    let q = begin_shutdown p in
    let dead = or_dead p.create_dead p.made e in
    let same : step creates q ≡ q = ap (λ o. create_from o q) e ∙ if_true q.create_dead q _ dead in
    let drained = undrained_running p h r in
    subst (IsClosing p.in_use) (sym same) (record {
      stopped = refl;
      dead = dead;
      same_use = refl;
      awake = h.running_waiting r;
      undrained = drained;
      no_stop = contradiction _ (λ x. (let y = h.stop_drained x in cc));
      alive = contradiction _ (λ x. (let y = h.dead_drained x in cc));
    })
closes (some j) p e h r =
    let q = begin_shutdown p in
    let q' = record q { made = none; ready = p.ready ++ j ∷ []; create_dead = true } in
    let room = lt→ltb (length p.ready) (p.size + 1) (omega (arith, h.room, h.running_room r)) in
    let same : step creates q ≡ q' =
      ap (λ o. create_from o q) e ∙ if_true (ltb (length p.ready) (p.size + 1)) q' q room in
    let drained = undrained_running p h r in
    subst (IsClosing p.in_use) (sym same) (record {
      stopped = refl;
      dead = refl;
      same_use = refl;
      awake = h.running_waiting r;
      undrained = drained;
      no_stop = contradiction _ (λ x. (let y = h.stop_drained x in cc));
      alive = contradiction _ (λ x. (let y = h.dead_drained x in cc));
    })

-- Turns of the threads with which a shutdown ends.
completes :
    (p : Pipeline)
    → IsOrderly p
    → p.running ≡ true
    → (rest : List Turn) × IsDestroyed p.in_use (run rest p)
unfolding run
completes p o r =
    let c = closes p.made p refl o r in
    let q = step creates (step shuts_down p) in
    let d = drains_all q.ready q refl c.stopped c.dead c.awake c.undrained c.no_stop in
    let drained = run (replicate (suc (length q.ready)) drains) q in
    let (t, is, none_) = d.stops in
    let e = destroys_all t drained is none_ (d.same_thread ∙ c.alive) in
    let last = replicate (suc (length t)) destroys in
    (
      shuts_down ∷ (creates ∷ (replicate (suc (length q.ready)) drains ++ last)),
      subst (IsDestroyed p.in_use)
          (sym (run-append (replicate (suc (length q.ready)) drains) last q))
          (record {
            dead = e.dead;
            empty = e.empty;
            same_use = e.same_use ∙ d.same_use ∙ c.same_use;
          }),
    )

-- A pipeline that runs and of which no resource is in use can be shut down, whatever was done before:
-- with some more turns of its threads its shutdown ends, and then exactly the resources that were
-- created have been destroyed, each once.
pub shutdown_completes :
    (n : ℕ) (turns : List Turn) (p : Pipeline)
    → new_pipeline n ≡ some p
    → (run turns p).running ≡ true
    → (run turns p).in_use ≡ []
    → (rest : List Turn) × ((run rest (run turns p)).destroy_dead ≡ true)
      × ((i : ℕ)
          → count i (run rest (run turns p)).destroyed ≡ below i (run rest (run turns p)).created)
shutdown_completes n turns p e r u =
    let s = is_started n p e in
    let o = run-IsOrderly turns p (subst IsOrderly s (started-IsOrderly n)) in
    let a = run-IsAccounted turns p (subst (λ r. IsAccounted r) s (started-IsAccounted n)) in
    let (rest, d) = completes (run turns p) o r in
    (
      rest,
      d.dead,
      all_destroyed (run rest (run turns p)) (run-IsOrderly rest (run turns p) o)
          (run-IsAccounted rest (run turns p) a) d.dead (d.same_use ∙ u) d.empty,
    )
