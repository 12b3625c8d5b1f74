-- ===== src/Pipeline/Steps.antt =====
-- Each turn of a pipeline leaves it orderly.
use nameko_zh_cn.Base.{
  ℕ, Bool, true, false, not, Option, none, some, List, [], ◌∷◌, ◌++◌, length, ◌≡◌, refl, ◌∙◌, arith,
  ◌||◌, is_some, ap,
}
use nameko_zh_cn.Pipeline.{
  Trash, unused, stop, Pipeline, take_out, destroy_from, get_from, give, drain_from, create_turn,
  destroy_turn, get, give_back, begin_shutdown, drain_turn, Turn, creates, destroys, gets,
  gives_back, shuts_down, drains, step, run,
}
use nameko_zh_cn.Pipeline.Orderly.{
  has_stop, unstopped, IsOrderly, if-IsOrderly, create_from-IsOrderly,
}

-- What changes neither the threads of the pipeline nor the queue of its resources.
changed_trash :
    (p : Pipeline) (in_use : List ℕ) (trash : List Trash) (destroyed : List ℕ) (destroy_dead : Bool)
    → IsOrderly p
    → (has_stop trash ≡ true → p.drained ≡ true)
    → (destroy_dead ≡ true → p.drained ≡ true)
    → IsOrderly (record p {
      in_use = in_use;
      trash = trash;
      destroyed = destroyed;
      destroy_dead = destroy_dead;
    })
changed_trash p u t d b h s k = record {
  dead_empty = h.dead_empty;
  dead_stopped = h.dead_stopped;
  ended = h.ended;
  room = h.room;
  running_room = h.running_room;
  most = h.most;
  running_waiting = h.running_waiting;
  drained_dead = h.drained_dead;
  drained_empty = h.drained_empty;
  stop_drained = s;
  dead_drained = k;
}

destroy_from-IsOrderly :
    (t : List Trash) (p : Pipeline) → p.trash ≡ t → IsOrderly p → IsOrderly (destroy_from t p)
unfolding destroy_from has_stop
destroy_from-IsOrderly [] p e h = h
destroy_from-IsOrderly (stop ∷ t) p e h =
    let d : p.drained ≡ true = h.stop_drained (ap has_stop e) in
    changed_trash p p.in_use t p.destroyed true h (λ x. d) (λ x. d)
destroy_from-IsOrderly (unused j ∷ t) p e h =
    changed_trash p p.in_use t (p.destroyed ++ j ∷ []) p.destroy_dead h
      (λ x. h.stop_drained (ap has_stop e ∙ x)) h.dead_drained

get_from-IsOrderly :
    (r : List ℕ) (p : Pipeline) → p.ready ≡ r → IsOrderly p → IsOrderly (get_from r p)
unfolding get_from
get_from-IsOrderly [] p e h = h
get_from-IsOrderly (j ∷ r) p e h = record {
  dead_empty = h.dead_empty;
  dead_stopped = h.dead_stopped;
  ended = h.ended;
  room = omega (arith, h.room, ap (length {0}) e);
  running_room = h.running_room;
  most = h.most;
  running_waiting = h.running_waiting;
  drained_dead = h.drained_dead;
  drained_empty = λ x. (let y : p.ready ≡ [] = h.drained_empty x in cc);
  stop_drained = h.stop_drained;
  dead_drained = h.dead_drained;
}

give-IsOrderly : (j : ℕ) (o : Option (List ℕ)) (p : Pipeline) → IsOrderly p → IsOrderly (give j o p)
unfolding give
give-IsOrderly j none p h = h
give-IsOrderly j (some r) p h =
    changed_trash p r (p.trash ++ unused j ∷ []) p.destroyed p.destroy_dead h
      (λ x. h.stop_drained (unstopped j p.trash x)) h.dead_drained

dead_or :
    (d : Bool) (o : Option ℕ) → (d ≡ true → o ≡ none) → (d || not (is_some o)) ≡ true → o ≡ none
dead_or d none h x = refl
dead_or true (some j) h x = h refl
dead_or false (some j) h x = cc

pub or_dead : (d : Bool) (o : Option ℕ) → o ≡ none → (d || not (is_some o)) ≡ true
or_dead true o h = refl
or_dead false none h = refl
or_dead false (some j) h = cc

or_still : (d b : Bool) → d ≡ true → (d || b) ≡ true
or_still true b h = refl
or_still false b h = cc

begin_shutdown-IsOrderly : (p : Pipeline) → IsOrderly p → IsOrderly (begin_shutdown p)
unfolding begin_shutdown
begin_shutdown-IsOrderly p h = record {
  dead_empty = λ x. dead_or p.create_dead p.made h.dead_empty x;
  dead_stopped = λ x. refl;
  ended = λ x y. or_dead p.create_dead p.made y;
  room = omega (arith, h.room, h.most);
  running_room = λ x. cc;
  most = omega arith;
  running_waiting = λ x. cc;
  drained_dead = λ x. or_still p.create_dead _ (h.drained_dead x);
  drained_empty = h.drained_empty;
  stop_drained = h.stop_drained;
  dead_drained = h.dead_drained;
}

drain_from-IsOrderly :
    (r : List ℕ) (p : Pipeline)
    → p.ready ≡ r
    → p.running ≡ false
    → IsOrderly p
    → IsOrderly (drain_from r p)
unfolding drain_from
drain_from-IsOrderly [] p e stopped h =
    if-IsOrderly (p.waiting || p.drained) p _ (λ x. h)
      (λ x.
        if-IsOrderly p.create_dead (record p { trash = p.trash ++ stop ∷ []; drained = true })
          (record p { waiting = true })
          (λ d. record {
            dead_empty = h.dead_empty;
            dead_stopped = h.dead_stopped;
            ended = h.ended;
            room = h.room;
            running_room = h.running_room;
            most = h.most;
            running_waiting = h.running_waiting;
            drained_dead = λ y. d;
            drained_empty = λ y. e;
            stop_drained = λ y. refl;
            dead_drained = λ y. refl;
          })
          (λ d. record {
            dead_empty = h.dead_empty;
            dead_stopped = h.dead_stopped;
            ended = h.ended;
            room = h.room;
            running_room = h.running_room;
            most = h.most;
            running_waiting = λ y. cc;
            drained_dead = h.drained_dead;
            drained_empty = h.drained_empty;
            stop_drained = h.stop_drained;
            dead_drained = h.dead_drained;
          }))
drain_from-IsOrderly (j ∷ r) p e stopped h =
    if-IsOrderly p.drained p _ (λ x. h)
      (λ x. record {
        dead_empty = h.dead_empty;
        dead_stopped = h.dead_stopped;
        ended = h.ended;
        room = omega (arith, h.room, ap (length {0}) e);
        running_room = h.running_room;
        most = h.most;
        running_waiting = λ y. cc;
        drained_dead = h.drained_dead;
        drained_empty = λ y. cc;
        stop_drained = λ y. h.stop_drained (unstopped j p.trash y);
        dead_drained = h.dead_drained;
      })

step-IsOrderly : (t : Turn) (p : Pipeline) → IsOrderly p → IsOrderly (step t p)
unfolding step create_turn destroy_turn get give_back drain_turn
step-IsOrderly creates p h = create_from-IsOrderly p.made p refl h
step-IsOrderly destroys p h =
    if-IsOrderly p.destroy_dead p (destroy_from p.trash p) (λ x. h)
      (λ x. destroy_from-IsOrderly p.trash p refl h)
step-IsOrderly gets p h = get_from-IsOrderly p.ready p refl h
step-IsOrderly (gives_back j) p h = give-IsOrderly j (take_out j p.in_use) p h
step-IsOrderly shuts_down p h = begin_shutdown-IsOrderly p h
step-IsOrderly drains p h =
    if-IsOrderly p.running p (drain_from p.ready p) (λ x. h)
      (λ x. drain_from-IsOrderly p.ready p refl x h)

pub run-IsOrderly : (turns : List Turn) (p : Pipeline) → IsOrderly p → IsOrderly (run turns p)
unfolding run
run-IsOrderly [] p h = h
run-IsOrderly (t ∷ turns) p h = run-IsOrderly turns (step t p) (step-IsOrderly t p h)
