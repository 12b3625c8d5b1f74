-- ===== src/Pipeline/Orderly.antt =====
-- What holds of a pipeline between the turns of its threads.
use nameko_zh_cn.Base.{
  ℕ, suc, ◌+◌, ◌≤◌, Bool, true, false, Option, none, some, List, [], ◌∷◌, ◌++◌, length,
  length-append, ltb, if◌then◌else◌, ◌≡◌, refl, arith, ltb→lt, Bool-cases, ◌||◌, inl, inr,
}
use nameko_zh_cn.Pipeline.{Trash, unused, stop, Pipeline, create, put_ready, create_from}

unfoldable pub has_stop : List Trash → Bool
has_stop [] = false
has_stop (stop ∷ rest) = true
has_stop (unused i ∷ rest) = has_stop rest

pub has_stop-append : (xs ys : List Trash) → has_stop (xs ++ ys) ≡ (has_stop xs || has_stop ys)
unfolding has_stop
has_stop-append [] ys = refl
has_stop-append (stop ∷ xs) ys = refl
has_stop-append (unused i ∷ xs) ys = has_stop-append xs ys

pub unstopped : (j : ℕ) (t : List Trash) → has_stop (t ++ unused j ∷ []) ≡ true → has_stop t ≡ true
unfolding has_stop
unstopped j [] h = h
unstopped j (stop ∷ t) h = refl
unstopped j (unused i ∷ t) h = unstopped j t h

pub record IsOrderly (p : Pipeline) : Type 0 where
  pub dead_empty : p.create_dead ≡ true → p.made ≡ none
  pub dead_stopped : p.create_dead ≡ true → p.running ≡ false
  pub ended : p.running ≡ false → p.made ≡ none → p.create_dead ≡ true
  pub room : length p.ready ≤ p.maxsize
  pub running_room : p.running ≡ true → p.maxsize ≡ p.size
  pub most : p.maxsize ≤ p.size + 1
  pub running_waiting : p.running ≡ true → p.waiting ≡ false
  pub drained_dead : p.drained ≡ true → p.create_dead ≡ true
  pub drained_empty : p.drained ≡ true → p.ready ≡ []
  pub stop_drained : has_stop p.trash ≡ true → p.drained ≡ true
  pub dead_drained : p.destroy_dead ≡ true → p.drained ≡ true

pub if-IsOrderly :
    (b : Bool) (p q : Pipeline)
    → (b ≡ true → IsOrderly p)
    → (b ≡ false → IsOrderly q)
    → IsOrderly (if b then p else q)
if-IsOrderly true p q h k = h refl
if-IsOrderly false p q h k = k refl

-- A turn of the create thread, past its put.
pub create-IsOrderly :
    (p : Pipeline)
    → p.made ≡ none
    → p.drained ≡ false
    → length p.ready ≤ p.maxsize
    → (p.running ≡ true → p.maxsize ≡ p.size)
    → p.maxsize ≤ p.size + 1
    → (p.running ≡ true → p.waiting ≡ false)
    → (has_stop p.trash ≡ true → p.drained ≡ true)
    → (p.destroy_dead ≡ true → p.drained ≡ true)
    → p.create_dead ≡ false
    → IsOrderly (create p)
unfolding create
create-IsOrderly p e n room running_room most running_waiting stop_drained dead_drained d =
    if-IsOrderly p.running (record p { made = some p.created; created = suc p.created })
      (record p { create_dead = true })
      (λ r. record {
        dead_empty = λ x. cc;
        dead_stopped = λ x. cc;
        ended = λ x y. cc;
        room = room;
        running_room = running_room;
        most = most;
        running_waiting = running_waiting;
        drained_dead = λ x. cc;
        drained_empty = λ x. cc;
        stop_drained = stop_drained;
        dead_drained = dead_drained;
      })
      (λ r. record {
        dead_empty = λ x. e;
        dead_stopped = λ x. r;
        ended = λ x y. refl;
        room = room;
        running_room = running_room;
        most = most;
        running_waiting = running_waiting;
        drained_dead = λ x. refl;
        drained_empty = λ x. cc;
        stop_drained = stop_drained;
        dead_drained = dead_drained;
      })

-- A resource in the create thread's hands: the thread lives, and STOP is not put.
pub lives : (j : ℕ) (p : Pipeline) → p.made ≡ some j → IsOrderly p → p.create_dead ≡ false
lives j p e h = elim (Bool-cases p.create_dead) [
  | inl d ↦ let x : p.made ≡ none = h.dead_empty d in cc
  | inr d ↦ d
]

pub undrained : (p : Pipeline) → p.create_dead ≡ false → IsOrderly p → p.drained ≡ false
undrained p d h = elim (Bool-cases p.drained) [
  | inl x ↦ let y : p.create_dead ≡ true = h.drained_dead x in cc
  | inr x ↦ x
]

pub put_ready-IsOrderly :
    (j : ℕ) (p : Pipeline) → p.made ≡ some j → IsOrderly p → IsOrderly (put_ready j p)
unfolding put_ready
put_ready-IsOrderly j p e h =
    let p' = record p { made = none; ready = p.ready ++ j ∷ [] } in
    let d = lives j p e h in
    if-IsOrderly (ltb (length p.ready) p.maxsize) (create p') p
      (λ r.
        create-IsOrderly p' refl (undrained p d h)
          (omega (arith, ltb→lt (length p.ready) p.maxsize r, length-append {0} p.ready (j ∷ [])))
          h.running_room h.most h.running_waiting h.stop_drained h.dead_drained d)
      (λ r. h)

pub create_from-IsOrderly :
    (o : Option ℕ) (p : Pipeline) → p.made ≡ o → IsOrderly p → IsOrderly (create_from o p)
unfolding create_from
create_from-IsOrderly none p e h =
    if-IsOrderly p.create_dead p (create p) (λ d. h)
      (λ d.
        create-IsOrderly p e (undrained p d h) h.room h.running_room h.most h.running_waiting
          h.stop_drained h.dead_drained d)
create_from-IsOrderly (some j) p e h = put_ready-IsOrderly j p e h
