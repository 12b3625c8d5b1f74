-- ===== src/Pipeline/Accounted.antt =====
-- Where the resources of a pipeline are.
use nameko_zh_cn.Base.{
  ℕ, suc, ◌+◌, Bool, true, false, Option, none, some, List, [], ◌∷◌, ◌++◌, length, ltb, eqb,
  eqb_iff, if◌then◌else◌, ◌≡◌, refl, ap, arith, ◌||◌, Bool-cases, inl, inr,
}
use nameko_zh_cn.Pipeline.{
  Trash, unused, stop, Pipeline, with_head, take_out, create, put_ready, create_from, destroy_from,
  get_from, give, drain_from, create_turn, destroy_turn, get, give_back, begin_shutdown, drain_turn,
  Turn, creates, destroys, gets, gives_back, shuts_down, drains, step, run,
}

-- 1 if the numbers are the same, or the first is the smaller one, else 0.
unfoldable pub one : ℕ → ℕ → ℕ
one i j = if eqb i j then 1 else 0

unfoldable pub below : ℕ → ℕ → ℕ
below i n = if ltb i n then 1 else 0

unfoldable pub count : ℕ → List ℕ → ℕ
count i [] = 0
count i (j ∷ js) = one i j + count i js

unfoldable pub count_trash : ℕ → List Trash → ℕ
count_trash i [] = 0
count_trash i (unused j ∷ rest) = one i j + count_trash i rest
count_trash i (stop ∷ rest) = count_trash i rest

unfoldable pub count_made : ℕ → Option ℕ → ℕ
count_made i none = 0
count_made i (some j) = one i j

-- How often a resource is somewhere.
unfoldable pub places : ℕ → Pipeline → ℕ
places i p =
    count_made i p.made
    + count i p.ready
    + count i p.in_use
    + count_trash i p.trash
    + count i p.destroyed

below-suc : (i n : ℕ) → below i (suc n) ≡ below i n + one i n
unfolding below one
below-suc i n = ground arith

count-append_one : (i j : ℕ) (xs : List ℕ) → count i (xs ++ j ∷ []) ≡ count i xs + one i j
unfolding count
count-append_one i j [] = omega arith
count-append_one i j (x ∷ xs) = omega (arith, count-append_one i j xs)

count_trash-append :
    (i : ℕ) (xs ys : List Trash) → count_trash i (xs ++ ys) ≡ count_trash i xs + count_trash i ys
unfolding count_trash
count_trash-append i [] ys = omega arith
count_trash-append i (unused j ∷ xs) ys = omega (arith, count_trash-append i xs ys)
count_trash-append i (stop ∷ xs) ys = omega (arith, count_trash-append i xs ys)

with_head-some :
    (x : ℕ) (o : Option (List ℕ)) (ys : List ℕ)
    → with_head x o ≡ some ys
    → (zs : List ℕ) × (o ≡ some zs) × (ys ≡ x ∷ zs)
with_head-some x none ys h = cc
with_head-some x (some zs) ys h = (zs, refl, cc)

count-take_out :
    (i j : ℕ) (xs ys : List ℕ) → take_out j xs ≡ some ys → count i xs ≡ one i j + count i ys
unfolding count take_out
count-take_out i j [] ys h = cc
count-take_out i j (x ∷ xs) ys h = elim (Bool-cases (eqb j x)) [
  | inl e ↦
      let q : some xs ≡ some ys = rw e at h in
      let same : xs ≡ ys = cc in omega (arith, ap (one i) ((eqb_iff j x).0 e), ap (count i) same)
  | inr e ↦
      let (zs, taken, is) = with_head-some x (take_out j xs) ys (rw e at h) in
      rw is (omega (arith, count-take_out i j xs zs taken))
]

-- Every resource that was created is in one place, and no other is anywhere.
abbrev pub IsAccounted : Pipeline → Type 0
IsAccounted p = (i : ℕ) → places i p ≡ below i p.created

if-IsAccounted :
    (b : Bool) (p q : Pipeline) → IsAccounted p → IsAccounted q → IsAccounted (if b then p else q)
if-IsAccounted true p q h k = h
if-IsAccounted false p q h k = k

create-IsAccounted : (p : Pipeline) → p.made ≡ none → IsAccounted p → IsAccounted (create p)
unfolding create places count_made
create-IsAccounted p e h =
    if-IsAccounted p.running (record p { made = some p.created; created = suc p.created })
      (record p { create_dead = true })
      (λ i. omega (arith, h i, below-suc i p.created, ap (count_made i) e)) h

put_ready-IsAccounted :
    (j : ℕ) (p : Pipeline) → p.made ≡ some j → IsAccounted p → IsAccounted (put_ready j p)
unfolding put_ready places count_made
put_ready-IsAccounted j p e h =
    let p' = record p { made = none; ready = p.ready ++ j ∷ [] } in
    if-IsAccounted (ltb (length p.ready) p.maxsize) (create p') p
      (create-IsAccounted p' refl
        (λ i. omega (arith, h i, count-append_one i j p.ready, ap (count_made i) e)))
      h

create_from-IsAccounted :
    (o : Option ℕ) (p : Pipeline) → p.made ≡ o → IsAccounted p → IsAccounted (create_from o p)
unfolding create_from
create_from-IsAccounted none p e h =
    if-IsAccounted p.create_dead p (create p) h (create-IsAccounted p e h)
create_from-IsAccounted (some i) p e h = put_ready-IsAccounted i p e h

destroy_from-IsAccounted :
    (t : List Trash) (p : Pipeline) → p.trash ≡ t → IsAccounted p → IsAccounted (destroy_from t p)
unfolding destroy_from places count_trash
destroy_from-IsAccounted [] p e h = h
destroy_from-IsAccounted (stop ∷ t) p e h = λ i. omega (arith, h i, ap (count_trash i) e)
destroy_from-IsAccounted (unused j ∷ t) p e h =
    λ i. omega (arith, h i, ap (count_trash i) e, count-append_one i j p.destroyed)

get_from-IsAccounted :
    (r : List ℕ) (p : Pipeline) → p.ready ≡ r → IsAccounted p → IsAccounted (get_from r p)
unfolding get_from places count
get_from-IsAccounted [] p e h = h
get_from-IsAccounted (j ∷ r) p e h = λ i. omega (arith, h i, ap (count i) e)

give-IsAccounted :
    (j : ℕ) (o : Option (List ℕ)) (p : Pipeline)
    → take_out j p.in_use ≡ o
    → IsAccounted p
    → IsAccounted (give j o p)
unfolding give places count_trash
give-IsAccounted j none p e h = h
give-IsAccounted j (some r) p e h = λ i.
    omega
      (arith, h i, count-take_out i j p.in_use r e, count_trash-append i p.trash (unused j ∷ []))

drain_from-IsAccounted :
    (r : List ℕ) (p : Pipeline) → p.ready ≡ r → IsAccounted p → IsAccounted (drain_from r p)
unfolding drain_from places count count_trash
drain_from-IsAccounted [] p e h = if-IsAccounted (p.waiting || p.drained) p _ h (
    if-IsAccounted p.create_dead (record p { trash = p.trash ++ stop ∷ []; drained = true })
      (record p { waiting = true })
      (λ i. omega (arith, h i, count_trash-append i p.trash (stop ∷ []))) h)
drain_from-IsAccounted (j ∷ r) p e h =
    if-IsAccounted p.drained p
      (record p { ready = r; trash = p.trash ++ unused j ∷ []; waiting = false }) h
      (λ i. omega (arith, h i, ap (count i) e, count_trash-append i p.trash (unused j ∷ [])))

step-IsAccounted : (t : Turn) (p : Pipeline) → IsAccounted p → IsAccounted (step t p)
unfolding step create_turn destroy_turn get give_back drain_turn begin_shutdown places
step-IsAccounted creates p h = create_from-IsAccounted p.made p refl h
step-IsAccounted destroys p h =
    if-IsAccounted p.destroy_dead p (destroy_from p.trash p) h
      (destroy_from-IsAccounted p.trash p refl h)
step-IsAccounted gets p h = get_from-IsAccounted p.ready p refl h
step-IsAccounted (gives_back j) p h = give-IsAccounted j (take_out j p.in_use) p refl h
step-IsAccounted shuts_down p h = h
step-IsAccounted drains p h =
    if-IsAccounted p.running p (drain_from p.ready p) h (drain_from-IsAccounted p.ready p refl h)

pub run-IsAccounted : (turns : List Turn) (p : Pipeline) → IsAccounted p → IsAccounted (run turns p)
unfolding run
run-IsAccounted [] p h = h
run-IsAccounted (t ∷ turns) p h = run-IsAccounted turns (step t p) (step-IsAccounted t p h)
