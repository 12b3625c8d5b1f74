-- ===== src/Pipeline.antt =====
-- nameko/testing/utils.py: ResourcePipeline. A resource is a number, in the order of creation. Its
-- threads and its users take turns: between two turns of a thread nothing of it runs, and a turn of one
-- that is blocked changes nothing. `create` and `destroy` do not raise.
pub mod Accounted
pub mod Orderly
pub mod Steps
pub mod Shutdown
pub mod Completed
use nameko_zh_cn.Base.{
  ℕ, suc, ◌+◌, Bool, true, false, not, Option, none, some, List, [], ◌∷◌, ◌++◌, length, ltb, ◌||◌,
  is_some, eqb, if◌then◌else◌,
}

-- What the trash queue holds.
pub data Trash : Type 0 where
  unused : ℕ → Trash
  stop : Trash

pub record Pipeline : Type 0 where
  pub size : ℕ
  pub running : Bool
  -- The most that `ready` holds.
  pub maxsize : ℕ
  -- The resource that the create thread has made and not put yet.
  pub made : Option ℕ
  pub create_dead : Bool
  pub ready : List ℕ
  pub in_use : List ℕ
  pub trash : List Trash
  pub destroyed : List ℕ
  pub destroy_dead : Bool
  -- Whether `_shutdown` waits in `ready.get`, and whether it has put STOP.
  pub waiting : Bool
  pub drained : Bool
  -- How many were created.
  pub created : ℕ

unfoldable pub started : ℕ → Pipeline
started size = record {
  size = size;
  running = true;
  maxsize = size;
  made = none;
  create_dead = false;
  ready = [];
  in_use = [];
  trash = [];
  destroyed = [];
  destroy_dead = false;
  waiting = false;
  drained = false;
  created = 0;
}

-- __init__ and _start; none is the RuntimeError.
unfoldable pub new_pipeline : ℕ → Option Pipeline
unfolding started
new_pipeline size = if eqb size 0 then none else some (started size)

abbrev pub with_head : ℕ → Option (List ℕ) → Option (List ℕ)
with_head j none = none
with_head j (some js) = some (j ∷ js)

-- The first of a list that is the number, taken out.
unfoldable pub take_out : ℕ → List ℕ → Option (List ℕ)
take_out i [] = none
take_out i (j ∷ js) = let rest = with_head j (take_out i js) in if eqb i j then some js else rest

-- _create: the loop's test and `create`, or the end of the thread
unfoldable pub create : Pipeline → Pipeline
create p =
    if p.running
    then record p { made = some p.created; created = suc p.created }
    else record p { create_dead = true }

-- self.ready.put(item), and the loop's next round
unfoldable pub put_ready : ℕ → Pipeline → Pipeline
unfolding create
put_ready i p =
    if ltb (length p.ready) p.maxsize
    then create (record p { made = none; ready = p.ready ++ i ∷ [] })
    else p

pub create_from : Option ℕ → Pipeline → Pipeline
unfolding create put_ready
create_from none p = if p.create_dead then p else create p
create_from (some i) p = put_ready i p

-- A turn of _create: it begins, or goes on with the resource that it has made.
unfoldable pub create_turn : Pipeline → Pipeline
unfolding create_from
create_turn p = create_from p.made p

destroy_from : List Trash → Pipeline → Pipeline
destroy_from [] p = p
destroy_from (stop ∷ rest) p = record p { trash = rest; destroy_dead = true }
destroy_from (unused i ∷ rest) p = record p { trash = rest; destroyed = p.destroyed ++ i ∷ [] }

-- A turn of _destroy.
unfoldable pub destroy_turn : Pipeline → Pipeline
unfolding destroy_from
destroy_turn p = if p.destroy_dead then p else destroy_from p.trash p

get_from : List ℕ → Pipeline → Pipeline
get_from [] p = p
get_from (i ∷ rest) p = record p { ready = rest; in_use = i ∷ p.in_use }

-- get, up to its yield, and after it
unfoldable pub get : Pipeline → Pipeline
unfolding get_from
get p = get_from p.ready p

give : ℕ → Option (List ℕ) → Pipeline → Pipeline
give i none p = p
give i (some rest) p = record p { in_use = rest; trash = p.trash ++ unused i ∷ [] }

unfoldable pub give_back : ℕ → Pipeline → Pipeline
unfolding take_out give
give_back i p = give i (take_out i p.in_use) p

-- _shutdown, up to its loop; a create thread that has not begun has its turn at the sleep.
unfoldable pub begin_shutdown : Pipeline → Pipeline
begin_shutdown p = record p {
  running = false;
  maxsize = p.size + 1;
  create_dead = p.create_dead || not (is_some p.made);
}

drain_from : List ℕ → Pipeline → Pipeline
drain_from [] p =
    if p.waiting || p.drained
    then p
    else if p.create_dead
    then record p { trash = p.trash ++ stop ∷ []; drained = true }
    else record p { waiting = true }
drain_from (i ∷ rest) p =
    if p.drained
    then p
    else record p { ready = rest; trash = p.trash ++ unused i ∷ []; waiting = false }

-- A turn of the loop of _shutdown, and of what follows it.
unfoldable pub drain_turn : Pipeline → Pipeline
unfolding drain_from
drain_turn p = drain_from p.ready p

pub data Turn : Type 0 where
  creates destroys gets shuts_down drains : Turn
  gives_back : ℕ → Turn

unfoldable pub step : Turn → Pipeline → Pipeline
unfolding create_turn destroy_turn get give_back begin_shutdown drain_turn
step creates p = create_turn p
step destroys p = destroy_turn p
step gets p = get p
step (gives_back i) p = give_back i p
step shuts_down p = begin_shutdown p
step drains p = if p.running then p else drain_turn p

unfoldable pub run : List Turn → Pipeline → Pipeline
unfolding step
run [] p = p
run (t ∷ turns) p = run turns (step t p)
