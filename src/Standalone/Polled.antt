-- ===== src/Standalone/Polled.antt =====
-- nameko/standalone/rpc.py: what a wait gives, told from the deliveries alone.
use nameko_zh_cn.Base.{
  ℕ, Str, ◌≡◌, refl, ap, ◌∙◌, false, Option, none, some, List, [], ◌∷◌, get, get-put, str_keys,
  str_eq, ◌==◌, ==_iff, eqb, if◌then◌else◌, arith,
}
use nameko_zh_cn.Rpc.Effects.{Payload}
use nameko_zh_cn.Standalone.{
  Error, rpc_timeout, keyboard_interrupt, other_error, Trouble, timeout, disconnect, interrupt,
  other, Failure, Arrival, Drained, delivered, failed, id_keys, id_eq, Client, on_message,
  on_messages, Outcome, pending, returned, threw,
}

-- What a failure gives: an outcome, or another round.
abbrev pub instead : Option Error → Error → Option Outcome
instead none e = some (threw e)
instead (some x) e = some (threw x)

abbrev pub reconnected : Option Error → Option Outcome
reconnected none = none
reconnected (some x) = some (threw x)

abbrev pub trouble_gives : Trouble → Option Error → Option Outcome
trouble_gives timeout setup = instead setup rpc_timeout
trouble_gives interrupt setup = instead setup keyboard_interrupt
trouble_gives disconnect setup = reconnected setup
trouble_gives (other e) setup = some (threw (other_error e))

abbrev pub acking_gives : Payload → Option Failure → Option Outcome
acking_gives body none = some (returned body)
acking_gives body (some f) = trouble_gives f.trouble f.setup

abbrev pub reply_gives : Option Arrival → Option Outcome
reply_gives none = none
reply_gives (some a) = acking_gives a.body a.acking

abbrev pub drained_gives : Drained → Option Outcome
drained_gives (delivered arrivals) = none
drained_gives (failed f) = trouble_gives f.trouble f.setup

-- The last reply of an id, if one arrived, else the one that was kept.
abbrev pub last_of : Option Str → List Arrival → Option Arrival → Option Arrival
last_of k [] kept = kept
last_of k (a ∷ arrivals) kept = last_of k arrivals (if a.correlation_id == k then some a else kept)

abbrev pub arrived : Option Str → Drained → Option Arrival → Option Arrival
arrived k (delivered arrivals) kept = last_of k arrivals kept
arrived k (failed f) kept = kept

abbrev pub arrived_all : Option Str → List Drained → Option Arrival → Option Arrival
arrived_all k [] kept = kept
arrived_all k (d ∷ ds) kept = arrived_all k ds (arrived k d kept)

abbrev pub or_pending : Option Outcome → Outcome
or_pending none = pending
or_pending (some x) = x

-- What a wait for an id gives, from the reply that is kept for it and the deliveries to come.
unfoldable pub expected : Str → Option Arrival → List Drained → Outcome
expected c kept [] = or_pending (reply_gives kept)
expected c kept (d ∷ ds) = elim (reply_gives kept) [
  | some x ↦ x
  | none ↦ elim (drained_gives d) [ some x ↦ x | none ↦ expected c (arrived (some c) d none) ds ]
]

-- Every reply is kept under its own id.
pub record IsKeyed (p : Client) : Type 0 where
  pub own : (k : Option Str) (a : Arrival) → get k p.replies ≡ some a → a.correlation_id ≡ k

-- A call waits: the listener holds its event, to which nothing was sent.
pub record Awaits (r : ℕ) (c : Str) (p : Client) : Type 0 where
  pub held : get c p.reply_events ≡ some r
  pub clear : (p.events r).exception ≡ none

-- Nothing of another call has changed but the replies that arrived for it.
pub record Apart (r : ℕ) (c : Str) (used : List Drained) (p p' : Client) : Type 0 where
  pub events : (i : ℕ) → eqb r i ≡ false → p'.events i ≡ p.events i
  pub reply_events : (d : Str) → str_eq c d ≡ false → get d p'.reply_events ≡ get d p.reply_events
  pub replies :
      (k : Option Str)
      → id_eq (some c) k ≡ false
      → get k p'.replies ≡ arrived_all k used (get k p.replies)
  pub stays : p'.stopped ≡ p.stopped

pub get-on_messages :
    (k : Option Str) (arrivals : List Arrival) (p : Client)
    → get k (on_messages arrivals p).replies ≡ last_of k arrivals (get k p.replies)
unfolding on_messages on_message
get-on_messages k [] p = refl
get-on_messages k (a ∷ arrivals) p =
    get-on_messages k arrivals (on_message a p)
    ∙ ap (last_of k arrivals) (get-put a.correlation_id k a p.replies)

on_message-IsKeyed : (a : Arrival) (p : Client) → IsKeyed p → IsKeyed (on_message a p)
unfolding on_message
on_message-IsKeyed a p v = record {
  own = λ k b h.
      ground (arith, get-put a.correlation_id k a p.replies, ==_iff a.correlation_id k, v.own k b);
}

-- What a list of arrivals leaves alone.
pub record Same (p p' : Client) : Type 0 where
  pub events : p'.events ≡ p.events
  pub reply_events : p'.reply_events ≡ p.reply_events
  pub stays : p'.stopped ≡ p.stopped

pub on_messages-Same :
    (arrivals : List Arrival) (p : Client)
    → IsKeyed p
    → IsKeyed (on_messages arrivals p) × Same p (on_messages arrivals p)
unfolding on_messages on_message
on_messages-Same [] p v = (v, record { events = refl; reply_events = refl; stays = refl })
on_messages-Same (a ∷ arrivals) p v =
    let (keyed, same) = on_messages-Same arrivals (on_message a p) (on_message-IsKeyed a p v) in
    (keyed, record { events = same.events; reply_events = same.reply_events; stays = same.stays })
