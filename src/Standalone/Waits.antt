-- ===== src/Standalone/Waits.antt =====
-- nameko/standalone/rpc.py: what a wait for a reply gives.
use nameko_zh_cn.Base.{
  ℕ, Str, ◌≡◌, refl, sym, ap, ◌∙◌, subst, ◌≢◌, true, false, Option, none, some, List, [], ◌∷◌, ◌++◌,
  get, str_keys, arith, inl, inr, Option-cases,
}
use nameko_zh_cn.Standalone.{
  Error, Trouble, timeout, disconnect, interrupt, other, Arrival, Drained, delivered, failed,
  id_keys, Client, Step, go_on, done, raised, take, drain, get_message, Outcome, pending, returned,
  conclude, ended, wait,
}
use nameko_zh_cn.Standalone.Polled.{
  trouble_gives, reply_gives, drained_gives, arrived, arrived_all, expected, or_pending, IsKeyed,
  Awaits, Apart,
}
use nameko_zh_cn.Standalone.Steps.{Gives, ends, take_lem, drain_lem}

-- What is made of a client whose wait gives an outcome and leaves some of the deliveries.
abbrev pub Polled :
    ℕ → Str → List Drained → Client → (Outcome × Client) × List Drained → Outcome → Type 0
Polled r c ds p ((o, p'), rest) o' =
    (o ≡ o') × (used : List Drained) × (ds ≡ used ++ rest) × Apart r c used p p'

took :
    (c : Str) (d : Drained) (ds : List Drained) (p : Client) (s : Step)
    → take c p ≡ s
    → ends s ≡ true
    → get_message c (d ∷ ds) p ≡ (s, d ∷ ds)
unfolding get_message
took c d ds p (go_on q) e h = cc
took c d ds p (done q) e h = rw (e, get_message) refl
took c d ds p (raised x q) e h = rw (e, get_message) refl

drained :
    (c : Str) (d : Drained) (ds : List Drained) (p p' : Client) (s : Step)
    → take c p ≡ go_on p'
    → drain c d p' ≡ s
    → ends s ≡ true
    → get_message c (d ∷ ds) p ≡ (s, ds)
unfolding get_message
drained c d ds p p' (go_on q) t e h = cc
drained c d ds p p' (done q) t e h = rw (t, get_message) (rw (e, get_message) refl)
drained c d ds p p' (raised x q) t e h = rw (t, get_message) (rw (e, get_message) refl)

again :
    (c : Str) (d : Drained) (ds : List Drained) (p p' q : Client)
    → take c p ≡ go_on p'
    → drain c d p' ≡ go_on q
    → get_message c (d ∷ ds) p ≡ get_message c ds q
unfolding get_message
again c d ds p p' q t e = rw (t, get_message) (rw (e, get_message) refl)

Apart-step :
    (r : ℕ) (c : Str) (d : Drained) (used : List Drained) (p p' q s : Client)
    → Apart r c [] p p'
    → Apart r c (d ∷ []) p' q
    → Apart r c used q s
    → Apart r c (d ∷ used) p s
Apart-step r c d used p p' q s f g h = record {
  events = λ i n. h.events i n ∙ (g.events i n ∙ f.events i n);
  reply_events = λ k n. h.reply_events k n ∙ (g.reply_events k n ∙ f.reply_events k n);
  replies = λ k n.
      h.replies k n ∙ ap (arrived_all k used) (g.replies k n ∙ ap (arrived k d) (f.replies k n));
  stays = h.stays ∙ (g.stays ∙ f.stays);
}

joined :
    (r : ℕ) (c : Str) (d : Drained) (p p' q : Client)
    → Apart r c [] p p'
    → Apart r c (d ∷ []) p' q
    → Apart r c (d ∷ []) p q
joined r c d p p' q f g = record {
  events = λ i n. g.events i n ∙ f.events i n;
  reply_events = λ k n. g.reply_events k n ∙ f.reply_events k n;
  replies = λ k n. g.replies k n ∙ ap (arrived k d) (f.replies k n);
  stays = g.stays ∙ f.stays;
}

abbrev At : ℕ → Str → List Drained → Client → Outcome → Step × List Drained → Type 0
At r c ds p o x = Polled r c ds p (ended r x) o

last_take :
    (r : ℕ) (c : Str) (p : Client) (o : Option Outcome) (s : Step)
    → Gives r c [] p o s
    → Polled r c [] p (conclude r s, []) (or_pending o)
unfolding conclude
last_take r c p (some x) s (e, out, apart) = (out, [], refl, apart)
last_take r c p none s (p', e, v, w, apart, k) = rw e (refl, [], refl, apart)

get_message_lem :
    (r : ℕ) (c : Str) (ds : List Drained) (p : Client)
    → IsKeyed p
    → Awaits r c p
    → At r c ds p (expected c (get (some c) p.replies) ds) (get_message c ds p)
unfolding get_message ended expected
get_message_lem r c [] p v w =
    last_take r c p (reply_gives (get (some c) p.replies)) (take c p) (take_lem r c p v w)
get_message_lem r c (d ∷ ds) p v w =
    let kept = get (some c) p.replies in
    elim (Option-cases (reply_gives kept)) [
      | inr (x, e) ↦
          let (end, out, apart) = subst (λ o. Gives r c [] p o (take c p)) e (take_lem r c p v w) in
          subst (At r c (d ∷ ds) p (expected c kept (d ∷ ds)))
            (sym (took c d ds p (take c p) refl end)) (rw (e, expected) (out, [], refl, apart))
      | inl e ↦
          let (p', t, v', w', apart, gone) =
            subst (λ o. Gives r c [] p o (take c p)) e (take_lem r c p v w) in
          elim (Option-cases (drained_gives d)) [
            | inr (x, f) ↦
                let (end, out, apart') =
                  subst (λ o. Gives r c (d ∷ []) p' o (drain c d p')) f
                    (drain_lem r c d p' v' w' gone) in
                subst (At r c (d ∷ ds) p (expected c kept (d ∷ ds)))
                  (sym (drained c d ds p p' (drain c d p') t refl end))
                  (rw (e, expected)
                    (rw (f, expected) (out, d ∷ [], refl, joined r c d p p' _ apart apart')))
            | inl f ↦
                let (q, u, v'', w'', apart', kept') =
                  subst (λ o. Gives r c (d ∷ []) p' o (drain c d p')) f
                    (drain_lem r c d p' v' w' gone) in
                let (out, used, split, apart'') = get_message_lem r c ds q v'' w'' in
                subst (At r c (d ∷ ds) p (expected c kept (d ∷ ds))) (sym (again c d ds p p' q t u))
                  (rw (e, expected)
                    (rw (f, expected)
                      (
                        out ∙ ap (λ k. expected c k ds) kept',
                        d ∷ used,
                        ap (λ l. d ∷ l) split,
                        Apart-step r c d used p p' q _ apart apart' apart'',
                      )))
          ]
    ]

polls :
    (r : ℕ) (c : Str) (ds : List Drained) (p : Client)
    → (p.events r).exception ≡ none
    → p.stopped ≡ false
    → wait r c true ds p ≡ ended r (get_message c ds p)
unfolding wait
polls r c ds p clear runs = ground arith

-- A wait of a connected client that is not stopped, for an event that nothing was sent to: its
-- outcome is what the reply that is kept for its id and the deliveries to come make one expect, each
-- reply and each failure in its turn. It uses only a first part of the deliveries; other
-- events and the ids that they wait under are as they were, and of the replies to other ids the last one
-- that arrived is kept. Every reply is kept under its own id.
pub wait_refines :
    (r : ℕ) (c : Str) (ds : List Drained) (p : Client)
    → IsKeyed p
    → Awaits r c p
    → p.stopped ≡ false
    → Polled r c ds p (wait r c true ds p) (expected c (get (some c) p.replies) ds)
wait_refines r c ds p v w runs =
    subst (λ x. Polled r c ds p x (expected c (get (some c) p.replies) ds))
      (sym (polls r c ds p w.clear runs)) (get_message_lem r c ds p v w)

-- Deliveries that bring no reply of an id and end no wait: others' replies, and failures after which
-- the client connects again.
abbrev pub IsIdle : Str → List Drained → Type 0
IsIdle c [] = Unit
IsIdle c (d ∷ ds) = (drained_gives d ≡ none) × (arrived (some c) d none ≡ none) × IsIdle c ds

expected_kept :
    (c : Str) (a : Arrival) (ds : List Drained)
    → a.acking ≡ none
    → expected c (some a) ds ≡ returned a.body
unfolding expected
expected_kept c a [] e = rw e refl
expected_kept c a (d ∷ ds) e = rw (e, expected) refl

trouble_ends : (t : Trouble) (setup : Option Error) → trouble_gives t setup ≢ some pending
trouble_ends timeout none e = cc
trouble_ends timeout (some x) e = cc
trouble_ends interrupt none e = cc
trouble_ends interrupt (some x) e = cc
trouble_ends disconnect none e = cc
trouble_ends disconnect (some x) e = cc
trouble_ends (other x) setup e = cc

reply_ends : (kept : Option Arrival) → reply_gives kept ≢ some pending
reply_ends none e = cc
reply_ends (some a) e = elim (Option-cases a.acking) [
  | inl acks ↦ cc (rw acks at e)
  | inr (f, fails) ↦ trouble_ends f.trouble f.setup (rw fails at e)
]

drained_ends : (d : Drained) → drained_gives d ≢ some pending
drained_ends (delivered arrivals) e = cc
drained_ends (failed f) e = trouble_ends f.trouble f.setup e

expected_step :
    (c : Str) (kept : Option Arrival) (d : Drained) (ds : List Drained)
    → expected c (arrived (some c) d none) ds ≢ pending
    → expected c kept (d ∷ ds) ≢ pending
unfolding expected
expected_step c kept d ds rest e = elim (Option-cases (reply_gives kept)) [
  | inr (x, f) ↦ reply_ends kept (f ∙ ap some (rw (f, expected) at e))
  | inl f ↦ elim (Option-cases (drained_gives d)) [
    | inr (x, g) ↦ drained_ends d (g ∙ ap some (rw (g, expected) at (rw (f, expected) at e)))
    | inl g ↦ rest (rw (g, expected) at (rw (f, expected) at e))
  ]
]

expected_ends :
    (c : Str) (kept : Option Arrival) (before after : List Drained) (arrivals : List Arrival)
    (a : Arrival)
    → arrived (some c) (delivered arrivals) none ≡ some a
    → a.acking ≡ none
    → expected c kept (before ++ delivered arrivals ∷ after) ≢ pending
expected_ends c kept [] after arrivals a arrives acks =
    expected_step c kept (delivered arrivals) after
      (λ e. cc (sym e ∙ ap (λ k. expected c k after) arrives ∙ expected_kept c a after acks))
expected_ends c kept (d ∷ before) after arrivals a arrives acks =
    expected_step c kept d (before ++ delivered arrivals ∷ after)
      (expected_ends c (arrived (some c) d none) before after arrivals a arrives acks)

expected_idle :
    (c : Str) (before after : List Drained) (arrivals : List Arrival) (a : Arrival)
    → arrived (some c) (delivered arrivals) none ≡ some a
    → a.acking ≡ none
    → IsIdle c before
    → expected c none (before ++ delivered arrivals ∷ after) ≡ returned a.body
unfolding expected
expected_idle c [] after arrivals a arrives acks idle =
    ap (λ k. expected c k after) arrives ∙ expected_kept c a after acks
expected_idle c (d ∷ before) after arrivals a arrives acks (quiet, none_, idle) =
    rw (quiet, expected)
      (ap (λ k. expected c k (before ++ delivered arrivals ∷ after)) none_
        ∙ expected_idle c before after arrivals a arrives acks idle)

-- A wait ends at the latest when a reply to its id is delivered that can be acknowledged, whatever
-- is delivered before; and it returns that reply when no other reply to its id was
-- kept or is delivered before, and every failure before is one after which the client connects again.
pub reply_ends_wait :
    (r : ℕ) (c : Str) (before after : List Drained) (arrivals : List Arrival) (a : Arrival)
    (p : Client)
    → IsKeyed p
    → Awaits r c p
    → p.stopped ≡ false
    → arrived (some c) (delivered arrivals) none ≡ some a
    → a.acking ≡ none
    → let outcome = (wait r c true (before ++ delivered arrivals ∷ after) p).0.0 in
      (outcome ≢ pending)
      × (get (some c) p.replies ≡ none → IsIdle c before → outcome ≡ returned a.body)
reply_ends_wait r c before after arrivals a p v w runs arrives acks =
    let ds = before ++ delivered arrivals ∷ after in
    let same = (wait_refines r c ds p v w runs).0 in
    let kept = get (some c) p.replies in
    (
      λ e. expected_ends c kept before after arrivals a arrives acks (sym same ∙ e),
      λ gone idle.
          same
          ∙ ap (λ k. expected c k ds) gone
          ∙ expected_idle c before after arrivals a arrives acks idle,
    )
