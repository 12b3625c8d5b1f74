-- ===== src/Standalone/Steps.antt =====
-- nameko/standalone/rpc.py: what each step of PollingQueueConsumer.get_message does.
use nameko_zh_cn.Base.{
  ℕ, Str, ◌≡◌, refl, sym, ap, ◌∙◌, Bool, true, false, Option, none, some, List, [], ◌∷◌, ◌++◌, get,
  remove, get-remove, str_keys, str_eq, ==_refl, eqb, eqb_iff, arith, inl, inr, Option-cases, ap,
}
use nameko_zh_cn.Standalone.{
  Error, rpc_timeout, keyboard_interrupt, stopped, disconnected, no_body, key_error, socket_error,
  other_error, Trouble, timeout, disconnect, interrupt, other, Arrival, Drained, delivered, failed,
  id_keys, ConsumeEvent, Client, setup_consumer, set_event, send, send_exception, on_messages, Step,
  go_on, done, raised, set_up, reconnect, give_up, trouble_step, settle, handle, take, drain,
  Outcome, returned, threw, event_outcome, conclude,
}
use nameko_zh_cn.Standalone.Polled.{
  instead, reconnected, trouble_gives, acking_gives, reply_gives, drained_gives, arrived,
  arrived_all, IsKeyed, Awaits, Apart, get-on_messages, on_messages-Same,
}

abbrev pub ends : Step → Bool
ends (go_on p) = false
ends (done p) = true
ends (raised e p) = true

-- The list of deliveries holds no reply.
abbrev Quiet : List Drained → Type 0
Quiet used = (k : Option Str) (kept : Option Arrival) → arrived_all k used kept ≡ kept

-- What a step makes of a client, when it has used these deliveries.
abbrev pub Gives : ℕ → Str → List Drained → Client → Option Outcome → Step → Type 0
Gives r c used p none s =
    (p' : Client) × (s ≡ go_on p')
    × IsKeyed p'
    × Awaits r c p'
    × Apart r c used p p'
    × (get (some c) p'.replies ≡ arrived_all (some c) used none)
Gives r c used p (some x) s =
    (ends s ≡ true) × ((conclude r s).0 ≡ x) × Apart r c used p (conclude r s).1

module _ (r : ℕ) (c : Str) where
  Apart-Quiet :
      (used : List Drained) (p p' : Client)
      → Quiet used
      → ((i : ℕ) → eqb r i ≡ false → p'.events i ≡ p.events i)
      → ((d : Str) → str_eq c d ≡ false → get d p'.reply_events ≡ get d p.reply_events)
      → p'.replies ≡ p.replies
      → p'.stopped ≡ p.stopped
      → Apart r c used p p'
  Apart-Quiet used p p' quiet e re rs st = record {
    events = e;
    reply_events = re;
    replies = λ k n. ap (get k) rs ∙ sym (quiet k (get k p.replies));
    stays = st;
  }

  other_event :
      (p : Client) (e : ConsumeEvent) (i : ℕ)
      → eqb r i ≡ false
      → (set_event r e p).events i ≡ p.events i
  unfolding set_event
  other_event p e i n = rw n refl

  own_event : (p : Client) (e : ConsumeEvent) → (set_event r e p).events r ≡ e
  unfolding set_event
  own_event p e = ground (arith, eqb_iff r r)

  raised_lem :
      (used : List Drained) (x : Error) (p q : Client)
      → Quiet used
      → ((i : ℕ) → eqb r i ≡ false → q.events i ≡ p.events i)
      → ((d : Str) → str_eq c d ≡ false → get d q.reply_events ≡ get d p.reply_events)
      → q.replies ≡ p.replies
      → q.stopped ≡ p.stopped
      → Gives r c used p (some (threw x)) (raised x q)
  unfolding conclude send_exception
  raised_lem used rpc_timeout p q quiet e re rs st =
      (refl, refl, Apart-Quiet used p q quiet e re rs st)
  raised_lem used keyboard_interrupt p q quiet e re rs st =
      (refl, refl, Apart-Quiet used p q quiet e re rs st)
  raised_lem used stopped p q quiet e re rs st = (refl, refl, Apart-Quiet used p q quiet e re rs st)
  raised_lem used disconnected p q quiet e re rs st =
      (refl, refl, Apart-Quiet used p q quiet e re rs st)
  raised_lem used no_body p q quiet e re rs st = (refl, refl, Apart-Quiet used p q quiet e re rs st)
  raised_lem used (key_error k) p q quiet e re rs st =
      (refl, refl, Apart-Quiet used p q quiet e re rs st)
  raised_lem used (other_error x) p q quiet e re rs st =
      (refl, refl, Apart-Quiet used p q quiet e re rs st)
  raised_lem used (socket_error x) p q quiet e re rs st =
      (refl, refl, Apart-Quiet used p _ quiet (λ i n. other_event q _ i n ∙ e i n) re rs st)

  give_up_lem :
      (used : List Drained) (e : Error) (setup : Option Error) (p : Client)
      → Quiet used
      → Awaits r c p
      → Gives r c used p (instead setup e) (give_up c e setup p)
  unfolding give_up set_up conclude setup_consumer event_outcome send_exception
  give_up_lem used e none p quiet w =
      rw (w.held, give_up)
        (
          refl,
          rw (own_event (record p { reply_events = remove c p.reply_events }) _) refl,
          Apart-Quiet used p _ quiet (λ i n. other_event p _ i n)
              (λ d n. ground (arith, get-remove c d p.reply_events)) refl refl,
        )
  give_up_lem used e (some x) p quiet w =
      rw (w.held, give_up)
        (raised_lem used x p _ quiet (λ i n. other_event p _ i n)
          (λ d n. ground (arith, get-remove c d p.reply_events)) refl refl)

  reconnect_lem :
      (used : List Drained) (setup : Option Error) (p : Client)
      → Quiet used
      → IsKeyed p
      → Awaits r c p
      → get (some c) p.replies ≡ none
      → Gives r c used p (reconnected setup) (reconnect setup p)
  unfolding reconnect setup_consumer
  reconnect_lem used none p quiet v w gone = (
    _,
    refl,
    record { own = v.own },
    record { held = w.held; clear = w.clear },
    Apart-Quiet used p _ quiet (λ i n. refl) (λ d n. refl) refl refl,
    gone ∙ sym (quiet (some c) none),
  )
  reconnect_lem used (some x) p quiet v w gone =
      raised_lem used x p p quiet (λ i n. refl) (λ d n. refl) refl refl

  trouble_step_lem :
      (used : List Drained) (t : Trouble) (setup : Option Error) (p : Client)
      → Quiet used
      → IsKeyed p
      → Awaits r c p
      → get (some c) p.replies ≡ none
      → Gives r c used p (trouble_gives t setup) (trouble_step c t setup p)
  unfolding trouble_step
  trouble_step_lem used timeout setup p quiet v w gone =
      give_up_lem used rpc_timeout setup p quiet w
  trouble_step_lem used interrupt setup p quiet v w gone =
      give_up_lem used keyboard_interrupt setup p quiet w
  trouble_step_lem used disconnect setup p quiet v w gone =
      reconnect_lem used setup p quiet v w gone
  trouble_step_lem used (other e) setup p quiet v w gone =
      raised_lem used (other_error e) p p quiet (λ i n. refl) (λ d n. refl) refl refl

  settled_lem :
      (a : Arrival) (p : Client)
      → a.correlation_id ≡ some c
      → Awaits r c p
      → Gives r c [] p
          (some (returned a.body))
          (done (settle a.correlation_id a.body (record p { acked = p.acked ++ a.ident ∷ [] })))
  unfolding settle send conclude event_outcome
  settled_lem a p own w =
      let q = record p {
        acked = p.acked ++ a.ident ∷ [];
        reply_events = remove c p.reply_events;
      } in
      rw (own, settle)
        (rw (w.held, settle)
          (
            refl,
            rw (own_event q _, w.clear) refl,
            Apart-Quiet [] p _ (λ k kept. refl) (λ i n. other_event q _ i n)
                (λ d n. ground (arith, get-remove c d p.reply_events)) refl refl,
          ))

  handle_lem :
      (a : Arrival) (p : Client)
      → a.correlation_id ≡ some c
      → IsKeyed p
      → Awaits r c p
      → get (some c) p.replies ≡ none
      → Gives r c [] p (acking_gives a.body a.acking) (handle c a p)
  unfolding handle
  handle_lem a p own v w gone = elim (Option-cases a.acking) [
    | inl e ↦ rw (e, handle) (settled_lem a p own w)
    | inr (f, e) ↦
        rw (e, handle) (trouble_step_lem [] f.trouble f.setup p (λ k kept. refl) v w gone)
  ]

  Apart-trans :
      (used : List Drained) (p q s : Client)
      → Apart r c [] p q
      → Apart r c used q s
      → Apart r c used p s
  Apart-trans used p q s f g = record {
    events = λ i n. g.events i n ∙ f.events i n;
    reply_events = λ d n. g.reply_events d n ∙ f.reply_events d n;
    replies = λ k n. g.replies k n ∙ ap (arrived_all k used) (f.replies k n);
    stays = g.stays ∙ f.stays;
  }

  Gives-trans :
      (used : List Drained) (p q : Client) (o : Option Outcome) (s : Step)
      → Apart r c [] p q
      → Gives r c used q o s
      → Gives r c used p o s
  Gives-trans used p q none s f (p', e, v, w, g, k) = (p', e, v, w, Apart-trans used p q p' f g, k)
  Gives-trans used p q (some x) s f (e, o, g) = (e, o, Apart-trans used p q _ f g)

  pub take_lem :
      (p : Client)
      → IsKeyed p
      → Awaits r c p
      → Gives r c [] p (reply_gives (get (some c) p.replies)) (take c p)
  unfolding take
  take_lem p v w = elim (Option-cases (get (some c) p.replies)) [
    | inl e ↦
        rw (e, take)
          (
            p,
            refl,
            v,
            w,
            record {
              events = λ i n. refl;
              reply_events = λ d n. refl;
              replies = λ k n. refl;
              stays = refl;
            },
            e,
          )
    | inr (a, e) ↦
        let q = record p { replies = remove (some c) p.replies } in
        let rest = λ (k : Option Str). get-remove (some c) k p.replies in
        rw (e, take)
          (Gives-trans [] p q (acking_gives a.body a.acking) (handle c a q)
            (record {
              events = λ i n. refl;
              reply_events = λ d n. refl;
              replies = λ k n. rest k ∙ rw n refl;
              stays = refl;
            })
            (handle_lem a q (v.own (some c) a e)
              (record { own = λ k b h. v.own k b (ground (arith, rest k)) })
              (record { held = w.held; clear = w.clear })
              (rest (some c) ∙ rw (==_refl (some c)) refl)))
  ]

  pub drain_lem :
      (d : Drained) (p : Client)
      → IsKeyed p
      → Awaits r c p
      → get (some c) p.replies ≡ none
      → Gives r c (d ∷ []) p (drained_gives d) (drain c d p)
  unfolding drain
  drain_lem (failed f) p v w gone =
      trouble_step_lem (failed f ∷ []) f.trouble f.setup p (λ k kept. refl) v w gone
  drain_lem (delivered arrivals) p v w gone =
      let (keyed, same) = on_messages-Same arrivals p v in
      let q = on_messages arrivals p in
      let kept = λ (k : Option Str). get-on_messages k arrivals p in
      (
        q,
        refl,
        keyed,
        record {
          held = ap (get c) same.reply_events ∙ w.held;
          clear = ap (λ e. (e r).exception) same.events ∙ w.clear;
        },
        record {
          events = λ i n. ap (λ e. e i) same.events;
          reply_events = λ d n. ap (get d) same.reply_events;
          replies = λ k n. kept k;
          stays = same.stays;
        },
        kept (some c) ∙ ap (arrived (some c) (delivered arrivals)) gone,
      )
