-- ===== src/Sockets/Received.antt =====
-- What a client's events are sent as messages arrive.
use nameko_zh_cn.Base.{
  ℕ, Str, Option, none, some, List, Dict, get, remove, str_keys, eqb, eqb_iff, ◌≡◌, ◌≢◌, refl, ap,
  ◌∙◌, Option-cases, Bool-cases, inl, inr,
}
use nameko_zh_cn.Values.{Value}
use nameko_zh_cn.Websocket.Requests.{Response}
use nameko_zh_cn.Sockets.{
  Message, event, result, other_type, Client, send, result_id, take_result, on_message, update,
}
use nameko_zh_cn.Sockets.Valid.{IsValid, get-remove-some, get-remove_other}

-- After a handler was popped and its event sent to.
abbrev popped : Str → ℕ → Response → Client → Client
popped id e r c = record c {
  result_handlers = remove id c.result_handlers;
  sent = update c.sent e r;
}

popped-IsValid :
    (id : Str) (e : ℕ) (r : Response) (c : Client)
    → get id c.result_handlers ≡ some e
    → IsValid c
    → IsValid (popped id e r c)
popped-IsValid id e r c g v = record {
  unsent = λ j f h.
      let p = get-remove-some id j f c.result_handlers h in
      elim (Bool-cases (eqb e f)) [
        | inl q ↦ absurd (p.0 (v.apart id j f (g ∙ ap some ((eqb_iff e f).0 q)) p.1))
        | inr q ↦ rw q (v.unsent j f p.1)
      ];
  known = λ j f h. v.known j f (get-remove-some id j f c.result_handlers h).1;
  apart = λ i j f h k.
      v.apart i j f (get-remove-some id i f c.result_handlers h).1
        (get-remove-some id j f c.result_handlers k).1;
}

-- What a message does: nothing to the handlers, or it pops one and sends to its event.
take_result-popped :
    (id : Str) (e : ℕ) (r : Response) (c : Client)
    → IsValid c
    → get id c.result_handlers ≡ some e
    → take_result (some id) r c ≡ some (popped id e r c)
unfolding take_result send
take_result-popped id e r c v g = rw (g, v.unsent id e g) refl

take_result-none :
    (id : Str) (r : Response) (c : Client)
    → get id c.result_handlers ≡ none
    → take_result (some id) r c ≡ some (record c { result_handlers = remove id c.result_handlers })
unfolding take_result
take_result-none id r c g = rw g refl

abbrev removed : Str → Client → Client
removed id c = record c { result_handlers = remove id c.result_handlers }

removed-IsValid : (id : Str) (c : Client) → IsValid c → IsValid (removed id c)
removed-IsValid id c v = record {
  unsent = λ j f h. v.unsent j f (get-remove-some id j f c.result_handlers h).1;
  known = λ j f h. v.known j f (get-remove-some id j f c.result_handlers h).1;
  apart = λ i j f h k.
      v.apart i j f (get-remove-some id i f c.result_handlers h).1
        (get-remove-some id j f c.result_handlers k).1;
}

queued-IsValid :
    (q : Dict Str (List (Str × Value))) (c : Client)
    → IsValid c
    → IsValid (record c { event_queues = q })
queued-IsValid q c v = record { unsent = v.unsent; known = v.known; apart = v.apart }

-- The id of the call that a message answers.
abbrev pub message_id : Message → Option Str
message_id (result r) = result_id r
message_id (event event_type v) = none
message_id other_type = none

-- What a message does: it changes no more than the queues, it pops a handler and sends to its event,
-- or it finds no handler.
pub data View (c : Client) : Message → Client → Type 0 where
  queued :
      (m : Message) (q : Dict Str (List (Str × Value)))
      → message_id m ≡ none
      → View c m (record c { event_queues = q })
  pops :
      (r : Response) (id : Str) (e : ℕ)
      → result_id r ≡ some id
      → get id c.result_handlers ≡ some e
      → View c (result r) (popped id e r c)
  ignored :
      (r : Response) (id : Str)
      → result_id r ≡ some id
      → get id c.result_handlers ≡ none
      → View c (result r) (removed id c)

result-View :
    (r : Response) (o : Option Str) (c : Client)
    → IsValid c
    → result_id r ≡ o
    → (t : Client) × (take_result o r c ≡ some t) × View c (result r) t
unfolding take_result
result-View r none c v h = (c, refl, queued (result r) c.event_queues h)
result-View r (some id) c v h = elim (Option-cases (get id c.result_handlers)) [
  | inl g ↦ (removed id c, take_result-none id r c g, ignored r id h g)
  | inr (e, g) ↦ (popped id e r c, take_result-popped id e r c v g, pops r id e h g)
]

pub view :
    (m : Message) (c : Client) → IsValid c → (t : Client) × (on_message m c ≡ some t) × View c m t
unfolding on_message
view (event event_type d) c v = (_, refl, queued (event event_type d) _ refl)
view (result r) c v = result-View r (result_id r) c v refl
view other_type c v = (c, refl, queued other_type c.event_queues refl)

pub View-IsValid : {c : Client} {m : Message} {t : Client} → View c m t → IsValid c → IsValid t
View-IsValid {c} (queued m q h) v = queued-IsValid q c v
View-IsValid {c} (pops r id e h g) v = popped-IsValid id e r c g v
View-IsValid {c} (ignored r id h g) v = removed-IsValid id c v

-- A call waits on while other calls are answered.
pub View-waits :
    {c : Client} {m : Message} {t : Client} (id : Str) (e : ℕ)
    → View c m t
    → message_id m ≢ some id
    → get id c.result_handlers ≡ some e
    → get id t.result_handlers ≡ some e
View-waits id e (queued m q h) n g = g
View-waits {c} id e (pops r j f h k) n g =
    get-remove_other j id c.result_handlers (λ p. n (h ∙ ap some p)) ∙ g
View-waits {c} id e (ignored r j h k) n g =
    get-remove_other j id c.result_handlers (λ p. n (h ∙ ap some p)) ∙ g

-- An event that was sent to, and that no handler is of.
pub record IsSettled (e : ℕ) (r : Response) (c : Client) : Type 0 where
  pub sent : c.sent e ≡ some r
  pub no_handler : (j : Str) → get j c.result_handlers ≢ some e

pub View-settles :
    {c : Client} {r : Response} {t : Client} (id : Str) (e : ℕ)
    → View c (result r) t
    → IsValid c
    → result_id r ≡ some id
    → get id c.result_handlers ≡ some e
    → IsSettled e r t
View-settles id e (queued m q h) v k g = absurd (cc (h, k))
View-settles {c} {r} id e (pops s j f h l) v k g =
    let p : j ≡ id = cc in
    let q : f ≡ e = cc in
    record {
      sent = rw ((eqb_iff f e).1 q) refl;
      no_handler = λ i x.
          let y = get-remove-some j i e c.result_handlers x in
          y.0 (v.apart j i e (l ∙ ap some q) y.1);
    }
View-settles {c} id e (ignored s j h l) v k g = let p : j ≡ id = cc in absurd (cc)

pub View-IsSettled :
    {c : Client} {m : Message} {t : Client} (e : ℕ) (r : Response)
    → View c m t
    → IsSettled e r c
    → IsSettled e r t
View-IsSettled e r (queued m q h) s = record { sent = s.sent; no_handler = s.no_handler }
View-IsSettled {c} e r (pops x j f h l) s = record {
  sent = elim (Bool-cases (eqb f e)) [
    | inl q ↦ absurd (s.no_handler j (l ∙ ap some ((eqb_iff f e).0 q)))
    | inr q ↦ rw q s.sent
  ];
  no_handler = λ i g. s.no_handler i (get-remove-some j i e c.result_handlers g).1;
}
View-IsSettled {c} e r (ignored x j h k) s = record {
  sent = s.sent;
  no_handler = λ i g. s.no_handler i (get-remove-some j i e c.result_handlers g).1;
}
