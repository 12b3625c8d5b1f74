-- ===== src/Rpc/Client/Listeners.antt =====
-- nameko/rpc.py, ReplyListener: what a new call and one reply make of a valid listener.
use nameko_zh_cn.Base.{
  ℕ, ◌<◌, Str, ◌≡◌, refl, sym, ap, ◌∙◌, ◌≢◌, false, none, some, [], ◌∷◌, ◌++◌, Dict, get, put,
  remove, get-put, get-remove, str_keys, str_eq, str_eq_iff, arith, ◌⊎◌, inl, inr, ==_refl,
}
use nameko_zh_cn.Eventlet.{EventApi}
use nameko_zh_cn.Rpc.Effects.{ReplyBody}
use nameko_zh_cn.Rpc.Client.{Listener, Arrival, update, get_reply_event, send_to, handle_message}

pub get-put_cases :
    (c d : Str) (n r : ℕ) (m : Dict Str ℕ)
    → get d (put c n m) ≡ some r
    → ((c ≡ d) × (n ≡ r)) ⊎ (get d m ≡ some r)
get-put_cases c d n r m h = ground (arith, get-put c d n m, str_eq_iff c d)

pub get-remove-some :
    (c d : Str) (r : ℕ) (m : Dict Str ℕ)
    → get d (remove c m) ≡ some r
    → (c ≢ d) × (get d m ≡ some r)
get-remove-some c d r m h = ground (arith, get-remove c d m, str_eq_iff c d)

pub get-remove_ne : (c d : Str) (m : Dict Str ℕ) → str_eq c d ≡ false → get d (remove c m) ≡ get d m
get-remove_ne c d m h = ground (arith, get-remove c d m)

pub not_same : (c d : Str) → c ≢ d → str_eq c d ≡ false
not_same c d n = ground (arith, str_eq_iff c d)

pub some-ne-none : {r : ℕ} → some r ≡ none → ⊥
some-ne-none e = cc

pub remove_absent : (c : Str) (m : Dict Str ℕ) → get c m ≡ none → remove c m ≡ m
unfolding get remove
remove_absent c [] h = refl
remove_absent c ((d, r) ∷ m) h = ground (arith, remove_absent c m)

module _ (api : EventApi ReplyBody) where
  open api use {Event, new, ready, send, outcome, ready-new, ready-eq-outcome, send_once}

  -- Every event that the listener holds was not sent to yet, and no two correlation ids share one.
  pub record IsValid (l : Listener api) : Type 0 where
    pub waits :
        (c : Str) (r : ℕ)
        → get c l.reply_events ≡ some r
        → (r < l.next_event) × (ready (l.events r) ≡ false)
    pub apart :
        (c d : Str) (r : ℕ) → get c l.reply_events ≡ some r → get d l.reply_events ≡ some r → c ≡ d

  pub update_self : (events : ℕ → Event) (r : ℕ) (e : Event) → update api events r e r ≡ e
  unfolding update
  update_self events r e = ground arith

  pub update_ne :
      (events : ℕ → Event) (r i : ℕ) (e : Event) → r ≢ i → update api events r e i ≡ events i
  unfolding update
  update_ne events r i e n = ground arith

  -- A new call's event keeps the listener valid, and waits under the call's id.
  pub get_reply_event-IsValid :
      (c : Str) (l : Listener api)
      → IsValid l
      → IsValid (get_reply_event api c l).1
        × (get c (get_reply_event api c l).1.reply_events ≡ some (get_reply_event api c l).0)
  unfolding get_reply_event
  get_reply_event-IsValid c l v = (
    record {
      waits = λ d r h. elim (get-put_cases c d l.next_event r l.reply_events h) [
        | inl (_, e) ↦ (
          omega arith,
          ap ready (
                ap (update api l.events l.next_event new) (sym e)
                ∙ update_self l.events l.next_event new)
              ∙ ready-new,
        )
        | inr h' ↦
            let (below, idle) = v.waits d r h' in
            (omega arith, ap ready (update_ne l.events l.next_event r new (omega arith)) ∙ idle)
      ];
      apart = λ d d' r h h'. elim (get-put_cases c d l.next_event r l.reply_events h) [
        | inl (e, n) ↦ elim (get-put_cases c d' l.next_event r l.reply_events h') [
          | inl (e', n') ↦ sym e ∙ e'
          | inr k' ↦ let (below, idle) = v.waits d' r k' in absurd (omega arith)
        ]
        | inr k ↦ elim (get-put_cases c d' l.next_event r l.reply_events h') [
          | inl (e', n') ↦ let (below, idle) = v.waits d r k in absurd (omega arith)
          | inr k' ↦ v.apart d d' r k k'
        ]
      ];
    },
    simp (get-put, ==_refl),
  )

  -- The listener after a reply whose id it knows.
  abbrev pub answered : Arrival api → Str → ℕ → Event → Listener api → Listener api
  answered a c r e l = record l {
    reply_events = remove c l.reply_events;
    events = update api l.events r e;
    acked = l.acked ++ a.ident ∷ [];
  }

  pub handle_known :
      (a : Arrival api) (c : Str) (r : ℕ) (l : Listener api)
      → a.correlation_id ≡ some c
      → get c l.reply_events ≡ some r
      → ready (l.events r) ≡ false
      → (e : Event) × (handle_message api a l ≡ some (answered a c r e l))
        × (outcome e ≡ some a.body)
  unfolding handle_message
  handle_known a c r l has known idle =
      let (e, sent, out) = send_once (l.events r) a.body idle in
      (e, simp (has, known) (rw (sent, send_to)), out)

  pub answered-IsValid :
      (a : Arrival api) (c : Str) (r : ℕ) (e : Event) (l : Listener api)
      → get c l.reply_events ≡ some r
      → IsValid l
      → IsValid (answered a c r e l)
  answered-IsValid a c r e l known v = record {
    waits = λ d i h.
        let (other, h') = get-remove-some c d i l.reply_events h in
        let (below, idle) = v.waits d i h' in
        (
          below,
          ap ready
                (update_ne l.events r i e (λ same. other (v.apart c d i (known ∙ ap some same) h')))
              ∙ idle,
        );
    apart = λ d d' i h h'.
        v.apart d d' i (get-remove-some c d i l.reply_events h).1
          (get-remove-some c d' i l.reply_events h').1;
  }

  -- A reply with no id, or with an id that no call waits under, is acknowledged and dropped.
  abbrev pub dropped : Arrival api → Listener api → Listener api
  dropped a l = record l { acked = l.acked ++ a.ident ∷ [] }

  pub handle_unknown :
      (a : Arrival api) (c : Str) (l : Listener api)
      → a.correlation_id ≡ some c
      → get c l.reply_events ≡ none
      → handle_message api a l ≡ some (dropped a l)
  unfolding handle_message
  handle_unknown a c l has absent = simp (has, absent, remove_absent)

  pub handle_anonymous :
      (a : Arrival api) (l : Listener api)
      → a.correlation_id ≡ none
      → handle_message api a l ≡ some (dropped a l)
  unfolding handle_message
  handle_anonymous a l has = simp has
