-- ===== src/Rpc/Client/Replies.antt =====
-- nameko/rpc.py, ReplyListener: each reply reaches the call that waits for it.
use nameko_zh_cn.Base.{
  ℕ, Str, ◌≡◌, refl, sym, ap, ◌∙◌, ◌≢◌, false, Option, none, some, is_some, List, [], ◌∷◌, get,
  str_keys, str_eq, str_eq_iff, Bool-cases, Option-cases, inl, inr, if◌then◌else◌, ◌>>=◌, subst,
}
use mathlib.Core.Option.{some-injective}
use nameko_zh_cn.Eventlet.{EventApi}
use nameko_zh_cn.Rpc.Effects.{ReplyBody}
use nameko_zh_cn.Rpc.Client.{Listener, Arrival, update, handle_message}
use nameko_zh_cn.Rpc.Client.Listeners.{
  IsValid, answered, dropped, update_self, update_ne, get-remove-some, get-remove_ne, not_same,
  some-ne-none, handle_known, answered-IsValid, handle_unknown, handle_anonymous,
}

module _ (api : EventApi ReplyBody) where
  open api use {Event, new, ready, send, outcome, ready-new, ready-eq-outcome, send_once}

  -- The replies of a queue, one after another.
  unfoldable pub deliver : List (Arrival api) → Listener api → Option (Listener api)
  deliver [] l = some l
  deliver (a ∷ as_) l = handle_message api a l >>= deliver as_

  -- The body of the first reply under an id.
  unfoldable pub first_reply : Str → List (Arrival api) → Option ReplyBody
  first_reply c [] = none
  first_reply c (a ∷ as_) = elim a.correlation_id [
    | none ↦ first_reply c as_
    | some d ↦ if str_eq d c then some a.body else first_reply c as_
  ]

  -- What one reply makes of a valid listener.
  data Handled (a : Arrival api) (l : Listener api) : Type 0 where
    dropping :
        ((c : Str) → a.correlation_id ≡ some c → get c l.reply_events ≡ none)
        → handle_message api a l ≡ some (dropped api a l)
        → Handled a l
    answering :
        (c : Str) (r : ℕ) (e : Event)
        → a.correlation_id ≡ some c
        → get c l.reply_events ≡ some r
        → handle_message api a l ≡ some (answered api a c r e l)
        → outcome e ≡ some a.body
        → Handled a l

  handle_cases : (a : Arrival api) (l : Listener api) → IsValid api l → Handled a l
  handle_cases a l v = elim (Option-cases a.correlation_id) [
    | inl has ↦ dropping (λ c e. cc) (handle_anonymous api a l has)
    | inr (c, has) ↦ elim (Option-cases (get c l.reply_events)) [
      | inl absent ↦ dropping (λ d e. cc) (handle_unknown api a c l has absent)
      | inr (r, known) ↦
          let (e, h, out) = handle_known api a c r l has known (v.waits c r known).1 in
          answering c r e has known h out
    ]
  ]

  dropped-IsValid :
      (a : Arrival api) (l : Listener api) → IsValid api l → IsValid api (dropped api a l)
  dropped-IsValid a l v = record { waits = v.waits; apart = v.apart }

  -- An event that has left the dict keeps what was sent to it.
  deliver_keeps :
      (as_ : List (Arrival api)) (l : Listener api) (r : ℕ)
      → IsValid api l
      → ((d : Str) → get d l.reply_events ≢ some r)
      → (l' : Listener api) × (deliver as_ l ≡ some l')
        × (outcome (l'.events r) ≡ outcome (l.events r))
  unfolding deliver
  deliver_keeps [] l r v gone = (l, refl, refl)
  deliver_keeps (a ∷ as_) l r v gone = elim (handle_cases a l v) [
    | dropping _ h ↦ rw h (deliver_keeps as_ (dropped api a l) r (dropped-IsValid a l v) gone)
    | answering c i e has known h out ↦
        let (l', run, same) =
          deliver_keeps as_ (answered api a c i e l) r (answered-IsValid api a c i e l known v)
            (λ d k. gone d (get-remove-some c d r l.reply_events k).1) in
        (
          l',
          rw h run,
          same ∙ ap outcome (update_ne api l.events i r e (λ s. gone c (known ∙ ap some s))),
        )
  ]

  unsent : (e : Event) → ready e ≡ false → outcome e ≡ none
  unsent e idle = elim (Option-cases (outcome e)) [
    | inl h ↦ h
    | inr (b, h) ↦ cc (ready-eq-outcome e, ap is_some h)
  ]

  first_reply-nil : (c : Str) → first_reply c [] ≡ none
  unfolding first_reply
  first_reply-nil c = refl

  first_reply_skip :
      (c : Str) (a : Arrival api) (as_ : List (Arrival api))
      → ((d : Str) → a.correlation_id ≡ some d → str_eq d c ≡ false)
      → first_reply c (a ∷ as_) ≡ first_reply c as_
  unfolding first_reply
  first_reply_skip c a as_ other = elim (Option-cases a.correlation_id) [
    | inl e ↦ rw (e, first_reply)
    | inr (d, e) ↦ rw (e, first_reply) (rw (other d e))
  ]

  first_reply_take :
      (c : Str) (a : Arrival api) (as_ : List (Arrival api))
      → a.correlation_id ≡ some c
      → first_reply c (a ∷ as_) ≡ some a.body
  unfolding first_reply
  first_reply_take c a as_ e = rw (e, first_reply) (rw ((str_eq_iff c c).1 refl))

  -- A call that waits under an id gets the body of the first reply under that id, and waits on if
  -- there is none; replies to other calls, unknown and repeated ones make no difference to it, and
  -- no event is sent to twice.
  pub replies_reach_their_calls :
      (as_ : List (Arrival api)) (l : Listener api) (c : Str) (r : ℕ)
      → IsValid api l
      → get c l.reply_events ≡ some r
      → (l' : Listener api) × (deliver as_ l ≡ some l')
        × (outcome (l'.events r) ≡ first_reply c as_)
  unfolding deliver
  replies_reach_their_calls [] l c r v known =
      (l, refl, unsent (l.events r) (v.waits c r known).1 ∙ sym (first_reply-nil c))
  replies_reach_their_calls (a ∷ as_) l c r v known = elim (handle_cases a l v) [
    | dropping absent h ↦
        let other = λ (d : Str) (has : a.correlation_id ≡ some d). not_same d c (λ same.
          some-ne-none (sym known ∙ ap (λ k. get k l.reply_events) (sym same) ∙ absent d has)) in
        let (l', run, e) =
          replies_reach_their_calls as_ (dropped api a l) c r (dropped-IsValid a l v) known in
        (l', rw h run, e ∙ sym (first_reply_skip c a as_ other))
    | answering d i e has known' h out ↦ elim (Bool-cases (str_eq d c)) [
      | inl same ↦
          let d≡c = (str_eq_iff d c).0 same in
          let i≡r = some-injective i r (sym known' ∙ ap (λ k. get k l.reply_events) d≡c ∙ known) in
          let (l', run, kept) =
            deliver_keeps as_ (answered api a d i e l) r (answered-IsValid api a d i e l known' v)
              (λ k g.
                let (other, g') = get-remove-some d k r l.reply_events g in
                other (d≡c ∙ v.apart c k r known g')) in
          (
            l',
            rw h run,
            kept
                ∙ ap (λ j. outcome (update api l.events j e r)) i≡r
                ∙ ap outcome (update_self api l.events r e)
                ∙ out
                ∙ sym (first_reply_take c a as_ (has ∙ ap some d≡c)),
          )
      | inr other ↦
          let still = get-remove_ne d c l.reply_events other ∙ known in
          let (l', run, e') =
            replies_reach_their_calls as_ (answered api a d i e l) c r
              (answered-IsValid api a d i e l known' v) still in
          (
            l',
            rw h run,
            e'
                ∙ sym (
                    first_reply_skip c a as_ (λ k has'.
                      subst (λ x. str_eq x c ≡ false) (some-injective d k (sym has ∙ has')) other)),
          )
    ]
  ]
