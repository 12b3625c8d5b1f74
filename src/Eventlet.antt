-- ===== src/Eventlet.antt =====
-- The parts of eventlet that the program calls and does not implement, as interfaces: the
-- operations with what eventlet's documentation says of them.
use nameko_zh_cn.Base.{◌≡◌, refl, Bool, true, false, Option, none, some, is_some}

-- `eventlet.event.Event`. `send` to an event that was sent to is an AssertionError, here `none`.
-- `outcome` is what `wait` gives; where it is `none`, `wait` blocks.
pub record EventApi (A : Type 0) : Type 1 where
  pub Event : Type 0
  pub new : Event
  pub ready : Event → Bool
  pub send : Event → A → Option Event
  pub outcome : Event → Option A
  pub ready-new : ready new ≡ false
  pub ready-eq-outcome : (e : Event) → ready e ≡ is_some (outcome e)
  pub send_once :
      (e : Event) (a : A)
      → ready e ≡ false
      → (e' : Event) × (send e a ≡ some e') × (outcome e' ≡ some a)
  pub send_again : (e : Event) (a : A) → ready e ≡ true → send e a ≡ none

send_slot : {A : Type 0} → Option A → A → Option (Option A)
send_slot none a = some (some a)
send_slot (some b) a = none

send_slot_once :
    {A : Type 0} (e : Option A) (a : A)
    → is_some e ≡ false
    → (e' : Option A) × (send_slot e a ≡ some e') × (e' ≡ some a)
unfolding send_slot
send_slot_once none a h = (some a, refl, refl)
send_slot_once (some b) a h = cc

send_slot_again : {A : Type 0} (e : Option A) (a : A) → is_some e ≡ true → send_slot e a ≡ none
unfolding send_slot
send_slot_again none a h = cc
send_slot_again (some b) a h = refl

-- An event as the slot for what was sent to it.
unfoldable pub slot : (A : Type 0) → EventApi A
unfolding send_slot send_slot_once send_slot_again
slot A = record {
  Event = Option A;
  new = none;
  ready = is_some;
  send = send_slot;
  outcome = λ e. e;
  ready-new = refl;
  ready-eq-outcome = λ e. refl;
  send_once = send_slot_once;
  send_again = send_slot_again;
}
