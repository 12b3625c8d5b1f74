-- ===== src/Websocket/Broadcasts.antt =====
-- nameko/web/websocket.py: who hears a broadcast.
use nameko_zh_cn.Base.{
  Str, ◌≡◌, refl, sym, ap, ◌∙◌, true, false, ◌&&◌, Option, none, some, is_some, List, [], ◌∷◌, All,
  get, str_keys, str_eq, str_eq_iff, contains, Option-cases, Bool-cases, inl, inr, arith,
}
use nameko_zh_cn.Websocket.{
  Sockets, Hub, broadcast, live_only, unicast, get_subscriptions, Server, Action, add_websocket,
  remove_socket, subscribing, unsubscribing, subscribed, subscribe, step, run,
}
use nameko_zh_cn.Websocket.Channels.{listens, follows, channels_of, is_some-remove, is_some-put}
use nameko_zh_cn.Websocket.Linked.{IsLinked, run-IsLinked}

contains-live_only :
    (i : Str) (sockets : Sockets) (ss : List Str)
    → contains i (live_only sockets ss) ≡ (is_some (get i sockets) && contains i ss)
unfolding contains live_only
contains-live_only i sockets [] = ground arith
contains-live_only i sockets (s ∷ ss) =
    ground (arith, contains-live_only i sockets ss, str_eq_iff s i)

follows-get_subscriptions :
    (i c : Str) (h : Hub) → contains c (get_subscriptions i h) ≡ follows i c h.connections
unfolding get_subscriptions follows channels_of
follows-get_subscriptions i c h = elim (Option-cases (get i h.connections)) [
  | inl e ↦ rw (e, get_subscriptions) refl
  | inr (con, e) ↦ rw (e, get_subscriptions) refl
]

follows_known :
    (i c : Str) (h : Hub) → follows i c h.connections ≡ true → is_some (get i h.connections) ≡ true
unfolding follows channels_of contains
follows_known i c h f = ground arith

-- In a hub whose sides agree, a broadcast to a channel is sent to a socket exactly when the socket's
-- list of subscriptions has the channel.
pub broadcast_reaches :
    (s : Server) (i c : Str)
    → IsLinked s
    → contains i (broadcast s.sockets c s.hub) ≡ contains c (get_subscriptions i s.hub)
unfolding broadcast listens
broadcast_reaches s i c l =
    contains-live_only i s.sockets _
    ∙ ground (arith, l.agree i c, l.known i, follows_known i c s.hub)
    ∙ sym (follows-get_subscriptions i c s.hub)

unfollowed :
    (i c : Str) (s : Server)
    → IsLinked s
    → is_some (get i s.sockets) ≡ false
    → follows i c s.hub.connections ≡ false
unfollowed i c s l gone = elim (Bool-cases (follows i c s.hub.connections)) [
  | inl f ↦ absurd (cc (gone, l.known i (follows_known i c s.hub f)))
  | inr f ↦ f
]

-- The socket is not added anew.
abbrev pub LeavesOut : Str → Action → Type 0
LeavesOut i (add_websocket j data_) = str_eq j i ≡ false
LeavesOut i _ = Unit

sockets-subscribed : (o : Option Hub) (s : Server) → (subscribed o s).sockets ≡ s.sockets
unfolding subscribed
sockets-subscribed none s = refl
sockets-subscribed (some h) s = refl

gone_step :
    (i : Str) (a : Action) (s : Server)
    → LeavesOut i a
    → is_some (get i s.sockets) ≡ false
    → is_some (get i (step a s).sockets) ≡ false
unfolding step
gone_step i (add_websocket j data_) s n g = is_some-put j i data_ s.sockets ∙ ground arith
gone_step i (remove_socket j) s n g = is_some-remove j i s.sockets ∙ ground arith
gone_step i (subscribing j k) s n g =
    ap (λ d. is_some (get i d)) (sockets-subscribed (subscribe s.sockets j k s.hub) s) ∙ g
gone_step i (unsubscribing j k) s n g = g

gone_run :
    (i : Str) (as_ : List Action) (s : Server)
    → All (LeavesOut i) as_
    → is_some (get i s.sockets) ≡ false
    → is_some (get i (run as_ s).sockets) ≡ false
unfolding run
gone_run i [] s n g = g
gone_run i (a ∷ as_) s n g = gone_run i as_ (step a s) n.1 (gone_step i a s n.0 g)

-- Once a socket is removed, and as long as no socket of its id is added: no broadcast and no unicast
-- reaches it, and it has no subscription.
pub removed_hears_nothing :
    (i : Str) (as_ : List Action) (s : Server)
    → IsLinked s
    → All (LeavesOut i) as_
    → let t = run (remove_socket i ∷ as_) s in
      ((c : Str) → contains i (broadcast t.sockets c t.hub) ≡ false)
      × (unicast t.sockets i ≡ false)
      × ((c : Str) → contains c (get_subscriptions i t.hub) ≡ false)
unfolding run step unicast
removed_hears_nothing i as_ s l n =
    let t = run (remove_socket i ∷ as_) s in
    let linked = run-IsLinked (remove_socket i ∷ as_) s l in
    let gone =
      gone_run i as_ (step (remove_socket i) s) n
        (is_some-remove i i s.sockets ∙ ground (arith, str_eq_iff i i)) in
    let hears = λ (c : Str).
      broadcast_reaches t i c linked
      ∙ follows-get_subscriptions i c t.hub
      ∙ unfollowed i c t linked gone in
    (hears, gone, λ c. sym (broadcast_reaches t i c linked) ∙ hears c)
