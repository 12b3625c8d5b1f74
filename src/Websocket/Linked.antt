-- ===== src/Websocket/Linked.antt =====
-- nameko/web/websocket.py: the two sides of a subscription, the connection's channels and the
-- channel's sockets, always agree.
use nameko_zh_cn.Base.{
  Str, ◌≡◌, refl, sym, ap, ◌∙◌, subst, true, not, ◌&&◌, ◌||◌, Option, none, some, is_some, List, [],
  ◌∷◌, Dict, get, remove, str_keys, str_eq, str_eq_iff, contains, Option-cases, Bool-cases, inl,
  inr, arith, ◌==◌,
}
use nameko_zh_cn.Websocket.{
  Connection, Hub, subscribe, unsubscribe, drop_all, cleanup_websocket, Server, Action,
  add_websocket, remove_socket, subscribing, unsubscribing, subscribed, step, run,
}
unfoldable pub use nameko_zh_cn.Websocket.Channels.{listens, follows, channels_of}
use nameko_zh_cn.Websocket.Channels.{
  listens-drop_listener, follows-leave, listens-drop_all, Subscribed-subscribe, is_some-remove,
  is_some-put, is_some-leave, follows-remove,
}

pub record IsLinked (s : Server) : Type 0 where
  pub agree :
      (socket_id channel : Str)
      → listens socket_id channel s.hub.subscriptions ≡ follows socket_id channel s.hub.connections
  pub known :
      (socket_id : Str)
      → is_some (get socket_id s.hub.connections) ≡ true
      → is_some (get socket_id s.sockets) ≡ true

cleanup_unknown : (i : Str) (h : Hub) → get i h.connections ≡ none → cleanup_websocket i h ≡ h
unfolding cleanup_websocket
cleanup_unknown i h e = rw (e, cleanup_websocket) refl

cleanup_known :
    (i : Str) (h : Hub) (con : Connection)
    → get i h.connections ≡ some con
    → cleanup_websocket i h ≡ record {
      connections = remove i h.connections;
      subscriptions = drop_all con.subscriptions i h.subscriptions;
    }
unfolding cleanup_websocket
cleanup_known i h con e = rw (e, cleanup_websocket) refl

follows-eq :
    (i c : Str) (con : Connection) (d : Dict Str Connection)
    → get i d ≡ some con
    → follows i c d ≡ contains c con.subscriptions
unfolding follows channels_of
follows-eq i c con d e = rw e refl

dropped_agree :
    (i j c : Str) (con : Connection) (h : Hub)
    → get i h.connections ≡ some con
    → listens j c h.subscriptions ≡ follows j c h.connections
    → (not ((i == j) && contains c con.subscriptions) && listens j c h.subscriptions)
      ≡ (not (i == j) && follows j c h.connections)
dropped_agree i j c con h e agree =
    ground (arith, follows-eq i c con h.connections e, str_eq_iff i j)

IsLinked-remove_socket : (i : Str) (s : Server) → IsLinked s → IsLinked (step (remove_socket i) s)
unfolding step
IsLinked-remove_socket i s l =
    let left : Hub → Type 0 = λ h. IsLinked (record { sockets = remove i s.sockets; hub = h }) in
    elim (Option-cases (get i s.hub.connections)) [
      | inl e ↦ subst left (sym (cleanup_unknown i s.hub e)) (record {
        agree = l.agree;
        known = λ j h. is_some-remove i j s.sockets ∙ ground (arith, l.known j h, str_eq_iff i j);
      })
      | inr (con, e) ↦ subst left (sym (cleanup_known i s.hub con e)) (record {
        agree = λ j c.
            listens-drop_all j c i con.subscriptions s.hub.subscriptions
            ∙ dropped_agree i j c con s.hub e (l.agree j c)
            ∙ sym (follows-remove i j c s.hub.connections);
        known = λ j h.
            is_some-remove i j s.sockets
            ∙ ground (arith, l.known j, is_some-remove i j s.hub.connections, h);
      })
    ]

IsLinked-subscribed :
    (i k : Str) (o : Option Hub) (s : Server)
    → subscribe s.sockets i k s.hub ≡ o
    → IsLinked s
    → IsLinked (subscribed o s)
unfolding subscribed
IsLinked-subscribed i k none s e l = l
IsLinked-subscribed i k (some h) s e l =
    let made = Subscribed-subscribe i k s.sockets s.hub (l.known i) e in
    record {
      agree = λ j c.
          made.listening j c
          ∙ ap (λ b. ((i == j) && (k == c)) || b) (l.agree j c)
          ∙ sym (made.following j c);
      known = λ j g. elim (Bool-cases (str_eq i j)) [
        | inl q ↦ subst (λ j. is_some (get j s.sockets) ≡ true) ((str_eq_iff i j).0 q) made.known
        | inr q ↦
            l.known j
              (ap is_some (sym (made.others j (λ p. cc (q, (str_eq_iff i j).1 (sym p))))) ∙ g)
      ];
    }

IsLinked-step : (a : Action) (s : Server) → IsLinked s → IsLinked (step a s)
unfolding step unsubscribe
IsLinked-step (add_websocket i data_) s l = record {
  agree = l.agree;
  known = λ j h. is_some-put i j data_ s.sockets ∙ ground (arith, l.known j h);
}
IsLinked-step (remove_socket i) s l = IsLinked-remove_socket i s l
IsLinked-step (subscribing i k) s l =
    IsLinked-subscribed i k (subscribe s.sockets i k s.hub) s refl l
IsLinked-step (unsubscribing i k) s l = record {
  agree = λ j c.
      listens-drop_listener j c i k s.hub.subscriptions
      ∙ ap (λ b. not ((i == j) && (k == c)) && b) (l.agree j c)
      ∙ sym (follows-leave j c i k s.hub.connections);
  known = λ j h. l.known j (sym (is_some-leave i j k s.hub.connections) ∙ h);
}

-- Whatever sockets come and go, subscribe and unsubscribe, in whatever order: a socket is in the set
-- of a channel exactly when the channel is in the set of the socket's connection, and each
-- connection's socket is known to the server.
pub run-IsLinked : (as_ : List Action) (s : Server) → IsLinked s → IsLinked (run as_ s)
unfolding run
run-IsLinked [] s l = l
run-IsLinked (a ∷ as_) s l = run-IsLinked as_ (step a s) (IsLinked-step a s l)
