-- ===== src/Websocket/Channels.antt =====
-- nameko/web/websocket.py: what each operation of the hub does to the two sides of a subscription.
use nameko_zh_cn.Base.{
  Str, ◌≡◌, refl, sym, ap, ◌∙◌, subst, Bool, true, not, ◌&&◌, ◌||◌, Option, none, some, is_some,
  List, [], ◌∷◌, Dict, get, put, remove, get-put, get-remove, str_keys, str_eq, str_eq_iff, add,
  discard, contains, contains-add, contains-discard, Option-cases, Bool-cases, inl, inr, arith,
  ◌==◌, ◌≢◌,
}
use mathlib.Core.Option.{some-injective}
use nameko_zh_cn.Websocket.{
  Sockets, Connection, Hub, get_connection, or_empty, add_listener, subscribe, drop_listener, leave,
  drop_all,
}

-- Whether the channel's set has the socket, and the connection's set the channel.
unfoldable pub listens : Str → Str → Dict Str (List Str) → Bool
unfolding or_empty
listens socket_id channel d = contains socket_id (or_empty (get channel d))

unfoldable pub channels_of : Option Connection → List Str
channels_of none = []
channels_of (some con) = con.subscriptions

unfoldable pub follows : Str → Str → Dict Str Connection → Bool
unfolding channels_of
follows socket_id channel d = contains channel (channels_of (get socket_id d))

pub listens-add_listener :
    (i c j k : Str) (d : Dict Str (List Str))
    → listens i c (add_listener k j d) ≡ (((j == i) && (k == c)) || listens i c d)
unfolding listens add_listener or_empty
listens-add_listener i c j k d = ground (
  arith,
  get-put k c (add j (or_empty (get k d))) d,
  str_eq_iff k c,
  contains-add i j (or_empty (get k d)),
)

pub listens-drop_listener :
    (i c j k : Str) (d : Dict Str (List Str))
    → listens i c (drop_listener k j d) ≡ (not ((j == i) && (k == c)) && listens i c d)
unfolding listens drop_listener or_empty contains
listens-drop_listener i c j k d = elim (Option-cases (get k d)) [
  | inl e ↦ rw (e, drop_listener) (ground (arith, str_eq_iff k c))
  | inr (subs, e) ↦
      rw (e, drop_listener)
        (ground (arith, get-put k c (discard j subs) d, str_eq_iff k c, contains-discard i j subs))
]

pub follows-leave :
    (i c j k : Str) (d : Dict Str Connection)
    → follows i c (leave j k d) ≡ (not ((j == i) && (k == c)) && follows i c d)
unfolding follows leave channels_of contains
follows-leave i c j k d = elim (Option-cases (get j d)) [
  | inl e ↦ rw (e, leave) (ground (arith, str_eq_iff j i))
  | inr (con, e) ↦
      rw (e, leave)
        (ground (
          arith,
          get-put j i (record con { subscriptions = discard k con.subscriptions }) d,
          str_eq_iff j i,
          contains-discard c k con.subscriptions,
        ))
]

pub listens-drop_all :
    (i c j : Str) (ks : List Str) (d : Dict Str (List Str))
    → listens i c (drop_all ks j d) ≡ (not ((j == i) && contains c ks) && listens i c d)
unfolding drop_all contains
listens-drop_all i c j [] d = ground arith
listens-drop_all i c j (k ∷ ks) d =
    listens-drop_all i c j ks (drop_listener k j d)
    ∙ ground (arith, listens-drop_listener i c j k d)

pub get-put_ne :
    {A : Type 0} (i j : Str) (a : A) (d : Dict Str A) → j ≢ i → get j (put i a d) ≡ get j d
get-put_ne i j a d n = ground (arith, get-put i j a d, str_eq_iff i j)

-- An entry that `subscribe` makes or already finds.
pub data Connected (sockets : Sockets) (i : Str) (h : Hub) : Type 0 where
  refused : get i h.connections ≡ none → get_connection sockets i h ≡ none → Connected sockets i h
  found :
      (con : Connection) (h' : Hub)
      → get_connection sockets i h ≡ some (con, h')
      → is_some (get i sockets) ≡ true
      → h'.subscriptions ≡ h.subscriptions
      → ((j : Str) → j ≢ i → get j h'.connections ≡ get j h.connections)
      → ((c : Str) → contains c con.subscriptions ≡ follows i c h.connections)
      → Connected sockets i h

pub get_connection_cases :
    (sockets : Sockets) (i : Str) (h : Hub)
    → (is_some (get i h.connections) ≡ true → is_some (get i sockets) ≡ true)
    → Connected sockets i h
unfolding get_connection follows channels_of contains
get_connection_cases sockets i h known = elim (Option-cases (get i h.connections)) [
  | inr (con, e) ↦
      found con h (ground arith) (known (ap is_some e)) refl (λ j _. refl) (λ c. ground arith)
  | inl e ↦ elim (Option-cases (get i sockets)) [
    | inl e' ↦ refused e (ground arith)
    | inr (data_, e') ↦
        let con : Connection = record { context_data = data_; subscriptions = [] } in
        found con (record h { connections = put i con h.connections }) (ground arith)
          (ap is_some e') refl (λ j n. get-put_ne i j con h.connections n) (λ c. ground arith)
  ]
]

-- What `subscribe` makes, when it does not raise.
pub record Subscribed (i k : Str) (sockets : Sockets) (h h' : Hub) : Type 0 where
  pub known : is_some (get i sockets) ≡ true
  pub listening :
      (j c : Str)
      → listens j c h'.subscriptions ≡ (((i == j) && (k == c)) || listens j c h.subscriptions)
  pub following :
      (j c : Str)
      → follows j c h'.connections ≡ (((i == j) && (k == c)) || follows j c h.connections)
  pub others : (j : Str) → j ≢ i → get j h'.connections ≡ get j h.connections

pub follows_same :
    (j c : Str) (d e : Dict Str Connection) → get j d ≡ get j e → follows j c d ≡ follows j c e
unfolding follows
follows_same j c d e h = ap (λ o. contains c (channels_of o)) h

pub follows-put :
    (i c : Str) (con : Connection) (d : Dict Str Connection)
    → follows i c (put i con d) ≡ contains c con.subscriptions
unfolding follows channels_of
follows-put i c con d = ground (arith, get-put i i con d, str_eq_iff i i)

pub Subscribed-subscribe :
    (i k : Str) (sockets : Sockets) (h : Hub) {h' : Hub}
    → (is_some (get i h.connections) ≡ true → is_some (get i sockets) ≡ true)
    → subscribe sockets i k h ≡ some h'
    → Subscribed i k sockets h h'
unfolding subscribe
Subscribed-subscribe i k sockets h known e = elim (get_connection_cases sockets i h known) [
  | refused _ r ↦ absurd (cc (rw r at e))
  | found con g made alive same other first ↦
      let con' = record con { subscriptions = add k con.subscriptions } in
      subst (Subscribed i k sockets h) (some-injective _ _ (rw made at e)) (record {
        known = alive;
        listening = λ j c. rw same (listens-add_listener j c i k h.subscriptions);
        following = λ j c. elim (Bool-cases (str_eq i j)) [
          | inl q ↦
              subst
                (λ j.
                  follows j c (put i con' g.connections)
                  ≡ (((i == j) && (k == c)) || follows j c h.connections))
                ((str_eq_iff i j).0 q)
                (follows-put i c con' g.connections
                  ∙ contains-add c k con.subscriptions
                  ∙ ground (arith, first c, str_eq_iff i i))
          | inr q ↦
              follows_same j c (put i con' g.connections) h.connections (
                get-put_ne i j con' g.connections (λ s. cc (q, (str_eq_iff i j).1 (sym s)))
                ∙ other j (λ s. cc (q, (str_eq_iff i j).1 (sym s))))
              ∙ ground arith
        ];
        others = λ j n. get-put_ne i j con' g.connections n ∙ other j n;
      })
]

pub is_some-remove :
    {A : Type 0} (i j : Str) (d : Dict Str A)
    → is_some (get j (remove i d)) ≡ (not (i == j) && is_some (get j d))
is_some-remove i j d = ground (arith, get-remove i j d)

pub is_some-put :
    {A : Type 0} (i j : Str) (a : A) (d : Dict Str A)
    → is_some (get j (put i a d)) ≡ ((i == j) || is_some (get j d))
is_some-put i j a d = ground (arith, get-put i j a d)

pub is_some-leave :
    (i j c : Str) (d : Dict Str Connection) → is_some (get j (leave i c d)) ≡ is_some (get j d)
unfolding leave
is_some-leave i j c d = elim (Option-cases (get i d)) [
  | inl e ↦ rw (e, leave) refl
  | inr (con, e) ↦ rw (e, leave) (is_some-put i j _ d ∙ ground (arith, str_eq_iff i j, e))
]

pub follows-remove :
    (i j c : Str) (d : Dict Str Connection)
    → follows j c (remove i d) ≡ (not (i == j) && follows j c d)
unfolding follows channels_of contains
follows-remove i j c d = ground (arith, get-remove i j d)
