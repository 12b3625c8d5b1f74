-- ===== src/Events/Queues.antt =====
-- nameko/events.py: which handlers share a queue, and so the events of it.
use nameko_zh_cn.Base.{
  ℕ, Str, ◌≡◌, refl, sym, ap, ◌∙◌, subst, true, false, not, ◌&&◌, Option, none, some, ◌>>=◌,
  is_some, [], ◌∷◌, ◌++◌, contains, nat_eq, eqb_iff, arith, inl, inr, ◌↔◌, Option-cases,
  if◌then◌else◌,
}
use mathlib.Core.Option.{some-injective}
use nameko_zh_cn.Events.{
  HandlerType, service_pool, singleton, broadcast, EventHandler, Config, get_event_exchange, Queue,
  broadcast_identifier, event_name, method_queue, name_of, queue_name, is_broadcast, setup,
  default_identifier,
}

contains-append : (c : ℕ) (s t : Str) → contains c (s ++ c ∷ t) ≡ true
unfolding contains
contains-append c [] t = ground (arith, eqb_iff c c)
contains-append c (x ∷ s) t = ground (arith, contains-append c s t)

cons-injective : (x y : ℕ) (s t : Str) → Path Str (x ∷ s) (y ∷ t) → (x ≡ y) × (s ≡ t)
cons-injective x y s t e = (cc, cc)

-- A string splits in one way at its last separator.
pub last_separator :
    (c : ℕ) (s s' m m' : Str)
    → contains c m ≡ false
    → contains c m' ≡ false
    → (s ++ c ∷ m) ≡ (s' ++ c ∷ m')
    → (s ≡ s') × (m ≡ m')
last_separator c [] [] m m' a b e = (refl, (cons-injective c c m m' e).1)
last_separator c [] (x ∷ s') m m' a b e =
    let tail = (cons-injective c x m (s' ++ c ∷ m') e).1 in
    absurd (cc (a, ap (contains c) tail, contains-append c s' m'))
last_separator c (x ∷ s) [] m m' a b e =
    let tail = (cons-injective x c (s ++ c ∷ m) m' e).1 in
    absurd (cc (b, ap (contains c) tail, contains-append c s m))
last_separator c (x ∷ s) (y ∷ s') m m' a b e =
    let (head, tail) = cons-injective x y (s ++ c ∷ m) (s' ++ c ∷ m') e in
    let (front, back) = last_separator c s s' m m' a b tail in (cc, back)

append_left : (p s t : Str) → (p ++ s) ≡ (p ++ t) → s ≡ t
append_left [] s t e = e
append_left (x ∷ p) s t e = append_left p s t (cons-injective x x (p ++ s) (p ++ t) e).1

method_queue-injective :
    (p s s' m m' : Str)
    → contains b'.' m ≡ false
    → contains b'.' m' ≡ false
    → method_queue p s m ≡ method_queue p s' m'
    → (s ≡ s') × (m ≡ m')
unfolding method_queue
method_queue-injective p s s' m m' a b e =
    let u = s ++ b'.' ∷ m in
    let u' = s' ++ b'.' ∷ m' in
    let dashes = append_left p (b'-' ∷ b'-' ∷ u) (b'-' ∷ b'-' ∷ u') e in
    let dash = (cons-injective b'-' b'-' (b'-' ∷ u) (b'-' ∷ u') dashes).1 in
    last_separator b'.' s s' m m' a b (cons-injective b'-' b'-' u u' dash).1

-- What two handlers of one type have in common when they are to share a queue.
abbrev pub Pooled : HandlerType → Str → Str → EventHandler → EventHandler → Type 0
Pooled service_pool u v a b = (a.service_name ≡ b.service_name) × (a.method_name ≡ b.method_name)
Pooled singleton u v a b = Unit
Pooled broadcast u v a b =
    (a.service_name ≡ b.service_name)
    × (a.method_name ≡ b.method_name)
    × (broadcast_identifier u a ≡ broadcast_identifier v b)

-- The method's name has no dot, and the identifier has no dash.
pub record IsPlain (uuid : Str) (h : EventHandler) : Type 0 where
  pub method : contains b'.' h.method_name ≡ false
  pub identifier : {i : Str} → broadcast_identifier uuid h ≡ some i → contains b'-' i ≡ false

same_queue :
    (p q s s' m m' : Str) → p ≡ q → s ≡ s' → m ≡ m' → method_queue p s m ≡ method_queue q s' m'
same_queue p q s s' m m' e f g =
    ap (λ x. method_queue x s m) e ∙ ap (λ x. method_queue q x m) f ∙ ap (method_queue q s') g

method_queue_iff :
    (u v : Str) (a b : EventHandler)
    → event_name a ≡ event_name b
    → IsPlain u a
    → IsPlain v b
    → (method_queue (event_name a) a.service_name a.method_name
        ≡ method_queue (event_name b) b.service_name b.method_name)
      ↔ ((a.service_name ≡ b.service_name) × (a.method_name ≡ b.method_name))
method_queue_iff u v a b event pa pb = (
  λ e.
      method_queue-injective (event_name b) _ _ _ _ pa.method pb.method
        (same_queue _ _ _ _ _ _ (sym event) refl refl ∙ e),
  λ e. same_queue _ _ _ _ _ _ event e.0 e.1,
)

identified :
    (u : Str) (h : EventHandler) {n : Str}
    → name_of broadcast u h ≡ some n
    → (i : Str) × (broadcast_identifier u h ≡ some i)
      × (n ≡ method_queue (event_name h) h.service_name h.method_name ++ b'-' ∷ i)
unfolding name_of
identified u h e = elim (Option-cases (broadcast_identifier u h)) [
  | inl none_ ↦ absurd (cc (rw none_ at e))
  | inr (i, has) ↦ (i, has, sym (some-injective _ _ (rw has at e)))
]

share_queue :
    (t : HandlerType) (u v : Str) (a b : EventHandler) {n m : Str}
    → event_name a ≡ event_name b
    → IsPlain u a
    → IsPlain v b
    → name_of t u a ≡ some n
    → name_of t v b ≡ some m
    → (n ≡ m) ↔ Pooled t u v a b
unfolding name_of
share_queue service_pool u v a b {n} {m} event pa pb e f =
    let n≡ = some-injective _ n e in
    let m≡ = some-injective _ m f in
    let (to, from) = method_queue_iff u v a b event pa pb in
    (λ h. to (n≡ ∙ h ∙ sym m≡), λ h. sym n≡ ∙ from h ∙ m≡)
share_queue singleton u v a b {n} {m} event pa pb e f =
    (λ h. tt, λ h. sym (some-injective _ n e) ∙ event ∙ some-injective _ m f)
share_queue broadcast u v a b event pa pb e f =
    let (i, has, n≡) = identified u a e in
    let (j, has', m≡) = identified v b f in
    let (to, from) = method_queue_iff u v a b event pa pb in
    (
      λ h.
          let (queues, ids) =
            last_separator b'-' _ _ i j (pa.identifier has) (pb.identifier has')
              (sym n≡ ∙ h ∙ m≡) in
          let (services, methods) = to queues in (services, methods, has ∙ ap some ids ∙ sym has'),
      λ h.
          n≡
          ∙ ap (λ x. x ++ b'-' ∷ i) (from (h.0, h.1))
          ∙ ap (λ x. method_queue (event_name b) b.service_name b.method_name ++ b'-' ∷ x)
              (some-injective i j (sym has ∙ h.2 ∙ has'))
          ∙ sym m≡,
    )

-- Two handlers of one type for one event that are set up consume the same queue, and so share its
-- events, exactly when: for SERVICE_POOL, they are the same method of the same service; for
-- SINGLETON, always; for BROADCAST, they are the same method of the same service and have the same
-- identifier. No method's name has a dot, and no identifier a dash.
pub handlers_share_queue :
    (u v : Str) (a b : EventHandler) {n m : Str}
    → event_name a ≡ event_name b
    → b.handler_type ≡ a.handler_type
    → IsPlain u a
    → IsPlain v b
    → queue_name u a ≡ some n
    → queue_name v b ≡ some m
    → (n ≡ m) ↔ Pooled a.handler_type u v a b
unfolding queue_name
handlers_share_queue u v a b {m = m} event type pa pb e f =
    share_queue a.handler_type u v a b event pa pb e (subst (λ t. name_of t v b ≡ some m) type f)

is_some-name_of :
    (t : HandlerType) (u : Str) (h : EventHandler)
    → is_some (name_of t u h)
      ≡ not (is_broadcast t && (h.reliable_delivery && not (is_some h.own_identifier)))
unfolding name_of broadcast_identifier is_broadcast default_identifier
is_some-name_of service_pool u h = refl
is_some-name_of singleton u h = refl
is_some-name_of broadcast u h = ground arith

is_some-map :
    {A B : Type 0} (o : Option A) (f : A → B) → is_some (o >>= λ a. some (f a)) ≡ is_some o
is_some-map none f = refl
is_some-map (some a) f = refl

pub mapped :
    {A B : Type 0} (o : Option A) (f : A → B) {b : B}
    → (o >>= λ a. some (f a)) ≡ some b
    → (a : A) × (o ≡ some a) × (f a ≡ b)
mapped none f e = cc
mapped (some a) f {b} e = (a, refl, some-injective (f a) b e)

abbrev pub queue_of : Config → EventHandler → Str → Queue
queue_of config h name = record {
  name = name;
  exchange = get_event_exchange h.source_service config;
  routing_key = h.event_type;
  durable = true;
  auto_delete = not h.reliable_delivery;
  exclusive = if h.reliable_delivery then false else is_broadcast h.handler_type;
}

-- Setting up fails exactly for a BROADCAST handler with reliable delivery that has no identifier of
-- its own; a queue that is set up is kept when its consumers leave, and open to other consumers,
-- when delivery is reliable, and it has the handler's queue name.
pub setup_lem :
    (config : Config) (u : Str) (h : EventHandler)
    → (is_some (setup config u h)
        ≡ not (
            is_broadcast h.handler_type && (h.reliable_delivery && not (is_some h.own_identifier))))
      × ((q : Queue) → setup config u h ≡ some q → queue_name u h ≡ some q.name)
      × ((q : Queue)
          → setup config u h ≡ some q
          → h.reliable_delivery ≡ true
          → (q.auto_delete ≡ false) × (q.exclusive ≡ false))
unfolding setup queue_name
setup_lem config u h = (
  is_some-map (queue_name u h) (queue_of config h) ∙ is_some-name_of h.handler_type u h,
  λ q e.
      let (n, known, eq) = mapped (queue_name u h) (queue_of config h) e in
      known ∙ ap (λ x. some (x.name)) eq,
  λ q e reliable.
      let (n, known, eq) = mapped (queue_name u h) (queue_of config h) e in
      (
        ap (λ x. x.auto_delete) (sym eq) ∙ ap not reliable,
        ap (λ x. x.exclusive) (sym eq)
            ∙ ap (λ r. if r then false else is_broadcast h.handler_type) reliable,
      ),
)
