-- ===== src/Amqp/Headers.antt =====
-- nameko/amqp/publish.py: which headers and which options a message is sent with.
use nameko_zh_cn.Base.{
  Str, ◌≡◌, refl, sym, ap, ◌∙◌, Option, none, some, List, [], ◌∷◌, ◌++◌, Dict, get, put, build,
  get-put, str_keys, str_eq, str_eq_iff, Distinct, Distinct-put, has_key, get-eq-none, Bool-cases,
  inl, inr,
}
use nameko_zh_cn.Headers.{Datum, header_items, get_message_headers}
use nameko_zh_cn.Amqp.{
  Entity, Rest, Call, Attributes, defaults, new_publisher, sending, update, pop, override,
}

-- The first of two that is there.
abbrev pub or_else {ℓ} : {A : Type ℓ} → Option A → Option A → Option A
or_else (some a) o = some a
or_else none o = o

pub get-update {ℓ} :
    {V : Type ℓ} (k : Str) (e d : Dict Str V)
    → Distinct e
    → get k (update d e) ≡ or_else (get k e) (get k d)
unfolding update build get
get-update k [] d h = refl
get-update k ((j, v) ∷ e) d h = get-update k e (put j v d) h.1 ∙ elim (Bool-cases (str_eq j k)) [
  | inl q ↦
      let gone = get-eq-none k e (ap (λ x. has_key x e) (sym ((str_eq_iff j k).0 q)) ∙ h.0) in
      simp (gone, get-put, q) refl
  | inr q ↦ simp (get-put, q) refl
]

Distinct-build : (items out : Dict Str Datum) → Distinct out → Distinct (build items out)
unfolding build
Distinct-build [] out h = h
Distinct-build ((k, v) ∷ items) out h = Distinct-build items _ (Distinct-put k v out h)

-- The headers of a worker come before those of the publisher.
pub worker_headers :
    (context_data headers : Dict Str Datum) (k : Str)
    → get k (update (update headers []) (get_message_headers context_data))
      ≡ or_else (get k (get_message_headers context_data)) (get k headers)
unfolding get_message_headers update build
worker_headers context_data headers k =
    get-update k _ headers (Distinct-build (header_items context_data) [] tt)

-- What a call, the constructor and the class say, in this order.
abbrev pub chosen : {A : Type 0} → Option (Option A) → Option A → Option A → Option A
chosen (some v) made attribute = v
chosen none (some v) attribute = some v
chosen none none attribute = attribute

pop-override :
    {A : Type 0} (call : Option (Option A)) (made attribute : Option A)
    → pop call (override made attribute) ≡ chosen call made attribute
unfolding pop override
pop-override none none attribute = refl
pop-override none (some v) attribute = refl
pop-override (some v) made attribute = refl

-- What a message is sent with: for a header, the extra headers of the call say it first, then the
-- headers of the call, then those of the publisher; for another keyword, the call says it before the
-- publisher; for an option, the call says it first, even with None, then the constructor unless with
-- None, then the class; and what the publisher declares comes before what the call adds. No dict has
-- a repeated key.
pub sending_precedence :
    (o : Attributes) (declare : List Entity) (headers : Dict Str Datum) (rest : Rest) (c : Call)
    → Distinct c.headers
    → Distinct c.extra_headers
    → Distinct c.rest
    → let s = sending c (new_publisher o (some declare) headers rest) in
      ((k : Str)
        → get k s.headers
          ≡ or_else (get k c.extra_headers) (or_else (get k c.headers) (get k headers)))
      × ((k : Str) → get k s.rest ≡ or_else (get k c.rest) (get k rest))
      × (s.options.use_confirms
          ≡ chosen c.options.use_confirms o.use_confirms defaults.use_confirms)
      × (s.options.delivery_mode
          ≡ chosen c.options.delivery_mode o.delivery_mode defaults.delivery_mode)
      × (s.options.mandatory ≡ chosen c.options.mandatory o.mandatory defaults.mandatory)
      × (s.options.priority ≡ chosen c.options.priority o.priority defaults.priority)
      × (s.options.expiration ≡ chosen c.options.expiration o.expiration defaults.expiration)
      × (s.options.serializer ≡ chosen c.options.serializer o.serializer defaults.serializer)
      × (s.options.compression ≡ chosen c.options.compression o.compression defaults.compression)
      × (s.options.retry ≡ chosen c.options.retry o.retry defaults.retry)
      × (s.options.retry_policy
          ≡ chosen c.options.retry_policy o.retry_policy defaults.retry_policy)
      × (s.declare ≡ declare ++ c.declare)
unfolding sending new_publisher
sending_precedence o declare headers rest c h x r = (
  λ k.
      get-update k c.extra_headers (update headers c.headers) x
      ∙ ap (or_else (get k c.extra_headers)) (get-update k c.headers headers h),
  λ k. get-update k c.rest rest r,
  pop-override c.options.use_confirms o.use_confirms defaults.use_confirms,
  pop-override c.options.delivery_mode o.delivery_mode defaults.delivery_mode,
  pop-override c.options.mandatory o.mandatory defaults.mandatory,
  pop-override c.options.priority o.priority defaults.priority,
  pop-override c.options.expiration o.expiration defaults.expiration,
  pop-override c.options.serializer o.serializer defaults.serializer,
  pop-override c.options.compression o.compression defaults.compression,
  pop-override c.options.retry o.retry defaults.retry,
  pop-override c.options.retry_policy o.retry_policy defaults.retry_policy,
  refl,
)
