-- ===== src/Amqp.antt =====
-- nameko/amqp/publish.py: Publisher. A retry policy is a number; how kombu's `producer.publish`
-- ends is a parameter.
pub mod Headers
use nameko_zh_cn.Base.{
  ℕ, Str, codes, Bool, true, false, not, ◌&&◌, Option, none, some, List, [], ◌∷◌, ◌++◌, Dict, get,
  put, build, str_keys, if◌then◌else◌,
}
use nameko_zh_cn.Exceptions.{Exc}
use nameko_zh_cn.Headers.{Datum}
use nameko_zh_cn.Redact.{substring}

-- A durable topic exchange of persistent messages.
pub record Exchange : Type 0 where
  pub name : Str
  pub auto_delete : Bool
  pub no_declare : Bool

-- What can be declared at the broker; a queue by its name, with its exchange.
pub data Entity : Type 0 where
  exchange_entity : Exchange → Entity
  queue_entity : (name : Str) → Exchange → Entity

-- The value of a keyword that kombu reads.
pub data Argument : Type 0 where
  absent : Argument
  entity : Entity → Argument
  text : Str → Argument
  number : ℕ → Argument

-- The options that a class attribute, the constructor and a call can set, in the wrapping `F`.
pub record Options (F : Type 0 → Type 0) : Type 0 where
  pub use_confirms : F Bool
  pub delivery_mode : F ℕ
  pub mandatory : F Bool
  pub priority : F ℕ
  pub expiration : F ℕ
  pub serializer : F Str
  pub compression : F Str
  pub retry : F Bool
  pub retry_policy : F ℕ

-- A value, or None.
abbrev pub Attributes : Type 0
Attributes = Options Option

-- A keyword that is not given is `none`; one that is given may be None.
abbrev pub Keywords : Type 0
Keywords = Options (λ A. Option (Option A))

abbrev pub persistent : ℕ
persistent = 2

-- The class attributes of Publisher; the default retry policy is number 0.
abbrev pub defaults : Attributes
defaults = record {
  use_confirms = some true;
  delivery_mode = some persistent;
  mandatory = some false;
  priority = some 0;
  expiration = none;
  serializer = some (codes "json");
  compression = none;
  retry = some true;
  retry_policy = some 0;
}

-- if x is not None: self.x = x
unfoldable pub override {ℓ} : {A : Type ℓ} → Option A → Option A → Option A
override none attribute = attribute
override (some v) attribute = some v

-- kwargs.pop("x", self.x)
unfoldable pub pop {ℓ} : {A : Type ℓ} → Option (Option A) → Option A → Option A
pop none attribute = attribute
pop (some v) attribute = v

-- The other keywords of a publication, such as the exchange and the routing key.
abbrev pub Rest : Type 0
Rest = Dict Str Argument

pub record Publisher : Type 0 where
  pub options : Attributes
  pub declare : List Entity
  -- `publish_kwargs`: its headers, and the rest
  pub headers : Dict Str Datum
  pub publish_kwargs : Rest

-- Publisher.__init__; a `declare` that is None leaves the class's empty list.
unfoldable pub new_publisher : Attributes → Option (List Entity) → Dict Str Datum → Rest → Publisher
unfolding override
new_publisher o declare headers rest = record {
  options = record {
    use_confirms = override o.use_confirms defaults.use_confirms;
    delivery_mode = override o.delivery_mode defaults.delivery_mode;
    mandatory = override o.mandatory defaults.mandatory;
    priority = override o.priority defaults.priority;
    expiration = override o.expiration defaults.expiration;
    serializer = override o.serializer defaults.serializer;
    compression = override o.compression defaults.compression;
    retry = override o.retry defaults.retry;
    retry_policy = override o.retry_policy defaults.retry_policy;
  };
  declare = elim declare [ none ↦ [] | some d ↦ d ];
  headers = headers;
  publish_kwargs = rest;
}

-- The keywords of a call of `publish`.
pub record Call : Type 0 where
  pub options : Keywords
  pub declare : List Entity
  pub headers : Dict Str Datum
  pub extra_headers : Dict Str Datum
  pub rest : Rest

abbrev pub no_keywords : Keywords
no_keywords = record {
  use_confirms = none;
  delivery_mode = none;
  mandatory = none;
  priority = none;
  expiration = none;
  serializer = none;
  compression = none;
  retry = none;
  retry_policy = none;
}

-- What kombu's producer is given, and the `confirm_publish` of its connection.
pub record Sending : Type 0 where
  pub options : Attributes
  pub declare : List Entity
  pub headers : Dict Str Datum
  pub rest : Rest

-- d.update(e)
unfoldable pub update {ℓ} : {V : Type ℓ} → Dict Str V → Dict Str V → Dict Str V
unfolding build
update d e = build e d

unfoldable pub sending : Call → Publisher → Sending
unfolding pop update
sending c p = record {
  options = record {
    use_confirms = pop c.options.use_confirms p.options.use_confirms;
    delivery_mode = pop c.options.delivery_mode p.options.delivery_mode;
    mandatory = pop c.options.mandatory p.options.mandatory;
    priority = pop c.options.priority p.options.priority;
    expiration = pop c.options.expiration p.options.expiration;
    serializer = pop c.options.serializer p.options.serializer;
    compression = pop c.options.compression p.options.compression;
    retry = pop c.options.retry p.options.retry;
    retry_policy = pop c.options.retry_policy p.options.retry_policy;
  };
  declare = p.declare ++ c.declare;
  headers = update (update p.headers c.headers) c.extra_headers;
  rest = update p.publish_kwargs c.rest;
}

-- How `producer.publish` ends; a ChannelError by its text.
pub data Produced : Type 0 where
  produced : Produced
  channel_error : Str → Produced
  failed : Exc → Produced

pub data Published : Type 0 where
  -- whether there is a warning about a mandatory message without confirms
  published : (warned : Bool) → Published
  undeliverable : Published
  reraised : Produced → Published

unfoldable pub truthy : Option Bool → Bool
truthy none = false
truthy (some b) = b

unfoldable pub ended : Sending → Produced → Published
unfolding truthy
ended s produced = published (truthy s.options.mandatory && not (truthy s.options.use_confirms))
ended s (channel_error message) =
    if substring (codes "NO_ROUTE") message then undeliverable else reraised (channel_error message)
ended s (failed e) = reraised (failed e)

unfoldable pub publish : (Sending → Produced) → Call → Publisher → Sending × Published
unfolding sending ended
publish producer c p = let s = sending c p in (s, ended s (producer s))
