-- ===== src/Publish.antt =====
-- nameko/messaging.py: Publisher, the dependency provider that publishes with the Publisher of
-- nameko/amqp/publish.py.
use nameko_zh_cn.Base.{
  ℕ, Str, codes, Bool, Option, none, some, List, [], ◌∷◌, ◌++◌, Dict, str_keys, put,
}
use nameko_zh_cn.Headers.{Datum, get_message_headers}
use nameko_zh_cn.Amqp.{
  Exchange, Entity, exchange_entity, queue_entity, Argument, absent, entity, Keywords, Rest, pop,
  Publisher, new_publisher, Call,
}

-- The options that a class may still have as attributes; none where it has no such attribute.
pub record CompatAttrs : Type 0 where
  pub retry : Option (Option Bool)
  pub retry_policy : Option (Option ℕ)
  pub use_confirms : Option (Option Bool)

-- `options` and `headers` and `rest` are the keywords that the constructor is given.
pub record Provider : Type 0 where
  pub exchange : Option Exchange
  pub declare : List Entity
  pub options : Keywords
  pub headers : Dict Str Datum
  pub rest : Rest

-- self.options[attr] = getattr(self, attr), if there is one
unfoldable pub compat {ℓ} : {A : Type ℓ} → Option A → Option A → Option A
compat none option = option
compat (some v) option = some v

appended : Option Exchange → List Entity
appended none = []
appended (some e) = exchange_entity e ∷ []

-- A deprecated queue, by its name and exchange.
abbrev pub DeprecatedQueue : Type 0
DeprecatedQueue = Str × Exchange

exchange_of : Option Exchange → Option DeprecatedQueue → Option Exchange
exchange_of (some e) queue = some e
exchange_of none none = none
exchange_of none (some (name, e)) = some e

queues : Option DeprecatedQueue → List Entity
queues none = []
queues (some (name, e)) = queue_entity name e ∷ []

-- Publisher.__init__
unfoldable pub new_provider :
    CompatAttrs
    → Option Exchange
    → Option DeprecatedQueue
    → Option (List Entity)
    → Keywords
    → Dict Str Datum
    → Rest
    → Provider
unfolding compat appended exchange_of queues
new_provider attrs exchange queue declare options headers rest = record {
  exchange = exchange_of exchange queue;
  declare = elim declare [ none ↦ [] | some d ↦ d ] ++ (appended exchange ++ queues queue);
  options = record options {
    retry = compat attrs.retry options.retry;
    retry_policy = compat attrs.retry_policy options.retry_policy;
    use_confirms = compat attrs.use_confirms options.use_confirms;
  };
  headers = headers;
  rest = rest;
}

-- A keyword with the default None.
unfoldable pub given {ℓ} : {A : Type ℓ} → Option (Option A) → Option A
unfolding pop
given keyword = pop keyword none

exchange_argument : Option Exchange → Argument
exchange_argument none = absent
exchange_argument (some e) = entity (exchange_entity e)

-- Publisher.setup: the entities that it declares, in order, and `self.publisher`.
unfoldable pub setup : Option Str → Provider → List Entity × Publisher
unfolding given pop exchange_argument
setup container_serializer p = (
  p.declare,
  new_publisher
      (record {
        use_confirms = given p.options.use_confirms;
        delivery_mode = given p.options.delivery_mode;
        mandatory = given p.options.mandatory;
        priority = given p.options.priority;
        expiration = given p.options.expiration;
        serializer = pop p.options.serializer container_serializer;
        compression = given p.options.compression;
        retry = given p.options.retry;
        retry_policy = given p.options.retry_policy;
      })
      (some p.declare) p.headers (put (codes "exchange") (exchange_argument p.exchange) p.rest),
)

-- The call of `publish` that the dependency makes: the context of the worker goes in the headers.
unfoldable pub worker_call : Dict Str Datum → Call → Call
worker_call context_data c = record c { extra_headers = get_message_headers context_data }
