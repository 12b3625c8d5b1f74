-- ===== src/Rpc/Effects.antt =====
-- Methods that raise, and what they do to the broker and to the container, in order.
use nameko_zh_cn.Base.{ℕ, Str, codes, false, Option, none, some, List, [], ◌∷◌, ◌++◌, Dict}
use nameko_zh_cn.Values.{Value}
use nameko_zh_cn.Exceptions.{Exc, ErrorData}
use nameko_zh_cn.Headers.{Datum}

-- {"result": result, "error": error}; None is `none`.
pub record Payload : Type 0 where
  pub result : Option Value
  pub error : Option ErrorData

-- What a reply's body is decoded to: a Payload, or None.
abbrev pub ReplyBody : Type 0
ReplyBody = Option Payload

pub record Reply : Type 0 where
  pub payload : Payload
  pub serializer : Str
  pub routing_key : Str
  pub correlation_id : Option Str

-- The call that `spawn_worker` is given.
pub record Spawned : Type 0 where
  pub method_name : Str
  pub args : List Value
  pub kwargs : Dict Str Value
  pub context_data : Dict Str Datum

pub data Effect : Type 0 where
  published : Reply → Effect
  acked : ℕ → Effect
  requeued : ℕ → Effect
  spawned : Spawned → Effect

pub data Result (A : Type 0) : Type 0 where
  ok : A → Result A
  raise : Exc → Result A

abbrev pub M : Type 0 → Type 0
M A = List Effect → Result A × List Effect

abbrev pub pure : {A : Type 0} → A → M A
pure a log = (ok a, log)

abbrev pub throw : {A : Type 0} → Exc → M A
throw e log = (raise e, log)

abbrev pub emit : Effect → M (Unit {0})
emit f log = (ok tt, log ++ f ∷ [])

abbrev pub continue_with : {A B : Type 0} → Result A → (A → M B) → M B
continue_with (ok a) f log = f a log
continue_with (raise e) f log = (raise e, log)

infixl 5 ◌>>=◌ ◌>>◌
abbrev pub ◌>>=◌ : {A B : Type 0} → M A → (A → M B) → M B
◌>>=◌ m f log = let (r, log') = m log in continue_with r f log'

abbrev pub ◌>>◌ : {B : Type 0} → M (Unit {0}) → M B → M B
m >> k = m >>= λ _. k

abbrev pub caught : {A : Type 0} → Result A → (Exc → M A) → M A
caught (ok a) h log = (ok a, log)
caught (raise e) h log = h e log

-- `try: m` / `except Exception: h`
abbrev pub try_except : {A : Type 0} → M A → (Exc → M A) → M A
try_except m h log = let (r, log') = m log in caught r h log'

-- An entry that is missing, or a call that fails, raises.
abbrev pub or_raise : {A : Type 0} → Option A → Exc → M A
or_raise none e = throw e
or_raise (some a) e = pure a

-- A call that may raise.
abbrev pub or_throw : Option Exc → M (Unit {0})
or_throw none = pure tt
or_throw (some e) = throw e

abbrev pub builtin : Str → Exc
builtin name = record {
  exc_type = record { module_name = codes "builtins"; name = name; bad_request = false };
  args = [];
  about = none;
}

abbrev pub key_error : Exc
key_error = builtin (codes "KeyError")

abbrev pub type_error : Exc
type_error = builtin (codes "TypeError")
