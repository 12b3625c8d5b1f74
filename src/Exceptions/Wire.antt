-- ===== src/Exceptions/Wire.antt =====
-- nameko/exceptions.py: the registry of exception classes, `serialize` and `deserialize`. The text
-- of an exception and the call of a registered class are parameters: `none` is a `__str__` or an
-- `__init__` that raises.
pub mod Trip
use nameko_zh_cn.Base.{
  ℕ, Str, codes, Bool, true, false, Option, none, some, ◌>>=◌, List, [], ◌∷◌, ◌++◌, Dict, get, put,
  str_keys, is_some, if◌then◌else◌,
}
use nameko_zh_cn.Values.{Value, str}
use nameko_zh_cn.Exceptions.Safe.{unicode_failed, safe_for_serialization}

-- A class, by its module, its name and whether it derives from BadRequest.
pub record ExcType : Type 0 where
  pub module_name : Str
  pub name : Str
  pub bad_request : Bool

-- `about` is what an exception keeps beside its `args`: UnserializableValueError keeps its value.
pub record Exc : Type 0 where
  pub exc_type : ExcType
  pub args : List Value
  pub about : Option Value

abbrev pub exceptions_module : Str
exceptions_module = codes "nameko.exceptions"

abbrev pub malformed_request : ExcType
malformed_request = record {
  module_name = exceptions_module;
  name = codes "MalformedRequest";
  bad_request = true;
}

abbrev pub method_not_found : ExcType
method_not_found = record {
  module_name = exceptions_module;
  name = codes "MethodNotFound";
  bad_request = true;
}

abbrev pub incorrect_signature : ExcType
incorrect_signature = record {
  module_name = exceptions_module;
  name = codes "IncorrectSignature";
  bad_request = true;
}

abbrev pub unknown_service : ExcType
unknown_service = record {
  module_name = exceptions_module;
  name = codes "UnknownService";
  bad_request = false;
}

abbrev pub unserializable_value : ExcType
unserializable_value = record {
  module_name = exceptions_module;
  name = codes "UnserializableValueError";
  bad_request = false;
}

abbrev pub connection_not_found : ExcType
connection_not_found = record {
  module_name = exceptions_module;
  name = codes "ConnectionNotFound";
  bad_request = true;
}

abbrev pub container_being_killed : ExcType
container_being_killed = record {
  module_name = exceptions_module;
  name = codes "ContainerBeingKilled";
  bad_request = false;
}

-- "{}.{}".format(module.__name__, exc_type.__name__)
unfoldable pub get_module_path : ExcType → Str
get_module_path t = t.module_name ++ b'.' ∷ t.name

-- The dict that `serialize` returns; a key that is missing is `none`.
pub record ErrorData : Type 0 where
  pub exc_type : Option Str
  pub exc_path : Option Str
  pub exc_args : Option (List Value)
  pub value : Option Str

abbrev pub Registry : Type 0
Registry = Dict Str ExcType

unfoldable pub deserialize_to_instance : ExcType → Registry → Registry
unfolding get_module_path
deserialize_to_instance t registry = put (get_module_path t) t registry

-- The registry once the module has been imported.
unfoldable pub imported : Registry
unfolding deserialize_to_instance
imported =
    deserialize_to_instance incorrect_signature
      (deserialize_to_instance method_not_found (deserialize_to_instance malformed_request []))

-- What `deserialize` returns: an instance of a registered class, or a RemoteError.
pub data Deserialized : Type 0 where
  instance_of : Exc → Deserialized
  remote_error : (exc_type value : Option Str) → Deserialized

unfoldable pub safe_args : (ℕ → Option Str) → List Value → Option (List Value)
safe_args text_type [] = some []
safe_args text_type (v ∷ vs) = do
  w ← safe_for_serialization text_type v
  ws ← safe_args text_type vs
  some (w ∷ ws)

unfoldable pub text_of_exception : (Exc → Option Str) → Exc → Str
text_of_exception exc_text e = elim (exc_text e) [ some s ↦ s | none ↦ unicode_failed ]

module _ (text_type : ℕ → Option Str) (exc_text : Exc → Option Str) where
  unfoldable pub serialize : Exc → Option ErrorData
  serialize e = do
    args ← safe_args text_type e.args
    some (record {
      exc_type = some e.exc_type.name;
      exc_path = some (get_module_path e.exc_type);
      exc_args = some args;
      value = some (text_of_exception exc_text e);
    })

-- data.get("exc_args", ())
args_or_empty : Option (List Value) → List Value
args_or_empty none = []
args_or_empty (some args) = args

-- The class that the path names, if it is registered. None is no key.
class_at : Registry → Option Str → Option ExcType
class_at registry none = none
class_at registry (some path) = get path registry

module _ (construct : ExcType → List Value → Option Exc) where
  -- `none` is the exception of the class's `__init__`.
  unfoldable pub deserialize : Registry → ErrorData → Option Deserialized
  unfolding args_or_empty class_at
  deserialize registry d = elim (class_at registry d.exc_path) [
    | none ↦ some (remote_error d.exc_type d.value)
    | some t ↦ (do e ← construct t (args_or_empty d.exc_args); some (instance_of e))
  ]
