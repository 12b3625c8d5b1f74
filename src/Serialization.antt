-- ===== src/Serialization.antt =====
-- nameko/serialization.py: setup, and nameko/utils/__init__.py: import_from_path and sanitize_url.
-- pydoc.locate, kombu's registry of names and the parts of a URL are those packages'.
pub mod Known
pub mod Sanitized
use nameko_zh_cn.Base.{
  ℕ, Str, codes, Bool, true, false, Option, none, some, List, [], ◌∷◌, ◌++◌, Dict, get, put,
  has_key, str_keys, ◌>>=◌, eqb, ◌||◌, if◌then◌else◌,
}

-- What setup raises.
pub data Error : Type 0 where
  import_error : (path : Str) → Error
  key_error : (missing : Str) → Error
  -- a call of kombu's register with keywords that it does not take, or without one that it needs
  type_error : Error
  configuration_error : (format : Str) → Error

pub data Result (A : Type 0) : Type 0 where
  ok : A → Result A
  raise : Error → Result A

-- The options of a serializer: a key that is missing is none; a path that is None is `some none`. The
-- others, such as content_type, are handed to kombu's register.
pub record Options : Type 0 where
  pub encoder : Option (Option Str)
  pub decoder : Option (Option Str)
  pub others : Dict Str Str

-- What is registered under a name; None is an encoder or decoder too.
pub record Registered : Type 0 where
  pub encoder : Option ℕ
  pub decoder : Option ℕ
  pub others : Dict Str Str

pub record Config : Type 0 where
  pub serializers : Dict Str Options
  pub serializer : Option Str
  pub accept : Option (List Str)

abbrev pub Registry : Type 0
Registry = Dict Str Registered

abbrev pub located : Str → Option ℕ → Result (Option ℕ)
located path none = raise (import_error path)
located path (some obj) = ok (some obj)

abbrev pub default_serializer : Str
default_serializer = codes "json"

abbrev pub get_or {ℓ} : {A : Type ℓ} → Option A → A → A
get_or none a = a
get_or (some b) a = b

-- `locate` finds an object, or None.
module _ (locate : Str → Option ℕ) where
  unfoldable pub import_from_path : Option Str → Result (Option ℕ)
  import_from_path none = ok none
  import_from_path (some path) = located path (locate path)

  -- import_from_path(kwargs.pop(key))
  unfoldable pub import_option : Str → Option (Option Str) → Result (Option ℕ)
  unfolding import_from_path
  import_option key none = raise (key_error key)
  import_option key (some path) = import_from_path path

  -- `takes` says whether kombu's register takes these keywords beside the name and the two functions.
  module _ (takes : Dict Str Str → Bool) where
    abbrev pub with_decoder : Options → Option ℕ → Result (Option ℕ) → Result Registered
    with_decoder o encoder (raise e) = raise e
    with_decoder o encoder (ok decoder) =
        if takes o.others
        then ok (record { encoder = encoder; decoder = decoder; others = o.others })
        else raise type_error

    abbrev pub with_encoder : Options → Result (Option ℕ) → Result (Option ℕ) → Result Registered
    with_encoder o (raise e) decoder = raise e
    with_encoder o (ok encoder) decoder = with_decoder o encoder decoder

    unfoldable pub import_serializer : Options → Result Registered
    unfolding import_option
    import_serializer o =
        with_encoder o (import_option (codes "encoder") o.encoder)
          (import_option (codes "decoder") o.decoder)

    abbrev pub registering :
        Str → Result Registered → Registry → (Registry → Result Registry) → Result Registry
    registering name (raise e) registry rest = raise e
    registering name (ok r) registry rest = rest (put name r registry)

    -- The loop that registers; kombu.serialization.register
    unfoldable pub register_all : Dict Str Options → Registry → Result Registry
    unfolding import_serializer
    register_all [] registry = ok registry
    register_all ((name, o) ∷ serializers) registry =
        registering name (import_serializer o) registry (register_all serializers)

    -- The loop that looks up the names.
    unfoldable pub check_names : Registry → List Str → Option Error
    unfolding has_key
    check_names registry [] = none
    check_names registry (name ∷ names) =
        let rest = check_names registry names in
        if has_key name registry then rest else some (configuration_error name)

    abbrev pub unless_error : Option Error → Str × List Str → Result (Str × List Str)
    unless_error none r = ok r
    unless_error (some e) r = raise e

    abbrev pub checked : Str → List Str → Result Registry → Result (Str × List Str)
    checked serializer accept (raise e) = raise e
    checked serializer accept (ok registry) =
        unless_error (check_names registry (serializer ∷ accept)) (serializer, accept)

    unfoldable pub setup : Config → Registry → Result (Str × List Str)
    unfolding register_all check_names
    setup config registry =
        let serializer = get_or config.serializer default_serializer in
        let accept = get_or config.accept (serializer ∷ []) in
        checked serializer accept (register_all config.serializers registry)

-- REDACTED
abbrev pub redacted_password : Str
redacted_password = codes "********"

-- netloc.rsplit("@", 1)[-1], after the text since the last one that is read so far
unfoldable pub after_last_at : Str → Str → Str
after_last_at seen [] = seen
after_last_at seen (c ∷ s) = after_last_at (if eqb c b'@' then [] else seen ++ c ∷ []) s

-- The username in a format: None is its text.
abbrev pub shown : Option Str → Str
shown none = codes "None"
shown (some s) = s

-- The parts of a URL besides its netloc are of a type of urllib's.
module _ {Rest : Type 0} (urlparse : Str → Str × Rest) (geturl : Str → Rest → Str)
    (username password : Str → Option Str) where
  unfoldable pub hidden : Option Str → Str → Str × Rest → Str
  unfolding after_last_at
  hidden none url parts = url
  hidden (some p) url (netloc, rest) =
      geturl
        (shown (username netloc) ++ b':' ∷ (redacted_password ++ b'@' ∷ after_last_at [] netloc))
        rest

  unfoldable pub sanitize_url : Str → Str
  unfolding hidden
  sanitize_url url = hidden (password (urlparse url).0) url (urlparse url)
