-- ===== src/Exceptions/Wire/Trip.antt =====
-- nameko/exceptions.py: an exception that is serialized, sent and deserialized.
use nameko_zh_cn.Base.{
  ℕ, Str, ◌≡◌, refl, true, Option, none, some, ◌>>=◌, List, [], ◌∷◌, get, str_keys, arith, All, inl,
  inr, Option-cases,
}
use nameko_zh_cn.Values.{Value}
use nameko_zh_cn.Exceptions.Safe.{safe_for_serialization}
use nameko_zh_cn.Exceptions.Safe.Plain.{
  plain, safe_for_serialization_kept, textual_keys, safe_for_serialization_total,
}
use nameko_zh_cn.Exceptions.Wire.{
  ExcType, Exc, Registry, get_module_path, instance_of, remote_error, safe_args, text_of_exception,
  serialize, deserialize,
}

abbrev pub IsPlain : Value → Type 0
IsPlain v = plain v ≡ true

abbrev pub IsTextual : Value → Type 0
IsTextual v = textual_keys v ≡ true

module _ (text_type : ℕ → Option Str) where
  safe_args_plain : (vs : List Value) → All IsPlain vs → safe_args text_type vs ≡ some vs
  unfolding safe_args
  safe_args_plain [] h = refl
  safe_args_plain (v ∷ vs) h =
      rw (safe_for_serialization_kept text_type v h.0) (rw (safe_args_plain vs h.1))

  safe_args_textual :
      (vs : List Value) → All IsTextual vs → (ws : List Value) × (safe_args text_type vs ≡ some ws)
  unfolding safe_args
  safe_args_textual [] h = ([], refl)
  safe_args_textual (v ∷ vs) h = elim (Option-cases (safe_for_serialization text_type v)) [
    | inl e ↦ ground (arith, safe_for_serialization_total text_type v)
    | inr (w, e) ↦ let (ws, e') = safe_args_textual vs h.1 in (w ∷ ws, rw e (rw e'))
  ]

  module _ (exc_text : Exc → Option Str) (construct : ExcType → List Value → Option Exc)
      (registry : Registry) (e : Exc) where
    -- An exception whose class is registered under its path, whose arguments are safe as they are, and
    -- whose class keeps the arguments that it is called with, arrives as an equal exception.
    pub deserialize-serialize :
        get (get_module_path e.exc_type) registry ≡ some e.exc_type
        → construct e.exc_type e.args ≡ some e
        → All IsPlain e.args
        → (serialize text_type exc_text e >>= deserialize construct registry) ≡ some (instance_of e)
    unfolding serialize deserialize
    deserialize-serialize known keeps args = ground (arith, safe_args_plain e.args args)

    -- An exception whose class is not registered arrives as a RemoteError with the name of its class
    -- and its text, whatever its arguments, as long as they can be made safe.
    pub deserialize-serialize_unknown :
        get (get_module_path e.exc_type) registry ≡ none
        → All IsTextual e.args
        → (serialize text_type exc_text e >>= deserialize construct registry)
          ≡ some (remote_error (some e.exc_type.name) (some (text_of_exception exc_text e)))
    unfolding serialize deserialize
    deserialize-serialize_unknown unknown args =
        let (ws, made) = safe_args_textual e.args args in ground (arith, made)
