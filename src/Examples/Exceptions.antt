-- ===== src/Examples/Exceptions.antt =====
-- Runs of the model of nameko/exceptions.py.
use nameko_zh_cn.Base.{
  ℕ, Str, codes, ◌≡◌, refl, true, Option, none, some, List, [], ◌∷◌, get, str_eq, str_keys, put,
}
use nameko_zh_cn.Values.{Value, str, atom, dict, list, iterable, nil, cons, end, field}
use nameko_zh_cn.Exceptions.{
  Exc, ExcType, method_not_found, imported, get_module_path, safe_for_serialization, store_field,
  insert_field, text_of,
}
use nameko_zh_cn.Exceptions.Safe.Plain.{plain}

abbrev pub text_type : ℕ → Option Str
text_type a = some (codes "7")

abbrev pub exc_text : Exc → Option Str
exc_text e = some (codes "boom")

abbrev pub construct : ExcType → List Value → Option Exc
construct t args = some (record { exc_type = t; args = args; about = none })

-- {(1, 2): "x"}
abbrev tuple_key : Value
tuple_key = dict (field (iterable (cons (atom 1) (cons (atom 2) nil))) (str (codes "x")) end)

-- {1: ["x"]}
abbrev number_key : Value
number_key = dict (field (atom 1) (list (cons (str (codes "x")) nil)) end)

abbrev safe_number_key : Value
safe_number_key = dict (field (str (codes "7")) (list (cons (str (codes "x")) nil)) end)

tuple_key_fails : safe_for_serialization text_type tuple_key ≡ none
unfolding safe_for_serialization store_field insert_field text_of
tuple_key_fails = refl

safe-number_key : safe_for_serialization text_type number_key ≡ some safe_number_key
unfolding safe_for_serialization store_field insert_field text_of
safe-number_key = refl

abbrev pub no_such_method : Exc
no_such_method = record {
  exc_type = method_not_found;
  args = str (codes "spam") ∷ [];
  about = none;
}

pub method_not_found-registered :
    get (get_module_path method_not_found) imported ≡ some method_not_found
unfolding get put imported str_eq
method_not_found-registered = refl

pub spam_plain : plain (str (codes "spam")) ≡ true
unfolding plain
spam_plain = refl
