-- ===== src/Exceptions/Safe/Dicts.antt =====
-- Values with the dicts inside them: which are safe, and how the fields of a dict are stored.
use nameko_zh_cn.Base.{
  Str, ◌≡◌, refl, Bool, true, false, ◌&&◌, not, Option, none, some, arith, is_some, ◌==◌, str_keys,
  str_eq_iff, ap, ◌>>=◌,
}
use nameko_zh_cn.Values.{
  Value, str, atom, dict, list, iterable, Items, nil, cons, Fields, end, field, append_fields,
}
use nameko_zh_cn.Exceptions.Safe.{insert_field}

-- The keys that are still hashable when they have been made safe.
abbrev pub is_textual : Value → Bool
is_textual (str s) = true
is_textual (atom a) = true
is_textual _ = false

unfoldable mutual
  -- No dict inside the value has a key that is a tuple, a frozenset or another iterable.
  pub textual_keys : Value → Bool
  textual_keys (str s) = true
  textual_keys (atom a) = true
  textual_keys (dict fs) = textual_fields fs
  textual_keys (list xs) = textual_items xs
  textual_keys (iterable xs) = textual_items xs

  pub textual_items : Items → Bool
  textual_items nil = true
  textual_items (cons v vs) = textual_keys v && textual_items vs

  pub textual_fields : Fields → Bool
  textual_fields end = true
  textual_fields (field k v fs) = is_textual k && (textual_keys v && textual_fields fs)

unfoldable pub lacks_key : Str → Fields → Bool
lacks_key k end = true
lacks_key k (field (str j) v fs) = not (j == k) && lacks_key k fs
lacks_key k (field _ v fs) = lacks_key k fs

unfoldable mutual
  -- What is safe as it is: strings, lists, and dicts with distinct strings for keys.
  pub plain : Value → Bool
  plain (str s) = true
  plain (atom a) = false
  plain (dict fs) = plain_fields fs
  plain (list xs) = plain_items xs
  plain (iterable xs) = false

  pub plain_items : Items → Bool
  plain_items nil = true
  plain_items (cons v vs) = plain v && plain_items vs

  pub plain_fields : Fields → Bool
  plain_fields end = true
  plain_fields (field (str k) v fs) = plain v && (lacks_key k fs && plain_fields fs)
  plain_fields (field _ v fs) = false

pub lacks_key-insert_field :
    (j k : Str) (v : Value) (fs : Fields)
    → (k == j) ≡ false
    → lacks_key j (insert_field k v fs) ≡ lacks_key j fs
unfolding lacks_key insert_field
lacks_key-insert_field j k v end h = ground arith
lacks_key-insert_field j k v (field (str i) w fs) h =
    ground (arith, lacks_key-insert_field j k v fs h, str_eq_iff i k, str_eq_iff i j)
lacks_key-insert_field j k v (field (atom i) w fs) h = lacks_key-insert_field j k v fs h
lacks_key-insert_field j k v (field (dict i) w fs) h = lacks_key-insert_field j k v fs h
lacks_key-insert_field j k v (field (list i) w fs) h = lacks_key-insert_field j k v fs h
lacks_key-insert_field j k v (field (iterable i) w fs) h = lacks_key-insert_field j k v fs h

pub plain-insert_field :
    (k : Str) (v : Value) (fs : Fields)
    → plain v ≡ true
    → plain_fields fs ≡ true
    → plain_fields (insert_field k v fs) ≡ true
unfolding lacks_key plain insert_field
plain-insert_field k v end hv h = ground arith
plain-insert_field k v (field (str i) w fs) hv h = ground (
  arith,
  plain-insert_field k v fs hv,
  lacks_key-insert_field i k v fs,
  str_eq_iff i k,
  str_eq_iff k i,
)
plain-insert_field k v (field (atom i) w fs) hv h = cc
plain-insert_field k v (field (dict i) w fs) hv h = cc
plain-insert_field k v (field (list i) w fs) hv h = cc
plain-insert_field k v (field (iterable i) w fs) hv h = cc

pub lacks_key-append :
    (k : Str) (fs gs : Fields)
    → lacks_key k (append_fields fs gs) ≡ (lacks_key k fs && lacks_key k gs)
unfolding lacks_key
lacks_key-append k end gs = refl
lacks_key-append k (field (str j) v fs) gs = ground (arith, lacks_key-append k fs gs)
lacks_key-append k (field (atom j) v fs) gs = lacks_key-append k fs gs
lacks_key-append k (field (dict j) v fs) gs = lacks_key-append k fs gs
lacks_key-append k (field (list j) v fs) gs = lacks_key-append k fs gs
lacks_key-append k (field (iterable j) v fs) gs = lacks_key-append k fs gs

pub insert_field-append :
    (k : Str) (v : Value) (fs : Fields)
    → lacks_key k fs ≡ true
    → insert_field k v fs ≡ append_fields fs (field (str k) v end)
unfolding lacks_key insert_field
insert_field-append k v end h = refl
insert_field-append k v (field (str j) w fs) h = ground (arith, insert_field-append k v fs)
insert_field-append k v (field (atom j) w fs) h =
    ap (field (atom j) w) (insert_field-append k v fs h)
insert_field-append k v (field (dict j) w fs) h =
    ap (field (dict j) w) (insert_field-append k v fs h)
insert_field-append k v (field (list j) w fs) h =
    ap (field (list j) w) (insert_field-append k v fs h)
insert_field-append k v (field (iterable j) w fs) h =
    ap (field (iterable j) w) (insert_field-append k v fs h)

pub append_fields_assoc :
    (fs gs hs : Fields)
    → append_fields (append_fields fs gs) hs ≡ append_fields fs (append_fields gs hs)
append_fields_assoc end gs hs = refl
append_fields_assoc (field k v fs) gs hs = ap (field k v) (append_fields_assoc fs gs hs)

pub append_fields-end : (fs : Fields) → append_fields fs end ≡ fs
append_fields-end end = refl
append_fields-end (field k v fs) = ap (field k v) (append_fields-end fs)

-- No key of the second dict is a key of the first.
unfoldable pub apart : Fields → Fields → Bool
apart fs end = true
apart fs (field (str k) v gs) = lacks_key k fs && apart fs gs
apart fs (field _ v gs) = apart fs gs

pub apart-append :
    (k : Str) (v : Value) (fs gs : Fields)
    → apart fs gs ≡ true
    → lacks_key k gs ≡ true
    → apart (append_fields fs (field (str k) v end)) gs ≡ true
unfolding apart lacks_key
apart-append k v fs end h l = refl
apart-append k v fs (field (str j) w gs) h l = ground (
  arith,
  apart-append k v fs gs,
  lacks_key-append j fs (field (str k) v end),
  str_eq_iff j k,
  str_eq_iff k j,
)
apart-append k v fs (field (atom j) w gs) h l = apart-append k v fs gs h l
apart-append k v fs (field (dict j) w gs) h l = apart-append k v fs gs h l
apart-append k v fs (field (list j) w gs) h l = apart-append k v fs gs h l
apart-append k v fs (field (iterable j) w gs) h l = apart-append k v fs gs h l

pub apart-end : (gs : Fields) → apart end gs ≡ true
unfolding apart lacks_key
apart-end end = refl
apart-end (field (str k) v gs) = apart-end gs
apart-end (field (atom k) v gs) = apart-end gs
apart-end (field (dict k) v gs) = apart-end gs
apart-end (field (list k) v gs) = apart-end gs
apart-end (field (iterable k) v gs) = apart-end gs

-- One round of the comprehension, with the rest of the rounds as a function.
pub succeeds_step :
    (k : Str) (v : Option Value) (out : Fields) (rest : Fields → Option Fields) {b : Bool}
    → ((o : Fields) → is_some (rest o) ≡ b)
    → is_some (v >>= λ w. rest (insert_field k w out)) ≡ (is_some v && b)
succeeds_step k none out rest h = refl
succeeds_step k (some w) out rest h = h (insert_field k w out)

pub plain_step :
    (k : Str) (v : Option Value) (out : Fields) (rest : Fields → Option Fields) {res : Fields}
    → plain_fields out ≡ true
    → ((w : Value) → v ≡ some w → plain w ≡ true)
    → ((o : Fields) → plain_fields o ≡ true → rest o ≡ some res → plain_fields res ≡ true)
    → (v >>= λ w. rest (insert_field k w out)) ≡ some res
    → plain_fields res ≡ true
plain_step k none out rest p hv hr h = cc
plain_step k (some w) out rest p hv hr h =
    hr (insert_field k w out) (plain-insert_field k w out (hv w refl) p) h

pub plain_fields_parts :
    (k : Str) (v : Value) (fs : Fields)
    → plain_fields (field (str k) v fs) ≡ true
    → (plain v ≡ true) × ((lacks_key k fs ≡ true) × (plain_fields fs ≡ true))
unfolding plain
plain_fields_parts k v fs h = ground arith

pub apart_parts :
    (k : Str) (v : Value) (fs out : Fields)
    → apart out (field (str k) v fs) ≡ true
    → (lacks_key k out ≡ true) × (apart out fs ≡ true)
unfolding apart
apart_parts k v fs out h = ground arith
