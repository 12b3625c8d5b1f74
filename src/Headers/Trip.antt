-- ===== src/Headers/Trip.antt =====
-- nameko/messaging.py: context data that is written to headers and read back.
use nameko_zh_cn.Base.{
  Str, ◌≡◌, refl, false, [], ◌∷◌, Dict, build-nil, has_key, Distinct, str_keys, str_eq, arith, ◌∙◌,
}
use nameko_zh_cn.Headers.{
  Datum, absent, call_ids, other, get_header_name, header_items, get_message_headers,
  strip_header_name, stripped_items, unpack_message_headers,
}

-- The context data without the values that are None.
unfoldable pub without_none : Dict Str Datum → Dict Str Datum
without_none [] = []
without_none ((k, absent) ∷ d) = without_none d
without_none ((k, call_ids s) ∷ d) = (k, call_ids s) ∷ without_none d
without_none ((k, other v) ∷ d) = (k, other v) ∷ without_none d

pub strip-get_header_name : (k : Str) → strip_header_name (get_header_name k) ≡ k
unfolding strip_header_name get_header_name
strip-get_header_name k = refl

get_header_name-eq : (j k : Str) → str_eq (get_header_name j) (get_header_name k) ≡ str_eq j k
unfolding get_header_name str_eq
get_header_name-eq j k = refl

has_key-header_items :
    (k : Str) (d : Dict Str Datum)
    → has_key (get_header_name k) (header_items d) ≡ has_key k (without_none d)
unfolding has_key header_items without_none
has_key-header_items k [] = refl
has_key-header_items k ((j, absent) ∷ d) = has_key-header_items k d
has_key-header_items k ((j, call_ids s) ∷ d) =
    ground (arith, has_key-header_items k d, get_header_name-eq j k)
has_key-header_items k ((j, other v) ∷ d) =
    ground (arith, has_key-header_items k d, get_header_name-eq j k)

has_key-without_none :
    (k : Str) (d : Dict Str Datum) → has_key k d ≡ false → has_key k (without_none d) ≡ false
unfolding has_key without_none
has_key-without_none k [] h = refl
has_key-without_none k ((j, absent) ∷ d) h = has_key-without_none k d (ground arith)
has_key-without_none k ((j, call_ids s) ∷ d) h = ground (arith, has_key-without_none k d)
has_key-without_none k ((j, other v) ∷ d) h = ground (arith, has_key-without_none k d)

Distinct-without_none : (d : Dict Str Datum) → Distinct d → Distinct (without_none d)
unfolding without_none
Distinct-without_none [] h = tt
Distinct-without_none ((j, absent) ∷ d) h = Distinct-without_none d h.1
Distinct-without_none ((j, call_ids s) ∷ d) h =
    (has_key-without_none j d h.0, Distinct-without_none d h.1)
Distinct-without_none ((j, other v) ∷ d) h =
    (has_key-without_none j d h.0, Distinct-without_none d h.1)

Distinct-header_items : (d : Dict Str Datum) → Distinct d → Distinct (header_items d)
unfolding header_items
Distinct-header_items [] h = tt
Distinct-header_items ((j, absent) ∷ d) h = Distinct-header_items d h.1
Distinct-header_items ((j, call_ids s) ∷ d) h =
    (has_key-header_items j d ∙ has_key-without_none j d h.0, Distinct-header_items d h.1)
Distinct-header_items ((j, other v) ∷ d) h =
    (has_key-header_items j d ∙ has_key-without_none j d h.0, Distinct-header_items d h.1)

stripped-header_items : (d : Dict Str Datum) → stripped_items (header_items d) ≡ without_none d
unfolding stripped_items header_items without_none
stripped-header_items [] = refl
stripped-header_items ((j, absent) ∷ d) = stripped-header_items d
stripped-header_items ((j, call_ids s) ∷ d) =
    rw (strip-get_header_name j) (rw (stripped-header_items d))
stripped-header_items ((j, other v) ∷ d) =
    rw (strip-get_header_name j) (rw (stripped-header_items d))

-- The receiver of a message unpacks the context data that the sender put into the headers, in its
-- order, without the entries whose value is None. The dict has no repeated key.
pub unpack-get_message_headers :
    (context_data : Dict Str Datum)
    → Distinct context_data
    → unpack_message_headers (get_message_headers context_data) ≡ without_none context_data
unfolding unpack_message_headers get_message_headers
unpack-get_message_headers d h =
    rw (build-nil (header_items d) (Distinct-header_items d h))
      (rw (stripped-header_items d) (build-nil (without_none d) (Distinct-without_none d h)))
