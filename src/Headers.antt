-- ===== src/Headers.antt =====
-- nameko/messaging.py: HeaderEncoder and HeaderDecoder, which carry a worker's context data in the
-- headers of a message. A datum is a list of call ids, None, or any other value.
pub mod Trip
use nameko_zh_cn.Base.{
  Str, codes, Bool, true, false, List, [], ◌∷◌, ◌++◌, Dict, build, length, drop, starts_with,
  str_keys, if◌then◌else◌,
}
use nameko_zh_cn.Values.{Value}

pub data Datum : Type 0 where
  absent : Datum
  call_ids : List Str → Datum
  other : Value → Datum

abbrev pub header_prefix : Str
header_prefix = codes "nameko"

-- "{}.".format(self.header_prefix)
abbrev pub full_prefix : Str
full_prefix = header_prefix ++ b'.' ∷ []

unfoldable pub get_header_name : Str → Str
get_header_name key = full_prefix ++ key

-- The items of the comprehension, whose condition is `value is not None`.
unfoldable pub header_items : Dict Str Datum → List (Str × Datum)
unfolding get_header_name
header_items [] = []
header_items ((k, absent) ∷ data_) = header_items data_
header_items ((k, call_ids s) ∷ data_) = (get_header_name k, call_ids s) ∷ header_items data_
header_items ((k, other v) ∷ data_) = (get_header_name k, other v) ∷ header_items data_

unfoldable pub get_message_headers : Dict Str Datum → Dict Str Datum
unfolding header_items build
get_message_headers context_data = build (header_items context_data) []

unfoldable pub strip_header_name : Str → Str
unfolding starts_with
strip_header_name key = if starts_with key full_prefix then drop (length full_prefix) key else key

unfoldable pub stripped_items : Dict Str Datum → List (Str × Datum)
unfolding strip_header_name
stripped_items [] = []
stripped_items ((k, v) ∷ headers) = (strip_header_name k, v) ∷ stripped_items headers

unfoldable pub unpack_message_headers : Dict Str Datum → Dict Str Datum
unfolding stripped_items build
unpack_message_headers headers = build (stripped_items headers) []
