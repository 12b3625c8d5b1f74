-- ===== src/Examples/Contexts.antt =====
-- Runs of the models of WorkerContext and of the headers of a message.
use nameko_zh_cn.Base.{Str, codes, ◌≡◌, refl, none, [], ◌∷◌, Dict, str_eq, str_keys, put}
use nameko_zh_cn.Values.{str}
use nameko_zh_cn.Headers.{Datum, absent, other, get_message_headers, unpack_message_headers}
use nameko_zh_cn.Worker.{WorkerContext, call_id_stack}

-- {"language": "zh", "auth_token": None}
abbrev context : Dict Str Datum
context = (codes "language", other (str (codes "zh"))) ∷ (codes "auth_token", absent) ∷ []

headers_without_none :
    unpack_message_headers (get_message_headers context)
    ≡ (codes "language", other (str (codes "zh"))) ∷ []
unfolding unpack_message_headers get_message_headers str_eq put
headers_without_none = refl

-- A worker that tracks one parent call, and was called through two services.
abbrev worker : WorkerContext
worker = record {
  service_name = codes "b";
  method_name = codes "m";
  parent_calls_tracked = 1;
  cached_id = none;
  cached_stack = none;
  parent_call_id_stack = codes "x.m.0" ∷ codes "a.m.1" ∷ [];
  data_ = context;
}

worker_stack : (call_id_stack (codes "2") worker).0 ≡ codes "a.m.1" ∷ codes "b.m.2" ∷ []
unfolding call_id_stack
worker_stack = refl
