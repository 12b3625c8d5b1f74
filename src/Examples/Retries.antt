-- ===== src/Examples/Retries.antt =====
-- The theorems of Retry at a function that fails twice.
use nameko_zh_cn.Base.{codes, ◌≡◌, none, some, [], ◌∷◌, ◌++◌, map, get_elem?, arith}
use nameko_zh_cn.Values.{str}
use nameko_zh_cn.Exceptions.{Exc, malformed_request, unserializable_value}
use nameko_zh_cn.Retry.{RetryDelay, fails, returns, raised, retry}
use nameko_zh_cn.Retry.Attempts.{delays, retry_gives_up}

abbrev first : Exc
first = record { exc_type = malformed_request; args = []; about = none }

abbrev second : Exc
second = record { exc_type = unserializable_value; args = []; about = none }

abbrev doubling : RetryDelay
doubling = record { delay = 1; backoff = 2; max_delay = 3 }

retry_gives_up_example :
    let run =
      retry
        (some 1)
        doubling
        (map fails (first ∷ second ∷ []) ++ returns (str (codes "ok")) ∷ []) in
    (e : Exc) × (get_elem? (first ∷ second ∷ []) 1 ≡ some e)
    × (run.0 ≡ raised e)
    × (run.1 ≡ delays doubling 1)
retry_gives_up_example =
    retry_gives_up 1 doubling (first ∷ second ∷ []) (returns (str (codes "ok")) ∷ []) (omega arith)
