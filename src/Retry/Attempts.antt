-- ===== src/Retry/Attempts.antt =====
-- nameko/utils/retry.py: how often `retry` calls, and how long it sleeps.
use nameko_zh_cn.Base.{
  ℕ, zero, suc, ◌+◌, ◌*◌, ◌≤◌, ◌<◌, ◌≡◌, refl, ap, ◌∙◌, false, some, List, [], ◌∷◌, ◌++◌, map,
  length, get_elem?, eqb_iff, arith,
}
use native.Mathlib.Nat.{mul_assoc}
use nameko_zh_cn.Values.{Value}
use nameko_zh_cn.Exceptions.{Exc}
use nameko_zh_cn.Retry.{
  RetryDelay, backed_off, capped, next, Attempt, returns, fails, returned, raised, spent, attempts,
  retry,
}

unfoldable pub pow : ℕ → ℕ → ℕ
pow b zero = 1
pow b (suc n) = b * pow b n

-- The sleeps before the next `n` tries.
unfoldable pub delays : RetryDelay → ℕ → List ℕ
unfolding next
delays r zero = []
delays r (suc n) = (next r).0 ∷ delays (next r).1 n

unspent : (m count : ℕ) → count < m → spent (some m) count ≡ false
unfolding spent
unspent m count h = ground (arith, eqb_iff count m)

attempts_succeed :
    (m count : ℕ) (r : RetryDelay) (es : List Exc) (v : Value) (rest : List Attempt)
    → count + length es ≤ m
    → ((attempts (some m) count r (map fails es ++ returns v ∷ rest)).0 ≡ returned v)
      × ((attempts (some m) count r (map fails es ++ returns v ∷ rest)).1 ≡ delays r (length es))
unfolding attempts delays
attempts_succeed m count r [] v rest h = (refl, refl)
attempts_succeed m count r (e ∷ es) v rest h =
    let (end, sleeps) = attempts_succeed m (suc count) (next r).1 es v rest (omega arith) in
    rw (unspent m count (omega arith)) (end, ap (λ x. (next r).0 ∷ x) sleeps)

-- With at most `max_attempts` failures of the expected kind before a call that returns, `retry`
-- returns what that call does, after one sleep for each failure.
pub retry_succeeds :
    (m : ℕ) (r : RetryDelay) (es : List Exc) (v : Value) (rest : List Attempt)
    → length es ≤ m
    → ((retry (some m) r (map fails es ++ returns v ∷ rest)).0 ≡ returned v)
      × ((retry (some m) r (map fails es ++ returns v ∷ rest)).1 ≡ delays r (length es))
unfolding retry
retry_succeeds m r es v rest h = attempts_succeed m 0 r es v rest (omega arith)

attempts_give_up :
    (k m count : ℕ) (r : RetryDelay) (es : List Exc) (rest : List Attempt)
    → count + k ≡ m
    → k < length es
    → (e : Exc) × (get_elem? es k ≡ some e)
      × ((attempts (some m) count r (map fails es ++ rest)).0 ≡ raised e)
      × ((attempts (some m) count r (map fails es ++ rest)).1 ≡ delays r k)
unfolding attempts delays spent
attempts_give_up k m count r [] rest s h = absurd (omega arith)
attempts_give_up zero m count r (e ∷ es) rest s h =
    let now = (eqb_iff count m).1 (omega arith) in (e, refl, rw now refl, rw now refl)
attempts_give_up (suc k) m count r (x ∷ es) rest s h =
    let (e, at, end, sleeps) =
      attempts_give_up k m (suc count) (next r).1 es rest (omega arith) (omega arith) in
    let more = unspent m count (omega arith) in
    (e, at, rw more end, rw more (ap (λ d. (next r).0 ∷ d) sleeps))

-- With more than `max_attempts` failures of the expected kind, `retry` calls `max_attempts` + 1
-- times, whatever would come later, and raises the exception of the last of these calls.
pub retry_gives_up :
    (m : ℕ) (r : RetryDelay) (es : List Exc) (rest : List Attempt)
    → m < length es
    → (e : Exc) × (get_elem? es m ≡ some e)
      × ((retry (some m) r (map fails es ++ rest)).0 ≡ raised e)
      × ((retry (some m) r (map fails es ++ rest)).1 ≡ delays r m)
unfolding retry
retry_gives_up m r es rest h = attempts_give_up m m 0 r es rest (omega arith) h

once : (a b : ℕ) → a * b ≡ a * (b * 1)
once a b = ap (λ x. a * x) (omega arith)

-- With a backoff that is not 0, the sleep before try number i + 2 is the first delay, multiplied by
-- the backoff i + 1 times, and cut to the maximum if there is one.
pub get_elem?-delays :
    (r : RetryDelay) (b n i : ℕ)
    → r.backoff ≡ suc b
    → i < n
    → get_elem? (delays r n) i ≡ some (capped (r.delay * pow (suc b) (suc i)) r.max_delay)
unfolding delays next backed_off pow
get_elem?-delays r b zero i h l = absurd (omega arith)
get_elem?-delays r b (suc n) zero h l =
    ap (λ d. some (capped d r.max_delay)) (ap (backed_off r.delay) h ∙ once r.delay (suc b))
get_elem?-delays r b (suc n) (suc i) h l =
    get_elem?-delays (next r).1 b n i h (omega arith)
    ∙ ap (λ d. some (capped d r.max_delay))
        (ap (λ d. d * pow (suc b) (suc i)) (ap (backed_off r.delay) h)
          ∙ mul_assoc r.delay (suc b) (pow (suc b) (suc i)))
