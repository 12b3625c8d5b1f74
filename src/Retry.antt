-- ===== src/Retry.antt =====
-- nameko/utils/retry.py: `retry` and RetryDelay. The delays are whole numbers, and how each call of
-- the wrapped function ends is given, in order.
pub mod Attempts
use nameko_zh_cn.Base.{
  ℕ, zero, suc, ◌+◌, ◌*◌, min, Bool, true, false, Option, none, some, List, [], ◌∷◌, eqb,
  if◌then◌else◌,
}
use nameko_zh_cn.Values.{Value}
use nameko_zh_cn.Exceptions.{Exc}

-- A backoff or a max_delay that is None or 0 is not applied.
pub record RetryDelay : Type 0 where
  pub delay : ℕ
  pub backoff : ℕ
  pub max_delay : ℕ

-- if self.backoff: self.delay *= self.backoff
unfoldable pub backed_off : ℕ → ℕ → ℕ
backed_off delay zero = delay
backed_off delay (suc b) = delay * suc b

-- min(self.delay, self.max_delay), if there is a maximum
unfoldable pub capped : ℕ → ℕ → ℕ
capped delay zero = delay
capped delay (suc m) = min delay (suc m)

unfoldable pub next : RetryDelay → ℕ × RetryDelay
unfolding backed_off capped
next r =
    let delay' = backed_off r.delay r.backoff in
    (capped delay' r.max_delay, record r { delay = delay' })

-- How a call ends: it returns, or raises one of `for_exceptions`, or raises another exception.
pub data Attempt : Type 0 where
  returns : Value → Attempt
  fails : Exc → Attempt
  breaks : Exc → Attempt

pub data Ending : Type 0 where
  returned : Value → Ending
  raised : Exc → Ending
  still_trying : Ending

-- next(counter) == max_attempts; `none` is infinity
unfoldable pub spent : Option ℕ → ℕ → Bool
spent none count = false
spent (some m) count = eqb count m

-- The loop: its ending, how long it slept before each new try, and the delay object that the next
-- call of the decorated function finds.
unfoldable pub attempts : Option ℕ → ℕ → RetryDelay → List Attempt → Ending × List ℕ × RetryDelay
unfolding next spent
attempts max count r [] = (still_trying, [], r)
attempts max count r (returns v ∷ as_) = (returned v, [], r)
attempts max count r (breaks e ∷ as_) = (raised e, [], r)
attempts max count r (fails e ∷ as_) =
    let (slept, r') = next r in
    let (ending, sleeps, r'') = attempts max (suc count) r' as_ in
    if spent max count then (raised e, [], r) else (ending, slept ∷ sleeps, r'')

unfoldable pub retry : Option ℕ → RetryDelay → List Attempt → Ending × List ℕ × RetryDelay
unfolding attempts
retry max r as_ = attempts max 0 r as_
