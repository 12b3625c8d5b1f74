-- ===== src/Testing.antt =====
-- nameko/testing/waiting.py: WaitResult and wait_for_call. The calls that are made of the patched
-- method while it is patched are a list; that the context ends is that the semaphore is not 0.
use nameko_zh_cn.Base.{
  ℕ, suc, ◌+◌, ◌≡◌, refl, sym, ap, ◌∙◌, Bool, true, Option, none, some, List, [], ◌∷◌, map, is_some,
  ◌||◌, if◌then◌else◌, Bool-cases, inl, inr, arith,
}
use nameko_zh_cn.Values.{Value}
use nameko_zh_cn.Exceptions.{Exc}
use nameko_zh_cn.Rpc.Effects.{Result, ok, raise}

-- `res` is none while it is the sentinel; `some none` is None.
pub record WaitResult : Type 0 where
  pub res : Option (Option Value)
  pub exc_info : Option Exc

unfoldable pub has_result : WaitResult → Bool
has_result r = is_some r.res || is_some r.exc_info

res_of : Result Value → Option Value
res_of (ok v) = some v
res_of (raise e) = none

exc_info_of : Result Value → Option Exc
exc_info_of (ok v) = none
exc_info_of (raise e) = some e

-- WaitResult.send
unfoldable pub send : Result Value → WaitResult → WaitResult
unfolding has_result res_of exc_info_of
send ending r =
    if has_result r then r else record { res = some (res_of ending); exc_info = exc_info_of ending }

-- What WaitResult.get does.
pub data Got : Type 0 where
  not_ready : Got
  got : Option Value → Got
  reraised : Exc → Got

got_res : Option (Option Value) → Got
got_res none = not_ready
got_res (some v) = got v

unfoldable pub get_result : WaitResult → Got
unfolding got_res
get_result r = elim r.exc_info [ some e ↦ reraised e | none ↦ got_res r.res ]

-- A call of the patched method, and how the unpatched one ends.
pub record Made : Type 0 where
  pub ident : ℕ
  pub ending : Result Value

pub record Waiting : Type 0 where
  pub sem : ℕ
  pub result : WaitResult

abbrev pub new_waiting : Waiting
new_waiting = record { sem = 0; result = record { res = none; exc_info = none } }

abbrev pub should_release : Option (Made → Bool) → Made → Bool
should_release none m = true
should_release (some callback) m = callback m

maybe_release : Option (Made → Bool) → Made → Waiting → Waiting
unfolding send
maybe_release callback m w =
    if should_release callback m
    then record { sem = suc w.sem; result = send m.ending w.result }
    else w

-- `wraps`: how the patched call ends, and what it leaves
unfoldable pub wraps : Option (Made → Bool) → Made → Waiting → Result Value × Waiting
unfolding maybe_release
wraps callback m w = (m.ending, maybe_release callback m w)

unfoldable pub wait_for_call :
    Option (Made → Bool) → List Made → Waiting → List (Result Value) × Waiting
unfolding wraps
wait_for_call callback [] w = ([], w)
wait_for_call callback (m ∷ calls) w =
    let (ending, w') = wraps callback m w in
    let (endings, w'') = wait_for_call callback calls w' in (ending ∷ endings, w'')

-- The calls that the callback accepts.
abbrev pub accepted : Option (Made → Bool) → List Made → List Made
accepted callback [] = []
accepted callback (m ∷ calls) =
    let rest = accepted callback calls in if should_release callback m then m ∷ rest else rest

abbrev pub got_of : Result Value → Got
got_of (ok v) = got (some v)
got_of (raise e) = reraised e

-- What the result gives that was there, else what the first of some calls ends with.
abbrev pub first_of : WaitResult → List Made → Got
first_of r [] = get_result r
first_of r (m ∷ calls) = if has_result r then get_result r else got_of m.ending

abbrev pub count : List Made → ℕ
count [] = 0
count (m ∷ calls) = suc (count calls)

sent_first :
    (ending : Result Value) (res : Option (Option Value)) (exc_info : Option Exc)
    (calls : List Made) (m : Made)
    → m.ending ≡ ending
    → let r : WaitResult = record { res = res; exc_info = exc_info } in
      first_of (send ending r) calls ≡ first_of r (m ∷ calls)
unfolding send has_result get_result res_of exc_info_of got_res
sent_first (ok v) none none [] m e = ap got_of (sym e)
sent_first (ok v) none none (c ∷ calls) m e = ap got_of (sym e)
sent_first (raise x) none none [] m e = ap got_of (sym e)
sent_first (raise x) none none (c ∷ calls) m e = ap got_of (sym e)
sent_first ending none (some y) [] m e = refl
sent_first ending none (some y) (c ∷ calls) m e = refl
sent_first ending (some v) exc_info [] m e = refl
sent_first ending (some v) exc_info (c ∷ calls) m e = refl

-- Every patched call ends as the unpatched one would; the semaphore is raised by each call that the
-- callback accepts; and the result is how the first of these ended, unless there was one before,
-- and there is none where no call is accepted.
pub waits_for_first :
    (callback : Option (Made → Bool)) (calls : List Made) (w : Waiting)
    → let out = wait_for_call callback calls w in
      (out.0 ≡ map (λ m. m.ending) calls)
      × (out.1.sem ≡ w.sem + count (accepted callback calls))
      × (get_result out.1.result ≡ first_of w.result (accepted callback calls))
unfolding wait_for_call wraps maybe_release
waits_for_first callback [] w = (refl, omega arith, refl)
waits_for_first callback (m ∷ calls) w = elim (Bool-cases (should_release callback m)) [
  | inl accepts ↦
      let w' : Waiting = record { sem = suc w.sem; result = send m.ending w.result } in
      let (endings, sem, result) = waits_for_first callback calls w' in
      rw (accepts, maybe_release)
        (
          ap (λ l. m.ending ∷ l) endings,
          omega (arith, sem),
          result
              ∙ sent_first m.ending w.result.res w.result.exc_info (accepted callback calls) m refl,
        )
  | inr skips ↦
      let (endings, sem, result) = waits_for_first callback calls w in
      rw (skips, maybe_release) (ap (λ l. m.ending ∷ l) endings, sem, result)
]
