-- ===== src/Examples/Calls.antt =====
-- The theorems of Rpc/Call at a third call of a listener on which two calls wait.
use nameko_zh_cn.Base.{ℕ, codes, ◌≡◌, refl, some, [], str_keys}
use nameko_zh_cn.Rpc.Client.{Listener}
use nameko_zh_cn.Rpc.Client.Listeners.{IsValid}
use nameko_zh_cn.Rpc.Client.Replies.{deliver, first_reply}
use nameko_zh_cn.Rpc.Call.{Request, Publishing, confirmed, reply, call}
use nameko_zh_cn.Rpc.Call.Answered.{call_is_answered}
use nameko_zh_cn.Examples.Rpc.{events, waiting, waiting-IsValid, arrivals}

abbrev taken : Request → Publishing
taken r = confirmed

call_is_answered_example :
    let o =
      call events taken (codes "math") (codes "spam") (codes "q") (codes "c3") [] [] [] waiting in
    (event : ℕ) × (o.0 ≡ reply event)
    × IsValid events o.1
    × (l' : Listener events) × (deliver events arrivals o.1 ≡ some l')
    × (events.outcome (l'.events event) ≡ first_reply events (codes "c3") arrivals)
call_is_answered_example =
    call_is_answered events taken (codes "math") (codes "spam") (codes "q") (codes "c3") [] [] []
      waiting arrivals waiting-IsValid refl
