-- ===== src/Examples/Websockets.antt =====
-- The theorem of Websocket.Linked at two sockets and one channel.
use nameko_zh_cn.Base.{Str, codes, refl, List, [], ◌∷◌, contains, get, str_keys}
use nameko_zh_cn.Websocket.{new_hub, Server, Action, add_websocket, subscribing, unsubscribing, run}
use nameko_zh_cn.Websocket.Channels.{follows, listens}
use nameko_zh_cn.Websocket.Linked.{IsLinked, run-IsLinked}

abbrev pub ann : Str
ann = codes "ann"

abbrev bob : Str
bob = codes "bob"

abbrev news : Str
news = codes "news"

abbrev pub fresh : Server
fresh = record { sockets = []; hub = new_hub }

fresh-IsLinked : IsLinked fresh
unfolding follows listens get contains
fresh-IsLinked = record { agree = λ i c. refl; known = λ i h. h }

abbrev visits : List Action
visits =
    add_websocket ann []
    ∷ add_websocket bob []
    ∷ subscribing ann news
    ∷ subscribing bob news
    ∷ unsubscribing bob news
    ∷ []

run-IsLinked_example : IsLinked (run visits fresh)
run-IsLinked_example = run-IsLinked visits fresh fresh-IsLinked
