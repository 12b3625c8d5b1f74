-- ===== src/Sockets/Answered.antt =====
-- A call through a virtual socket: which response it gets, among whatever else arrives.
use nameko_zh_cn.Base.{ℕ, Str, some, List, [], ◌∷◌, ◌++◌, get, str_keys, ◌≡◌, ◌≢◌, refl, ◌∙◌, All}
use nameko_zh_cn.Values.{str}
use nameko_zh_cn.Websocket.Requests.{Response}
use nameko_zh_cn.Sockets.{Message, result, Client, on_message, on_messages, rpc, result_id}
use nameko_zh_cn.Sockets.Received.{
  message_id, view, View-IsValid, View-waits, IsSettled, View-settles, View-IsSettled,
}
use nameko_zh_cn.Sockets.Valid.{IsValid, rpc-IsValid, get-put_self}

abbrev pub Others : Str → List Message → Type 0
Others id = All (λ m. message_id m ≢ some id)

on_messages-step :
    (m : Message) (messages : List Message) (c t : Client)
    → on_message m c ≡ some t
    → on_messages (m ∷ messages) c ≡ on_messages messages t
unfolding on_messages
on_messages-step m messages c t e = rw e refl

settled :
    (messages : List Message) (e : ℕ) (r : Response) (c : Client)
    → IsValid c
    → IsSettled e r c
    → (t : Client) × (on_messages messages c ≡ some t) × (t.sent e ≡ some r)
unfolding on_messages
settled [] e r c v s = (c, refl, s.sent)
settled (m ∷ messages) e r c v s =
    let (c', made, how) = view m c v in
    let (t, rest, sent) = settled messages e r c' (View-IsValid how v) (View-IsSettled e r how s) in
    (t, on_messages-step m messages c c' made ∙ rest, sent)

waits :
    (before after : List Message) (id : Str) (e : ℕ) (r : Response) (c : Client)
    → IsValid c
    → get id c.result_handlers ≡ some e
    → Others id before
    → result_id r ≡ some id
    → (t : Client) × (on_messages (before ++ result r ∷ after) c ≡ some t) × (t.sent e ≡ some r)
waits [] after id e r c v g n k =
    let (c', made, how) = view (result r) c v in
    let (t, rest, sent) = settled after e r c' (View-IsValid how v) (View-settles id e how v k g) in
    (t, on_messages-step (result r) after c c' made ∙ rest, sent)
waits (m ∷ before) after id e r c v g n k =
    let (c', made, how) = view m c v in
    let (t, rest, sent) =
      waits before after id e r c' (View-IsValid how v) (View-waits id e how n.0 g) n.1 k in
    (t, on_messages-step m (before ++ result r ∷ after) c c' made ∙ rest, sent)

handler-rpc : (id : Str) (c : Client) → get id (rpc id c).1.result_handlers ≡ some (rpc id c).0
unfolding rpc
handler-rpc id c = get-put_self id c.next_event c.result_handlers

-- A call through a virtual socket gets the first response under its id: whatever events and whatever
-- responses to other calls arrive before it, and whatever arrives afterwards, no message raises.
pub rpc_gets_its_response :
    (before after : List Message) (id : Str) (r : Response) (c : Client)
    → IsValid c
    → Others id before
    → r.correlation_id ≡ some (str id)
    → (t : Client) × (on_messages (before ++ result r ∷ after) (rpc id c).1 ≡ some t)
      × (t.sent (rpc id c).0 ≡ some r)
rpc_gets_its_response before after id r c v n k =
    waits before after id (rpc id c).0 r (rpc id c).1 (rpc-IsValid id c v) (handler-rpc id c) n
      (rw k refl)
