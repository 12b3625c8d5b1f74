-- ===== src/Examples/Routes.antt =====
-- The theorem of Rpc.Routes at a broker that knows a star at the end of a topic.
use nameko_zh_cn.Base.{
  Str, codes, ◌≡◌, refl, sym, ap, ◌∙◌, Bool, true, false, not, ◌&&◌, ◌||◌, Option, none, some, [],
  ◌∷◌, ◌++◌, get, str_keys, str_eq, contains, nat_eq, starts_with, starts_with-append, drop,
  drop-append, length, if◌then◌else◌,
}
use mathlib.Core.List.{append_assoc}
use nameko_zh_cn.Amqp.{text, sending}
use nameko_zh_cn.Rpc.Effects.{ok}
use nameko_zh_cn.Rpc.Server.{get_provider_for_method}
use nameko_zh_cn.Rpc.Consumer.{RpcQueue, new_consumer, get_rpc_exchange, setup}
use nameko_zh_cn.Rpc.Proxy.{new_method_proxy, method_call}
use nameko_zh_cn.Rpc.Routes.{RoutedTo, reply_queue, request_is_routed}
use nameko_zh_cn.Examples.Messages.{rpc_exchange, no_attrs, options, language}
use nameko_zh_cn.Examples.Providers.{events}
use nameko_zh_cn.Examples.Rpc.{env}

-- What stands before the last character, if that is a star.
before_star : Str → Option Str
before_star [] = none
before_star (c ∷ []) = if str_eq (c ∷ []) (codes "*") then some [] else none
before_star (c ∷ (d ∷ s)) = elim (before_star (d ∷ s)) [ none ↦ none | some t ↦ some (c ∷ t) ]

before_star-append : (s : Str) → before_star (s ++ codes ".*") ≡ some (s ++ codes ".")
unfolding before_star str_eq
before_star-append [] = refl
before_star-append (c ∷ []) = refl
before_star-append (c ∷ (d ∷ s)) = rw (before_star-append (d ∷ s), before_star) refl

one_word_after : Option Str → Str → Bool
one_word_after none key = false
one_word_after (some t) key = starts_with key t && not (contains b'.' (drop (length t) key))

topic_matches : Str → Str → Bool
unfolding before_star one_word_after
topic_matches topic key = str_eq topic key || one_word_after (before_star topic) key

or_true : (b : Bool) → (b || true) ≡ true
or_true true = refl
or_true false = refl

star :
    (prefix word : Str)
    → contains b'.' word ≡ false
    → topic_matches (prefix ++ codes ".*") (prefix ++ b'.' ∷ word) ≡ true
unfolding topic_matches one_word_after
star prefix word plain =
    let t = prefix ++ codes "." in
    let split : (prefix ++ b'.' ∷ word) ≡ (t ++ word) =
      sym (append_assoc prefix (codes ".") word) in
    let fits : one_word_after (some t) (t ++ word) ≡ true =
      simp (starts_with-append, drop-append, plain) refl in
    let same = str_eq (prefix ++ codes ".*") (prefix ++ b'.' ∷ word) in
    ap (λ x. same || one_word_after x (prefix ++ b'.' ∷ word)) (before_star-append prefix)
    ∙ ap (λ x. same || one_word_after (some t) x) split
    ∙ ap (λ x. same || x) fits
    ∙ or_true same

request_is_routed_example :
    let m = new_method_proxy no_attrs none (codes "math") (codes "spam") options in
    let s =
      sending
        (method_call rpc_exchange (codes "1f") (codes "c1") (language (codes "zh")) m)
        m.publisher in
    let replies = reply_queue none (codes "web") (codes "1f") in
    (q : RpcQueue) × (key : Str) × ((setup events none (codes "math") (new_consumer events)).queue
      ≡ some q)
    × RoutedTo topic_matches s key q
    × (get_provider_for_method env (codes "math") key (codes "add" ∷ codes "spam" ∷ []) []
        ≡ (ok (codes "spam"), []))
    × (get (codes "reply_to") s.rest ≡ some (text (codes "1f")))
    × (replies.exchange ≡ q.exchange)
unfolding get_rpc_exchange contains str_eq reply_queue
request_is_routed_example =
    request_is_routed topic_matches star events env none no_attrs none options rpc_exchange
      (codes "web") (codes "math") (codes "spam") (codes "1f") (codes "c1") (language (codes "zh"))
      (codes "add" ∷ codes "spam" ∷ []) [] (new_consumer events) refl refl refl refl
