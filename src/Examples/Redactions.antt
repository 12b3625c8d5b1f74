-- ===== src/Examples/Redactions.antt =====
-- The theorems of Redact at the arguments of one call.
use nameko_zh_cn.Base.{codes, str_eq, ◌≡◌, refl, some, [], ◌∷◌, ◌++◌}
use nameko_zh_cn.Redact.{
  Key, name, index, Data, text, dict, list, Dict, empty, entry, nil, cons, redacted, redact,
  get_redacted_args, get_entry, item,
}
use nameko_zh_cn.Redact.Paths.{look}
use nameko_zh_cn.Redact.Hidden.{through_dicts, get_redacted_args_hides}
use nameko_zh_cn.Redact.Indices.{without_index, middle_index_hides_nothing}

abbrev user : Key
user = name (codes "user")

abbrev bar : Key
bar = name (codes "bar")

abbrev cards : Key
cards = name (codes "cards")

abbrev secret : Data
secret = text (codes "secret")

abbrev holder : Data
holder =
    dict (entry bar secret (entry cards (list (cons (dict (entry bar secret empty)) nil)) empty))

abbrev args : Dict
args = entry user holder empty

abbrev after : Data
after = dict (
    entry user
      (dict
        (entry bar redacted (entry cards (list (cons (dict (entry bar secret empty)) nil)) empty)))
      empty)

get_redacted_args_hides_example :
    (callargs' : Data) × (get_redacted_args ((user ∷ bar ∷ []) ∷ []) (dict args) ≡ some callargs')
    × (look (user ∷ bar ∷ []) callargs' ≡ some redacted)
unfolding through_dicts get_entry str_eq item
get_redacted_args_hides_example = get_redacted_args_hides (user ∷ bar ∷ []) args refl

run_after : get_redacted_args ((user ∷ bar ∷ []) ∷ []) (dict args) ≡ some after
unfolding get_redacted_args str_eq
run_after = refl

-- What the redaction of `user.cards[0].bar` leaves: the secret is still there.
abbrev left : Data
left = dict (entry user holder empty)

run_middle : redact ((user ∷ cards ∷ []) ++ index 0 ∷ bar ∷ []) (dict args) ≡ some left
unfolding redact str_eq
run_middle = refl

middle_index_hides_nothing_example : left ≡ dict args
unfolding without_index
middle_index_hides_nothing_example =
    middle_index_hides_nothing (user ∷ cards ∷ []) 0 bar [] (dict args) refl run_middle
