-- ===== src/Worker/Calls.antt =====
-- nameko/containers.py, WorkerContext: the stack of call ids, in a worker and in those that it calls.
use mathlib.Core.List.{append_assoc, append-nil}
use nameko_zh_cn.Base.{
  ℕ, zero, suc, ◌+◌, ◌-◌, ◌≤◌, ◌<◌, Str, ◌≡◌, refl, none, some, List, [], ◌∷◌, ◌++◌, length, drop,
  last?, length-append, length-drop, last?-append, Dict, get, get-put, Distinct, str_keys, arith,
  sym, ap, ◌∙◌, ==_refl, Distinct-put, subst, remove,
}
use nameko_zh_cn.Headers.{
  Datum, absent, call_ids, other, get_message_headers, unpack_message_headers,
}
use nameko_zh_cn.Headers.Trip.{without_none, unpack-get_message_headers}
use nameko_zh_cn.Worker.{
  WorkerContext, call_id_stack_key, new_context, call_id, push, extend, call_id_stack, context_data,
  immediate_parent_call_id,
}

-- The last `n` items.
abbrev pub keep_last : ℕ → List Str → List Str
keep_last n xs = drop (length xs - n) xs

drop-append_le : (k : ℕ) (s t : List Str) → k ≤ length s → drop k (s ++ t) ≡ drop k s ++ t
drop-append_le zero s t h = refl
drop-append_le (suc k) [] t h = absurd (omega arith)
drop-append_le (suc k) (x ∷ s) t h = drop-append_le k s t (omega arith)

drop-drop : (a b c : ℕ) (l : List Str) → c ≡ b + a → drop a (drop b l) ≡ drop c l
drop-drop a zero c l e = ap (λ n. drop n l) (omega arith)
drop-drop a (suc b) zero l e = absurd (omega arith)
drop-drop zero (suc b) (suc c) [] e = refl
drop-drop (suc a) (suc b) (suc c) [] e = refl
drop-drop a (suc b) (suc c) (x ∷ l) e = drop-drop a b c l (omega arith)

keep_last-append :
    (n : ℕ) (s t : List Str) → keep_last n (keep_last n s ++ t) ≡ keep_last n (s ++ t)
keep_last-append n s t =
    let k = length s - n in
    rw (← drop-append_le k s t (omega arith)) (
      drop-drop (length (drop k (s ++ t)) - n) k (length (s ++ t) - n) (s ++ t)
        (omega (arith, length-drop k (s ++ t), length-append s t)))

zero_of : (xs : List Str) (n : ℕ) → length xs ≤ n → length xs - n ≡ 0
zero_of xs n h = omega arith

extend-eq-keep_last :
    (n : ℕ) (stack xs : List Str) → length stack ≤ n → extend n stack xs ≡ keep_last n (stack ++ xs)
unfolding extend
extend-eq-keep_last n stack [] h = rw append-nil (sym (ap (λ k. drop k stack) (zero_of stack n h)))
extend-eq-keep_last n stack (x ∷ xs) h =
    extend-eq-keep_last n (push n stack x) xs
      (omega (arith, length-drop (length (stack ++ x ∷ []) - n) (stack ++ x ∷ [])))
    ∙ keep_last-append n (stack ++ x ∷ []) xs
    ∙ ap (keep_last n) (append_assoc stack (x ∷ []) xs)

last?-drop : (k : ℕ) (l : List Str) → k < length l → last? (drop k l) ≡ last? l
last?-drop zero l h = refl
last?-drop (suc k) [] h = absurd (omega arith)
last?-drop (suc k) (x ∷ []) h = absurd (omega arith)
last?-drop (suc k) (x ∷ (y ∷ l)) h = last?-drop k (y ∷ l) (omega arith)

module _ (uuid : Str) (ctx : WorkerContext) where
  pushed :
      ctx.cached_stack ≡ none
      → (call_id_stack uuid ctx).0
        ≡ push
            (ctx.parent_calls_tracked + 1)
            (extend (ctx.parent_calls_tracked + 1) [] ctx.parent_call_id_stack)
            (call_id uuid ctx).0
  unfolding call_id_stack
  pushed fresh = rw fresh

  stack_eq :
      ctx.cached_stack ≡ none
      → (call_id_stack uuid ctx).0
        ≡ keep_last
            (ctx.parent_calls_tracked + 1)
            (ctx.parent_call_id_stack ++ (call_id uuid ctx).0 ∷ [])
  unfolding push
  stack_eq fresh =
      let n = ctx.parent_calls_tracked + 1 in
      pushed fresh
      ∙ ap (λ s. push n s (call_id uuid ctx).0)
          (extend-eq-keep_last n [] ctx.parent_call_id_stack (omega arith))
      ∙ keep_last-append n ctx.parent_call_id_stack ((call_id uuid ctx).0 ∷ [])

  -- The stack of a worker that has not asked for it is the last `parent_calls_tracked + 1` of the
  -- ids that it inherited with its own behind them; so it is no longer than that, and ends in its own.
  pub call_id_stack_lem :
      ctx.cached_stack ≡ none
      → ((call_id_stack uuid ctx).0
          ≡ keep_last
              (ctx.parent_calls_tracked + 1)
              (ctx.parent_call_id_stack ++ (call_id uuid ctx).0 ∷ []))
        × (length (call_id_stack uuid ctx).0 ≤ ctx.parent_calls_tracked + 1)
        × (last? (call_id_stack uuid ctx).0 ≡ some (call_id uuid ctx).0)
  call_id_stack_lem fresh =
      let n = ctx.parent_calls_tracked + 1 in
      let whole = ctx.parent_call_id_stack ++ (call_id uuid ctx).0 ∷ [] in
      let e = stack_eq fresh in
      (
        e,
        rw e (omega (arith, length-drop (length whole - n) whole)),
        rw e (
            last?-drop (length whole - n) whole
              (omega (arith, length-append ctx.parent_call_id_stack ((call_id uuid ctx).0 ∷ [])))
            ∙ last?-append ctx.parent_call_id_stack (call_id uuid ctx).0),
      )

  -- Asking again, with whatever uuid would be made now, gives the same id and the same stack.
  pub call_id_stack_again :
      (later : Str)
      → ((call_id_stack later (call_id_stack uuid ctx).1).0 ≡ (call_id_stack uuid ctx).0)
        × ((call_id later (call_id uuid ctx).1).0 ≡ (call_id uuid ctx).0)
  unfolding call_id_stack call_id
  call_id_stack_again later = ground arith

get-without_none :
    (k : Str) (ids : List Str) (d : Dict Str Datum)
    → get k d ≡ some (call_ids ids)
    → get k (without_none d) ≡ some (call_ids ids)
unfolding get without_none
get-without_none k ids [] h = h
get-without_none k ids ((j, absent) ∷ d) h = ground (arith, get-without_none k ids d)
get-without_none k ids ((j, call_ids s) ∷ d) h = ground (arith, get-without_none k ids d)
get-without_none k ids ((j, other v) ∷ d) h = ground (arith, get-without_none k ids d)

data_-call_id_stack :
    (uuid : Str) (ctx : WorkerContext) → (call_id_stack uuid ctx).1.data_ ≡ ctx.data_
unfolding call_id_stack
data_-call_id_stack uuid ctx = ground arith

get-context_data :
    (uuid : Str) (ctx : WorkerContext)
    → get call_id_stack_key (context_data uuid ctx).0 ≡ some (call_ids (call_id_stack uuid ctx).0)
unfolding context_data
get-context_data uuid ctx = simp (get-put, ==_refl)

Distinct-context_data :
    (uuid : Str) (ctx : WorkerContext) → Distinct ctx.data_ → Distinct (context_data uuid ctx).0
unfolding context_data
Distinct-context_data uuid ctx h =
    Distinct-put call_id_stack_key (call_ids (call_id_stack uuid ctx).0) _
      (subst Distinct (sym (data_-call_id_stack uuid ctx)) h)

new_context_of_stack :
    (service method : Str) (tracked : ℕ) (d : Dict Str Datum) (ids : List Str)
    → get call_id_stack_key d ≡ some (call_ids ids)
    → (child : WorkerContext) × (new_context service method tracked d ≡ some child)
      × (child.parent_call_id_stack ≡ ids)
unfolding new_context
new_context_of_stack service method tracked d ids h = (
  record {
    service_name = service;
    method_name = method;
    parent_calls_tracked = tracked;
    cached_id = none;
    cached_stack = none;
    parent_call_id_stack = ids;
    data_ = remove call_id_stack_key d;
  },
  rw (h, new_context),
  refl,
)

-- The context of a worker that was called by another one, whose headers it unpacks: it inherits the
-- caller's stack, so its immediate parent is the call that the caller was making.
pub child_inherits_stack :
    (uuid : Str) (caller : WorkerContext) (service method : Str) (tracked : ℕ)
    → caller.cached_stack ≡ none
    → Distinct caller.data_
    → (child : WorkerContext) × (new_context service method tracked
          (unpack_message_headers (get_message_headers (context_data uuid caller).0))
        ≡ some child)
      × (child.parent_call_id_stack ≡ (call_id_stack uuid caller).0)
      × (immediate_parent_call_id child ≡ some (call_id uuid caller).0)
unfolding immediate_parent_call_id
child_inherits_stack uuid caller service method tracked fresh distinct =
    let sent = (context_data uuid caller).0 in
    let stack = (call_id_stack uuid caller).0 in
    let received = get-without_none call_id_stack_key stack sent (get-context_data uuid caller) in
    let (child, made, inherited) =
      new_context_of_stack service method tracked (without_none sent) stack received in
    (
      child,
      rw (unpack-get_message_headers sent (Distinct-context_data uuid caller distinct)) made,
      inherited,
      ap last? inherited ∙ (call_id_stack_lem uuid caller fresh).2,
    )
