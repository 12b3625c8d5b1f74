-- ===== src/Worker.antt =====
-- nameko/containers.py: WorkerContext. The uuid that `new_call_id` would return is an argument.
pub mod Calls
use nameko_zh_cn.Base.{
  ℕ, suc, ◌+◌, ◌-◌, Str, codes, Bool, true, false, Option, none, some, List, [], ◌∷◌, ◌++◌, length,
  drop, head?, last?, Dict, get, put, remove, str_keys,
}
use nameko_zh_cn.Headers.{Datum, absent, call_ids, other}

abbrev pub call_id_stack_key : Str
call_id_stack_key = codes "call_id_stack"

pub record WorkerContext : Type 0 where
  pub service_name : Str
  pub method_name : Str
  pub parent_calls_tracked : ℕ
  -- `_call_id` and `_call_id_stack`, None until they are first asked for
  pub cached_id : Option Str
  pub cached_stack : Option (List Str)
  pub parent_call_id_stack : List Str
  pub data_ : Dict Str Datum

-- self.data.pop(CALL_ID_STACK_CONTEXT_KEY, [])
parent_stack : Option Datum → Option (List Str)
parent_stack none = some []
parent_stack (some (call_ids ids)) = some ids
parent_stack (some _) = none

-- `none` is a context data whose entry for the stack is no list of call ids.
unfoldable pub new_context : Str → Str → ℕ → Dict Str Datum → Option WorkerContext
unfolding parent_stack
new_context service method tracked data_ = elim (parent_stack (get call_id_stack_key data_)) [
  | none ↦ none
  | some ids ↦ some (record {
    service_name = service;
    method_name = method;
    parent_calls_tracked = tracked;
    cached_id = none;
    cached_stack = none;
    parent_call_id_stack = ids;
    data_ = remove call_id_stack_key data_;
  })
]

-- "{}.{}.{}".format(...)
unfoldable pub format_call_id : Str → Str → Str → Str
format_call_id service method uuid = service ++ b'.' ∷ (method ++ b'.' ∷ uuid)

unfoldable pub call_id : Str → WorkerContext → Str × WorkerContext
unfolding format_call_id
call_id uuid ctx = elim ctx.cached_id [
  | some made ↦ (made, ctx)
  | none ↦
      let made = format_call_id ctx.service_name ctx.method_name uuid in
      (made, record ctx { cached_id = some made })
]

-- `deque.append` on a deque with `maxlen`: the oldest item falls out.
unfoldable pub push : ℕ → List Str → Str → List Str
push maxlen stack x = drop (length (stack ++ x ∷ []) - maxlen) (stack ++ x ∷ [])

unfoldable pub extend : ℕ → List Str → List Str → List Str
unfolding push
extend maxlen stack [] = stack
extend maxlen stack (x ∷ xs) = extend maxlen (push maxlen stack x) xs

unfoldable pub call_id_stack : Str → WorkerContext → List Str × WorkerContext
unfolding call_id extend
call_id_stack uuid ctx = elim ctx.cached_stack [
  | some stack ↦ (stack, ctx)
  | none ↦
      let stack_length = ctx.parent_calls_tracked + 1 in
      let inherited = extend stack_length [] ctx.parent_call_id_stack in
      let (made, ctx') = call_id uuid ctx in
      let stack = push stack_length inherited made in
      (stack, record ctx' { cached_stack = some stack })
]

unfoldable pub context_data : Str → WorkerContext → Dict Str Datum × WorkerContext
unfolding call_id_stack
context_data uuid ctx =
    let (stack, ctx') = call_id_stack uuid ctx in
    (put call_id_stack_key (call_ids stack) ctx'.data_, ctx')

unfoldable pub origin_call_id : WorkerContext → Option Str
origin_call_id ctx = head? ctx.parent_call_id_stack

unfoldable pub immediate_parent_call_id : WorkerContext → Option Str
immediate_parent_call_id ctx = last? ctx.parent_call_id_stack
