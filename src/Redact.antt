-- ===== src/Redact.antt =====
-- nameko/utils/__init__.py: `get_redacted_args`, from the arguments as `inspect.getcallargs` and
-- `deepcopy` give them. A sensitive argument is the list of keys that its regular expression finds.
-- The data is a tree: no two of its parts are the same object. `none` is an exception.
pub mod Fields
pub mod Paths
pub mod Hidden
pub mod Indices
use nameko_zh_cn.Base.{
  ℕ, suc, zero, Str, codes, Bool, true, false, ◌||◌, Option, none, some, ◌>>=◌, is_some, List, [],
  ◌∷◌, eqb, str_eq, starts_with, if◌then◌else◌,
}

pub data Key : Type 0 where
  name : Str → Key
  index : ℕ → Key

-- `other` is an object that is no container and equals no str and no int.
mutual
  pub data Data : Type 0 where
    text : Str → Data
    number : ℕ → Data
    other : ℕ → Data
    dict : Dict → Data
    list : Items → Data

  pub data Dict : Type 0 where
    empty : Dict
    entry : Key → Data → Dict → Dict

  pub data Items : Type 0 where
    nil : Items
    cons : Data → Items → Items

abbrev pub redacted : Data
redacted = text (codes "********")

unfoldable pub same_key : Key → Key → Bool
same_key (name s) (name t) = str_eq s t
same_key (index i) (index j) = eqb i j
same_key _ _ = false

-- d.get(k) and d[k] = v of a dict
unfoldable pub get_entry : Key → Dict → Option Data
unfolding same_key
get_entry k empty = none
get_entry k (entry j v d) = if same_key j k then some v else get_entry k d

unfoldable pub put_entry : Key → Data → Dict → Dict
unfolding same_key
put_entry k v empty = entry k v empty
put_entry k v (entry j w d) = if same_key j k then entry j v d else entry j w (put_entry k v d)

-- l[i] and l[i] = v of a list; past its end an IndexError, which leaves the list
unfoldable pub get_item : ℕ → Items → Option Data
get_item i nil = none
get_item zero (cons v xs) = some v
get_item (suc i) (cons v xs) = get_item i xs

unfoldable pub set_item : ℕ → Data → Items → Items
set_item i v nil = nil
set_item zero v (cons w xs) = cons v xs
set_item (suc i) v (cons w xs) = cons w (set_item i v xs)

-- data[key]; what is no dict and no list has no items under these keys: TypeError
unfoldable pub item : Key → Data → Option Data
unfolding get_entry get_item
item k (dict d) = get_entry k d
item (index i) (list xs) = get_item i xs
item _ _ = none

-- data[key] = value, where a KeyError, an IndexError and a TypeError are passed over
unfoldable pub assign : Key → Data → Data → Data
unfolding put_entry set_item
assign k v (dict d) = dict (put_entry k v d)
assign (index i) v (list xs) = list (set_item i v xs)
assign _ v d = d

unfoldable pub is_key : Key → Data → Bool
is_key (name s) (text t) = str_eq s t
is_key (index i) (number n) = eqb i n
is_key _ _ = false

unfoldable pub any_item : Key → Items → Bool
unfolding is_key
any_item k nil = false
any_item k (cons v xs) = is_key k v || any_item k xs

unfoldable pub substring : Str → Str → Bool
unfolding starts_with
substring s [] = starts_with [] s
substring s (c ∷ t) = starts_with (c ∷ t) s || substring s t

-- key in data: a list is searched for an item that equals the key, a str for a substring; an int in
-- a str, and a test in what is no container, is a TypeError.
unfoldable pub member : Key → Data → Option Bool
unfolding get_entry any_item substring
member k (dict d) = some (is_some (get_entry k d))
member k (list xs) = some (any_item k xs)
member (name s) (text t) = some (substring s t)
member _ _ = none

-- if key in data: ...
redact_inside : Option Bool → (Data → Option Data) → Key → Data → Option Data
unfolding item assign
redact_inside none inner k d = none
redact_inside (some false) inner k d = some d
redact_inside (some true) inner k d = do v ← item k d; w ← inner v; some (assign k w d)

unfoldable pub redact : List Key → Data → Option Data
unfolding redact_inside assign member
redact [] d = none
redact (k ∷ []) d = some (assign k redacted d)
redact (k ∷ j ∷ keys) d = redact_inside (member k d) (redact (j ∷ keys)) k d

-- if keys[0] in callargs: redact(callargs, keys)
unfoldable pub redact_variable : List Key → Data → Option Data
unfolding redact_inside redact
redact_variable [] callargs = none
redact_variable (k ∷ keys) callargs = do
  found ← member k callargs
  if found then redact (k ∷ keys) callargs else some callargs

-- for variable in sensitive_arguments: ...
unfoldable pub get_redacted_args : List (List Key) → Data → Option Data
unfolding redact_variable
get_redacted_args [] callargs = some callargs
get_redacted_args (keys ∷ variables) callargs = do
  callargs' ← redact_variable keys callargs
  get_redacted_args variables callargs'
