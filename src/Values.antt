-- ===== src/Values.antt =====
-- The values that a service hands to a serializer. `atom` stands for an object that is no `str`,
-- no `dict` and no iterable, by its identity: a number, a Boolean, None, or any other object.
use nameko_zh_cn.Base.{ℕ, Str, List, [], ◌∷◌}

mutual
  pub data Value : Type 0 where
    str : Str → Value
    atom : ℕ → Value
    dict : Fields → Value
    -- a list, and a tuple, set or other iterable
    list iterable : Items → Value

  pub data Items : Type 0 where
    nil : Items
    cons : Value → Items → Items

  pub data Fields : Type 0 where
    end : Fields
    field : Value → Value → Fields → Fields

abbrev pub of_list : List Value → Items
of_list [] = nil
of_list (v ∷ vs) = cons v (of_list vs)

abbrev pub append_fields : Fields → Fields → Fields
append_fields end gs = gs
append_fields (field k v fs) gs = field k v (append_fields fs gs)
