-- ===== src/Base/Sets.antt =====
-- Python's `set`: a list without repeated items.
use mathlib.Core.Path.{◌≡◌}
use mathlib.Core.Bool.{Bool, false, not, ◌&&◌, ◌||◌}
use mathlib.Core.List.{List, [], ◌∷◌}
use native.Mathlib.Omega.{arith}
use nameko_zh_cn.Base.Tests.{if◌then◌else◌}
use nameko_zh_cn.Base.Keys.{Key, ◌==◌}

module _ {ℓ} {K : Type ℓ} ⦃e : Key K⦄ where
  unfoldable pub contains : K → List K → Bool
  contains k [] = false
  contains k (j ∷ js) = (j == k) || contains k js

  unfoldable pub add : K → List K → List K
  unfolding contains
  add k js = if contains k js then js else k ∷ js

  unfoldable pub discard : K → List K → List K
  discard k [] = []
  discard k (j ∷ js) = let rest = discard k js in if j == k then rest else j ∷ rest

  pub contains-add : (j k : K) (js : List K) → contains j (add k js) ≡ ((k == j) || contains j js)
  unfolding contains add
  contains-add j k js = ground (arith, e.same_iff k j)

  pub contains-discard :
      (j k : K) (js : List K) → contains j (discard k js) ≡ (not (k == j) && contains j js)
  unfolding contains discard
  contains-discard j k [] = ground arith
  contains-discard j k (i ∷ js) =
      ground (arith, contains-discard j k js, e.same_iff i k, e.same_iff i j, e.same_iff k j)
