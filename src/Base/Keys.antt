-- ===== src/Base/Keys.antt =====
-- Keys with a Boolean test that decides equality.
use Prim.Native.Nat.{ℕ}
use mathlib.Core.Path.{◌≡◌, refl}
use mathlib.Core.Logic.{◌↔◌}
use mathlib.Core.Bool.{Bool, true}
use package.nameko_zh_cn.Base.Tests.{eqb, eqb_iff}

pub record Key {ℓ} (K : Type ℓ) : Type ℓ where
  pub same : K → K → Bool
  pub same_iff : (i j : K) → (same i j ≡ true) ↔ (i ≡ j)

instance abbrev pub nat_eq : Key ℕ
nat_eq = record { same = eqb; same_iff = eqb_iff }

infix 50 ◌==◌
module _ {ℓ} {K : Type ℓ} ⦃key : Key K⦄ where
  abbrev pub ◌==◌ : K → K → Bool
  ◌==◌ = key.same

pub ==_iff {ℓ} : {K : Type ℓ} ⦃key : Key K⦄ (i j : K) → ((i == j) ≡ true) ↔ (i ≡ j)
==_iff ⦃key⦄ = key.same_iff

pub ==_refl {ℓ} : {K : Type ℓ} ⦃key : Key K⦄ (i : K) → (i == i) ≡ true
==_refl ⦃key⦄ i = (key.same_iff i i).1 refl
