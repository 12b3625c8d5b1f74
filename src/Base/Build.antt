-- ===== src/Base/Build.antt =====
-- A dict built item by item, as a comprehension does, and dicts without a repeated key.
use mathlib.Core.Path.{◌≡◌, refl, ◌∙◌}
use mathlib.Core.Bool.{Bool, false, ◌||◌}
use mathlib.Core.Option.{none}
use mathlib.Core.List.{List, [], ◌∷◌, ◌++◌, append_assoc, append-nil}
use native.Mathlib.Omega.{arith}
use mathlib.Core.Logic.{inl, inr}
use nameko_zh_cn.Base.Tests.{Bool-cases}
use nameko_zh_cn.Base.Keys.{Key, ◌==◌}
use nameko_zh_cn.Base.Assoc.{Dict, get, put}

module _ {ℓ κ} {K : Type ℓ} {V : Type κ} ⦃e : Key K⦄ where
  -- `{k: v for k, v in items}`: a later item replaces an earlier one of its key.
  unfoldable pub build : List (K × V) → Dict K V → Dict K V
  build [] out = out
  build ((k, v) ∷ items) out = build items (put k v out)

  -- k in d
  unfoldable pub has_key : K → Dict K V → Bool
  has_key k [] = false
  has_key k ((j, v) ∷ d) = j == k || has_key k d

  abbrev pub Distinct : Dict K V → Type 0
  Distinct [] = Unit
  Distinct ((k, v) ∷ d) = (has_key k d ≡ false) × Distinct d

  -- No key of the second dict is a key of the first.
  abbrev Apart : Dict K V → Dict K V → Type 0
  Apart out [] = Unit
  Apart out ((k, v) ∷ d) = (has_key k out ≡ false) × Apart out d

  put-append : (k : K) (v : V) (d : Dict K V) → has_key k d ≡ false → put k v d ≡ d ++ (k, v) ∷ []
  unfolding put has_key
  put-append k v [] h = refl
  put-append k v ((j, w) ∷ d) h = ground (arith, put-append k v d)

  has_key-append_one :
      (j k : K) (v : V) (d : Dict K V)
      → has_key j d ≡ false
      → (k == j) ≡ false
      → has_key j (d ++ (k, v) ∷ []) ≡ false
  unfolding has_key
  has_key-append_one j k v [] h n = ground arith
  has_key-append_one j k v ((i, w) ∷ d) h n = ground (arith, has_key-append_one j k v d)

  Apart-append_one :
      (k : K) (v : V) (out d : Dict K V)
      → has_key k d ≡ false
      → Apart out d
      → Apart (out ++ (k, v) ∷ []) d
  unfolding has_key
  Apart-append_one k v out [] h a = tt
  Apart-append_one k v out ((j, w) ∷ d) h a = (
    has_key-append_one j k v out a.0 (ground (arith, e.same_iff j k, e.same_iff k j)),
    Apart-append_one k v out d (ground arith) a.1,
  )

  build-append : (d out : Dict K V) → Distinct d → Apart out d → build d out ≡ out ++ d
  unfolding build
  build-append [] out h a = rw append-nil
  build-append ((k, v) ∷ d) out h a = rw (put-append k v out a.0) (
      build-append d (out ++ (k, v) ∷ []) h.1 (Apart-append_one k v out d h.0 a.1)
      ∙ append_assoc out ((k, v) ∷ []) d)

  Apart-nil : (d : Dict K V) → Apart [] d
  unfolding has_key
  Apart-nil [] = tt
  Apart-nil ((k, v) ∷ d) = (refl, Apart-nil d)

  pub build-nil : (d : Dict K V) → Distinct d → build d [] ≡ d
  build-nil d h = build-append d [] h (Apart-nil d)

  pub get-eq-none : (k : K) (d : Dict K V) → has_key k d ≡ false → get k d ≡ none
  unfolding get has_key
  get-eq-none k [] h = refl
  get-eq-none k ((j, v) ∷ d) h = ground (arith, get-eq-none k d)

  has_key-put :
      (j k : K) (v : V) (d : Dict K V)
      → has_key j d ≡ false
      → (k == j) ≡ false
      → has_key j (put k v d) ≡ false
  unfolding has_key put
  has_key-put j k v [] h n = ground arith
  has_key-put j k v ((i, w) ∷ d) h n = ground (arith, has_key-put j k v d)

  pub Distinct-put : (k : K) (v : V) (d : Dict K V) → Distinct d → Distinct (put k v d)
  unfolding put has_key
  Distinct-put k v [] h = (refl, tt)
  Distinct-put k v ((j, w) ∷ d) h = elim (Bool-cases (j == k)) [
    | inl same ↦ rw same h
    | inr other ↦ rw other (
      has_key-put j k v d h.0 (ground (arith, e.same_iff j k, e.same_iff k j)),
      Distinct-put k v d h.1,
    )
  ]
