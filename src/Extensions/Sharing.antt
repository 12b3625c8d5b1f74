-- ===== src/Extensions/Sharing.antt =====
-- nameko/extensions.py: which object a shared extension is bound to.
use nameko_zh_cn.Base.{
  ℕ, suc, ◌≡◌, refl, sym, ap, ◌∙◌, subst, Bool, true, false, Option, none, some, ◌>>=◌, ◌∷◌, get,
  get-put, nat_eq, eqb, eqb_iff, ==_refl, if◌then◌else◌, ◌||◌, ◌⊎◌, inl, inr, arith, Bool-cases,
  All, All-append, All-imp,
}
use mathlib.Core.Option.{some-injective}
use nameko_zh_cn.Extensions.{
  Prototype, prototype, Members, no_members, member, Instance, instance_of, Bound, Binder,
  find_shared, save_shared, unless_shared, clone, bind, bind_members, iter_extensions, iter_members,
}

-- Whether a shared class is in a tree.
unfoldable mutual
  pub occurs : ℕ → Prototype → Bool
  occurs k (prototype cls shared is_bound members) = eqb cls k || occurs_in k members

  pub occurs_in : ℕ → Members → Bool
  occurs_in k no_members = false
  occurs_in k (member name e members) = occurs k e || occurs_in k members

-- No extension has one of its own class below it.
unfoldable mutual
  unfolding occurs

  pub IsFlat : Prototype → Type 0
  IsFlat (prototype cls shared is_bound members) = (occurs_in cls members ≡ false) × AllFlat members

  pub AllFlat : Members → Type 0
  AllFlat no_members = Unit
  AllFlat (member name e members) = IsFlat e × AllFlat members

abbrev pub class_of : Instance → ℕ
class_of (instance_of cls shared ref bound) = cls

abbrev pub is_shared : Instance → Bool
is_shared (instance_of cls shared ref bound) = shared

-- A shared instance is the one that the container keeps for its class.
abbrev pub Found : Binder → Instance → Type 0
Found s i = is_shared i ≡ true → get (class_of i) s.shared_extensions ≡ some i

-- Every instance of a tree is found.
abbrev pub FoundAll : Binder → Instance → Type 0
FoundAll s i = Found s i × All (Found s) (iter_extensions i)

-- What the container keeps under a class.
pub record IsClosed (s : Binder) : Type 0 where
  pub own :
      (k : ℕ) (i : Instance) → get k s.shared_extensions ≡ some i → (class_of i ≡ k) × FoundAll s i

-- Nothing that is kept is replaced.
abbrev pub Extends : Binder → Binder → Type 0
Extends s s' =
    (k : ℕ) (i : Instance)
    → get k s.shared_extensions ≡ some i
    → get k s'.shared_extensions ≡ some i

pub FoundAll-mono : (s s' : Binder) (i : Instance) → Extends s s' → FoundAll s i → FoundAll s' i
FoundAll-mono s s' i f (h, hs) =
    (λ e. f (class_of i) i (h e), All-imp (iter_extensions i) (λ j g e. f (class_of j) j (g e)) hs)

-- What binding makes of a binder, for a tree with these classes.
pub record Binds (has : ℕ → Bool) (s s' : Binder) : Type 0 where
  pub closed : IsClosed s'
  pub extends : Extends s s'
  pub fresh :
      (k : ℕ) → has k ≡ false → get k s.shared_extensions ≡ none → get k s'.shared_extensions ≡ none

pub bind_some {ℓ κ} :
    {A : Type ℓ} {B : Type κ} (o : Option A) (f : A → Option B) {b : B}
    → (o >>= f) ≡ some b
    → (a : A) × (o ≡ some a) × (f a ≡ some b)
bind_some none f e = cc
bind_some (some a) f e = (a, refl, e)

Binds-refl : (has : ℕ → Bool) (s : Binder) → IsClosed s → Binds has s s
Binds-refl has s h = record { closed = h; extends = λ k i e. e; fresh = λ k n e. e }

save_lem :
    (cls : ℕ) (shared : Bool) (ref : ℕ) (bound : Bound) (has : ℕ → Bool) (s s' : Binder)
    → find_shared cls shared s ≡ none
    → has cls ≡ false
    → Binds has s s'
    → All (Found s') (iter_members bound)
    → let i = instance_of cls shared ref bound in
      Binds (λ k. eqb cls k || has k) s (save_shared cls shared i s')
      × FoundAll (save_shared cls shared i s') i
unfolding save_shared find_shared iter_extensions
save_lem cls false ref bound has s s' gone n b h = (
  record { closed = b.closed; extends = b.extends; fresh = λ k m e. b.fresh k (ground arith) e },
  (λ e. cc, h),
)
save_lem cls true ref bound has s s' gone n b h =
    let i = instance_of cls true ref bound in
    let t = save_shared cls true i s' in
    let at = λ (k : ℕ). get-put cls k i s'.shared_extensions in
    let grown : Extends s' t = λ k j e. ground (arith, at k, b.fresh cls n gone, eqb_iff cls k) in
    let self : get cls t.shared_extensions ≡ some i =
      at cls ∙ ap (λ q. if q then some i else get cls s'.shared_extensions) (==_refl cls) in
    let found : FoundAll t i =
      (λ e. self, All-imp (iter_members bound) (λ j g e. grown (class_of j) j (g e)) h) in
    (
      record {
        closed = record {
          own = λ k j e. elim (Bool-cases (eqb cls k)) [
            | inl same ↦
                let k≡ = (eqb_iff cls k).0 same in
                let i≡ =
                  some-injective i j (sym self ∙ (ap (λ x. get x t.shared_extensions) k≡ ∙ e)) in
                subst (λ x. (class_of x ≡ k) × FoundAll t x) i≡ (k≡, found)
            | inr other ↦
                let kept =
                  sym (at k ∙ ap (λ q. if q then some i else get k s'.shared_extensions) other)
                  ∙ e in
                let (named, all) = b.closed.own k j kept in (named, FoundAll-mono s' t j grown all)
          ];
        };
        extends = λ k j e. grown k j (b.extends k j e);
        fresh = λ k m e. ground (arith, at k, b.fresh k);
      },
      found,
    )

find_own :
    (cls : ℕ) (shared : Bool) (s : Binder) (i : Instance)
    → find_shared cls shared s ≡ some i
    → get cls s.shared_extensions ≡ some i
unfolding find_shared
find_own cls false s i e = cc
find_own cls true s i e = e

unless_shared_cases :
    (o : Option Instance) (s : Binder) (made : Option (Instance × Binder)) {i : Instance}
    {s' : Binder}
    → unless_shared o s made ≡ some (i, s')
    → ((o ≡ some i) × (s ≡ s')) ⊎ ((o ≡ none) × (made ≡ some (i, s')))
unfolding unless_shared
unless_shared_cases (some j) s made e =
    let eq = some-injective _ _ e in inl (ap (λ x. some (x.0)) eq, ap (λ x. x.1) eq)
unless_shared_cases none s made e = inr (refl, e)

clone_made :
    (cls : ℕ) (shared : Bool) (ref : ℕ) (is_bound : Bool) (made : Option (Bound × Binder))
    {i : Instance} {s' : Binder}
    → clone cls shared ref is_bound made ≡ some (i, s')
    → (bound : Bound) × (s : Binder) × (made ≡ some (bound, s))
      × (instance_of cls shared ref bound ≡ i)
      × (save_shared cls shared (instance_of cls shared ref bound) s ≡ s')
unfolding clone
clone_made cls shared ref true made e = cc
clone_made cls shared ref false none e = cc
clone_made cls shared ref false (some (bound, s)) e =
    let eq = some-injective _ _ e in (bound, s, refl, ap (λ x. x.0) eq, ap (λ x. x.1) eq)

Binds-then :
    (f g : ℕ → Bool) (s t u : Binder) → Binds f s t → Binds g t u → Binds (λ k. f k || g k) s u
Binds-then f g s t u a b = record {
  closed = b.closed;
  extends = λ k i e. b.extends k i (a.extends k i e);
  fresh = λ k n e. b.fresh k (ground arith) (a.fresh k (ground arith) e);
}

mutual
  unfolding bind occurs IsFlat iter_extensions

  pub bind_lem :
      (e : Prototype) (s : Binder) {i : Instance} {s' : Binder}
      → IsFlat e
      → IsClosed s
      → bind e s ≡ some (i, s')
      → Binds (λ k. occurs k e) s s' × FoundAll s' i
  bind_lem (prototype cls shared is_bound members) s {i} {s'} (flat, flats) v h =
      elim (unless_shared_cases (find_shared cls shared s) s _ h) [
        | inl (has, same) ↦
            let found = (v.own cls i (find_own cls shared s i has)).1 in
            let has_class = λ (k : ℕ). occurs k (prototype cls shared is_bound members) in
            subst (λ x. Binds has_class s x × FoundAll x i) same (Binds-refl has_class s v, found)
        | inr (gone, cloned) ↦
            let start : Binder = record s { next_ref = suc s.next_ref } in
            let (bound, s1, made, i≡, s≡) =
              clone_made cls shared s.next_ref is_bound (bind_members members start) cloned in
            let (binds, found) =
              bind_members_lem members start flats (record { own = v.own }) made in
            let binds' : Binds (λ k. occurs_in k members) s s1 = record {
              closed = binds.closed;
              extends = binds.extends;
              fresh = binds.fresh;
            } in
            subst
              (λ x.
                Binds (λ k. occurs k (prototype cls shared is_bound members)) s s' × FoundAll s' x)
              i≡
              (subst
                (λ x.
                  Binds (λ k. occurs k (prototype cls shared is_bound members)) s x
                  × FoundAll x (instance_of cls shared s.next_ref bound))
                s≡ (save_lem cls shared s.next_ref bound _ s s1 gone flat binds' found))
      ]

  bind_members_lem :
      (members : Members) (s : Binder) {bound : Bound} {s' : Binder}
      → AllFlat members
      → IsClosed s
      → bind_members members s ≡ some (bound, s')
      → Binds (λ k. occurs_in k members) s s' × All (Found s') (iter_members bound)
  bind_members_lem no_members s {bound} {s'} flat v h =
      let eq = some-injective _ _ h in
      subst
        (λ x. Binds (λ k. occurs_in k no_members) s (x.1) × All (Found (x.1)) (iter_members (x.0)))
        eq (Binds-refl _ s v, tt)
  bind_members_lem (member name e members) s {bound} {s'} (flat, flats) v h =
      let ((i, s1), made, rest) = bind_some (bind e s) _ h in
      let ((bs, s2), made', finished) = bind_some (bind_members members s1) _ rest in
      let (first, found) = bind_lem e s flat v made in
      let (others, founds) = bind_members_lem members s1 flats first.closed made' in
      let (root, below) = FoundAll-mono s1 s2 i others.extends found in
      subst
        (λ x.
          Binds (λ k. occurs_in k (member name e members)) s (x.1)
          × All (Found (x.1)) (iter_members (x.0)))
        (some-injective _ _ finished)
        (
          Binds-then _ _ s s1 s2 first others,
          All-append (Found s2) (iter_extensions i) (i ∷ iter_members bs) below (root, founds),
        )
