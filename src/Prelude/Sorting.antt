-- ===== src/Prelude/Sorting.antt =====
-- Python's `sorted`: stable, by a test `le x y` that says that `x` may stand before `y`.
use Prim.Native.Nat.{Ordering}
use Prim.Native.String.{String, compare}
use mathlib.Core.Path.{◌≡◌, refl}
use native.Mathlib.Omega.{arith}
use mathlib.Core.Bool.{Bool, true, false}
use mathlib.Core.List.{List, [], ◌∷◌, Perm}
use mathlib.Core.List.Perm
use btx_omni_prospect.Prelude.Tests.{if◌then◌else◌, Bool-cases}
use btx_omni_prospect.Prelude.Lists.{All, any}
use mathlib.Core.Logic.{inl, inr}

-- The order of Python's `str`, by code points.
abbrev pub text_le : String → String → Bool
text_le s t = elim (compare s t) [ Ordering.gt ↦ false | _ ↦ true ]

-- Each item stands in the relation R to all that follow it.
abbrev pub Ordered {ℓ} : {A : Type ℓ} → (A → A → Type 0) → List A → Type 0
Ordered R [] = Unit
Ordered R (x ∷ xs) = All (R x) xs × Ordered R xs

module _ {ℓ} {A : Type ℓ} (le : A → A → Bool) where
  unfoldable pub insert : A → List A → List A
  insert x [] = x ∷ []
  insert x (y ∷ ys) = let rest = insert x ys in if le x y then x ∷ y ∷ ys else y ∷ rest

  unfoldable pub sorted : List A → List A
  unfolding insert
  sorted [] = []
  sorted (x ∷ xs) = insert x (sorted xs)

  pub insert-perm : (x : A) (xs : List A) → Perm (insert x xs) (x ∷ xs)
  unfolding insert
  insert-perm x [] = Perm.rfl
  insert-perm x (y ∷ ys) = elim (Bool-cases (le x y)) [
    | inl h ↦ rw h Perm.rfl
    | inr h ↦ rw h (Perm.trans (Perm.cons y (insert-perm x ys)) (Perm.swap x y ys))
  ]

  pub sorted-perm : (xs : List A) → Perm (sorted xs) xs
  unfolding sorted
  sorted-perm [] = Perm.rfl
  sorted-perm (x ∷ xs) = Perm.trans (insert-perm x (sorted xs)) (Perm.cons x (sorted-perm xs))

  pub any-insert : (p : A → Bool) (x : A) (xs : List A) → any p (insert x xs) ≡ any p (x ∷ xs)
  unfolding insert
  any-insert p x [] = refl
  any-insert p x (y ∷ ys) = ground (arith, any-insert p x ys)

  pub any-sorted : (p : A → Bool) (xs : List A) → any p (sorted xs) ≡ any p xs
  unfolding sorted
  any-sorted p [] = refl
  any-sorted p (x ∷ xs) = ground (arith, any-insert p x (sorted xs), any-sorted p xs)

  -- The test orders by a transitive relation that holds one way or the other as it says.
  module _ (R : A → A → Type 0) (before : (x y : A) → le x y ≡ true → R x y)
      (after : (x y : A) → le x y ≡ false → R y x)
      (trans : (x y z : A) → R x y → R y z → R x z) where
    All-trans : (x y : A) (ys : List A) → R x y → All (R y) ys → All (R x) ys
    All-trans x y [] h k = tt
    All-trans x y (z ∷ zs) h k = (trans x y z h k.0, All-trans x y zs h k.1)

    All-insert : (x y : A) (ys : List A) → R y x → All (R y) ys → All (R y) (insert x ys)
    unfolding insert
    All-insert x y [] h k = (h, tt)
    All-insert x y (z ∷ zs) h k = elim (Bool-cases (le x z)) [
      | inl e ↦ rw e (h, k)
      | inr e ↦ rw e (k.0, All-insert x y zs h k.1)
    ]

    insert-Ordered : (x : A) (ys : List A) → Ordered R ys → Ordered R (insert x ys)
    unfolding insert
    insert-Ordered x [] h = (tt, tt)
    insert-Ordered x (y ∷ ys) h = elim (Bool-cases (le x y)) [
      | inl e ↦ rw e ((before x y e, All-trans x y ys (before x y e) h.0), h)
      | inr e ↦ rw e (All-insert x y ys (after x y e) h.0, insert-Ordered x ys h.1)
    ]

    pub sorted-Ordered : (xs : List A) → Ordered R (sorted xs)
    unfolding sorted
    sorted-Ordered [] = tt
    sorted-Ordered (x ∷ xs) = insert-Ordered x (sorted xs) (sorted-Ordered xs)
