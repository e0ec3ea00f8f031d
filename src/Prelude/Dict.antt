-- ===== src/Prelude/Dict.antt =====
-- Python's `dict`: an association list in the order of first insertion.
use mathlib.Core.Path.{◌≡◌, refl}
use mathlib.Core.Bool.{Bool, true}
use mathlib.Core.Option.{Option, none, some}
use mathlib.Core.List.{List, [], ◌∷◌}
use native.Mathlib.Omega.{arith}
use btx_omni_prospect.Prelude.Lists.{find}
use btx_omni_prospect.Prelude.Tests.{Eq, ◌==◌, if◌then◌else◌, beq_refl}

module _ {ℓ} {K V : Type ℓ} ⦃e : Eq K⦄ where
  -- d.get(k)
  unfoldable pub lookup : K → List (K × V) → Option V
  lookup k [] = none
  lookup k ((j, v) ∷ d) = let rest = lookup k d in if j == k then some v else rest

  -- d[k] = v
  unfoldable pub insert : K → V → List (K × V) → List (K × V)
  insert k v [] = (k, v) ∷ []
  insert k v ((j, w) ∷ d) = let rest = insert k v d in if j == k then (j, v) ∷ d else (j, w) ∷ rest

  -- d.pop(k, None)
  unfoldable pub without : K → List (K × V) → List (K × V)
  without k [] = []
  without k ((j, w) ∷ d) = let rest = without k d in if j == k then rest else (j, w) ∷ rest

  pub lookup-insert :
      (k j : K) (v : V) (d : List (K × V))
      → lookup j (insert k v d) ≡ (if k == j then some v else lookup j d)
  unfolding lookup insert
  lookup-insert k j v [] = refl
  lookup-insert k j v ((i, w) ∷ d) =
      ground (arith, e.same_iff k j, e.same_iff i k, e.same_iff i j, lookup-insert k j v d)

  pub lookup-without :
      (k j : K) (d : List (K × V)) → lookup j (without k d) ≡ (if k == j then none else lookup j d)
  unfolding lookup without
  lookup-without k j [] = ground arith
  lookup-without k j ((i, w) ∷ d) =
      ground (arith, e.same_iff k j, e.same_iff i k, e.same_iff i j, lookup-without k j d)

  pub lookup-insert_self : (k : K) (v : V) (d : List (K × V)) → lookup k (insert k v d) ≡ some v
  lookup-insert_self k v d = rw (lookup-insert, beq_refl k)

-- Storing what is stored changes nothing.
pub insert-lookup_self {ℓ} :
    {K V : Type ℓ} ⦃e : Eq K⦄ (k : K) (v : V) (d : List (K × V))
    → lookup k d ≡ some v
    → insert k v d ≡ d
unfolding lookup insert
insert-lookup_self k v [] h = ground arith
insert-lookup_self k v ((j, w) ∷ d) h = ground (arith, insert-lookup_self k v d)

-- d.values()
abbrev pub values {ℓ} : {K V : Type ℓ} → List (K × V) → List V
values [] = []
values ((k, v) ∷ d) = v ∷ values d

-- A search through the values finds a new one only where it found none before.
pub find-insert_new {ℓ} :
    {K V : Type ℓ} ⦃e : Eq K⦄ (p : V → Bool) (k : K) (v : V) (d : List (K × V))
    → find p (values d) ≡ none
    → p v ≡ true
    → find p (values (insert k v d)) ≡ some v
unfolding insert
find-insert_new p k v [] h t = ground arith
find-insert_new p k v ((j, w) ∷ d) h t = ground (arith, find-insert_new p k v d)
