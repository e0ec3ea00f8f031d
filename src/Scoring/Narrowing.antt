-- ===== src/Scoring/Narrowing.antt =====
-- More evidence narrows the range of an assessment.
use native.Mathlib.Nat.{mul-le-mul_right}
use btx_omni_prospect.Prelude.{
  ℕ, ◌*◌, ◌≤◌, String, Bool, true, Option, none, some, List, [], ◌∷◌, ◌≡◌, refl, sym, ap, subst,
  All, nat_eq, string_eq, arith, beq_refl,
}
use btx_omni_prospect.Prelude.Dict.{lookup}
use btx_omni_prospect.Prelude.Result.{ok}
use btx_omni_prospect.Scoring.Rubric.{
  make_factor_input, Family, FactorInput, family_named, is_within,
}
use btx_omni_prospect.Scoring.Assessment.{
  Factor, Assessment, factor_row, factor_rows, is_complete, floor_of, ceiling_of, weighted,
  assessed, assess,
}
use btx_omni_prospect.Scoring.Rounding.{rounded_mono}
use btx_omni_prospect.Scoring.Ranges.{
  make_factor_input-IsInput, Validated, factor_row-IsRow, assess-IsRanged,
}

-- A factor stays as it is, is seen for the first time, or gets current and fully documented points
-- within the bounds that were known.
pub data Learns (unit : ℕ) (old new : Option FactorInput) : Type 0 where
  kept : new ≡ old → Learns unit old new
  seen :
      (w : FactorInput)
      → old ≡ none
      → new ≡ some w
      → make_factor_input unit w ≡ ok w
      → Learns unit old new
  settled :
      (v w : FactorInput) (low high points : ℕ)
      → old ≡ some v
      → new ≡ some w
      → v.points ≡ none
      → v.evidence_state ≡ "CURRENT"
      → v.lower_bound ≡ some low
      → v.upper_bound ≡ some high
      → w.evidence_state ≡ "CURRENT"
      → w.points ≡ some points
      → is_within w.required_fields w.observed_fields ≡ true
      → (low ≤ points) × (points ≤ high)
      → Learns unit old new

record Tighter (unit : ℕ) (f g : Factor) : Type 0 where
  pub weight : g.weight ≡ f.weight
  pub floor : floor_of f ≤ floor_of g
  pub ceiling : ceiling_of unit g ≤ ceiling_of unit f

Learns-Tighter :
    (unit : ℕ) (name : String) (weight : ℕ) (old new : Option FactorInput)
    → Learns unit old new
    → Tighter unit (factor_row name weight old) (factor_row name weight new)
unfolding factor_row floor_of ceiling_of is_complete
Learns-Tighter unit name weight old new (kept e) =
    subst (λ o. Tighter unit (factor_row name weight old) (factor_row name weight o)) (sym e)
      (record { weight = refl; floor = omega arith; ceiling = omega arith })
Learns-Tighter unit name weight old new (seen w o n i) =
    let row = factor_row-IsRow unit name weight (some w) (make_factor_input-IsInput unit w w i) in
    rw (o, n)
      (record { weight = refl; floor = ground arith; ceiling = ground (arith, row.bounded) })
Learns-Tighter unit name weight old new (settled v w low high p o n vp vc vl vh wc wp full (a, b)) =
    rw (o, n)
      (record {
        weight = refl;
        floor = ground (arith, beq_refl name);
        ceiling = ground (arith, beq_refl name);
      })

module _ (unit : ℕ) (old new : List (String × FactorInput)) where
  abbrev pub LearnsAll : List (String × ℕ) → Type 0
  LearnsAll weights =
      All (λ (w : String × ℕ). Learns unit (lookup w.0 old) (lookup w.0 new)) weights

  floors :
      (weights : List (String × ℕ))
      → LearnsAll weights
      → weighted floor_of (factor_rows old weights) ≤ weighted floor_of (factor_rows new weights)
  unfolding weighted factor_rows
  floors [] h = omega arith
  floors ((name, weight) ∷ rest) (first, others) =
      let t = Learns-Tighter unit name weight (lookup name old) (lookup name new) first in
      let f = factor_row name weight (lookup name old) in
      let same : floor_of (factor_row name weight (lookup name new)) * f.weight
          ≡ floor_of (factor_row name weight (lookup name new))
            * (factor_row name weight (lookup name new)).weight =
        ap (λ n. floor_of (factor_row name weight (lookup name new)) * n) (sym t.weight) in
      omega (arith, mul-le-mul_right f.weight t.floor, same, floors rest others)

  ceilings :
      (weights : List (String × ℕ))
      → LearnsAll weights
      → weighted (ceiling_of unit) (factor_rows new weights)
        ≤ weighted (ceiling_of unit) (factor_rows old weights)
  unfolding weighted factor_rows
  ceilings [] h = omega arith
  ceilings ((name, weight) ∷ rest) (first, others) =
      let t = Learns-Tighter unit name weight (lookup name old) (lookup name new) first in
      let f = factor_row name weight (lookup name old) in
      let same : ceiling_of unit (factor_row name weight (lookup name new)) * f.weight
          ≡ ceiling_of unit (factor_row name weight (lookup name new))
            * (factor_row name weight (lookup name new)).weight =
        ap (λ n. ceiling_of unit (factor_row name weight (lookup name new)) * n) (sym t.weight) in
      omega (arith, mul-le-mul_right f.weight t.ceiling, same, ceilings rest others)

-- When evidence is added to an assessment, each factor of the family staying as it is, seen for the
-- first time or settled within its bounds, the new range lies within the old one, and so does the
-- score if there is one then, whatever the eligibility and the constraints.
pub narrows_range :
    (unit : ℕ) (key : String) (family : Family) (old new : List (String × FactorInput))
    (eligible eligible_then : Bool) (constraints constraints_then : List String) (d e : Assessment)
    → 1 ≤ unit
    → family_named key ≡ some family
    → LearnsAll unit old new family.weights
    → Validated unit new
    → assess unit key old eligible constraints ≡ ok d
    → assess unit key new eligible_then constraints_then ≡ ok e
    → (d.low ≤ e.low)
      × (e.high ≤ d.high)
      × ((s : ℕ) → e.score ≡ some s → (d.low ≤ s) × (s ≤ d.high))
unfolding assess assessed
narrows_range unit key family old new el el2 cs cs2 d e u found learns v h k =
    let ws = family.weights in
    let ranged = assess-IsRanged unit key new el2 cs2 e u v k in
    let before : assessed unit family el cs (factor_rows old ws) ≡ d = ground arith in
    let after : assessed unit family el2 cs2 (factor_rows new ws) ≡ e = ground arith in
    let low : d.low ≤ e.low =
      subst (λ (a : Assessment). a.low ≤ e.low) before
        (subst (λ (a : Assessment). (assessed unit family el cs (factor_rows old ws)).low ≤ a.low)
          after (rounded_mono unit _ _ u (floors unit old new ws learns))) in
    let high : e.high ≤ d.high =
      subst (λ (a : Assessment). e.high ≤ a.high) before
        (subst (λ (a : Assessment). a.high ≤ (assessed unit family el cs (factor_rows old ws)).high)
          after (rounded_mono unit _ _ u (ceilings unit old new ws learns))) in
    (
      low,
      high,
      λ s scored. (
        omega (arith, low, (ranged.exact s scored).0),
        omega (arith, high, (ranged.exact s scored).1),
      ),
    )
