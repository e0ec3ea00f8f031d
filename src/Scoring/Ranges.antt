-- ===== src/Scoring/Ranges.antt =====
-- The range of an assessment.
use native.Mathlib.Nat.{mul-le-mul_right, mul-add}
use btx_omni_prospect.Prelude.{
  ℕ, ◌+◌, ◌*◌, ◌≤◌, String, Bool, true, Option, none, some, List, [], ◌∷◌, ◌≡◌, refl, ◌∙◌, ap,
  subst, All, ◌==◌, nat_eq, string_eq, arith, inl, inr, Bool-cases, Option-cases,
}
use btx_omni_prospect.Prelude.Dict.{lookup}
use btx_omni_prospect.Prelude.Result.{ok}
use btx_omni_prospect.Scoring.Rubric.{
  Family, FactorInput, make_factor_input, family_named, rounded, at_most, ordered_bounds,
  same_presence,
}
use btx_omni_prospect.Scoring.Assessment.{
  Factor, Assessment, factor_row, factor_rows, is_complete, weight_where, total_weight, floor_of,
  ceiling_of, weighted, assessed, assess,
}
use btx_omni_prospect.Scoring.Rounding.{rounded_mono, rounded-le}

-- What `make_factor_input` leaves of the bounds.
pub record IsInput (unit : ℕ) (v : FactorInput) : Type 0 where
  pub points : at_most (100 * unit) v.points ≡ true
  pub paired : same_presence v.lower_bound v.upper_bound ≡ true
  pub ordered : ordered_bounds (100 * unit) v.lower_bound v.upper_bound ≡ true

pub make_factor_input-IsInput :
    (unit : ℕ) (v w : FactorInput) → make_factor_input unit v ≡ ok w → IsInput unit w
unfolding make_factor_input
make_factor_input-IsInput unit v w h = ground arith

pub record IsRow (unit : ℕ) (f : Factor) : Type 0 where
  pub ordered : floor_of f ≤ ceiling_of unit f
  pub bounded : ceiling_of unit f ≤ 100 * unit

abbrev pub IsInput? : ℕ → Option FactorInput → Type 0
IsInput? unit none = Unit
IsInput? unit (some v) = IsInput unit v

pub factor_row-IsRow :
    (unit : ℕ) (name : String) (weight : ℕ) (o : Option FactorInput)
    → IsInput? unit o
    → IsRow unit (factor_row name weight o)
unfolding factor_row floor_of ceiling_of is_complete
factor_row-IsRow unit name weight none h = record { ordered = ground arith; bounded = ground arith }
factor_row-IsRow unit name weight (some v) h = record {
  ordered = ground (arith, h.points, h.paired, h.ordered);
  bounded = ground (arith, h.points, h.paired, h.ordered);
}

lookup-IsInput :
    (unit : ℕ) (name : String) (inputs : List (String × FactorInput))
    → All (λ (i : String × FactorInput). IsInput unit i.1) inputs
    → IsInput? unit (lookup name inputs)
unfolding lookup
lookup-IsInput unit name [] h = tt
lookup-IsInput unit name ((k, v) ∷ rest) (first, others) = elim (Bool-cases (k == name)) [
  | inl y ↦ rw y first
  | inr n ↦ rw n (lookup-IsInput unit name rest others)
]

pub factor_rows-IsRow :
    (unit : ℕ) (inputs : List (String × FactorInput)) (weights : List (String × ℕ))
    → All (λ (i : String × FactorInput). IsInput unit i.1) inputs
    → All (IsRow unit) (factor_rows inputs weights)
unfolding factor_rows
factor_rows-IsRow unit inputs [] h = tt
factor_rows-IsRow unit inputs ((name, weight) ∷ rest) h = (
  factor_row-IsRow unit name weight (lookup name inputs) (lookup-IsInput unit name inputs h),
  factor_rows-IsRow unit inputs rest h,
)

abbrev all_weights : List Factor → ℕ
all_weights fs = weight_where (λ f. true) fs

row-weight :
    (name : String) (weight : ℕ) (o : Option FactorInput)
    → (factor_row name weight o).weight ≡ weight
unfolding factor_row
row-weight name weight none = refl
row-weight name weight (some v) = refl

all_weights-rows :
    (inputs : List (String × FactorInput)) (weights : List (String × ℕ))
    → all_weights (factor_rows inputs weights) ≡ total_weight weights
unfolding factor_rows
all_weights-rows inputs [] = refl
all_weights-rows inputs ((name, weight) ∷ rest) =
    let same : (factor_row name weight (lookup name inputs)).weight ≡ weight =
      row-weight name weight (lookup name inputs) in
    omega (arith, same, all_weights-rows inputs rest)

module _ (unit : ℕ) where
  pub weighted-ordered :
      (fs : List Factor)
      → All (IsRow unit) fs
      → weighted floor_of fs ≤ weighted (ceiling_of unit) fs
  unfolding weighted
  weighted-ordered [] h = omega arith
  weighted-ordered (f ∷ fs) (r, rest) =
      omega (arith, mul-le-mul_right f.weight r.ordered, weighted-ordered fs rest)

  weighted-bounded :
      (fs : List Factor)
      → All (IsRow unit) fs
      → weighted (ceiling_of unit) fs ≤ 100 * unit * all_weights fs
  unfolding weighted
  weighted-bounded [] h = omega arith
  weighted-bounded (f ∷ fs) (r, rest) = omega (
    arith,
    mul-le-mul_right f.weight r.bounded,
    weighted-bounded fs rest,
    mul-add (100 * unit) f.weight (all_weights fs),
  )

  -- The range is no wider than the weight of the factors that are not complete.
  weighted-width :
      (fs : List Factor)
      → All (IsRow unit) fs
      → weighted (ceiling_of unit) fs + 100 * unit * weight_where is_complete fs
        ≤ weighted floor_of fs + 100 * unit * all_weights fs
  unfolding weighted
  weighted-width [] h = omega arith
  weighted-width (f ∷ fs) (r, rest) =
      let ih = weighted-width fs rest in
      let top = mul-add (100 * unit) f.weight (all_weights fs) in
      elim (Bool-cases (is_complete f)) [
        | inl y ↦
            let same : ceiling_of unit f ≡ floor_of f = unfold ceiling_of floor_of in rw y refl in
            let once : ceiling_of unit f * f.weight ≡ floor_of f * f.weight =
              ap (λ n. n * f.weight) same in
            rw y (
              omega
                (arith, ih, top, once, mul-add (100 * unit) f.weight (weight_where is_complete fs)))
        | inr n ↦ rw n (omega (arith, ih, top, mul-le-mul_right f.weight r.bounded))
      ]

-- The range of an assessment, and its score where it has one.
pub record IsRanged (d : Assessment) : Type 0 where
  pub ordered : d.low ≤ d.high
  pub bounded : d.high ≤ 10000
  pub exact : (s : ℕ) → d.score ≡ some s → (d.low ≡ s) × (d.high ≡ s)

assessed-IsRanged :
    (unit : ℕ) (family : Family) (eligible : Bool) (constraints : List String) (fs : List Factor)
    → 1 ≤ unit
    → all_weights fs ≡ 100
    → All (IsRow unit) fs
    → IsRanged (assessed unit family eligible constraints fs)
unfolding assessed
assessed-IsRanged unit family eligible constraints fs u total rows =
    let lower = weighted floor_of fs in
    let upper = weighted (ceiling_of unit) fs in
    let top : 100 * unit * all_weights fs ≡ 10000 * unit =
      ap (λ n. 100 * unit * n) total ∙ omega arith in
    let order = weighted-ordered unit fs rows in
    record {
      ordered = rounded_mono unit lower upper u order;
      bounded = rounded-le unit upper 10000 u (omega (arith, top, weighted-bounded unit fs rows));
      exact = λ s h.
          let complete : weight_where is_complete fs ≡ 100 = ground arith in
          let usable : 100 * unit * weight_where is_complete fs ≡ 10000 * unit =
            ap (λ n. 100 * unit * n) complete ∙ omega arith in
          let same : upper ≡ lower =
            omega (arith, order, top, usable, weighted-width unit fs rows) in
          let low_is : rounded unit lower ≡ s = ground arith in
          (low_is, ap (rounded unit) same ∙ low_is);
    }

-- The inputs that `make_factor_input` returns as they are.
abbrev pub Validated : ℕ → List (String × FactorInput) → Type 0
Validated unit inputs =
    All (λ (i : String × FactorInput). make_factor_input unit i.1 ≡ ok i.1) inputs

Validated-IsInput :
    (unit : ℕ) (inputs : List (String × FactorInput))
    → Validated unit inputs
    → All (λ (i : String × FactorInput). IsInput unit i.1) inputs
Validated-IsInput unit [] h = tt
Validated-IsInput unit ((name, v) ∷ rest) (first, others) =
    (make_factor_input-IsInput unit v v first, Validated-IsInput unit rest others)

-- An assessment of inputs that were validated has a range from a low to a high of at most 100, and where
-- it has a score, that is both ends of the range.
pub assess-IsRanged :
    (unit : ℕ) (key : String) (inputs : List (String × FactorInput)) (eligible : Bool)
    (constraints : List String) (d : Assessment)
    → 1 ≤ unit
    → Validated unit inputs
    → assess unit key inputs eligible constraints ≡ ok d
    → IsRanged d
unfolding assess
assess-IsRanged unit key inputs eligible constraints d u v h =
    elim (Option-cases (family_named key)) [
      | inl absent ↦ ground arith
      | inr (family, found) ↦
          let rows = factor_rows inputs family.weights in
          let total : total_weight family.weights ≡ 100 = ground arith in
          let made : assessed unit family eligible constraints rows ≡ d = ground arith in
          subst IsRanged made (
            assessed-IsRanged unit family eligible constraints rows u
              (all_weights-rows inputs family.weights ∙ total)
              (factor_rows-IsRow unit inputs family.weights (Validated-IsInput unit inputs v)))
    ]
