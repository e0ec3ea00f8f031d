-- ===== src/Scoring/Floors.antt =====
-- The range and the floors of the overall customer risk.
use Prim.Native.Nat.{max}
use btx_omni_prospect.Prelude.{
  ℕ, ◌*◌, ◌≤◌, Bool, true, false, ◌&&◌, Option, none, some, ◌≡◌, subst, arith, inl, inr, Bool-cases,
  Option-cases, leb, ap, if◌then◌else◌,
}
use btx_omni_prospect.Prelude.Result.{ok}
use btx_omni_prospect.Scoring.Rubric.{at_most, has_any, rounded}
use btx_omni_prospect.Scoring.CustomerRisk.{
  RiskInputs, CustomerRisk, when, floor_value, is_scored, uplift_of, raw_total, risk_score, bound,
  total_of, confirmed_score, range_end, customer_risk, overall_customer_risk,
}
use btx_omni_prospect.Scoring.Rounding.{rounded_mono, rounded-le, le-rounded}

when_mono : (a b : Bool) (n : ℕ) → (a ≡ true → b ≡ true) → when a n ≤ when b n
when_mono a b n h = ground (arith, h)

max_mono : (a b c d : ℕ) → a ≤ b → c ≤ d → max a c ≤ max b d
max_mono a b c d h k = omega arith

leb_mono : (t i j : ℕ) → i ≤ j → leb t i ≡ true → leb t j ≡ true
leb_mono t i j h k = ground arith

both_mono :
    (a b c d e : Bool)
    → (a ≡ true → b ≡ true)
    → (c ≡ true → d ≡ true)
    → (a && c && e) ≡ true
    → (b && d && e) ≡ true
both_mono a b c d e h k y = ground (arith, h, k)

module _ (unit : ℕ) (x : RiskInputs) where
  total_of_mono : (i j p q : ℕ) → i ≤ j → p ≤ q → total_of unit x i p ≤ total_of unit x j q
  unfolding total_of
  total_of_mono i j p q h k =
      let meets : ℕ → ℕ → Bool =
        λ a b. leb (60 * unit) a && leb (60 * unit) b && has_any x.convergence_evidence_ids in
      let uplift = when_mono (meets i p) (meets j q) (50 * unit) (
        both_mono (leb (60 * unit) i) (leb (60 * unit) j) (leb (60 * unit) p) (leb (60 * unit) q)
          (has_any x.convergence_evidence_ids) (leb_mono (60 * unit) i j h)
          (leb_mono (60 * unit) p q k)) in
      let internal =
        when_mono (leb (85 * unit) i) (leb (85 * unit) j) (800 * unit)
          (leb_mono (85 * unit) i j h) in
      let public =
        when_mono (leb (85 * unit) p) (leb (85 * unit) q) (750 * unit)
          (leb_mono (85 * unit) p q k) in
      omega (arith, uplift, internal, public)

  total_of-le : (i p : ℕ) → total_of unit x i p ≤ 1000 * unit
  unfolding total_of
  total_of-le i p = omega arith

  unscored : is_scored x ≡ false → risk_score unit x ≡ none
  unfolding risk_score raw_total
  unscored n = ground arith

  -- The two ways to the score of a customer whose indices are there agree.
  score_total :
      (i p : ℕ)
      → x.internal_score ≡ some i
      → x.public_score ≡ some p
      → x.public_confirmed ≡ true
      → x.current_customer ≡ true
      → risk_score unit x ≡ some (total_of unit x i p)
  unfolding risk_score raw_total total_of uplift_of floor_value
  score_total i p hi hp hc hx = elim (Bool-cases (leb (85 * unit) i)) [
    | inl a ↦ ground arith
    | inr b ↦ ground arith
  ]

-- An end of the internal range that is not None, or its default.
abbrev pub end_or : Option (Option ℕ) → ℕ → ℕ
end_or none default = default
end_or (some none) default = default
end_or (some (some n)) default = n

abbrev pub is_null : Option (Option ℕ) → Bool
is_null (some none) = true
is_null _ = false

-- Indices of at most 100, and ends of the internal range that are not None and in order.
pub record IsGoverned (unit : ℕ) (x : RiskInputs) : Type 0 where
  pub internal : at_most (100 * unit) x.internal_score ≡ true
  pub public_index : at_most (100 * unit) x.public_score ≡ true
  pub low_given : is_null x.internal_range.low ≡ false
  pub high_given : is_null x.internal_range.high ≡ false
  pub ordered : end_or x.internal_range.low 0 ≤ end_or x.internal_range.high (100 * unit)
  pub bounded : end_or x.internal_range.high (100 * unit) ≤ 100 * unit

-- An index that stands for a score, or the end that stands in for it.
abbrev standing : Option ℕ → Option (Option ℕ) → ℕ → ℕ
standing none supplied default = end_or supplied default
standing (some n) supplied default = n

-- The range and the score of the risk of a customer, or of no customer.
pub record IsPlaced (current : Bool) (r : CustomerRisk) : Type 0 where
  pub shown :
      current ≡ true
      → (low high : ℕ) × (r.score_range ≡ some (low, high)) × (low ≤ high) × (high ≤ 10000)
  pub hidden : current ≡ false → r.score_range ≡ none
  pub exact : (s : ℕ) → r.score ≡ some s → r.score_range ≡ some (s, s)

module _ (unit : ℕ) (x : RiskInputs) (u : 1 ≤ unit) (v : IsGoverned unit x) where
  abbrev end_of : Option (Option ℕ) → ℕ → ℕ
  end_of supplied default = rounded unit (
      10
      * total_of unit x (standing x.internal_score supplied default)
          (standing (confirmed_score x) none default))

  range_end-eq :
      (supplied : Option (Option ℕ)) (default : ℕ)
      → is_null supplied ≡ false
      → end_or supplied default ≤ 100 * unit
      → default ≤ 100 * unit
      → range_end unit x supplied default ≡ ok (end_of supplied default)
  unfolding range_end bound
  range_end-eq supplied default g h k = ground arith

  low_end : ℕ
  low_end = end_of x.internal_range.low 0

  high_end : ℕ
  high_end = end_of x.internal_range.high (100 * unit)

  ends_ordered : low_end ≤ high_end
  unfolding low_end high_end
  ends_ordered =
      let i : standing x.internal_score x.internal_range.low 0
          ≤ standing x.internal_score x.internal_range.high (100 * unit) =
        ground (arith, v.ordered) in
      let p : standing (confirmed_score x) none 0 ≤ standing (confirmed_score x) none (100 * unit) =
        ground arith in
      rounded_mono unit _ _ u (omega (arith, total_of_mono unit x _ _ _ _ i p))

  ends_bounded : high_end ≤ 10000
  unfolding high_end
  ends_bounded = rounded-le unit _ 10000 u (omega (arith, total_of-le unit x _ _))

  overall-eq : overall_customer_risk unit x ≡ ok (customer_risk unit x low_end high_end)
  unfolding overall_customer_risk low_end high_end
  overall-eq = ground (
    arith,
    v.internal,
    v.public_index,
    range_end-eq x.internal_range.low 0 v.low_given (omega (arith, v.ordered, v.bounded))
        (omega arith),
    range_end-eq x.internal_range.high (100 * unit) v.high_given v.bounded (omega arith),
    ends_ordered,
  )

  scored_exact :
      (s : ℕ)
      → (customer_risk unit x low_end high_end).score ≡ some s
      → (customer_risk unit x low_end high_end).score_range ≡ some (s, s)
  unfolding customer_risk low_end high_end
  scored_exact s h = elim (Bool-cases (is_scored x)) [
    | inr n ↦ ground (arith, unscored unit x n)
    | inl y ↦ elim (Option-cases x.internal_score) [
      | inl absent ↦ ground arith
      | inr (i, hi) ↦ elim (Option-cases x.public_score) [
        | inl absent ↦ ground arith
        | inr (p, hp) ↦
            let total = score_total unit x i p hi hp (ground arith) (ground arith) in
            ground (arith, total)
      ]
    ]
  ]

-- For governed inputs the calculation never raises: the range of a current customer goes from a low to a
-- high of at most 100, no one else has a range, and where there is a score, it is both ends of the
-- range.
pub overall_customer_risk-IsPlaced :
    (unit : ℕ) (x : RiskInputs)
    → 1 ≤ unit
    → IsGoverned unit x
    → (r : CustomerRisk) × (overall_customer_risk unit x ≡ ok r) × IsPlaced x.current_customer r
unfolding customer_risk
overall_customer_risk-IsPlaced unit x u v = (
  customer_risk unit x (low_end unit x u v) (high_end unit x u v),
  overall-eq unit x u v,
  record {
    shown = λ h.
        let range =
          ap (λ b. if b then some (low_end unit x u v, high_end unit x u v) else none) h in
        (
          low_end unit x u v,
          high_end unit x u v,
          range,
          ends_ordered unit x u v,
          ends_bounded unit x u v,
        );
    hidden = λ h. ground arith;
    exact = scored_exact unit x u v;
  },
)

score-total :
    (unit : ℕ) (x : RiskInputs) (r : CustomerRisk) (s i p : ℕ)
    → overall_customer_risk unit x ≡ ok r
    → r.score ≡ some s
    → x.internal_score ≡ some i
    → x.public_score ≡ some p
    → rounded unit (10 * total_of unit x i p) ≡ s
unfolding overall_customer_risk customer_risk
score-total unit x r s i p h k hi hp = elim (Bool-cases (is_scored x)) [
  | inr n ↦ ground (arith, unscored unit x n)
  | inl y ↦
      let total = score_total unit x i p hi hp (ground arith) (ground arith) in
      ground (arith, total)
]

-- Good news in one index does not dilute a critical one: a score is at least 80 where the internal index
-- reaches 85, at least 75 where the public index does, and at least 85 where a critical override
-- has evidence.
pub floors_hold :
    (unit : ℕ) (x : RiskInputs) (r : CustomerRisk) (s i p : ℕ)
    → 1 ≤ unit
    → overall_customer_risk unit x ≡ ok r
    → r.score ≡ some s
    → x.internal_score ≡ some i
    → x.public_score ≡ some p
    → (85 * unit ≤ i → 8000 ≤ s)
      × (85 * unit ≤ p → 7500 ≤ s)
      × (has_any x.critical_override_evidence_ids ≡ true → 8500 ≤ s)
unfolding total_of
floors_hold unit x r s i p u h k hi hp =
    let total = score-total unit x r s i p h k hi hp in
    let least : (n : ℕ) → n * unit ≤ 10 * total_of unit x i p → n ≤ s =
      λ n b. subst (λ m. n ≤ m) total (le-rounded unit (10 * total_of unit x i p) n u b) in
    (λ b. least 8000 (ground arith), λ b. least 7500 (ground arith), λ b. least 8500 (ground arith))
