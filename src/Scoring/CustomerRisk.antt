-- ===== src/Scoring/CustomerRisk.antt =====
-- `overall_customer_risk` of modules/scoring/families.py.
use Prim.Native.Nat.{min, max}
use btx_omni_prospect.Prelude.{
  ℕ, ◌+◌, ◌*◌, String, Bool, false, not, ◌&&◌, ◌||◌, Option, none, some, List, if◌then◌else◌, leb,
  ltb,
}
use btx_omni_prospect.Prelude.Result.{Result, ok, err, raise_if, ◌>>=◌, ◌>>◌}
use btx_omni_prospect.Scoring.Rubric.{at_most, has_any, is_given, rounded, score_band}

-- `ValueError`, by message, and the `InvalidOperation` of a decimal made of None.
pub data RiskError : Type 0 where
  invalid_indices invalid_endpoint range_reversed invalid_confidence invalid_severity : RiskError
  conflicting_copies invalid_decimal : RiskError

-- The range that stands in for a missing internal score. An end may be missing from it (none), or be
-- there as None (some none).
pub record InternalRange : Type 0 where
  pub low : Option (Option ℕ)
  pub high : Option (Option ℕ)

-- Indices are numbers of units; one point is `unit` units.
pub record RiskInputs : Type 0 where
  pub current_customer : Bool
  pub internal_score : Option ℕ
  pub public_score : Option ℕ
  pub public_confirmed : Bool
  pub convergence_evidence_ids : List String
  pub critical_override_evidence_ids : List String
  pub internal_range : InternalRange

-- The scores and the range are in hundredths.
pub record CustomerRisk : Type 0 where
  pub score : Option ℕ
  pub score_range : Option (ℕ × ℕ)
  pub status : String
  pub band : Option String
  pub convergence_uplift : ℕ
  pub execution_blocked : Bool

abbrev pub reaches : ℕ → ℕ → Option ℕ → Bool
reaches unit points none = false
reaches unit points (some n) = leb (points * unit) n

abbrev pub when : Bool → ℕ → ℕ
when test n = if test then n else 0

-- The floors that apply, in tenths of a unit, and 0 where none does.
unfoldable pub floor_value : ℕ → RiskInputs → ℕ
floor_value unit x =
    max (when (x.public_confirmed && reaches unit 85 x.public_score) (750 * unit)) (
      max (when (reaches unit 85 x.internal_score) (800 * unit))
        (when (has_any x.critical_override_evidence_ids) (850 * unit)))

abbrev pub has_floor : ℕ → RiskInputs → Bool
has_floor unit x =
    x.public_confirmed && reaches unit 85 x.public_score
    || reaches unit 85 x.internal_score
    || has_any x.critical_override_evidence_ids

abbrev pub is_scored : RiskInputs → Bool
is_scored x =
    x.current_customer && is_given x.internal_score && is_given x.public_score && x.public_confirmed

-- In points.
unfoldable pub uplift_of : ℕ → RiskInputs → ℕ
uplift_of unit x =
    when
      (is_scored x
        && reaches unit 60 x.internal_score
        && reaches unit 60 x.public_score
        && has_any x.convergence_evidence_ids)
      5

abbrev pub index : Option ℕ → ℕ
index none = 0
index (some n) = n

-- .60 * internal_score + .40 * public_score + uplift, in tenths of a unit.
unfoldable pub raw_total : ℕ → RiskInputs → Option ℕ
raw_total unit x =
    if is_scored x
    then some
        (6 * index x.internal_score + 4 * index x.public_score + 10 * (uplift_of unit x * unit))
    else none

unfoldable pub risk_score : ℕ → RiskInputs → Option ℕ
risk_score unit x = elim (raw_total unit x) [
  | none ↦ none
  | some raw ↦
      if has_floor unit x then some (min (1000 * unit) (max raw (floor_value unit x))) else some raw
]

-- The decimal of `supplied.get(side, default)`
abbrev pub supplied_end : Option (Option ℕ) → ℕ → Result RiskError ℕ
supplied_end none default = ok default
supplied_end (some none) default = err invalid_decimal
supplied_end (some (some n)) default = ok n

-- `bound`, of an end that is 0 or 100 where nothing is supplied.
unfoldable pub bound : ℕ → Option ℕ → Option (Option ℕ) → ℕ → Result RiskError ℕ
bound unit (some value) supplied default = ok value
bound unit none supplied default = do
  result ← supplied_end supplied default
  raise_if (not (leb result (100 * unit))) invalid_endpoint
  ok result

-- The total with its floors, of an internal and a public index.
unfoldable pub total_of : ℕ → RiskInputs → ℕ → ℕ → ℕ
total_of unit x internal public =
    let converging =
      leb (60 * unit) internal && leb (60 * unit) public && has_any x.convergence_evidence_ids in
    let value = 6 * internal + 4 * public + when converging (50 * unit) in
    min (1000 * unit) (
      max value (
        max (when (leb (85 * unit) internal) (800 * unit)) (
          max (when (leb (85 * unit) public) (750 * unit))
            (when (has_any x.critical_override_evidence_ids) (850 * unit)))))

abbrev pub confirmed_score : RiskInputs → Option ℕ
confirmed_score x = if x.public_confirmed then x.public_score else none

-- One end of the range, in hundredths.
unfoldable pub range_end : ℕ → RiskInputs → Option (Option ℕ) → ℕ → Result RiskError ℕ
range_end unit x supplied default = do
  internal ← bound unit x.internal_score supplied default
  public ← bound unit (confirmed_score x) none default
  ok (rounded unit (10 * total_of unit x internal public))

abbrev pub risk_status : Bool → Bool → String
risk_status current eligible =
    if not current then "INELIGIBLE" else if eligible then "SCORED" else "INSUFFICIENT_EVIDENCE"

abbrev pub rounded_score : ℕ → Option ℕ → Option ℕ
rounded_score unit none = none
rounded_score unit (some s) = some (rounded unit (10 * s))

-- The band is that of the score before it is rounded; the range is a current customer's only.
unfoldable pub customer_risk : ℕ → RiskInputs → ℕ → ℕ → CustomerRisk
customer_risk unit x low high = record {
  score = rounded_score unit (risk_score unit x);
  score_range = if x.current_customer then some (low, high) else none;
  status = risk_status x.current_customer (is_scored x);
  band = score_band (10 * unit) "overall_customer_risk" (risk_score unit x);
  convergence_uplift = uplift_of unit x;
  execution_blocked = has_any x.critical_override_evidence_ids;
}

-- `overall_customer_risk`
unfoldable pub overall_customer_risk : ℕ → RiskInputs → Result RiskError CustomerRisk
overall_customer_risk unit x = do
  raise_if (not (at_most (100 * unit) x.internal_score && at_most (100 * unit) x.public_score))
      invalid_indices
  low ← range_end unit x x.internal_range.low 0
  high ← range_end unit x x.internal_range.high (100 * unit)
  raise_if (ltb high low) range_reversed
  ok (customer_risk unit x low high)
