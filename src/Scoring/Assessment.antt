-- ===== src/Scoring/Assessment.antt =====
-- `assess` of modules/scoring/families.py.
use Prim.Native.Nat.{min}
use btx_omni_prospect.Prelude.{
  ℕ, ◌+◌, ◌*◌, String, Bool, true, false, not, ◌&&◌, Option, none, some, List, [], ◌∷◌, all, any,
  ◌==◌, nat_eq, string_eq, if◌then◌else◌, leb,
}
use btx_omni_prospect.Prelude.Dict.{lookup}
use btx_omni_prospect.Prelude.Result.{Result, ok, err, raise_if, ◌>>◌}
use btx_omni_prospect.Scoring.Rubric.{
  Family, FactorInput, ScoringError, unknown_family, unknown_factor, invalid_family, family_named,
  has_any, is_within, rounded, score_band,
}

-- A row of `factors`; the columns for display are computed from the input.
pub record Factor : Type 0 where
  pub key : String
  pub weight : ℕ
  pub points : Option ℕ
  pub required_fields : List String
  pub observed_fields : List String
  pub lower_bound : Option ℕ
  pub upper_bound : Option ℕ
  pub evidence_state : String

abbrev pub current_points : FactorInput → Option ℕ
current_points v = if v.evidence_state == "CURRENT" then v.points else none

abbrev pub implied_fields : String → Option ℕ → List String
implied_fields name none = []
implied_fields name (some p) = name ∷ []

unfoldable pub factor_row : String → ℕ → Option FactorInput → Factor
factor_row name weight none = record {
  key = name;
  weight = weight;
  points = none;
  required_fields = name ∷ [];
  observed_fields = [];
  lower_bound = none;
  upper_bound = none;
  evidence_state = "UNKNOWN";
}
factor_row name weight (some v) = record {
  key = name;
  weight = weight;
  points = current_points v;
  required_fields = if has_any v.required_fields then v.required_fields else name ∷ [];
  observed_fields =
      if has_any v.required_fields
      then v.observed_fields
      else implied_fields name (current_points v);
  lower_bound = v.lower_bound;
  upper_bound = v.upper_bound;
  evidence_state = v.evidence_state;
}

unfoldable pub factor_rows : List (String × FactorInput) → List (String × ℕ) → List Factor
factor_rows inputs [] = []
factor_rows inputs ((name, weight) ∷ rest) =
    factor_row name weight (lookup name inputs) ∷ factor_rows inputs rest

abbrev pub has_points : Factor → Bool
has_points f = elim f.points [ none ↦ false | some p ↦ true ]

unfoldable pub is_complete : Factor → Bool
is_complete f = has_points f && is_within f.required_fields f.observed_fields

abbrev pub weight_where : (Factor → Bool) → List Factor → ℕ
weight_where test [] = 0
weight_where test (f ∷ fs) =
    let rest = weight_where test fs in if test f then f.weight + rest else rest

abbrev pub total_weight : List (String × ℕ) → ℕ
total_weight [] = 0
total_weight ((name, weight) ∷ rest) = weight + total_weight rest

abbrev pub or_value : Option ℕ → ℕ → ℕ
or_value none n = n
or_value (some m) n = m

-- The least and the greatest that a factor may turn out to be.
unfoldable pub floor_of : Factor → ℕ
floor_of f =
    if is_complete f
    then or_value f.points 0
    else if f.evidence_state == "CURRENT"
    then or_value f.lower_bound 0
    else 0

unfoldable pub ceiling_of : ℕ → Factor → ℕ
ceiling_of unit f =
    if is_complete f
    then or_value f.points 0
    else if f.evidence_state == "CURRENT"
    then or_value f.upper_bound (100 * unit)
    else 100 * unit

unfoldable pub weighted : (Factor → ℕ) → List Factor → ℕ
weighted value [] = 0
weighted value (f ∷ fs) = value f * f.weight + weighted value fs

-- Scores and the range are in hundredths; the coverages are percentages.
pub record Assessment : Type 0 where
  pub weighted_score : Option ℕ
  pub band : Option String
  pub weighted_band : Option String
  pub score : Option ℕ
  pub low : ℕ
  pub high : ℕ
  pub status : String
  pub coverage : ℕ
  pub factor_coverage : ℕ
  pub missing : List String
  pub factors : List Factor

abbrev pub missing_factors : List Factor → List String
missing_factors [] = []
missing_factors (f ∷ fs) =
    let rest = missing_factors fs in if has_points f then rest else f.key ∷ rest

abbrev pub status_of : Bool → Bool → Option ℕ → String
status_of true eligible score = "BLOCKED"
status_of false false score = "INELIGIBLE"
status_of false true none = "INSUFFICIENT_EVIDENCE"
status_of false true (some s) = "SCORED"

-- The assessment of the rows of a family.
unfoldable pub assessed : ℕ → Family → Bool → List String → List Factor → Assessment
assessed unit family eligible constraints rows =
    let usable_weight = weight_where is_complete rows in
    let known_weight = weight_where has_points rows in
    let blocked = has_any constraints in
    let usable =
      eligible && leb family.minimum_coverage (min usable_weight known_weight) && not blocked in
    let lower = weighted floor_of rows in
    let full : Option ℕ = if usable_weight == 100 then some (rounded unit lower) else none in
    let score : Option ℕ = if usable then full else none in
    record {
      weighted_score = full;
      band = if blocked then some "BLOCKED" else score_band 100 family.key score;
      weighted_band = elim full [ none ↦ none | some s ↦ score_band 100 family.key (some s) ];
      score = score;
      low = rounded unit lower;
      high = rounded unit (weighted (ceiling_of unit) rows);
      status = status_of blocked eligible score;
      coverage = usable_weight;
      factor_coverage = known_weight;
      missing = missing_factors rows;
      factors = rows;
    }

abbrev pub is_expected : List (String × ℕ) → String × FactorInput → Bool
is_expected weights (name, v) = any (λ w. w.0 == name) weights

unfoldable pub assess :
    ℕ → String → List (String × FactorInput) → Bool → List String → Result ScoringError Assessment
assess unit key inputs eligible constraints = elim (family_named key) [
  | none ↦ err unknown_family
  | some family ↦ do
    raise_if (not (all (is_expected family.weights) inputs)) unknown_factor
    raise_if (not (total_weight family.weights == 100)) invalid_family
    ok (assessed unit family eligible constraints (factor_rows inputs family.weights))
]
