-- ===== src/Scoring/RiskExamples.antt =====
-- An assessment, a customer's risk and two public events, and each theorem at them.
use btx_omni_prospect.Prelude.{
  ℕ, ◌≤◌, String, true, false, none, some, List, [], ◌∷◌, ◌≡◌, refl, arith, string_eq, strip,
}
use btx_omni_prospect.Prelude.Dict.{lookup}
use btx_omni_prospect.Prelude.Dict
use btx_omni_prospect.Prelude.Sorting
use btx_omni_prospect.Prelude.Result.{ok, err}
use btx_omni_prospect.Scoring.Rubric.{
  Family, FactorInput, family_named, make_factor_input, rounded, score_band, reached, has_any,
  invalid_bounds,
}
use btx_omni_prospect.Scoring.Assessment.{
  Assessment, factor_row, factor_rows, is_complete, floor_of, ceiling_of, weighted, assessed,
  assess,
}
use btx_omni_prospect.Scoring.Ranges.{Validated, IsRanged, assess-IsRanged}
use btx_omni_prospect.Scoring.Narrowing.{kept, seen, settled, LearnsAll, narrows_range}
use btx_omni_prospect.Scoring.CustomerRisk.{
  RiskInputs, CustomerRisk, floor_value, uplift_of, raw_total, risk_score, bound, total_of,
  range_end, customer_risk, overall_customer_risk,
}
use btx_omni_prospect.Scoring.Floors.{
  IsGoverned, IsPlaced, overall_customer_risk-IsPlaced, floors_hold,
}
use btx_omni_prospect.Scoring.PublicRisk.{
  RiskEvent, Rollup, enter, consider, consider_all, rolled_up, public_risk_rollup,
}
use btx_omni_prospect.Scoring.Severity.{IsRolledUp, public_risk_rollup-IsRolledUp}

abbrev partial_access : FactorInput
partial_access = record {
  points = none;
  evidence_ids = "e1" ∷ [];
  reason = "Two of three buyers are known.";
  required_fields = "buyers" ∷ [];
  observed_fields = [];
  lower_bound = some 40;
  upper_bound = some 80;
  evidence_state = "CURRENT";
}

abbrev settled_access : FactorInput
settled_access = record partial_access {
  points = some 60;
  observed_fields = "buyers" ∷ [];
  lower_bound = none;
  upper_bound = none;
}

abbrev seen_fit : FactorInput
seen_fit = record settled_access { points = some 90; required_fields = []; observed_fields = [] }

abbrev pursuit : Family
pursuit = record {
  key = "pwin";
  weights =
      ("buyer_access", 25)
      ∷ ("competitive_position", 20)
      ∷ ("requirement_fit", 20)
      ∷ ("budget_process", 15)
      ∷ ("price_competitiveness", 10)
      ∷ ("track_record", 10)
      ∷ [];
  minimum_coverage = 100;
}

abbrev first_inputs : List (String × FactorInput)
first_inputs = ("buyer_access", partial_access) ∷ []

abbrev later_inputs : List (String × FactorInput)
later_inputs = ("buyer_access", settled_access) ∷ ("requirement_fit", seen_fit) ∷ []

scoring_program : Unit {0}
unfolding assess assessed family_named factor_rows factor_row is_complete floor_of ceiling_of
    weighted rounded score_band reached lookup overall_customer_risk customer_risk range_end bound
    total_of risk_score raw_total uplift_of floor_value public_risk_rollup rolled_up consider_all
    consider enter Dict.insert Sorting.sorted Sorting.insert
scoring_program = tt

pursuit_is_family : family_named "pwin" ≡ some pursuit
unfolding family_named
pursuit_is_family = refl

abbrev before : Assessment
before = assessed 1 pursuit true [] (factor_rows first_inputs pursuit.weights)

abbrev after : Assessment
after = assessed 1 pursuit true [] (factor_rows later_inputs pursuit.weights)

before_range :
    (before.low ≡ 1000) × (before.high ≡ 9500) × (before.status ≡ "INSUFFICIENT_EVIDENCE")
unfolding scoring_program
before_range = (refl, refl, refl)

after_range : (after.low ≡ 3300) × (after.high ≡ 8800)
unfolding scoring_program
after_range = (refl, refl)

before_assessed : assess 1 "pwin" first_inputs true [] ≡ ok before
unfolding scoring_program
before_assessed = refl

after_assessed : assess 1 "pwin" later_inputs true [] ≡ ok after
unfolding scoring_program
after_assessed = refl

first-Validated : Validated 1 first_inputs
unfolding make_factor_input strip
first-Validated = (refl, tt)

later-Validated : Validated 1 later_inputs
unfolding make_factor_input strip
later-Validated = (refl, (refl, tt))

assess-IsRanged_example : IsRanged before
assess-IsRanged_example =
    assess-IsRanged 1 "pwin" first_inputs true [] before (omega arith) first-Validated
      before_assessed

more_evidence : LearnsAll 1 first_inputs later_inputs pursuit.weights
unfolding lookup make_factor_input strip
more_evidence = (
  settled partial_access settled_access 40 80 60 refl refl refl refl refl refl refl refl refl
      (omega arith, omega arith),
  (kept refl, (seen seen_fit refl refl refl, (kept refl, (kept refl, (kept refl, tt))))),
)

-- Bounds in the wrong order are refused.
reversed_bounds :
    make_factor_input 1 (record partial_access { lower_bound = some 81 }) ≡ err invalid_bounds
unfolding make_factor_input strip
reversed_bounds = refl

narrows_range_example :
    (before.low ≤ after.low)
    × (after.high ≤ before.high)
    × ((s : ℕ) → after.score ≡ some s → (before.low ≤ s) × (s ≤ before.high))
narrows_range_example =
    narrows_range 1 "pwin" pursuit first_inputs later_inputs true true [] [] before after
      (omega arith) pursuit_is_family more_evidence later-Validated before_assessed after_assessed

abbrev customer : RiskInputs
customer = record {
  current_customer = true;
  internal_score = some 90;
  public_score = some 20;
  public_confirmed = true;
  convergence_evidence_ids = [];
  critical_override_evidence_ids = [];
  internal_range = record { low = none; high = none };
}

customer-IsGoverned : IsGoverned 1 customer
customer-IsGoverned = record {
  internal = refl;
  public_index = refl;
  low_given = refl;
  high_given = refl;
  ordered = omega arith;
  bounded = omega arith;
}

abbrev risk : CustomerRisk
risk = record {
  score = some 8000;
  score_range = some (8000, 8000);
  status = "SCORED";
  band = some "HIGH";
  convergence_uplift = 0;
  execution_blocked = false;
}

customer_at_risk : overall_customer_risk 1 customer ≡ ok risk
unfolding scoring_program
customer_at_risk = refl

overall_customer_risk-IsPlaced_example :
    (r : CustomerRisk) × (overall_customer_risk 1 customer ≡ ok r) × IsPlaced true r
overall_customer_risk-IsPlaced_example =
    overall_customer_risk-IsPlaced 1 customer (omega arith) customer-IsGoverned

floors_hold_example :
    (85 ≤ 90 → 8000 ≤ 8000)
    × (85 ≤ 20 → 7500 ≤ 8000)
    × (has_any customer.critical_override_evidence_ids ≡ true → 8500 ≤ 8000)
floors_hold_example =
    floors_hold 1 customer risk 8000 90 20 (omega arith) customer_at_risk refl refl refl

abbrev strike : RiskEvent
strike = record {
  active = true;
  signal_confidence = some 80;
  severity = 60;
  underlying_event_id = "strike";
  risk_domain = "operations/site";
}

abbrev lawsuit : RiskEvent
lawsuit = record strike {
  severity = 72;
  underlying_event_id = "lawsuit";
  risk_domain = "financial/legal";
}

abbrev reports : List RiskEvent
reports = strike ∷ lawsuit ∷ strike ∷ []

abbrev rollup : Rollup
rollup = record { score = some 77; independent_event_ids = "lawsuit" ∷ "strike" ∷ []; uplift = 5 }

reports_roll_up : public_risk_rollup 1 reports true ≡ ok rollup
unfolding scoring_program
reports_roll_up = refl

public_risk_rollup-IsRolledUp_example : IsRolledUp 1 reports 77
public_risk_rollup-IsRolledUp_example =
    public_risk_rollup-IsRolledUp 1 reports true rollup 77 reports_roll_up refl
