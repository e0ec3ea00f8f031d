-- ===== src/Scoring/Rubric.antt =====
-- The decision families of modules/scoring/families.py, their factors and the bands of a score.
use Prim.Native.Nat.{◌/◌}
use btx_omni_prospect.Prelude.{
  ℕ, ◌+◌, ◌*◌, String, Bool, true, false, not, ◌&&◌, ◌||◌, Option, none, some, List, [], ◌∷◌, find,
  all, elem, ◌==◌, string_eq, if◌then◌else◌, leb, strip, is_empty,
}
use btx_omni_prospect.Prelude.Dict.{lookup}
use btx_omni_prospect.Prelude.Result.{Result, ok, raise_if, ◌>>◌}

-- The minimum coverage is a percentage.
pub record Family : Type 0 where
  pub key : String
  pub weights : List (String × ℕ)
  pub minimum_coverage : ℕ

abbrev pub families : List Family
families =
    record {
      key = "signal_confidence";
      weights =
          ("source_reliability", 30)
          ∷ ("entity_match", 25)
          ∷ ("event_specificity", 20)
          ∷ ("independent_corroboration", 15)
          ∷ ("freshness", 10)
          ∷ [];
      minimum_coverage = 70;
    }
    ∷ record {
      key = "opportunity_priority";
      weights =
          ("program_durability", 30)
          ∷ ("btx_manufacturing_fit", 25)
          ∷ ("addressable_btx_work", 15)
          ∷ ("program_momentum", 10)
          ∷ ("strategic_target_fit", 10)
          ∷ ("btx_commercial_adjacency", 10)
          ∷ [];
      minimum_coverage = 70;
    }
    ∷ record {
      key = "pwin";
      weights =
          ("buyer_access", 25)
          ∷ ("competitive_position", 20)
          ∷ ("requirement_fit", 20)
          ∷ ("budget_process", 15)
          ∷ ("price_competitiveness", 10)
          ∷ ("track_record", 10)
          ∷ [];
      minimum_coverage = 100;
    }
    ∷ record {
      key = "delivery_feasibility";
      weights =
          ("capability_match", 30)
          ∷ ("schedule_feasibility", 25)
          ∷ ("material_readiness", 15)
          ∷ ("quality_certification", 15)
          ∷ ("margin", 10)
          ∷ ("coordination", 5)
          ∷ [];
      minimum_coverage = 100;
    }
    ∷ record {
      key = "customer_health";
      weights =
          ("commercial_trajectory", 30)
          ∷ ("relationship_coverage", 20)
          ∷ ("engagement_cadence", 20)
          ∷ ("backlog_coverage", 15)
          ∷ ("relationship_history", 10)
          ∷ ("attached_risk_history", 5)
          ∷ [];
      minimum_coverage = 70;
    }
    ∷ record {
      key = "risk_severity";
      weights =
          ("impact", 30)
          ∷ ("materiality", 20)
          ∷ ("imminence", 15)
          ∷ ("persistence", 15)
          ∷ ("breadth", 10)
          ∷ ("mitigation", 10)
          ∷ [];
      minimum_coverage = 70;
    }
    ∷ record {
      key = "internal_commercial_risk";
      weights =
          ("commercial_momentum", 30)
          ∷ ("pipeline", 20)
          ∷ ("backlog", 15)
          ∷ ("engagement", 15)
          ∷ ("concentration", 10)
          ∷ ("friction", 10)
          ∷ [];
      minimum_coverage = 70;
    }
    ∷ []

abbrev pub is_family : String → Family → Bool
is_family key f = f.key == key

-- FAMILIES[key]
unfoldable pub family_named : String → Option Family
family_named key = find (is_family key) families

-- Points and bounds are numbers of units; one point is `unit` units.
pub record FactorInput : Type 0 where
  pub points : Option ℕ
  pub evidence_ids : List String
  pub reason : String
  pub required_fields : List String
  pub observed_fields : List String
  pub lower_bound : Option ℕ
  pub upper_bound : Option ℕ
  pub evidence_state : String

-- `ValueError` and `KeyError`, by message.
pub data ScoringError : Type 0 where
  points_out_of_range unlinked_points reason_required invalid_coverage : ScoringError
  one_bound_missing bounds_with_points invalid_bounds : ScoringError
  unknown_family unknown_factor invalid_family : ScoringError

abbrev pub is_given {ℓ} : {A : Type ℓ} → Option A → Bool
is_given none = false
is_given (some a) = true

abbrev pub has_any : List String → Bool
has_any [] = false
has_any (x ∷ xs) = true

abbrev pub at_most : ℕ → Option ℕ → Bool
at_most n none = true
at_most n (some m) = leb m n

abbrev pub unrepeated : List String → Bool
unrepeated [] = true
unrepeated (x ∷ xs) = not (elem x xs) && unrepeated xs

abbrev pub is_within : List String → List String → Bool
is_within xs ys = all (λ x. elem x ys) xs

abbrev pub ordered_bounds : ℕ → Option ℕ → Option ℕ → Bool
ordered_bounds top (some low) (some high) = leb low high && leb high top
ordered_bounds top _ _ = true

abbrev pub same_presence {ℓ} : {A : Type ℓ} → Option A → Option A → Bool
same_presence none none = true
same_presence none (some b) = false
same_presence (some a) none = false
same_presence (some a) (some b) = true

-- `FactorInput.__post_init__`
unfoldable pub make_factor_input : ℕ → FactorInput → Result ScoringError FactorInput
make_factor_input unit v = do
  raise_if (not (at_most (100 * unit) v.points)) points_out_of_range
  raise_if (is_given v.points && not (has_any v.evidence_ids)) unlinked_points
  raise_if (is_empty (strip v.reason)) reason_required
  raise_if
      (not (
        unrepeated v.required_fields
        && unrepeated v.observed_fields
        && is_within v.observed_fields v.required_fields))
      invalid_coverage
  raise_if (not (same_presence v.lower_bound v.upper_bound)) one_bound_missing
  raise_if (is_given v.lower_bound && (is_given v.points || not (has_any v.evidence_ids)))
      bounds_with_points
  raise_if (not (ordered_bounds (100 * unit) v.lower_bound v.upper_bound)) invalid_bounds
  ok v

-- `_round` of x / (100 * unit), in hundredths: half a hundredth goes up.
unfoldable pub rounded : ℕ → ℕ → ℕ
rounded unit x = (2 * x + unit) / (2 * unit)

abbrev pub risk_bands : List (ℕ × String)
risk_bands = (85, "CRITICAL") ∷ (70, "HIGH") ∷ (40, "MODERATE") ∷ (0, "LOW") ∷ []

abbrev pub bands : List (String × List (ℕ × String))
bands =
    ("signal_confidence", (70, "HIGH") ∷ (40, "MEDIUM") ∷ (0, "LOW") ∷ [])
    ∷ ("prospect_fit", (75, "STRONG") ∷ (50, "RELEVANT") ∷ (0, "LIMITED") ∷ [])
    ∷ (
      "opportunity_priority",
      (75, "HIGH_PRIORITY") ∷ (50, "WORTH_DEVELOPING") ∷ (0, "LOWER_PRIORITY") ∷ [],
    )
    ∷ ("pwin", (75, "STRONG") ∷ (50, "DEVELOPING") ∷ (0, "WEAK") ∷ [])
    ∷ (
      "delivery_feasibility",
      (93, "A+") ∷ (85, "A") ∷ (78, "B+") ∷ (70, "B") ∷ (55, "C") ∷ (40, "D") ∷ (0, "F") ∷ [],
    )
    ∷ ("customer_health", (70, "HEALTHY") ∷ (50, "WATCH") ∷ (30, "AT_RISK") ∷ (0, "CRITICAL") ∷ [])
    ∷ []

abbrev pub bands_of : String → List (ℕ × String)
bands_of family = elim (lookup family bands) [ none ↦ risk_bands | some b ↦ b ]

-- The first label whose threshold the score reaches; a point is so many units of the score.
unfoldable pub reached : List (ℕ × String) → ℕ → ℕ → Option String
reached [] point score = none
reached ((threshold, label) ∷ rest) point score =
    let beyond = reached rest point score in
    if leb (threshold * point) score then some label else beyond

-- `none` where `next` finds no label.
unfoldable pub score_band : ℕ → String → Option ℕ → Option String
score_band point family none = some "INSUFFICIENT_EVIDENCE"
score_band point family (some score) = reached (bands_of family) point score
