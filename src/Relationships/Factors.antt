-- ===== src/Relationships/Factors.antt =====
-- The templates of the modes, and `_factors` of a route.
use Prim.Native.Nat.{min}
use btx_omni_prospect.Prelude.{
  ℕ, ◌+◌, ◌-◌, ◌*◌, String, Bool, false, not, ◌&&◌, ◌||◌, Option, none, some, List, [], ◌∷◌, all,
  length, map, ◌==◌, string_eq, option_eq, some_truthy, if◌then◌else◌, leb,
}
use btx_omni_prospect.Prelude.Result.{Result, ok, err, raise_if, ◌>>◌}
use btx_omni_prospect.Relationships.Graph.{
  RouteEdge, Mode, commercial_fit, cross_account_experience, contact_candidates, documented_access,
  RouteQuery, Hop, RouteError, structural_path, invalid_factors, is_given,
}
use btx_omni_prospect.Relationships.Access.{is_structural, is_documented_access, is_dated}

abbrev pub introductions : List (List String)
introductions =
    let i : String = "EXPLICIT_INTRODUCTION" in
    (i ∷ [])
    ∷ (i ∷ i ∷ [])
    ∷ (i ∷ i ∷ i ∷ [])
    ∷ (i ∷ i ∷ i ∷ i ∷ [])
    ∷ (i ∷ i ∷ i ∷ i ∷ i ∷ [])
    ∷ (i ∷ i ∷ i ∷ i ∷ i ∷ i ∷ [])
    ∷ ("WORKS_AT:inverse" ∷ "KNOWS:inverse" ∷ [])
    ∷ []

abbrev pub experience_templates : List (List String)
experience_templates =
    ("SCENARIO_SUPPLIER_FOR_COMPONENT:inverse" ∷ "SCENARIO_SUPPLIER_FOR_COMPONENT" ∷ [])
    ∷ ("ACCOUNT_COMPONENT" ∷ "PRODUCED_ACCEPTED_COMPONENT:inverse" ∷ "FACILITY_BU"
        ∷ "SCENARIO_SUPPLIER_FOR_COMPONENT" ∷ [])
    ∷ ("ACCOUNT_PROGRAM" ∷ "PROGRAM_COMPONENT" ∷ "PRODUCED_ACCEPTED_COMPONENT:inverse"
        ∷ "FACILITY_BU" ∷ "SCENARIO_SUPPLIER_FOR_COMPONENT" ∷ [])
    ∷ ("ACCOUNT_COMPONENT" ∷ "PRODUCED_ACCEPTED_COMPONENT:inverse" ∷ "PRODUCED_ACCEPTED_COMPONENT"
        ∷ "ACCOUNT_COMPONENT:inverse" ∷ [])
    ∷ ("ACCOUNT_PROGRAM" ∷ "PROGRAM_COMPONENT" ∷ "PRODUCED_ACCEPTED_COMPONENT:inverse"
        ∷ "PRODUCED_ACCEPTED_COMPONENT" ∷ "PROGRAM_COMPONENT:inverse" ∷ "ACCOUNT_PROGRAM:inverse"
        ∷ [])
    ∷ []

abbrev pub fit_templates : List (List String)
fit_templates =
    ("ACCOUNT_COMPONENT" ∷ "PLAUSIBLE_CAPABILITY_FIT:inverse" ∷ [])
    ∷ ("ACCOUNT_COMPONENT" ∷ "PRODUCED_ACCEPTED_COMPONENT:inverse" ∷ [])
    ∷ ("ACCOUNT_PROGRAM" ∷ "PROGRAM_COMPONENT" ∷ "PLAUSIBLE_CAPABILITY_FIT:inverse" ∷ [])
    ∷ ("ACCOUNT_PROGRAM" ∷ "PROGRAM_COMPONENT" ∷ "PRODUCED_ACCEPTED_COMPONENT:inverse" ∷ [])
    ∷ ("ACCOUNT_PROGRAM" ∷ "PROGRAM_COMPONENT" ∷ "PRODUCED_ACCEPTED_COMPONENT:inverse"
        ∷ "COORDINATED_HANDOFF" ∷ [])
    ∷ []

-- TEMPLATES
abbrev pub templates : Mode → List (List String)
templates cross_account_experience = experience_templates
templates commercial_fit = fit_templates
templates contact_candidates = ("PUBLISHED_ROLE_AT:inverse" ∷ []) ∷ ("WORKS_AT:inverse" ∷ []) ∷ []
templates documented_access = introductions

-- The ordinal factors, and the coverage as present over applicable fields.
pub record RouteFactors : Type 0 where
  pub bottleneck : ℕ
  pub relevance : ℕ
  pub evidence : ℕ
  pub freshness : ℕ
  pub present_fields : ℕ
  pub applicable_fields : ℕ

-- len(set(ids)) >= 2
abbrev pub two_distinct : List String → Bool
two_distinct [] = false
two_distinct (x ∷ xs) = not (all (λ y. y == x) xs)

unfoldable pub strength : RouteQuery → RouteEdge → ℕ
strength q e =
    if is_documented_access q.mode && not (e.predicate == "EXPLICIT_INTRODUCTION")
    then 0
    else if two_distinct e.accepted_order_ids || e.predicate == "EXPLICIT_INTRODUCTION"
    then 3
    else if is_given e.accepted_order_ids
    then 2
    else 1

unfoldable pub evidence_rank : RouteEdge → ℕ
evidence_rank e =
    let t = e.truth_class in
    if t == "POC_SCENARIO_RECORD" || t == "SOURCED_PUBLIC_FACT"
    then 3
    else if t == "SCOPED_PUBLIC_CLAIM"
    then 2
    else if t == "ANALYST_INFERENCE" || t == "POC_ASSUMPTION"
    then 1
    else 0

-- 0 <= (as_of - observed_on).days <= window, where it is dated
abbrev pub aged_within : Option ℕ → ℕ → ℕ → Bool
aged_within none now window = false
aged_within (some d) now window = leb d now && leb (now - d) window

abbrev pub tolerance : RouteQuery → RouteEdge → ℕ
tolerance q e =
    if e.predicate == "PUBLISHED_ROLE_AT"
    then 90
    else if is_given e.accepted_order_ids
    then q.lookback_days
    else 365

abbrev pub still_valid : Option ℕ → ℕ → Bool
still_valid none now = false
still_valid (some d) now = leb now d

unfoldable pub freshness_rank : RouteQuery → RouteEdge → ℕ
freshness_rank q e =
    if still_valid e.valid_until q.as_of
    then 2
    else if is_given e.accepted_order_ids && aged_within e.observed_on q.as_of 90
    then 2
    else if aged_within e.observed_on q.as_of (tolerance q e)
    then 1
    else 0

-- identity and evidence, scope, and date
unfoldable pub fields_present : RouteEdge → ℕ
fields_present e =
    2
    + (if some_truthy e.component_id
          || (e.predicate == "PUBLISHED_ROLE_AT" || e.predicate == "EXPLICIT_INTRODUCTION")
        then 1
        else 0)
    + (if is_dated e.observed_on then 1 else 0)

-- The least of a list that begins with n.
abbrev pub least : ℕ → List ℕ → ℕ
least n [] = n
least n (m ∷ ms) = min n (least m ms)

abbrev pub sum : List ℕ → ℕ
sum [] = 0
sum (n ∷ ns) = n + sum ns

abbrev pub imported : List RouteEdge → List ℕ
imported [] = []
imported (e ∷ es) =
    let rest = imported es in elim e.relevance_score [ none ↦ rest | some n ↦ n ∷ rest ]

unfoldable pub relevance_of : RouteQuery → List RouteEdge → ℕ
relevance_of q es = elim (imported es) [
  | n ∷ ns ↦ least n ns
  | [] ↦
      if some_truthy q.source_component_id
        && all
            (λ e.
              e.component_id == q.source_component_id || e.component_id == q.target_component_id)
            es
      then 3
      else 2
]

-- The factors of the edges that are not structural, of which there is a first.
unfoldable pub factors_of : RouteQuery → RouteEdge → List RouteEdge → RouteFactors
factors_of q e es = record {
  bottleneck = least (strength q e) (map (strength q) es);
  relevance = relevance_of q (e ∷ es);
  evidence = least (evidence_rank e) (map evidence_rank es);
  freshness = least (freshness_rank q e) (map (freshness_rank q) es);
  present_fields = sum (map fields_present (e ∷ es));
  applicable_fields = 4 * length (e ∷ es);
}

-- `RouteFactors.__post_init__`
unfoldable pub make_factors : RouteFactors → Result RouteError RouteFactors
make_factors f = do
  raise_if (not (leb f.bottleneck 3 && leb f.relevance 3 && leb f.evidence 3)) invalid_factors
  raise_if (not (leb f.freshness 2)) invalid_factors
  raise_if (not (leb f.present_fields f.applicable_fields)) invalid_factors
  ok f

abbrev pub substantive : List Hop → List RouteEdge
substantive [] = []
substantive ((e, inverse) ∷ hs) =
    let rest = substantive hs in if is_structural e then rest else e ∷ rest

-- `_factors`
unfoldable pub route_factors : RouteQuery → List Hop → Result RouteError RouteFactors
route_factors q hops = elim (substantive hops) [
  | [] ↦ err structural_path
  | e ∷ es ↦ make_factors (factors_of q e es)
]
