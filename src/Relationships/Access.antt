-- ===== src/Relationships/Access.antt =====
-- What a query may see: `_node_allowed` and `_edge_allowed`.
use btx_omni_prospect.Prelude.{
  ℕ, ◌+◌, String, Bool, true, false, not, ◌&&◌, ◌||◌, Option, none, some, List, [], ◌∷◌, elem, ◌==◌,
  string_eq, option_eq, some_truthy, ltb,
}
use btx_omni_prospect.Prelude.Dict.{lookup}
use btx_omni_prospect.Relationships.Graph.{
  RouteNode, RouteEdge, Mode, commercial_fit, cross_account_experience, contact_candidates,
  documented_access, RouteQuery, Graph, is_given,
}

abbrev pub structural : List String
structural = "ACCOUNT_PROGRAM" ∷ "PROGRAM_COMPONENT" ∷ "FACILITY_BU" ∷ "ACCOUNT_COMPONENT" ∷ []

abbrev pub is_structural : RouteEdge → Bool
is_structural e = elem e.predicate structural

abbrev pub mode_name : Mode → String
mode_name commercial_fit = "commercial_fit"
mode_name cross_account_experience = "cross_account_experience"
mode_name contact_candidates = "contact_candidates"
mode_name documented_access = "documented_access"

abbrev pub is_documented_access : Mode → Bool
is_documented_access documented_access = true
is_documented_access _ = false

-- account_id is None or account_id in authorized_account_ids
abbrev pub open_account : Option String → List String → Bool
open_account none accounts = true
open_account (some a) accounts = elem a accounts

unfoldable pub allowed_node : RouteQuery → RouteNode → Bool
allowed_node q n =
    n.resolved
    && n.scope_id == q.scope_id
    && open_account n.account_id q.authorized_account_ids
    && not (elem n.kind ("industry" ∷ "naics" ∷ "geography" ∷ []))

-- `_node_allowed`
unfoldable pub node_allowed : Graph → String → RouteQuery → Bool
node_allowed g id q = elim (lookup id g.nodes) [ none ↦ false | some n ↦ allowed_node q n ]

abbrev pub account_of : Graph → String → Option String
account_of g id = elim (lookup id g.nodes) [ none ↦ none | some n ↦ n.account_id ]

-- {nodes[t].account_id for t in target_ids if t in nodes}, as a list
abbrev pub target_accounts : Graph → List String → List (Option String)
target_accounts g [] = []
target_accounts g (t ∷ ts) =
    let rest = target_accounts g ts in
    elim (lookup t g.nodes) [ none ↦ rest | some n ↦ n.account_id ∷ rest ]

-- d > as_of, and d < as_of, for a date that is there
abbrev pub after : Option ℕ → ℕ → Bool
after none now = false
after (some d) now = ltb now d

abbrev pub before : Option ℕ → ℕ → Bool
before none now = false
before (some d) now = ltb d now

abbrev pub is_dated : Option ℕ → Bool
is_dated none = false
is_dated (some d) = true

-- The edge is about another component than the source's.
unfoldable pub off_source_component : Graph → RouteQuery → RouteEdge → Bool
off_source_component g q e =
    some_truthy q.source_component_id
    && e.account_id == account_of g q.source_id
    && not (elem e.predicate structural)
    && not (e.component_id == q.source_component_id)

-- The edge is about another component than the target's.
unfoldable pub off_target_component : Graph → RouteQuery → RouteEdge → Bool
off_target_component g q e =
    some_truthy q.target_component_id
    && elem e.account_id (target_accounts g q.target_ids)
    && not (e.account_id == account_of g q.source_id)
    && not (elem e.predicate structural)
    && not (e.component_id == q.target_component_id)

-- Of documented access: an imported path edge, or an introduction with both dates.
unfoldable pub documents_access : RouteEdge → Bool
documents_access e =
    elem e.predicate ("KNOWS" ∷ "WORKS_AT" ∷ []) && e.truth_class == "ANALYST_INFERENCE"
    || e.predicate == "EXPLICIT_INTRODUCTION" && is_dated e.valid_until && is_dated e.observed_on

-- not observed_on or observed_on < as_of - lookback_days
abbrev pub outdated : Option ℕ → RouteQuery → Bool
outdated none q = true
outdated (some d) q = ltb (d + q.lookback_days) q.as_of

-- `_edge_allowed`
unfoldable pub edge_allowed : Graph → RouteEdge → Bool → RouteQuery → Bool
edge_allowed g e inverse q =
    not (inverse && not (elem (mode_name q.mode) e.inverse_modes))
    && not e.conflicting
    && is_given e.evidence_ids
    && node_allowed g e.source q
    && node_allowed g e.target q
    && (not (some_truthy e.account_id) || open_account e.account_id q.authorized_account_ids)
    && not (after e.valid_from q.as_of || before e.valid_until q.as_of)
    && not (after e.observed_on q.as_of)
    && not (off_source_component g q e)
    && not (off_target_component g q e)
    && (not (is_documented_access q.mode) || documents_access e)
    && not (is_given e.accepted_order_ids && outdated e.observed_on q)
