-- ===== src/Relationships/Graph.antt =====
-- `RouteNode`, `RouteEdge`, `RouteQuery` and the construction of `CanonicalRouteGraph`.
use Prim.Native.String.{◌++◌}
use btx_omni_prospect.Prelude.{
  ℕ, String, Bool, true, false, not, ◌&&◌, Option, none, some, List, [], ◌∷◌, length, ◌==◌, nat_eq,
  string_eq, option_eq, if◌then◌else◌, leb,
}
use mathlib.Core.List
use btx_omni_prospect.Prelude.Dict.{lookup, insert}
use btx_omni_prospect.Prelude.Sorting.{sorted, text_le}
use btx_omni_prospect.Prelude.Result.{Result, ok, err, raise_if, ◌>>=◌, ◌>>◌}

-- What the search reads of a node; the other fields are for display.
pub record RouteNode : Type 0 where
  pub scope_id : String
  pub kind : String
  pub canonical_id : String
  pub account_id : Option String
  pub resolved : Bool

-- Dates are numbers of days.
pub record RouteEdge : Type 0 where
  pub id : String
  pub source : String
  pub target : String
  pub predicate : String
  pub evidence_ids : List String
  pub lineage_groups : List String
  pub source_lineage : List String
  pub truth_class : String
  pub observed_on : Option ℕ
  pub account_id : Option String
  pub component_id : Option String
  pub program_id : Option String
  pub facility_id : Option String
  pub valid_from : Option ℕ
  pub valid_until : Option ℕ
  pub accepted_order_ids : List String
  pub inverse_modes : List String
  pub conflicting : Bool
  pub constraint_ids : List String
  pub derivation_rule : String
  pub relevance_score : Option ℕ

pub data Mode : Type 0 where
  commercial_fit cross_account_experience contact_candidates documented_access : Mode

-- The wall-clock deadline of a query is part of the signals of a search.
pub record RouteQuery : Type 0 where
  pub scope_id : String
  pub source_id : String
  pub target_ids : List String
  pub mode : Mode
  pub as_of : ℕ
  pub authorized_account_ids : List String
  pub source_component_id : Option String
  pub target_component_id : Option String
  pub max_depth : ℕ
  pub lookback_days : ℕ
  pub max_expansions : ℕ
  pub max_candidates : ℕ

-- `ValueError` and `PermissionError`, by message.
pub data RouteError : Type 0 where
  invalid_query duplicate_node unresolved_endpoint cross_environment conflicting_versions :
      RouteError
  unauthorized structural_path invalid_factors : RouteError

abbrev pub between : ℕ → ℕ → ℕ → Bool
between lo n hi = leb lo n && leb n hi

-- `RouteQuery.__post_init__`
unfoldable pub make_query : RouteQuery → Result RouteError RouteQuery
make_query q = do
  raise_if
      (not (
        between 1 q.max_depth 6
        && between 1 q.max_expansions 50000
        && between 1 q.max_candidates 5000
        && between 1 q.lookback_days 3650))
      invalid_query
  ok q

-- `RouteNode.id`
unfoldable pub node_id : RouteNode → String
node_id n = n.scope_id ++ ":" ++ n.kind ++ ":" ++ n.canonical_id

-- An edge, and whether it is walked against its direction.
abbrev pub Hop : Type 0
Hop = RouteEdge × Bool

pub record Graph : Type 0 where
  pub nodes : List (String × RouteNode)
  pub edges : List (String × RouteEdge)
  pub adjacency : List (String × List Hop)

abbrev pub same_texts : List String → List String → Bool
same_texts [] [] = true
same_texts [] (y ∷ ys) = false
same_texts (x ∷ xs) [] = false
same_texts (x ∷ xs) (y ∷ ys) = x == y && same_texts xs ys

abbrev pub same_flag : Bool → Bool → Bool
same_flag true b = b
same_flag false b = not b

-- Equality of the data class.
unfoldable pub same_edge : RouteEdge → RouteEdge → Bool
same_edge a b =
    a.id == b.id
    && a.source == b.source
    && a.target == b.target
    && a.predicate == b.predicate
    && same_texts a.evidence_ids b.evidence_ids
    && same_texts a.lineage_groups b.lineage_groups
    && same_texts a.source_lineage b.source_lineage
    && a.truth_class == b.truth_class
    && a.observed_on == b.observed_on
    && a.account_id == b.account_id
    && a.component_id == b.component_id
    && a.program_id == b.program_id
    && a.facility_id == b.facility_id
    && a.valid_from == b.valid_from
    && a.valid_until == b.valid_until
    && same_texts a.accepted_order_ids b.accepted_order_ids
    && same_texts a.inverse_modes b.inverse_modes
    && same_flag a.conflicting b.conflicting
    && same_texts a.constraint_ids b.constraint_ids
    && a.derivation_rule == b.derivation_rule
    && a.relevance_score == b.relevance_score

abbrev pub hops_at : String → List (String × List Hop) → List Hop
hops_at node adjacency = elim (lookup node adjacency) [ none ↦ [] | some hs ↦ hs ]

-- self.adjacency[node].append(hop)
unfoldable pub linked : String → Hop → List (String × List Hop) → List (String × List Hop)
linked node hop adjacency = insert node (List.◌++◌ (hops_at node adjacency) (hop ∷ [])) adjacency

abbrev pub is_given : List String → Bool
is_given [] = false
is_given (x ∷ xs) = true

-- A new edge, in both directions where it has inverse modes.
unfoldable pub with_edge : RouteEdge → Graph → Graph
with_edge e g =
    let forward = linked e.source (e, false) g.adjacency in
    record g {
      edges = insert e.id e g.edges;
      adjacency = if is_given e.inverse_modes then linked e.target (e, true) forward else forward;
    }

abbrev pub scope_of : String → Graph → Option String
scope_of id g = elim (lookup id g.nodes) [ none ↦ none | some n ↦ some n.scope_id ]

abbrev pub is_known : String → Graph → Bool
is_known id g = elim (lookup id g.nodes) [ none ↦ false | some n ↦ true ]

-- One round of the loop over the edges.
unfoldable pub add_edge : RouteEdge → Graph → Result RouteError Graph
add_edge e g = do
  raise_if (not (is_known e.source g && is_known e.target g)) unresolved_endpoint
  raise_if (not (scope_of e.source g == scope_of e.target g)) cross_environment
  elim (lookup e.id g.edges) [
    | none ↦ ok (with_edge e g)
    | some previous ↦ if same_edge previous e then ok g else err conflicting_versions
  ]

unfoldable pub add_edges : List RouteEdge → Graph → Result RouteError Graph
add_edges [] g = ok g
add_edges (e ∷ es) g = do next ← add_edge e g; add_edges es next

-- A dictionary with fewer entries than nodes is refused.
abbrev pub nodes_by_id : List RouteNode → List (String × RouteNode)
nodes_by_id [] = []
nodes_by_id (n ∷ ns) = insert (node_id n) n (nodes_by_id ns)

abbrev pub edge_le : RouteEdge → RouteEdge → Bool
edge_le a b = text_le a.id b.id

-- `CanonicalRouteGraph.__init__`
unfoldable pub make_graph : List RouteNode → List RouteEdge → Result RouteError Graph
make_graph nodes edges = do
  raise_if (not (length (nodes_by_id nodes) == length nodes)) duplicate_node
  add_edges (sorted edge_le edges)
      (record { nodes = nodes_by_id nodes; edges = []; adjacency = [] })
