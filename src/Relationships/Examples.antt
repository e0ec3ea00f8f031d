-- ===== src/Relationships/Examples.antt =====
-- A person who was introduced to a buyer, and each theorem at the search for a way to the buyer.
use btx_omni_prospect.Prelude.{
  Bool, true, false, none, some, List, [], ◌∷◌, ◌≡◌, refl, any, elem, All, arith, string_eq,
}
use btx_omni_prospect.Prelude.Dict.{lookup, insert}
use btx_omni_prospect.Prelude.Sorting.{sorted}
use btx_omni_prospect.Prelude.Result.{ok, err}
use btx_omni_prospect.Relationships.Graph.{
  RouteNode, RouteEdge, RouteQuery, Graph, documented_access, make_query, node_id, linked,
  with_edge, add_edge, add_edges, make_graph, unauthorized,
}
use btx_omni_prospect.Relationships.Access.{
  allowed_node, node_allowed, off_source_component, off_target_component, documents_access,
  edge_allowed,
}
use btx_omni_prospect.Relationships.Factors.{
  strength, evidence_rank, freshness_rank, fields_present, relevance_of, factors_of, make_factors,
  route_factors,
}
use btx_omni_prospect.Relationships.Search.{
  RoutePath, Signals, Search, expansion_limit, extended, walks, arrives, recorded, walked, examine,
  visit, visit_all, expand, over, search_loop, initial, search, finished,
}
use btx_omni_prospect.Relationships.Bounds.{WithinBudget, search_ends}
use btx_omni_prospect.Relationships.Complete.{all_routes, search_complete}
use btx_omni_prospect.Relationships.Sound.{IsRoute}
use btx_omni_prospect.Relationships.Found.{found_routes}

abbrev seller : RouteNode
seller = record {
  scope_id = "demo";
  kind = "person";
  canonical_id = "p1";
  account_id = none;
  resolved = true;
}

abbrev buyer : RouteNode
buyer = record seller { canonical_id = "p2"; account_id = some "a1" }

abbrev introduction : RouteEdge
introduction = record {
  id = "e1";
  source = "demo:person:p1";
  target = "demo:person:p2";
  predicate = "EXPLICIT_INTRODUCTION";
  evidence_ids = "ev1" ∷ [];
  lineage_groups = [];
  source_lineage = [];
  truth_class = "SOURCED_PUBLIC_FACT";
  observed_on = some 100;
  account_id = some "a1";
  component_id = none;
  program_id = none;
  facility_id = none;
  valid_from = none;
  valid_until = some 200;
  accepted_order_ids = [];
  inverse_modes = [];
  conflicting = false;
  constraint_ids = [];
  derivation_rule = "BTX_CANONICAL_GRAPH_POC_1";
  relevance_score = none;
}

abbrev question : RouteQuery
question = record {
  scope_id = "demo";
  source_id = "demo:person:p1";
  target_ids = "demo:person:p2" ∷ [];
  mode = documented_access;
  as_of = 150;
  authorized_account_ids = "a1" ∷ [];
  source_component_id = none;
  target_component_id = none;
  max_depth = 2;
  lookback_days = 365;
  max_expansions = 3;
  max_candidates = 5;
}

-- Nobody cancels and the clock stands still.
abbrev calm : Signals
calm = record { is_cancelled = λ n. false; is_late = λ n. false }

abbrev people : List RouteNode
people = seller ∷ buyer ∷ []

abbrev network : Graph
network = record {
  nodes = ("demo:person:p2", buyer) ∷ ("demo:person:p1", seller) ∷ [];
  edges = ("e1", introduction) ∷ [];
  adjacency = ("demo:person:p1", (introduction, false) ∷ []) ∷ [];
}

abbrev route : RoutePath
route = record {
  hops = (introduction, false) ∷ [];
  node_ids = "demo:person:p1" ∷ "demo:person:p2" ∷ [];
  factors = record {
    bottleneck = 3;
    relevance = 2;
    evidence = 3;
    freshness = 2;
    present_fields = 4;
    applicable_fields = 4;
  };
}

abbrev outcome : Search
outcome = record { stack = []; paths = route ∷ []; examined = 1; stop = none }

question_is_valid : make_query question ≡ ok question
unfolding make_query
question_is_valid = refl

network_builds : make_graph people (introduction ∷ []) ≡ ok network
unfolding make_graph node_id add_edges add_edge with_edge linked lookup insert sorted
network_builds = refl

search_program : Unit {0}
unfolding search finished node_allowed allowed_node search_loop initial expand visit_all visit
    examine walks edge_allowed documents_access off_source_component off_target_component walked
    arrives extended recorded route_factors make_factors factors_of strength evidence_rank
    freshness_rank fields_present relevance_of lookup
search_program = tt

search_finds_it : search network question calm ≡ ok outcome
unfolding search_program
search_finds_it = refl

-- The search is refused where the buyer's account is not authorized.
search_is_refused :
    search network (record question { authorized_account_ids = [] }) calm ≡ err unauthorized
unfolding search_program
search_is_refused = refl

-- With a budget of no edge, the search says that it is incomplete.
search_is_cut :
    search network (record question { max_expansions = 0 }) calm
    ≡ ok (record { stack = []; paths = []; examined = 0; stop = some expansion_limit })
unfolding search_program
search_is_cut = refl

search_ends_example : (over outcome ≡ true) × WithinBudget question outcome
search_ends_example = search_ends network question calm outcome (omega arith) search_finds_it

abbrev passes_buyer : RoutePath → Bool
passes_buyer p = elem "demo:person:p2" p.node_ids

search_complete_example :
    any passes_buyer outcome.paths ≡ any passes_buyer (all_routes network question)
search_complete_example =
    search_complete network question calm outcome passes_buyer (omega arith) search_finds_it refl

found_routes_example : All (IsRoute network question) outcome.paths
found_routes_example =
    found_routes people (introduction ∷ []) network question calm outcome network_builds
      search_finds_it
