-- ===== src/Relationships/Search.antt =====
-- `CanonicalRouteGraph.search`, up to the list of paths that it finds.
use Prim.Native.String.{◌++◌ as text_append}
use btx_omni_prospect.Prelude.{
  ℕ, zero, suc, ◌+◌, String, Bool, true, false, not, ◌&&◌, ◌||◌, Option, none, some, List, [], ◌∷◌,
  ◌++◌, elem, any, all, length, ◌==◌, string_eq, if◌then◌else◌, leb,
}
use btx_omni_prospect.Prelude.Result.{Result, ok, err}
use btx_omni_prospect.Relationships.Graph.{
  RouteQuery, Hop, Graph, RouteError, unauthorized, hops_at, same_texts,
}
use btx_omni_prospect.Relationships.Access.{node_allowed, edge_allowed}
use btx_omni_prospect.Relationships.Factors.{templates, RouteFactors, route_factors}

-- A frame of the stack: the hops from the source, the nodes on them and the tokens of the hops.
pub record Frame : Type 0 where
  pub current : String
  pub hops : List Hop
  pub nodes : List String
  pub sequence : List String

-- A path that was found; the other columns of its row are computed from these.
pub record RoutePath : Type 0 where
  pub hops : List Hop
  pub node_ids : List String
  pub factors : RouteFactors

-- `raised` stands for an exception of `_factors`, which ends the loops.
pub data StopReason : Type 0 where
  cancelled deadline expansion_limit candidate_limit : StopReason
  raised : RouteError → StopReason

-- What the callback and the clock answer when so many edges were examined.
pub record Signals : Type 0 where
  pub is_cancelled : ℕ → Bool
  pub is_late : ℕ → Bool

pub record Progress : Type 0 where
  pub children : List Frame
  pub paths : List RoutePath
  pub examined : ℕ
  pub stop : Option StopReason

abbrev pub next_node : Hop → String
next_node (e, inverse) = if inverse then e.source else e.target

abbrev pub token : Hop → String
token (e, inverse) = text_append e.predicate (if inverse then ":inverse" else "")

-- t[:len(sequence)] == sequence
abbrev pub starts_with : List String → List String → Bool
starts_with [] t = true
starts_with (x ∷ xs) [] = false
starts_with (x ∷ xs) (y ∷ ys) = x == y && starts_with xs ys

unfoldable pub extended : Frame → Hop → Frame
extended f h = record {
  current = next_node h;
  hops = f.hops ++ h ∷ [];
  nodes = f.nodes ++ next_node h ∷ [];
  sequence = f.sequence ++ token h ∷ [];
}

-- The tests that an edge passes before it is walked.
unfoldable pub walks : Graph → RouteQuery → Frame → Hop → Bool
walks g q f h =
    not (elem (next_node h) f.nodes)
    && any (starts_with (f.sequence ++ token h ∷ [])) (templates q.mode)
    && edge_allowed g h.0 h.1 q

-- The frame stands on a target at the end of a template.
unfoldable pub arrives : RouteQuery → Frame → Bool
arrives q f = elem f.current q.target_ids && any (same_texts f.sequence) (templates q.mode)

abbrev pub path_of : Frame → RouteFactors → RoutePath
path_of f factors = record { hops = f.hops; node_ids = f.nodes; factors = factors }

-- A path is recorded, and at the limit the search stops.
unfoldable pub recorded : RouteQuery → Frame → RoutePath → Progress → Progress
recorded q child path s =
    let paths = s.paths ++ path ∷ [] in
    if leb q.max_candidates (length paths)
    then record s { paths = paths; stop = some candidate_limit }
    else record s { paths = paths; children = s.children ++ child ∷ [] }

-- An edge that is walked, to a child frame.
unfoldable pub walked : RouteQuery → Frame → Progress → Progress
walked q child s =
    if arrives q child
    then elim (route_factors q child.hops) [
      | err e ↦ record s { stop = some (raised e) }
      | ok factors ↦ recorded q child (path_of child factors) s
    ]
    else record s { children = s.children ++ child ∷ [] }

unfoldable pub examine : Graph → RouteQuery → Frame → Hop → Progress → Progress
examine g q f h s = if walks g q f h then walked q (extended f h) s else s

-- One round of the loop over the edges of a node.
unfoldable pub visit : Graph → RouteQuery → Signals → Frame → Hop → Progress → Progress
visit g q w f h s =
    if w.is_cancelled s.examined
    then record s { stop = some cancelled }
    else if w.is_late s.examined
    then record s { stop = some deadline }
    else if leb q.max_expansions s.examined
    then record s { stop = some expansion_limit }
    else examine g q f h (record s { examined = s.examined + 1 })

abbrev pub is_stopped : Option StopReason → Bool
is_stopped none = false
is_stopped (some r) = true

unfoldable pub visit_all : Graph → RouteQuery → Signals → Frame → List Hop → Progress → Progress
visit_all g q w f [] s = s
visit_all g q w f (h ∷ hs) s =
    let next = visit g q w f h s in
    let rest = visit_all g q w f hs next in if is_stopped next.stop then next else rest

pub record Search : Type 0 where
  pub stack : List Frame
  pub paths : List RoutePath
  pub examined : ℕ
  pub stop : Option StopReason

-- The body of the outer loop, on the frame that was popped. The children that are left when the inner
-- loop breaks are pushed too.
unfoldable pub expand : Graph → RouteQuery → Signals → Frame → Search → Search
expand g q w f s =
    if leb q.max_depth (length f.hops)
    then s
    else let p =
        visit_all g q w f (hops_at f.current g.adjacency)
          (record { children = []; paths = s.paths; examined = s.examined; stop = none }) in
      record {
        stack = p.children ++ s.stack;
        paths = p.paths;
        examined = p.examined;
        stop = p.stop;
      }

abbrev pub over : Search → Bool
over s = is_stopped s.stop || elim s.stack [ [] ↦ true | f ∷ fs ↦ false ]

-- `while stack and stop_reason is None`; the top of the stack stands first.
unfoldable pub search_loop : ℕ → Graph → RouteQuery → Signals → Search → Search
search_loop zero g q w s = s
search_loop (suc fuel) g q w s = elim s.stop [
  | some r ↦ s
  | none ↦ elim s.stack [
    | [] ↦ s
    | f ∷ fs ↦ search_loop fuel g q w (expand g q w f (record s { stack = fs }))
  ]
]

abbrev pub source_frame : RouteQuery → Frame
source_frame q = record {
  current = q.source_id;
  hops = [];
  nodes = q.source_id ∷ [];
  sequence = [];
}

abbrev pub initial_stack : RouteQuery → List Frame
initial_stack q = elim q.target_ids [ [] ↦ [] | t ∷ ts ↦ source_frame q ∷ [] ]

unfoldable pub initial : RouteQuery → Search
initial q = record { stack = initial_stack q; paths = []; examined = 0; stop = none }

abbrev pub raised_by : Option StopReason → Option RouteError
raised_by (some (raised e)) = some e
raised_by _ = none

-- An exception leaves the search; any other stop is reported.
unfoldable pub finished : Search → Result RouteError Search
finished s = elim (raised_by s.stop) [ none ↦ ok s | some e ↦ err e ]

unfoldable pub search : Graph → RouteQuery → Signals → Result RouteError Search
search g q w =
    if node_allowed g q.source_id q && all (λ t. node_allowed g t q) q.target_ids
    then finished (search_loop (q.max_expansions + 2) g q w (initial q))
    else err unauthorized
