-- ===== src/Relationships/Found.antt =====
-- Every path that a search finds is a route, also where the search stops early.
use btx_omni_prospect.Prelude.{
  ℕ, zero, suc, ◌+◌, ◌<◌, true, none, List, [], ◌∷◌, ◌++◌, ◌≡◌, sym, subst, All, length, arith, leb,
  inl, inr, Bool-cases, List-cases,
}
use btx_omni_prospect.Prelude.Result.{ok, Result-cases}
use btx_omni_prospect.Relationships.Graph.{
  RouteNode, RouteEdge, RouteQuery, Hop, Graph, hops_at, make_graph,
}
use btx_omni_prospect.Relationships.Factors.{route_factors}
use btx_omni_prospect.Relationships.Search.{
  Frame, RoutePath, Signals, Progress, Search, extended, walks, arrives, path_of, recorded, walked,
  examine, visit, visit_all, is_stopped, expand, search_loop, initial, initial_stack, search,
  source_frame, finished,
}
use btx_omni_prospect.Relationships.Adjacency.{
  IsGraph, Leave, origin, All-snoc, All-append, make_graph-IsGraph,
}
use btx_omni_prospect.Relationships.Complete.{stopped_loop}
use btx_omni_prospect.Relationships.Sound.{
  IsWalk, IsRoute, source-IsWalk, extended-IsWalk, arrives-IsRoute,
}

module _ (g : Graph) (q : RouteQuery) (w : Signals) where
  -- The children are walks and the paths are routes.
  record IsProgress (s : Progress) : Type 0 where
    pub children : All (IsWalk g q) s.children
    pub paths : All (IsRoute g q) s.paths

  record IsSearch (s : Search) : Type 0 where
    pub stack : All (IsWalk g q) s.stack
    pub paths : All (IsRoute g q) s.paths

  recorded-IsProgress :
      (child : Frame) (p : RoutePath) (s : Progress)
      → IsWalk g q child
      → IsRoute g q p
      → IsProgress s
      → IsProgress (recorded q child p s)
  unfolding recorded
  recorded-IsProgress child p s v r i =
      let longer = All-snoc (IsRoute g q) s.paths p i.paths r in
      elim (Bool-cases (leb q.max_candidates (length (s.paths ++ p ∷ [])))) [
        | inl y ↦ rw y (record { children = i.children; paths = longer })
        | inr n ↦ rw n (record {
          children = All-snoc (IsWalk g q) s.children child i.children v;
          paths = longer;
        })
      ]

  walked-IsProgress :
      (child : Frame) (s : Progress)
      → IsWalk g q child
      → IsProgress s
      → IsProgress (walked q child s)
  unfolding walked
  walked-IsProgress child s v i = elim (Bool-cases (arrives q child)) [
    | inr n ↦
        rw n (record {
          children = All-snoc (IsWalk g q) s.children child i.children v;
          paths = i.paths;
        })
    | inl y ↦ elim (Result-cases (route_factors q child.hops)) [
      | inl (x, e) ↦ rw (y, e) (record { children = i.children; paths = i.paths })
      | inr (factors, e) ↦
          rw (y, e)
            (recorded-IsProgress child (path_of child factors) s v
              (arrives-IsRoute g q w child v y factors e) i)
    ]
  ]

  visit-IsProgress :
      (f : Frame) (h : Hop) (s : Progress)
      → IsWalk g q f
      → origin h ≡ f.current
      → length f.hops < q.max_depth
      → IsProgress s
      → IsProgress (visit g q w f h s)
  unfolding visit examine
  visit-IsProgress f h s v o b i =
      let next : Progress = record s { examined = s.examined + 1 } in
      let kept : IsProgress next = record { children = i.children; paths = i.paths } in
      elim (Bool-cases (w.is_cancelled s.examined)) [
        | inl y ↦ rw y (record { children = i.children; paths = i.paths })
        | inr n ↦ elim (Bool-cases (w.is_late s.examined)) [
          | inl y ↦ rw (n, y) (record { children = i.children; paths = i.paths })
          | inr m ↦ elim (Bool-cases (leb q.max_expansions s.examined)) [
            | inl y ↦ rw (n, m, y) (record { children = i.children; paths = i.paths })
            | inr k ↦ elim (Bool-cases (walks g q f h)) [
              | inr t ↦ rw (n, m, k, t) kept
              | inl t ↦
                  rw (n, m, k, t)
                    (walked-IsProgress (extended f h) next (extended-IsWalk g q w f h v o t b) kept)
            ]
          ]
        ]
      ]

  visit_all-IsProgress :
      (f : Frame) (hs : List Hop) (s : Progress)
      → IsWalk g q f
      → Leave f.current hs
      → length f.hops < q.max_depth
      → IsProgress s
      → IsProgress (visit_all g q w f hs s)
  unfolding visit_all
  visit_all-IsProgress f [] s v o b i = i
  visit_all-IsProgress f (h ∷ hs) s v (o, os) b i =
      let kept = visit-IsProgress f h s v o b i in
      let next = visit g q w f h s in
      elim (Bool-cases (is_stopped next.stop)) [
        | inl y ↦ rw y kept
        | inr n ↦ rw n (visit_all-IsProgress f hs next v os b kept)
      ]

  expand-IsSearch :
      (f : Frame) (s : Search) → IsGraph g → IsWalk g q f → IsSearch s → IsSearch (expand g q w f s)
  unfolding expand
  expand-IsSearch f s a v i = elim (Bool-cases (leb q.max_depth (length f.hops))) [
    | inl y ↦ rw y i
    | inr n ↦
        let hs = hops_at f.current g.adjacency in
        let start : Progress = record {
          children = [];
          paths = s.paths;
          examined = s.examined;
          stop = none;
        } in
        let kept =
          visit_all-IsProgress f hs start v (a.leave f.current) (ground arith)
            (record { children = tt; paths = i.paths }) in
        let done = visit_all g q w f hs start in
        rw n (record {
          stack = All-append (IsWalk g q) done.children s.stack kept.children i.stack;
          paths = kept.paths;
        })
  ]

  loop-IsSearch :
      (fuel : ℕ) (s : Search) → IsGraph g → IsSearch s → IsSearch (search_loop fuel g q w s)
  unfolding search_loop
  loop-IsSearch zero s a i = i
  loop-IsSearch (suc fuel) s a i = elim (Bool-cases (is_stopped s.stop)) [
    | inl y ↦ subst IsSearch (sym (stopped_loop g q w (λ p. true) (suc fuel) s y)) i
    | inr n ↦ elim (List-cases s.stack) [
      | inl m ↦ subst IsSearch (ground arith) i
      | inr (f, fs, m) ↦
          let popped : Search = record s { stack = fs } in
          let (top, rest) = subst (All (IsWalk g q)) m i.stack in
          let kept = expand-IsSearch f popped a top (record { stack = rest; paths = i.paths }) in
          subst IsSearch (ground arith) (loop-IsSearch fuel (expand g q w f popped) a kept)
    ]
  ]

  initial-IsSearch : IsSearch (initial q)
  unfolding initial
  initial-IsSearch =
      let start = source-IsWalk g q w in
      elim (List-cases q.target_ids) [
        | inl e ↦
            let none_there : initial_stack q ≡ [] = ground arith in
            record { stack = subst (All (IsWalk g q)) (sym none_there) tt; paths = tt }
        | inr (t, ts, e) ↦
            let one : initial_stack q ≡ source_frame q ∷ [] = ground arith in
            record { stack = subst (All (IsWalk g q)) (sym one) (start, tt); paths = tt }
      ]

-- Every path that a search of a graph finds is a route, also where the search stopped early: it goes
-- over edges that the query may see, from the source to one of the targets, each hop from where the
-- one before ended, along a template of the query's mode, through no node twice and over at most as
-- many hops as the query allows; its factors are those of its hops.
pub found_routes :
    (nodes : List RouteNode) (edges : List RouteEdge) (g : Graph) (q : RouteQuery) (w : Signals)
    (s : Search)
    → make_graph nodes edges ≡ ok g
    → search g q w ≡ ok s
    → All (IsRoute g q) s.paths
unfolding search finished
found_routes nodes edges g q w s m h =
    let kept =
      loop-IsSearch g q w (q.max_expansions + 2) (initial q) (make_graph-IsGraph nodes edges g m)
        (initial-IsSearch g q w) in
    let found : search_loop (q.max_expansions + 2) g q w (initial q) ≡ s = ground arith in
    subst (λ (t : Search). All (IsRoute g q) t.paths) found kept.paths
