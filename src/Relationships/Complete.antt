-- ===== src/Relationships/Complete.antt =====
-- What a search finds that runs to its end, against a plain enumeration of the routes.
use btx_omni_prospect.Prelude.{
  ℕ, zero, suc, ◌+◌, ◌-◌, ◌≤◌, ◌<◌, Bool, true, false, ◌||◌, none, List, [], ◌∷◌, ◌++◌, ◌≡◌, refl,
  ap, any, length, length-append, arith, if◌then◌else◌, leb, inl, inr, Bool-cases, List-cases,
}
use btx_omni_prospect.Prelude.Result.{ok, err, Result-cases}
use btx_omni_prospect.Relationships.Graph.{RouteQuery, Hop, Graph, hops_at}
use btx_omni_prospect.Relationships.Factors.{route_factors}
use btx_omni_prospect.Relationships.Search.{
  Frame, RoutePath, Signals, Progress, Search, extended, walks, arrives, path_of, recorded, walked,
  examine, visit, visit_all, is_stopped, expand, search_loop, initial, search, finished,
  source_frame,
}
use btx_omni_prospect.Relationships.Bounds.{search_ends}

-- The path of a frame that arrives.
abbrev pub arrived : RouteQuery → Frame → List RoutePath
arrived q f =
    if arrives q f
    then elim (route_factors q f.hops) [ err e ↦ [] | ok factors ↦ path_of f factors ∷ [] ]
    else []

-- The routes over the hops that may be walked, and those beyond each.
abbrev pub routes_over :
    Graph → RouteQuery → (Frame → List RoutePath) → Frame → List Hop → List RoutePath
routes_over g q beyond f [] = []
routes_over g q beyond f (h ∷ hs) =
    let child = extended f h in
    let rest = routes_over g q beyond f hs in
    if walks g q f h then arrived q child ++ (beyond child ++ rest) else rest

-- Every route with at most n more hops.
unfoldable pub routes_from : Graph → RouteQuery → ℕ → Frame → List RoutePath
routes_from g q zero f = []
routes_from g q (suc n) f = routes_over g q (routes_from g q n) f (hops_at f.current g.adjacency)

unfoldable pub all_routes : Graph → RouteQuery → List RoutePath
all_routes g q = elim q.target_ids [
  | [] ↦ []
  | t ∷ ts ↦ routes_from g q q.max_depth (source_frame q)
]

any-append {ℓ} :
    {A : Type ℓ} (p : A → Bool) (xs ys : List A) → any p (xs ++ ys) ≡ (any p xs || any p ys)
any-append p [] ys = refl
any-append p (x ∷ xs) ys = ground (arith, any-append p xs ys)

module _ (g : Graph) (q : RouteQuery) (w : Signals) (p : RoutePath → Bool) where
  abbrev beyond : Frame → List RoutePath
  beyond f = routes_from g q (q.max_depth - length f.hops) f

  abbrev below : Frame → Bool
  below f = any p (beyond f)

  length-extended : (f : Frame) (h : Hop) → length (extended f h).hops ≡ length f.hops + 1
  unfolding extended
  length-extended f h = ground (arith, length-append f.hops (h ∷ []))

  module _ (f : Frame) where
    routes_over-beyond :
        (n : ℕ) (hs : List Hop)
        → q.max_depth ≡ length f.hops + suc n
        → routes_over g q (routes_from g q n) f hs ≡ routes_over g q beyond f hs
    routes_over-beyond n [] e = refl
    routes_over-beyond n (h ∷ hs) e =
        let depth : q.max_depth - length (extended f h).hops ≡ n =
          omega (arith, length-extended f h) in
        rw (depth, routes_over-beyond n hs e) refl

    -- What one hop adds to the paths found and to those below the children.
    walked_lem :
        (child : Frame) (s : Progress)
        → is_stopped (walked q child s).stop ≡ false
        → (any p (walked q child s).paths || any below (walked q child s).children)
          ≡ ((any p s.paths || any below s.children) || (any p (arrived q child) || below child))
    unfolding walked recorded
    walked_lem child s n = elim (Bool-cases (arrives q child)) [
      | inr m ↦ ground (arith, any-append below s.children (child ∷ []))
      | inl y ↦ elim (Result-cases (route_factors q child.hops)) [
        | inl (x, h) ↦ ground arith
        | inr (factors, h) ↦ ground (
          arith,
          any-append below s.children (child ∷ []),
          any-append p s.paths (path_of child factors ∷ []),
        )
      ]
    ]

    visit_lem :
        (h : Hop) (s : Progress)
        → is_stopped s.stop ≡ false
        → is_stopped (visit g q w f h s).stop ≡ false
        → (any p (visit g q w f h s).paths || any below (visit g q w f h s).children)
          ≡ ((any p s.paths || any below s.children) || any p (routes_over g q beyond f (h ∷ [])))
    unfolding visit examine
    visit_lem h s k n = ground (
      arith,
      walked_lem (extended f h) (record s { examined = s.examined + 1 }),
      any-append p (arrived q (extended f h)) (beyond (extended f h) ++ []),
      any-append p (beyond (extended f h)) [],
    )

    over-cons :
        (h : Hop) (hs : List Hop)
        → any p (routes_over g q beyond f (h ∷ hs))
          ≡ (any p (routes_over g q beyond f (h ∷ [])) || any p (routes_over g q beyond f hs))
    over-cons h hs =
        let child = extended f h in
        let rest = routes_over g q beyond f hs in
        ground (
          arith,
          any-append p (arrived q child) (beyond child ++ rest),
          any-append p (beyond child) rest,
          any-append p (arrived q child) (beyond child ++ []),
          any-append p (beyond child) [],
        )

    visit_all_lem :
        (hs : List Hop) (s : Progress)
        → is_stopped s.stop ≡ false
        → is_stopped (visit_all g q w f hs s).stop ≡ false
        → (any p (visit_all g q w f hs s).paths || any below (visit_all g q w f hs s).children)
          ≡ ((any p s.paths || any below s.children) || any p (routes_over g q beyond f hs))
    unfolding visit_all
    visit_all_lem [] s k n = ground arith
    visit_all_lem (h ∷ hs) s k n =
        let next = visit g q w f h s in
        elim (Bool-cases (is_stopped next.stop)) [
          | inl y ↦ ground arith
          | inr m ↦ ground (arith, visit_lem h s k m, visit_all_lem hs next m, over-cons h hs)
        ]

    beyond_lem :
        length f.hops < q.max_depth
        → beyond f ≡ routes_over g q beyond f (hops_at f.current g.adjacency)
    unfolding routes_from
    beyond_lem b =
        let n = q.max_depth - length f.hops - 1 in
        let e : q.max_depth - length f.hops ≡ suc n = omega arith in
        rw e (routes_over-beyond n (hops_at f.current g.adjacency) (omega arith))

    expand_lem :
        (s : Search)
        → is_stopped s.stop ≡ false
        → is_stopped (expand g q w f s).stop ≡ false
        → (any p (expand g q w f s).paths || any below (expand g q w f s).stack)
          ≡ ((any p s.paths || below f) || any below s.stack)
    unfolding expand
    expand_lem s k n = elim (Bool-cases (leb q.max_depth (length f.hops))) [
      | inl y ↦
          let e : q.max_depth - length f.hops ≡ 0 = ground arith in
          let none_below : below f ≡ false = unfold routes_from in rw e refl in ground arith
      | inr m ↦
          let start : Progress = record {
            children = [];
            paths = s.paths;
            examined = s.examined;
            stop = none;
          } in
          let hs = hops_at f.current g.adjacency in
          let done = visit_all g q w f hs start in
          ground (
            arith,
            visit_all_lem hs start refl,
            ap (any p) (beyond_lem (ground arith)),
            any-append below done.children s.stack,
          )
    ]

  pub stopped_loop :
      (fuel : ℕ) (s : Search) → is_stopped s.stop ≡ true → search_loop fuel g q w s ≡ s
  unfolding search_loop
  stopped_loop zero s y = refl
  stopped_loop (suc fuel) s y = ground arith

  loop_lem :
      (fuel : ℕ) (s : Search)
      → is_stopped (search_loop fuel g q w s).stop ≡ false
      → (any p (search_loop fuel g q w s).paths || any below (search_loop fuel g q w s).stack)
        ≡ (any p s.paths || any below s.stack)
  unfolding search_loop
  loop_lem zero s n = refl
  loop_lem (suc fuel) s n = elim (Bool-cases (is_stopped s.stop)) [
    | inl y ↦ ground arith
    | inr m ↦ elim (List-cases s.stack) [
      | inl e ↦ ground arith
      | inr (f, fs, e) ↦
          let popped : Search = record s { stack = fs } in
          let next = expand g q w f popped in
          elim (Bool-cases (is_stopped next.stop)) [
            | inr k ↦ ground (arith, expand_lem f popped m k, loop_lem fuel next)
            | inl k ↦ ground (arith, stopped_loop fuel next k)
          ]
    ]
  ]

  initial_lem : (any p (initial q).paths || any below (initial q).stack) ≡ any p (all_routes g q)
  unfolding initial all_routes
  initial_lem = elim (List-cases q.target_ids) [
    | inl e ↦ ground arith
    | inr (t, ts, e) ↦
        let d : q.max_depth - 0 ≡ q.max_depth = omega arith in
        ground (arith, ap (λ n. any p (routes_from g q n (source_frame q))) d)
  ]

-- A search that gives no reason to stop has found exactly the routes: a path with any property is
-- among the paths that it found just when it is among those of the plain enumeration, of every walk
-- from the source over allowed edges, without a node twice, along a template and no deeper than the
-- query says, that ends on a target.
pub search_complete :
    (g : Graph) (q : RouteQuery) (w : Signals) (s : Search) (p : RoutePath → Bool)
    → 1 ≤ q.max_candidates
    → search g q w ≡ ok s
    → is_stopped s.stop ≡ false
    → any p s.paths ≡ any p (all_routes g q)
unfolding search finished
search_complete g q w s p c h n =
    let ends = search_ends g q w s c h in
    let same : search_loop (q.max_expansions + 2) g q w (initial q) ≡ s = ground arith in
    let kept = loop_lem g q w p (q.max_expansions + 2) (initial q) (ground arith) in
    elim (List-cases s.stack) [
      | inl e ↦ ground (arith, kept, initial_lem g q w p, ends.0)
      | inr (f, fs, e) ↦ ground (arith, ends.0)
    ]
