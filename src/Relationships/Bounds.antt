-- ===== src/Relationships/Bounds.antt =====
-- The search ends, and stays within its budgets.
use btx_omni_prospect.Prelude.{
  ℕ, zero, suc, ◌+◌, ◌≤◌, ◌<◌, true, false, none, List, [], ◌∷◌, ◌≡◌, refl, length, length-append,
  arith, inl, inr, Bool-cases, List-cases, List-cases,
}
use btx_omni_prospect.Prelude.Result.{ok, Result-cases}
use btx_omni_prospect.Relationships.Graph.{RouteQuery, Hop, Graph, hops_at}
use btx_omni_prospect.Relationships.Factors.{route_factors}
use btx_omni_prospect.Relationships.Search.{
  Frame, Signals, Progress, Search, extended, path_of, recorded, walked, examine, visit, visit_all,
  is_stopped, expand, over, search_loop, initial, search, finished,
}

-- From s to t at most as many children are added as edges are examined, and the budgets hold.
pub record Steps (q : RouteQuery) (s t : Progress) : Type 0 where
  pub forward : s.examined ≤ t.examined
  pub paid : length t.children + s.examined ≤ length s.children + t.examined
  pub budget : t.examined ≤ q.max_expansions
  pub room : is_stopped t.stop ≡ false → length t.paths < q.max_candidates
  pub candidates : length t.paths ≤ q.max_candidates

pub record Fits (q : RouteQuery) (s : Progress) : Type 0 where
  pub budget : s.examined ≤ q.max_expansions
  pub room : length s.paths < q.max_candidates

module _ (g : Graph) (q : RouteQuery) (w : Signals) (f : Frame) where
  walked-Steps :
      (child : Frame) (s : Progress) (n : ℕ)
      → s.examined ≡ n + 1
      → s.examined ≤ q.max_expansions
      → length s.paths < q.max_candidates
      → Steps q (record s { examined = n }) (walked q child s)
  unfolding walked recorded
  walked-Steps child s n e b r = elim (Result-cases (route_factors q child.hops)) [
    | inl (x, h) ↦ ground (arith, length-append s.children (child ∷ []))
    | inr (factors, h) ↦ ground (
      arith,
      length-append s.children (child ∷ []),
      length-append s.paths (path_of child factors ∷ []),
    )
  ]

  visit-Steps : (h : Hop) (s : Progress) → Fits q s → Steps q s (visit g q w f h s)
  unfolding visit examine
  visit-Steps h s fits = ground (
    arith,
    walked-Steps (extended f h) (record s { examined = s.examined + 1 }) s.examined,
    fits.budget,
    fits.room,
  )

  visit_all-Steps :
      (hs : List Hop) (s : Progress)
      → is_stopped s.stop ≡ false
      → Fits q s
      → Steps q s (visit_all g q w f hs s)
  unfolding visit_all
  visit_all-Steps [] s n fits = ground (arith, fits.budget, fits.room)
  visit_all-Steps (h ∷ hs) s n fits =
      let one = visit-Steps h s fits in
      let next = visit g q w f h s in
      elim (Bool-cases (is_stopped next.stop)) [
        | inl y ↦ ground (arith, one.forward, one.paid, one.budget, one.room, one.candidates)
        | inr m ↦
            let rest =
              visit_all-Steps hs next m (record { budget = one.budget; room = one.room m }) in
            ground (
              arith, one.forward, one.paid, rest.forward, rest.paid, rest.budget, rest.room,
              rest.candidates,
            )
      ]

-- The budgets of a search.
pub record WithinBudget (q : RouteQuery) (s : Search) : Type 0 where
  pub expansions : s.examined ≤ q.max_expansions
  pub candidates : length s.paths ≤ q.max_candidates
  pub room : is_stopped s.stop ≡ false → length s.paths < q.max_candidates

module _ (g : Graph) (q : RouteQuery) (w : Signals) where
  expand-WithinBudget :
      (f : Frame) (s : Search)
      → is_stopped s.stop ≡ false
      → WithinBudget q s
      → WithinBudget q (expand g q w f s)
        × (length (expand g q w f s).stack + s.examined
            ≤ length s.stack + (expand g q w f s).examined)
  unfolding expand
  expand-WithinBudget f s n b =
      let start : Progress = record {
        children = [];
        paths = s.paths;
        examined = s.examined;
        stop = none;
      } in
      let hs = hops_at f.current g.adjacency in
      let p = visit_all g q w f hs start in
      let steps =
        visit_all-Steps g q w f hs start refl (record { budget = b.expansions; room = b.room n }) in
      ground (
        arith,
        b.expansions,
        b.candidates,
        b.room,
        steps.paid,
        steps.budget,
        steps.room,
        steps.candidates,
        length-append p.children s.stack,
      )

  -- Enough fuel for the frames on the stack and the edges that may still be examined.
  loop_ends :
      (fuel : ℕ) (s : Search)
      → length s.stack + q.max_expansions ≤ fuel + s.examined
      → WithinBudget q s
      → (over (search_loop fuel g q w s) ≡ true) × WithinBudget q (search_loop fuel g q w s)
  unfolding search_loop
  loop_ends zero s m b = elim (Bool-cases (is_stopped s.stop)) [
    | inl y ↦ (ground arith, b)
    | inr n ↦ (ground (arith, b.expansions), b)
  ]
  loop_ends (suc fuel) s m b = elim (Bool-cases (is_stopped s.stop)) [
    | inl y ↦ ground (arith, b.expansions, b.candidates, b.room)
    | inr n ↦ elim (List-cases s.stack) [
      | inl e ↦ ground (arith, b.expansions, b.candidates, b.room)
      | inr (f, fs, e) ↦
          let popped : Search = record s { stack = fs } in
          let (kept, paid) =
            expand-WithinBudget f popped n
              (record { expansions = b.expansions; candidates = b.candidates; room = b.room }) in
          let ih = loop_ends fuel (expand g q w f popped) (ground arith) kept in
          ground (arith, ih.0, ih.1)
    ]
  ]

-- A search that returns (one that is admitted, and in which no factors of a route raise) has ended:
-- its stack is empty or it names a reason to stop. It has examined at most as many edges and found at
-- most as many paths as the query allows.
pub search_ends :
    (g : Graph) (q : RouteQuery) (w : Signals) (s : Search)
    → 1 ≤ q.max_candidates
    → search g q w ≡ ok s
    → (over s ≡ true) × WithinBudget q s
unfolding search initial finished
search_ends g q w s c h =
    let ends = loop_ends g q w (q.max_expansions + 2) (initial q) (ground arith) (ground arith) in
    ground (arith, ends.0, ends.1)
