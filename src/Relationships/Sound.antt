-- ===== src/Relationships/Sound.antt =====
-- What a walk and a route are, and that the steps of the search build them.
use btx_omni_prospect.Prelude.{
  ◌≤◌, ◌<◌, String, Bool, true, false, not, ◌&&◌, ◌||◌, List, [], ◌∷◌, ◌++◌, ◌≡◌, refl, sym, ◌∙◌,
  ap, any, all, elem, map, length, length-append, arith, ◌==◌, string_eq, beq_refl,
}
use btx_omni_prospect.Prelude.Result.{ok}
use btx_omni_prospect.Relationships.Graph.{RouteQuery, Hop, Graph, same_texts}
use btx_omni_prospect.Relationships.Access.{edge_allowed}
use btx_omni_prospect.Relationships.Factors.{RouteFactors, route_factors, templates}
use btx_omni_prospect.Relationships.Search.{
  Frame, RoutePath, Signals, extended, walks, arrives, path_of, source_frame, next_node, token,
}
use btx_omni_prospect.Relationships.Adjacency.{origin}

abbrev pub distinct : List String → Bool
distinct [] = true
distinct (x ∷ xs) = not (elem x xs) && distinct xs

-- Each hop leaves the node that the one before reached, from a first node to a last.
abbrev pub chained : String → List Hop → String → Bool
chained a [] b = a == b
chained a (h ∷ hs) b = origin h == a && chained (next_node h) hs b

-- The walk of a frame: over allowed edges, no node twice, no deeper than the query says.
pub record IsWalk (g : Graph) (q : RouteQuery) (f : Frame) : Type 0 where
  pub nodes : f.nodes ≡ q.source_id ∷ map next_node f.hops
  pub tokens : f.sequence ≡ map token f.hops
  pub simple : distinct f.nodes ≡ true
  pub allowed : all (λ h. edge_allowed g h.0 h.1 q) f.hops ≡ true
  pub chain : chained q.source_id f.hops f.current ≡ true
  pub depth : length f.hops ≤ q.max_depth

-- A walk from the source to a target, along a template of the query's mode.
pub record IsRoute (g : Graph) (q : RouteQuery) (p : RoutePath) : Type 0 where
  pub nodes : p.node_ids ≡ q.source_id ∷ map next_node p.hops
  pub simple : distinct p.node_ids ≡ true
  pub allowed : all (λ h. edge_allowed g h.0 h.1 q) p.hops ≡ true
  pub target : String
  pub on_target : elem target q.target_ids ≡ true
  pub chain : chained q.source_id p.hops target ≡ true
  pub template : any (same_texts (map token p.hops)) (templates q.mode) ≡ true
  pub depth : length p.hops ≤ q.max_depth
  pub scored : route_factors q p.hops ≡ ok p.factors

elem-snoc : (x y : String) (xs : List String) → elem x (xs ++ y ∷ []) ≡ (elem x xs || y == x)
elem-snoc x y [] = ground arith
elem-snoc x y (z ∷ zs) = ground (arith, elem-snoc x y zs)

distinct-snoc :
    (xs : List String) (y : String)
    → distinct xs ≡ true
    → elem y xs ≡ false
    → distinct (xs ++ y ∷ []) ≡ true
distinct-snoc [] y d n = refl
distinct-snoc (x ∷ xs) y d n =
    ground
      (arith, distinct-snoc xs y, elem-snoc x y xs, string_eq.same_iff x y, string_eq.same_iff y x)

map-snoc {ℓ} :
    {A B : Type ℓ} (f : A → B) (xs : List A) (x : A) → map f (xs ++ x ∷ []) ≡ map f xs ++ f x ∷ []
map-snoc f [] x = refl
map-snoc f (y ∷ ys) x = ap (λ zs. f y ∷ zs) (map-snoc f ys x)

all-snoc {ℓ} :
    {A : Type ℓ} (p : A → Bool) (xs : List A) (x : A) → all p (xs ++ x ∷ []) ≡ (all p xs && p x)
all-snoc p [] x = ground arith
all-snoc p (y ∷ ys) x = ground (arith, all-snoc p ys x)

chained-snoc :
    (a : String) (hs : List Hop) (b : String) (h : Hop)
    → chained a hs b ≡ true
    → origin h ≡ b
    → chained a (hs ++ h ∷ []) (next_node h) ≡ true
chained-snoc a [] b h c o =
    ground (arith, string_eq.same_iff a b, string_eq.same_iff (origin h) a, beq_refl (next_node h))
chained-snoc a (k ∷ ks) b h c o = ground (arith, chained-snoc (next_node k) ks b h)

module _ (g : Graph) (q : RouteQuery) (w : Signals) where
  pub source-IsWalk : IsWalk g q (source_frame q)
  source-IsWalk = ground (arith, beq_refl q.source_id)

  pub extended-IsWalk :
      (f : Frame) (h : Hop)
      → IsWalk g q f
      → origin h ≡ f.current
      → walks g q f h ≡ true
      → length f.hops < q.max_depth
      → IsWalk g q (extended f h)
  unfolding extended walks
  extended-IsWalk f h v o t b = record {
    nodes =
        ap (λ ns. ns ++ next_node h ∷ []) v.nodes
        ∙ ap (λ ns. q.source_id ∷ ns) (sym (map-snoc next_node f.hops h));
    tokens = ap (λ ts. ts ++ token h ∷ []) v.tokens ∙ sym (map-snoc token f.hops h);
    simple = distinct-snoc f.nodes (next_node h) v.simple (ground arith);
    allowed = ground (arith, all-snoc (λ (k : Hop). edge_allowed g k.0 k.1 q) f.hops h, v.allowed);
    chain = chained-snoc q.source_id f.hops f.current h v.chain o;
    depth = omega (arith, length-append f.hops (h ∷ []));
  }

  pub arrives-IsRoute :
      (f : Frame)
      → IsWalk g q f
      → arrives q f ≡ true
      → (fs : RouteFactors) → route_factors q f.hops ≡ ok fs
      → IsRoute g q (path_of f fs)
  unfolding arrives
  arrives-IsRoute f v a fs e = record {
    nodes = v.nodes;
    simple = v.simple;
    allowed = v.allowed;
    target = f.current;
    on_target = ground arith;
    chain = v.chain;
    template = ground (arith, ap (λ ts. any (same_texts ts) (templates q.mode)) v.tokens);
    depth = v.depth;
    scored = e;
  }
