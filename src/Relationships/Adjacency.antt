-- ===== src/Relationships/Adjacency.antt =====
-- The adjacency lists of a graph that was built.
use btx_omni_prospect.Prelude.{
  String, true, false, not, List, [], ◌∷◌, ◌++◌, ◌≡◌, refl, sym, subst, All, length, arith,
  if◌then◌else◌, inl, inr, Bool-cases, Option-cases, ◌==◌, string_eq, nat_eq,
}
use btx_omni_prospect.Prelude.Sorting.{sorted}
use btx_omni_prospect.Prelude.Result.{ok, raise_if, >>=-eq-ok}
use btx_omni_prospect.Prelude.Dict.{lookup, insert, lookup-insert}
use btx_omni_prospect.Relationships.Graph.{
  RouteNode, RouteEdge, Hop, Graph, hops_at, linked, with_edge, add_edge, add_edges, make_graph,
  is_given, nodes_by_id, duplicate_node, edge_le,
}

-- Where a hop starts.
abbrev pub origin : Hop → String
origin (e, inverse) = if inverse then e.target else e.source

abbrev pub Leave : String → List Hop → Type 0
Leave node hs = All (λ h. origin h ≡ node) hs

-- The adjacency lists hold hops that leave their node.
pub record IsGraph (g : Graph) : Type 0 where
  pub leave : (node : String) → Leave node (hops_at node g.adjacency)

pub All-snoc {ℓ κ} :
    {A : Type ℓ} (P : A → Type κ) (xs : List A) (x : A) → All P xs → P x → All P (xs ++ x ∷ [])
All-snoc P [] x h p = (p, tt)
All-snoc P (y ∷ ys) x h p = (h.0, All-snoc P ys x h.1 p)

pub All-append {ℓ κ} :
    {A : Type ℓ} (P : A → Type κ) (xs ys : List A) → All P xs → All P ys → All P (xs ++ ys)
All-append P [] ys p q = q
All-append P (x ∷ xs) ys p q = (p.0, All-append P xs ys p.1 q)

linked-Leave :
    (node : String) (h : Hop) (adjacency : List (String × List Hop))
    → origin h ≡ node
    → ((n : String) → Leave n (hops_at n adjacency))
    → (n : String) → Leave n (hops_at n (linked node h adjacency))
unfolding linked
linked-Leave node h adjacency o v n =
    let longer = hops_at node adjacency ++ h ∷ [] in
    let found = lookup-insert node n longer adjacency in
    elim (Bool-cases (node == n)) [
      | inl y ↦
          let e : hops_at n (insert node longer adjacency) ≡ longer = ground (arith, found) in
          let same : node ≡ n = ground (arith, string_eq.same_iff node n) in
          subst (λ m. Leave m (hops_at n (insert node longer adjacency))) same
            (subst (Leave node) (sym e)
              (All-snoc (λ k. origin k ≡ node) (hops_at node adjacency) h (v node) o))
      | inr m ↦
          let e : hops_at n (insert node longer adjacency) ≡ hops_at n adjacency =
            ground (arith, found) in
          subst (Leave n) (sym e) (v n)
    ]

with_edge-IsGraph : (e : RouteEdge) (g : Graph) → IsGraph g → IsGraph (with_edge e g)
unfolding with_edge
with_edge-IsGraph e g v = record {
  leave = λ node.
      let forward = linked-Leave e.source (e, false) g.adjacency refl v.leave in
      elim (Bool-cases (is_given e.inverse_modes)) [
        | inl y ↦ rw y (
            linked-Leave e.target (e, true) (linked e.source (e, false) g.adjacency) refl forward
              node)
        | inr n ↦ rw n (forward node)
      ];
}

add_edge-IsGraph : (e : RouteEdge) (g f : Graph) → IsGraph g → add_edge e g ≡ ok f → IsGraph f
unfolding add_edge
add_edge-IsGraph e g f v h = elim (Option-cases (lookup e.id g.edges)) [
  | inl a ↦ subst IsGraph (ground arith) (with_edge-IsGraph e g v)
  | inr (old, a) ↦ subst IsGraph (ground arith) v
]

add_edges-IsGraph :
    (es : List RouteEdge) (g f : Graph) → IsGraph g → add_edges es g ≡ ok f → IsGraph f
unfolding add_edges
add_edges-IsGraph [] g f v h = subst IsGraph (ground arith) v
add_edges-IsGraph (e ∷ es) g f v h =
    let (next, added, rest) = >>=-eq-ok (add_edge e g) (add_edges es) h in
    add_edges-IsGraph es next f (add_edge-IsGraph e g next v added) rest

pub make_graph-IsGraph :
    (nodes : List RouteNode) (edges : List RouteEdge) (g : Graph)
    → make_graph nodes edges ≡ ok g
    → IsGraph g
unfolding make_graph
make_graph-IsGraph nodes edges g h =
    let ns = nodes_by_id nodes in
    let (_, fresh, added) =
      >>=-eq-ok (raise_if (not (length ns == length nodes)) duplicate_node) _ h in
    add_edges-IsGraph (sorted edge_le edges) (record { nodes = ns; edges = []; adjacency = [] }) g
      (record { leave = λ node. unfold lookup in tt }) added
