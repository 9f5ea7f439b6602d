-- ===== src/Graph/Traversal/Exact.antt =====
-- What the breadth-first traversal returns.
use fd_open_data_mcp.Base.{
  leb, leb→le, nat_beq_iff, Bool-cases, map_option, In, nat_eq, list_eq, pair_eq, Text, contains,
  count, Dict, ℕ, ◌≤◌, ◌<◌, ◌≡◌, sym, ap, ◌∙◌, subst, ◌↔◌, inl, inr, true, Option, some, List, [],
  ◌∷◌, arith,
}
use fd_open_data_mcp.Graph.Manager.{Graph, Metadata, bfs_fuel, bfs_traversal}
use fd_open_data_mcp.Graph.Traversal.{Order, nodes_of, report, loop_reported}
use fd_open_data_mcp.Graph.Traversal.Fuel.{AreNodes, order_loop-ends}
use fd_open_data_mcp.Graph.Traversal.Levels.{
  Walk, Invariant, order_loop-Invariant, Walk-visited, init-Invariant,
}

In-node : (order : Order) (n d : ℕ) → In (n, d) order → 1 ≤ count n (nodes_of order)
In-node [] n d i = absurd i
In-node ((m, k) ∷ order) n d (inl e) =
    let same : n ≡ m = ap (λ p. p.0) e in ground (arith, nat_beq_iff m n, same)
In-node ((m, k) ∷ order) n d (inr i) = ground (arith, In-node order n d i)

-- A node that stands once has one depth.
one_depth :
    (order : Order) (n d k : ℕ)
    → count n (nodes_of order) ≤ 1
    → In (n, d) order
    → In (n, k) order
    → d ≡ k
one_depth [] n d k l i j = absurd i
one_depth ((m, b) ∷ order) n d k l (inl e) (inl f) = ap (λ p. p.1) (e ∙ sym f)
one_depth ((m, b) ∷ order) n d k l (inl e) (inr j) =
    let same : n ≡ m = ap (λ p. p.0) e in
    absurd (ground (arith, l, nat_beq_iff m n, same, In-node order n k j))
one_depth ((m, b) ∷ order) n d k l (inr i) (inl f) =
    let same : n ≡ m = ap (λ p. p.0) f in
    absurd (ground (arith, l, nat_beq_iff m n, same, In-node order n d i))
one_depth ((m, b) ∷ order) n d k l (inr i) (inr j) = one_depth order n d k (ground (arith, l)) i j

-- A walk of this length to the node, and none that is shorter.
abbrev pub IsDistance : Graph → ℕ → ℕ → ℕ → Type 0
IsDistance graph start n d = Walk graph start n d × ((j : ℕ) → Walk graph start n j → d ≤ j)

module _ (graph : Graph) (start max_depth : ℕ) (order : Order)
    (v : Invariant graph start max_depth order []) where
  entry-IsDistance : (n d : ℕ) → In (n, d) order → IsDistance graph start n d
  entry-IsDistance n d i = (v.walked n d (inl i), λ j w. least j w)
    where
      least : (j : ℕ) → Walk graph start n j → d ≤ j
      least j w = elim (Bool-cases (leb d j)) [
        | inl l ↦ leb→le d j l
        | inr l ↦
            let less : j < d = ground (arith, l) in
            let (k, i', h) =
              Walk-visited graph start max_depth order n j v w (omega (arith, v.low n d i, less)) in
            let same = one_depth order n d k (v.distinct n) i i' in omega (arith, same, h)
      ]

  IsDistance-entry : (n d : ℕ) → IsDistance graph start n d → d ≤ max_depth → In (n, d) order
  IsDistance-entry n d (w, least) l =
      let (k, i, h) = Walk-visited graph start max_depth order n d v w l in
      let same : k ≡ d = omega (arith, h, least k (v.walked n k (inl i))) in
      subst (λ (x : ℕ). In (n, x) order) same i

contains-In : (xs : List ℕ) (n : ℕ) → contains xs n ≡ true → In n xs
contains-In [] n h = cc h
contains-In (x ∷ xs) n h = ground (arith, h, nat_beq_iff x n, contains-In xs n)

start-AreNodes :
    (graph : Graph) (start : ℕ)
    → contains graph.nodes start ≡ true
    → AreNodes graph ((start, 0) ∷ [])
start-AreNodes graph start c n d (inl e) =
    subst (λ (x : ℕ). In x graph.nodes) (sym (ap (λ p. p.0) e)) (contains-In graph.nodes start c)
start-AreNodes graph start c n d (inr z) = absurd z

-- From a node of the graph the breadth-first traversal returns, with the fuel that it is given. It
-- reports, after the filter, on nodes each of which stands once: exactly those at a distance of at
-- most the limit, each with its distance, the length of a shortest walk to it.
pub bfs_exact :
    (graph : Graph) (metadata : Dict ℕ Metadata) (start max_depth : ℕ) (filter : Option Text)
    → contains graph.nodes start ≡ true
    → (order : Order) × (bfs_traversal graph metadata start max_depth filter
        ≡ some (report metadata filter order))
      × ((n : ℕ) → count n (nodes_of order) ≤ 1)
      × ((n d : ℕ) → In (n, d) order ↔ (IsDistance graph start n d × (d ≤ max_depth)))
unfolding bfs_traversal
bfs_exact graph metadata start max_depth filter c =
    let (order, e) =
      order_loop-ends graph (bfs_fuel graph) max_depth [] ((start, 0) ∷ [])
        (start-AreNodes graph start c) (omega arith) in
    let v =
      order_loop-Invariant graph start max_depth (bfs_fuel graph) [] ((start, 0) ∷ []) order
        (init-Invariant graph start max_depth) e in
    (
      order,
      rw c (
          loop_reported metadata filter graph max_depth (bfs_fuel graph) [] ((start, 0) ∷ [])
          ∙ ap (map_option (report metadata filter)) e),
      v.distinct,
      λ n d. (
        λ i. (entry-IsDistance graph start max_depth order v n d i, v.low n d i),
        λ x. IsDistance-entry graph start max_depth order v n d x.0 x.1,
      ),
    )
