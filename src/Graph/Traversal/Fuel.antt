-- ===== src/Graph/Traversal/Fuel.antt =====
-- The fuel of the breadth-first traversal.
use fd_open_data_mcp.Base.{
  nat_beq_iff, Bool-cases, length, In, In-append, length-append, nat_eq, list_eq, pair_eq, ◌==◌,
  contains, ℕ, zero, suc, ◌+◌, ◌≤◌, ◌<◌, ◌≡◌, refl, sym, ap, ◌∙◌, subst, inl, inr, false, ◌||◌,
  some, List, [], ◌∷◌, ◌++◌, arith,
}
use mathlib.Core.List.{map-append}
use fd_open_data_mcp.Graph.Manager.{Graph, pushes, open_degrees}
use fd_open_data_mcp.Graph.Traversal.{Order, nodes_of, is_skipped, visit, order_step, order_loop}

length-pushes : (visited ms : List ℕ) (d : ℕ) → length (pushes visited ms d) ≤ length ms
unfolding pushes
length-pushes visited [] d = omega arith
length-pushes visited (m ∷ ms) d = ground (arith, length-pushes visited ms d)

pub pushes-In :
    (visited ms : List ℕ) (d m k : ℕ)
    → In (m, k) (pushes visited ms d)
    → In m ms × (contains visited m ≡ false) × (k ≡ d)
unfolding pushes
pushes-In visited [] d m k = λ h. absurd h
pushes-In visited (x ∷ ms) d m k = elim (Bool-cases (contains visited x)) [
  | inl c ↦ rw c (λ h. let (i, v, q) = pushes-In visited ms d m k h in (inr i, v, q))
  | inr c ↦ rw c (λ h. elim h [
    | inl e ↦
        let same : m ≡ x = ap (λ p. p.0) e in
        (inl same, ap (contains visited) same ∙ c, ap (λ p. p.1) e)
    | inr j ↦ let (i, v, q) = pushes-In visited ms d m k j in (inr i, v, q)
  ])
]

pub In-pushes :
    (visited ms : List ℕ) (d m : ℕ)
    → In m ms
    → contains visited m ≡ false
    → In (m, d) (pushes visited ms d)
unfolding pushes
In-pushes visited [] d m h c = absurd h
In-pushes visited (x ∷ ms) d m (inl e) c =
    rw (ap (contains visited) (sym e) ∙ c) (inl (ap (λ n. (n, d)) e))
In-pushes visited (x ∷ ms) d m (inr i) c = elim (Bool-cases (contains visited x)) [
  | inl v ↦ rw v (In-pushes visited ms d m i c)
  | inr v ↦ rw v (inr (In-pushes visited ms d m i c))
]

pub contains-snoc :
    (xs : List ℕ) (n m : ℕ) → contains (xs ++ (n ∷ [])) m ≡ (contains xs m || n == m)
contains-snoc [] n m = ground arith
contains-snoc (x ∷ xs) n m = ground (arith, contains-snoc xs n m)

module _ (graph : Graph) where
  degrees-shrink :
      (visited ns : List ℕ) (n : ℕ)
      → open_degrees graph (visited ++ (n ∷ [])) ns ≤ open_degrees graph visited ns
  unfolding open_degrees
  degrees-shrink visited [] n = omega arith
  degrees-shrink visited (x ∷ ns) n =
      ground (arith, contains-snoc visited n x, degrees-shrink visited ns n)

  degrees-drop :
      (visited ns : List ℕ) (n : ℕ)
      → In n ns
      → contains visited n ≡ false
      → open_degrees graph (visited ++ (n ∷ [])) ns + length (graph.neighbors n)
        ≤ open_degrees graph visited ns
  unfolding open_degrees
  degrees-drop visited [] n i c = absurd i
  degrees-drop visited (x ∷ ns) n (inl e) c = ground (
    arith,
    contains-snoc visited n x,
    degrees-shrink visited ns n,
    nat_beq_iff n x,
    ap (λ k. length (graph.neighbors k)) e,
    ap (contains visited) e,
  )
  degrees-drop visited (x ∷ ns) n (inr i) c =
      ground (arith, contains-snoc visited n x, degrees-drop visited ns n i c, nat_beq_iff n x)

  -- The rounds that are left at most.
  abbrev pub rounds : Order → Order → ℕ
  rounds order queue = length queue + open_degrees graph (nodes_of order) graph.nodes

  -- Every entry of the queue is a node.
  abbrev pub AreNodes : Order → Type 0
  AreNodes queue = (n d : ℕ) → In (n, d) queue → In n graph.nodes

  pub skipped-false :
      (max_depth : ℕ) (order : Order) (n d : ℕ)
      → is_skipped max_depth order (n, d) ≡ false
      → (d ≤ max_depth) × (contains (nodes_of order) n ≡ false)
  skipped-false max_depth order n d h = ground (arith, h)

  pub nodes_of-visit :
      (order : Order) (n d : ℕ) → nodes_of (visit order (n, d)) ≡ nodes_of order ++ (n ∷ [])
  nodes_of-visit order n d = map-append (λ (x : ℕ × ℕ). x.0) order ((n, d) ∷ [])

  order_step-rounds :
      (max_depth : ℕ) (order queue : Order) (n d : ℕ)
      → In n graph.nodes
      → let (order', queue') = order_step graph max_depth order (n, d) queue in
        rounds order' queue' < rounds order ((n, d) ∷ queue)
  unfolding order_step
  order_step-rounds max_depth order queue n d i =
      elim (Bool-cases (is_skipped max_depth order (n, d))) [
        | inl s ↦ rw s (omega arith)
        | inr s ↦
            let (low, new) = skipped-false max_depth order n d s in
            let visited = nodes_of order in
            let visited' = nodes_of (visit order (n, d)) in
            let pushed = pushes visited' (graph.neighbors n) (suc d) in
            let drop =
              subst
                (λ v.
                  open_degrees graph v graph.nodes + length (graph.neighbors n)
                  ≤ open_degrees graph visited graph.nodes)
                (sym (nodes_of-visit order n d)) (degrees-drop visited graph.nodes n i new) in
            rw s (
              omega (
                arith,
                length-append queue pushed,
                length-pushes visited' (graph.neighbors n) (suc d),
                drop,
              ))
      ]

  order_step-AreNodes :
      (max_depth : ℕ) (order queue : Order) (n d : ℕ)
      → AreNodes queue
      → AreNodes (order_step graph max_depth order (n, d) queue).1
  unfolding order_step
  order_step-AreNodes max_depth order queue n d all =
      elim (Bool-cases (is_skipped max_depth order (n, d))) [
        | inl s ↦ rw s all
        | inr s ↦ rw s (λ m k h.
            elim ((In-append (m, k) queue
                (pushes (nodes_of (visit order (n, d))) (graph.neighbors n) (suc d))).0
              h) [
                | inl i ↦ all m k i
                | inr i ↦
                    graph.neighbors-In n m
                      (pushes-In (nodes_of (visit order (n, d))) (graph.neighbors n) (suc d) m k
                        i).0
              ])
      ]

  -- With more fuel than rounds the loop ends by itself.
  pub order_loop-ends :
      (f max_depth : ℕ) (order queue : Order)
      → AreNodes queue
      → rounds order queue < f
      → (order' : Order) × (order_loop f graph max_depth order queue ≡ some order')
  unfolding order_loop
  order_loop-ends zero max_depth order queue all l = absurd (omega (arith, l))
  order_loop-ends (suc f) max_depth order [] all l = (order, refl)
  order_loop-ends (suc f) max_depth order ((n, d) ∷ queue) all l =
      let less = order_step-rounds max_depth order queue n d (all n d (inl refl)) in
      let (order', queue') = order_step graph max_depth order (n, d) queue in
      order_loop-ends f max_depth order' queue'
        (order_step-AreNodes max_depth order queue n d (λ m k i. all m k (inr i)))
        (omega (arith, less, l))
