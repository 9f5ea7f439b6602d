-- ===== src/Graph/Depth.antt =====
-- The depth-first traversal.
use fd_open_data_mcp.Base.{
  if◌then◌else◌, nat_beq_iff, Bool-cases, In, In-append, collect, nat_eq, list_eq, pair_eq, Text,
  contains, count, contains-count, count-append, Dict, ℕ, zero, suc, ◌+◌, ◌≤◌, ◌≡◌, refl, sym, ap,
  ◌∙◌, subst, inl, inr, false, Option, List, [], ◌∷◌, ◌++◌, arith,
}
use fd_open_data_mcp.Graph.Manager.{
  Graph, Metadata, Visit, Seen, appended, dfs_entry, dfs_each, dfs_from, dfs_traversal,
}
use fd_open_data_mcp.Graph.Traversal.{Order, nodes_of, visit, collect-append}
use fd_open_data_mcp.Graph.Traversal.Fuel.{nodes_of-visit}
use fd_open_data_mcp.Graph.Traversal.Levels.{Walk, stays, goes}

-- Nodes that were visited at these depths, each once, and the results that they have given.
pub record IsOrder (graph : Graph) (metadata : Dict ℕ Metadata) (filter : Option Text)
    (start max_depth : ℕ) (order : Order) (seen : Seen) : Type 0 where
  pub walked : (n d : ℕ) → In (n, d) order → Walk graph start n d × (d ≤ max_depth)
  pub distinct : (n : ℕ) → count n (nodes_of order) ≤ 1
  pub visited : seen.0 ≡ nodes_of order
  pub reported : seen.1 ≡ collect (dfs_entry metadata filter) order

module _ (graph : Graph) (metadata : Dict ℕ Metadata) (filter : Option Text)
    (start max_depth : ℕ) where
  abbrev pub HasOrder : Seen → Type 0
  HasOrder seen = (order : Order) × IsOrder graph metadata filter start max_depth order seen

  each-HasOrder :
      (dfs : ℕ → Seen → Seen) (ms : List ℕ)
      → ((m : ℕ) (seen : Seen) → In m ms → HasOrder seen → HasOrder (dfs m seen))
      → (seen : Seen) → HasOrder seen
      → HasOrder (dfs_each dfs ms seen)
  unfolding dfs_each
  each-HasOrder dfs [] each seen h = h
  each-HasOrder dfs (m ∷ ms) each seen h =
      each-HasOrder dfs ms (λ k s i. each k s (inr i))
        (if contains seen.0 m then seen else dfs m seen)
        (elim (Bool-cases (contains seen.0 m)) [
          | inl c ↦ rw c h
          | inr c ↦ rw c (each m seen (inl refl) h)
        ])

  visit-HasOrder :
      (n d : ℕ) (visited : List ℕ) (results : List Visit)
      → Walk graph start n d
      → d ≤ max_depth
      → contains visited n ≡ false
      → HasOrder (visited, results)
      → HasOrder (visited ++ (n ∷ []), appended results (dfs_entry metadata filter (n, d)))
  visit-HasOrder n d visited results w l new (order, o) = (
    visit order (n, d),
    record {
      walked = λ m k i. elim ((In-append (m, k) order ((n, d) ∷ [])).0 i) [
        | inl old ↦ o.walked m k old
        | inr (inl e) ↦
            subst (λ (x : ℕ × ℕ). Walk graph start x.0 x.1 × (x.1 ≤ max_depth)) (sym e) (w, l)
        | inr (inr z) ↦ absurd z
      ];
      distinct = λ a. rw (nodes_of-visit graph order n d) (
          ground (
            arith,
            count-append a (nodes_of order) (n ∷ []),
            contains-count (nodes_of order) n,
            ap (λ v. contains v n) (sym o.visited) ∙ new,
            o.distinct a,
            nat_beq_iff n a,
          ));
      visited = ap (λ v. v ++ (n ∷ [])) o.visited ∙ sym (nodes_of-visit graph order n d);
      reported =
          ap (λ r. appended r (dfs_entry metadata filter (n, d))) o.reported
          ∙ sym (collect-append (dfs_entry metadata filter) order (n, d));
    },
  )

  from-HasOrder :
      (left n d : ℕ) (seen : Seen)
      → Walk graph start n d
      → d + left ≤ suc max_depth
      → HasOrder seen
      → HasOrder (dfs_from graph metadata filter left n d seen)
  unfolding dfs_from
  from-HasOrder zero n d seen w l h = h
  from-HasOrder (suc left) n d (visited, results) w l h = elim (Bool-cases (contains visited n)) [
    | inl c ↦ rw c h
    | inr c ↦ rw c (
        each-HasOrder (λ m s. dfs_from graph metadata filter left m (suc d) s) (graph.neighbors n)
          (λ m s i k. from-HasOrder left m (suc d) s (goes n m d w i) (omega (arith, l)) k)
          (visited ++ (n ∷ []), appended results (dfs_entry metadata filter (n, d)))
          (visit-HasOrder n d visited results w (omega (arith, l)) c h))
  ]

-- The depth-first traversal returns on every graph. It reports, after the filter, on nodes each of
-- which stands once and is reached by a walk from the start of the reported length, which is at most
-- the limit.
pub dfs_sound :
    (graph : Graph) (metadata : Dict ℕ Metadata) (start max_depth : ℕ) (filter : Option Text)
    → (order : Order) × (dfs_traversal graph metadata start max_depth filter
        ≡ collect (dfs_entry metadata filter) order)
      × ((n : ℕ) → count n (nodes_of order) ≤ 1)
      × ((n d : ℕ) → In (n, d) order → Walk graph start n d × (d ≤ max_depth))
unfolding dfs_traversal
dfs_sound graph metadata start max_depth filter = elim (Bool-cases (contains graph.nodes start)) [
  | inl c ↦
      let (order, o) =
        from-HasOrder graph metadata filter start max_depth (suc max_depth) start 0 ([], []) stays
          (omega arith)
          (
            [],
            record {
              walked = λ n d i. absurd i;
              distinct = λ n. omega arith;
              visited = refl;
              reported = refl;
            },
          ) in
      (order, rw c o.reported, o.distinct, o.walked)
  | inr c ↦ ([], rw c refl, λ n. omega arith, λ n d i. absurd i)
]
