-- ===== src/Graph/Traversal.antt =====
-- The order in which the breadth-first traversal visits the nodes, apart from its results.
pub mod Levels
pub mod Fuel
pub mod Exact
use fd_open_data_mcp.Base.{
  ltb, if◌then◌else◌, Bool-cases, map_option, collect, nat_eq, list_eq, pair_eq, Text, contains,
  Dict, ℕ, zero, suc, ◌≡◌, refl, ap, ◌∙◌, inl, inr, Bool, ◌||◌, Option, none, some, List, [], ◌∷◌,
  ◌++◌, map,
}
use mathlib.Core.List.{map-append}
use fd_open_data_mcp.Graph.Manager.{
  Graph, Metadata, Visit, is_filtered_out, visit_entry, appended, pushes, Loop, bfs_step, bfs_loop,
}

abbrev pub Order : Type 0
Order = List (ℕ × ℕ)

abbrev pub nodes_of : Order → List ℕ
nodes_of = map (λ e. e.0)

abbrev pub is_skipped : ℕ → Order → ℕ × ℕ → Bool
is_skipped max_depth order (n, d) = ltb max_depth d || contains (nodes_of order) n

abbrev pub visit : Order → ℕ × ℕ → Order
visit order e = order ++ (e ∷ [])

abbrev pub extend : Graph → Order → ℕ × ℕ → Order → Order
extend graph order (n, d) queue =
    queue ++ pushes (nodes_of (visit order (n, d))) (graph.neighbors n) (suc d)

unfoldable pub order_step : Graph → ℕ → Order → ℕ × ℕ → Order → Order × Order
order_step graph max_depth order e queue =
    if is_skipped max_depth order e
    then (order, queue)
    else (visit order e, extend graph order e queue)

unfoldable pub order_loop : ℕ → Graph → ℕ → Order → Order → Option Order
unfolding order_step
order_loop zero graph max_depth order queue = none
order_loop (suc f) graph max_depth order [] = some order
order_loop (suc f) graph max_depth order (e ∷ queue) =
    let (order', queue') = order_step graph max_depth order e queue in
    order_loop f graph max_depth order' queue'

-- An entry's report, if it has one, before the others.
abbrev reported : Option Visit → List Visit → List Visit
reported o r = elim o [ none ↦ r | some v ↦ v ∷ r ]

reported-last : (o : Option Visit) → reported o [] ≡ appended [] o
reported-last none = refl
reported-last (some v) = refl

reported-appended :
    (o x : Option Visit) (r : List Visit) → reported o (appended r x) ≡ appended (reported o r) x
reported-appended none x r = refl
reported-appended (some v) none r = refl
reported-appended (some v) (some x) r = refl

module _ (entry : ℕ × ℕ → Option Visit) where
  pub collect-append :
      (xs : Order) (e : ℕ × ℕ)
      → collect entry (xs ++ (e ∷ [])) ≡ appended (collect entry xs) (entry e)
  collect-append [] e = reported-last (entry e)
  collect-append (x ∷ xs) e =
      ap (reported (entry x)) (collect-append xs e)
      ∙ reported-appended (entry x) (entry e) (collect entry xs)

module _ (metadata : Dict ℕ Metadata) (filter : Option Text) where
  abbrev pub report : Order → List Visit
  report = collect (visit_entry metadata filter)

  step_reported :
      (graph : Graph) (max_depth : ℕ) (order queue : Order) (e : ℕ × ℕ)
      → let (order', queue') = order_step graph max_depth order e queue in
        bfs_step graph metadata max_depth filter (nodes_of order) e queue (report order)
        ≡ (nodes_of order', queue', report order')
  unfolding bfs_step order_step
  step_reported graph max_depth order queue (n, d) =
      elim (Bool-cases (is_skipped max_depth order (n, d))) [
        | inl s ↦ rw s refl
        | inr s ↦
            rw
              (
                s,
                map-append (λ (x : ℕ × ℕ). x.0) order ((n, d) ∷ []),
                collect-append (visit_entry metadata filter) order (n, d),
              )
              refl
      ]

  -- The results of the traversal are the entries of the nodes in the order of their visits.
  pub loop_reported :
      (graph : Graph) (max_depth f : ℕ) (order queue : Order)
      → bfs_loop f graph metadata max_depth filter (nodes_of order) queue (report order)
        ≡ map_option report (order_loop f graph max_depth order queue)
  unfolding bfs_loop order_loop
  loop_reported graph max_depth zero order queue = refl
  loop_reported graph max_depth (suc f) order [] = refl
  loop_reported graph max_depth (suc f) order (e ∷ queue) =
      let (order', queue') = order_step graph max_depth order e queue in
      ap (λ (l : Loop). bfs_loop f graph metadata max_depth filter l.0 l.1 l.2)
        (step_reported graph max_depth order queue e)
      ∙ loop_reported graph max_depth f order' queue'
