-- ===== src/Graph/Tests.antt =====
-- Traversals and the cache at concrete inputs.
use fd_open_data_mcp.Base.{
  if◌then◌else◌, ltb, In, collect, nat_eq, list_eq, pair_eq, count, get, ℕ, zero, suc, ◌≤◌, ◌≡◌,
  refl, ◌↔◌, true, false, none, some, List, [], ◌∷◌, arith,
}
use fd_open_data_mcp.Graph.Manager.{Graph, Visit, dfs_entry, bfs_traversal, dfs_traversal}
use fd_open_data_mcp.Graph.Traversal.{Order, nodes_of, report}
use fd_open_data_mcp.Graph.Traversal.Levels.{Walk}
use fd_open_data_mcp.Graph.Traversal.Exact.{IsDistance, bfs_exact}
use fd_open_data_mcp.Graph.Depth.{dfs_sound}
use fd_open_data_mcp.Graph.Cache.{
  Manager, CacheOp, gets, invalidates, apply_ops, get_graph, Loaded, loads, raises_at, IsRecentGet,
  invalidated_gone,
}

-- The triangle 0, 1, 2, with 3 beside 2.
abbrev edges : ℕ → List ℕ
edges zero = 1 ∷ 2 ∷ []
edges (suc zero) = 0 ∷ 2 ∷ []
edges (suc (suc zero)) = 1 ∷ 0 ∷ 3 ∷ []
edges (suc (suc (suc zero))) = 2 ∷ []
edges (suc (suc (suc (suc n)))) = []

edges-In : (n m : ℕ) → In m (edges n) → In m (0 ∷ 1 ∷ 2 ∷ 3 ∷ [])
edges-In zero m i = ground (arith, i)
edges-In (suc zero) m i = ground (arith, i)
edges-In (suc (suc zero)) m i = ground (arith, i)
edges-In (suc (suc (suc zero))) m i = ground (arith, i)
edges-In (suc (suc (suc (suc n)))) m i = absurd i

abbrev graph : Graph
graph = record { nodes = 0 ∷ 1 ∷ 2 ∷ 3 ∷ []; neighbors = edges; neighbors-In = edges-In }

abbrev bare : ℕ → ℕ → Visit
bare n d = record { id = n; depth = d; info = none }

by_breadth : bfs_traversal graph [] 0 2 none ≡ some (bare 0 0 ∷ bare 1 1 ∷ bare 2 1 ∷ bare 3 2 ∷ [])
unfolding bfs_traversal get
by_breadth = refl

-- Node 3 is at distance 2, and is not reached.
by_depth : dfs_traversal graph [] 0 2 none ≡ bare 0 0 ∷ bare 1 1 ∷ bare 2 2 ∷ []
unfolding dfs_traversal get
by_depth = refl

bfs_exact_example :
    (order : Order) × (bfs_traversal graph [] 0 2 none ≡ some (report [] none order))
    × ((n : ℕ) → count n (nodes_of order) ≤ 1)
    × ((n d : ℕ) → In (n, d) order ↔ (IsDistance graph 0 n d × (d ≤ 2)))
bfs_exact_example = bfs_exact graph [] 0 2 none refl

dfs_sound_example :
    (order : Order) × (dfs_traversal graph [] 0 2 none ≡ collect (dfs_entry [] none) order)
    × ((n : ℕ) → count n (nodes_of order) ≤ 1)
    × ((n d : ℕ) → In (n, d) order → Walk graph 0 n d × (d ≤ 2))
dfs_sound_example = dfs_sound graph [] 0 2 none

abbrev manager : Manager ℕ
manager = record { cached = some 7; last_load = some 90 }

-- The load at 110 raises, with a part of the graph built; the others work.
abbrev database : ℕ → Loaded ℕ
database t = if ltb t 120 then raises_at 0 else loads t

abbrev ops : List CacheOp
ops = gets false 110 ∷ gets true 120 ∷ []

invalidated_gone_example :
    IsRecentGet 300 database 100 130
      (get_graph 300 database false 130 (apply_ops 300 database (invalidates ∷ ops) manager)).0
invalidated_gone_example =
    invalidated_gone 300 database 100 130 false ops manager (omega arith, (omega arith, tt))
      (omega arith)

-- The part stays the graph, however late the call: the next load works, and is not made.
part_kept :
    (get_graph 300 database false 9000
      (apply_ops 300 database (invalidates ∷ gets false 110 ∷ []) manager)).0
    ≡ some 0
unfolding get_graph apply_ops
part_kept = refl
