-- ===== src/Graph/Manager.antt =====
-- EntityGraphManager of fd_open_data_mcp/graph/manager.py: the breadth-first traversal and the
-- look-ups on a graph that is loaded. networkx is an interface: the nodes, and the neighbours of
-- each, which are nodes.
use fd_open_data_mcp.Base.{
  ltb, if◌then◌else◌, length, In, nat_eq, list_eq, pair_eq, ◌==◌, Text, contains, Dict, get, ℕ,
  zero, suc, ◌+◌, Bool, true, false, not, ◌&&◌, ◌||◌, Option, none, some, List, [], ◌∷◌, ◌++◌,
}

pub record Graph : Type 0 where
  pub nodes : List ℕ
  pub neighbors : ℕ → List ℕ
  pub neighbors-In : (n m : ℕ) → In m (neighbors n) → In m nodes

pub record Metadata : Type 0 where
  pub entity_type : Text
  pub code : Text

pub record Visit : Type 0 where
  pub id : ℕ
  pub depth : ℕ
  pub info : Option Metadata

abbrev pub type_of : Option Metadata → Option Text
type_of none = none
type_of (some m) = some m.entity_type

-- `entity_type_filter and metadata.get('entity_type') != entity_type_filter`
unfoldable pub is_filtered_out : Option Text → Option Text → Bool
is_filtered_out none type = false
is_filtered_out (some []) type = false
is_filtered_out (some (c ∷ t)) none = true
is_filtered_out (some (c ∷ t)) (some type) = not (type == c ∷ t)

-- The entry that a visit adds to the results.
unfoldable pub visit_entry : Dict ℕ Metadata → Option Text → ℕ × ℕ → Option Visit
unfolding is_filtered_out
visit_entry metadata filter (node_id, depth) =
    let info = get metadata node_id in
    if is_filtered_out filter (type_of info)
    then none
    else some (record { id = node_id; depth = depth; info = info })

abbrev pub appended : List Visit → Option Visit → List Visit
appended results none = results
appended results (some v) = results ++ (v ∷ [])

-- The neighbours that are not visited, one level deeper.
unfoldable pub pushes : List ℕ → List ℕ → ℕ → List (ℕ × ℕ)
pushes visited [] depth = []
pushes visited (m ∷ ms) depth =
    let rest = pushes visited ms depth in if contains visited m then rest else (m, depth) ∷ rest

abbrev pub Loop : Type 0
Loop = List ℕ × List (ℕ × ℕ) × List Visit

-- What one round makes of the visited nodes, the queue and the results.
unfoldable pub bfs_step :
    Graph → Dict ℕ Metadata → ℕ → Option Text → List ℕ → ℕ × ℕ → List (ℕ × ℕ) → List Visit → Loop
unfolding pushes visit_entry
bfs_step graph metadata max_depth filter visited (node_id, depth) queue results =
    let visited' = visited ++ (node_id ∷ []) in
    if ltb max_depth depth || contains visited node_id then (visited, queue, results) else (
      visited',
      queue ++ pushes visited' (graph.neighbors node_id) (suc depth),
      appended results (visit_entry metadata filter (node_id, depth)),
    )

-- `none` where the fuel ends.
unfoldable pub bfs_loop :
    ℕ
    → Graph
    → Dict ℕ Metadata
    → ℕ
    → Option Text
    → List ℕ
    → List (ℕ × ℕ)
    → List Visit
    → Option (List Visit)
unfolding bfs_step
bfs_loop zero graph metadata max_depth filter visited queue results = none
bfs_loop (suc f) graph metadata max_depth filter visited [] results = some results
bfs_loop (suc f) graph metadata max_depth filter visited (entry ∷ queue) results =
    let (visited', queue', results') =
      bfs_step graph metadata max_depth filter visited entry queue results in
    bfs_loop f graph metadata max_depth filter visited' queue' results'

-- The neighbours of all nodes that are not visited.
unfoldable pub open_degrees : Graph → List ℕ → List ℕ → ℕ
open_degrees graph visited [] = 0
open_degrees graph visited (n ∷ ns) =
    let rest = open_degrees graph visited ns in
    if contains visited n then rest else length (graph.neighbors n) + rest

-- Each round takes an entry off the queue, and each neighbour of a node is put there once at most.
abbrev pub bfs_fuel : Graph → ℕ
bfs_fuel graph = 2 + open_degrees graph [] graph.nodes

unfoldable pub bfs_traversal : Graph → Dict ℕ Metadata → ℕ → ℕ → Option Text → Option (List Visit)
unfolding bfs_loop open_degrees
bfs_traversal graph metadata start_node max_depth filter =
    if contains graph.nodes start_node
    then bfs_loop (bfs_fuel graph) graph metadata max_depth filter [] ((start_node, 0) ∷ []) []
    else some []

unfoldable pub is_match : Text → Option Text → Metadata → Bool
is_match code none m = m.code == code
is_match code (some type) m = m.code == code && m.entity_type == type

unfoldable pub find_node_by_code : Dict ℕ Metadata → Text → Option Text → Option ℕ
unfolding is_match
find_node_by_code [] code type = none
find_node_by_code ((n, m) ∷ metadata) code type =
    if is_match code type m then some n else find_node_by_code metadata code type

-- `entity_type_filter is None or metadata.get('entity_type') == entity_type_filter`
unfoldable pub is_wanted : Option Text → Option Text → Bool
is_wanted none type = true
is_wanted (some wanted) none = false
is_wanted (some wanted) (some type) = type == wanted

unfoldable pub dfs_entry : Dict ℕ Metadata → Option Text → ℕ × ℕ → Option Visit
unfolding is_wanted
dfs_entry metadata filter (node_id, depth) =
    let info = get metadata node_id in
    if is_wanted filter (type_of info)
    then some (record { id = node_id; depth = depth; info = info })
    else none

-- The visited nodes and the results, which the inner function changes.
abbrev pub Seen : Type 0
Seen = List ℕ × List Visit

-- The loop over the neighbours.
unfoldable pub dfs_each : (ℕ → Seen → Seen) → List ℕ → Seen → Seen
dfs_each dfs [] seen = seen
dfs_each dfs (m ∷ ms) seen = dfs_each dfs ms (if contains seen.0 m then seen else dfs m seen)

-- The inner function, by the levels that are left: with none the depth is above the limit.
unfoldable pub dfs_from : Graph → Dict ℕ Metadata → Option Text → ℕ → ℕ → ℕ → Seen → Seen
unfolding dfs_each dfs_entry
dfs_from graph metadata filter zero node_id depth seen = seen
dfs_from graph metadata filter (suc left) node_id depth (visited, results) =
    let deeper =
      dfs_each (λ m s. dfs_from graph metadata filter left m (suc depth) s)
        (graph.neighbors node_id)
        (
          visited ++ (node_id ∷ []),
          appended results (dfs_entry metadata filter (node_id, depth)),
        ) in
    if contains visited node_id then (visited, results) else deeper

unfoldable pub dfs_traversal : Graph → Dict ℕ Metadata → ℕ → ℕ → Option Text → List Visit
unfolding dfs_from
dfs_traversal graph metadata start_node max_depth filter =
    if contains graph.nodes start_node
    then (dfs_from graph metadata filter (suc max_depth) start_node 0 ([], [])).1
    else []
