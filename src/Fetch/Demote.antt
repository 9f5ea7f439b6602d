-- ===== src/Fetch/Demote.antt =====
-- Demotion of functions that a cluster cannot reach (fd_open_data_mcp/fetch/demote.py) on the fetch
-- log, newest row first. An entry of a chain is its function id with the rest of its fields.
pub mod Reorder
use fd_open_data_mcp.Base.{
  leb, if◌then◌else◌, length, take, filter_by, all_of, collect, nat_eq, list_eq, pair_eq, ◌==◌,
  Text, codes, contains, add, Dict, ℕ, max, Bool, false, not, ◌&&◌, Option, none, some, List, [],
  ◌∷◌,
}
use fd_open_data_mcp.Fetch.Settings.{int_setting}
use fd_open_data_mcp.Fetch.Suppress.{FetchLog, holds_id}

unfoldable pub demote_threshold : Option Text → ℕ
unfolding int_setting
demote_threshold none = 5
demote_threshold (some raw) = elim (int_setting raw) [ none ↦ 5 | some n ↦ max 1 n ]

abbrev pub failed : FetchLog → Bool
failed row = not (row.status == codes "ok")

abbrev pub of_cluster : ℕ → ℕ → FetchLog → Bool
of_cluster cluster_id function_id row =
    holds_id row.function_id function_id && holds_id row.cluster_id cluster_id

unfoldable pub is_demoted : List FetchLog → ℕ → ℕ → ℕ → Bool
is_demoted log n cluster_id function_id =
    let rows = take (max n 1) (filter_by (of_cluster cluster_id function_id) log) in
    leb n (length rows) && all_of failed rows

unfoldable pub demoted_loop : List FetchLog → ℕ → ℕ → List ℕ → List ℕ
unfolding is_demoted
demoted_loop log n cluster_id [] = []
demoted_loop log n cluster_id (f ∷ fs) =
    let out = demoted_loop log n cluster_id fs in
    if is_demoted log n cluster_id f then add out f else out

unfoldable pub demoted_functions : List FetchLog → Option Text → Option ℕ → List ℕ → List ℕ
unfolding demoted_loop demote_threshold
demoted_functions log env none function_ids = []
demoted_functions log env (some cluster_id) function_ids =
    demoted_loop log (demote_threshold env) cluster_id function_ids

abbrev pub Entry : Type 0
Entry = Option ℕ × Dict Text Text

abbrev pub function_ids : List Entry → List ℕ
function_ids = collect (λ rs. rs.0)

abbrev pub in_bad : List ℕ → Entry → Bool
in_bad bad (none, rest) = false
in_bad bad (some f, rest) = contains bad f

unfoldable pub reorder_by : List ℕ → List Entry → List Entry × List Entry
reorder_by [] chain = (chain, [])
reorder_by (b ∷ bad) chain =
    (filter_by (λ rs. not (in_bad (b ∷ bad) rs)) chain, filter_by (in_bad (b ∷ bad)) chain)

unfoldable pub reorder_chain :
    List FetchLog → Option Text → Option ℕ → List Entry → List Entry × List Entry
unfolding reorder_by demoted_functions
reorder_chain log env cluster_id chain = elim (function_ids chain) [
  | [] ↦ (chain, [])
  | f ∷ fs ↦ reorder_by (demoted_functions log env cluster_id (f ∷ fs)) chain
]
