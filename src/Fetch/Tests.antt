-- ===== src/Fetch/Tests.antt =====
-- The fetch layer at concrete inputs.
use fd_open_data_mcp.Base.{
  map, int_of, leb, if◌then◌else◌, map_option, replicate, filter_by, nat_eq, list_eq, pair_eq, ◌==◌,
  Text, codes, get, sorted_set, ℕ, ◌+◌, ◌≡◌, refl, true, false, not, ◌&&◌, Option, none, some, List,
  [], ◌∷◌, ◌++◌, arith,
}
use fd_open_data_mcp.Fetch.Coverage.{Coverage, coverage}
use fd_open_data_mcp.Fetch.Coverage.Gaps.{window, HasGaps, coverage_exact}
use fd_open_data_mcp.Fetch.Suppress.{FetchLog, is_suppressed_pair, clear_suppression, permanent}
use fd_open_data_mcp.Fetch.Suppress.Clearing.{clearing_exact}
use fd_open_data_mcp.Fetch.Settings.{int_setting, signed, join_digits}
use fd_open_data_mcp.Proxy.BanRules.{lstrip, rstrip}
use fd_open_data_mcp.Fetch.Demote.{Entry, demote_threshold, reorder_chain}
use fd_open_data_mcp.Fetch.Demote.Reorder.{is_demoted_entry, reorder_chain_exact}
use fd_open_data_mcp.Fetch.ActivePool.{
  PoolSource, config, frequency, non_member, PricePoolMember, EntityKey, Table, is_config,
  record_request, add_config_member, remove_config_member, recompute_frequency_members, is_in_pool,
}
use fd_open_data_mcp.Fetch.ActivePool.Recompute.{membership_exact}
use fd_open_data_mcp.Fetch.ActivePool.Prewarm.{Filled}

-- Points on days 10 to 12 and on day 30, in a window from day 5 to day 40.
gaps_found :
    map_option (λ cov. cov.gaps) (coverage (10 ∷ 11 ∷ 12 ∷ 30 ∷ []) 5 40 5 98 [])
    ≡ some ((5, 9) ∷ (13, 29) ∷ (31, 40) ∷ [])
unfolding coverage sorted_set
gaps_found = refl

-- A series that starts after the window: the gap runs on past the window's end.
gap_past_window :
    map_option (λ cov. cov.gaps) (coverage (100 ∷ []) 10 20 5 98 []) ≡ some ((10, 99) ∷ [])
unfolding coverage sorted_set
gap_past_window = refl

coverage_exact_example :
    (cov : Coverage) × (coverage (10 ∷ 30 ∷ []) 5 40 1 98 [] ≡ some cov)
    × HasGaps 1 98 5 40 (sorted_set (10 ∷ 30 ∷ [])) (sorted_set (window (10 ∷ 30 ∷ []) 5 40)) cov
coverage_exact_example = coverage_exact (10 ∷ 30 ∷ []) 5 40 1 98 (omega arith)

abbrev outcome : ℕ → Text → Text → FetchLog
outcome f status class = record {
  concept_id = some 1;
  function_id = some f;
  cluster_id = some 2;
  status = status;
  classification = some class;
}

abbrev missing : FetchLog
missing = outcome 5 (codes "error") permanent

three_missing : is_suppressed_pair (missing ∷ missing ∷ missing ∷ []) 1 5 3 ≡ true
unfolding is_suppressed_pair
three_missing = refl

clearing_exact_example :
    let after = (clear_suppression (missing ∷ missing ∷ missing ∷ []) (some 1) (some 5)).0 in
    ((clear_suppression (missing ∷ missing ∷ missing ∷ []) (some 1) (some 5)).1 ≡ true)
    × (is_suppressed_pair (replicate 2 missing ++ after) 1 5 3 ≡ leb 3 2)
    × ((c' f' : ℕ)
        → ((1 == c') && (5 == f')) ≡ false
        → is_suppressed_pair after c' f' 3
          ≡ is_suppressed_pair (missing ∷ missing ∷ missing ∷ []) c' f' 3)
clearing_exact_example =
    clearing_exact (missing ∷ missing ∷ missing ∷ []) 1 5 3 2 missing (omega arith) refl refl

abbrev refused_log : List FetchLog
refused_log = replicate 5 (outcome 7 (codes "error") (codes "transient"))

abbrev chain : List Entry
chain = (some 7, []) ∷ (some 8, []) ∷ (none, []) ∷ []

last_in_chain :
    reorder_chain refused_log none (some 2) chain
    ≡ ((some 8, []) ∷ (none, []) ∷ [], (some 7, []) ∷ [])
unfolding reorder_chain
last_in_chain = refl

reorder_chain_exact_example :
    let bad = is_demoted_entry refused_log (demote_threshold none) 2 in
    (reorder_chain refused_log none (some 2) chain
      ≡ (filter_by (λ rs. not (bad rs)) chain, filter_by bad chain))
    × (reorder_chain refused_log none none chain ≡ (chain, []))
reorder_chain_exact_example = reorder_chain_exact refused_log none 2 chain

abbrev stock : ℕ → EntityKey
stock n = (codes "stock", n)

abbrev asked : PoolSource → ℕ → PricePoolMember
asked s n = record { source = s; request_count = n; last_requested_at = some n; added_at = 0 }

abbrev table : Table
table =
    (stock 1, asked config 0) ∷ (stock 2, asked frequency 3) ∷ (stock 3, asked non_member 9) ∷ []

moved :
    let once = (recompute_frequency_members table 1).0 in
    (is_in_pool once (stock 1) ≡ some config)
    × (is_in_pool once (stock 2) ≡ none)
    × (is_in_pool once (stock 3) ≡ some frequency)
unfolding recompute_frequency_members is_in_pool get
moved = (refl, refl, refl)

membership_exact_example :
    (is_in_pool (record_request table 4 (stock 2)) (stock 2) ≡ is_in_pool table (stock 2))
    × (is_in_pool (add_config_member table 4 (stock 2)).0 (stock 2)
        ≡ (if stock 2 == stock 2 then some config else is_in_pool table (stock 2)))
    × ((add_config_member table 4 (stock 2)).1
        ≡ not (elim (get table (stock 2)) [ none ↦ false | some m ↦ is_config m.source ]))
    × (is_in_pool (remove_config_member table (stock 2)).0 (stock 2) ≡ (
        if stock 2 == stock 2 && (remove_config_member table (stock 2)).1
        then none
        else is_in_pool table (stock 2)))
    × ((remove_config_member table (stock 2)).1
        ≡ elim (get table (stock 2)) [ none ↦ false | some m ↦ is_config m.source ])
membership_exact_example = membership_exact table 4 (stock 2) (stock 2)

-- A filling that raises for the first stock and counts its calls.
abbrev fill : ℕ → ℕ → EntityKey → ℕ → ℕ → ℕ × Option Filled
fill w concept (kind, n) start end =
    (w + 1, if n == 1 then none else some (record { fill_failed = false; gaps = []; points = 20 }))

-- A blank, a sign and an underscore are read; a negative setting is raised to one.
settings_read :
    map (λ t. demote_threshold (some (codes t))) (" +1_0\n" ∷ "-7" ∷ "1__0" ∷ "" ∷ [])
    ≡ 10 ∷ 1 ∷ 5 ∷ 5 ∷ []
unfolding demote_threshold int_setting signed join_digits lstrip rstrip int_of
settings_read = refl
