-- ===== src/Refresh/FleetTests.antt =====
-- The choice of a cluster at concrete inputs.
use fd_open_data_mcp.Base.{
  In, nat_eq, list_eq, pair_eq, Text, codes, get, str, ℕ, ◌≤◌, ◌≡◌, refl, true, false, Option, none,
  some, [], ◌∷◌, arith,
}
use fd_open_data_mcp.Refresh.Policy.{CrawlPolicy}
use fd_open_data_mcp.Refresh.Runs.{policy, Runs, starts, add_run, started_run}
use fd_open_data_mcp.Refresh.Reconciler.Closing.{IsFresh}
use fd_open_data_mcp.Refresh.Fleet.{
  Cluster, Fleet, open_runs_on, required_sources, pick_cluster, launch_multi,
}
use fd_open_data_mcp.Refresh.Fleet.Choice.{Picks, pick_least_loaded, capacity_kept}

abbrev cluster : ℕ → ℕ → Cluster
cluster i room = record {
  id = i;
  name = codes "worker";
  tags = some (codes "sina" ∷ []);
  capacity = room;
  enabled = true;
}

abbrev fleet : Fleet
fleet = record { clusters = cluster 1 1 ∷ cluster 2 3 ∷ cluster 3 3 ∷ []; proxies = [] }

abbrev script : CrawlPolicy
script = record {
  id = 4;
  name = codes "bulk";
  enabled = true;
  concept_ids = [];
  entity_type = codes "stock";
  entity_ids = none;
  date_policy = record { window_mode = none; days = none; start = none; end = none };
  frequency = codes "daily";
  mode = codes "series";
  source_filter = some (codes "sina" ∷ []);
  force = false;
  executor = codes "direct";
  launcher = codes "auto";
  script = some (codes "bulk");
  cron_expr = codes "0 1 * * *";
  timezone = codes "UTC";
  last_run_at = none;
  created_at = none;
}

-- The first cluster is full, and the second has one open run.
abbrev runs : Runs
runs = record {
  rows =
      (1, started_run none policy none none (codes "a") (some 1) 10)
      ∷ (2, started_run none policy none none (codes "b") (some 2) 10)
      ∷ [];
  next_id = 3;
  mirrored = [];
  delete_calls = [];
}

third : pick_cluster none fleet runs.rows none (some script) ≡ some (cluster 3 3)
unfolding pick_cluster
third = refl

pick_least_loaded_example :
    Picks none fleet runs.rows
      (required_sources none (some script))
      (pick_cluster none fleet runs.rows none (some script))
pick_least_loaded_example = pick_least_loaded none fleet runs.rows none (some script)

abbrev job : Text
job = codes "worker/crawl-policy-4-2024"

fresh : IsFresh runs
unfolding get
fresh k h = ground (arith, h)

launched_third :
    launch_multi (λ c name. none) none fleet runs.rows (codes "2024") none script
    ≡ starts job (some 3)
unfolding launch_multi str
launched_third = refl

capacity_kept_example :
    (c : Cluster) × In c fleet.clusters
    × (◌≡◌ {A = Option ℕ} (some 3) (some c.id))
    × (open_runs_on (add_run runs (started_run (some 4) policy none none job (some 3) 20)).rows c.id
        ≤ c.capacity)
capacity_kept_example =
    capacity_kept (λ c name. none) none fleet runs (codes "2024") job none script (some 3) none
      policy 20 fresh launched_third
