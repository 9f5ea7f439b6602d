-- ===== src/Refresh/Tests.antt =====
-- Cancels at concrete inputs.
use fd_open_data_mcp.Base.{
  map_option, nat_eq, list_eq, pair_eq, codes, get, ◌≡◌, refl, true, none, some, [], ◌∷◌,
}
use fd_open_data_mcp.Refresh.Runs.{
  running, policy, PolicyRun, Runs, cancelled_run, Delete, cancel_run,
}
use fd_open_data_mcp.Refresh.Runs.Cancel.{after_cancel, lost, cancel_once}

abbrev run : PolicyRun
run = record {
  policy_id = some 4;
  origin = policy;
  status = running;
  plan_json = none;
  job_ref = some (codes "job-1");
  cluster_id = none;
  started_at = 10;
  finished_at = none;
  detail = none;
  plan_cells = some 9;
  rows_attempted = none;
  rows_new = none;
  cancelled_by = none;
}

abbrev runs : Runs
runs = record { rows = (1, run) ∷ []; next_id = 2; mirrored = []; delete_calls = [] }

abbrev deletes : Delete
deletes job = some true

torn_down : (cancel_run runs 1 none (some deletes) 20).1 ≡ cancelled_run (some (codes "job-1")) true
unfolding cancel_run get
torn_down = refl

cancel_once_example :
    let after = (cancel_run runs 1 none (some deletes) 20).0 in
    cancel_run after 1 (some (codes "ops")) none 30
    ≡ (after, lost (map_option (after_cancel 20 none) (get runs.rows 1)))
cancel_once_example = cancel_once runs 1 none (some (codes "ops")) (some deletes) none 20 30
