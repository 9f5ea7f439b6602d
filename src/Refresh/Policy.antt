-- ===== src/Refresh/Policy.antt =====
-- Crawl policies (CrawlPolicy of fd_open_data_mcp/models.py): their crawl window, the check of a
-- window that has ended, and the due test of fd_open_data_mcp/refresh/reconciler.py. croniter and
-- ZoneInfo are parameters; the timezone and the cron expression are valid, and days are not negative.
pub mod Window
use fd_open_data_mcp.Base.{
  leb, if◌then◌else◌, get_default, or_else, nat_eq, list_eq, ◌==◌, Text, codes, Date, date_lt,
  minus_days, date_text, ℕ, Bool, true, false, Option, none, some, List, [], ◌++◌,
}
use fd_open_data_mcp.Crawl.Plan.{DateRange}

-- The keys of the JSON object of a policy's dates.
pub record DatePolicy : Type 0 where
  pub window_mode : Option Text
  pub days : Option ℕ
  pub start : Option Date
  pub end : Option Date

pub record CrawlPolicy : Type 0 where
  pub id : ℕ
  pub name : Text
  pub enabled : Bool
  pub concept_ids : List ℕ
  pub entity_type : Text
  pub entity_ids : Option (List ℕ)
  pub date_policy : DatePolicy
  pub frequency : Text
  pub mode : Text
  pub source_filter : Option (List Text)
  pub force : Bool
  pub executor : Text
  pub launcher : Text
  pub script : Option Text
  pub cron_expr : Text
  pub timezone : Text
  pub last_run_at : Option ℕ
  pub created_at : Option ℕ

abbrev range_of : CrawlPolicy → Option Date → Date → DateRange
range_of policy start end = record { start = start; end = end; frequency = some policy.frequency }

-- The flag tells the planner to start at the watermarks.
unfoldable pub build_date_range : CrawlPolicy → Date → DateRange × Bool
unfolding minus_days
build_date_range policy today =
    let dp = policy.date_policy in
    let mode = get_default dp.window_mode (codes "since_last") in
    if mode == codes "trailing"
    then (range_of policy (some (minus_days (get_default dp.days 1) today)) today, false)
    else if mode == codes "explicit"
    then (range_of policy dp.start (get_default dp.end today), false)
    else (range_of policy none today, true)

abbrev pub frozen_detail : Date → Date → Text
frozen_detail end_d local_today =
    codes "refused: recurring policy's explicit date window ends "
    ++ (date_text end_d
        ++ (codes ", before local today "
            ++ (date_text local_today
                ++ codes
                    " — the window is already complete and can never yield new observations; use a rolling date_policy (trailing or since_last), or run policy_trigger_now for a deliberate one-shot backfill")))

unfoldable pub frozen_end : Option Date → Date → Option Text
unfolding date_lt
frozen_end none local_today = none
frozen_end (some end_d) local_today =
    if date_lt end_d local_today then some (frozen_detail end_d local_today) else none

unfoldable pub frozen_window : CrawlPolicy → Date → Option Text
unfolding frozen_end
frozen_window policy local_today =
    if get_default policy.date_policy.window_mode [] == codes "explicit"
    then frozen_end policy.date_policy.end local_today
    else none

unfoldable pub due_since : (Text → Text → ℕ → ℕ) → CrawlPolicy → ℕ → Option ℕ → Bool
due_since next_fire policy now none = true
due_since next_fire policy now (some base) =
    leb (next_fire policy.cron_expr policy.timezone base) now

-- `next_fire` is croniter's next time after a base.
unfoldable pub cron_due : (Text → Text → ℕ → ℕ) → CrawlPolicy → ℕ → Bool
unfolding due_since
cron_due next_fire policy now =
    due_since next_fire policy now (or_else policy.last_run_at policy.created_at)
