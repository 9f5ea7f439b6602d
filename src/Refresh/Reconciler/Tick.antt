-- ===== src/Refresh/Reconciler/Tick.antt =====
-- reconcile_once of fd_open_data_mcp/refresh/reconciler.py: the probe, then the due policies. The
-- refresh of the data census at its end is left out: it changes nothing here and cannot fail.
use fd_open_data_mcp.Base.{
  if◌then◌else◌, filter_by, Text, Dict, ℕ, Bool, true, false, Option, none, some, List, [], ◌∷◌,
}
use fd_open_data_mcp.Refresh.Policy.{CrawlPolicy, frozen_window, cron_due}
use fd_open_data_mcp.Refresh.Reconciler.{State, Environment}
use fd_open_data_mcp.Refresh.Reconciler.Probe.{probe}
use fd_open_data_mcp.Refresh.Reconciler.Launch.{
  LaunchResult, launched_job, launched_items, launched_nothing, skipped, refused, raised, refuse,
  launch_policy,
}

unfoldable pub tick_window :
    Environment → State → CrawlPolicy → Option Text → ℕ → State × LaunchResult
unfolding refuse launch_policy
tick_window w st p (some frozen) now = refuse st p none frozen now
tick_window w st p none now = launch_policy w st p now

-- A policy of the loop; `none` where it is not due.
unfoldable pub tick_policy : Environment → State → CrawlPolicy → ℕ → State × Option LaunchResult
unfolding cron_due tick_window frozen_window
tick_policy w st p now =
    let (st', result) = tick_window w st p (frozen_window p (w.local_date p.timezone now)) now in
    if cron_due w.next_fire p now then (st', some result) else (st, none)

-- The results by policy, in order; `ended` tells that an exception ended the tick.
pub record TickSummary : Type 0 where
  pub probed_closed : ℕ
  pub results : List (ℕ × LaunchResult)
  pub ended : Bool

abbrev pub is_raised : Option LaunchResult → Bool
is_raised none = false
is_raised (some (launched_job j e)) = false
is_raised (some (launched_items r n e)) = false
is_raised (some launched_nothing) = false
is_raised (some skipped) = false
is_raised (some (refused d)) = false
is_raised (some raised) = true

abbrev pub noted : ℕ → Option LaunchResult → TickSummary → TickSummary
noted i none s = s
noted i (some r) s = record s { results = (i, r) ∷ s.results }

unfoldable pub tick_loop : Environment → State → List CrawlPolicy → ℕ → ℕ → State × TickSummary
unfolding tick_policy
tick_loop w st [] now closed = (st, record { probed_closed = closed; results = []; ended = false })
tick_loop w st (p ∷ ps) now closed =
    let (st', result) = tick_policy w st p now in
    let (st'', summary) = tick_loop w st' ps now closed in
    if is_raised result
    then (st', record { probed_closed = closed; results = []; ended = true })
    else (st'', noted p.id result summary)

abbrev pub values : Dict ℕ CrawlPolicy → List CrawlPolicy
values [] = []
values ((i, p) ∷ d) = p ∷ values d

unfoldable pub reconcile_once : Environment → State → ℕ → State × TickSummary
unfolding probe tick_loop
reconcile_once w st now =
    let (closed, st') = probe w now st in
    tick_loop w st' (filter_by (λ p. p.enabled) (values st'.policies)) now closed
