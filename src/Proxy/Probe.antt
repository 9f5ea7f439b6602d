-- ===== src/Proxy/Probe.antt =====
-- fd_open_data_mcp/probe/job.py: the probe cycle over the open circuits. The upstream fetch is the
-- argument `fetch` (`none` where it returns, the error's parts where it raises `FetchError`), and
-- `probes` the sources with an enabled row of `source_probes`. The fetch log, the outcome stream
-- and failing commits are left out.
pub mod Cycle
use fd_open_data_mcp.Base.{
  ℕ, ◌+◌, max, Bool, true, false, ◌&&◌, Option, none, some, List, [], ◌∷◌, map, if◌then◌else◌, Text,
  codes, ◌==◌, list_eq, nat_eq, contains,
}
use fd_open_data_mcp.Proxy.Circuit.{
  Classification, ok, transient, ban, blocked, permanent, Phase, closed, opened, half_open,
  CircuitState, Redis, get_state, is_closed, probe_transition,
}
use fd_open_data_mcp.Proxy.Circuit.Scan.{open_for_probe}
use fd_open_data_mcp.Proxy.BanRules.{BanRule, Cache, FetchOutcome, classify}
use fd_open_data_mcp.Proxy.Pool.{Proxy, Session, is_active, circuit_unit, proxy_for_unit}

pub record World : Type 0 where
  pub redis : Redis
  pub session : Session
  pub cache : Cache

pub record Summary : Type 0 where
  pub probed : ℕ
  pub recovered : ℕ
  pub reopened : ℕ
  pub permanents : ℕ

abbrev pub nothing_probed : Summary
nothing_probed = record { probed = 0; recovered = 0; reopened = 0; permanents = 0 }

-- `classification in ("ok", "transient")`
abbrev pub is_healthy_class : Classification → Bool
is_healthy_class ok = true
is_healthy_class transient = true
is_healthy_class _ = false

abbrev retire_row : Text → Proxy → Proxy
retire_row unit p =
    if is_active p && circuit_unit p == unit then record p { status = codes "retired" } else p

-- Every active address of the unit becomes retired.
unfoldable pub retire_unit : Text → Session → Session
retire_unit unit s = record s { proxies = map (retire_row unit) s.proxies }

module _ (search : Text → Text → Option Bool) (table : List BanRule) (probes : List Text)
    (fetch : Text → Proxy → Option FetchOutcome) (now : ℕ) where
  abbrev classified : World → Text → Proxy → Option FetchOutcome → Bool × World
  classified w source proxy none = (true, w)
  classified w source proxy (some o) =
      let st = get_state w.redis source (circuit_unit proxy) in
      let streak = max st.fail_streak st.transient_streak in
      let (class, cache') = classify search table now source w.cache o streak in
      (is_healthy_class class, record w { cache = cache' })

  unfoldable pub probe_one : World → Text → Proxy → Bool × World
  probe_one w source proxy =
      if contains probes source then classified w source proxy (fetch source proxy) else (true, w)

  -- The branch on the new state of the circuit.
  abbrev tally : CircuitState → Text → World → Summary → Summary × World
  tally st unit w sum =
      let counted = record sum { probed = sum.probed + 1 } in
      if st.is_permanent
      then (
        record counted { permanents = counted.permanents + 1 },
        record w { session = retire_unit unit w.session },
      )
      else if is_closed st.state
      then (record counted { recovered = counted.recovered + 1 }, w)
      else (record counted { reopened = counted.reopened + 1 }, w)

  abbrev probe_target : Text → Text → Option Proxy → World → Summary → Summary × World
  probe_target source unit none w sum = (sum, w)
  probe_target source unit (some proxy) w sum =
      let (healthy, w') = probe_one w source proxy in
      let (st, redis') = probe_transition w'.redis now source unit healthy in
      tally st unit (record w' { redis = redis' }) sum

  unfoldable pub probe_candidate : Text → Text → World → Summary → Summary × World
  unfolding probe_one
  probe_candidate source unit w sum = probe_target source unit (proxy_for_unit w.session unit) w sum

  unfoldable pub probe_loop : List (Text × Text) → World → Summary → Summary × World
  probe_loop [] w sum = (sum, w)
  probe_loop (c ∷ cs) w sum =
      let (sum', w') = probe_candidate c.0 c.1 w sum in probe_loop cs w' sum'

  unfoldable pub run_probe_cycle : World → Summary × World
  unfolding probe_loop probe_candidate
  run_probe_cycle w = probe_loop (open_for_probe w.redis now) w nothing_probed
