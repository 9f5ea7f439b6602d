-- ===== src/Proxy/Selector.antt =====
-- fd_open_data_mcp/proxy/selector.py: the choice of a proxy for one fetch. `reply` is what Redis
-- does on the call for each proxy's rate token.
pub mod Choice
use fd_open_data_mcp.Base.{
  ℕ, Option, none, some, List, [], ◌∷◌, if◌then◌else◌, Text, list_eq, nat_eq, contains, add,
}
use fd_open_data_mcp.Proxy.Circuit.{Redis, is_selectable}
use fd_open_data_mcp.Proxy.Pool.{
  Proxy, SourceRateLimit, Session, active_proxies, circuit_unit, get_rate_limit,
}
use fd_open_data_mcp.Proxy.RateLimit.{Counters, Reply, acquire}

-- `_DIRECT`, or a row of the pool.
pub data Selected : Type 0 where
  direct : Selected
  through : Proxy → Selected

abbrev pub max_qps_of : Option SourceRateLimit → ℕ
max_qps_of none = 1000
max_qps_of (some rl) = rl.max_qps

module _ (r : Redis) (reply : ℕ → Reply) (sec : ℕ) (source : Text) (max_qps : ℕ) where
  unfoldable pub select_loop :
      List Proxy → List Text → Option Counters → Option Selected × Option Counters
  select_loop [] dead_units c = (none, c)
  select_loop (p ∷ ps) dead_units c =
      let unit = circuit_unit p in
      let (granted, c') = acquire c (reply p.id) sec source p.id (some max_qps) in
      let next = select_loop ps dead_units c in
      let next_dead = select_loop ps (add dead_units unit) c in
      let next_saturated = select_loop ps dead_units c' in
      if contains dead_units unit
      then next
      else if is_selectable r source unit
      then (if granted then (some (through p), c') else next_saturated)
      else next_dead

abbrev select_among :
    Redis
    → (ℕ → Reply)
    → ℕ
    → Text
    → ℕ
    → List Proxy
    → Option Counters
    → Option Selected × Option Counters
select_among r reply sec source max_qps [] c = (some direct, c)
select_among r reply sec source max_qps (p ∷ ps) c =
    select_loop r reply sec source max_qps (p ∷ ps) [] c

unfoldable pub select :
    Session → Redis → (ℕ → Reply) → ℕ → Text → Option Counters → Option Selected × Option Counters
unfolding select_loop
select s r reply sec source c =
    select_among r reply sec source (max_qps_of (get_rate_limit s source)) (active_proxies s) c
