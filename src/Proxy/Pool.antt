-- ===== src/Proxy/Pool.antt =====
-- fd_open_data_mcp/proxy/pool.py: the queries of the proxy pool. The tables are lists of rows; of
-- `provider_meta` the model keeps the one field that the code reads, `exit_ip`.
pub mod Targets
use fd_open_data_mcp.Base.{
  ℕ, Bool, false, not, Option, none, some, List, [], ◌∷◌, ◌++◌, leb, ltb, if◌then◌else◌, Text,
  codes, ◌==◌, list_eq, nat_eq, filter_by, all_of, str, int_of,
}
use fd_open_data_mcp.Proxy.Circuit.{Redis, is_selectable}

pub record Proxy : Type 0 where
  pub id : ℕ
  pub scheme : Text
  pub ip : Text
  pub port : Option ℕ
  pub status : Text
  pub exit_ip : Option Text

-- `max_qps` is in thousandths of a request per second.
pub record SourceRateLimit : Type 0 where
  pub limited_source : Text
  pub max_qps : ℕ

pub record Session : Type 0 where
  pub proxies : List Proxy
  pub rate_limits : List SourceRateLimit

abbrev pub is_active : Proxy → Bool
is_active p = p.status == codes "active"

abbrev pub is_direct : Proxy → Bool
is_direct p = p.scheme == codes "direct"

unfoldable pub insert_by_id : Proxy → List Proxy → List Proxy
insert_by_id p [] = p ∷ []
insert_by_id p (x ∷ xs) = if leb p.id x.id then p ∷ x ∷ xs else x ∷ insert_by_id p xs

-- `others.sort(key=lambda p: p.id)`
unfoldable pub sort_by_id : List Proxy → List Proxy
unfolding insert_by_id
sort_by_id [] = []
sort_by_id (p ∷ ps) = insert_by_id p (sort_by_id ps)

unfoldable pub active_proxies : Session → List Proxy
unfolding sort_by_id
active_proxies s =
    let rows = filter_by is_active s.proxies in
    filter_by is_direct rows ++ sort_by_id (filter_by (λ p. not (is_direct p)) rows)

unfoldable pub find_limit : List SourceRateLimit → Text → Option SourceRateLimit
find_limit [] source = none
find_limit (l ∷ ls) source = if l.limited_source == source then some l else find_limit ls source

unfoldable pub get_rate_limit : Session → Text → Option SourceRateLimit
unfolding find_limit
get_rate_limit s source = find_limit s.rate_limits source

abbrev unit_text : Option Text → ℕ → Text
unit_text none id = str id
unit_text (some []) id = str id
unit_text (some (c ∷ t)) id = c ∷ t

unfoldable pub circuit_unit : Proxy → Text
circuit_unit p = unit_text p.exit_ip p.id

-- `session.get(Proxy, id)`
unfoldable pub find_proxy : List Proxy → ℕ → Option Proxy
find_proxy [] id = none
find_proxy (p ∷ ps) id = if p.id == id then some p else find_proxy ps id

unfoldable pub unit_for_proxy_id : Session → ℕ → Text
unit_for_proxy_id s proxy_id = elim (find_proxy s.proxies proxy_id) [
  | none ↦ str proxy_id
  | some row ↦ circuit_unit row
]

abbrev pub if_active : Option Proxy → Option Proxy
if_active none = none
if_active (some row) = if is_active row then some row else none

abbrev pub better : Option Proxy → Proxy → Option Proxy
better none p = some p
better (some best) p = if ltb p.id best.id then some p else some best

-- The loop that keeps the lowest id among the rows of the unit.
unfoldable pub best_loop : Text → List Proxy → Option Proxy → Option Proxy
best_loop unit [] best = best
best_loop unit (p ∷ ps) best =
    best_loop unit ps (if circuit_unit p == unit then better best p else best)

abbrev pub target_of : Session → Text → Option ℕ → Option Proxy
target_of s unit (some id) = if_active (find_proxy s.proxies id)
target_of s unit none = best_loop unit (active_proxies s) none

unfoldable pub proxy_for_unit : Session → Text → Option Proxy
unfolding best_loop find_proxy
proxy_for_unit s unit = target_of s unit (int_of unit)

abbrev pub is_unhealthy : Redis → Text → Proxy → Bool
is_unhealthy r source p = not (is_selectable r source (circuit_unit p))

abbrev pub none_healthy : Redis → Text → List Proxy → Bool
none_healthy r source [] = false
none_healthy r source (p ∷ ps) = all_of (is_unhealthy r source) (p ∷ ps)

unfoldable pub all_proxies_unhealthy : Redis → Session → Text → Bool
all_proxies_unhealthy r s source = none_healthy r source (active_proxies s)
