-- ===== src/Proxy/RateLimit.antt =====
-- fd_open_data_mcp/proxy/rate_limit.py: the fixed-window counters. A cap is in thousandths of a
-- request per second (0 or absent: no cap); `sec` is the second that the clock shows. A counter is
-- keyed by what its Redis key is made of; its expiry after two seconds drops only counters of
-- seconds that are over.
pub mod Grants
use fd_open_data_mcp.Base.{
  ℕ, ◌+◌, ◌*◌, Bool, true, false, Option, none, some, leb, ltb, if◌then◌else◌, get_default, Text,
  ◌==◌, list_eq, nat_eq, pair_eq, Eq, Dict, get, put,
}

-- (source, (proxy_id, second))
abbrev pub Counters : Type 0
Counters = Dict (Text × (ℕ × ℕ)) ℕ

-- (source, second)
abbrev pub SourceCounters : Type 0
SourceCounters = Dict (Text × ℕ) ℕ

-- What the Redis calls of one method do: both return, `incr` raises, or `expire` raises.
pub data Reply : Type 0 where
  returns incr_raises expire_raises : Reply

abbrev pub uncapped : Option ℕ → Bool
uncapped none = true
uncapped (some q) = q == 0

abbrev pub cap_of : Option ℕ → ℕ
cap_of none = 0
cap_of (some q) = q

-- `count <= max_qps`
abbrev pub at_most : ℕ → Option ℕ → Bool
at_most count max_qps = leb (count * 1000) (cap_of max_qps)

-- `count < max_qps`
abbrev pub below : ℕ → Option ℕ → Bool
below count max_qps = ltb (count * 1000) (cap_of max_qps)

-- The window counter after one `incr`; `expire` is called on the first count only.
abbrev pub bump : {K : Type 0} ⦃e : Eq K⦄ → Dict K ℕ → K → Dict K ℕ
bump c k = put c k (get_default (get c k) 0 + 1)

-- Whether `expire` raised, which it can only on the first count of a window.
abbrev failed_expire : Reply → ℕ → Bool
failed_expire expire_raises count = count == 1
failed_expire _ count = false

-- A grant is a fetch that is allowed; where Redis raises, the per-proxy limiter allows.
abbrev acquire_counted : Reply → Counters → Text × (ℕ × ℕ) → Option ℕ → Bool × Option Counters
acquire_counted incr_raises c k max_qps = (true, some c)
acquire_counted reply c k max_qps =
    let count = get_default (get c k) 0 + 1 in
    (if failed_expire reply count then true else at_most count max_qps, some (bump c k))

unfoldable pub acquire : Option Counters → Reply → ℕ → Text → ℕ → Option ℕ → Bool × Option Counters
acquire none reply sec source proxy_id max_qps = (true, none)
acquire (some c) reply sec source proxy_id max_qps =
    if uncapped max_qps
    then (true, some c)
    else acquire_counted reply c (source, (proxy_id, sec)) max_qps

abbrev peek : Reply → ℕ → Option ℕ → Bool
peek returns count max_qps = below count max_qps
peek _ count max_qps = true

unfoldable pub capacity_available : Option Counters → Reply → ℕ → Text → ℕ → Option ℕ → Bool
capacity_available none reply sec source proxy_id max_qps = true
capacity_available (some c) reply sec source proxy_id max_qps =
    if uncapped max_qps
    then true
    else peek reply (get_default (get c (source, (proxy_id, sec))) 0) max_qps

-- `_local_counters`: source to (second, count).
abbrev pub LocalCounters : Type 0
LocalCounters = Dict Text (ℕ × ℕ)

-- The count of this second: another second's is dropped.
abbrev pub current : ℕ → Option (ℕ × ℕ) → ℕ
current sec none = 0
current sec (some (cur_sec, count)) = if cur_sec == sec then count else 0

unfoldable pub local_acquire : LocalCounters → Text → ℕ → Option ℕ → Bool × LocalCounters
local_acquire l source sec max_qps =
    let count = current sec (get l source) in
    if below count max_qps
    then (true, put l source (sec, count + 1))
    else (false, put l source (sec, count))

-- The shared budget of a source: Redis, or the process's own counters where it is not to be had.
pub record Budget : Type 0 where
  pub shared : Option SourceCounters
  pub own : LocalCounters

abbrev on_own : Budget → Bool × LocalCounters → Bool × Budget
on_own b (granted, l) = (granted, record b { own = l })

abbrev acquire_shared : Reply → SourceCounters → Budget → ℕ → Text → Option ℕ → Bool × Budget
acquire_shared incr_raises c b sec source max_qps =
    on_own b (local_acquire b.own source sec max_qps)
acquire_shared reply c b sec source max_qps =
    let k : Text × ℕ = (source, sec) in
    let count = get_default (get c k) 0 + 1 in
    let b' = record b { shared = some (bump c k) } in
    if failed_expire reply count
    then on_own b' (local_acquire b.own source sec max_qps)
    else (at_most count max_qps, b')

abbrev acquire_from : Option SourceCounters → Reply → Budget → ℕ → Text → Option ℕ → Bool × Budget
acquire_from none reply b sec source max_qps = on_own b (local_acquire b.own source sec max_qps)
acquire_from (some c) reply b sec source max_qps = acquire_shared reply c b sec source max_qps

unfoldable pub acquire_source : Budget → Reply → ℕ → Text → Option ℕ → Bool × Budget
unfolding local_acquire
acquire_source b reply sec source max_qps =
    if uncapped max_qps then (true, b) else acquire_from b.shared reply b sec source max_qps

abbrev peek_from : Option SourceCounters → Reply → Budget → ℕ → Text → Option ℕ → Bool
peek_from none reply b sec source max_qps = below (current sec (get b.own source)) max_qps
peek_from (some c) reply b sec source max_qps =
    let k : Text × ℕ = (source, sec) in peek reply (get_default (get c k) 0) max_qps

unfoldable pub capacity_available_source : Budget → Reply → ℕ → Text → Option ℕ → Bool
capacity_available_source b reply sec source max_qps =
    if uncapped max_qps then true else peek_from b.shared reply b sec source max_qps
