-- ===== src/Proxy/RouteTests.antt =====
-- Runs of the rules, the pool, the rate limits, the selection and the probe cycle at concrete inputs.
use fd_open_data_mcp.Base.{
  ℕ, ◌≡◌, refl, Bool, true, Option, none, some, List, [], ◌∷◌, arith, String, Text, codes, list_eq,
  nat_eq, pair_eq, get, In,
}
use fd_open_data_mcp.Proxy.Circuit.{ban}
use fd_open_data_mcp.Proxy.BanRules.{
  BanRule, FetchOutcome, query_rules, classify_loop, applies_to, classify, load_rules,
  resolve_rules, by_priority, insert_by_priority, real_source_fallback, classification_of,
  rule_matches, status_matches,
}
use fd_open_data_mcp.Proxy.BanRules.FirstMatch.{Verdict, deciding_source, classify-priority}
use fd_open_data_mcp.Proxy.Pool.{Proxy, Session, active_proxies, all_proxies_unhealthy}
use fd_open_data_mcp.Proxy.RateLimit.{Budget, Reply, returns}
use fd_open_data_mcp.Proxy.RateLimit.Grants.{grants, IsFreshIn, grants_exact}
use fd_open_data_mcp.Proxy.Selector.{select}
use fd_open_data_mcp.Proxy.Selector.Choice.{plain_loop, Chosen, cap, select_sound}
use fd_open_data_mcp.Proxy.Probe.{World}

abbrev rule : String → String → String → ℕ → ℕ → BanRule
rule type pattern class streak priority = record {
  rule_source = codes "akshare";
  rule_type = codes type;
  pattern = codes pattern;
  classification = codes class;
  streak_min = streak;
  priority = priority;
  enabled = true;
}

abbrev rules : List BanRule
rules =
    rule "status" "5xx" "transient" 0 1
    ∷ rule "status" "403" "ban" 0 10
    ∷ rule "error" "disconnected" "ban" 3 5
    ∷ []

-- Every pattern is refused by the regular expression engine.
abbrev no_search : Text → Text → Option Bool
no_search pattern body = none

abbrev forbidden : FetchOutcome
forbidden = record { http_status = some 403; error = none; body = none }

classify-priority_example :
    Verdict no_search forbidden 0
      (λ br. In br rules × (applies_to (deciding_source rules (codes "eastmoney")) br ≡ true))
      (classify no_search rules 500 (codes "eastmoney") [] forbidden 0).0
unfolding get
classify-priority_example =
    classify-priority no_search forbidden 0 rules 500 (codes "eastmoney") [] refl

-- A source with no row of its own takes the class that the row of its library gives.
library_ban : (classify no_search rules 500 (codes "eastmoney") [] forbidden 0).0 ≡ ban
unfolding classify load_rules resolve_rules query_rules by_priority insert_by_priority
    real_source_fallback classification_of classify_loop rule_matches status_matches get
library_ban = refl

abbrev row : ℕ → String → Option Text → Proxy
row id scheme exit_ip = record {
  id = id;
  scheme = codes scheme;
  ip = codes "10.0.0.1";
  port = some 8080;
  status = codes "active";
  exit_ip = exit_ip;
}

abbrev exit : Text
exit = codes "1.2.3.4"

abbrev pool : Session
pool = record {
  proxies = row 4 "http" (some exit) ∷ row 2 "http" (some exit) ∷ row 9 "direct" none ∷ [];
  rate_limits = [];
}

abbrev idle : Budget
idle = record { shared = none; own = (exit, (59, 4)) ∷ [] }

idle-IsFreshIn : IsFreshIn 60 (get idle.own exit)
unfolding get
idle-IsFreshIn cur_sec count same now = ground (arith, same, now)

grants_exact_example :
    (grants 3 (record idle { shared = some [] }) 60 exit (some 500) ≡ 0)
    × (grants 3 (record idle { shared = none }) 60 exit (some 500) ≡ 1)
unfolding get
grants_exact_example = grants_exact 3 idle [] 60 exit 500 (omega arith) refl idle-IsFreshIn

abbrev answers : ℕ → Reply
answers id = returns

select_sound_example :
    (select pool none answers 60 exit (some [])
      ≡ plain_loop none answers 60 exit
          (cap pool none answers 60 exit)
          (active_proxies pool)
          (some []))
    × Chosen none answers 60 exit
        (cap pool none answers 60 exit)
        (active_proxies pool)
        (some [])
        (select pool none answers 60 exit (some []))
    × (all_proxies_unhealthy none pool exit ≡ true
        → select pool none answers 60 exit (some []) ≡ (none, some []))
unfolding active_proxies
select_sound_example =
    select_sound pool none answers 60 exit (row 9 "direct" none)
      (row 2 "http" (some exit) ∷ row 4 "http" (some exit) ∷ []) (some []) refl

abbrev refused : Text → Proxy → Option FetchOutcome
refused source p = some forbidden

abbrev world : World
world = record { redis = none; session = pool; cache = [] }
