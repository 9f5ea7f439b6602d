-- ===== src/Proxy/BanRules/Cache.antt =====
-- The rule cache: what a load returns, and for how long.
use fd_open_data_mcp.Base.{
  ℕ, ◌+◌, ◌≤◌, ◌<◌, ◌≡◌, refl, none, List, arith, Text, list_eq, nat_eq, get, get-put, beq_refl,
}
use fd_open_data_mcp.Proxy.BanRules.{BanRule, Cache, load_rules, fresh_entry, resolve_rules}

-- For a minute after a load that found no fresh entry, every load of the source returns the rules
-- of that load, whatever the table holds by then, and leaves the cache as it is; from the sixtieth
-- second on the rules are resolved anew.
pub load_rules-ttl :
    (table table' : List BanRule) (now now' : ℕ) (source : Text) (cache : Cache)
    → fresh_entry now (get cache source) ≡ none
    → now ≤ now'
    → let first = load_rules table now source cache in
      (first.0 ≡ resolve_rules table source)
      × (now' < now + 60 → load_rules table' now' source first.1 ≡ first)
      × (now + 60 ≤ now' → (load_rules table' now' source first.1).0 ≡ resolve_rules table' source)
unfolding load_rules
load_rules-ttl table table' now now' source cache stale le =
    rw (stale, get-put)
      (
        refl,
        (λ h. ground (
          arith,
          get-put cache source source (now, resolve_rules table source),
          beq_refl source,
        )),
        λ h.
            ground (
              arith,
              get-put cache source source (now, resolve_rules table source),
              beq_refl source,
            ),
      )
