-- ===== src/Proxy/Circuit/Scan.antt =====
-- fd_open_data_mcp/proxy/circuit.py: the scans of the keyspace (`open_for_probe`, `all_circuits`,
-- `sources_all_proxies_open`). The order of a Redis scan is that of the dictionary.
use fd_open_data_mcp.Base.{
  ℕ, Bool, true, false, ◌&&◌, ◌||◌, not, Option, none, some, List, [], ◌∷◌, ◌++◌, leb,
  if◌then◌else◌, get_default, Text, codes, ◌==◌, list_eq, nat_eq, Dict, get, put, collect, all_of,
}
use fd_open_data_mcp.Proxy.Circuit.{Phase, closed, is_open, CircuitHash, Redis}

-- `s.split(":", 1)`: the parts before and after the first colon.
unfoldable pub split_colon : Text → Option (Text × Text)
split_colon [] = none
split_colon (c ∷ t) =
    let rest = split_colon t in
    if c == b':' then some ([], t) else elim rest [ none ↦ none | some p ↦ some (c ∷ p.0, p.1) ]

abbrev pub split_rest : Option (Text × Text) → Option (Text × Text)
split_rest none = none
split_rest (some p) = split_colon p.1

-- `parts = key.split(":", 2)` where it has three parts: the second and the third.
unfoldable pub parse_key : Text → Option (Text × Text)
parse_key k = split_rest (split_colon k)

unfoldable pub starts_with : Text → Text → Bool
starts_with [] k = true
starts_with (c ∷ p) [] = false
starts_with (c ∷ p) (d ∷ k) = c == d && starts_with p k

abbrev pub is_due : ℕ → Option ℕ → Bool
is_due now none = false
is_due now (some c) = leb c now

unfoldable pub is_ready : ℕ → CircuitHash → Bool
is_ready now h =
    is_open (get_default h.h_state closed)
    && (not (get_default h.h_permanent false) && is_due now h.h_cooldown_until)

unfoldable pub probe_entry : ℕ → Text × CircuitHash → Option (Text × Text)
unfolding starts_with is_ready
probe_entry now (k, h) =
    if starts_with (codes "circuit:") k && is_ready now h then parse_key k else none

unfoldable pub open_for_probe : Redis → ℕ → List (Text × Text)
open_for_probe none now = []
open_for_probe (some r) now = collect (probe_entry now) r

pub record Snapshot : Type 0 where
  pub source : Text
  pub unit : Text
  pub state : Phase
  pub fail_streak : ℕ
  pub open_cycles : ℕ
  pub is_permanent : Bool
  pub cooldown_until : Option ℕ

abbrev snapshot : CircuitHash → Text × Text → Snapshot
snapshot h p = record {
  source = p.0;
  unit = p.1;
  state = get_default h.h_state closed;
  fail_streak = get_default h.h_fail_streak 0;
  open_cycles = get_default h.h_open_cycles 0;
  is_permanent = get_default h.h_permanent false;
  cooldown_until = h.h_cooldown_until;
}

abbrev snapshot_of : CircuitHash → Option (Text × Text) → Option Snapshot
snapshot_of h none = none
snapshot_of h (some p) = some (snapshot h p)

unfoldable pub circuit_entry : Text × CircuitHash → Option Snapshot
unfolding starts_with
circuit_entry (k, h) =
    if starts_with (codes "circuit:") k then snapshot_of h (parse_key k) else none

unfoldable pub all_circuits : Redis → List Snapshot
unfolding circuit_entry
all_circuits none = []
all_circuits (some r) = collect circuit_entry r

-- `by_source.setdefault(c["source"], []).append(c)` for each circuit.
unfoldable pub by_source : List Snapshot → Dict Text (List Snapshot) → Dict Text (List Snapshot)
by_source [] d = d
by_source (c ∷ cs) d = by_source cs (put d c.source (get_default (get d c.source) [] ++ (c ∷ [])))

abbrev pub is_dead : Snapshot → Bool
is_dead c = is_open c.state || c.is_permanent

abbrev all_dead : List Snapshot → Bool
all_dead [] = false
all_dead (c ∷ cs) = all_of is_dead (c ∷ cs)

abbrev dead_source : Text × List Snapshot → Option Text
dead_source (source, cs) = if all_dead cs then some source else none

unfoldable pub sources_all_proxies_open : Redis → List Text
unfolding by_source all_circuits
sources_all_proxies_open r = collect dead_source (by_source (all_circuits r) [])
