-- ===== src/Proxy/Circuit.antt =====
-- fd_open_data_mcp/proxy/circuit.py: the circuit breaker of each (source, unit), kept in Redis.
-- Redis is a dictionary from keys to hashes, or `none` where no client is configured; times are
-- whole seconds. A hash has its fields by name, each absent or present with the value that its text
-- stands for, and a write replaces the fields that it names and keeps the others.
pub mod Scan
pub mod Keys
pub mod Streaks
pub mod Retirement
pub mod Cooldown
pub mod Isolation
use fd_open_data_mcp.Base.{
  ℕ, ◌+◌, ◌*◌, min, Bool, true, false, ◌&&◌, not, Option, none, some, ◌∷◌, ◌++◌, leb, ltb,
  if◌then◌else◌, or_else, get_default, Text, codes, ◌==◌, list_eq, nat_eq, Dict, get, put,
}

abbrev pub ban_threshold : ℕ
ban_threshold = 3

abbrev pub cooldown_sec : ℕ
cooldown_sec = 600

abbrev pub cooldown_max_sec : ℕ
cooldown_max_sec = 3600

abbrev pub permanent_cycles : ℕ
permanent_cycles = 3

abbrev pub transient_threshold : ℕ
transient_threshold = 3

abbrev pub transient_cooldown_sec : ℕ
transient_cooldown_sec = 120

-- The texts "closed", "open" and "half_open".
pub data Phase : Type 0 where
  closed opened half_open : Phase

abbrev pub is_closed : Phase → Bool
is_closed closed = true
is_closed _ = false

abbrev pub is_open : Phase → Bool
is_open opened = true
is_open _ = false

abbrev pub is_half_open : Phase → Bool
is_half_open half_open = true
is_half_open _ = false

-- The classes of a fetch outcome (`CLASSIFICATIONS` of ban_rules.py).
pub data Classification : Type 0 where
  ok transient ban blocked permanent : Classification

-- The dict of `get_state`; `banned_at` is there only after a trip.
pub record CircuitState : Type 0 where
  pub state : Phase
  pub fail_streak : ℕ
  pub transient_streak : ℕ
  pub success_streak : ℕ
  pub cooldown_until : Option ℕ
  pub open_cycles : ℕ
  pub is_permanent : Bool
  pub banned_at : Option ℕ

pub record CircuitHash : Type 0 where
  pub h_state : Option Phase
  pub h_fail_streak : Option ℕ
  pub h_transient_streak : Option ℕ
  pub h_success_streak : Option ℕ
  pub h_cooldown_until : Option ℕ
  pub h_open_cycles : Option ℕ
  pub h_permanent : Option Bool
  pub h_updated_at : Option ℕ
  pub h_banned_at : Option ℕ

abbrev pub empty_hash : CircuitHash
empty_hash = record {
  h_state = none;
  h_fail_streak = none;
  h_transient_streak = none;
  h_success_streak = none;
  h_cooldown_until = none;
  h_open_cycles = none;
  h_permanent = none;
  h_updated_at = none;
  h_banned_at = none;
}

abbrev pub Keyspace : Type 0
Keyspace = Dict Text CircuitHash

abbrev pub Redis : Type 0
Redis = Option Keyspace

abbrev pub default_state : CircuitState
default_state = record {
  state = closed;
  fail_streak = 0;
  transient_streak = 0;
  success_streak = 0;
  cooldown_until = none;
  open_cycles = 0;
  is_permanent = false;
  banned_at = none;
}

-- `HSET key field value ...`: the fields of `new` that are there replace those of `old`.
unfoldable pub merge : CircuitHash → CircuitHash → CircuitHash
merge new old = record {
  h_state = or_else new.h_state old.h_state;
  h_fail_streak = or_else new.h_fail_streak old.h_fail_streak;
  h_transient_streak = or_else new.h_transient_streak old.h_transient_streak;
  h_success_streak = or_else new.h_success_streak old.h_success_streak;
  h_cooldown_until = or_else new.h_cooldown_until old.h_cooldown_until;
  h_open_cycles = or_else new.h_open_cycles old.h_open_cycles;
  h_permanent = or_else new.h_permanent old.h_permanent;
  h_updated_at = or_else new.h_updated_at old.h_updated_at;
  h_banned_at = or_else new.h_banned_at old.h_banned_at;
}

unfoldable pub hset : Keyspace → Text → CircuitHash → Keyspace
hset r k new = put r k (merge new (get_default (get r k) empty_hash))

-- `f"circuit:{source}:{unit}"`
unfoldable pub key : Text → Text → Text
key source unit = codes "circuit:" ++ (source ++ (b':' ∷ unit))

unfoldable pub read_hash : CircuitHash → CircuitState
read_hash h = record {
  state = get_default h.h_state closed;
  fail_streak = get_default h.h_fail_streak 0;
  transient_streak = get_default h.h_transient_streak 0;
  success_streak = get_default h.h_success_streak 0;
  cooldown_until = h.h_cooldown_until;
  open_cycles = get_default h.h_open_cycles 0;
  is_permanent = get_default h.h_permanent false;
  banned_at = none;
}

abbrev pub state_of_hash : Option CircuitHash → CircuitState
state_of_hash none = default_state
state_of_hash (some h) = read_hash h

unfoldable pub get_state : Redis → Text → Text → CircuitState
unfolding read_hash
get_state none source unit = default_state
get_state (some r) source unit = state_of_hash (get r (key source unit))

unfoldable pub is_selectable : Redis → Text → Text → Bool
unfolding get_state
is_selectable r source unit =
    let st = get_state r source unit in if st.is_permanent then false else is_closed st.state

-- The branch of `record_outcome` for each class, on the state that was read.
unfoldable pub on_ban : ℕ → CircuitState → CircuitState
on_ban now st =
    let st' = record st { fail_streak = st.fail_streak + 1; transient_streak = 0 } in
    if leb ban_threshold st'.fail_streak && not (is_open st'.state)
    then record st' {
      state = opened;
      cooldown_until = some (now + cooldown_sec);
      banned_at = some now;
    }
    else st'

unfoldable pub on_ok : CircuitState → CircuitState
on_ok st =
    let st' = record st {
      fail_streak = 0;
      transient_streak = 0;
      success_streak = st.success_streak + 1;
    } in
    if is_half_open st'.state
    then record st' { state = closed; open_cycles = 0; cooldown_until = none }
    else st'

unfoldable pub on_transient : ℕ → CircuitState → CircuitState
on_transient now st =
    let st' = record st { transient_streak = st.transient_streak + 1 } in
    if leb transient_threshold st'.transient_streak && not (is_open st'.state)
    then record st' {
      state = opened;
      cooldown_until = some (now + transient_cooldown_sec);
      banned_at = some now;
    }
    else st'

unfoldable pub apply_outcome : ℕ → Classification → CircuitState → CircuitState
unfolding on_ban on_ok on_transient
apply_outcome now ban st = on_ban now st
apply_outcome now ok st = on_ok st
apply_outcome now transient st = on_transient now st
apply_outcome now blocked st = st
apply_outcome now permanent st = st

-- `if st.get("cooldown_until"): mapping[...] = ...`: absent and 0 write nothing.
abbrev pub truthy : Option ℕ → Option ℕ
truthy none = none
truthy (some n) = if n == 0 then none else some n

unfoldable pub outcome_mapping : ℕ → CircuitState → CircuitHash
outcome_mapping now st = record {
  h_state = some st.state;
  h_fail_streak = some st.fail_streak;
  h_transient_streak = some st.transient_streak;
  h_success_streak = some st.success_streak;
  h_cooldown_until = truthy st.cooldown_until;
  h_open_cycles = some st.open_cycles;
  h_permanent = some st.is_permanent;
  h_updated_at = some now;
  h_banned_at = truthy st.banned_at;
}

unfoldable pub record_outcome : Redis → ℕ → Text → Text → Classification → CircuitState × Redis
unfolding get_state apply_outcome outcome_mapping hset merge
record_outcome none now source unit c = (default_state, none)
record_outcome (some r) now source unit c =
    let st = apply_outcome now c (get_state (some r) source unit) in
    (st, some (hset r (key source unit) (outcome_mapping now st)))

-- `st.get("cooldown_until") or (now + COOLDOWN_SEC)`
abbrev pub previous_cooldown : ℕ → Option ℕ → ℕ
previous_cooldown now cd = get_default (truthy cd) (now + cooldown_sec)

unfoldable pub next_cooldown : ℕ → ℕ → ℕ
next_cooldown now prev_cd =
    min (if ltb now prev_cd then prev_cd * 2 else now + cooldown_sec * 2) (now + cooldown_max_sec)

unfoldable pub apply_probe : ℕ → Bool → CircuitState → CircuitState
unfolding next_cooldown
apply_probe now true st = record st {
  state = closed;
  fail_streak = 0;
  transient_streak = 0;
  open_cycles = 0;
  cooldown_until = none;
}
apply_probe now false st =
    let st' = record st {
      state = opened;
      transient_streak = 0;
      cooldown_until = some (next_cooldown now (previous_cooldown now st.cooldown_until));
      open_cycles = st.open_cycles + 1;
    } in
    if leb permanent_cycles st'.open_cycles then record st' { is_permanent = true } else st'

-- `success_streak` and `banned_at` are not among the fields that a probe writes.
unfoldable pub probe_mapping : ℕ → CircuitState → CircuitHash
probe_mapping now st = record {
  h_state = some st.state;
  h_fail_streak = some st.fail_streak;
  h_transient_streak = some st.transient_streak;
  h_success_streak = none;
  h_cooldown_until = truthy st.cooldown_until;
  h_open_cycles = some st.open_cycles;
  h_permanent = some st.is_permanent;
  h_updated_at = some now;
  h_banned_at = none;
}

unfoldable pub probe_transition : Redis → ℕ → Text → Text → Bool → CircuitState × Redis
unfolding get_state apply_probe probe_mapping hset merge
probe_transition none now source unit probe_ok = (default_state, none)
probe_transition (some r) now source unit probe_ok =
    let st = apply_probe now probe_ok (get_state (some r) source unit) in
    (st, some (hset r (key source unit) (probe_mapping now st)))
