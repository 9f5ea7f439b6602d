-- ===== src/Proxy/Circuit/Streaks.antt =====
-- The streaks of a circuit and the trips that they cause.
use fd_open_data_mcp.Base.{
  ℕ, ◌+◌, ◌≤◌, ◌<◌, ◌≡◌, ◌≢◌, refl, true, false, some, List, [], ◌∷◌, arith, ◌∙◌, ◌||◌, leb, Text,
  length, is_some,
}
use fd_open_data_mcp.Proxy.Circuit.{
  Classification, CircuitState, Redis, Keyspace, closed, opened, half_open, is_open, ban, transient,
  get_state, apply_outcome, apply_probe, default_state,
}
use fd_open_data_mcp.Proxy.Circuit.Isolation.{
  Op, outcome, probe, run, effect, persisted, run-keeps, AllAt, run_state, get_state-run,
  next_state,
}

-- What holds of every circuit between two calls.
pub record IsConsistent (st : CircuitState) : Type 0 where
  pub never_half : st.state ≢ half_open
  pub closed_bans : st.state ≡ closed → st.fail_streak < 3
  pub closed_blips : st.state ≡ closed → st.transient_streak < 3
  pub closed_cycles : st.state ≡ closed → st.open_cycles ≡ 0
  pub open_cooled : st.state ≡ opened → is_some st.cooldown_until ≡ true
  pub exhausted : 3 ≤ st.open_cycles → st.is_permanent ≡ true

pub default-IsConsistent : IsConsistent default_state
default-IsConsistent = ground arith

effect-IsConsistent :
    (op : Op) (st : CircuitState) → IsConsistent st → IsConsistent (persisted (effect op st) st)
unfolding apply_outcome apply_probe
effect-IsConsistent (outcome now s u c) st h = ground arith
effect-IsConsistent (probe now s u b) st h = ground arith

-- From an empty or consistent store, every circuit stays consistent after any outcomes and probes,
-- in any order and for any circuits.
pub run-IsConsistent :
    (ops : List Op) (r : Redis) (s u : Text)
    → IsConsistent (get_state r s u)
    → IsConsistent (get_state (run r ops) s u)
run-IsConsistent = run-keeps {P = IsConsistent} effect-IsConsistent

abbrev pub outcomes : Text → Text → Classification → List ℕ → List Op
outcomes s u c [] = []
outcomes s u c (now ∷ times) = outcome now s u c ∷ outcomes s u c times

outcomes-AllAt :
    (s u : Text) (c : Classification) (times : List ℕ) → AllAt s u (outcomes s u c times)
outcomes-AllAt s u c [] = tt
outcomes-AllAt s u c (now ∷ times) = (refl, outcomes-AllAt s u c times)

bans_trip :
    (times : List ℕ) (s u : Text) (st : CircuitState)
    → (is_open st.state ≡ false → st.fail_streak < 3)
    → is_open (run_state st (outcomes s u ban times)).state
      ≡ (is_open st.state || leb 3 (st.fail_streak + length times))
unfolding run_state
bans_trip [] s u st h = ground arith
bans_trip (now ∷ times) s u st h =
    bans_trip times s u (next_state (outcome now s u ban) st) (unfold apply_outcome in ground arith)
    ∙ (unfold apply_outcome in ground arith)

transients_trip :
    (times : List ℕ) (s u : Text) (st : CircuitState)
    → (is_open st.state ≡ false → st.transient_streak < 3)
    → is_open (run_state st (outcomes s u transient times)).state
      ≡ (is_open st.state || leb 3 (st.transient_streak + length times))
unfolding run_state
transients_trip [] s u st h = ground arith
transients_trip (now ∷ times) s u st h =
    transients_trip times s u (next_state (outcome now s u transient) st)
      (unfold apply_outcome in ground arith)
    ∙ (unfold apply_outcome in ground arith)

-- A consistent closed circuit trips exactly when its streak of bans reaches three, and exactly when
-- its streak of transients does.
pub trip_exact :
    (r : Keyspace) (s u : Text) (times : List ℕ)
    → let st = get_state (some r) s u in
      IsConsistent st
      → st.state ≡ closed
      → (is_open (get_state (run (some r) (outcomes s u ban times)) s u).state
          ≡ leb 3 (st.fail_streak + length times))
        × (is_open (get_state (run (some r) (outcomes s u transient times)) s u).state
            ≡ leb 3 (st.transient_streak + length times))
trip_exact r s u times h e =
    let bans = outcomes s u ban times in
    let blips = outcomes s u transient times in
    let st = get_state (some r) s u in
    (
      rw (get_state-run bans r s u (outcomes-AllAt s u ban times))
          (bans_trip times s u st (λ _. h.closed_bans e) ∙ (rw e)),
      rw (get_state-run blips r s u (outcomes-AllAt s u transient times))
          (transients_trip times s u st (λ _. h.closed_blips e) ∙ (rw e)),
    )
