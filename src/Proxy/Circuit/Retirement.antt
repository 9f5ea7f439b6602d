-- ===== src/Proxy/Circuit/Retirement.antt =====
-- What selection sees of a circuit: recovery by a probe, and permanent retirement.
use fd_open_data_mcp.Base.{
  ℕ, ◌+◌, ◌≤◌, ◌≡◌, refl, ◌∙◌, Bool, true, false, ◌||◌, not, some, List, [], ◌∷◌, arith, leb, Text,
  length,
}
use fd_open_data_mcp.Proxy.Circuit.{
  CircuitState, Redis, Keyspace, get_state, is_selectable, apply_outcome, apply_probe,
}
use fd_open_data_mcp.Proxy.Circuit.Streaks.{IsConsistent}
use fd_open_data_mcp.Proxy.Circuit.Isolation.{
  Op, outcome, probe, run, apply_op, effect, persisted, run_state, AllAt, next_state, run-keeps,
  get_state-run, get_state-apply_op_self,
}

effect-keeps_permanent :
    (op : Op) (st : CircuitState)
    → st.is_permanent ≡ true
    → (persisted (effect op st) st).is_permanent ≡ true
unfolding apply_outcome apply_probe
effect-keeps_permanent (outcome now s u c) st h = ground arith
effect-keeps_permanent (probe now s u b) st h = ground arith

-- A permanent circuit is never selectable again, whatever outcomes and probes follow.
pub permanent_absorbs :
    (ops : List Op) (r : Redis) (s u : Text)
    → (get_state r s u).is_permanent ≡ true
    → is_selectable (run r ops) s u ≡ false
unfolding is_selectable
permanent_absorbs ops r s u h =
    rw (run-keeps {P = λ st. st.is_permanent ≡ true} effect-keeps_permanent ops r s u h)

abbrev pub probes : Text → Text → Bool → List ℕ → List Op
probes s u b [] = []
probes s u b (now ∷ times) = probe now s u b ∷ probes s u b times

probes-AllAt : (s u : Text) (b : Bool) (times : List ℕ) → AllAt s u (probes s u b times)
probes-AllAt s u b [] = tt
probes-AllAt s u b (now ∷ times) = (refl, probes-AllAt s u b times)

failures_retire :
    (times : List ℕ) (s u : Text) (st : CircuitState)
    → (3 ≤ st.open_cycles → st.is_permanent ≡ true)
    → (run_state st (probes s u false times)).is_permanent
      ≡ (st.is_permanent || leb 3 (st.open_cycles + length times))
unfolding run_state
failures_retire [] s u st h = ground arith
failures_retire (now ∷ times) s u st h =
    failures_retire times s u (next_state (probe now s u false) st)
      (unfold apply_probe in ground arith)
    ∙ (unfold apply_probe in ground arith)

-- Failed probes in a row retire a consistent circuit exactly when its failed cycles reach three.
pub retirement_exact :
    (r : Keyspace) (s u : Text) (times : List ℕ)
    → let st = get_state (some r) s u in
      IsConsistent st
      → (get_state (run (some r) (probes s u false times)) s u).is_permanent
        ≡ (st.is_permanent || leb 3 (st.open_cycles + length times))
retirement_exact r s u times h =
    rw (get_state-run (probes s u false times) r s u (probes-AllAt s u false times))
      (failures_retire times s u (get_state (some r) s u) h.exhausted)

-- A probe that succeeds makes a circuit selectable exactly when it is not permanent, and one that
-- fails makes it unselectable.
pub selectable_after_probe :
    (r : Keyspace) (s u : Text) (now : ℕ)
    → (is_selectable (apply_op (some r) (probe now s u true)) s u
        ≡ not (get_state (some r) s u).is_permanent)
      × (is_selectable (apply_op (some r) (probe now s u false)) s u ≡ false)
unfolding is_selectable apply_probe
selectable_after_probe r s u now = (
  rw (get_state-apply_op_self r (probe now s u true) s u refl) (ground arith),
  rw (get_state-apply_op_self r (probe now s u false) s u refl) (ground arith),
)
