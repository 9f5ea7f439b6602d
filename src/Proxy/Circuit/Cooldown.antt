-- ===== src/Proxy/Circuit/Cooldown.antt =====
-- The cooldown that a failed probe sets.
use fd_open_data_mcp.Base.{ℕ, ◌+◌, ◌≤◌, ◌<◌, ◌≡◌, refl, false, Option, some, arith, Text}
use fd_open_data_mcp.Proxy.Circuit.{
  Keyspace, get_state, apply_probe, next_cooldown, previous_cooldown,
}
use fd_open_data_mcp.Proxy.Circuit.Isolation.{probe, apply_op, get_state-apply_op_self}

next_cooldown_bounds :
    (now : ℕ) (cd : Option ℕ)
    → (now < next_cooldown now (previous_cooldown now cd))
      × (next_cooldown now (previous_cooldown now cd) ≤ now + 3600)
unfolding next_cooldown
next_cooldown_bounds now cd = ground arith

-- A failed probe leaves a cooldown that is after now and at most an hour after it.
pub cooldown_bounds :
    (r : Keyspace) (s u : Text) (now : ℕ)
    → (c : ℕ) × ((get_state (apply_op (some r) (probe now s u false)) s u).cooldown_until ≡ some c)
      × (now < c)
      × (c ≤ now + 3600)
cooldown_bounds r s u now =
    let old = (get_state (some r) s u).cooldown_until in
    let (after, within) = next_cooldown_bounds now old in
    (
      next_cooldown now (previous_cooldown now old),
      rw (get_state-apply_op_self r (probe now s u false) s u refl)
          (unfold apply_probe in ground arith),
      after,
      within,
    )

-- A failed probe of a circuit whose cooldown has passed always sets twenty minutes, and one whose
-- cooldown has not passed sets an hour once now is at least an hour: the length of the cooldown
-- before is not doubled.
pub cooldown_not_doubled :
    (r : Keyspace) (s u : Text) (now c : ℕ)
    → (get_state (some r) s u).cooldown_until ≡ some c
    → 0 < c
    → let after = (get_state (apply_op (some r) (probe now s u false)) s u).cooldown_until in
      (c ≤ now → after ≡ some (now + 1200)) × (now < c → 3600 ≤ now → after ≡ some (now + 3600))
cooldown_not_doubled r s u now c e p =
    rw (get_state-apply_op_self r (probe now s u false) s u refl)
      (unfold apply_probe in rw e (ground arith, ground arith))
