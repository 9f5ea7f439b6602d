-- ===== src/Proxy/Tests.antt =====
-- Runs of the proxy modules at concrete inputs.
use fd_open_data_mcp.Base.{
  ◌≤◌, ◌<◌, ◌≡◌, ◌↔◌, refl, true, false, some, List, [], ◌∷◌, arith, Text, codes, list_eq, nat_eq,
  get, In,
}
use fd_open_data_mcp.Proxy.Circuit.{
  Keyspace, opened, is_open, transient, ban, get_state, is_selectable, key,
}
use fd_open_data_mcp.Proxy.Circuit.Isolation.{Op, outcome, probe, run, apply_op}
use fd_open_data_mcp.Proxy.Circuit.Streaks.{
  IsConsistent, default-IsConsistent, run-IsConsistent, outcomes, trip_exact,
}
use fd_open_data_mcp.Proxy.Circuit.Retirement.{permanent_absorbs, probes, retirement_exact}
use fd_open_data_mcp.Proxy.Circuit.Cooldown.{cooldown_not_doubled}
use fd_open_data_mcp.Proxy.Circuit.Keys.{HasNoColon, IsWaiting, open_for_probe_exact}
use fd_open_data_mcp.Proxy.Circuit.Scan.{open_for_probe}

abbrev em : Text
em = codes "eastmoney"

abbrev seven : Text
seven = codes "7"

abbrev flaky : List Op
flaky =
    outcome 100 em seven ban
    ∷ outcome 101 em seven transient
    ∷ outcome 102 em seven ban
    ∷ outcome 103 em seven ban
    ∷ probe 800 em seven false
    ∷ probe 2100 em seven true
    ∷ []

-- An untouched circuit reads as the default, which is consistent.
fresh-IsConsistent : IsConsistent (get_state (some []) em seven)
unfolding get_state get
fresh-IsConsistent = default-IsConsistent

run-IsConsistent_example : IsConsistent (get_state (run (some []) flaky) em seven)
run-IsConsistent_example = run-IsConsistent flaky (some []) em seven fresh-IsConsistent

trip_exact_example :
    (is_open (get_state (run (some []) (outcomes em seven ban (1 ∷ 2 ∷ 3 ∷ []))) em seven).state
      ≡ true)
    × (is_open
          (get_state (run (some []) (outcomes em seven transient (1 ∷ 2 ∷ 3 ∷ []))) em seven).state
        ≡ true)
unfolding get_state get
trip_exact_example = trip_exact [] em seven (1 ∷ 2 ∷ 3 ∷ []) fresh-IsConsistent refl

abbrev burned : Keyspace
burned =
    (
      codes "circuit:eastmoney:7",
      record {
        h_state = some opened;
        h_fail_streak = some 3;
        h_transient_streak = some 0;
        h_success_streak = some 5;
        h_cooldown_until = some 700;
        h_open_cycles = some 3;
        h_permanent = some true;
        h_updated_at = some 100;
        h_banned_at = some 100;
      },
    )
    ∷ []

abbrev cooling : Keyspace
cooling =
    (
      codes "circuit:eastmoney:7",
      record {
        h_state = some opened;
        h_fail_streak = some 3;
        h_transient_streak = some 0;
        h_success_streak = some 5;
        h_cooldown_until = some 700;
        h_open_cycles = some 0;
        h_permanent = some false;
        h_updated_at = some 100;
        h_banned_at = some 100;
      },
    )
    ∷ []

permanent_absorbs_example : is_selectable (run (some burned) flaky) em seven ≡ false
unfolding get_state key get
permanent_absorbs_example = permanent_absorbs flaky (some burned) em seven refl

cooling-IsConsistent : IsConsistent (get_state (some cooling) em seven)
unfolding get_state key get
cooling-IsConsistent = ground arith

retirement_exact_example :
    (get_state
      (run (some cooling) (probes em seven false (700 ∷ 1900 ∷ 3100 ∷ [])))
      em
      seven).is_permanent
    ≡ true
unfolding get_state key get
retirement_exact_example =
    retirement_exact cooling em seven (700 ∷ 1900 ∷ 3100 ∷ []) cooling-IsConsistent

cooldown_not_doubled_example :
    let after =
      (get_state (apply_op (some cooling) (probe 700 em seven false)) em seven).cooldown_until in
    (700 ≤ 700 → after ≡ some 1900) × (700 < 700 → 3600 ≤ 700 → after ≡ some 4300)
unfolding get_state key get
cooldown_not_doubled_example = cooldown_not_doubled cooling em seven 700 700 refl (omega arith)

open_for_probe_exact_example :
    In (em, seven) (open_for_probe (some cooling) 900)
    ↔ (HasNoColon em × IsWaiting 900 (get_state (some cooling) em seven))
unfolding get
open_for_probe_exact_example = open_for_probe_exact 900 cooling em seven (refl, tt)
