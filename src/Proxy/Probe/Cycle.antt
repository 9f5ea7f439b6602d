-- ===== src/Proxy/Probe/Cycle.antt =====
-- What a probe cycle does to the circuits, the pool and its own tally.
use fd_open_data_mcp.Base.{
  ℕ, ◌+◌, ◌≤◌, ◌≡◌, refl, sym, ap, ◌∙◌, subst, Bool, true, false, inl, inr, ◌↔◌, Option, none, some,
  List, [], ◌∷◌, map, length, arith, if◌then◌else◌, Text, ◌==◌, list_eq, nat_eq, In,
}
use fd_open_data_mcp.Proxy.Circuit.Scan.{open_for_probe}
use fd_open_data_mcp.Proxy.Pool.Targets.{In-active_proxies}
use fd_open_data_mcp.Proxy.BanRules.{BanRule, FetchOutcome}
use fd_open_data_mcp.Proxy.Pool.{
  Proxy, Session, is_active, active_proxies, circuit_unit, proxy_for_unit,
}
use fd_open_data_mcp.Proxy.Probe.{
  World, Summary, retire_row, retire_unit, probe_target, probe_candidate, probe_loop,
  run_probe_cycle, nothing_probed,
}

status-retire_row :
    (unit : Text) (p : Proxy)
    → is_active (retire_row unit p) ≡ (if circuit_unit p == unit then false else is_active p)
status-retire_row unit p = ground (arith)

kept-retire_row :
    (unit : Text) (p : Proxy) → is_active (retire_row unit p) ≡ true → retire_row unit p ≡ p
kept-retire_row unit p h = ground arith

other-retire_row :
    (unit : Text) (p : Proxy) → (circuit_unit p == unit) ≡ false → retire_row unit p ≡ p
other-retire_row unit p h = ground arith

unit-retire_row :
    (unit : Text) (p : Proxy)
    → is_active (retire_row unit p) ≡ true
    → (circuit_unit p == unit) ≡ false
unit-retire_row unit p h = ground (arith, status-retire_row unit p)

active-retired :
    (unit : Text) (a : Proxy) (ps : List Proxy)
    → In a (map (retire_row unit) ps)
    → is_active a ≡ true
    → In a ps × ((circuit_unit a == unit) ≡ false)
active-retired unit a [] i h = absurd i
active-retired unit a (p ∷ ps) (inl e) h =
    let h' = subst (λ q. is_active q ≡ true) e h in
    let same = e ∙ kept-retire_row unit p h' in
    (inl same, ap (λ q. circuit_unit q == unit) same ∙ unit-retire_row unit p h')
active-retired unit a (p ∷ ps) (inr i) h = let (j, u) = active-retired unit a ps i h in (inr j, u)

retired-active :
    (unit : Text) (a : Proxy) (ps : List Proxy)
    → In a ps
    → (circuit_unit a == unit) ≡ false
    → In a (map (retire_row unit) ps)
retired-active unit a [] i h = i
retired-active unit a (p ∷ ps) (inl e) h =
    inl (e ∙ sym (other-retire_row unit p (subst (λ q. (circuit_unit q == unit) ≡ false) e h)))
retired-active unit a (p ∷ ps) (inr i) h = inr (retired-active unit a ps i h)

-- After a unit is retired, the active proxies are exactly those of before with another unit.
pub retire_unit_exact :
    (unit : Text) (s : Session) (a : Proxy)
    → In a (active_proxies (retire_unit unit s))
      ↔ (In a (active_proxies s) × ((circuit_unit a == unit) ≡ false))
retire_unit_exact unit s a =
    let after = In-active_proxies a (retire_unit unit s) in
    let before = In-active_proxies a s in
    (
      λ i.
          let (j, act) = after.0 i in
          let (k, u) = active-retired unit a s.proxies (unfold retire_unit in j) act in
          (before.1 (k, act), u),
      λ h.
          let (j, act) = before.0 h.0 in
          after.1 (unfold retire_unit in retired-active unit a s.proxies j h.1, act),
    )

module _ (search : Text → Text → Option Bool) (table : List BanRule) (probes : List Text)
    (fetch : Text → Proxy → Option FetchOutcome) (now : ℕ) where
  -- The tally adds up.
  abbrev Balanced : Summary → Type 0
  Balanced sum = sum.probed ≡ sum.recovered + sum.reopened + sum.permanents

  target-Balanced :
      (source unit : Text) (o : Option Proxy) (w : World) (sum : Summary)
      → Balanced sum
      → let sum' = (probe_target search table probes fetch now source unit o w sum).0 in
        Balanced sum' × (sum'.probed ≤ sum.probed + 1)
  target-Balanced source unit none w sum h = (h, omega arith)
  target-Balanced source unit (some p) w sum h = (ground arith, ground arith)

  loop-Balanced :
      (cs : List (Text × Text)) (w : World) (sum : Summary)
      → Balanced sum
      → let sum' = (probe_loop search table probes fetch now cs w sum).0 in
        Balanced sum' × (sum'.probed ≤ sum.probed + length cs)
  unfolding probe_loop probe_candidate
  loop-Balanced [] w sum h = (h, omega arith)
  loop-Balanced ((source, unit) ∷ cs) w sum h =
      let target = proxy_for_unit w.session unit in
      let (sum', w') = probe_target search table probes fetch now source unit target w sum in
      let (balanced, grown) = target-Balanced source unit target w sum h in
      let (balanced', grown') = loop-Balanced cs w' sum' balanced in
      (balanced', omega (arith, grown, grown'))

  -- A cycle probes at most the circuits that were due, and each probe is counted once: as
  -- recovered, reopened or permanent.
  pub cycle_tally :
      (w : World)
      → let sum = (run_probe_cycle search table probes fetch now w).0 in
        (sum.probed ≡ sum.recovered + sum.reopened + sum.permanents)
        × (sum.probed ≤ length (open_for_probe w.redis now))
  unfolding run_probe_cycle
  cycle_tally w =
      let (balanced, few) = loop-Balanced (open_for_probe w.redis now) w nothing_probed refl in
      (balanced, omega (arith, few))
