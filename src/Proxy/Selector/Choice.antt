-- ===== src/Proxy/Selector/Choice.antt =====
-- What a selection gives.
use fd_open_data_mcp.Base.{
  ℕ, ◌≡◌, refl, sym, ap, ◌∙◌, true, false, inl, inr, Bool-cases, Option, none, some, List, [], ◌∷◌,
  arith, if◌then◌else◌, Text, ◌==◌, list_eq, nat_eq, list_beq_iff, In, contains, all_of,
}
use fd_open_data_mcp.Proxy.Circuit.{Redis, is_selectable}
use fd_open_data_mcp.Proxy.Pool.{
  Proxy, Session, active_proxies, circuit_unit, get_rate_limit, all_proxies_unhealthy, is_unhealthy,
  none_healthy,
}
use fd_open_data_mcp.Proxy.RateLimit.{Counters, Reply, acquire}
use fd_open_data_mcp.Proxy.Selector.{
  Selected, direct, through, max_qps_of, select_loop, select_among, select,
}

module _ (r : Redis) (reply : ℕ → Reply) (sec : ℕ) (source : Text) (max_qps : ℕ) where
  -- The loop without the set of dead units: every proxy's circuit is looked up.
  pub plain_loop : List Proxy → Option Counters → Option Selected × Option Counters
  plain_loop [] c = (none, c)
  plain_loop (p ∷ ps) c =
      let (granted, c') = acquire c (reply p.id) sec source p.id (some max_qps) in
      let next = plain_loop ps c in
      let next_saturated = plain_loop ps c' in
      if is_selectable r source (circuit_unit p)
      then (if granted then (some (through p), c') else next_saturated)
      else next

  -- Each unit of the set is unselectable.
  abbrev AllDead : List Text → Type 0
  AllDead dead = (u : Text) → contains dead u ≡ true → is_selectable r source u ≡ false

  AllDead-cons :
      (dead : List Text) (u : Text)
      → AllDead dead
      → is_selectable r source u ≡ false
      → AllDead (u ∷ dead)
  AllDead-cons dead u h e v i = elim (Bool-cases (u == v)) [
    | inl same ↦ ap (is_selectable r source) (sym ((list_beq_iff u v).0 same)) ∙ e
    | inr other ↦ h v (ground arith)
  ]

  loop-eq-plain :
      (ps : List Proxy) (dead : List Text) (c : Option Counters)
      → AllDead dead
      → select_loop r reply sec source max_qps ps dead c ≡ plain_loop ps c
  unfolding select_loop plain_loop
  loop-eq-plain [] dead c h = refl
  loop-eq-plain (p ∷ ps) dead c h =
      let unit = circuit_unit p in
      let c' = (acquire c (reply p.id) sec source p.id (some max_qps)).1 in
      elim (Bool-cases (is_selectable r source unit)) [
        | inl live ↦ elim (Bool-cases (contains dead unit)) [
          | inl known ↦ cc (h unit known)
          | inr new ↦
              rw (live, new)
                (ap
                  (λ t.
                    if (acquire c (reply p.id) sec source p.id (some max_qps)).0
                    then (some (through p), c')
                    else t)
                  (loop-eq-plain ps dead c' h))
        ]
        | inr banned ↦ elim (Bool-cases (contains dead unit)) [
          | inl known ↦ rw (banned, known) (loop-eq-plain ps dead c h)
          | inr new ↦
              rw (banned, new) (loop-eq-plain ps (unit ∷ dead) c (AllDead-cons dead unit h banned))
        ]
      ]

  plain_loop-none :
      (ps : List Proxy) (c : Option Counters)
      → all_of (is_unhealthy r source) ps ≡ true
      → plain_loop ps c ≡ (none, c)
  unfolding plain_loop
  plain_loop-none [] c h = refl
  plain_loop-none (p ∷ ps) c h = ground (arith, plain_loop-none ps c)

  -- The counters that the calls for these proxies leave.
  unfoldable pub spent : List Proxy → Option Counters → Option Counters
  spent [] c = c
  spent (p ∷ ps) c = spent ps (acquire c (reply p.id) sec source p.id (some max_qps)).1

  -- A chosen proxy is one of the list, its circuit admits it, and its token was granted, on the
  -- counters that the calls for proxies of the list leave of the given ones; that call left the
  -- counters that are given back.
  abbrev pub Chosen : List Proxy → Option Counters → Option Selected × Option Counters → Type 0
  Chosen ps c (none, c') = Unit
  Chosen ps c (some direct, c') = ⊥
  Chosen ps c (some (through p), c') =
      In p ps
      × (is_selectable r source (circuit_unit p) ≡ true)
      × ((tried : List Proxy) × ((q : Proxy) → In q tried → In q ps)
          × (acquire (spent tried c) (reply p.id) sec source p.id (some max_qps) ≡ (true, c')))

  Chosen-skip :
      (p : Proxy) (ps : List Proxy) (c : Option Counters) (o : Option Selected × Option Counters)
      → Chosen ps c o
      → Chosen (p ∷ ps) c o
  Chosen-skip p ps c (none, c') h = tt
  Chosen-skip p ps c (some direct, c') h = h
  Chosen-skip p ps c (some (through q), c') (i, live, (tried, within, granted)) =
      (inr i, live, (tried, (λ x k. inr (within x k)), granted))

  Chosen-tried :
      (p : Proxy) (ps : List Proxy) (c : Option Counters) (o : Option Selected × Option Counters)
      → Chosen ps (acquire c (reply p.id) sec source p.id (some max_qps)).1 o
      → Chosen (p ∷ ps) c o
  unfolding spent
  Chosen-tried p ps c (none, c') h = tt
  Chosen-tried p ps c (some direct, c') h = h
  Chosen-tried p ps c (some (through q), c') (i, live, (tried, within, granted)) = (
    inr i,
    live,
    (p ∷ tried, (λ x k. elim k [ inl e ↦ inl e | inr j ↦ inr (within x j) ]), granted),
  )

  plain_loop-Chosen : (ps : List Proxy) (c : Option Counters) → Chosen ps c (plain_loop ps c)
  unfolding plain_loop spent
  plain_loop-Chosen [] c = tt
  plain_loop-Chosen (p ∷ ps) c =
      let call = acquire c (reply p.id) sec source p.id (some max_qps) in
      elim (Bool-cases (is_selectable r source (circuit_unit p))) [
        | inl live ↦ elim (Bool-cases call.0) [
          | inl granted ↦
              rw (live, granted)
                (inl refl, live, ([], (λ x k. absurd k), ap (λ b. (b, call.1)) granted))
          | inr refused ↦
              rw (live, refused)
                (Chosen-tried p ps c (plain_loop ps call.1) (plain_loop-Chosen ps call.1))
        ]
        | inr banned ↦ rw banned (Chosen-skip p ps c (plain_loop ps c) (plain_loop-Chosen ps c))
      ]

module _ (s : Session) (r : Redis) (reply : ℕ → Reply) (sec : ℕ) (source : Text) where
  abbrev pub cap : ℕ
  cap = max_qps_of (get_rate_limit s source)

  select-cons :
      (p : Proxy) (ps : List Proxy) (c : Option Counters)
      → active_proxies s ≡ p ∷ ps
      → select s r reply sec source c ≡ plain_loop r reply sec source cap (p ∷ ps) c
  unfolding select
  select-cons p ps c e =
      ap (λ l. select_among r reply sec source cap l c) e
      ∙ loop-eq-plain r reply sec source cap (p ∷ ps) [] c (λ u i. cc i)

  -- Where the pool has an active proxy, the choice is the one of the loop that looks up every
  -- circuit: skipping the units that were found dead changes nothing, neither the choice nor the
  -- rate tokens spent. A chosen proxy is active, its circuit is selectable, and its token was
  -- granted on the counters that the calls for the proxies tried before it leave, which gave the
  -- counters that are returned; and if all proxies are unhealthy for the source, none is chosen and no token is spent.
  pub select_sound :
      (p : Proxy) (ps : List Proxy) (c : Option Counters)
      → active_proxies s ≡ p ∷ ps
      → (select s r reply sec source c ≡ plain_loop r reply sec source cap (active_proxies s) c)
        × Chosen r reply sec source cap (active_proxies s) c (select s r reply sec source c)
        × (all_proxies_unhealthy r s source ≡ true → select s r reply sec source c ≡ (none, c))
  select_sound p ps c e =
      let same : select s r reply sec source c
          ≡ plain_loop r reply sec source cap (active_proxies s) c =
        select-cons p ps c e ∙ ap (λ l. plain_loop r reply sec source cap l c) (sym e) in
      (
        same,
        rw same (plain_loop-Chosen r reply sec source cap (active_proxies s) c),
        λ sick.
            select-cons p ps c e
            ∙ plain_loop-none r reply sec source cap (p ∷ ps) c
                (unfold all_proxies_unhealthy in (sym (ap (none_healthy r source) e) ∙ sick)),
      )
