-- ===== src/Proxy/RateLimit/Grants.antt =====
-- How many fetches of a source one second grants.
use fd_open_data_mcp.Base.{
  ℕ, zero, suc, ◌+◌, ◌*◌, ◌/◌, ◌-◌, min, ◌<◌, ◌≡◌, ◌≢◌, refl, ap, ◌∙◌, true, false, inl, inr,
  Bool-cases, Option, none, some, arith, if◌then◌else◌, leb, ltb, Text, list_eq, nat_eq, pair_eq,
  beq_refl, get, put, get-put, get_default,
}
use fd_open_data_mcp.Proxy.RateLimit.{
  Budget, returns, SourceCounters, LocalCounters, current, uncapped, bump, acquire_source,
  acquire_from,
}

-- The grants of n calls for one source within one second, while Redis answers.
unfoldable pub grants : ℕ → Budget → ℕ → Text → Option ℕ → ℕ
grants zero b sec source max_qps = 0
grants (suc n) b sec source max_qps =
    let (granted, b') = acquire_source b returns sec source max_qps in
    let rest = grants n b' sec source max_qps in if granted then suc rest else rest

uncapped_pos : (q : ℕ) → 0 < q → uncapped (some q) ≡ false
uncapped_pos q p = ground arith

shared_call :
    (b : Budget) (c : SourceCounters) (sec : ℕ) (source : Text) (q : ℕ)
    → 0 < q
    → b.shared ≡ some c
    → acquire_source b returns sec source (some q) ≡ (
      leb ((get_default (get c (source, sec)) 0 + 1) * 1000) q,
      record b { shared = some (bump c (source, sec)) },
    )
unfolding acquire_source
shared_call b c sec source q p e =
    rw (uncapped_pos q p) (ap (λ o. acquire_from o returns b sec source (some q)) e)

counted-bump :
    (c : SourceCounters) (k : Text × ℕ)
    → get_default (get (bump c k) k) 0 ≡ get_default (get c k) 0 + 1
counted-bump c k = rw (get-put, beq_refl)

shared_grants :
    (n : ℕ) (b : Budget) (c : SourceCounters) (sec : ℕ) (source : Text) (q : ℕ)
    → 0 < q
    → b.shared ≡ some c
    → grants n b sec source (some q)
      ≡ min (get_default (get c (source, sec)) 0 + n) (q / 1000)
        - get_default (get c (source, sec)) 0
unfolding grants
shared_grants zero b c sec source q p e = omega arith
shared_grants (suc n) b c sec source q p e =
    let k : Text × ℕ = (source, sec) in
    let b' = record b { shared = some (bump c k) } in
    rw (shared_call b c sec source q p e)
      (ground (arith, shared_grants n b' (bump c k) sec source q p refl, counted-bump c k))

local_call :
    (b : Budget) (sec : ℕ) (source : Text) (q : ℕ)
    → 0 < q
    → b.shared ≡ none
    → let count = current sec (get b.own source) in
      acquire_source b returns sec source (some q) ≡ (
        if ltb (count * 1000) q
        then (true, record b { own = put b.own source (sec, count + 1) })
        else (false, record b { own = put b.own source (sec, count) }))
unfolding acquire_source
local_call b sec source q p e = rw (uncapped_pos q p) (
    ap (λ o. acquire_from o returns b sec source (some q)) e
    ∙ (elim (Bool-cases (ltb (current sec (get b.own source) * 1000) q)) [
      | inl g ↦ rw g
      | inr g ↦ rw g
    ]))

current-put :
    (l : LocalCounters) (source : Text) (sec n : ℕ)
    → current sec (get (put l source (sec, n)) source) ≡ n
current-put l source sec n = rw (get-put, beq_refl) (rw (beq_refl sec))

local_grants :
    (n : ℕ) (b : Budget) (sec : ℕ) (source : Text) (q : ℕ)
    → 0 < q
    → b.shared ≡ none
    → grants n b sec source (some q)
      ≡ min (current sec (get b.own source) + n) ((q + 999) / 1000) - current sec (get b.own source)
unfolding grants
local_grants zero b sec source q p e = omega arith
local_grants (suc n) b sec source q p e =
    let count = current sec (get b.own source) in
    let up = record b { own = put b.own source (sec, count + 1) } in
    let same = record b { own = put b.own source (sec, count) } in
    elim (Bool-cases (ltb (count * 1000) q)) [
      | inl g ↦ rw (local_call b sec source q p e) (
          rw g (
            ground (
              arith,
              local_grants n up sec source q p e,
              current-put b.own source sec (count + 1),
            )))
      | inr g ↦ rw (local_call b sec source q p e) (
          rw g (
            ground
              (arith, local_grants n same sec source q p e, current-put b.own source sec count)))
    ]

-- The process's own counter was not counted up in this second: there is none, or it is of another.
abbrev pub IsFreshIn : ℕ → Option (ℕ × ℕ) → Type 0
IsFreshIn sec entry = (cur_sec count : ℕ) → entry ≡ some (cur_sec, count) → cur_sec ≢ sec

current-IsFreshIn : (sec : ℕ) (entry : Option (ℕ × ℕ)) → IsFreshIn sec entry → current sec entry ≡ 0
current-IsFreshIn sec none fresh = refl
current-IsFreshIn sec (some (cur_sec, count)) fresh =
    let other = fresh cur_sec count refl in ground (arith, other)

-- Within one second and under a cap of q thousandths of a request per second, n calls for a source
-- that was not called in that second, whatever it was granted in others, are granted min(n, floor(q / 1000)) times by Redis, and
-- min(n, ceil(q / 1000)) times by the process's own counters.
pub grants_exact :
    (n : ℕ) (b : Budget) (c : SourceCounters) (sec : ℕ) (source : Text) (q : ℕ)
    → 0 < q
    → get c (source, sec) ≡ none
    → IsFreshIn sec (get b.own source)
    → (grants n (record b { shared = some c }) sec source (some q) ≡ min n (q / 1000))
      × (grants n (record b { shared = none }) sec source (some q) ≡ min n ((q + 999) / 1000))
grants_exact n b c sec source q p fresh fresh' = (
  shared_grants n (record b { shared = some c }) c sec source q p refl ∙ (rw fresh (omega arith)),
  local_grants n (record b { shared = none }) sec source q p refl
      ∙ (rw (current-IsFreshIn sec (get b.own source) fresh') (omega arith)),
)
