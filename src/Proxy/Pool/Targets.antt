-- ===== src/Proxy/Pool/Targets.antt =====
-- The probe target of a unit.
use fd_open_data_mcp.Base.{
  ◌≤◌, ◌≡◌, ◌≢◌, refl, sym, ap, ◌∙◌, true, not, inl, inr, ◌⊎◌, ◌↔◌, Bool-cases, Option, none, some,
  List, [], ◌∷◌, ◌++◌, arith, if◌then◌else◌, ltb, Text, ◌==◌, list_eq, nat_eq, list_beq_iff, In,
  In-filter_by, filter_by, int_of, int_of-str, beq_refl,
}
use fd_open_data_mcp.Proxy.Pool.{
  Proxy, Session, is_active, is_direct, insert_by_id, sort_by_id, active_proxies, circuit_unit,
  find_proxy, better, best_loop, target_of, proxy_for_unit, unit_text,
}

In-append : (a : Proxy) (xs ys : List Proxy) → In a (xs ++ ys) ↔ (In a xs ⊎ In a ys)
In-append a [] ys = ground arith
In-append a (x ∷ xs) ys = ground (arith, In-append a xs ys)

In-insert_by_id : (a p : Proxy) (xs : List Proxy) → In a (insert_by_id p xs) ↔ ((a ≡ p) ⊎ In a xs)
unfolding insert_by_id
In-insert_by_id a p [] = ground arith
In-insert_by_id a p (x ∷ xs) = ground (arith, In-insert_by_id a p xs)

In-sort_by_id : (a : Proxy) (xs : List Proxy) → In a (sort_by_id xs) ↔ In a xs
unfolding sort_by_id
In-sort_by_id a [] = ground arith
In-sort_by_id a (x ∷ xs) = ground (arith, In-insert_by_id a x (sort_by_id xs), In-sort_by_id a xs)

-- The active proxies are the rows of the table with that status.
pub In-active_proxies :
    (a : Proxy) (s : Session) → In a (active_proxies s) ↔ (In a s.proxies × (is_active a ≡ true))
unfolding active_proxies
In-active_proxies a s =
    let rows = filter_by is_active s.proxies in
    let others = filter_by (λ p. not (is_direct p)) rows in
    ground (
      arith,
      In-append a (filter_by is_direct rows) (sort_by_id others),
      In-sort_by_id a others,
      In-filter_by is_direct a rows,
      In-filter_by (λ p. not (is_direct p)) a rows,
      In-filter_by is_active a s.proxies,
      Bool-cases (is_direct a),
    )

-- `best` is the lowest of the unit among `seen` (or there is none).
abbrev pub IsBest : Text → (Proxy → Type 0) → Option Proxy → Type 0
IsBest unit P none = (p : Proxy) → P p → circuit_unit p ≢ unit
IsBest unit P (some b) =
    P b × (circuit_unit b ≡ unit) × ((p : Proxy) → P p → circuit_unit p ≡ unit → b.id ≤ p.id)

IsBest-of_iff :
    (unit : Text) (P Q : Proxy → Type 0) (o : Option Proxy)
    → ((p : Proxy) → P p ↔ Q p)
    → IsBest unit P o
    → IsBest unit Q o
IsBest-of_iff unit P Q none same h = λ p q. h p ((same p).1 q)
IsBest-of_iff unit P Q (some b) same h = ((same b).0 h.0, h.1, λ p q. h.2 p ((same p).1 q))

better-IsBest :
    (unit : Text) (P : Proxy → Type 0) (o : Option Proxy) (p : Proxy)
    → circuit_unit p ≡ unit
    → IsBest unit P o
    → IsBest unit (λ q. P q ⊎ (q ≡ p)) (better o p)
better-IsBest unit P none p e h = (
  inr refl,
  e,
  λ q c u. elim c [
    | inl old ↦ absurd (h q old u)
    | inr same ↦ omega (arith, ap (λ (r : Proxy). r.id) same)
  ],
)
better-IsBest unit P (some b) p e h = elim (Bool-cases (ltb p.id b.id)) [
  | inl lower ↦ rw lower (
    inr refl,
    e,
    λ q c u. elim c [
      | inl old ↦ ground (arith, h.2 q old u)
      | inr same ↦ omega (arith, ap (λ (r : Proxy). r.id) same)
    ],
  )
  | inr kept ↦ rw kept (
    inl h.0,
    h.1,
    λ q c u. elim c [
      | inl old ↦ h.2 q old u
      | inr same ↦ ground (arith, ap (λ (r : Proxy). r.id) same)
    ],
  )
]

skipped-IsBest :
    (unit : Text) (P : Proxy → Type 0) (o : Option Proxy) (p : Proxy)
    → circuit_unit p ≢ unit
    → IsBest unit P o
    → IsBest unit (λ q. P q ⊎ (q ≡ p)) o
skipped-IsBest unit P none p ne h =
    λ q c u. elim c [ inl old ↦ h q old u | inr same ↦ ne (ap circuit_unit (sym same) ∙ u) ]
skipped-IsBest unit P (some b) p ne h = (
  inl h.0,
  h.1,
  λ q c u. elim c [
    | inl old ↦ h.2 q old u
    | inr same ↦ absurd (ne (ap circuit_unit (sym same) ∙ u))
  ],
)

best_loop-IsBest :
    (unit : Text) (ps : List Proxy) (P : Proxy → Type 0) (o : Option Proxy)
    → IsBest unit P o
    → IsBest unit (λ q. P q ⊎ In q ps) (best_loop unit ps o)
unfolding best_loop
best_loop-IsBest unit [] P o h =
    IsBest-of_iff unit P (λ q. P q ⊎ ⊥) o
      (λ q. (λ p. inl p, λ c. elim c [ inl p ↦ p | inr n ↦ absurd n ])) h
best_loop-IsBest unit (p ∷ ps) P o h =
    let P' = λ (q : Proxy). P q ⊎ (q ≡ p) in
    let step : IsBest unit P' (if circuit_unit p == unit then better o p else o) =
      elim (Bool-cases (circuit_unit p == unit)) [
        | inl e ↦ rw e (better-IsBest unit P o p ((list_beq_iff (circuit_unit p) unit).0 e) h)
        | inr e ↦ rw e (
            skipped-IsBest unit P o p (λ same. cc (e, (list_beq_iff (circuit_unit p) unit).1 same))
              h)
      ] in
    let o' = if circuit_unit p == unit then better o p else o in
    IsBest-of_iff unit (λ q. P' q ⊎ In q ps) (λ q. P q ⊎ In q (p ∷ ps)) (best_loop unit ps o')
      (λ q. (λ c. ground arith, λ c. ground arith)) (best_loop-IsBest unit ps P' o' step)

-- For a unit that is no number, the probe target is the active proxy of the unit with the lowest
-- id, and there is none exactly when no active proxy has the unit.
pub grouped_target :
    (s : Session) (unit : Text)
    → int_of unit ≡ none
    → IsBest unit (λ p. In p s.proxies × (is_active p ≡ true)) (proxy_for_unit s unit)
unfolding proxy_for_unit
grouped_target s unit e = rw e (
    IsBest-of_iff unit (λ q. ⊥ ⊎ In q (active_proxies s))
      (λ p. In p s.proxies × (is_active p ≡ true)) (best_loop unit (active_proxies s) none)
      (λ p. (
        λ c. elim c [ inl n ↦ absurd n | inr i ↦ (In-active_proxies p s).0 i ],
        λ q. inr ((In-active_proxies p s).1 q),
      ))
      (best_loop-IsBest unit (active_proxies s) (λ q. ⊥) none (λ p n. absurd n)))

-- No two rows have one id.
abbrev pub HasDistinctIds : List Proxy → Type 0
HasDistinctIds [] = Unit
HasDistinctIds (p ∷ ps) = ((q : Proxy) → In q ps → q.id ≢ p.id) × HasDistinctIds ps

find_proxy-In :
    (p : Proxy) (ps : List Proxy) → HasDistinctIds ps → In p ps → find_proxy ps p.id ≡ some p
unfolding find_proxy
find_proxy-In p [] d i = absurd i
find_proxy-In p (x ∷ ps) d (inl e) = rw (e, beq_refl x.id)
find_proxy-In p (x ∷ ps) d (inr i) = ground (arith, d.0 p i, find_proxy-In p ps d.1 i)

-- An active proxy with no exit IP is the probe target of its own unit.
pub proxy_for_unit-circuit_unit :
    (s : Session) (p : Proxy)
    → HasDistinctIds s.proxies
    → In p s.proxies
    → is_active p ≡ true
    → p.exit_ip ≡ none
    → proxy_for_unit s (circuit_unit p) ≡ some p
unfolding proxy_for_unit circuit_unit
proxy_for_unit-circuit_unit s p d i active e =
    ap (λ x. target_of s (unit_text x p.id) (int_of (unit_text x p.id))) e
    ∙ rw (int_of-str p.id) (rw (find_proxy-In p s.proxies d i) (rw active))
