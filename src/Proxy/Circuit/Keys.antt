-- ===== src/Proxy/Circuit/Keys.antt =====
-- Keys, and the scan for probes.
use fd_open_data_mcp.Base.{
  ℕ, ◌≡◌, refl, ap, ◌∙◌, ◌↔◌, true, false, not, some, [], ◌∷◌, ◌++◌, arith, subst, Option-cases,
  sym, inl, inr, Text, codes, ◌==◌, nat_eq, list_eq, In, In-collect, collect-In, get, IsUnique,
  get-In, In-get, all_of, drop, length,
}
use fd_open_data_mcp.Proxy.Circuit.{
  CircuitHash, CircuitState, Keyspace, key, get_state, read_hash, state_of_hash, opened,
}
use fd_open_data_mcp.Proxy.Circuit.Scan.{
  split_colon, split_rest, parse_key, starts_with, is_due, is_ready, probe_entry, open_for_probe,
}

abbrev pub HasNoColon : Text → Type 0
HasNoColon s = all_of (λ c. not (c == b':')) s ≡ true

split_colon-append : (s t : Text) → HasNoColon s → split_colon (s ++ (b':' ∷ t)) ≡ some (s, t)
unfolding split_colon
split_colon-append [] t h = refl
split_colon-append (c ∷ s) t h = ground (arith, split_colon-append s t)

-- A key is read back as the source and the unit that it was made of, where the source has no colon.
pub parse_key-key : (s u : Text) → HasNoColon s → parse_key (key s u) ≡ some (s, u)
unfolding parse_key key
parse_key-key s u h =
    rw (split_colon-append (codes "circuit") (s ++ (b':' ∷ u)) refl) (split_colon-append s u h)

split_colon_inverse :
    (k : Text) (p : Text × Text)
    → split_colon k ≡ some p
    → (k ≡ p.0 ++ (b':' ∷ p.1)) × HasNoColon p.0
unfolding split_colon
split_colon_inverse [] p h = cc
split_colon_inverse (c ∷ k) p h = elim (Option-cases (split_colon k)) [
  | inl e ↦ ground arith
  | inr (q, e) ↦ ground (arith, split_colon_inverse k q e)
]

starts_with-drop : (p k : Text) → starts_with p k ≡ true → k ≡ p ++ drop (length p) k
unfolding starts_with
starts_with-drop [] k h = refl
starts_with-drop (c ∷ p) [] h = cc
starts_with-drop (c ∷ p) (d ∷ k) h = ground (arith, starts_with-drop p k)

starts_with-append : (p k : Text) → starts_with p (p ++ k) ≡ true
unfolding starts_with
starts_with-append [] k = refl
starts_with-append (c ∷ p) k = ground (arith, starts_with-append p k)

-- A key that the scan matches and parses is the key of what it parses to.
parse_key_inverse :
    (k s u : Text)
    → starts_with (codes "circuit:") k ≡ true
    → parse_key k ≡ some (s, u)
    → (k ≡ key s u) × HasNoColon s
unfolding parse_key key
parse_key_inverse k s u m h =
    let t = drop 8 k in
    let e : k ≡ codes "circuit:" ++ t = starts_with-drop (codes "circuit:") k m in
    let (q, free) =
      split_colon_inverse t (s, u)
        (sym (ap parse_key e ∙ ap split_rest (split_colon-append (codes "circuit") t refl)) ∙ h) in
    (e ∙ ap (λ r. codes "circuit:" ++ r) q, free)

-- The circuit of a source and a unit waits for a probe: it is open, not permanent, and its cooldown
-- has passed.
pub record IsWaiting (now : ℕ) (st : CircuitState) : Type 0 where
  pub opened_state : st.state ≡ opened
  pub kept : st.is_permanent ≡ false
  pub due : is_due now st.cooldown_until ≡ true

is_ready-IsWaiting :
    (now : ℕ) (h : CircuitHash) → (is_ready now h ≡ true) ↔ IsWaiting now (read_hash h)
unfolding is_ready read_hash
is_ready-IsWaiting now h = ground arith

probe_entry-key :
    (now : ℕ) (s u : Text) (h : CircuitHash)
    → HasNoColon s
    → is_ready now h ≡ true
    → probe_entry now (key s u, h) ≡ some (s, u)
unfolding probe_entry
probe_entry-key now s u h free e =
    let m : starts_with (codes "circuit:") (key s u) ≡ true =
      unfold key in starts_with-append (codes "circuit:") (s ++ (b':' ∷ u)) in
    rw (e, m) (parse_key-key s u free)

probe_entry_inverse :
    (now : ℕ) (k : Text) (h : CircuitHash) (p : Text × Text)
    → probe_entry now (k, h) ≡ some p
    → (starts_with (codes "circuit:") k ≡ true) × (is_ready now h ≡ true) × (parse_key k ≡ some p)
unfolding probe_entry
probe_entry_inverse now k h p e = ground arith

found_waiting :
    (now : ℕ) (r : Keyspace) (s u : Text)
    → HasNoColon s
    → IsWaiting now (get_state (some r) s u)
    → In (s, u) (open_for_probe (some r) now)
unfolding open_for_probe get_state
found_waiting now r s u free w = elim (Option-cases (get r (key s u))) [
  | inl e ↦ cc w.opened_state
  | inr (h, e) ↦
      collect-In (probe_entry now) (key s u, h) (s, u) r (get-In r (key s u) h e)
        (probe_entry-key now s u h free
          ((is_ready-IsWaiting now h).1 (subst (λ o. IsWaiting now (state_of_hash o)) e w)))
]

IsWaiting-found :
    (now : ℕ) (r : Keyspace) (s u : Text)
    → IsUnique r
    → In (s, u) (open_for_probe (some r) now)
    → HasNoColon s × IsWaiting now (get_state (some r) s u)
unfolding open_for_probe get_state
IsWaiting-found now r s u uniq i =
    let ((k, h), at, e) = In-collect (probe_entry now) (s, u) r i in
    let (m, ready, parsed) = probe_entry_inverse now k h (s, u) e in
    let (same, free) = parse_key_inverse k s u m parsed in
    (
      free,
      subst (λ o. IsWaiting now (state_of_hash o))
          (sym (In-get r (key s u) h uniq (subst (λ j. In (j, h) r) same at)))
          ((is_ready-IsWaiting now h).0 ready),
    )

-- In a keyspace with no key twice, a scan lists a source and a unit exactly when the source has no
-- colon and the circuit is open, not permanent and past its cooldown.
pub open_for_probe_exact :
    (now : ℕ) (r : Keyspace) (s u : Text)
    → IsUnique r
    → In (s, u) (open_for_probe (some r) now)
      ↔ (HasNoColon s × IsWaiting now (get_state (some r) s u))
open_for_probe_exact now r s u uniq =
    (IsWaiting-found now r s u uniq, λ h. found_waiting now r s u h.0 h.1)
