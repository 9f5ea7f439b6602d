-- ===== src/Proxy/Circuit/Isolation.antt =====
-- What one call of `record_outcome` or `probe_transition` does to what `get_state` reads of any
-- circuit, and sequences of such calls.
use fd_open_data_mcp.Base.{
  ℕ, ◌≡◌, ◌≢◌, refl, ap, ◌∙◌, Bool, true, false, ◌⊎◌, inl, inr, Bool-cases, Option, none, some,
  List, [], ◌∷◌, arith, if◌then◌else◌, or_else, get_default, Text, ◌==◌, list_eq, nat_eq,
  list_beq_iff, get, get-put,
}
use fd_open_data_mcp.Proxy.Circuit.{
  Classification, blocked, permanent, CircuitState, CircuitHash, Redis, Keyspace, truthy,
  empty_hash, state_of_hash, read_hash, merge, hset, key, get_state, apply_outcome, outcome_mapping,
  record_outcome, apply_probe, probe_mapping, probe_transition,
}

pub data Op : Type 0 where
  outcome : ℕ → Text → Text → Classification → Op
  probe : ℕ → Text → Text → Bool → Op

unfoldable pub apply_op : Redis → Op → Redis
apply_op r (outcome now s u c) = (record_outcome r now s u c).1
apply_op r (probe now s u b) = (probe_transition r now s u b).1

unfoldable pub run : Redis → List Op → Redis
run r [] = r
run r (op ∷ ops) = run (apply_op r op) ops

abbrev pub op_key : Op → Text
op_key (outcome now s u c) = key s u
op_key (probe now s u b) = key s u

abbrev pub effect : Op → CircuitState → CircuitState
effect (outcome now s u c) st = apply_outcome now c st
effect (probe now s u b) st = apply_probe now b st

-- What a later read finds of `st`, written over `old`: a missing cooldown leaves the old one, and
-- `banned_at` is not read back.
abbrev pub persisted : CircuitState → CircuitState → CircuitState
persisted st old = record st {
  cooldown_until = or_else (truthy st.cooldown_until) old.cooldown_until;
  banned_at = none;
}

success_streak-apply_probe :
    (now : ℕ) (b : Bool) (st : CircuitState)
    → (apply_probe now b st).success_streak ≡ st.success_streak
unfolding apply_probe
success_streak-apply_probe now true st = refl
success_streak-apply_probe now false st = ground arith

read-outcome_mapping :
    (now : ℕ) (st : CircuitState) (o : Option CircuitHash)
    → read_hash (merge (outcome_mapping now st) (get_default o empty_hash))
      ≡ persisted st (state_of_hash o)
unfolding read_hash merge outcome_mapping
read-outcome_mapping now st none = refl
read-outcome_mapping now st (some h) = refl

read-probe_mapping :
    (now : ℕ) (st : CircuitState) (o : Option CircuitHash)
    → st.success_streak ≡ (state_of_hash o).success_streak
    → read_hash (merge (probe_mapping now st) (get_default o empty_hash))
      ≡ persisted st (state_of_hash o)
unfolding read_hash merge probe_mapping
read-probe_mapping now st none e = rw e
read-probe_mapping now st (some h) e = rw e

state_of_hash-hset :
    (r : Keyspace) (k j : Text) (new : CircuitHash) (f : CircuitState → CircuitState)
    → read_hash (merge new (get_default (get r k) empty_hash)) ≡ f (state_of_hash (get r k))
    → state_of_hash (get (hset r k new) j)
      ≡ (if k == j then f (state_of_hash (get r j)) else state_of_hash (get r j))
unfolding hset
state_of_hash-hset r k j new f e = rw get-put (elim (Bool-cases (k == j)) [
  | inl same ↦ rw same (e ∙ ap (λ i. f (state_of_hash (get r i))) ((list_beq_iff k j).0 same))
  | inr other ↦ rw other
])

-- A call changes what is read of the circuit with its key, and of no other.
pub get_state-apply_op :
    (r : Keyspace) (op : Op) (s u : Text)
    → get_state (apply_op (some r) op) s u ≡ (
        if op_key op == key s u
        then persisted (effect op (get_state (some r) s u)) (get_state (some r) s u)
        else get_state (some r) s u)
unfolding apply_op get_state record_outcome probe_transition
get_state-apply_op r (outcome now s' u' c) s u =
    let st = apply_outcome now c (state_of_hash (get r (key s' u'))) in
    state_of_hash-hset r (key s' u') (key s u) (outcome_mapping now st)
      (λ old. persisted (apply_outcome now c old) old)
      (read-outcome_mapping now st (get r (key s' u')))
get_state-apply_op r (probe now s' u' b) s u =
    let st = apply_probe now b (state_of_hash (get r (key s' u'))) in
    state_of_hash-hset r (key s' u') (key s u) (probe_mapping now st)
      (λ old. persisted (apply_probe now b old) old)
      (read-probe_mapping now st (get r (key s' u'))
        (success_streak-apply_probe now b (state_of_hash (get r (key s' u')))))

-- Properties that every effect keeps hold after any calls.
module _ {P : CircuitState → Type 0}
    (step : (op : Op) (st : CircuitState) → P st → P (persisted (effect op st) st)) where
  apply_op-keeps :
      (r : Redis) (op : Op) (s u : Text) → P (get_state r s u) → P (get_state (apply_op r op) s u)
  apply_op-keeps none (outcome now s' u' c) s u h = unfold apply_op record_outcome in h
  apply_op-keeps none (probe now s' u' b) s u h = unfold apply_op probe_transition in h
  apply_op-keeps (some r) op s u h =
      rw get_state-apply_op (elim (Bool-cases (op_key op == key s u)) [
        | inl same ↦ rw same (step op (get_state (some r) s u) h)
        | inr other ↦ rw other h
      ])

  pub run-keeps :
      (ops : List Op) (r : Redis) (s u : Text) → P (get_state r s u) → P (get_state (run r ops) s u)
  unfolding run
  run-keeps [] r s u h = h
  run-keeps (op ∷ ops) r s u h = run-keeps ops (apply_op r op) s u (apply_op-keeps r op s u h)

-- A call for one circuit is read back as its effect, at that circuit.
pub get_state-apply_op_self :
    (r : Keyspace) (op : Op) (s u : Text)
    → op_key op ≡ key s u
    → get_state (apply_op (some r) op) s u
      ≡ persisted (effect op (get_state (some r) s u)) (get_state (some r) s u)
get_state-apply_op_self r op s u e =
    get_state-apply_op r op s u ∙ (rw ((list_beq_iff (op_key op) (key s u)).1 e))

-- A call for another key changes nothing that is read of this circuit.
pub get_state-apply_op_ne :
    (r : Keyspace) (op : Op) (s u : Text)
    → op_key op ≢ key s u
    → get_state (apply_op (some r) op) s u ≡ get_state (some r) s u
get_state-apply_op_ne r op s u ne = elim (Bool-cases (op_key op == key s u)) [
  | inl same ↦ absurd (ne ((list_beq_iff (op_key op) (key s u)).0 same))
  | inr other ↦ get_state-apply_op r op s u ∙ (rw other)
]

abbrev pub next_state : Op → CircuitState → CircuitState
next_state op st = persisted (effect op st) st

unfoldable pub run_state : CircuitState → List Op → CircuitState
run_state st [] = st
run_state st (op ∷ ops) = run_state (next_state op st) ops

-- Every call of the list is one for the circuit of this key.
abbrev pub AllAt : Text → Text → List Op → Type 0
AllAt s u [] = Unit
AllAt s u (op ∷ ops) = (op_key op ≡ key s u) × AllAt s u ops

apply_op_live : (r : Keyspace) (op : Op) → (r' : Keyspace) × (apply_op (some r) op ≡ some r')
unfolding apply_op record_outcome probe_transition
apply_op_live r (outcome now s u c) = (_, refl)
apply_op_live r (probe now s u b) = (_, refl)

-- Calls for one circuit act on its state as a fold.
pub get_state-run :
    (ops : List Op) (r : Keyspace) (s u : Text)
    → AllAt s u ops
    → get_state (run (some r) ops) s u ≡ run_state (get_state (some r) s u) ops
unfolding run run_state
get_state-run [] r s u h = refl
get_state-run (op ∷ ops) r s u h =
    let (r', e) = apply_op_live r op in
    let self = get_state-apply_op_self r op s u h.0 in
    rw (← self) (rw e (get_state-run ops r' s u h.1))

state_of_hash-banned_at : (o : Option CircuitHash) → (state_of_hash o).banned_at ≡ none
unfolding read_hash
state_of_hash-banned_at none = refl
state_of_hash-banned_at (some h) = refl

get_state-banned_at : (r : Keyspace) (s u : Text) → (get_state (some r) s u).banned_at ≡ none
unfolding get_state
get_state-banned_at r s u = state_of_hash-banned_at (get r (key s u))

request_failure :
    (now : ℕ) (c : Classification) (st : CircuitState)
    → (c ≡ blocked) ⊎ (c ≡ permanent)
    → apply_outcome now c st ≡ st
unfolding apply_outcome
request_failure now c st h = ground arith

unmoved : (st : CircuitState) → st.banned_at ≡ none → persisted st st ≡ st
unmoved st h = ground arith

-- An outcome that says nothing of the route, blocked or permanent, moves no circuit.
pub unmoved_by_request_failure :
    (r : Keyspace) (now : ℕ) (s u s' u' : Text) (c : Classification)
    → (c ≡ blocked) ⊎ (c ≡ permanent)
    → get_state (apply_op (some r) (outcome now s' u' c)) s u ≡ get_state (some r) s u
unmoved_by_request_failure r now s u s' u' c h =
    get_state-apply_op r (outcome now s' u' c) s u
    ∙ rw (request_failure now c (get_state (some r) s u) h)
        (elim (Bool-cases (key s' u' == key s u)) [
          | inl same ↦ rw same (unmoved (get_state (some r) s u) (get_state-banned_at r s u))
          | inr other ↦ rw other
        ])
