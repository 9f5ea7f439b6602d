-- ===== src/Stream/RedisLease.antt =====
-- The lease queue over Redis (RedisLeaseQueue of fd_open_data_mcp/stream/lease.py): a LIST of
-- payloads, a HASH of leases and a SET of done ids. Each method is one step here; the json module,
-- the clock, the fresh token and the order of HGETALL are parameters.
pub mod Interface
pub mod Entries
pub mod Refinement
pub mod Reclaim
pub mod Backends
use fd_open_data_mcp.Base.{
  ltb, nat_beq, if◌then◌else◌, length, nat_eq, list_eq, pair_eq, ◌==◌, ◌≤◌, count, Text, add, Dict,
  get, put, remove, str, int_of, ℕ, suc, ◌+◌, ◌≡◌, Bool, true, false, Option, none, some, List, [],
  ◌∷◌, ◌++◌, map,
}
use fd_open_data_mcp.Stream.Lease.{WorkItem, LeasedItem}

-- `json.dumps(it.__dict__)` and `WorkItem(**json.loads(raw))`, which raises on other texts.
pub record Json : Type 0 where
  pub dumps : WorkItem → Text
  pub loads : Text → Option WorkItem
  pub loads-dumps : (it : WorkItem) → loads (dumps it) ≡ some it

pub record RedisQueue : Type 0 where
  pub available : List Text
  pub leased : Dict Text Text
  pub done : List Text

abbrev pub with_entry : {V : Type 0} → Text → Option V → Dict Text V → Dict Text V
with_entry k none d = d
with_entry k (some v) d = (k, v) ∷ d

-- The entries of these keys, in this order.
unfoldable pub entries_of : {V : Type 0} → List Text → Dict Text V → Dict Text V
entries_of [] d = []
entries_of (k ∷ ks) d = with_entry k (get d k) (entries_of ks d)

-- `HGETALL` gives each field of a hash once, in an order that Redis does not specify.
pub record HashOrder : Type 0 where
  pub fields : Dict Text Text → List Text
  pub fields-once : (d : Dict Text Text) (k : Text) → count k (fields d) ≤ 1
  pub fields-all : (d : Dict Text Text) (k v : Text) → get d k ≡ some v → count k (fields d) ≡ 1

unfoldable pub hgetall : HashOrder → Dict Text Text → Dict Text Text
unfolding entries_of
hgetall hash d = entries_of (hash.fields d) d

-- `s.split("|", 1)`: the parts around the first bar, or nothing where there is none.
unfoldable pub split_bar : Text → Option (Text × Text)
split_bar [] = none
split_bar (c ∷ t) =
    let rest = split_bar t in
    if nat_beq c 124 then some ([], t) else elim rest [ none ↦ none | some p ↦ some (c ∷ p.0, p.1) ]

-- `f"{token}|{until}|{raw}"`
unfoldable pub lease_value : Text → ℕ → Text → Text
lease_value token until raw = token ++ (124 ∷ str until ++ (124 ∷ raw))

unfoldable pub enqueue : Json → List WorkItem → RedisQueue → ℕ × RedisQueue
enqueue json items q =
    (length items, record q { available = q.available ++ map (λ it. json.dumps it) items })

unfoldable pub claim_item :
    Option WorkItem
    → Text
    → List Text
    → ℕ
    → Text
    → ℕ
    → RedisQueue
    → Option (Option LeasedItem) × RedisQueue
unfolding lease_value
claim_item none raw rest now token lease_ms q = (none, record q { available = rest })
claim_item (some item) raw rest now token lease_ms q = (
  some (some (record { item = item; lease_token = token })),
  record q {
    available = rest;
    leased = put q.leased item.item_id (lease_value token (now + lease_ms) raw);
  },
)

-- `none` outside is an exception on a payload that does not parse.
unfoldable pub claim_from :
    Json → List Text → ℕ → Text → ℕ → RedisQueue → Option (Option LeasedItem) × RedisQueue
unfolding claim_item
claim_from json [] now token lease_ms q = (some none, q)
claim_from json (raw ∷ rest) now token lease_ms q =
    claim_item (json.loads raw) raw rest now token lease_ms q

unfoldable pub claim : Json → ℕ → Text → ℕ → RedisQueue → Option (Option LeasedItem) × RedisQueue
unfolding claim_from
claim json now token lease_ms q = claim_from json q.available now token lease_ms q

abbrev pub head_or : Option (Text × Text) → Text → Text
head_or none held = held
head_or (some p) held = p.0

-- `held.split("|", 1)[0]`
unfoldable pub token_of : Text → Text
unfolding split_bar
token_of held = head_or (split_bar held) held

unfoldable pub ack_held : Option Text → Text → Text → RedisQueue → Bool × RedisQueue
unfolding token_of
ack_held none item_id lease_token q = (false, q)
ack_held (some held) item_id lease_token q =
    if token_of held == lease_token
    then (true, record q { leased = remove q.leased item_id; done = add q.done item_id })
    else (false, q)

unfoldable pub ack : Text → Text → RedisQueue → Bool × RedisQueue
unfolding ack_held
ack item_id lease_token q = ack_held (get q.leased item_id) item_id lease_token q

-- What the loop does with a lease: it leaves it, takes its payload back, or fails to read its time.
pub data Expiry : Type 0 where
  leaves : Expiry
  takes : Text → Expiry
  fails : Expiry

unfoldable pub expiry_at : ℕ → Option ℕ → Text → Expiry
expiry_at now none raw = fails
expiry_at now (some until) raw = if ltb now until then leaves else takes raw

unfoldable pub expiry_parts : ℕ → Option (Text × Text) → Expiry
unfolding expiry_at
expiry_parts now none = leaves
expiry_parts now (some (until, raw)) = expiry_at now (int_of until) raw

unfoldable pub expiry_rest : ℕ → Option (Text × Text) → Expiry
unfolding split_bar expiry_parts
expiry_rest now none = leaves
expiry_rest now (some (token, rest)) = expiry_parts now (split_bar rest)

-- `val.split("|", 2)`: a value of fewer than three parts is left.
unfoldable pub expiry : ℕ → Text → Expiry
unfolding split_bar expiry_rest
expiry now val = expiry_rest now (split_bar val)

unfoldable pub take_back : Text → Text → RedisQueue → RedisQueue
take_back iid raw q = record q {
  leased = remove q.leased iid;
  available = q.available ++ (raw ∷ []);
}

-- The count, or nothing where an exception ends the loop.
unfoldable pub reclaim_loop : ℕ → Dict Text Text → ℕ → RedisQueue → Option ℕ × RedisQueue
unfolding expiry take_back
reclaim_loop now [] n q = (some n, q)
reclaim_loop now ((iid, val) ∷ entries) n q =
    let left = reclaim_loop now entries n q in
    elim (expiry now val) [
      | leaves ↦ left
      | takes raw ↦ reclaim_loop now entries (suc n) (take_back iid raw q)
      | fails ↦ (none, q)
    ]

unfoldable pub reclaim_expired : HashOrder → ℕ → RedisQueue → Option ℕ × RedisQueue
unfolding reclaim_loop hgetall
reclaim_expired hash now q = reclaim_loop now (hgetall hash q.leased) 0 q

unfoldable pub stats : RedisQueue → ℕ × ℕ × ℕ
stats q = (length q.available, length q.leased, length q.done)
