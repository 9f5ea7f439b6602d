-- ===== src/Stream/Lease.antt =====
-- fd_open_data_mcp/stream/lease.py: the work items, the in-process lease queue and the worker loop.
-- The queue's lock makes each method one step. The clock's reading and the fresh token of a claim
-- (`new_event_id`) are arguments.
pub mod Conservation
pub mod Fencing
pub mod Worker
use fd_open_data_mcp.Base.{
  ℕ, ◌+◌, Bool, true, false, Option, none, some, List, [], ◌∷◌, ◌++◌, leb, if◌then◌else◌, Text,
  ◌==◌, list_eq, nat_eq, Dict, get, put, remove, collect, length, add,
}

pub record WorkItem : Type 0 where
  pub item_id : Text
  pub run_id : ℕ
  pub policy_id : ℕ
  pub plan_json : Text
  pub schema_v : ℕ
  pub enqueued_at_ms : ℕ

pub record LeasedItem : Type 0 where
  pub item : WorkItem
  pub lease_token : Text

-- The tuple (item, token, until_ms).
pub record Lease : Type 0 where
  pub held_item : WorkItem
  pub token : Text
  pub until_ms : ℕ

pub record Queue : Type 0 where
  pub available : List WorkItem
  pub leased : Dict Text Lease
  pub done : List Text

abbrev pub init : Queue
init = record { available = []; leased = []; done = [] }

unfoldable pub enqueue : List WorkItem → Queue → ℕ × Queue
enqueue items q = (length items, record q { available = q.available ++ items })

abbrev pub claim_from : List WorkItem → ℕ → Text → ℕ → Queue → Option LeasedItem × Queue
claim_from [] now token lease_ms q = (none, q)
claim_from (item ∷ rest) now token lease_ms q = (
  some (record { item = item; lease_token = token }),
  record q {
    available = rest;
    leased =
        put q.leased item.item_id
          (record { held_item = item; token = token; until_ms = now + lease_ms });
  },
)

unfoldable pub claim : ℕ → Text → ℕ → Queue → Option LeasedItem × Queue
claim now token lease_ms q = claim_from q.available now token lease_ms q

abbrev pub ack_held : Option Lease → Text → Text → Queue → Bool × Queue
ack_held none item_id lease_token q = (false, q)
ack_held (some held) item_id lease_token q =
    if held.token == lease_token
    then (true, record q { leased = remove q.leased item_id; done = add q.done item_id })
    else (false, q)

unfoldable pub ack : Text → Text → Queue → Bool × Queue
ack item_id lease_token q = ack_held (get q.leased item_id) item_id lease_token q

abbrev pub expired_id : ℕ → Text × Lease → Option Text
expired_id now (iid, l) = if leb l.until_ms now then some iid else none

-- The comprehension: the ids whose lease has run out, in the order of the dictionary.
unfoldable pub expired_ids : ℕ → Queue → List Text
expired_ids now q = collect (expired_id now) q.leased

abbrev pub put_back : Option Lease → Text → Queue → Queue
put_back none iid q = q
put_back (some l) iid q = record q {
  leased = remove q.leased iid;
  available = q.available ++ (l.held_item ∷ []);
}

unfoldable pub reclaim_one : Text → Queue → Queue
reclaim_one iid q = put_back (get q.leased iid) iid q

unfoldable pub reclaim_loop : List Text → Queue → Queue
unfolding reclaim_one
reclaim_loop [] q = q
reclaim_loop (iid ∷ iids) q = reclaim_loop iids (reclaim_one iid q)

unfoldable pub reclaim_expired : ℕ → Queue → ℕ × Queue
unfolding reclaim_loop expired_ids
reclaim_expired now q = (length (expired_ids now q), reclaim_loop (expired_ids now q) q)

-- available, leased and done
unfoldable pub stats : Queue → ℕ × ℕ × ℕ
stats q = (length q.available, length q.leased, length q.done)
