-- ===== src/Stream/RedisLease/Interface.antt =====
-- The interface LeaseQueue of fd_open_data_mcp/stream/lease.py, with its two backends, and what a
-- client sees of a sequence of calls.
use fd_open_data_mcp.Base.{
  nat_eq, list_eq, pair_eq, Text, ℕ, Bool, Option, some, List, [], ◌∷◌, length, collect, count, get,
  IsUnique, ◌≡◌,
}
use fd_open_data_mcp.Stream.Lease.{WorkItem, LeasedItem, Queue, expired_id}
use fd_open_data_mcp.Stream.Lease
use fd_open_data_mcp.Stream.Lease.Conservation.{QueueOp, enqueues, claims, acks, reclaims}
use fd_open_data_mcp.Stream.RedisLease.{Json, RedisQueue, HashOrder, entries_of}
use fd_open_data_mcp.Stream.RedisLease.Entries.{keys}
use fd_open_data_mcp.Stream.RedisLease

-- `none` stands for an exception.
pub record LeaseQueue (Q : Type 0) : Type 0 where
  pub enqueue : List WorkItem → Q → ℕ × Q
  pub claim : ℕ → Text → ℕ → Q → Option (Option LeasedItem) × Q
  pub ack : Text → Text → Q → Bool × Q
  pub reclaim_expired : ℕ → Q → Option ℕ × Q
  pub stats : Q → ℕ × ℕ × ℕ

unfoldable pub memory_queue : LeaseQueue Queue
unfolding Lease.enqueue Lease.claim Lease.ack Lease.reclaim_expired Lease.stats
memory_queue = record {
  enqueue = Lease.enqueue;
  claim = λ now token ms q. (some (Lease.claim now token ms q).0, (Lease.claim now token ms q).1);
  ack = Lease.ack;
  reclaim_expired =
      λ now q. (some (Lease.reclaim_expired now q).0, (Lease.reclaim_expired now q).1);
  stats = Lease.stats;
}

-- What the interface promises of an in-process queue: its expired leases go back to the available
-- items in some order, here the one in which their ids are listed.
unfoldable pub ordered_queue : (Queue → List Text) → LeaseQueue Queue
unfolding memory_queue entries_of Lease.reclaim_loop
ordered_queue order = record memory_queue {
  reclaim_expired = λ now q.
      let ids = collect (expired_id now) (entries_of (order q) q.leased) in
      (some (length ids), Lease.reclaim_loop ids q);
}

-- Each lease is listed, and once.
abbrev pub AreListed : (Queue → List Text) → Type 0
AreListed order =
    (q : Queue) (id : Text) (l : Lease.Lease)
    → IsUnique q.leased
    → get q.leased id ≡ some l
    → count id (order q) ≡ 1

-- The order of the dictionary.
abbrev pub insertion_order : Queue → List Text
insertion_order q = keys q.leased

unfoldable pub redis_queue : Json → HashOrder → LeaseQueue RedisQueue
unfolding RedisLease.enqueue RedisLease.claim RedisLease.ack RedisLease.reclaim_expired
    RedisLease.stats
redis_queue json hash = record {
  enqueue = RedisLease.enqueue json;
  claim = RedisLease.claim json;
  ack = RedisLease.ack;
  reclaim_expired = RedisLease.reclaim_expired hash;
  stats = RedisLease.stats;
}

pub data QueueReply : Type 0 where
  counted : Option ℕ → QueueReply
  handed : Option (Option LeasedItem) → QueueReply
  acked : Bool → QueueReply

module _ {Q : Type 0} (backend : LeaseQueue Q) where
  unfoldable pub call : QueueOp → Q → QueueReply × Q
  call (enqueues items) q = let (n, q') = backend.enqueue items q in (counted (some n), q')
  call (claims now token ms) q = let (o, q') = backend.claim now token ms q in (handed o, q')
  call (acks id token) q = let (b, q') = backend.ack id token q in (acked b, q')
  call (reclaims now) q = let (n, q') = backend.reclaim_expired now q in (counted n, q')

  -- The reply to each call, and the counts after it.
  unfoldable pub trace : List QueueOp → Q → List (QueueReply × (ℕ × ℕ × ℕ))
  unfolding call
  trace [] q = []
  trace (op ∷ ops) q = let (reply, q') = call op q in (reply, backend.stats q') ∷ trace ops q'
