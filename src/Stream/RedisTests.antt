-- ===== src/Stream/RedisTests.antt =====
-- The two lease queues at a concrete sequence of calls.
use fd_open_data_mcp.Base.{
  length, arith, Dict, contains, contains-count, count, count-append, list_beq_iff, if◌then◌else◌,
  put, remove, str, int_of, ◌≤◌, take, drop, nat_eq, list_eq, pair_eq, Text, codes, get, ◌≡◌, refl,
  ap, Option, none, some, List, [], ◌∷◌, ◌++◌,
}
use fd_open_data_mcp.Stream.Lease.{WorkItem, init}
use fd_open_data_mcp.Stream.Lease.Conservation.{QueueOp, enqueues, claims, acks, reclaims}
use fd_open_data_mcp.Stream.RedisLease.{Json, HashOrder}
use fd_open_data_mcp.Stream.Lease
use fd_open_data_mcp.Stream.RedisLease
use fd_open_data_mcp.Stream.RedisLease.Interface.{
  memory_queue, redis_queue, trace, call, ordered_queue, insertion_order, AreListed, LeaseQueue,
  QueueReply, handed,
}
use fd_open_data_mcp.Stream.RedisLease.Refinement.{stored, IsStorable}
use fd_open_data_mcp.Stream.RedisLease.Reclaim.{redis_order}
use fd_open_data_mcp.Stream.RedisLease.Backends.{backends_agree}

abbrev item : Text → WorkItem
item id = record {
  item_id = id;
  run_id = 1;
  policy_id = 1;
  plan_json = codes "a|b";
  schema_v = 1;
  enqueued_at_ms = 0;
}

-- A format with the numbers first, and the length of the id before the two texts.
abbrev dumps : WorkItem → Text
dumps it =
    it.run_id ∷ it.policy_id ∷ it.schema_v ∷ it.enqueued_at_ms ∷ length it.item_id ∷ it.item_id
    ++ it.plan_json

abbrev loads : Text → Option WorkItem
loads (run_id ∷ policy_id ∷ schema_v ∷ at ∷ n ∷ rest) = some (record {
  item_id = take n rest;
  run_id = run_id;
  policy_id = policy_id;
  plan_json = drop n rest;
  schema_v = schema_v;
  enqueued_at_ms = at;
})
loads _ = none

take-front : (s t : Text) → take (length s) (s ++ t) ≡ s
take-front [] t = refl
take-front (c ∷ s) t = ap (λ r. c ∷ r) (take-front s t)

drop-front : (s t : Text) → drop (length s) (s ++ t) ≡ t
drop-front [] t = refl
drop-front (c ∷ s) t = drop-front s t

abbrev json : Json
json = record {
  dumps = dumps;
  loads = loads;
  loads-dumps =
      λ it. rw (take-front it.item_id it.plan_json, drop-front it.item_id it.plan_json) refl;
}

-- The fields in the opposite order, each once.
backwards : Dict Text Text → List Text
backwards [] = []
backwards ((k, v) ∷ d) =
    let rest = backwards d in if contains rest k then rest else rest ++ (k ∷ [])

backwards-once : (d : Dict Text Text) (k : Text) → count k (backwards d) ≤ 1
unfolding backwards
backwards-once [] k = omega arith
backwards-once ((j, v) ∷ d) k = ground (
  arith,
  backwards-once d k,
  contains-count (backwards d) j,
  count-append k (backwards d) (j ∷ []),
  list_beq_iff j k,
)

backwards-some : (d : Dict Text Text) (k v : Text) → get d k ≡ some v → 1 ≤ count k (backwards d)
unfolding backwards get
backwards-some [] k v h = cc h
backwards-some ((j, w) ∷ d) k v h = ground (
  arith,
  h,
  backwards-some d k v,
  contains-count (backwards d) j,
  count-append k (backwards d) (j ∷ []),
  list_beq_iff j k,
)

abbrev hash : HashOrder
hash = record {
  fields = backwards;
  fields-once = backwards-once;
  fields-all =
      λ d k v h. let most = backwards-once d k in let least = backwards-some d k v h in omega arith;
}

abbrev shift : List QueueOp
shift =
    enqueues (item (codes "a") ∷ item (codes "b") ∷ [])
    ∷ claims 0 (codes "t1") 10
    ∷ claims 0 (codes "t2") 10
    ∷ reclaims 20
    ∷ claims 20 (codes "t3") 10
    ∷ acks (codes "b") (codes "t3")
    ∷ acks (codes "a") (codes "t1")
    ∷ []

storable : IsStorable init
unfolding get
storable = (tt, λ id l h. cc h)

backends_agree_example :
    (trace (redis_queue json hash) shift (stored json init)
      ≡ trace (ordered_queue (redis_order json hash)) shift init)
    × AreListed (redis_order json hash)
    × (trace memory_queue shift init ≡ trace (ordered_queue insertion_order) shift init)
    × AreListed insertion_order
backends_agree_example =
    backends_agree json hash shift init storable (tt, (refl, (refl, (tt, (refl, (tt, (tt, tt)))))))

-- Of two leases reclaimed together, this Redis hands out the later one first, where the in-process
-- queue hands out the earlier one.
abbrev third_item : {Q : Type 0} → LeaseQueue Q → Q → QueueReply
third_item backend q =
    (call backend (claims 20 (codes "t3") 10)
      (call backend (reclaims 20)
        (call backend (claims 0 (codes "t2") 10)
          (call backend (claims 0 (codes "t1") 10)
            (call backend (enqueues (item (codes "a") ∷ item (codes "b") ∷ [])) q).1).1).1).1).0

redis_third :
    third_item (redis_queue json hash) (stored json init)
    ≡ handed (some (some (record { item = item (codes "b"); lease_token = codes "t3" })))
unfolding redis_queue call stored backwards RedisLease.enqueue RedisLease.claim
    RedisLease.reclaim_expired get put remove str int_of
redis_third = refl

memory_third :
    third_item memory_queue init
    ≡ handed (some (some (record { item = item (codes "a"); lease_token = codes "t3" })))
unfolding memory_queue call Lease.enqueue Lease.claim Lease.reclaim_expired get put remove
memory_third = refl
