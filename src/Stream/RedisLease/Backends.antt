-- ===== src/Stream/RedisLease/Backends.antt =====
-- The two backends of the lease queue under the same calls.
use fd_open_data_mcp.Base.{
  sym, ◌∙◌, map_option, collect, get-map_values, Bool-cases, length, nat_eq, list_eq, pair_eq, ◌==◌,
  Text, Dict, get, remove, get-put, get-remove, IsUnique, map_values, put-IsUnique, remove-IsUnique,
  ℕ, suc, ◌+◌, ◌≡◌, refl, ap, subst, inl, inr, Option, none, some, List, [], ◌∷◌, map, arith,
}
use fd_open_data_mcp.Stream.Lease.{
  WorkItem, LeasedItem, Lease, Queue, expired_id, expired_ids, reclaim_one,
}
use fd_open_data_mcp.Stream.Lease
use fd_open_data_mcp.Stream.Lease.Conservation.{QueueOp, enqueues, claims, acks, reclaims}
use fd_open_data_mcp.Stream.RedisLease.{Json, RedisQueue, HashOrder, entries_of}
use fd_open_data_mcp.Stream.RedisLease.Entries.{entries_of-keys, count-keys}
use fd_open_data_mcp.Stream.RedisLease
use fd_open_data_mcp.Stream.RedisLease.Interface.{
  memory_queue, redis_queue, ordered_queue, insertion_order, AreListed, counted, handed, acked,
  call, trace,
}
use fd_open_data_mcp.Stream.RedisLease.Refinement.{
  stored, stored_lease, IsPlain, IsStorable, enqueue-stored, claim-stored, ack-stored,
}
use fd_open_data_mcp.Stream.RedisLease.Reclaim.{redis_order, reclaim-stored}

-- The token of a claim has no bar.
abbrev pub HasPlainToken : QueueOp → Type 0
HasPlainToken (claims now token ms) = IsPlain token
HasPlainToken (enqueues items) = Unit
HasPlainToken (acks id token) = Unit
HasPlainToken (reclaims now) = Unit

abbrev pub ArePlain : List QueueOp → Type 0
ArePlain [] = Unit
ArePlain (op ∷ ops) = HasPlainToken op × ArePlain ops

removed-IsStorable :
    (d : Dict Text Lease) (id : Text)
    → IsUnique d × ((j : Text) (l : Lease) → get d j ≡ some l → IsPlain l.token)
    → IsUnique (remove d id)
      × ((j : Text) (l : Lease) → get (remove d id) j ≡ some l → IsPlain l.token)
removed-IsStorable d id (u, plain) =
    (remove-IsUnique d id u, λ j l h. plain j l (ground (arith, get-remove d id j, h)))

claim_from-IsStorable :
    (avail : List WorkItem) (now : ℕ) (token : Text) (ms : ℕ) (q : Queue)
    → IsPlain token
    → IsStorable q
    → IsStorable (Lease.claim_from avail now token ms q).1
claim_from-IsStorable [] now token ms q p s = s
claim_from-IsStorable (item ∷ rest) now token ms q p (u, plain) =
    let l : Lease = record { held_item = item; token = token; until_ms = now + ms } in
    (
      put-IsUnique q.leased item.item_id l u,
      λ j k h. elim (Bool-cases (item.item_id == j)) [
        | inl e ↦
            let same : l ≡ k = ground (arith, get-put q.leased item.item_id j l, h, e) in
            subst (λ (x : Lease). IsPlain x.token) same p
        | inr e ↦ plain j k (ground (arith, get-put q.leased item.item_id j l, h, e))
      ],
    )

ack_held-IsStorable :
    (o : Option Lease) (id token : Text) (q : Queue)
    → IsStorable q
    → IsStorable (Lease.ack_held o id token q).1
ack_held-IsStorable none id token q s = s
ack_held-IsStorable (some l) id token q s = elim (Bool-cases (l.token == token)) [
  | inl e ↦ rw e (removed-IsStorable q.leased id s)
  | inr e ↦ rw e s
]

put_back-IsStorable :
    (o : Option Lease) (id : Text) (q : Queue) → IsStorable q → IsStorable (Lease.put_back o id q)
put_back-IsStorable none id q s = s
put_back-IsStorable (some l) id q s = removed-IsStorable q.leased id s

reclaim_loop-IsStorable :
    (ids : List Text) (q : Queue) → IsStorable q → IsStorable (Lease.reclaim_loop ids q)
unfolding Lease.reclaim_loop reclaim_one
reclaim_loop-IsStorable [] q s = s
reclaim_loop-IsStorable (id ∷ ids) q s =
    reclaim_loop-IsStorable ids (reclaim_one id q) (put_back-IsStorable (get q.leased id) id q s)

call-IsStorable :
    (order : Queue → List Text) (op : QueueOp) (q : Queue)
    → HasPlainToken op
    → IsStorable q
    → IsStorable (call (ordered_queue order) op q).1
unfolding call ordered_queue memory_queue Lease.enqueue Lease.claim Lease.ack
call-IsStorable order (enqueues items) q p s = s
call-IsStorable order (claims now token ms) q p s =
    claim_from-IsStorable q.available now token ms q p s
call-IsStorable order (acks id token) q p s = ack_held-IsStorable (get q.leased id) id token q s
call-IsStorable order (reclaims now) q p s =
    reclaim_loop-IsStorable (collect (expired_id now) (entries_of (order q) q.leased)) q s

call-stored :
    (json : Json) (hash : HashOrder) (op : QueueOp) (q : Queue)
    → IsStorable q
    → let spec = ordered_queue (redis_order json hash) in
      call (redis_queue json hash) op (stored json q)
      ≡ ((call spec op q).0, stored json (call spec op q).1)
unfolding call ordered_queue memory_queue redis_queue
call-stored json hash (enqueues items) q s =
    ap (λ r. (counted (some r.0), r.1)) (enqueue-stored json items q)
call-stored json hash (claims now token ms) q s =
    ap (λ r. (handed r.0, r.1)) (claim-stored json now token ms q)
call-stored json hash (acks id token) q s =
    ap (λ r. (acked r.0, r.1)) (ack-stored json id token q s)
call-stored json hash (reclaims now) q s =
    ap (λ r. (counted r.0, r.1)) (reclaim-stored json hash now q s)

call-insertion :
    (op : QueueOp) (q : Queue)
    → IsStorable q
    → call memory_queue op q ≡ call (ordered_queue insertion_order) op q
unfolding call ordered_queue memory_queue Lease.reclaim_expired expired_ids
call-insertion (enqueues items) q s = refl
call-insertion (claims now token ms) q s = refl
call-insertion (acks id token) q s = refl
call-insertion (reclaims now) q (u, plain) =
    ap
      (λ d. (
        counted (some (length (collect (expired_id now) d))),
        Lease.reclaim_loop (collect (expired_id now) d) q,
      ))
      (sym (entries_of-keys q.leased u))

length-map_values :
    (f : Text → Lease → Text) (d : Dict Text Lease) → length (map_values f d) ≡ length d
length-map_values f [] = refl
length-map_values f ((k, v) ∷ d) = ap suc (length-map_values f d)

length-dumps :
    (json : Json) (items : List WorkItem) → length (map (λ it. json.dumps it) items) ≡ length items
length-dumps json [] = refl
length-dumps json (x ∷ xs) = ap suc (length-dumps json xs)

stats-stored :
    (json : Json) (hash : HashOrder) (order : Queue → List Text) (q : Queue)
    → (redis_queue json hash).stats (stored json q) ≡ (ordered_queue order).stats q
unfolding redis_queue ordered_queue memory_queue RedisLease.stats Lease.stats stored
stats-stored json hash order q =
    rw (length-dumps json q.available, length-map_values (stored_lease json) q.leased) refl

redis-ordered :
    (json : Json) (hash : HashOrder) (ops : List QueueOp) (q : Queue)
    → IsStorable q
    → ArePlain ops
    → trace (redis_queue json hash) ops (stored json q)
      ≡ trace (ordered_queue (redis_order json hash)) ops q
unfolding trace
redis-ordered json hash [] q s p = refl
redis-ordered json hash (op ∷ ops) q s (p, ps) =
    let order = redis_order json hash in
    let spec = ordered_queue order in
    let after = (call spec op q).1 in
    rw (call-stored json hash op q s, stats-stored json hash order after)
      (ap (λ rest. ((call spec op q).0, spec.stats after) ∷ rest)
        (redis-ordered json hash ops after (call-IsStorable order op q p s) ps))

memory-ordered :
    (ops : List QueueOp) (q : Queue)
    → IsStorable q
    → ArePlain ops
    → trace memory_queue ops q ≡ trace (ordered_queue insertion_order) ops q
unfolding trace
memory-ordered [] q s p = refl
memory-ordered (op ∷ ops) q s (p, ps) =
    let spec = ordered_queue insertion_order in
    let after = (call spec op q).1 in
    ap (λ r. (r.0, memory_queue.stats r.1) ∷ trace memory_queue ops r.1) (call-insertion op q s)
    ∙ ap (λ rest. ((call spec op q).0, memory_queue.stats after) ∷ rest)
        (memory-ordered ops after (call-IsStorable insertion_order op q p s) ps)
    ∙ (unfold ordered_queue in refl)

-- Both backends are a queue that puts its expired leases back in some order, in which each lease is
-- listed once: whatever the calls, as long as no token has a bar, their replies, and the counts after
-- each call, are those of such a queue. For the Redis queue the order is that of HGETALL on the leases
-- stored, and no call raises; for the in-process queue it is that of insertion.
pub backends_agree :
    (json : Json) (hash : HashOrder) (ops : List QueueOp) (q : Queue)
    → IsStorable q
    → ArePlain ops
    → (trace (redis_queue json hash) ops (stored json q)
        ≡ trace (ordered_queue (redis_order json hash)) ops q)
      × AreListed (redis_order json hash)
      × (trace memory_queue ops q ≡ trace (ordered_queue insertion_order) ops q)
      × AreListed insertion_order
backends_agree json hash ops q s p = (
  redis-ordered json hash ops q s p,
  (λ r id l u h.
      hash.fields-all (map_values (stored_lease json) r.leased) id (stored_lease json id l) (
        get-map_values (stored_lease json) r.leased id ∙ ap (map_option (stored_lease json id)) h)),
  memory-ordered ops q s p,
  (λ r id l u h. count-keys r.leased id l u h),
)
