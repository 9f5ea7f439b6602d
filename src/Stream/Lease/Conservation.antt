-- ===== src/Stream/Lease/Conservation.antt =====
-- The places of a work item, under any interleaving of the operations of the queue.
use fd_open_data_mcp.Base.{
  ℕ, ◌+◌, ◌≤◌, ◌≡◌, refl, ap, ◌∙◌, subst, inl, inr, Bool-cases, Option, none, some, List, [], ◌∷◌,
  ◌++◌, arith, Text, ◌==◌, list_eq, nat_eq, list_beq_iff, get, get-put, get-remove, count,
  count-append, count-add, map, beq_refl, IsUnique, put-IsUnique, remove-IsUnique,
}
use fd_open_data_mcp.Stream.Lease.{
  WorkItem, Lease, Queue, claim_from, ack_held, put_back, enqueue, claim, ack, reclaim_one,
  reclaim_loop, reclaim_expired, expired_ids,
}

abbrev pub ids : List WorkItem → List Text
ids = map (λ it. it.item_id)

abbrev pub held : Option Lease → ℕ
held none = 0
held (some l) = 1

-- How many places hold this id: the available list, the leases, and the set of finished ids.
abbrev pub places : Text → Queue → ℕ
places id q = count id (ids q.available) + held (get q.leased id) + count id q.done

pub record IsSound (q : Queue) : Type 0 where
  pub keyed : (id : Text) (l : Lease) → get q.leased id ≡ some l → l.held_item.item_id ≡ id
  pub once : (id : Text) → places id q ≤ 1
  pub distinct : IsUnique q.leased

pub data QueueOp : Type 0 where
  enqueues : List WorkItem → QueueOp
  claims : ℕ → Text → ℕ → QueueOp
  acks : Text → Text → QueueOp
  reclaims : ℕ → QueueOp

unfoldable pub apply_op : QueueOp → Queue → Queue
apply_op (enqueues items) q = (enqueue items q).1
apply_op (claims now token lease_ms) q = (claim now token lease_ms q).1
apply_op (acks id token) q = (ack id token q).1
apply_op (reclaims now) q = (reclaim_expired now q).1

unfoldable pub run : Queue → List QueueOp → Queue
run q [] = q
run q (op ∷ ops) = run (apply_op op q) ops

abbrev pub added : Text → QueueOp → ℕ
added id (enqueues items) = count id (ids items)
added id _ = 0

abbrev pub enqueued : Text → List QueueOp → ℕ
enqueued id [] = 0
enqueued id (op ∷ ops) = added id op + enqueued id ops

ids-append : (xs ys : List WorkItem) → ids (xs ++ ys) ≡ ids xs ++ ids ys
ids-append [] ys = refl
ids-append (x ∷ xs) ys = ap (λ r. x.item_id ∷ r) (ids-append xs ys)

count-ids-append :
    (id : Text) (xs ys : List WorkItem)
    → count id (ids (xs ++ ys)) ≡ count id (ids xs) + count id (ids ys)
count-ids-append id xs ys = rw ids-append (count-append id (ids xs) (ids ys))

places-enqueue :
    (id : Text) (items : List WorkItem) (q : Queue)
    → places id (enqueue items q).1 ≡ places id q + count id (ids items)
unfolding enqueue
places-enqueue id items q = omega (arith, count-ids-append id q.available items)

places-claim_from :
    (id : Text) (avail : List WorkItem) (now : ℕ) (token : Text) (ms : ℕ) (q : Queue)
    → IsSound q
    → q.available ≡ avail
    → places id (claim_from avail now token ms q).1 ≡ places id q
places-claim_from id [] now token ms q h e = refl
places-claim_from id (item ∷ rest) now token ms q h e =
    let iid = item.item_id in
    let l : Lease = record { held_item = item; token = token; until_ms = now + ms } in
    let o =
      subst
        (λ (av : List WorkItem).
          count iid (ids av) + held (get q.leased iid) + count iid q.done ≤ 1)
        e (h.once iid) in
    let here = ap (λ (av : List WorkItem). count id (ids av)) e in
    ground (arith, here, o, list_beq_iff iid id, beq_refl iid, get-put q.leased iid id l)

places-claim :
    (id : Text) (now : ℕ) (token : Text) (ms : ℕ) (q : Queue)
    → IsSound q
    → places id (claim now token ms q).1 ≡ places id q
unfolding claim
places-claim id now token ms q h = places-claim_from id q.available now token ms q h refl

places-ack_held :
    (id iid token : Text) (o : Option Lease) (q : Queue)
    → IsSound q
    → get q.leased iid ≡ o
    → places id (ack_held o iid token q).1 ≡ places id q
places-ack_held id iid token none q h e = refl
places-ack_held id iid token (some l) q h e =
    ground
      (arith, h.once iid, list_beq_iff iid id, get-remove q.leased iid id, count-add id iid q.done)

places-ack :
    (id iid token : Text) (q : Queue) → IsSound q → places id (ack iid token q).1 ≡ places id q
unfolding ack
places-ack id iid token q h = places-ack_held id iid token (get q.leased iid) q h refl

places-put_back :
    (id iid : Text) (o : Option Lease) (q : Queue)
    → IsSound q
    → get q.leased iid ≡ o
    → places id (put_back o iid q) ≡ places id q
places-put_back id iid none q h e = refl
places-put_back id iid (some l) q h e = ground (
  arith,
  h.keyed iid l e,
  list_beq_iff iid id,
  get-remove q.leased iid id,
  count-ids-append id q.available (l.held_item ∷ []),
)

abbrev IsKeyed : Queue → Type 0
IsKeyed q = (id : Text) (l : Lease) → get q.leased id ≡ some l → l.held_item.item_id ≡ id

claim_from-IsKeyed :
    (avail : List WorkItem) (now : ℕ) (token : Text) (ms : ℕ) (q : Queue)
    → IsKeyed q
    → IsKeyed (claim_from avail now token ms q).1
claim_from-IsKeyed [] now token ms q h id l e = h id l e
claim_from-IsKeyed (item ∷ rest) now token ms q h id l e =
    let new : Lease = record { held_item = item; token = token; until_ms = now + ms } in
    ground (arith, h id l, list_beq_iff item.item_id id, get-put q.leased item.item_id id new)

ack_held-IsKeyed :
    (iid token : Text) (o : Option Lease) (q : Queue)
    → IsKeyed q
    → IsKeyed (ack_held o iid token q).1
ack_held-IsKeyed iid token none q h id l e = h id l e
ack_held-IsKeyed iid token (some held) q h id l e =
    ground (arith, h id l, get-remove q.leased iid id)

put_back-IsKeyed :
    (iid : Text) (o : Option Lease) (q : Queue) → IsKeyed q → IsKeyed (put_back o iid q)
put_back-IsKeyed iid none q h id l e = h id l e
put_back-IsKeyed iid (some held) q h id l e = ground (arith, h id l, get-remove q.leased iid id)

claim_from-IsUnique :
    (avail : List WorkItem) (now : ℕ) (token : Text) (ms : ℕ) (q : Queue)
    → IsUnique q.leased
    → IsUnique (claim_from avail now token ms q).1.leased
claim_from-IsUnique [] now token ms q u = u
claim_from-IsUnique (item ∷ rest) now token ms q u = put-IsUnique q.leased item.item_id _ u

ack_held-IsUnique :
    (iid token : Text) (o : Option Lease) (q : Queue)
    → IsUnique q.leased
    → IsUnique (ack_held o iid token q).1.leased
ack_held-IsUnique iid token none q u = u
ack_held-IsUnique iid token (some l) q u = elim (Bool-cases (l.token == token)) [
  | inl e ↦ rw e (remove-IsUnique q.leased iid u)
  | inr e ↦ rw e u
]

put_back-IsUnique :
    (iid : Text) (o : Option Lease) (q : Queue)
    → IsUnique q.leased
    → IsUnique (put_back o iid q).leased
put_back-IsUnique iid none q u = u
put_back-IsUnique iid (some l) q u = remove-IsUnique q.leased iid u

reclaim_one-IsSound : (iid : Text) (q : Queue) → IsSound q → IsSound (reclaim_one iid q)
unfolding reclaim_one
reclaim_one-IsSound iid q h = record {
  keyed = put_back-IsKeyed iid (get q.leased iid) q h.keyed;
  once = λ id. omega (arith, h.once id, places-put_back id iid (get q.leased iid) q h refl);
  distinct = put_back-IsUnique iid (get q.leased iid) q h.distinct;
}

-- A loop of reclaims keeps every id in as many places, and the queue sound.
pub reclaim_loop_keeps :
    (iids : List Text) (q : Queue)
    → IsSound q
    → IsSound (reclaim_loop iids q) × ((id : Text) → places id (reclaim_loop iids q) ≡ places id q)
unfolding reclaim_loop
reclaim_loop_keeps [] q h = (h, λ id. refl)
reclaim_loop_keeps (iid ∷ iids) q h =
    let (sound, same) = reclaim_loop_keeps iids (reclaim_one iid q) (reclaim_one-IsSound iid q h) in
    (sound, λ id. same id ∙ places-put_back id iid (get q.leased iid) q h refl)

pub places-apply_op :
    (op : QueueOp) (q : Queue) (id : Text)
    → IsSound q
    → places id (apply_op op q) ≡ places id q + added id op
unfolding apply_op
places-apply_op (enqueues items) q id h = places-enqueue id items q
places-apply_op (claims now token ms) q id h = omega (arith, places-claim id now token ms q h)
places-apply_op (acks iid token) q id h = omega (arith, places-ack id iid token q h)
places-apply_op (reclaims now) q id h =
    unfold reclaim_expired in omega (arith, (reclaim_loop_keeps (expired_ids now q) q h).1 id)

apply_op-IsKeyed : (op : QueueOp) (q : Queue) → IsSound q → IsKeyed (apply_op op q)
unfolding apply_op enqueue claim ack reclaim_expired
apply_op-IsKeyed (enqueues items) q h = h.keyed
apply_op-IsKeyed (claims now token ms) q h = claim_from-IsKeyed q.available now token ms q h.keyed
apply_op-IsKeyed (acks iid token) q h = ack_held-IsKeyed iid token (get q.leased iid) q h.keyed
apply_op-IsKeyed (reclaims now) q h = (reclaim_loop_keeps (expired_ids now q) q h).0.keyed

apply_op-IsUnique : (op : QueueOp) (q : Queue) → IsSound q → IsUnique (apply_op op q).leased
unfolding apply_op enqueue claim ack reclaim_expired
apply_op-IsUnique (enqueues items) q h = h.distinct
apply_op-IsUnique (claims now token ms) q h =
    claim_from-IsUnique q.available now token ms q h.distinct
apply_op-IsUnique (acks iid token) q h = ack_held-IsUnique iid token (get q.leased iid) q h.distinct
apply_op-IsUnique (reclaims now) q h = (reclaim_loop_keeps (expired_ids now q) q h).0.distinct

pub apply_op-IsSound :
    (op : QueueOp) (q : Queue)
    → IsSound q
    → ((id : Text) → places id q + added id op ≤ 1)
    → IsSound (apply_op op q)
apply_op-IsSound op q h room = record {
  keyed = apply_op-IsKeyed op q h;
  once = λ id. omega (arith, room id, places-apply_op op q id h);
  distinct = apply_op-IsUnique op q h;
}

-- If no id is enqueued twice, then after any interleaving of enqueues, claims, acks and reclaims
-- each id stands in exactly as many places as before, plus once for each time it was enqueued; and
-- the queue stays sound.
pub conservation :
    (ops : List QueueOp) (q : Queue)
    → IsSound q
    → ((id : Text) → places id q + enqueued id ops ≤ 1)
    → IsSound (run q ops) × ((id : Text) → places id (run q ops) ≡ places id q + enqueued id ops)
unfolding run
conservation [] q h room = (h, λ id. omega arith)
conservation (op ∷ ops) q h room =
    let one = λ (id : Text). places-apply_op op q id h in
    let sound = apply_op-IsSound op q h (λ id. omega (arith, room id)) in
    let (after, total) =
      conservation ops (apply_op op q) sound (λ id. omega (arith, room id, one id)) in
    (after, λ id. omega (arith, total id, one id))
