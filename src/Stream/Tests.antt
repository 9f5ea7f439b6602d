-- ===== src/Stream/Tests.antt =====
-- Runs of the lease queue at concrete inputs.
use fd_open_data_mcp.Base.{
  ℕ, ◌+◌, ◌≤◌, ◌≡◌, ◌≢◌, refl, true, false, some, List, [], ◌∷◌, arith, String, Text, codes,
  list_beq_iff, get, list_eq, nat_eq,
}
use fd_open_data_mcp.Stream.Lease.{WorkItem, Queue, init, claim, ack, reclaim_expired}
use fd_open_data_mcp.Stream.Lease.Conservation.{
  places, IsSound, QueueOp, enqueues, claims, acks, reclaims, run, enqueued, conservation,
}
use fd_open_data_mcp.Stream.Lease.Fencing.{late_ack_refused}
use fd_open_data_mcp.Stream.Lease.Worker.{Tally, run_worker}
use fd_open_data_mcp.Stream.Lease.Worker.Totality.{Keeps, run_worker_total}

abbrev item : String → WorkItem
item id = record {
  item_id = codes id;
  run_id = 1;
  policy_id = 1;
  plan_json = [];
  schema_v = 1;
  enqueued_at_ms = 0;
}

init-IsSound : IsSound init
unfolding get
init-IsSound = record { keyed = λ id l e. cc; once = λ id. omega arith; distinct = tt }

abbrev shift : List QueueOp
shift =
    enqueues (item "a" ∷ item "b" ∷ [])
    ∷ claims 0 (codes "t1") 10
    ∷ reclaims 20
    ∷ claims 20 (codes "t2") 10
    ∷ acks (codes "b") (codes "t2")
    ∷ []

one_each : (id : Text) → places id init + enqueued id shift ≤ 1
unfolding get
one_each id = ground (arith, list_beq_iff (codes "a") id, list_beq_iff (codes "b") id)

conservation_example :
    IsSound (run init shift)
    × ((id : Text) → places id (run init shift) ≡ places id init + enqueued id shift)
conservation_example = conservation shift init init-IsSound one_each

-- One item, leased until 10.
abbrev held_queue : Queue
held_queue = record {
  available = [];
  leased = (codes "a", record { held_item = item "a"; token = codes "t1"; until_ms = 10 }) ∷ [];
  done = [];
}

held_queue-IsSound : IsSound held_queue
unfolding get
held_queue-IsSound = record {
  keyed = λ id l e. ground (arith, list_beq_iff (codes "a") id);
  once = λ id. ground arith;
  distinct = (refl, tt);
}

late_ack_refused_example :
    let q = (reclaim_expired 12 held_queue).1 in
    ((ack (codes "a") (codes "t1") q).0 ≡ false)
    × ((now ms : ℕ) (other : Text)
        → other ≢ codes "t1"
        → (ack (codes "a") (codes "t1") (claim now other ms q).1).0 ≡ false)
unfolding get
late_ack_refused_example =
    late_ack_refused 12 held_queue (codes "a")
      (record { held_item = item "a"; token = codes "t1"; until_ms = 10 }) held_queue-IsSound refl
      (omega arith)

-- Nobody else touches the queue.
quiet : (i : ℕ) (q : Queue) → IsSound q → Keeps q q
quiet i q h = record { sound = h; same = λ id. refl }

run_worker_total_example :
    (r : Tally × Queue) × (run_worker
        (λ n. n)
        (λ n. codes "t")
        (λ n it. true)
        (λ n q. q)
        50
        (some 2)
        true
        3
        held_queue
      ≡ some r)
    × (r.0.rounds ≤ 2)
    × (r.0.completed + r.0.failed ≡ r.0.rounds)
    × IsSound r.1
    × ((id : Text) → places id r.1 ≡ places id held_queue)
run_worker_total_example =
    run_worker_total (λ n. n) (λ n. codes "t") (λ n it. true) (λ n q. q) 50 2 quiet 3 held_queue
      (omega arith) held_queue-IsSound
