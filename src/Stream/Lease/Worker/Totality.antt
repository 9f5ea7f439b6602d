-- ===== src/Stream/Lease/Worker/Totality.antt =====
-- The worker loop: its end, its tally and its items.
use fd_open_data_mcp.Base.{
  ℕ, zero, suc, ◌+◌, ◌*◌, ◌-◌, ◌≤◌, ◌<◌, ◌≡◌, refl, ◌∙◌, Bool, true, inl, inr, Bool-cases, Option,
  none, some, arith, ltb, ltb→lt, Text,
}
use fd_open_data_mcp.Stream.Lease.{WorkItem, LeasedItem, Queue, reclaim_expired}
use fd_open_data_mcp.Stream.Lease.Conservation.{
  places, IsSound, QueueOp, claims, acks, reclaims, added, apply_op, places-apply_op,
  apply_op-IsSound,
}
use fd_open_data_mcp.Stream.Lease.Worker.{
  Tally, finish_round, start_round, worker_loop, run_worker, no_rounds, Round, stop, again,
  one_round, after_claim,
}

-- The same items as before, each once.
pub record Keeps (q q' : Queue) : Type 0 where
  pub sound : IsSound q'
  pub same : (id : Text) → places id q' ≡ places id q

Keeps-trans : {p q r : Queue} → Keeps p q → Keeps q r → Keeps p r
Keeps-trans h k = record { sound = k.sound; same = λ id. k.same id ∙ h.same id }

module _ (clock : ℕ → ℕ) (fresh : ℕ → Text) (execute : ℕ → WorkItem → Bool)
    (meanwhile : ℕ → Queue → Queue) (lease_ms : ℕ) (max_items : Option ℕ) (idle_stop : Bool) where
  abbrev Good : (Tally → Queue → Type 0) → (Tally → Queue → ℕ) → ℕ → Round → Type 0
  Good P room n (stop t q) = P t q
  Good P room n (again t q) = P t q × (room t q < n)

  -- A loop whose rounds keep `P` and use up `room` ends on fuel above `room`, with `P`.
  worker_loop_rule :
      (P : Tally → Queue → Type 0) (room : Tally → Queue → ℕ)
      → ((i : ℕ) (t : Tally) (q : Queue)
          → P t q
          → Good P room
              (room t q)
              (one_round clock fresh execute meanwhile lease_ms max_items idle_stop i t q))
      → (fuel i : ℕ) (t : Tally) (q : Queue) → room t q < fuel
      → P t q
      → (r : Tally × Queue) × (worker_loop clock fresh execute meanwhile lease_ms max_items
            idle_stop fuel i t q
          ≡ some r)
        × P r.0 r.1
  unfolding worker_loop
  worker_loop_rule P room keep zero i t q enough p = absurd (omega arith)
  worker_loop_rule P room keep (suc fuel) i t q enough p =
      go (one_round clock fresh execute meanwhile lease_ms max_items idle_stop i t q) (keep i t q p)
        (worker_loop_rule P room keep fuel (i + 1))
    where
      go :
          (o : Round)
          → Good P room (room t q) o
          → ((t' : Tally) (q' : Queue)
              → room t' q' < fuel
              → P t' q'
              → (r : Tally × Queue) × (worker_loop clock fresh execute meanwhile lease_ms max_items
                    idle_stop fuel
                    (i + 1)
                    t'
                    q'
                  ≡ some r)
                × P r.0 r.1)
          → (r : Tally × Queue) × ((elim o [
            | stop t' q' ↦ some (t', q')
            | again t' q' ↦
                worker_loop clock fresh execute meanwhile lease_ms max_items idle_stop fuel
                  (i + 1)
                  t'
                  q'
          ])
              ≡ some r)
            × P r.0 r.1
      go (stop t' q') g ih = ((t', q'), refl, g)
      go (again t' q') g ih = ih t' q' (omega arith) g.0

op-Keeps :
    (op : QueueOp) (q : Queue)
    → IsSound q
    → ((id : Text) → added id op ≡ 0)
    → Keeps q (apply_op op q)
op-Keeps op q h z = record {
  sound = apply_op-IsSound op q h (λ id. omega (arith, h.once id, z id));
  same = λ id. omega (arith, places-apply_op op q id h, z id);
}

module _ (clock : ℕ → ℕ) (fresh : ℕ → Text) (execute : ℕ → WorkItem → Bool)
    (meanwhile : ℕ → Queue → Queue) (lease_ms : ℕ) (max_items : Option ℕ) (idle_stop : Bool) where
  start_round-Keeps :
      (i : ℕ) (q : Queue)
      → IsSound q
      → Keeps q (start_round clock fresh execute meanwhile lease_ms max_items idle_stop i q).1
  unfolding start_round apply_op
  start_round-Keeps i q h =
      let first : Keeps q (reclaim_expired (clock (2 * i)) q).1 =
        op-Keeps (reclaims (clock (2 * i))) q h (λ id. refl) in
      Keeps-trans first (
        op-Keeps (claims (clock (2 * i + 1)) (fresh i) lease_ms)
          (reclaim_expired (clock (2 * i)) q).1 first.sound (λ id. refl))

  finish_round-Keeps :
      (i : ℕ) (l : LeasedItem) (t : Tally) (q : Queue)
      → IsSound q
      → Keeps q (finish_round clock fresh execute meanwhile lease_ms max_items idle_stop i l t q).1
  unfolding finish_round apply_op
  finish_round-Keeps i l t q h = elim (Bool-cases (execute i l.item)) [
    | inl e ↦ rw e (op-Keeps (acks l.item.item_id l.lease_token) q h (λ id. refl))
    | inr e ↦ rw e (record { sound = h; same = λ id. refl })
  ]

  tally-finish_round :
      (i : ℕ) (l : LeasedItem) (t : Tally) (q : Queue)
      → let t' =
          (finish_round clock fresh execute meanwhile lease_ms max_items idle_stop i l t q).0 in
        (t'.rounds ≡ t.rounds + 1) × (t'.completed + t'.failed ≡ t.completed + t.failed + 1)
  unfolding finish_round
  tally-finish_round i l t q = ground arith

-- What holds after each round, for a bound on the items.
record Accounted (m : ℕ) (start : Queue) (t : Tally) (q : Queue) : Type 0 where
  within : t.rounds ≤ m
  sum : t.completed + t.failed ≡ t.rounds
  kept : Keeps start q

module _ (clock : ℕ → ℕ) (fresh : ℕ → Text) (execute : ℕ → WorkItem → Bool)
    (meanwhile : ℕ → Queue → Queue) (lease_ms : ℕ) (m : ℕ)
    (others : (i : ℕ) (q : Queue) → IsSound q → Keeps q (meanwhile i q)) where
  after_claim-Accounted :
      (start : Queue) (i : ℕ) (t : Tally) (s : Option LeasedItem × Queue)
      → t.rounds < m
      → t.completed + t.failed ≡ t.rounds
      → Keeps start s.1
      → Good clock fresh execute meanwhile lease_ms
          (some m)
          true
          (Accounted m start)
          (λ t q. m - t.rounds)
          (m - t.rounds)
          (after_claim clock fresh execute meanwhile lease_ms (some m) true i t s)
  after_claim-Accounted start i t (none, q) lt sum k = record {
    within = omega arith;
    sum = sum;
    kept = k;
  }
  after_claim-Accounted start i t (some l, q) lt sum k =
      let q1 = meanwhile i q in
      let count =
        tally-finish_round clock fresh execute meanwhile lease_ms (some m) true i l t q1 in
      let k1 = Keeps-trans k (others i q k.sound) in
      (
        record {
          within = omega (arith, count);
          sum = omega (arith, count);
          kept = Keeps-trans k1 (
              finish_round-Keeps clock fresh execute meanwhile lease_ms (some m) true i l t q1
                k1.sound);
        },
        omega (arith, count),
      )

  one_round-Accounted :
      (start : Queue) (i : ℕ) (t : Tally) (q : Queue)
      → Accounted m start t q
      → Good clock fresh execute meanwhile lease_ms
          (some m)
          true
          (Accounted m start)
          (λ t q. m - t.rounds)
          (m - t.rounds)
          (one_round clock fresh execute meanwhile lease_ms (some m) true i t q)
  unfolding one_round
  one_round-Accounted start i t q h = elim (Bool-cases (ltb t.rounds m)) [
    | inl e ↦ rw e (
        after_claim-Accounted start i t
          (start_round clock fresh execute meanwhile lease_ms (some m) true i q) (ltb→lt _ _ e)
          h.sum
          (Keeps-trans h.kept (
            start_round-Keeps clock fresh execute meanwhile lease_ms (some m) true i q
              h.kept.sound)))
    | inr e ↦ rw e h
  ]

  -- With a bound on the items, `idle_stop`, and other workers that lose and double no item, the
  -- worker ends within m rounds on any fuel above m; each round is counted as completed or failed;
  -- and every item is where it was, available, leased or done, exactly once, also if executions
  -- raise or leases are stolen.
  pub run_worker_total :
      (fuel : ℕ) (q : Queue)
      → m < fuel
      → IsSound q
      → (r : Tally × Queue) × (run_worker clock fresh execute meanwhile lease_ms
            (some m)
            true
            fuel
            q
          ≡ some r)
        × (r.0.rounds ≤ m)
        × (r.0.completed + r.0.failed ≡ r.0.rounds)
        × IsSound r.1
        × ((id : Text) → places id r.1 ≡ places id q)
  unfolding run_worker
  run_worker_total fuel q enough h =
      let (r, e, a) =
        worker_loop_rule clock fresh execute meanwhile lease_ms (some m) true (Accounted m q)
          (λ t q. m - t.rounds) (one_round-Accounted q) fuel 0 no_rounds q (omega arith)
          (record {
            within = omega arith;
            sum = refl;
            kept = record { sound = h; same = λ id. refl };
          }) in
      (r, e, a.within, a.sum, a.kept.sound, a.kept.same)
