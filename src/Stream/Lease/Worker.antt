-- ===== src/Stream/Lease/Worker.antt =====
-- fd_open_data_mcp/stream/lease.py: `run_worker`, the claim, execute and acknowledge loop, on fuel
-- (`none` where it runs out). `clock n` is the n-th reading of the clock, `fresh n` the token of the
-- n-th claim, `execute n item` whether the execution in round n returns (it raises if not), and
-- `meanwhile n` what other workers do to the queue during round n.
pub mod Totality
use fd_open_data_mcp.Base.{
  ℕ, zero, suc, ◌+◌, ◌*◌, Bool, true, Option, none, some, ltb, if◌then◌else◌, Text,
}
use fd_open_data_mcp.Stream.Lease.{WorkItem, LeasedItem, Lease, Queue, claim, ack, reclaim_expired}

pub record Tally : Type 0 where
  pub rounds : ℕ
  pub completed : ℕ
  pub failed : ℕ

abbrev pub no_rounds : Tally
no_rounds = record { rounds = 0; completed = 0; failed = 0 }

-- How a round of the loop ends: it leaves the loop, or goes on.
pub data Round : Type 0 where
  stop : Tally → Queue → Round
  again : Tally → Queue → Round

-- `while max_items is None or n < max_items`
abbrev pub may_go_on : Option ℕ → ℕ → Bool
may_go_on none n = true
may_go_on (some m) n = ltb n m

module _ (clock : ℕ → ℕ) (fresh : ℕ → Text) (execute : ℕ → WorkItem → Bool)
    (meanwhile : ℕ → Queue → Queue) (lease_ms : ℕ) (max_items : Option ℕ) (idle_stop : Bool) where
  -- Execute, then acknowledge unless the execution raised.
  unfoldable pub finish_round : ℕ → LeasedItem → Tally → Queue → Tally × Queue
  finish_round i lease t q =
      let t' = record t { rounds = t.rounds + 1 } in
      let lost = record t' { failed = t'.failed + 1 } in
      let won = record t' { completed = t'.completed + 1 } in
      let (acked, q') = ack lease.item.item_id lease.lease_token q in
      if execute i lease.item then (if acked then won else lost, q') else (lost, q)

  -- Reclaim what has expired, then claim the next item.
  unfoldable pub start_round : ℕ → Queue → Option LeasedItem × Queue
  start_round i q =
      claim (clock (2 * i + 1)) (fresh i) lease_ms (reclaim_expired (clock (2 * i)) q).1

  abbrev pub after_claim : ℕ → Tally → Option LeasedItem × Queue → Round
  after_claim i t (none, q) = if idle_stop then stop t q else again t (meanwhile i q)
  after_claim i t (some l, q) = let (t', q') = finish_round i l t (meanwhile i q) in again t' q'

  unfoldable pub one_round : ℕ → Tally → Queue → Round
  unfolding finish_round start_round
  one_round i t q =
      if may_go_on max_items t.rounds then after_claim i t (start_round i q) else stop t q

  unfoldable pub worker_loop : ℕ → ℕ → Tally → Queue → Option (Tally × Queue)
  worker_loop zero i t q = none
  worker_loop (suc fuel) i t q = elim (one_round i t q) [
    | stop t' q' ↦ some (t', q')
    | again t' q' ↦ worker_loop fuel (i + 1) t' q'
  ]

  unfoldable pub run_worker : ℕ → Queue → Option (Tally × Queue)
  unfolding worker_loop one_round
  run_worker fuel q = worker_loop fuel 0 no_rounds q
