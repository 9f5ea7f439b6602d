-- ===== src/Refresh/Events/Leasing.antt =====
-- The run of a policy that leases its items, from the launch to the tick that closes it.
use fd_open_data_mcp.Base.{
  nat_beq, Bool-cases, get_default, length, In, nat_eq, list_eq, pair_eq, ◌==◌, beq_refl,
  list_beq_iff, Text, contains, count, contains-count, Dict, get, put, get-put, str, str-injective,
  ℕ, suc, ◌+◌, ◌≤◌, ◌<◌, ◌≡◌, refl, sym, ap, ◌∙◌, subst, inl, inr, true, false, ◌&&◌, none, some,
  List, [], ◌∷◌, ◌++◌, map, arith,
}
use fd_open_data_mcp.Crawl.Plan.{CrawlPlan}
use fd_open_data_mcp.Crawl.Split.{split_plan}
use fd_open_data_mcp.Stream.Lease.{WorkItem, Lease, Queue, init, enqueue, stats}
use fd_open_data_mcp.Stream.Lease.Conservation.{
  QueueOp, enqueues, apply_op, run, ids, places, held, enqueued, IsSound, conservation,
}
use fd_open_data_mcp.Proxy.Circuit.Scan.{starts_with}
use fd_open_data_mcp.Refresh.Policy.{CrawlPolicy}
use fd_open_data_mcp.Refresh.Runs.{PolicyRun, policy, is_open, add_run, started_run}
use fd_open_data_mcp.Refresh.Reconciler.{State, Environment}
use fd_open_data_mcp.Refresh.Reconciler.Probe.{
  is_drained, lease_queue_for, probe_job, probe_run, after_probe,
}
use fd_open_data_mcp.Refresh.Reconciler.Launch.{
  work_items, enqueue_items, lease_ref, launch_split, launch_leasing,
}
use fd_open_data_mcp.Refresh.Reconciler.Tick.{reconcile_once}
use fd_open_data_mcp.Refresh.Reconciler.Closing.{IsFresh, add_run-IsFresh, tick_rows}
use fd_open_data_mcp.Refresh.Events.{Event, works, apply_event, apply_events}

abbrev item_name : ℕ → ℕ → Text
item_name run_id i = str run_id ++ (58 ∷ str i)

prefix-cancel : (s t u : Text) → s ++ t ≡ s ++ u → t ≡ u
prefix-cancel [] t u h = h
prefix-cancel (c ∷ s) t u h = prefix-cancel s t u (ground (arith, h))

item_name-injective : (run_id i j : ℕ) → item_name run_id i ≡ item_name run_id j → i ≡ j
item_name-injective run_id i j h =
    str-injective i j (ground (arith, prefix-cancel (str run_id) (58 ∷ str i) (58 ∷ str j) h))

-- An earlier item's name is not among the later ones.
earlier-count :
    (w : Environment) (run_id policy_id i j : ℕ) (its : List CrawlPlan)
    → i < j
    → count (item_name run_id i) (ids (work_items w run_id policy_id j its)) ≡ 0
unfolding work_items
earlier-count w run_id policy_id i j [] l = refl
earlier-count w run_id policy_id i j (it ∷ its) l = ground (
  arith,
  earlier-count w run_id policy_id i (suc j) its (omega (arith, l)),
  list_beq_iff (item_name run_id j) (item_name run_id i),
  item_name-injective run_id j i,
)

work_items-once :
    (w : Environment) (run_id policy_id i : ℕ) (its : List CrawlPlan) (id : Text)
    → count id (ids (work_items w run_id policy_id i its)) ≤ 1
unfolding work_items
work_items-once w run_id policy_id i [] id = omega arith
work_items-once w run_id policy_id i (it ∷ its) id = elim (Bool-cases (item_name run_id i == id)) [
  | inl e ↦
      let same = (list_beq_iff (item_name run_id i) id).0 e in
      let absent =
        subst (λ (t : Text). count t (ids (work_items w run_id policy_id (suc i) its)) ≡ 0) same
          (earlier-count w run_id policy_id i (suc i) its (omega arith)) in
      rw e (omega (arith, absent))
  | inr e ↦ rw e (work_items-once w run_id policy_id (suc i) its id)
]

init-IsSound : IsSound init
unfolding get
init-IsSound = record { keyed = λ id l h. cc h; once = λ id. omega arith; distinct = tt }

In-count :
    (item : WorkItem) (items : List WorkItem) → In item items → 1 ≤ count item.item_id (ids items)
In-count item [] h = absurd h
In-count item (x ∷ xs) (inl e) =
    ground (arith, list_beq_iff x.item_id item.item_id, ap (λ y. y.item_id) e)
In-count item (x ∷ xs) (inr i) = ground (arith, In-count item xs i)

none_left :
    (available : List WorkItem) (leased : Dict Text Lease) (id : Text)
    → (nat_beq (length available) 0 && nat_beq (length leased) 0) ≡ true
    → count id (ids available) + held (get leased id) ≡ 0
unfolding get
none_left [] [] id h = refl
none_left [] (x ∷ leased) id h = ground (arith, h)
none_left (item ∷ available) leased id h = ground (arith, h)

drained-places : (q : Queue) (id : Text) → is_drained q ≡ true → places id q ≡ count id q.done
unfolding is_drained stats
drained-places q id h = omega (arith, none_left q.available q.leased id h)

-- If the workers only claim, acknowledge and reclaim, then once the queue is drained each item
-- that the run put in is done.
drained_done :
    (w : Environment) (run_id policy_id : ℕ) (its : List CrawlPlan) (ops : List QueueOp)
    → ((id : Text) → enqueued id ops ≡ 0)
    → let items = work_items w run_id policy_id 0 its in
      is_drained (run init (enqueues items ∷ ops)) ≡ true
      → (item : WorkItem) → In item items
      → contains (run init (enqueues items ∷ ops)).done item.item_id ≡ true
unfolding get
drained_done w run_id policy_id its ops quiet d item i =
    let items = work_items w run_id policy_id 0 its in
    let (sound, same) =
      conservation (enqueues items ∷ ops) init init-IsSound
        (λ id. omega (arith, quiet id, work_items-once w run_id policy_id 0 its id)) in
    let q = run init (enqueues items ∷ ops) in
    let id = item.item_id in
    ground (
      arith,
      contains-count q.done id,
      drained-places q id d,
      same id,
      quiet id,
      In-count item items i,
    )

put_queue :
    (run_id : ℕ) (q : Queue) (st : State) → lease_queue_for (put st.queues run_id q) run_id ≡ q
unfolding lease_queue_for
put_queue run_id q st = rw (get-put st.queues run_id run_id q, beq_refl run_id) refl

abbrev pub worked : ℕ → List QueueOp → List Event
worked run_id ops = map (works run_id) ops

-- The workers' operations move the run's queue, and no row.
worked-run :
    (run_id : ℕ) (ops : List QueueOp) (st : State)
    → let st' = apply_events (worked run_id ops) st in
      (lease_queue_for st'.queues run_id ≡ run (lease_queue_for st.queues run_id) ops)
      × (st'.runs ≡ st.runs)
unfolding apply_events apply_event lease_queue_for run
worked-run run_id [] st = (refl, refl)
worked-run run_id (op ∷ ops) st =
    let (q, r) = worked-run run_id ops (apply_event (works run_id op) st) in
    (
      q
          ∙ ap (λ x. run x ops)
              (put_queue run_id (apply_op op (lease_queue_for st.queues run_id)) st),
      r,
    )

module _ (w : Environment) (st : State) (p : CrawlPolicy) (plan it : CrawlPlan)
    (its : List CrawlPlan) (now : ℕ) where
  unfoldable pub lease_row : PolicyRun
  lease_row = started_run (some p.id) policy (some plan) plan.plan_cells (lease_ref p.id) none now

  -- The state after the items are put in.
  after_enqueue : State
  unfolding enqueue_items
  after_enqueue = (enqueue_items w st p plan (it ∷ its) now).0

  after_enqueue-runs : after_enqueue.runs ≡ add_run st.runs lease_row
  unfolding after_enqueue enqueue_items lease_row
  after_enqueue-runs = refl

  after_enqueue-queue :
      get st.queues st.runs.next_id ≡ none
      → lease_queue_for after_enqueue.queues st.runs.next_id
        ≡ run init (enqueues (work_items w st.runs.next_id p.id 0 (it ∷ its)) ∷ [])
  unfolding after_enqueue enqueue_items lease_queue_for run apply_op
  after_enqueue-queue e =
      rw
        (
          get-put st.queues st.runs.next_id st.runs.next_id
              (enqueue (work_items w st.runs.next_id p.id 0 (it ∷ its))
                (get_default (get st.queues st.runs.next_id) init)).1,
          beq_refl st.runs.next_id,
          e,
        )
        refl

undrained_stays :
    (w : Environment) (queues : Dict ℕ Queue) (now k : ℕ) (r : PolicyRun) (n : ℕ)
    → r.job_ref ≡ some (lease_ref n)
    → is_open r.status ≡ true
    → is_drained (lease_queue_for queues k) ≡ false
    → after_probe w queues now k r ≡ r
unfolding after_probe probe_run probe_job starts_with
undrained_stays w queues now k r n j o d = rw (o, j, d) refl

lease_probe :
    (w : Environment) (queues : Dict ℕ Queue) (now k : ℕ) (r : PolicyRun) (n : ℕ)
    → r.job_ref ≡ some (lease_ref n)
    → is_open r.status ≡ true
    → is_open (after_probe w queues now k r).status ≡ false
    → is_drained (lease_queue_for queues k) ≡ true
lease_probe w queues now k r n j o h = elim (Bool-cases (is_drained (lease_queue_for queues k))) [
  | inl d ↦ d
  | inr d ↦
      absurd (cc (ap (λ x. is_open x.status) (undrained_stays w queues now k r n j o d), o, h))
]

leasing-enqueue :
    (w : Environment) (st : State) (p : CrawlPolicy) (plan it : CrawlPlan) (its : List CrawlPlan)
    (now : ℕ)
    → split_plan w.session plan w.max_fetches ≡ some (it ∷ its)
    → (launch_leasing w st p plan now).0 ≡ after_enqueue w st p plan it its now
unfolding launch_leasing launch_split after_enqueue
leasing-enqueue w st p plan it its now split = rw split refl

-- The state that a tick finds: the row of the run, and its queue.
module _ (w : Environment) (st : State) (p : CrawlPolicy) (plan it : CrawlPlan)
    (its : List CrawlPlan) (now : ℕ) (ops : List QueueOp)
    (split : split_plan w.session plan w.max_fetches ≡ some (it ∷ its)) where
  unfoldable pub found_state : State
  found_state = apply_events (worked st.runs.next_id ops) (launch_leasing w st p plan now).0

  pub found-runs : found_state.runs ≡ add_run st.runs (lease_row w st p plan it its now)
  unfolding found_state
  found-runs =
      (worked-run st.runs.next_id ops (launch_leasing w st p plan now).0).1
      ∙ ap (λ x. x.runs) (leasing-enqueue w st p plan it its now split)
      ∙ after_enqueue-runs w st p plan it its now

  pub found-row :
      get found_state.runs.rows st.runs.next_id ≡ some (lease_row w st p plan it its now)
  found-row =
      ap (λ x. get x.rows st.runs.next_id) found-runs
      ∙ rw
          (
            get-put st.runs.rows st.runs.next_id st.runs.next_id (lease_row w st p plan it its now),
            beq_refl st.runs.next_id,
          )
          refl

  found-queue :
      get st.queues st.runs.next_id ≡ none
      → lease_queue_for found_state.queues st.runs.next_id
        ≡ run init (enqueues (work_items w st.runs.next_id p.id 0 (it ∷ its)) ∷ ops)
  unfolding found_state run
  found-queue new =
      (worked-run st.runs.next_id ops (launch_leasing w st p plan now).0).0
      ∙ ap (λ x. run x ops)
          (ap (λ x. lease_queue_for x.queues st.runs.next_id)
              (leasing-enqueue w st p plan it its now split)
            ∙ after_enqueue-queue w st p plan it its now new)

-- In one process, which keeps the queues in memory: a policy leases the items of its plan to a new
-- run, on a queue that is new; the workers claim, acknowledge and reclaim in any order; and a tick, of
-- any launcher, finds the run closed. Then every item of the split of the plan is in the set of done
-- items. No restart of the process lies between the launch and the tick.
pub lease_run_done :
    (w w' : Environment) (st : State) (p : CrawlPolicy) (plan it : CrawlPlan) (its : List CrawlPlan)
    (now now' : ℕ) (ops : List QueueOp) (r : PolicyRun)
    → IsFresh st.runs
    → get st.queues st.runs.next_id ≡ none
    → split_plan w.session plan w.max_fetches ≡ some (it ∷ its)
    → ((id : Text) → enqueued id ops ≡ 0)
    → let run_id = st.runs.next_id in
      let st' = apply_events (worked run_id ops) (launch_leasing w st p plan now).0 in
      get (reconcile_once w' st' now').0.runs.rows run_id ≡ some r
      → is_open r.status ≡ false
      → (item : WorkItem) → In item (work_items w run_id p.id 0 (it ∷ its))
      → contains (lease_queue_for st'.queues run_id).done item.item_id ≡ true
unfolding found_state lease_row
lease_run_done w w' st p plan it its now now' ops r f new split quiet found shut item i =
    let run_id = st.runs.next_id in
    let row = lease_row w st p plan it its now in
    let there = found_state w st p plan it its now ops split in
    let fresh =
      subst IsFresh (sym (found-runs w st p plan it its now ops split))
        (add_run-IsFresh st.runs row f) in
    let tick =
      (tick_rows w' there now' fresh).1 run_id row (found-row w st p plan it its now ops split) in
    let same : after_probe w' there.queues now' run_id row ≡ r = ground (arith, tick, found) in
    let drained =
      lease_probe w' there.queues now' run_id row p.id refl refl
        (ap (λ x. is_open x.status) same ∙ shut) in
    let queue = found-queue w st p plan it its now ops split new in
    ap (λ x. contains x.done item.item_id) queue
    ∙ drained_done w run_id p.id (it ∷ its) ops quiet (ap is_drained (sym queue) ∙ drained) item i
