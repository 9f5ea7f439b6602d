-- ===== src/Refresh/Reconciler/Outcomes.antt =====
-- What a launch records, by the result that it gives.
use fd_open_data_mcp.Base.{
  ltb, length, Dict, suc, ap, ◌++◌, if◌then◌else◌, Bool-cases, nat_eq, list_eq, pair_eq, ◌==◌, Text,
  codes, put, ℕ, ◌≡◌, refl, sym, subst, inl, inr, true, not, ◌&&◌, Option, none, some, List, [],
  ◌∷◌,
}
use fd_open_data_mcp.Crawl.Plan.{CrawlPlan}
use fd_open_data_mcp.Stream.Lease.{WorkItem, Queue, enqueue}
use fd_open_data_mcp.Refresh.Reconciler.Probe.{lease_queue_for}
use fd_open_data_mcp.Crawl.Split.{split_plan}
use fd_open_data_mcp.Crawl.Split.Partition.{split_plan_partition}
use fd_open_data_mcp.Crawl.Estimate.{estimate_fetches}
use fd_open_data_mcp.Refresh.Policy.{CrawlPolicy}
use fd_open_data_mcp.Refresh.Runs.{
  success, failed, policy, PolicyRun, LaunchCall, raises, starts, add_run, ended_run, started_run,
}
use fd_open_data_mcp.Refresh.Reconciler.{State, Environment}
use fd_open_data_mcp.Refresh.Reconciler.Launch.{
  LaunchResult, launched_job, launched_items, launched_nothing, skipped, refused, raised,
  has_open_run, refuse, after_launch, launch_direct, enqueue_items, launch_split, launch_leasing,
  launch_job, launch_guarded, launch_planned, plan_of, launch_policy, called, lease_ref, work_items,
}
use fd_open_data_mcp.Refresh.Reconciler.Rows.{launch_free, launch_busy}

-- This row is added, the policy ran now, and these are the queues.
abbrev pub Ran : State → State → CrawlPolicy → ℕ → Dict ℕ Queue → PolicyRun → Type 0
Ran st st' p now queues r =
    (st'.runs ≡ add_run st.runs r)
    × (st'.policies ≡ put st.policies p.id (record p { last_run_at = some now }))
    × (st'.queues ≡ queues)

-- The plan that the planner gives; none for a policy that calls a script.
abbrev pub IsPlanOf : Environment → ℕ → CrawlPolicy → Option CrawlPlan → Type 0
IsPlanOf w now p none = (p.executor == codes "direct") ≡ true
IsPlanOf w now p (some plan) = plan_of w p now ≡ some plan

-- The queue with these items behind those that are available.
abbrev pub with_items : List WorkItem → Queue → Queue
with_items items q = record q { available = q.available ++ items }

abbrev pub Recorded : Environment → ℕ → CrawlPolicy → State → State × LaunchResult → Type 0
Recorded w now p st (st', skipped) = (st' ≡ st) × (has_open_run st.runs.rows p.id ≡ true)
Recorded w now p st (st', raised) = (st' ≡ st) × (plan_of w p now ≡ none)
Recorded w now p st (st', refused detail) =
    (plan : Option CrawlPlan) × IsPlanOf w now p plan
    × Ran st st' p now st.queues (ended_run (some p.id) policy failed plan now detail)
Recorded w now p st (st', launched_nothing) =
    (plan : CrawlPlan) × (detail : Text) × (plan_of w p now ≡ some plan)
    × (split_plan w.session plan w.max_fetches ≡ some [])
    × Ran st st' p now st.queues (ended_run (some p.id) policy success (some plan) now detail)
Recorded w now p st (st', launched_job job estimate) =
    (plan : Option CrawlPlan) × (cells : Option ℕ) × (cluster : Option ℕ) × IsPlanOf w now p plan
    × (w.launch plan p ≡ starts job cluster)
    × Ran st st' p now st.queues (started_run (some p.id) policy plan cells job cluster now)
Recorded w now p st (st', launched_items run_id n estimate) =
    (plan : CrawlPlan) × (parts : List CrawlPlan) × (plan_of w p now ≡ some plan)
    × (split_plan w.session plan w.max_fetches ≡ some parts)
    × (run_id ≡ st.runs.next_id)
    × (n ≡ length parts)
    × (estimate ≡ estimate_fetches w.session plan)
    × Ran st st' p now
        (put st.queues run_id
          (with_items (work_items w run_id p.id 0 parts) (lease_queue_for st.queues run_id)))
        (started_run (some p.id) policy (some plan) plan.plan_cells (lease_ref p.id) none now)

length-work_items :
    (w : Environment) (run_id policy_id i : ℕ) (parts : List CrawlPlan)
    → length (work_items w run_id policy_id i parts) ≡ length parts
unfolding work_items
length-work_items w run_id policy_id i [] = refl
length-work_items w run_id policy_id i (it ∷ its) =
    ap suc (length-work_items w run_id policy_id (suc i) its)

module _ (w : Environment) (st : State) (p : CrawlPolicy) (now : ℕ) where
  refuse-Recorded :
      (plan : Option CrawlPlan) (detail : Text)
      → IsPlanOf w now p plan
      → Recorded w now p st (refuse st p plan detail now)
  unfolding refuse
  refuse-Recorded plan detail h = (plan, h, (refl, refl, refl))

  after-Recorded :
      (plan : Option CrawlPlan) (cells estimate : Option ℕ) (call : LaunchCall)
      → IsPlanOf w now p plan
      → w.launch plan p ≡ call
      → Recorded w now p st (after_launch (called st p plan) p plan cells estimate call now)
  unfolding after_launch refuse
  after-Recorded plan cells estimate (raises e) i h = (plan, i, (refl, refl, refl))
  after-Recorded plan cells estimate (starts job cluster) i h =
      (plan, cells, cluster, i, h, (refl, refl, refl))

  direct-Recorded :
      (script : Option Text)
      → (p.executor == codes "direct") ≡ true
      → Recorded w now p st (launch_direct w st p script now)
  unfolding launch_direct
  direct-Recorded none d = refuse-Recorded none (codes "refused: direct policy has no script") d
  direct-Recorded (some []) d =
      refuse-Recorded none (codes "refused: direct policy has no script") d
  direct-Recorded (some (c ∷ t)) d = after-Recorded none none none (w.launch none p) d refl

  items-Recorded :
      (plan : CrawlPlan) (items : List CrawlPlan)
      → plan_of w p now ≡ some plan
      → split_plan w.session plan w.max_fetches ≡ some items
      → Recorded w now p st (enqueue_items w st p plan items now)
  unfolding enqueue_items enqueue
  items-Recorded plan [] i h = (plan, _, i, h, (refl, refl, refl))
  items-Recorded plan (it ∷ its) i h = (
    plan,
    it ∷ its,
    i,
    h,
    refl,
    length-work_items w st.runs.next_id p.id 0 (it ∷ its),
    refl,
    (refl, refl, refl),
  )

  split-Recorded :
      (plan : CrawlPlan) (o : Option (List CrawlPlan))
      → plan_of w p now ≡ some plan
      → split_plan w.session plan w.max_fetches ≡ o
      → Recorded w now p st (launch_split w st p plan o now)
  unfolding launch_split
  split-Recorded plan none i h =
      let (items, e, c, a, v) = split_plan_partition w.session plan w.max_fetches in
      absurd (cc (e, h))
  split-Recorded plan (some items) i h = items-Recorded plan items i h

  leasing-Recorded :
      (plan : CrawlPlan)
      → plan_of w p now ≡ some plan
      → Recorded w now p st (launch_leasing w st p plan now)
  unfolding launch_leasing
  leasing-Recorded plan i = split-Recorded plan (split_plan w.session plan w.max_fetches) i refl

  guarded-Recorded :
      (plan : CrawlPlan)
      → plan_of w p now ≡ some plan
      → Recorded w now p st (launch_guarded w st p plan now)
  unfolding launch_guarded launch_job
  guarded-Recorded plan i =
      elim (Bool-cases (ltb w.max_fetches (estimate_fetches w.session plan) && not p.force)) [
        | inl big ↦ rw big (refuse-Recorded (some plan) _ i)
        | inr fits ↦ rw fits (
            after-Recorded (some plan) plan.plan_cells (some (estimate_fetches w.session plan))
              (w.launch (some plan) p) i refl)
      ]

  planned-Recorded :
      (o : Option CrawlPlan)
      → plan_of w p now ≡ o
      → Recorded w now p st (launch_planned w st p o now)
  unfolding launch_planned
  planned-Recorded none h = (refl, h)
  planned-Recorded (some plan) h = elim (Bool-cases (p.launcher == codes "leasing")) [
    | inl l ↦ rw l (leasing-Recorded plan h)
    | inr l ↦ rw l (guarded-Recorded plan h)
  ]

  free-Recorded : Recorded w now p st (
      if p.executor == codes "direct"
      then launch_direct w st p p.script now
      else launch_planned w st p (plan_of w p now) now)
  free-Recorded = elim (Bool-cases (p.executor == codes "direct")) [
    | inl d ↦ rw d (direct-Recorded p.script d)
    | inr d ↦ rw d (planned-Recorded (plan_of w p now) refl)
  ]

  -- A launch says what it did. It is skipped only where the policy has an open run, and then changes
  -- nothing; it raises only where the planner raises, and then leaves all as it is; and in every other
  -- case it adds one row and notes the time on the policy. Where it is refused, the row is failed
  -- with the detail that it gives. Where the launcher takes the plan, the row is open with the job and
  -- the cluster that the launcher gives. Where the plan is leased, the row is open, and one item for
  -- each part of the split of the plan, of the given count, is put at the end of the queue of the new
  -- run. Where the split is empty, the row is closed. The plan of a row is the one that the planner
  -- gives, and no other queue is changed.
  pub launch_accounted : Recorded w now p st (launch_policy w st p now)
  launch_accounted = elim (Bool-cases (has_open_run st.runs.rows p.id)) [
    | inl busy ↦ subst (Recorded w now p st) (sym (launch_busy w st p now busy)) (refl, busy)
    | inr free ↦ subst (Recorded w now p st) (sym (launch_free w st p now free)) free-Recorded
  ]
