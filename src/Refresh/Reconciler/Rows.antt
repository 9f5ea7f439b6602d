-- ===== src/Refresh/Reconciler/Rows.antt =====
-- What a launch adds to the table of runs, and a principle for the loop over the due policies.
use fd_open_data_mcp.Base.{
  ltb, if◌then◌else◌, Bool-cases, In, nat_eq, list_eq, pair_eq, ◌==◌, Text, codes, ℕ, ◌≡◌, refl,
  sym, ap, subst, ◌⊎◌, inl, inr, true, false, not, ◌&&◌, Option, none, some, List, [], ◌∷◌, ◌++◌,
}
use fd_open_data_mcp.Crawl.Plan.{CrawlPlan}
use fd_open_data_mcp.Crawl.Split.{split_plan}
use fd_open_data_mcp.Crawl.Estimate.{estimate_fetches}
use fd_open_data_mcp.Refresh.Policy.{CrawlPolicy, frozen_window, cron_due}
use fd_open_data_mcp.Refresh.Runs.{
  is_open, success, failed, policy, PolicyRun, Runs, add_run, LaunchCall, raises, starts, ended_run,
  started_run,
}
use fd_open_data_mcp.Refresh.Reconciler.{State, Environment}
use fd_open_data_mcp.Refresh.Reconciler.Launch.{
  has_open_run, refuse, after_launch, launch_direct, launch_split, launch_leasing, launch_guarded,
  launch_planned, plan_of, launch_policy, called, lease_ref, LaunchResult, skipped,
}
use fd_open_data_mcp.Refresh.Reconciler.Tick.{tick_window, tick_policy, tick_loop, is_raised}

-- At most one row is added: a row of this policy, and an open one only where it has none.
abbrev pub Adds : CrawlPolicy → Runs → Runs → Type 0
Adds p runs runs' =
    (runs' ≡ runs)
    ⊎ ((r : PolicyRun) × (runs' ≡ add_run runs r)
        × (r.policy_id ≡ some p.id)
        × (is_open r.status ≡ true → has_open_run runs.rows p.id ≡ false))

module _ (w : Environment) (st : State) (p : CrawlPolicy) (now : ℕ) where
  refuse-Adds :
      (plan : Option CrawlPlan) (detail : Text)
      → Adds p st.runs (refuse st p plan detail now).0.runs
  unfolding refuse
  refuse-Adds plan detail =
      inr (ended_run (some p.id) policy failed plan now detail, refl, refl, λ h. cc h)

  module _ (single : has_open_run st.runs.rows p.id ≡ false) where
    after_launch-Adds :
        (plan : Option CrawlPlan) (cells estimate : Option ℕ) (call : LaunchCall)
        → Adds p st.runs (after_launch (called st p plan) p plan cells estimate call now).0.runs
    unfolding after_launch
    after_launch-Adds plan cells estimate (raises e) =
        refuse-Adds plan (codes "launch failed: " ++ e)
    after_launch-Adds plan cells estimate (starts job cluster) =
        inr (started_run (some p.id) policy plan cells job cluster now, refl, refl, λ h. single)

    launch_direct-Adds :
        (script : Option Text) → Adds p st.runs (launch_direct w st p script now).0.runs
    unfolding launch_direct
    launch_direct-Adds none = refuse-Adds none (codes "refused: direct policy has no script")
    launch_direct-Adds (some []) = refuse-Adds none (codes "refused: direct policy has no script")
    launch_direct-Adds (some (c ∷ t)) = after_launch-Adds none none none (w.launch none p)

    launch_split-Adds :
        (plan : CrawlPlan) (o : Option (List CrawlPlan))
        → Adds p st.runs (launch_split w st p plan o now).0.runs
    unfolding launch_split
    launch_split-Adds plan none = inl refl
    launch_split-Adds plan (some []) = inr (
      ended_run (some p.id) policy success (some plan) now
          (codes "leasing: empty scope, nothing to enqueue"),
      refl,
      refl,
      λ h. cc h,
    )
    launch_split-Adds plan (some (it ∷ its)) = inr (
      started_run (some p.id) policy (some plan) plan.plan_cells (lease_ref p.id) none now,
      refl,
      refl,
      λ h. single,
    )

    launch_guarded-Adds :
        (plan : CrawlPlan) → Adds p st.runs (launch_guarded w st p plan now).0.runs
    unfolding launch_guarded
    launch_guarded-Adds plan =
        elim (Bool-cases (ltb w.max_fetches (estimate_fetches w.session plan) && not p.force)) [
          | inl big ↦ rw big (refuse-Adds (some plan) _)
          | inr fits ↦ rw fits (
              after_launch-Adds (some plan) plan.plan_cells (some (estimate_fetches w.session plan))
                (w.launch (some plan) p))
        ]

    launch_leasing-Adds :
        (plan : CrawlPlan) → Adds p st.runs (launch_leasing w st p plan now).0.runs
    unfolding launch_leasing
    launch_leasing-Adds plan = launch_split-Adds plan (split_plan w.session plan w.max_fetches)

    launch_planned-Adds :
        (o : Option CrawlPlan) → Adds p st.runs (launch_planned w st p o now).0.runs
    unfolding launch_planned
    launch_planned-Adds none = inl refl
    launch_planned-Adds (some plan) = elim (Bool-cases (p.launcher == codes "leasing")) [
      | inl l ↦ rw l (launch_leasing-Adds plan)
      | inr l ↦ rw l (launch_guarded-Adds plan)
    ]

  pub launch_free :
      has_open_run st.runs.rows p.id ≡ false
      → launch_policy w st p now ≡ (
          if p.executor == codes "direct"
          then launch_direct w st p p.script now
          else launch_planned w st p (plan_of w p now) now)
  unfolding launch_policy
  launch_free free = rw free refl

  free-Adds :
      has_open_run st.runs.rows p.id ≡ false
      → Adds p st.runs
          (if p.executor == codes "direct"
            then launch_direct w st p p.script now
            else launch_planned w st p (plan_of w p now) now).0.runs
  free-Adds free = elim (Bool-cases (p.executor == codes "direct")) [
    | inl d ↦ rw d (launch_direct-Adds free p.script)
    | inr d ↦ rw d (launch_planned-Adds free (plan_of w p now))
  ]

  pub launch_busy : has_open_run st.runs.rows p.id ≡ true → launch_policy w st p now ≡ (st, skipped)
  unfolding launch_policy
  launch_busy busy = rw busy refl

  launch_policy-Adds : Adds p st.runs (launch_policy w st p now).0.runs
  launch_policy-Adds = elim (Bool-cases (has_open_run st.runs.rows p.id)) [
    | inl busy ↦ inl (ap (λ x. x.0.runs) (launch_busy busy))
    | inr free ↦
        subst (λ (x : State × LaunchResult). Adds p st.runs x.0.runs) (sym (launch_free free))
          (free-Adds free)
  ]

  tick_window-Adds : (o : Option Text) → Adds p st.runs (tick_window w st p o now).0.runs
  unfolding tick_window
  tick_window-Adds (some frozen) = refuse-Adds none frozen
  tick_window-Adds none = launch_policy-Adds

  pub tick_policy-Adds : Adds p st.runs (tick_policy w st p now).0.runs
  unfolding tick_policy
  tick_policy-Adds = elim (Bool-cases (cron_due w.next_fire p now)) [
    | inl due ↦ rw due (tick_window-Adds (frozen_window p (w.local_date p.timezone now)))
    | inr idle ↦ rw idle (inl refl)
  ]

-- What every policy of the loop keeps holds after the loop.
pub tick_loop-keeps :
    (w : Environment) (now : ℕ) (P : State → Type 0) (ps : List CrawlPolicy)
    → ((st : State) (p : CrawlPolicy) → In p ps → P st → P (tick_policy w st p now).0)
    → (st : State) (closed : ℕ) → P st
    → P (tick_loop w st ps now closed).0
unfolding tick_loop
tick_loop-keeps w now P [] keep st closed h = h
tick_loop-keeps w now P (p ∷ ps) keep st closed h =
    let next = keep st p (inl refl) h in
    elim (Bool-cases (is_raised (tick_policy w st p now).1)) [
      | inl e ↦ rw e next
      | inr e ↦ rw e (
          tick_loop-keeps w now P ps (λ x q i. keep x q (inr i)) (tick_policy w st p now).0 closed
            next)
    ]
