-- ===== src/Refresh/Reconciler/Guardrail.antt =====
-- The launch calls of a tick.
use fd_open_data_mcp.Base.{
  ltb, if◌then◌else◌, Bool-cases, filter_by, In, In-filter_by, nat_eq, list_eq, pair_eq, ◌==◌, Text,
  codes, ℕ, ◌≤◌, ◌≡◌, refl, sym, ap, subst, ◌⊎◌, inl, inr, Bool, true, false, not, ◌&&◌, Option,
  none, some, List, [], ◌∷◌, arith,
}
use fd_open_data_mcp.Crawl.Plan.{CrawlPlan}
use fd_open_data_mcp.Crawl.Split.{split_plan}
use fd_open_data_mcp.Crawl.Estimate.{estimate_fetches}
use fd_open_data_mcp.Refresh.Policy.{CrawlPolicy, frozen_window, cron_due}
use fd_open_data_mcp.Refresh.Runs.{LaunchCall, raises, starts}
use fd_open_data_mcp.Refresh.Reconciler.{State, Environment}
use fd_open_data_mcp.Refresh.Reconciler.Probe.{probe}
use fd_open_data_mcp.Refresh.Reconciler.Launch.{
  LaunchResult, has_open_run, refuse, after_launch, launch_direct, enqueue_items, launch_split,
  launch_leasing, launch_job, launch_guarded, launch_planned, plan_of, launch_policy, called,
}
use fd_open_data_mcp.Refresh.Reconciler.Tick.{
  values, tick_window, tick_policy, tick_loop, reconcile_once,
}
use fd_open_data_mcp.Refresh.Reconciler.Rows.{launch_free, launch_busy, tick_loop-keeps}

-- The plan that a launch call may carry: none for a script, else the planner's, within the limit
-- or forced, and not of a policy whose items are leased.
abbrev pub Fits : Environment → ℕ → CrawlPolicy → Option CrawlPlan → Type 0
Fits w now p none = (p.executor == codes "direct") ≡ true
Fits w now p (some plan) =
    (plan_of w p now ≡ some plan)
    × ((p.executor == codes "direct") ≡ false)
    × ((p.launcher == codes "leasing") ≡ false)
    × ((estimate_fetches w.session plan ≤ w.max_fetches) ⊎ (p.force ≡ true))

abbrev pub Calls : Type 0
Calls = List (CrawlPolicy × Option CrawlPlan)

-- At most one call is made, and it fits.
abbrev pub MayCall : Environment → ℕ → CrawlPolicy → Calls → Calls → Type 0
MayCall w now p calls calls' =
    (calls' ≡ calls) ⊎ ((o : Option CrawlPlan) × (calls' ≡ (p, o) ∷ calls) × Fits w now p o)

after_launch-calls :
    (st : State) (p : CrawlPolicy) (plan : Option CrawlPlan) (cells estimate : Option ℕ)
    (call : LaunchCall) (now : ℕ)
    → (after_launch st p plan cells estimate call now).0.launch_calls ≡ st.launch_calls
unfolding after_launch
after_launch-calls st p plan cells estimate (raises e) now = refl
after_launch-calls st p plan cells estimate (starts job cluster) now = refl

enqueue_items-calls :
    (w : Environment) (st : State) (p : CrawlPolicy) (plan : CrawlPlan) (items : List CrawlPlan)
    (now : ℕ)
    → (enqueue_items w st p plan items now).0.launch_calls ≡ st.launch_calls
unfolding enqueue_items
enqueue_items-calls w st p plan [] now = refl
enqueue_items-calls w st p plan (it ∷ its) now = refl

within :
    (estimate limit : ℕ) (force : Bool)
    → (ltb limit estimate && not force) ≡ false
    → (estimate ≤ limit) ⊎ (force ≡ true)
within estimate limit true h = inr refl
within estimate limit false h = inl (ground (arith, h))

module _ (w : Environment) (st : State) (p : CrawlPolicy) (now : ℕ) where
  split-calls :
      (plan : CrawlPlan) (o : Option (List CrawlPlan))
      → (launch_split w st p plan o now).0.launch_calls ≡ st.launch_calls
  unfolding launch_split
  split-calls plan none = refl
  split-calls plan (some items) = enqueue_items-calls w st p plan items now

  leasing-calls :
      (plan : CrawlPlan) → (launch_leasing w st p plan now).0.launch_calls ≡ st.launch_calls
  unfolding launch_leasing
  leasing-calls plan = split-calls plan (split_plan w.session plan w.max_fetches)

  direct-calls :
      (script : Option Text)
      → (p.executor == codes "direct") ≡ true
      → MayCall w now p st.launch_calls (launch_direct w st p script now).0.launch_calls
  unfolding launch_direct
  direct-calls none d = inl refl
  direct-calls (some []) d = inl refl
  direct-calls (some (c ∷ t)) d =
      inr (none, after_launch-calls (called st p none) p none none none (w.launch none p) now, d)

  guarded-calls :
      (plan : CrawlPlan)
      → plan_of w p now ≡ some plan
      → (p.executor == codes "direct") ≡ false
      → (p.launcher == codes "leasing") ≡ false
      → MayCall w now p st.launch_calls (launch_guarded w st p plan now).0.launch_calls
  unfolding launch_guarded launch_job refuse
  guarded-calls plan e d l =
      elim (Bool-cases (ltb w.max_fetches (estimate_fetches w.session plan) && not p.force)) [
        | inl big ↦ rw big (inl refl)
        | inr fits ↦ rw fits (
            inr (
              some plan,
              after_launch-calls (called st p (some plan)) p (some plan) plan.plan_cells
                  (some (estimate_fetches w.session plan)) (w.launch (some plan) p) now,
              (e, d, l, within (estimate_fetches w.session plan) w.max_fetches p.force fits),
            ))
      ]

  planned-calls :
      (o : Option CrawlPlan)
      → plan_of w p now ≡ o
      → (p.executor == codes "direct") ≡ false
      → MayCall w now p st.launch_calls (launch_planned w st p o now).0.launch_calls
  unfolding launch_planned
  planned-calls none e d = inl refl
  planned-calls (some plan) e d = elim (Bool-cases (p.launcher == codes "leasing")) [
    | inl l ↦ rw l (inl (leasing-calls plan))
    | inr l ↦ rw l (guarded-calls plan e d l)
  ]

  free-calls :
      MayCall w now p st.launch_calls
        (if p.executor == codes "direct"
          then launch_direct w st p p.script now
          else launch_planned w st p (plan_of w p now) now).0.launch_calls
  free-calls = go (p.executor == codes "direct") refl
    where
      go :
          (b : Bool)
          → (p.executor == codes "direct") ≡ b
          → MayCall w now p st.launch_calls
              (if b
                then launch_direct w st p p.script now
                else launch_planned w st p (plan_of w p now) now).0.launch_calls
      go true e = direct-calls p.script e
      go false e = planned-calls (plan_of w p now) refl e

  launch-calls : MayCall w now p st.launch_calls (launch_policy w st p now).0.launch_calls
  launch-calls = elim (Bool-cases (has_open_run st.runs.rows p.id)) [
    | inl busy ↦ inl (ap (λ x. x.0.launch_calls) (launch_busy w st p now busy))
    | inr free ↦
        subst (λ (x : State × LaunchResult). MayCall w now p st.launch_calls x.0.launch_calls)
          (sym (launch_free w st p now free)) free-calls
  ]

-- A call that a tick may make: its policy is enabled and due, its window has not ended, and the
-- plan fits.
abbrev pub IsAllowed : Environment → ℕ → CrawlPolicy × Option CrawlPlan → Type 0
IsAllowed w now (p, o) =
    (p.enabled ≡ true)
    × (cron_due w.next_fire p now ≡ true)
    × (frozen_window p (w.local_date p.timezone now) ≡ none)
    × Fits w now p o

-- Every new call is allowed.
abbrev Grows : Environment → ℕ → Calls → Calls → Type 0
Grows w now calls calls' =
    (c : CrawlPolicy × Option CrawlPlan) → In c calls' → In c calls ⊎ IsAllowed w now c

grown :
    (w : Environment) (now : ℕ) (p : CrawlPolicy) (calls calls' : Calls)
    → p.enabled ≡ true
    → cron_due w.next_fire p now ≡ true
    → frozen_window p (w.local_date p.timezone now) ≡ none
    → MayCall w now p calls calls'
    → Grows w now calls calls'
grown w now p calls calls' on due live (inl e) = subst (Grows w now calls) (sym e) (λ c i. inl i)
grown w now p calls calls' on due live (inr (o, e, fits)) = subst (Grows w now calls) (sym e) new
  where
    new : Grows w now calls ((p, o) ∷ calls)
    new c (inl i) = inr (subst (IsAllowed w now) (sym i) (on, due, live, fits))
    new c (inr i) = inl i

window-calls :
    (w : Environment) (st : State) (p : CrawlPolicy) (now : ℕ) (o : Option Text)
    → p.enabled ≡ true
    → cron_due w.next_fire p now ≡ true
    → frozen_window p (w.local_date p.timezone now) ≡ o
    → Grows w now st.launch_calls (tick_window w st p o now).0.launch_calls
unfolding tick_window refuse
window-calls w st p now (some frozen) on due e = λ c i. inl i
window-calls w st p now none on due e =
    grown w now p st.launch_calls (launch_policy w st p now).0.launch_calls on due e
      (launch-calls w st p now)

tick_policy-due :
    (w : Environment) (st : State) (p : CrawlPolicy) (now : ℕ)
    → cron_due w.next_fire p now ≡ true
    → (tick_policy w st p now).0
      ≡ (tick_window w st p (frozen_window p (w.local_date p.timezone now)) now).0
unfolding tick_policy
tick_policy-due w st p now due = rw due refl

tick_policy-idle :
    (w : Environment) (st : State) (p : CrawlPolicy) (now : ℕ)
    → cron_due w.next_fire p now ≡ false
    → (tick_policy w st p now).0 ≡ st
unfolding tick_policy
tick_policy-idle w st p now idle = rw idle refl

policy-calls :
    (w : Environment) (st : State) (p : CrawlPolicy) (now : ℕ)
    → p.enabled ≡ true
    → Grows w now st.launch_calls (tick_policy w st p now).0.launch_calls
policy-calls w st p now on = elim (Bool-cases (cron_due w.next_fire p now)) [
  | inl due ↦
      subst (λ (x : State). Grows w now st.launch_calls x.launch_calls)
        (sym (tick_policy-due w st p now due))
        (window-calls w st p now (frozen_window p (w.local_date p.timezone now)) on due refl)
  | inr idle ↦
      subst (λ (x : State). Grows w now st.launch_calls x.launch_calls)
        (sym (tick_policy-idle w st p now idle)) (λ c i. inl i)
]

probe-calls :
    (w : Environment) (now : ℕ) (st : State) → (probe w now st).1.launch_calls ≡ st.launch_calls
unfolding probe
probe-calls w now st = refl

loop-calls :
    (w : Environment) (now : ℕ) (calls : Calls) (ps : List CrawlPolicy) (st : State) (closed : ℕ)
    → Grows w now calls st.launch_calls
    → Grows w now calls (tick_loop w st (filter_by (λ p. p.enabled) ps) now closed).0.launch_calls
loop-calls w now calls ps st closed =
    tick_loop-keeps w now (λ (x : State). Grows w now calls x.launch_calls)
      (filter_by (λ p. p.enabled) ps)
      (λ x p i old c j. step x p ((In-filter_by (λ p. p.enabled) p ps).0 i).1 old c j) st closed
  where
    step :
        (x : State) (p : CrawlPolicy)
        → p.enabled ≡ true
        → Grows w now calls x.launch_calls
        → Grows w now calls (tick_policy w x p now).0.launch_calls
    step x p on old c j = elim (policy-calls w x p now on c j) [ inl i ↦ old c i | inr a ↦ inr a ]

-- Each launch call that a tick makes is for a policy that is enabled and due and whose window has
-- not ended. It carries no plan for a script; else it carries the planner's plan of that policy for
-- its local day, the policy does not lease its items, and the plan's estimate is at most the limit
-- or the policy forces it.
pub tick_calls :
    (w : Environment) (st : State) (now : ℕ) (c : CrawlPolicy × Option CrawlPlan)
    → In c (reconcile_once w st now).0.launch_calls
    → In c st.launch_calls ⊎ IsAllowed w now c
unfolding reconcile_once
tick_calls w st now c =
    let after = (probe w now st).1 in
    loop-calls w now st.launch_calls (values after.policies) after (probe w now st).0
      (λ d i. inl (subst (In d) (probe-calls w now st) i)) c
