-- ===== src/Refresh/Events/Finality.antt =====
-- What no interleaving of the steps changes.
use fd_open_data_mcp.Base.{
  ltb, nat_beq_iff, Bool-cases, get_default, nat_eq, list_eq, pair_eq, ◌==◌, beq_refl, Text, Dict,
  get, put, get-put, ℕ, ◌≤◌, ◌≡◌, refl, sym, ap, ◌∙◌, subst, ◌⊎◌, inl, inr, true, false, Option,
  none, some, List, [], ◌∷◌, arith,
}
use fd_open_data_mcp.Crawl.Plan.{CrawlPlan}
use fd_open_data_mcp.Crawl.Split.{Session}
use fd_open_data_mcp.Crawl.Estimate.{estimate_fetches}
use fd_open_data_mcp.Stream.Lease.{Queue}
use fd_open_data_mcp.Refresh.Runs.{
  is_open, PolicyRun, Runs, add_run, LaunchCall, raises, starts, launch_with, launch_adhoc, Delete,
  closed, CancelResult, cancel_run, cancel_found, tear_down, cancel_open,
}
use fd_open_data_mcp.Refresh.Runs.Cancel.{cancel_run_rows, cancel_run_lem, tear_down-rows}
use fd_open_data_mcp.Refresh.Reconciler.{State, Environment}
use fd_open_data_mcp.Refresh.Reconciler.Probe.{probe_run}
use fd_open_data_mcp.Refresh.Reconciler.Tick.{reconcile_once}
use fd_open_data_mcp.Refresh.Reconciler.Launch.{is_open_run_of}
use fd_open_data_mcp.Refresh.Reconciler.Closing.{
  IsFresh, add_run-IsFresh, add_run-Kept, tick_rows, probed_lem,
}
use fd_open_data_mcp.Refresh.Reconciler.SingleFlight.{
  IsSingle, open_runs, open_runs-put, tick-IsSingle,
}
use fd_open_data_mcp.Refresh.Events.{
  Event, ticks, cancels, launches, works, restarts, runs_after, apply_event, apply_events,
}

-- The closed rows of the one table stand in the other, unchanged.
abbrev pub KeepsClosed : Dict ℕ PolicyRun → Dict ℕ PolicyRun → Type 0
KeepsClosed rows rows' =
    (k : ℕ) (r : PolicyRun) → get rows k ≡ some r → is_open r.status ≡ false → get rows' k ≡ some r

probe_run-closed :
    (w : Environment) (queues : Dict ℕ Queue) (now k : ℕ) (r : PolicyRun)
    → is_open r.status ≡ false
    → probe_run w queues now k r ≡ none
unfolding probe_run
probe_run-closed w queues now k r h = rw h refl

tick-KeepsClosed :
    (w : Environment) (st : State) (now : ℕ)
    → IsFresh st.runs
    → KeepsClosed st.runs.rows (reconcile_once w st now).0.runs.rows
tick-KeepsClosed w st now f k r h c =
    (tick_rows w st now f).1 k r h
    ∙ ap some (
        probed_lem w st.queues now k r
        ∙ ap (λ o. get_default o r) (probe_run-closed w st.queues now k r c))

cancel-KeepsClosed :
    (runs : Runs) (id : ℕ) (actor : Option Text) (launcher : Option Delete) (now : ℕ)
    → KeepsClosed runs.rows (cancel_run runs id actor launcher now).0.rows
cancel-KeepsClosed runs id actor launcher now k r h c =
    cancel_run_rows runs id k actor launcher now ∙ elim (Bool-cases (id == k)) [
      | inl e ↦ rw (e, ap (get runs.rows) ((nat_beq_iff id k).0 e), h, c) refl
      | inr e ↦ rw e h
    ]

-- What an ad-hoc launch adds: a row with no policy, or nothing.
abbrev AddsAdhoc : Runs → Runs → Type 0
AddsAdhoc runs runs' =
    (runs' ≡ runs) ⊎ ((r : PolicyRun) × (runs' ≡ add_run runs r) × (r.policy_id ≡ none))

launch-AddsAdhoc :
    (runs : Runs) (session : Session) (plan : CrawlPlan) (cap : ℕ) (call : LaunchCall) (now : ℕ)
    → AddsAdhoc runs (runs_after runs (launch_adhoc runs session plan cap call now))
unfolding launch_adhoc launch_with
launch-AddsAdhoc runs session plan cap (raises e) now =
    elim (Bool-cases (ltb cap (estimate_fetches session plan))) [
      | inl big ↦ rw big (inr (_, refl, refl))
      | inr fits ↦ rw fits (inl refl)
    ]
launch-AddsAdhoc runs session plan cap (starts job cluster) now =
    elim (Bool-cases (ltb cap (estimate_fetches session plan))) [
      | inl big ↦ rw big (inr (_, refl, refl))
      | inr fits ↦ rw fits (inr (_, refl, refl))
    ]

adhoc-KeepsClosed :
    (runs runs' : Runs) → AddsAdhoc runs runs' → IsFresh runs → KeepsClosed runs.rows runs'.rows
adhoc-KeepsClosed runs runs' (inl e) f = rw e (λ k r h c. h)
adhoc-KeepsClosed runs runs' (inr (s, e, own)) f = rw e (λ k r h c. add_run-Kept runs s f k r h)

no_policy : (i : ℕ) (r : PolicyRun) → r.policy_id ≡ none → is_open_run_of i r ≡ false
no_policy i r own = ground (arith, own)

adhoc-IsSingle : (runs runs' : Runs) → AddsAdhoc runs runs' → IsSingle runs → IsSingle runs'
adhoc-IsSingle runs runs' (inl e) h = subst IsSingle (sym e) h
adhoc-IsSingle runs runs' (inr (r, e, own)) (f, s) = subst IsSingle (sym e) (
  add_run-IsFresh runs r f,
  λ i.
      rw
        (open_runs-put i runs.rows runs.next_id r (f runs.next_id (omega arith)), no_policy i r own)
        (omega (arith, s i)),
)

not_open : (i : ℕ) (r : PolicyRun) → is_open r.status ≡ false → is_open_run_of i r ≡ false
not_open i r h = rw h refl

open_runs-put_closed :
    (i : ℕ) (rows : Dict ℕ PolicyRun) (k : ℕ) (r : PolicyRun)
    → is_open r.status ≡ false
    → open_runs i (put rows k r) ≤ open_runs i rows
unfolding put
open_runs-put_closed i [] k r h = rw (not_open i r h) (omega arith)
open_runs-put_closed i ((j, s) ∷ rows) k r h =
    ground (arith, open_runs-put_closed i rows k r h, not_open i r h)

-- A row is put at an id that the table has.
put-IsFresh :
    (runs : Runs) (k : ℕ) (r s : PolicyRun)
    → get runs.rows k ≡ some s
    → IsFresh runs
    → (j : ℕ) → runs.next_id ≤ j
    → get (put runs.rows k r) j ≡ none
put-IsFresh runs k r s h f j l =
    rw (get-put runs.rows k j r) (ground (arith, f j l, f k, h, nat_beq_iff k j))

tear_down-next_id :
    (st : Runs) (launcher : Option Delete) (job : Option Text)
    → (tear_down st launcher job).0.next_id ≡ st.next_id
unfolding tear_down
tear_down-next_id st none job = refl
tear_down-next_id st (some delete) none = refl
tear_down-next_id st (some delete) (some []) = refl
tear_down-next_id st (some delete) (some (c ∷ job)) = refl

-- A table that is single by its rows and its next id.
abbrev IsSingleOf : ℕ → Dict ℕ PolicyRun → Type 0
IsSingleOf next rows = ((k : ℕ) → next ≤ k → get rows k ≡ none) × ((i : ℕ) → open_runs i rows ≤ 1)

closed-status :
    (now : ℕ) (actor : Option Text) (r : PolicyRun) → is_open (closed now actor r).status ≡ false
unfolding closed
closed-status now actor r = refl

open-IsSingle :
    (runs : Runs) (id : ℕ) (r : PolicyRun) (actor : Option Text) (launcher : Option Delete)
    (now : ℕ)
    → get runs.rows id ≡ some r
    → IsSingle runs
    → IsSingle (cancel_open runs id r actor launcher now).0
unfolding cancel_open
open-IsSingle runs id r actor launcher now h (f, s) =
    let st' : Runs = record runs {
      rows = put runs.rows id (closed now actor r);
      mirrored = id ∷ runs.mirrored;
    } in
    subst
      (λ (rows : Dict ℕ PolicyRun). IsSingleOf (tear_down st' launcher r.job_ref).0.next_id rows)
      (sym (tear_down-rows st' launcher r.job_ref))
      (subst (λ (n : ℕ). IsSingleOf n (put runs.rows id (closed now actor r)))
        (sym (tear_down-next_id st' launcher r.job_ref))
        (
          put-IsFresh runs id (closed now actor r) r h f,
          λ i. omega (
            arith,
            s i,
            open_runs-put_closed i runs.rows id (closed now actor r) (closed-status now actor r),
          ),
        ))

found-IsSingle :
    (runs : Runs) (id : ℕ) (o : Option PolicyRun) (actor : Option Text) (launcher : Option Delete)
    (now : ℕ)
    → get runs.rows id ≡ o
    → IsSingle runs
    → IsSingle (cancel_found runs id o actor launcher now).0
unfolding cancel_found
found-IsSingle runs id none actor launcher now h s = s
found-IsSingle runs id (some r) actor launcher now h s = elim (Bool-cases (is_open r.status)) [
  | inl o ↦ rw o (open-IsSingle runs id r actor launcher now h s)
  | inr o ↦ rw o s
]

event-IsSingle : (e : Event) (st : State) → IsSingle st.runs → IsSingle (apply_event e st).runs
unfolding apply_event
event-IsSingle (ticks w now) st h = tick-IsSingle w st now h
event-IsSingle (cancels id actor launcher now) st h =
    subst (λ (x : Runs × CancelResult). IsSingle x.0)
      (sym (cancel_run_lem st.runs id actor launcher now))
      (found-IsSingle st.runs id (get st.runs.rows id) actor launcher now refl h)
event-IsSingle (launches w plan call now) st h =
    adhoc-IsSingle st.runs
      (runs_after st.runs (launch_adhoc st.runs w.session plan w.max_fetches call now))
      (launch-AddsAdhoc st.runs w.session plan w.max_fetches call now) h
event-IsSingle (works run_id op) st h = h
event-IsSingle restarts st h = h

-- However ticks, cancels, ad-hoc launches, the workers' operations and restarts of the process
-- interleave, a policy never has two open runs, if none has at the start.
pub one_open_run :
    (es : List Event) (st : State) → IsSingle st.runs → IsSingle (apply_events es st).runs
unfolding apply_events
one_open_run [] st h = h
one_open_run (e ∷ es) st h = one_open_run es (apply_event e st) (event-IsSingle e st h)

event-KeepsClosed :
    (e : Event) (st : State)
    → IsFresh st.runs
    → KeepsClosed st.runs.rows (apply_event e st).runs.rows
unfolding apply_event
event-KeepsClosed (ticks w now) st f = tick-KeepsClosed w st now f
event-KeepsClosed (cancels id actor launcher now) st f =
    cancel-KeepsClosed st.runs id actor launcher now
event-KeepsClosed (launches w plan call now) st f =
    adhoc-KeepsClosed st.runs
      (runs_after st.runs (launch_adhoc st.runs w.session plan w.max_fetches call now))
      (launch-AddsAdhoc st.runs w.session plan w.max_fetches call now) f
event-KeepsClosed (works run_id op) st f = λ k r h c. h
event-KeepsClosed restarts st f = λ k r h c. h

-- A run that is closed keeps its row for ever, however the steps interleave.
pub closed_final :
    (es : List Event) (st : State)
    → IsSingle st.runs
    → KeepsClosed st.runs.rows (apply_events es st).runs.rows
unfolding apply_events
closed_final [] st s k r h c = h
closed_final (e ∷ es) st s k r h c =
    closed_final es (apply_event e st) (event-IsSingle e st s) k r
      (event-KeepsClosed e st s.0 k r h c) c

cancel_row :
    (st : State) (k : ℕ) (r : PolicyRun) (actor : Option Text) (launcher : Option Delete) (now : ℕ)
    → get st.runs.rows k ≡ some r
    → is_open r.status ≡ true
    → get (apply_event (cancels k actor launcher now) st).runs.rows k ≡ some (closed now actor r)
unfolding apply_event
cancel_row st k r actor launcher now h o =
    cancel_run_rows st.runs k k actor launcher now ∙ rw (beq_refl k, h, o) refl

-- A run that is open when it is cancelled keeps the row of the cancel, whatever steps follow: no
-- later tick, cancel or launch closes it again, reopens it or writes over its detail.
pub cancelled_final :
    (es : List Event) (st : State) (k : ℕ) (r : PolicyRun) (actor : Option Text)
    (launcher : Option Delete) (now : ℕ)
    → IsSingle st.runs
    → get st.runs.rows k ≡ some r
    → is_open r.status ≡ true
    → get (apply_events (cancels k actor launcher now ∷ es) st).runs.rows k
      ≡ some (closed now actor r)
unfolding apply_events
cancelled_final es st k r actor launcher now s h o =
    let e = cancels k actor launcher now in
    closed_final es (apply_event e st) (event-IsSingle e st s) k (closed now actor r)
      (cancel_row st k r actor launcher now h o) (closed-status now actor r)
