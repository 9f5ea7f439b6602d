-- ===== src/Refresh/Fleet/Choice.antt =====
-- Which cluster is picked.
use fd_open_data_mcp.Base.{
  leb, leb→le, Bool-cases, filter_by, In, In-filter_by, nat_eq, list_eq, pair_eq, Text, codes, Dict,
  get, put, str, ℕ, suc, ◌≤◌, ◌<◌, ◌≡◌, refl, sym, ap, subst, ◌↔◌, ◌⊎◌, inl, inr, Bool, true, false,
  Option, none, some, List, [], ◌∷◌, ◌++◌, arith,
}
use fd_open_data_mcp.Crawl.Plan.{CrawlPlan}
use fd_open_data_mcp.Proxy.Circuit.{Redis}
use fd_open_data_mcp.Refresh.Policy.{CrawlPolicy}
use fd_open_data_mcp.Refresh.Runs.{
  PolicyRun, Origin, Runs, LaunchCall, raises, starts, add_run, started_run,
}
use fd_open_data_mcp.Refresh.Reconciler.Closing.{IsFresh}
use fd_open_data_mcp.Refresh.Fleet.{
  Cluster, Fleet, open_runs_on, is_eligible, required_sources, insert_by_load, sort_by_load,
  head_cluster, pick_cluster, launch_on, launch_multi,
}

module _ (load : Cluster → ℕ) where
  abbrev IsLeast : Cluster → List Cluster → Type 0
  IsLeast c cs = (d : Cluster) → In d cs → load c ≤ load d

  In-insert_by_load :
      (d c : Cluster) (cs : List Cluster) → In d (insert_by_load load c cs) ↔ ((d ≡ c) ⊎ In d cs)
  unfolding insert_by_load
  In-insert_by_load d c [] = ground arith
  In-insert_by_load d c (x ∷ xs) = ground (arith, In-insert_by_load d c xs)

  In-sort_by_load : (d : Cluster) (cs : List Cluster) → In d (sort_by_load load cs) ↔ In d cs
  unfolding sort_by_load
  In-sort_by_load d [] = ground arith
  In-sort_by_load d (c ∷ cs) =
      ground (arith, In-insert_by_load d c (sort_by_load load cs), In-sort_by_load d cs)

  abbrev IsSorted : List Cluster → Type 0
  IsSorted [] = Unit
  IsSorted (c ∷ cs) = IsLeast c cs × IsSorted cs

  insert_by_load-IsSorted :
      (c : Cluster) (cs : List Cluster) → IsSorted cs → IsSorted (insert_by_load load c cs)
  unfolding insert_by_load
  insert_by_load-IsSorted c [] s = (λ d i. absurd i, tt)
  insert_by_load-IsSorted c (x ∷ xs) (l, s) = elim (Bool-cases (leb (load c) (load x))) [
    | inl e ↦ rw e (
      λ d i. elim i [
        | inl q ↦ rw q (leb→le (load c) (load x) e)
        | inr j ↦ omega (arith, l d j, leb→le (load c) (load x) e)
      ],
      (l, s),
    )
    | inr e ↦ rw e (
      λ d i. elim ((In-insert_by_load d c xs).0 i) [
        | inl q ↦ rw q (ground (arith, e))
        | inr j ↦ l d j
      ],
      insert_by_load-IsSorted c xs s,
    )
  ]

  sort_by_load-IsSorted : (cs : List Cluster) → IsSorted (sort_by_load load cs)
  unfolding sort_by_load
  sort_by_load-IsSorted [] = tt
  sort_by_load-IsSorted (c ∷ cs) =
      insert_by_load-IsSorted c (sort_by_load load cs) (sort_by_load-IsSorted cs)

-- A cluster of the fleet that is eligible and has the least open runs of these; or none is eligible.
abbrev pub Picks : Redis → Fleet → Dict ℕ PolicyRun → List Text → Option Cluster → Type 0
Picks redis fleet rows sources none =
    (c : Cluster) → In c fleet.clusters → is_eligible redis fleet rows sources c ≡ false
Picks redis fleet rows sources (some c) =
    In c fleet.clusters
    × (is_eligible redis fleet rows sources c ≡ true)
    × ((d : Cluster)
        → In d fleet.clusters
        → is_eligible redis fleet rows sources d ≡ true
        → open_runs_on rows c.id ≤ open_runs_on rows d.id)

head_cluster-Picks :
    (redis : Redis) (fleet : Fleet) (rows : Dict ℕ PolicyRun) (sources : List Text)
    (cs : List Cluster)
    → IsSorted (λ c. open_runs_on rows c.id) cs
    → ((d : Cluster)
        → In d cs ↔ (In d fleet.clusters × (is_eligible redis fleet rows sources d ≡ true)))
    → Picks redis fleet rows sources (head_cluster cs)
unfolding head_cluster
head_cluster-Picks redis fleet rows sources [] s m = λ c i.
    elim (Bool-cases (is_eligible redis fleet rows sources c)) [
      | inl e ↦ absurd ((m c).1 (i, e))
      | inr e ↦ e
    ]
head_cluster-Picks redis fleet rows sources (c ∷ cs) (l, s) m =
    let (i, e) = (m c).0 (inl refl) in
    (i, e, λ d j q. elim ((m d).1 (j, q)) [ inl same ↦ rw same (omega arith) | inr k ↦ l d k ])

-- The cluster that is picked is one of the fleet, enabled, with tags that cover the required
-- sources, with room, and with an egress that no required source has banned; and of all such
-- clusters none has fewer open runs. If no cluster is picked, there is none such.
pub pick_least_loaded :
    (redis : Redis) (fleet : Fleet) (rows : Dict ℕ PolicyRun) (plan : Option CrawlPlan)
    (policy : Option CrawlPolicy)
    → Picks redis fleet rows
        (required_sources plan policy)
        (pick_cluster redis fleet rows plan policy)
unfolding pick_cluster
pick_least_loaded redis fleet rows plan policy =
    let sources = required_sources plan policy in
    let load : Cluster → ℕ = λ c. open_runs_on rows c.id in
    let able = filter_by (is_eligible redis fleet rows sources) fleet.clusters in
    head_cluster-Picks redis fleet rows sources (sort_by_load load able)
      (sort_by_load-IsSorted load able)
      (λ d. ground (
        arith,
        In-sort_by_load load d able,
        In-filter_by (is_eligible redis fleet rows sources) d fleet.clusters,
      ))

eligible-room :
    (redis : Redis) (fleet : Fleet) (rows : Dict ℕ PolicyRun) (sources : List Text) (c : Cluster)
    → is_eligible redis fleet rows sources c ≡ true
    → open_runs_on rows c.id < c.capacity
unfolding is_eligible
eligible-room redis fleet rows sources c h = ground (arith, h)

open_runs_on-put :
    (id : ℕ) (rows : Dict ℕ PolicyRun) (k : ℕ) (r : PolicyRun)
    → get rows k ≡ none
    → open_runs_on (put rows k r) id ≤ suc (open_runs_on rows id)
unfolding get put open_runs_on
open_runs_on-put id [] k r h = ground arith
open_runs_on-put id ((j, s) ∷ rows) k r h = ground (arith, open_runs_on-put id rows k r)

is_started : LaunchCall → Bool
is_started (raises e) = false
is_started (starts job cluster) = true

cluster_of : LaunchCall → Option ℕ
cluster_of (raises e) = none
cluster_of (starts job cluster) = cluster

not_started : {e job : Text} {cluster : Option ℕ} → raises e ≡ starts job cluster → ⊥
unfolding is_started
not_started h = absurd (cc (ap is_started h))

-- A launch that starts a job on the cluster that was picked names that cluster.
launch_on-starts :
    (create : Cluster → Text → Option Text) (policy : CrawlPolicy) (stamp job : Text)
    (o : Option Cluster) (cluster : Option ℕ)
    → launch_on create policy stamp o ≡ starts job cluster
    → (c : Cluster) × (o ≡ some c) × (cluster ≡ some c.id)
unfolding launch_on cluster_of
launch_on-starts create policy stamp job none cluster h = absurd (not_started h)
launch_on-starts create policy stamp job (some c) cluster h =
    (c, refl, created (create c (codes "crawl-policy-" ++ (str policy.id ++ (45 ∷ stamp)))) h)
  where
    created :
        (o : Option Text)
        → elim o [
          | some e ↦ raises e
          | none ↦
              starts
                (c.name ++ (47 ∷ (codes "crawl-policy-" ++ (str policy.id ++ (45 ∷ stamp)))))
                (some c.id)
        ]
          ≡ starts job cluster
        → cluster ≡ some c.id
    created none e = sym (ap cluster_of e)
    created (some x) e = absurd (not_started e)

-- A launch onto the fleet that starts a job leaves the cluster of the job within its capacity, once
-- the run is recorded: its open runs are then no more than it allows.
pub capacity_kept :
    (create : Cluster → Text → Option Text) (redis : Redis) (fleet : Fleet) (runs : Runs)
    (stamp job : Text) (plan : Option CrawlPlan) (policy : CrawlPolicy) (cluster cells : Option ℕ)
    (origin : Origin) (now : ℕ)
    → IsFresh runs
    → launch_multi create redis fleet runs.rows stamp plan policy ≡ starts job cluster
    → (c : Cluster) × In c fleet.clusters
      × (cluster ≡ some c.id)
      × (open_runs_on
            (add_run runs (started_run (some policy.id) origin plan cells job cluster now)).rows
            c.id
          ≤ c.capacity)
unfolding launch_multi
capacity_kept create redis fleet runs stamp job plan policy cluster cells origin now f h =
    let picked = pick_cluster redis fleet runs.rows plan (some policy) in
    let (c, e, q) = launch_on-starts create policy stamp job picked cluster h in
    let (i, able, least) =
      subst (Picks redis fleet runs.rows (required_sources plan (some policy))) e
        (pick_least_loaded redis fleet runs.rows plan (some policy)) in
    let room = eligible-room redis fleet runs.rows (required_sources plan (some policy)) c able in
    let more =
      open_runs_on-put c.id runs.rows runs.next_id
        (started_run (some policy.id) origin plan cells job cluster now)
        (f runs.next_id (omega arith)) in
    (c, i, q, omega (arith, room, more))
