-- ===== src/Refresh/Fleet.antt =====
-- The fleet of worker clusters: pick_cluster of fd_open_data_mcp/refresh/reconciler.py. A proxy
-- stands beside its cluster_id.
pub mod Choice
use fd_open_data_mcp.Base.{
  ltb, leb, nat_beq, if◌then◌else◌, get_default, filter_by, all_of, nat_eq, list_eq, pair_eq, Text,
  codes, contains, Dict, str, ℕ, suc, Bool, true, false, ◌&&◌, Option, none, some, List, [], ◌∷◌,
  ◌++◌,
}
use fd_open_data_mcp.Crawl.Plan.{CrawlPlan}
use fd_open_data_mcp.Crawl.Split.{plan_sources}
use fd_open_data_mcp.Proxy.Circuit.{Redis, is_selectable}
use fd_open_data_mcp.Proxy.Pool.{Proxy, is_direct, circuit_unit}
use fd_open_data_mcp.Refresh.Policy.{CrawlPolicy}
use fd_open_data_mcp.Refresh.Runs.{is_open, PolicyRun, LaunchCall, raises, starts}

pub record Cluster : Type 0 where
  pub id : ℕ
  pub name : Text
  pub tags : Option (List Text)
  pub capacity : ℕ
  pub enabled : Bool

pub record Fleet : Type 0 where
  pub clusters : List Cluster
  pub proxies : List (Option ℕ × Proxy)

unfoldable pub required_sources : Option CrawlPlan → Option CrawlPolicy → List Text
unfolding plan_sources
required_sources (some plan) policy = plan_sources plan.wanted_concepts
required_sources none (some policy) = get_default policy.source_filter []
required_sources none none = []

-- No tags stand for any source.
unfoldable pub covers : Option (List Text) → List Text → Bool
covers none sources = true
covers (some []) sources = true
covers (some (t ∷ ts)) sources = all_of (contains (t ∷ ts)) sources

abbrev pub is_of_cluster : ℕ → Option ℕ → Bool
is_of_cluster id none = false
is_of_cluster id (some i) = nat_beq i id

unfoldable pub open_runs_on : Dict ℕ PolicyRun → ℕ → ℕ
open_runs_on [] id = 0
open_runs_on ((k, run) ∷ rows) id =
    let rest = open_runs_on rows id in
    if is_of_cluster id run.cluster_id && is_open run.status then suc rest else rest

unfoldable pub direct_of : List (Option ℕ × Proxy) → ℕ → Option Proxy
direct_of [] id = none
direct_of ((c, p) ∷ ps) id = if is_direct p && is_of_cluster id c then some p else direct_of ps id

unfoldable pub egress_selectable : Redis → List Text → Option Proxy → Bool
egress_selectable redis sources none = true
egress_selectable redis sources (some direct) =
    all_of (λ src. is_selectable redis src (circuit_unit direct)) sources

unfoldable pub is_eligible : Redis → Fleet → Dict ℕ PolicyRun → List Text → Cluster → Bool
unfolding covers open_runs_on direct_of egress_selectable
is_eligible redis fleet rows sources c =
    c.enabled
    && (covers c.tags sources
        && (ltb (open_runs_on rows c.id) c.capacity
            && egress_selectable redis sources (direct_of fleet.proxies c.id)))

-- The stable sort by the open runs.
unfoldable pub insert_by_load : (Cluster → ℕ) → Cluster → List Cluster → List Cluster
insert_by_load load c [] = c ∷ []
insert_by_load load c (x ∷ xs) =
    let rest = insert_by_load load c xs in if leb (load c) (load x) then c ∷ x ∷ xs else x ∷ rest

unfoldable pub sort_by_load : (Cluster → ℕ) → List Cluster → List Cluster
unfolding insert_by_load
sort_by_load load [] = []
sort_by_load load (c ∷ cs) = insert_by_load load c (sort_by_load load cs)

unfoldable pub head_cluster : List Cluster → Option Cluster
head_cluster [] = none
head_cluster (c ∷ cs) = some c

unfoldable pub pick_cluster :
    Redis → Fleet → Dict ℕ PolicyRun → Option CrawlPlan → Option CrawlPolicy → Option Cluster
unfolding is_eligible sort_by_load head_cluster required_sources
pick_cluster redis fleet rows plan policy =
    let sources = required_sources plan policy in
    head_cluster (
      sort_by_load (λ c. open_runs_on rows c.id)
        (filter_by (is_eligible redis fleet rows sources) fleet.clusters))

-- The launch of MultiClusterLauncher: it raises where no cluster can be picked. `create` is what the
-- cluster's API gives for the job of this name: the text of an exception, or nothing.
unfoldable pub launch_on :
    (Cluster → Text → Option Text) → CrawlPolicy → Text → Option Cluster → LaunchCall
launch_on create policy stamp none = raises (
    codes
      "no eligible worker cluster for plan (check clusters table: enabled+tags, circuit state, capacity)")
launch_on create policy stamp (some c) =
    let name = codes "crawl-policy-" ++ (str policy.id ++ (45 ∷ stamp)) in
    elim (create c name) [ some e ↦ raises e | none ↦ starts (c.name ++ (47 ∷ name)) (some c.id) ]

unfoldable pub launch_multi :
    (Cluster → Text → Option Text)
    → Redis
    → Fleet
    → Dict ℕ PolicyRun
    → Text
    → Option CrawlPlan
    → CrawlPolicy
    → LaunchCall
unfolding pick_cluster launch_on
launch_multi create redis fleet rows stamp plan policy =
    launch_on create policy stamp (pick_cluster redis fleet rows plan (some policy))
