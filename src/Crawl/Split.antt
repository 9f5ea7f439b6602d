-- ===== src/Crawl/Split.antt =====
-- Splitting a plan into work items by entity (fd_open_data_mcp/crawl/split.py), with the date count
-- of refresh/reconciler.py. `none` is an exception that the code raises.
pub mod Chunks
pub mod Partition
use fd_open_data_mcp.Crawl.Plan.{PlanConcept, CrawlPlan}
use fd_open_data_mcp.Base.{
  ltb, nat_beq, if◌then◌else◌, get_default, map_option, length, take, drop, filter_by, nat_eq,
  list_eq, pair_eq, ◌==◌, list_beq, Text, codes, contains, Date, date_lt, ordinal, sorted_set, ℕ,
  zero, suc, ◌+◌, ◌-◌, ◌*◌, ◌/◌, max, Bool, ◌&&◌, Option, none, some, List, [], ◌∷◌, ◌++◌, map,
}

-- A row of the table of identifiers.
pub record EntitySourceIdentifier : Type 0 where
  pub entity_type : Text
  pub entity_id : ℕ
  pub source : Text

abbrev pub Session : Type 0
Session = List EntitySourceIdentifier

abbrev pub concat {ℓ} : {A : Type ℓ} → List (List A) → List A
concat [] = []
concat (x ∷ xs) = x ++ concat xs

unfoldable pub plan_sources : List PlanConcept → List Text
plan_sources [] = []
plan_sources (pc ∷ pcs) = map (λ rs. rs.source) pc.ranked_sources ++ plan_sources pcs

unfoldable pub fetchable_ids : Session → Text → List Text → List ℕ
fetchable_ids session entity_type sources = sorted_set (
    map (λ r. r.entity_id)
      (filter_by (λ r. r.entity_type == entity_type && contains sources r.source) session))

unfoldable resolve_scope : Session → CrawlPlan → Option (List ℕ) → List Text → List ℕ
unfolding fetchable_ids
resolve_scope session plan (some ids) sources = sorted_set ids
resolve_scope session plan none [] = []
resolve_scope session plan none (s ∷ ss) =
    fetchable_ids session plan.entity_scope.entity_type (s ∷ ss)

unfoldable pub resolve_entity_ids : Session → CrawlPlan → List ℕ
unfolding resolve_scope plan_sources
resolve_entity_ids session plan =
    resolve_scope session plan plan.entity_scope.entity_ids (plan_sources plan.wanted_concepts)

-- `range(i, n, step)`; the fuel is at least n - i.
unfoldable range_by : ℕ → ℕ → ℕ → ℕ → List ℕ
range_by zero i n step = []
range_by (suc f) i n step =
    let rest = range_by f (i + step) n step in if ltb i n then i ∷ rest else []

-- `ids[i:i + size]`
abbrev pub slice : List ℕ → ℕ → ℕ → List ℕ
slice ids size i = take size (drop i ids)

unfoldable pub chunk_ids : List ℕ → ℕ → Option (List (List ℕ))
unfolding range_by
chunk_ids ids max_per_item =
    if ltb max_per_item 1
    then none
    else some (map (slice ids max_per_item) (range_by (length ids) 0 (length ids) max_per_item))

-- The count of fetch dates from the earlier day to the later one.
unfoldable ordered_date_count : Date → Date → Option Text → ℕ
unfolding ordinal
ordered_date_count s e frequency =
    if list_beq (get_default frequency []) (codes "yearly")
    then e.year - s.year + 1
    else if list_beq (get_default frequency []) (codes "monthly")
    then (e.year * 12 + e.month) - (s.year * 12 + s.month) + 1
    else ordinal e - ordinal s + 1

unfoldable pub date_count : Date → Date → Option Text → ℕ
unfolding date_lt ordered_date_count
date_count s e frequency =
    if date_lt e s then ordered_date_count e s frequency else ordered_date_count s e frequency

-- `max(...)` of a sequence, which raises on an empty one.
unfoldable pub max_of : List ℕ → Option ℕ
max_of [] = none
max_of (x ∷ []) = some x
max_of (x ∷ y ∷ xs) = map_option (max x) (max_of (y ∷ xs))

-- `frequency or default`, where an empty text counts as absent.
unfoldable text_or : Option Text → Option Text → Option Text
text_or (some (c ∷ t)) default = some (c ∷ t)
text_or (some []) default = default
text_or none default = default

abbrev pub or_one : ℕ → ℕ
or_one n = if nat_beq n 0 then 1 else n

unfoldable pub concept_dates : CrawlPlan → Date → PlanConcept → ℕ
unfolding text_or date_count
concept_dates plan start pc =
    date_count start plan.date_range.end (text_or pc.frequency plan.date_range.frequency)

unfoldable date_cells_from : CrawlPlan → Option Date → Option ℕ
unfolding max_of concept_dates
date_cells_from plan none = some 1
date_cells_from plan (some start) =
    map_option or_one (max_of (map (concept_dates plan start) plan.wanted_concepts))

unfoldable pub date_cells : CrawlPlan → Option ℕ
unfolding date_cells_from
date_cells plan =
    if plan.mode == codes "series" then some 1 else date_cells_from plan plan.date_range.start

unfoldable pub estimate_per_entity : CrawlPlan → Option ℕ
unfolding date_cells
estimate_per_entity plan =
    map_option (λ n. max 1 (n * length plan.wanted_concepts)) (date_cells plan)

-- The sub-plan of one group of entities.
unfoldable pub sub_plan : CrawlPlan → ℕ → List ℕ → CrawlPlan
sub_plan plan per_entity group = record plan {
  entity_scope = record {
    entity_type = plan.entity_scope.entity_type;
    entity_ids = some group;
    filter = none;
  };
  plan_cells =
      some (if plan.mode == codes "series" then length group else length group * per_entity);
}

unfoldable pub split_by : CrawlPlan → List ℕ → ℕ → ℕ → Option (List CrawlPlan)
unfolding chunk_ids sub_plan
split_by plan ids max_cells_per_item per_entity =
    map_option (map (sub_plan plan per_entity))
      (chunk_ids ids (max 1 (max_cells_per_item / per_entity)))

unfoldable pub split_from :
    CrawlPlan → ℕ → List ℕ → List PlanConcept → Option ℕ → Option (List CrawlPlan)
unfolding split_by
split_from plan max_cells_per_item [] pcs estimate = some []
split_from plan max_cells_per_item (i ∷ ids) [] estimate = some []
split_from plan max_cells_per_item (i ∷ ids) (pc ∷ pcs) none = none
split_from plan max_cells_per_item (i ∷ ids) (pc ∷ pcs) (some per_entity) =
    split_by plan (i ∷ ids) max_cells_per_item per_entity

unfoldable pub split_plan : Session → CrawlPlan → ℕ → Option (List CrawlPlan)
unfolding resolve_entity_ids estimate_per_entity split_from
split_plan session plan max_cells_per_item =
    split_from plan max_cells_per_item (resolve_entity_ids session plan) plan.wanted_concepts
      (estimate_per_entity plan)

abbrev pub scope_ids : CrawlPlan → List ℕ
scope_ids it = get_default it.entity_scope.entity_ids []

unfoldable pub verify_partition : List ℕ → List CrawlPlan → Bool
unfolding sorted_set
verify_partition original_ids items =
    let seen = concat (map scope_ids items) in
    nat_beq (length seen) (length (sorted_set seen))
    && list_beq (sorted_set seen) (sorted_set original_ids)
