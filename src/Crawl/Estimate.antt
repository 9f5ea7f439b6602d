-- ===== src/Crawl/Estimate.antt =====
-- The estimate of a plan's fetches (estimate_fetches of fd_open_data_mcp/refresh/reconciler.py).
use fd_open_data_mcp.Base.{
  length, nat_eq, list_eq, ◌==◌, Text, codes, Date, ℕ, ◌+◌, ◌*◌, Option, none, some, List, [], ◌∷◌,
  if◌then◌else◌,
}
use fd_open_data_mcp.Crawl.Plan.{PlanConcept, CrawlPlan}
use fd_open_data_mcp.Crawl.Split.{Session, plan_sources, fetchable_ids, concept_dates}

-- The entities of the type with an identifier for one of these sources, counted once each.
unfoldable pub identified : Session → Text → List Text → ℕ
unfolding fetchable_ids
identified session entity_type [] = 0
identified session entity_type (s ∷ ss) = length (fetchable_ids session entity_type (s ∷ ss))

-- An empty list of entities counts as none given.
unfoldable pub n_entities : Session → CrawlPlan → Option (List ℕ) → ℕ
unfolding identified plan_sources
n_entities session plan (some (i ∷ ids)) = length (i ∷ ids)
n_entities session plan (some []) =
    identified session plan.entity_scope.entity_type (plan_sources plan.wanted_concepts)
n_entities session plan none =
    identified session plan.entity_scope.entity_type (plan_sources plan.wanted_concepts)

unfoldable pub n_dates : CrawlPlan → Option Date → PlanConcept → ℕ
unfolding concept_dates
n_dates plan none pc = 1
n_dates plan (some start) pc =
    if plan.mode == codes "series" then 1 else concept_dates plan start pc

unfoldable pub total_fetches : CrawlPlan → ℕ → List PlanConcept → ℕ
unfolding n_dates
total_fetches plan entities [] = 0
total_fetches plan entities (pc ∷ pcs) =
    entities * n_dates plan plan.date_range.start pc + total_fetches plan entities pcs

unfoldable pub estimate_from : Session → CrawlPlan → Option ℕ → ℕ
unfolding n_entities total_fetches
estimate_from session plan (some cells) = cells
estimate_from session plan none =
    total_fetches plan (n_entities session plan plan.entity_scope.entity_ids) plan.wanted_concepts

unfoldable pub estimate_fetches : Session → CrawlPlan → ℕ
unfolding estimate_from
estimate_fetches session plan = estimate_from session plan plan.plan_cells
