-- ===== src/Crawl/Plan.antt =====
-- The crawl plan, the planner's contract with the executor (fd_open_data_mcp/crawl/plan.py).
-- Scores and confidences are thousandths, dates are parsed, and the reports are lists of dicts.
use fd_open_data_mcp.Base.{nat_eq, list_eq, pair_eq, Text, Dict, Date, ℕ, Bool, Option, List}

abbrev pub Report : Type 0
Report = List (Dict Text Text)

pub record PlanSource : Type 0 where
  pub source : Text
  pub score : ℕ
  pub function_id : ℕ
  pub function_command : Text
  pub column_name : Text
  pub binding_id : ℕ
  pub confidence : ℕ
  pub bulk_snapshot : Bool

pub record PlanConcept : Type 0 where
  pub concept_id : ℕ
  pub code : Text
  pub entity_type : Text
  pub unit : Option Text
  pub frequency : Option Text
  pub granularity : Option Text
  pub ranked_sources : List PlanSource

pub record EntityScope : Type 0 where
  pub entity_type : Text
  pub entity_ids : Option (List ℕ)
  pub filter : Option Text

pub record DateRange : Type 0 where
  pub start : Option Date
  pub end : Date
  pub frequency : Option Text

pub record CrawlPlan : Type 0 where
  pub version : Text
  pub mode : Text
  pub wanted_concepts : List PlanConcept
  pub entity_scope : EntityScope
  pub date_range : DateRange
  pub unroutable : Report
  pub unmapped : Report
  pub truncated : Report
  pub suppressed : Report
  pub persistence : Dict Text Text
  pub plan_cells : Option ℕ
