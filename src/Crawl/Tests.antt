-- ===== src/Crawl/Tests.antt =====
-- A plan split into work items at concrete inputs.
use fd_open_data_mcp.Base.{
  map_option, nat_eq, list_eq, pair_eq, codes, sorted_set, ℕ, ◌≡◌, refl, true, false, none, some,
  List, [], ◌∷◌, map,
}
use fd_open_data_mcp.Crawl.Plan.{PlanConcept, CrawlPlan}
use fd_open_data_mcp.Crawl.Split.{
  EntitySourceIdentifier, Session, concat, resolve_entity_ids, split_plan, scope_ids, date_count,
  verify_partition,
}
use fd_open_data_mcp.Crawl.Split.Partition.{AreItems, item_cap, split_plan_partition}

abbrev closing_price : PlanConcept
closing_price = record {
  concept_id = 1;
  code = codes "price.close";
  entity_type = codes "stock";
  unit = none;
  frequency = some (codes "daily");
  granularity = none;
  ranked_sources =
      record {
        source = codes "akshare";
        score = 900;
        function_id = 5;
        function_command = codes "hist";
        column_name = codes "close";
        binding_id = 9;
        confidence = 1000;
        bulk_snapshot = false;
      }
      ∷ [];
}

-- Four days of one concept for every stock with an identifier.
abbrev plan : CrawlPlan
plan = record {
  version = codes "1";
  mode = codes "per_date";
  wanted_concepts = closing_price ∷ [];
  entity_scope = record { entity_type = codes "stock"; entity_ids = none; filter = none };
  date_range = record {
    start = some (record { year = 2024; month = 2; day = 27 });
    end = record { year = 2024; month = 3; day = 1 };
    frequency = none;
  };
  unroutable = [];
  unmapped = [];
  truncated = [];
  suppressed = [];
  persistence = [];
  plan_cells = none;
}

abbrev stock_row : ℕ → EntitySourceIdentifier
stock_row n = record { entity_type = codes "stock"; entity_id = n; source = codes "akshare" }

abbrev session : Session
session = stock_row 8 ∷ stock_row 3 ∷ stock_row 8 ∷ stock_row 11 ∷ []

-- A leap day lies between the ends.
four_days :
    date_count
      (record { year = 2024; month = 2; day = 27 })
      (record { year = 2024; month = 3; day = 1 })
      none
    ≡ 4
unfolding date_count
four_days = refl

three_stocks : resolve_entity_ids session plan ≡ 3 ∷ 8 ∷ 11 ∷ []
unfolding resolve_entity_ids sorted_set
three_stocks = refl

-- Eight cells an item: two stocks, and one.
two_items :
    map_option (map scope_ids) (split_plan session plan 8) ≡ some ((3 ∷ 8 ∷ []) ∷ (11 ∷ []) ∷ [])
unfolding split_plan sorted_set
two_items = refl

abbrev four_ids : List ℕ
four_ids = 1 ∷ 2 ∷ 3 ∷ 4 ∷ []

split_plan_partition_example :
    (items : List CrawlPlan) × (split_plan session plan 8 ≡ some items)
    × (concat (map scope_ids items) ≡ resolve_entity_ids session plan)
    × AreItems plan (item_cap plan 8) items
    × (verify_partition (resolve_entity_ids session plan) items ≡ true)
split_plan_partition_example = split_plan_partition session plan 8
