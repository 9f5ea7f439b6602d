-- ===== src/Crawl/Split/Partition.antt =====
-- The entities and the cells of the work items of a plan.
use fd_open_data_mcp.Base.{
  ltb, Bool-cases, get_default, map_option, length, filter_by, nat_eq, list_eq, pair_eq, ◌==◌,
  beq_refl, list_beq_iff, Text, codes, contains, Date, IsAscending, sorted_set-IsAscending,
  sorted_set-of_ascending, ℕ, ◌*◌, ◌/◌, ◌≤◌, max, ◌≡◌, refl, ap, ◌∙◌, inl, inr, true, ◌&&◌, Option,
  none, some, List, [], ◌∷◌, ◌++◌, map, arith,
}
use native.Mathlib.Nat.{mul-le-mul_right, mul-le-mul_left}
use native.Mathlib.Omega.{div_any}
use fd_open_data_mcp.Crawl.Plan.{PlanConcept, CrawlPlan}
use fd_open_data_mcp.Crawl.Split.{
  Session, concat, plan_sources, fetchable_ids, resolve_scope, resolve_entity_ids, max_of, or_one,
  concept_dates, date_cells_from, date_cells, estimate_per_entity, sub_plan, split_by, split_from,
  split_plan, scope_ids, verify_partition,
}
use fd_open_data_mcp.Crawl.Split.Chunks.{AllSized, chunk_ids_exact}

resolve_scope-IsAscending :
    (session : Session) (plan : CrawlPlan) (o : Option (List ℕ)) (sources : List Text)
    → IsAscending (resolve_scope session plan o sources)
unfolding resolve_scope fetchable_ids
resolve_scope-IsAscending session plan (some ids) sources = sorted_set-IsAscending ids
resolve_scope-IsAscending session plan none [] = tt
resolve_scope-IsAscending session plan none (s ∷ ss) = sorted_set-IsAscending (
    map (λ r. r.entity_id)
      (filter_by (λ r. r.entity_type == plan.entity_scope.entity_type && contains (s ∷ ss) r.source)
        session))

resolve-IsAscending :
    (session : Session) (plan : CrawlPlan) → IsAscending (resolve_entity_ids session plan)
unfolding resolve_entity_ids
resolve-IsAscending session plan =
    resolve_scope-IsAscending session plan plan.entity_scope.entity_ids
      (plan_sources plan.wanted_concepts)

max_of-succeeds : (x : ℕ) (xs : List ℕ) → (m : ℕ) × (max_of (x ∷ xs) ≡ some m)
unfolding max_of
max_of-succeeds x [] = (x, refl)
max_of-succeeds x (y ∷ xs) =
    let (m, e) = max_of-succeeds y xs in (max x m, ap (map_option (max x)) e)

-- The estimate does not raise where a concept is wanted, and is at least one.
estimate_succeeds :
    (plan : CrawlPlan) (pc : PlanConcept) (pcs : List PlanConcept)
    → plan.wanted_concepts ≡ pc ∷ pcs
    → (n : ℕ) × (estimate_per_entity plan ≡ some n) × (1 ≤ n)
unfolding estimate_per_entity date_cells date_cells_from
estimate_succeeds plan pc pcs e =
    let (n, c) = cells in
    (
      max 1 (n * length plan.wanted_concepts),
      ap (map_option (λ k. max 1 (k * length plan.wanted_concepts))) c,
      omega arith,
    )
  where
    dated : (o : Option Date) → (n : ℕ) × (date_cells_from plan o ≡ some n)
    dated none = (1, refl)
    dated (some start) =
        let (m, f) =
          max_of-succeeds (concept_dates plan start pc) (map (concept_dates plan start) pcs) in
        (
          or_one m,
          ap (map_option or_one) (ap (λ l. max_of (map (concept_dates plan start) l)) e ∙ f),
        )

    cells : (n : ℕ) × (date_cells plan ≡ some n)
    cells = elim (Bool-cases (plan.mode == codes "series")) [
      | inl s ↦ (1, rw s refl)
      | inr s ↦ let (n, f) = dated plan.date_range.start in (n, rw s f)
    ]

-- What the item of a group says: the group is its scope, its cells are at most `cap`, and all else
-- is the plan's.
abbrev pub IsItem : CrawlPlan → ℕ → List ℕ → CrawlPlan → Type 0
IsItem plan cap group it =
    (it.entity_scope.entity_ids ≡ some group)
    × (it.wanted_concepts ≡ plan.wanted_concepts)
    × (it.date_range ≡ plan.date_range)
    × (it.mode ≡ plan.mode)
    × (1 ≤ length group)
    × (get_default it.plan_cells 0 ≤ cap)

abbrev pub AreItems : CrawlPlan → ℕ → List CrawlPlan → Type 0
AreItems plan cap [] = Unit
AreItems plan cap (it ∷ its) = IsItem plan cap (scope_ids it) it × AreItems plan cap its

cells-bounded : (n per cap : ℕ) → n ≤ max 1 (cap / per) → n * per ≤ max cap per
cells-bounded n per cap r =
    let product = mul-le-mul_right per r in
    let whole = div_any cap per in
    elim (Bool-cases (ltb (cap / per) 1)) [
      | inl z ↦
          let one : max 1 (cap / per) ≡ 1 = ground arith in
          let scaled : max 1 (cap / per) * per ≡ 1 * per = ap (λ k. k * per) one in
          omega (arith, product, scaled)
      | inr z ↦
          let same : max 1 (cap / per) ≡ cap / per = ground arith in
          let scaled : max 1 (cap / per) * per ≡ cap / per * per = ap (λ k. k * per) same in
          let turned : cap / per * per ≡ per * (cap / per) = omega arith in
          omega (arith, product, scaled, turned, whole)
    ]

cells-few : (n per : ℕ) → 1 ≤ per → n ≤ n * per
cells-few n per p = let product = mul-le-mul_left n p in omega (arith, product)

sub_plan-IsItem :
    (plan : CrawlPlan) (per cap : ℕ) (group : List ℕ)
    → 1 ≤ per
    → 1 ≤ length group
    → length group ≤ max 1 (cap / per)
    → IsItem plan (max cap per) group (sub_plan plan per group)
unfolding sub_plan
sub_plan-IsItem plan per cap group p q r =
    let bound = cells-bounded (length group) per cap r in
    let few = cells-few (length group) per p in
    (
      refl,
      refl,
      refl,
      refl,
      q,
      elim (Bool-cases (plan.mode == codes "series")) [
        | inl s ↦ rw s (omega (arith, bound, few))
        | inr s ↦ rw s bound
      ],
    )

items-AreItems :
    (plan : CrawlPlan) (per cap : ℕ) (groups : List (List ℕ))
    → 1 ≤ per
    → AllSized (max 1 (cap / per)) groups
    → AreItems plan (max cap per) (map (sub_plan plan per) groups)
unfolding sub_plan
items-AreItems plan per cap [] p a = tt
items-AreItems plan per cap (g ∷ gs) p ((q, r), a) =
    (sub_plan-IsItem plan per cap g p q r, items-AreItems plan per cap gs p a)

items-concat :
    (plan : CrawlPlan) (per : ℕ) (groups : List (List ℕ))
    → concat (map scope_ids (map (sub_plan plan per) groups)) ≡ concat groups
unfolding sub_plan
items-concat plan per [] = refl
items-concat plan per (g ∷ gs) = ap (λ r. g ++ r) (items-concat plan per gs)

-- What a successful split gives for these ids.
abbrev pub Splits : CrawlPlan → ℕ → List ℕ → Option (List CrawlPlan) → Type 0
Splits plan cap ids result =
    (items : List CrawlPlan) × (result ≡ some items)
    × (concat (map scope_ids items) ≡ ids)
    × AreItems plan cap items

split_by-Splits :
    (plan : CrawlPlan) (ids : List ℕ) (cap per : ℕ)
    → 1 ≤ per
    → Splits plan (max cap per) ids (split_by plan ids cap per)
unfolding split_by
split_by-Splits plan ids cap per p = elim (chunk_ids_exact ids (max 1 (cap / per))) [
  | inl (z, e) ↦ absurd (omega (arith, z))
  | inr (groups, e, c, a) ↦ (
    map (sub_plan plan per) groups,
    ap (map_option (map (sub_plan plan per))) e,
    items-concat plan per groups ∙ c,
    items-AreItems plan per cap groups p a,
  )
]

-- The entities that the items share out: none where no concept is wanted.
abbrev pub wanted_ids : List PlanConcept → List ℕ → List ℕ
wanted_ids [] ids = []
wanted_ids (pc ∷ pcs) ids = ids

split_from-Splits :
    (plan : CrawlPlan) (cap per : ℕ) (ids : List ℕ) (pcs : List PlanConcept)
    → 1 ≤ per
    → Splits plan (max cap per) (wanted_ids pcs ids) (split_from plan cap ids pcs (some per))
unfolding split_from
split_from-Splits plan cap per [] [] p = ([], refl, refl, tt)
split_from-Splits plan cap per [] (pc ∷ pcs) p = ([], refl, refl, tt)
split_from-Splits plan cap per (i ∷ ids) [] p = ([], refl, refl, tt)
split_from-Splits plan cap per (i ∷ ids) (pc ∷ pcs) p = split_by-Splits plan (i ∷ ids) cap per p

split_from-no_concepts :
    (plan : CrawlPlan) (cap : ℕ) (ids : List ℕ) (o : Option ℕ)
    → split_from plan cap ids [] o ≡ some []
unfolding split_from
split_from-no_concepts plan cap [] o = refl
split_from-no_concepts plan cap (i ∷ ids) o = refl

-- The cells that one item may hold: the cap, or one entity's cells where these are more.
abbrev pub item_cap : CrawlPlan → ℕ → ℕ
item_cap plan cap = max cap (get_default (estimate_per_entity plan) 0)

split-Splits :
    (plan : CrawlPlan) (cap : ℕ) (ids : List ℕ) (pcs : List PlanConcept)
    → plan.wanted_concepts ≡ pcs
    → Splits plan
        (item_cap plan cap)
        (wanted_ids pcs ids)
        (split_from plan cap ids pcs (estimate_per_entity plan))
split-Splits plan cap ids [] e =
    ([], split_from-no_concepts plan cap ids (estimate_per_entity plan), refl, tt)
split-Splits plan cap ids (pc ∷ pcs) e =
    let (n, f, p) = estimate_succeeds plan pc pcs e in
    rw f (split_from-Splits plan cap n ids (pc ∷ pcs) p)

verify_partition-ascending :
    (ids : List ℕ) (items : List CrawlPlan)
    → IsAscending ids
    → concat (map scope_ids items) ≡ ids
    → verify_partition ids items ≡ true
unfolding verify_partition
verify_partition-ascending ids items a e =
    rw (e, sorted_set-of_ascending ids a)
      (ground (arith, beq_refl (length ids), (list_beq_iff ids ids).1 refl))

wanted_ids-IsAscending :
    (pcs : List PlanConcept) (ids : List ℕ) → IsAscending ids → IsAscending (wanted_ids pcs ids)
wanted_ids-IsAscending [] ids a = tt
wanted_ids-IsAscending (pc ∷ pcs) ids a = a

-- Splitting a plan never raises. With no wanted concept there are no items; else the entity lists
-- of the items, joined in order, are the resolved entities of the plan, and the code's own check
-- of a partition holds. Each item has a concept set, a date range and a mode equal to the plan's,
-- at least one entity, and no more cells than the cap, or than one entity's cells if these are more.
pub split_plan_partition :
    (session : Session) (plan : CrawlPlan) (cap : ℕ)
    → let ids = resolve_entity_ids session plan in
      (items : List CrawlPlan) × (split_plan session plan cap ≡ some items)
      × (concat (map scope_ids items) ≡ wanted_ids plan.wanted_concepts ids)
      × AreItems plan (item_cap plan cap) items
      × (verify_partition (wanted_ids plan.wanted_concepts ids) items ≡ true)
unfolding split_plan
split_plan_partition session plan cap =
    let ids = resolve_entity_ids session plan in
    let pcs = plan.wanted_concepts in
    let (items, e, c, a) = split-Splits plan cap ids pcs refl in
    let ascending = wanted_ids-IsAscending pcs ids (resolve-IsAscending session plan) in
    (items, e, c, a, verify_partition-ascending (wanted_ids pcs ids) items ascending c)
