-- ===== src/Fetch/ActivePool.antt =====
-- The price active pool (fd_open_data_mcp/fetch/active_pool.py) on its table, whose rows are unique
-- by entity (models.py). A time is the clock's reading.
pub mod Recompute
pub mod Prewarm
use fd_open_data_mcp.Base.{
  ltb, leb, nat_beq, if◌then◌else◌, length, take, filter_by, nat_eq, list_eq, pair_eq, Text,
  contains, Dict, get, put, remove, ℕ, ◌+◌, Bool, true, false, not, ◌&&◌, ◌||◌, Option, none, some,
  List, [], ◌∷◌, map,
}

-- PRICE_POOL_SOURCES and PRICE_POOL_NON_MEMBER
pub data PoolSource : Type 0 where
  config : PoolSource
  frequency : PoolSource
  non_member : PoolSource

pub record PricePoolMember : Type 0 where
  pub source : PoolSource
  pub request_count : ℕ
  pub last_requested_at : Option ℕ
  pub added_at : ℕ

abbrev pub EntityKey : Type 0
EntityKey = Text × ℕ

abbrev pub Table : Type 0
Table = Dict EntityKey PricePoolMember

abbrev pub is_pool_source : PoolSource → Bool
is_pool_source config = true
is_pool_source frequency = true
is_pool_source non_member = false

abbrev pub is_config : PoolSource → Bool
is_config config = true
is_config frequency = false
is_config non_member = false

unfoldable requested : ℕ → Option PricePoolMember → PricePoolMember
requested now none = record {
  source = non_member;
  request_count = 1;
  last_requested_at = some now;
  added_at = now;
}
requested now (some m) = record m {
  request_count = m.request_count + 1;
  last_requested_at = some now;
}

unfoldable pub record_request : Table → ℕ → EntityKey → Table
unfolding requested
record_request t now k = put t k (requested now (get t k))

unfoldable pub added_config : Table → ℕ → EntityKey → Option PricePoolMember → Table × Bool
added_config t now k none = (
  put t k (record { source = config; request_count = 0; last_requested_at = none; added_at = now }),
  true,
)
added_config t now k (some m) =
    if is_config m.source then (t, false) else (put t k (record m { source = config }), true)

unfoldable pub add_config_member : Table → ℕ → EntityKey → Table × Bool
unfolding added_config
add_config_member t now k = added_config t now k (get t k)

unfoldable pub removed_config : Table → EntityKey → Option PricePoolMember → Table × Bool
removed_config t k none = (t, false)
removed_config t k (some m) = if is_config m.source then (remove t k, true) else (t, false)

unfoldable pub remove_config_member : Table → EntityKey → Table × Bool
unfolding removed_config
remove_config_member t k = removed_config t k (get t k)

-- `last_requested_at.desc().nullslast()`
abbrev later_or_same : Option ℕ → Option ℕ → Bool
later_or_same (some a) (some b) = leb b a
later_or_same (some a) none = true
later_or_same none (some b) = false
later_or_same none none = true

-- The order of the ranking; rows that it does not part keep the table's order.
abbrev pub ranks_before : PricePoolMember → PricePoolMember → Bool
ranks_before m n =
    ltb n.request_count m.request_count
    || (nat_beq m.request_count n.request_count
        && later_or_same m.last_requested_at n.last_requested_at)

abbrev pub Row : Type 0
Row = EntityKey × PricePoolMember

unfoldable pub insert_ranked : Row → Table → Table
insert_ranked r [] = r ∷ []
insert_ranked r (s ∷ t) =
    let rest = insert_ranked r t in if ranks_before r.1 s.1 then r ∷ s ∷ t else s ∷ rest

unfoldable pub ranked : Table → Table
unfolding insert_ranked
ranked [] = []
ranked (r ∷ t) = insert_ranked r (ranked t)

unfoldable pub top_ids : Table → ℕ → List EntityKey
unfolding ranked
top_ids t top_n = map (λ r. r.0) (take top_n (ranked t))

-- The new source of a member, which is among the top or not.
abbrev pub reclassified : Bool → PoolSource → PoolSource
reclassified true config = config
reclassified true frequency = frequency
reclassified true non_member = frequency
reclassified false config = config
reclassified false frequency = non_member
reclassified false non_member = non_member

abbrev pub reclassify : List EntityKey → Row → Row
reclassify top (k, m) = (k, record m { source = reclassified (contains top k) m.source })

abbrev pub is_added : List EntityKey → Row → Bool
is_added top (k, m) = contains top k && not (is_pool_source m.source)

abbrev pub is_demoted : List EntityKey → Row → Bool
is_demoted top (k, m) = not (contains top k) && is_pool_source m.source && not (is_config m.source)

pub record Recomputed : Type 0 where
  pub considered : ℕ
  pub in_pool : ℕ
  pub added : ℕ
  pub demoted : ℕ

unfoldable pub recompute_frequency_members : Table → ℕ → Table × Recomputed
unfolding top_ids
recompute_frequency_members t top_n =
    let top = top_ids t top_n in
    (
      map (reclassify top) t,
      record {
        considered = length (ranked t);
        in_pool = length top;
        added = length (filter_by (is_added top) (ranked t));
        demoted = length (filter_by (is_demoted top) (ranked t));
      },
    )

-- `order_by(source, request_count.desc())`
abbrev lists_before : PricePoolMember → PricePoolMember → Bool
lists_before m n =
    (is_config m.source && not (is_config n.source))
    || (not (is_config n.source && not (is_config m.source)) && leb n.request_count m.request_count)

unfoldable insert_listed : Row → Table → Table
insert_listed r [] = r ∷ []
insert_listed r (s ∷ t) =
    let rest = insert_listed r t in if lists_before r.1 s.1 then r ∷ s ∷ t else s ∷ rest

unfoldable pub sort_listed : Table → Table
unfolding insert_listed
sort_listed [] = []
sort_listed (r ∷ t) = insert_listed r (sort_listed t)

unfoldable pub pool_members : Table → Table
unfolding sort_listed
pool_members t = sort_listed (filter_by (λ r. is_pool_source r.1.source) t)

abbrev pub pool_source : Option PricePoolMember → Option PoolSource
pool_source none = none
pool_source (some m) = if is_pool_source m.source then some m.source else none

unfoldable pub is_in_pool : Table → EntityKey → Option PoolSource
is_in_pool t k = pool_source (get t k)
