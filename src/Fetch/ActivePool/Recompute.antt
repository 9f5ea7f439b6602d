-- ===== src/Fetch/ActivePool/Recompute.antt =====
-- The membership of the pool after its operations.
use fd_open_data_mcp.Base.{
  if◌then◌else◌, Bool-cases, map_option, length, take, filter_by, nat_eq, list_eq, pair_eq, ◌==◌,
  contains, get, get-put, get-remove, ℕ, zero, suc, ◌≡◌, refl, sym, ap, ◌∙◌, inl, inr, Bool, true,
  false, not, ◌&&◌, Option, none, some, List, [], ◌∷◌, map,
}
use fd_open_data_mcp.Fetch.ActivePool.{
  PoolSource, config, frequency, non_member, PricePoolMember, EntityKey, Table, Row, is_pool_source,
  is_config, requested, record_request, added_config, add_config_member, removed_config,
  remove_config_member, ranks_before, insert_ranked, ranked, top_ids, reclassified, reclassify,
  is_added, is_demoted, recompute_frequency_members, pool_source, is_in_pool,
}

insert_ranked-reclassify :
    (top : List EntityKey) (r : Row) (t : Table)
    → insert_ranked (reclassify top r) (map (reclassify top) t)
      ≡ map (reclassify top) (insert_ranked r t)
unfolding insert_ranked
insert_ranked-reclassify top r [] = refl
insert_ranked-reclassify top (j, m) ((k, n) ∷ t) = elim (Bool-cases (ranks_before m n)) [
  | inl e ↦ rw e refl
  | inr e ↦ rw e (ap (λ u. reclassify top (k, n) ∷ u) (insert_ranked-reclassify top (j, m) t))
]

ranked-reclassify :
    (top : List EntityKey) (t : Table)
    → ranked (map (reclassify top) t) ≡ map (reclassify top) (ranked t)
unfolding ranked
ranked-reclassify top [] = refl
ranked-reclassify top (r ∷ t) =
    ap (insert_ranked (reclassify top r)) (ranked-reclassify top t)
    ∙ insert_ranked-reclassify top r (ranked t)

keys-reclassify :
    (top : List EntityKey) (n : ℕ) (t : Table)
    → map (λ r. r.0) (take n (map (reclassify top) t)) ≡ map (λ r. r.0) (take n t)
keys-reclassify top zero t = refl
keys-reclassify top (suc n) [] = refl
keys-reclassify top (suc n) (r ∷ t) = ap (λ u. r.0 ∷ u) (keys-reclassify top n t)

top_ids-reclassify :
    (top : List EntityKey) (n : ℕ) (t : Table) → top_ids (map (reclassify top) t) n ≡ top_ids t n
unfolding top_ids
top_ids-reclassify top n t =
    ap (λ u. map (λ r. r.0) (take n u)) (ranked-reclassify top t) ∙ keys-reclassify top n (ranked t)

reclassified_twice :
    (b : Bool) (s : PoolSource) → reclassified b (reclassified b s) ≡ reclassified b s
reclassified_twice true config = refl
reclassified_twice true frequency = refl
reclassified_twice true non_member = refl
reclassified_twice false config = refl
reclassified_twice false frequency = refl
reclassified_twice false non_member = refl

reclassify_twice :
    (top : List EntityKey) (t : Table)
    → map (reclassify top) (map (reclassify top) t) ≡ map (reclassify top) t
reclassify_twice top [] = refl
reclassify_twice top ((k, m) ∷ t) =
    rw (reclassified_twice (contains top k) m.source, reclassify_twice top t) refl

none_added :
    (b : Bool) (s : PoolSource)
    → ((b && not (is_pool_source (reclassified b s))) ≡ false)
      × ((not b && is_pool_source (reclassified b s) && not (is_config (reclassified b s))) ≡ false)
none_added true config = (refl, refl)
none_added true frequency = (refl, refl)
none_added true non_member = (refl, refl)
none_added false config = (refl, refl)
none_added false frequency = (refl, refl)
none_added false non_member = (refl, refl)

nothing_moves :
    (top : List EntityKey) (t : Table)
    → (filter_by (is_added top) (map (reclassify top) t) ≡ [])
      × (filter_by (is_demoted top) (map (reclassify top) t) ≡ [])
nothing_moves top [] = (refl, refl)
nothing_moves top ((k, m) ∷ t) =
    let (p, q) = none_added (contains top k) m.source in
    let (r, s) = nothing_moves top t in ((rw p r), (rw q s))

-- Recomputing the pool again with the same size leaves the table as it is, and reports no member
-- added and none demoted.
pub recompute_idempotent :
    (t : Table) (n : ℕ)
    → let once = (recompute_frequency_members t n).0 in
      ((recompute_frequency_members once n).0 ≡ once)
      × ((recompute_frequency_members once n).1.added ≡ 0)
      × ((recompute_frequency_members once n).1.demoted ≡ 0)
unfolding recompute_frequency_members
recompute_idempotent t n =
    let top = top_ids t n in
    let (r, s) = nothing_moves top (ranked t) in
    rw (top_ids-reclassify top n t, ranked-reclassify top t)
      (reclassify_twice top t, ap length r, ap length s)

abbrev pub restated : Bool → PricePoolMember → PricePoolMember
restated b m = record m { source = reclassified b m.source }

get-reclassify :
    (top : List EntityKey) (t : Table) (k : EntityKey)
    → get (map (reclassify top) t) k ≡ map_option (restated (contains top k)) (get t k)
unfolding get
get-reclassify top [] k = refl
get-reclassify top ((j, m) ∷ t) k = elim (Bool-cases (j == k)) [
  | inl e ↦
      let same = (pair_eq.beq_iff j k).0 e in
      rw e (ap (λ i. some (restated (contains top i) m)) same)
  | inr e ↦ rw e (get-reclassify top t k)
]

source_after :
    (b : Bool) (o : Option PricePoolMember)
    → pool_source (map_option (restated b) o) ≡ elim o [
      | none ↦ none
      | some m ↦ if is_config m.source then some config else if b then some frequency else none
    ]
source_after b none = refl
source_after b (some m) = go b m.source
  where
    go :
        (b : Bool) (s : PoolSource)
        → (if is_pool_source (reclassified b s) then some (reclassified b s) else none)
          ≡ (if is_config s then some config else if b then some frequency else none)
    go true config = refl
    go true frequency = refl
    go true non_member = refl
    go false config = refl
    go false frequency = refl
    go false non_member = refl

-- After a recomputation a configured member is still one; any other symbol with a row is a
-- frequency member exactly if it is among the top ones, and a symbol with no row is no member.
pub recompute_membership :
    (t : Table) (n : ℕ) (k : EntityKey)
    → is_in_pool (recompute_frequency_members t n).0 k ≡ elim (get t k) [
      | none ↦ none
      | some m ↦
          if is_config m.source
          then some config
          else if contains (top_ids t n) k
          then some frequency
          else none
    ]
unfolding recompute_frequency_members is_in_pool
recompute_membership t n k =
    ap pool_source (get-reclassify (top_ids t n) t k)
    ∙ source_after (contains (top_ids t n) k) (get t k)

requested-source :
    (now : ℕ) (o : Option PricePoolMember) → pool_source (some (requested now o)) ≡ pool_source o
unfolding requested
requested-source now none = refl
requested-source now (some m) = refl

pool_source-if :
    (b : Bool) (m : PricePoolMember) (o : Option PricePoolMember)
    → pool_source (if b then some m else o) ≡ (if b then pool_source (some m) else pool_source o)
pool_source-if true m o = refl
pool_source-if false m o = refl

record_lem :
    (t : Table) (now : ℕ) (k j : EntityKey) → is_in_pool (record_request t now k) j ≡ is_in_pool t j
unfolding record_request is_in_pool
record_lem t now k j = elim (Bool-cases (k == j)) [
  | inl e ↦
      let same = (pair_eq.beq_iff k j).0 e in
      rw (get-put, e) (requested-source now (get t k) ∙ ap (λ i. pool_source (get t i)) same)
  | inr e ↦ rw (get-put, e) refl
]

added_lem :
    (t : Table) (now : ℕ) (k j : EntityKey) (o : Option PricePoolMember)
    → get t k ≡ o
    → pool_source (get (added_config t now k o).0 j)
      ≡ (if k == j then some config else pool_source (get t j))
unfolding added_config
added_lem t now k j none h = rw get-put (
    pool_source-if (k == j)
      (record { source = config; request_count = 0; last_requested_at = none; added_at = now })
      (get t j))
added_lem t now k j (some m) h = elim (Bool-cases (is_config m.source)) [
  | inr e ↦ rw (e, get-put) (pool_source-if (k == j) (record m { source = config }) (get t j))
  | inl e ↦ rw e (elim (Bool-cases (k == j)) [
    | inr d ↦ rw d refl
    | inl d ↦
        let same = (pair_eq.beq_iff k j).0 d in
        rw d (ap pool_source (ap (get t) (sym same) ∙ h) ∙ configured m.source e)
  ])
]
  where
    configured :
        (s : PoolSource)
        → is_config s ≡ true
        → (if is_pool_source s then some s else none) ≡ some config
    configured config e = refl
    configured frequency e = cc
    configured non_member e = cc

removed_lem :
    (t : Table) (k j : EntityKey) (o : Option PricePoolMember)
    → get t k ≡ o
    → pool_source (get (removed_config t k o).0 j)
      ≡ (if k == j && (removed_config t k o).1 then none else pool_source (get t j))
unfolding removed_config
removed_lem t k j none h = elim (Bool-cases (k == j)) [ inl d ↦ rw d refl | inr d ↦ rw d refl ]
removed_lem t k j (some m) h = elim (Bool-cases (is_config m.source)) [
  | inr e ↦ rw e (elim (Bool-cases (k == j)) [ inl d ↦ rw d refl | inr d ↦ rw d refl ])
  | inl e ↦
      rw (e, get-remove) (elim (Bool-cases (k == j)) [ inl d ↦ rw d refl | inr d ↦ rw d refl ])
]

-- Recording a request changes no membership. Adding a configured member makes that symbol a
-- configured one and changes no other; it answers true exactly if the symbol was not configured.
-- Removing takes exactly the symbol out that it answers true for, and it does so only for a
-- configured one.
pub membership_exact :
    (t : Table) (now : ℕ) (k j : EntityKey)
    → (is_in_pool (record_request t now k) j ≡ is_in_pool t j)
      × (is_in_pool (add_config_member t now k).0 j
          ≡ (if k == j then some config else is_in_pool t j))
      × ((add_config_member t now k).1
          ≡ not (elim (get t k) [ none ↦ false | some m ↦ is_config m.source ]))
      × (is_in_pool (remove_config_member t k).0 j
          ≡ (if k == j && (remove_config_member t k).1 then none else is_in_pool t j))
      × ((remove_config_member t k).1
          ≡ elim (get t k) [ none ↦ false | some m ↦ is_config m.source ])
unfolding add_config_member remove_config_member is_in_pool
membership_exact t now k j = (
  record_lem t now k j,
  added_lem t now k j (get t k) refl,
  answer_added (get t k),
  removed_lem t k j (get t k) refl,
  answer_removed (get t k),
)
  where
    answer_added :
        (o : Option PricePoolMember)
        → (added_config t now k o).1 ≡ not (elim o [ none ↦ false | some m ↦ is_config m.source ])
    answer_added none = unfold added_config in refl
    answer_added (some m) =
        unfold added_config in
        elim (Bool-cases (is_config m.source)) [ inl e ↦ rw e refl | inr e ↦ rw e refl ]

    answer_removed :
        (o : Option PricePoolMember)
        → (removed_config t k o).1 ≡ elim o [ none ↦ false | some m ↦ is_config m.source ]
    answer_removed none = unfold removed_config in refl
    answer_removed (some m) =
        unfold removed_config in
        elim (Bool-cases (is_config m.source)) [ inl e ↦ rw e refl | inr e ↦ rw e refl ]
