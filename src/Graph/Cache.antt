-- ===== src/Graph/Cache.antt =====
-- The cached graph of EntityGraphManager (get_graph and invalidate of
-- fd_open_data_mcp/graph/manager.py). What the database holds at a time is a parameter, and reading it
-- takes no time.
use fd_open_data_mcp.Base.{
  ltb, if◌then◌else◌, ltb→lt, Bool-cases, nat_eq, list_eq, pair_eq, ℕ, ◌+◌, ◌≤◌, ◌<◌, ◌≡◌, refl,
  ◌⊎◌, inl, inr, Bool, true, false, Option, none, some, List, [], ◌∷◌,
}

pub record Manager (G : Type 0) : Type 0 where
  pub cached : Option G
  pub last_load : Option ℕ

-- What the queries of a load give at a time: the graph, or an exception, with the part of the graph
-- that was built by then.
pub data Loaded (G : Type 0) : Type 0 where
  loads : G → Loaded G
  raises_at : G → Loaded G

-- The graph is replaced before the queries, the time is noted after them. `none` is an exception.
abbrev pub loaded : {G : Type 0} → ℕ → Manager G → Loaded G → Option G × Manager G
loaded now m (loads graph) = (some graph, record { cached = some graph; last_load = some now })
loaded now m (raises_at part) = (none, record m { cached = some part })

module _ {G : Type 0} (cache_ttl : ℕ) (database : ℕ → Loaded G) where
  unfoldable pub load : ℕ → Manager G → Option G × Manager G
  load now m = loaded now m (database now)

  -- A graph with no time of loading is taken for one that was put in by hand, and is kept.
  unfoldable pub get_cached : ℕ → Manager G → Option G → Option ℕ → Option G × Manager G
  unfolding load
  get_cached now m none last_load = load now m
  get_cached now m (some graph) none = (some graph, m)
  get_cached now m (some graph) (some t) =
      if ltb now (t + cache_ttl) then (some graph, m) else load now m

  unfoldable pub get_graph : Bool → ℕ → Manager G → Option G × Manager G
  unfolding get_cached load
  get_graph force_reload now m =
      if force_reload then load now m else get_cached now m m.cached m.last_load

abbrev pub invalidate : {G : Type 0} → Manager G → Manager G
invalidate m = record { cached = none; last_load = none }

-- The calls of a client, with their times.
pub data CacheOp : Type 0 where
  gets : Bool → ℕ → CacheOp
  invalidates : CacheOp

module _ {G : Type 0} (cache_ttl : ℕ) (database : ℕ → Loaded G) where
  unfoldable pub apply_op : CacheOp → Manager G → Manager G
  unfolding get_graph
  apply_op (gets force now) m = (get_graph cache_ttl database force now m).1
  apply_op invalidates m = invalidate m

  unfoldable pub apply_ops : List CacheOp → Manager G → Manager G
  unfolding apply_op
  apply_ops [] m = m
  apply_ops (op ∷ ops) m = apply_ops ops (apply_op op m)

  -- No get is before this time.
  abbrev pub AreSince : ℕ → List CacheOp → Type 0
  AreSince since [] = Unit
  AreSince since (gets force now ∷ ops) = (since ≤ now) × AreSince since ops
  AreSince since (invalidates ∷ ops) = AreSince since ops

  -- Nothing is cached, or what a load since then gave, or what one that raised had built.
  IsCacheOf : ℕ → Manager G → Type 0
  IsCacheOf since m =
      ((m.cached ≡ none) × (m.last_load ≡ none))
      ⊎ (((t : ℕ) × (graph : G) × (since ≤ t)
            × (database t ≡ loads graph)
            × (m.cached ≡ some graph)
            × (m.last_load ≡ some t))
          ⊎ ((t : ℕ) × (part : G) × (since ≤ t)
              × (database t ≡ raises_at part)
              × (m.cached ≡ some part)))

  -- The graph is what the database held at a time since then, now or less than the limit ago; or it is
  -- the part that a load since then built before it raised.
  abbrev pub IsRecent : ℕ → ℕ → G → Type 0
  IsRecent since now graph =
      ((t : ℕ) × (since ≤ t) × (database t ≡ loads graph) × ((t ≡ now) ⊎ (now < t + cache_ttl)))
      ⊎ ((t : ℕ) × (since ≤ t) × (database t ≡ raises_at graph))

  -- A get gives a recent graph, or it raises because its load does.
  abbrev pub IsRecentGet : ℕ → ℕ → Option G → Type 0
  IsRecentGet since now (some graph) = IsRecent since now graph
  IsRecentGet since now none = (part : G) × (database now ≡ raises_at part)

  load-IsRecent :
      (since now : ℕ) (m : Manager G) (o : Loaded G)
      → since ≤ now
      → database now ≡ o
      → IsRecentGet since now (loaded now m o).0 × IsCacheOf since (loaded now m o).1
  unfolding IsCacheOf
  load-IsRecent since now m (loads graph) l e =
      (inl (now, l, e, inl refl), inr (inl (now, graph, l, e, refl, refl)))
  load-IsRecent since now m (raises_at part) l e = ((part, e), inr (inr (now, part, l, e, refl)))

  cached-IsRecent :
      (since now : ℕ) (m : Manager G) (last_load : Option ℕ) (part : G) (t : ℕ)
      → since ≤ now
      → since ≤ t
      → database t ≡ raises_at part
      → m.cached ≡ some part
      → let got = get_cached cache_ttl database now m (some part) last_load in
        IsRecentGet since now got.0 × IsCacheOf since got.1
  unfolding get_cached load IsCacheOf
  cached-IsRecent since now m none part t l s e c = (inr (t, s, e), inr (inr (t, part, s, e, c)))
  cached-IsRecent since now m (some t') part t l s e c =
      elim (Bool-cases (ltb now (t' + cache_ttl))) [
        | inl live ↦ rw live (inr (t, s, e), inr (inr (t, part, s, e, c)))
        | inr old ↦ rw old (load-IsRecent since now m (database now) l refl)
      ]

  get-IsRecent :
      (since now : ℕ) (force : Bool) (m : Manager G)
      → since ≤ now
      → IsCacheOf since m
      → IsRecentGet since now (get_graph cache_ttl database force now m).0
        × IsCacheOf since (get_graph cache_ttl database force now m).1
  unfolding get_graph get_cached load IsCacheOf
  get-IsRecent since now true m l h = load-IsRecent since now m (database now) l refl
  get-IsRecent since now false m l (inl (c, t)) =
      rw c (load-IsRecent since now m (database now) l refl)
  get-IsRecent since now false m l (inr (inl (t, graph, s, e, c, w))) =
      elim (Bool-cases (ltb now (t + cache_ttl))) [
        | inl live ↦
            rw (c, w, live)
              (
                inl (t, s, e, inr (ltb→lt now (t + cache_ttl) live)),
                inr (inl (t, graph, s, e, refl, refl)),
              )
        | inr old ↦
            rw (c, w, old)
              (load-IsRecent since now (record { cached = some graph; last_load = some t })
                (database now) l refl)
      ]
  get-IsRecent since now false m l (inr (inr (t, part, s, e, c))) =
      rw c
        (cached-IsRecent since now (record m { cached = some part }) m.last_load part t l s e refl)

  ops-IsCacheOf :
      (since : ℕ) (ops : List CacheOp) (m : Manager G)
      → AreSince since ops
      → IsCacheOf since m
      → IsCacheOf since (apply_ops ops m)
  unfolding apply_ops apply_op IsCacheOf
  ops-IsCacheOf since [] m s h = h
  ops-IsCacheOf since (gets force now ∷ ops) m (l, s) h =
      ops-IsCacheOf since ops (get_graph cache_ttl database force now m).1 s
        (get-IsRecent since now force m l h).1
  ops-IsCacheOf since (invalidates ∷ ops) m s h =
      ops-IsCacheOf since ops (invalidate m) s (inl (refl, refl))

  -- After an invalidation, whatever was cached before and whatever is called since, a get gives a
  -- graph that was built after the invalidation: what the database held now or less than the lifetime
  -- of the cache ago, or the part that a load which raised had built, of any age. It raises only if
  -- the load that it makes does.
  pub invalidated_gone :
      (since now : ℕ) (force : Bool) (ops : List CacheOp) (m : Manager G)
      → AreSince since ops
      → since ≤ now
      → IsRecentGet since now
          (get_graph cache_ttl database force now (apply_ops (invalidates ∷ ops) m)).0
  unfolding apply_ops apply_op IsCacheOf
  invalidated_gone since now force ops m s l =
      (get-IsRecent since now force (apply_ops ops (invalidate m)) l
        (ops-IsCacheOf since ops (invalidate m) s (inl (refl, refl)))).0
