-- ===== src/Stream/RedisLease/Reclaim.antt =====
-- How the Redis layout stores what a reclaim leaves, in the order in which the leases are given.
use fd_open_data_mcp.Base.{
  ltb, if◌then◌else◌, length, collect, nat_eq, list_eq, pair_eq, beq_refl, list_beq_iff, Text, Dict,
  get, remove, get-remove, IsUnique, map_values, remove-map_values, ℕ, suc, ◌+◌, ◌≡◌, refl, sym, ap,
  ◌∙◌, ◌⊎◌, inl, inr, true, false, Option, none, some, List, [], ◌∷◌, arith,
}
use mathlib.Core.List.{map-append}
use fd_open_data_mcp.Stream.Lease.{
  WorkItem, LeasedItem, Lease, Queue, expired_id, expired_ids, reclaim_one,
}
use fd_open_data_mcp.Stream.Lease
use fd_open_data_mcp.Stream.RedisLease.{
  Json, RedisQueue, split_bar, lease_value, token_of, Expiry, leaves, takes, fails, expiry,
  expiry_rest, expiry_parts, expiry_at, take_back, HashOrder, entries_of, hgetall,
}
use fd_open_data_mcp.Stream.RedisLease
use fd_open_data_mcp.Stream.RedisLease.Entries.{
  entries_of-map_values, entries_of-IsUnique, get-entries_of,
}
use fd_open_data_mcp.Stream.RedisLease.Refinement.{
  stored, stored_lease, IsPlain, IsStorable, expiry-stored,
}

loop_leaves :
    (now n : ℕ) (id val : Text) (es : Dict Text Text) (q : RedisQueue)
    → expiry now val ≡ leaves
    → RedisLease.reclaim_loop now ((id, val) ∷ es) n q ≡ RedisLease.reclaim_loop now es n q
unfolding RedisLease.reclaim_loop
loop_leaves now n id val es q h = rw (RedisLease.reclaim_loop, h) refl

loop_takes :
    (now n : ℕ) (id val raw : Text) (es : Dict Text Text) (q : RedisQueue)
    → expiry now val ≡ takes raw
    → RedisLease.reclaim_loop now ((id, val) ∷ es) n q
      ≡ RedisLease.reclaim_loop now es (suc n) (take_back id raw q)
unfolding RedisLease.reclaim_loop
loop_takes now n id val raw es q h = rw (RedisLease.reclaim_loop, h) refl

collect-none :
    {A B : Type 0} (f : A → Option B) (x : A) (xs : List A)
    → f x ≡ none
    → collect f (x ∷ xs) ≡ collect f xs
collect-none f x xs h = rw (collect, h) refl

collect-some :
    {A B : Type 0} (f : A → Option B) (x : A) (y : B) (xs : List A)
    → f x ≡ some y
    → collect f (x ∷ xs) ≡ y ∷ collect f xs
collect-some f x y xs h = rw (collect, h) refl

module _ (json : Json) where
  reclaim_one-stored :
      (id : Text) (l : Lease) (q : Queue)
      → get q.leased id ≡ some l
      → take_back id (json.dumps l.held_item) (stored json q) ≡ stored json (reclaim_one id q)
  unfolding take_back reclaim_one stored
  reclaim_one-stored id l q h =
      rw
        (
          h,
          remove-map_values (stored_lease json) q.leased id,
          map-append (λ (it : WorkItem). json.dumps it) q.available (l.held_item ∷ []),
        )
        refl

  pub reclaim_one-leased :
      (id : Text) (l : Lease) (q : Queue)
      → get q.leased id ≡ some l
      → (reclaim_one id q).leased ≡ remove q.leased id
  unfolding reclaim_one
  reclaim_one-leased id l q h = rw h refl

  expired_or_not :
      (now : ℕ) (id : Text) (l : Lease)
      → ((ltb now l.until_ms ≡ true) × (expired_id now (id, l) ≡ none))
        ⊎ ((ltb now l.until_ms ≡ false) × (expired_id now (id, l) ≡ some id))
  expired_or_not now id l = ground arith

  -- The rest of the leases, each of which the queue still holds.
  abbrev AreHeld : Dict Text Lease → Queue → Type 0
  AreHeld es q =
      (id : Text) (l : Lease) → get es id ≡ some l → (get q.leased id ≡ some l) × IsPlain l.token

  rest-AreHeld :
      (id : Text) (l : Lease) (es : Dict Text Lease) (q : Queue)
      → IsUnique ((id, l) ∷ es)
      → AreHeld ((id, l) ∷ es) q
      → AreHeld es q
  unfolding get
  rest-AreHeld id l es q (u, v) h j k e = h j k (ground (arith, list_beq_iff id j, u, e))

  reclaimed-AreHeld :
      (id : Text) (l : Lease) (es : Dict Text Lease) (q : Queue)
      → IsUnique ((id, l) ∷ es)
      → get q.leased id ≡ some l
      → AreHeld es q
      → AreHeld es (reclaim_one id q)
  reclaimed-AreHeld id l es q (u, v) g h j k e =
      let (held, plain) = h j k e in
      (
        ap (λ d. get d j) (reclaim_one-leased id l q g)
            ∙ get-remove q.leased id j
            ∙ ground (arith, list_beq_iff id j, u, e, held),
        plain,
      )

  -- What the stored loop gives for these expired ids.
  abbrev outcome : ℕ → List Text → Queue → Option ℕ × RedisQueue
  outcome n expired q = (some (n + length expired), stored json (Lease.reclaim_loop expired q))

  expired_none :
      (now n : ℕ) (id : Text) (l : Lease) (es : Dict Text Lease) (q : Queue)
      → expired_id now (id, l) ≡ none
      → outcome n (collect (expired_id now) es) q
        ≡ outcome n (collect (expired_id now) ((id, l) ∷ es)) q
  expired_none now n id l es q h =
      ap (λ ids. outcome n ids q) (sym (collect-none (expired_id now) (id, l) es h))

  expired_one :
      (now n : ℕ) (id : Text) (l : Lease) (es : Dict Text Lease) (q : Queue)
      → expired_id now (id, l) ≡ some id
      → outcome (suc n) (collect (expired_id now) es) (reclaim_one id q)
        ≡ outcome n (collect (expired_id now) ((id, l) ∷ es)) q
  unfolding Lease.reclaim_loop
  expired_one now n id l es q h =
      let expired = collect (expired_id now) es in
      let more : suc n + length expired ≡ n + suc (length expired) = omega arith in
      ap (λ k. (some k, stored json (Lease.reclaim_loop (id ∷ expired) q))) more
      ∙ ap (λ ids. outcome n ids q) (sym (collect-some (expired_id now) (id, l) id es h))

  reclaim_loop-stored :
      (es : Dict Text Lease) (now n : ℕ) (q : Queue)
      → IsUnique es
      → AreHeld es q
      → let expired = collect (expired_id now) es in
        RedisLease.reclaim_loop now (map_values (stored_lease json) es) n (stored json q)
        ≡ (some (n + length expired), stored json (Lease.reclaim_loop expired q))
  unfolding RedisLease.reclaim_loop Lease.reclaim_loop get
  reclaim_loop-stored [] now n q u h = ap (λ k. (some k, stored json q)) (omega arith)
  reclaim_loop-stored ((id, l) ∷ es) now n q (u, v) h =
      let (held, plain) = h id l (ground (arith, beq_refl id)) in
      let later = rest-AreHeld id l es q (u, v) h in
      let raw = json.dumps l.held_item in
      let val = stored_lease json id l in
      let rest = map_values (stored_lease json) es in
      let read = expiry-stored now l.token l.until_ms raw plain in
      elim (expired_or_not now id l) [
        | inl (live, none_expired) ↦
            loop_leaves now n id val rest (stored json q)
              (read ∙ ap (λ b. if b then leaves else takes raw) live)
            ∙ reclaim_loop-stored es now n q v later
            ∙ expired_none now n id l es q none_expired
        | inr (over, id_expired) ↦
            loop_takes now n id val raw rest (stored json q)
              (read ∙ ap (λ b. if b then leaves else takes raw) over)
            ∙ ap (RedisLease.reclaim_loop now rest (suc n)) (reclaim_one-stored id l q held)
            ∙ reclaim_loop-stored es now (suc n) (reclaim_one id q) v
                (reclaimed-AreHeld id l es q (u, v) held later)
            ∙ expired_one now n id l es q id_expired
      ]

  -- The ids of the leases in the order in which Redis gives the stored ones.
  abbrev pub redis_order : HashOrder → Queue → List Text
  redis_order hash q = hash.fields (map_values (stored_lease json) q.leased)

  pub reclaim-stored :
      (hash : HashOrder) (now : ℕ) (q : Queue)
      → IsStorable q
      → let ids = collect (expired_id now) (entries_of (redis_order hash q) q.leased) in
        RedisLease.reclaim_expired hash now (stored json q)
        ≡ (some (length ids), stored json (Lease.reclaim_loop ids q))
  unfolding RedisLease.reclaim_expired hgetall stored
  reclaim-stored hash now q (u, plain) =
      let fields = redis_order hash q in
      let es = entries_of fields q.leased in
      let once =
        entries_of-IsUnique fields q.leased
          (hash.fields-once (map_values (stored_lease json) q.leased)) in
      ap (λ d. RedisLease.reclaim_loop now d 0 (stored json q))
        (entries_of-map_values (stored_lease json) fields q.leased)
      ∙ reclaim_loop-stored es now 0 q once
          (λ id l h. let held = get-entries_of fields q.leased id l h in (held, plain id l held))
      ∙ ap (λ k. (some k, stored json (Lease.reclaim_loop (collect (expired_id now) es) q)))
          (omega arith)
