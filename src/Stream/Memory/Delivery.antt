-- ===== src/Stream/Memory/Delivery.antt =====
-- The pending messages of a consumer group.
use fd_open_data_mcp.Base.{
  leb, if◌then◌else◌, Bool-cases, is_some, length, take, drop, In, nat_eq, list_eq, pair_eq, ◌==◌,
  beq_refl, Text, contains, count, Dict, get, put, remove, get-put, get-remove, ℕ, zero, suc, ◌+◌,
  ◌≡◌, refl, sym, ap, ◌∙◌, inl, inr, true, ◌||◌, none, List, [], ◌∷◌, map, arith,
}
use fd_open_data_mcp.Stream.Memory.{
  EntryId, Pending, Group, Stream, group_of, with_group, deliver, read, ack_loop, acknowledge,
  index_by_id, reclaim_items, reclaim,
}

ack_loop-get :
    (eids : List EntryId) (p : Pending) (j : EntryId)
    → get (ack_loop eids p).1 j ≡ (if contains eids j then none else get p j)
unfolding ack_loop
ack_loop-get [] p j = refl
ack_loop-get (eid ∷ eids) p j =
    ack_loop-get eids (remove p eid) j
    ∙ (rw get-remove (elim (Bool-cases (eid == j)) [
      | inl e ↦ rw e (elim (Bool-cases (contains eids j)) [ inl f ↦ rw f refl | inr f ↦ rw f refl ])
      | inr e ↦ rw e refl
    ]))

In-is_some : (p : Pending) (k : EntryId) (v : Text × ℕ) → In (k, v) p → is_some (get p k) ≡ true
unfolding get
In-is_some [] k v i = absurd i
In-is_some ((j, w) ∷ p) k v i = elim (Bool-cases (j == k)) [
  | inl e ↦ rw e refl
  | inr e ↦ rw e (elim i [
    | inl same ↦
        let keys : k ≡ j = ap (λ q. q.0) same in
        absurd (ground (arith, (pair_eq.beq_iff j k).1 (sym keys)))
    | inr later ↦ In-is_some p k v later
  ])
]

is_some-put :
    (p : Pending) (k j : EntryId) (v : Text × ℕ)
    → is_some (get (put p k v) j) ≡ k == j || is_some (get p j)
is_some-put p k j v =
    rw get-put (elim (Bool-cases (k == j)) [ inl e ↦ rw e refl | inr e ↦ rw e refl ])

module _ {E : Type 0} where
  deliver-get :
      (consumer : Text) (clock : ℕ → ℕ) (i : ℕ) (ms : List (EntryId × E)) (p : Pending)
      (j : EntryId)
      → is_some (get (deliver consumer clock i ms p) j)
        ≡ contains (map (λ m. m.0) ms) j || is_some (get p j)
  unfolding deliver
  deliver-get consumer clock i [] p j = refl
  deliver-get consumer clock i ((eid, ev) ∷ ms) p j =
      deliver-get consumer clock (i + 1) ms (put p eid (consumer, clock i)) j
      ∙ (rw is_some-put (elim (Bool-cases (eid == j)) [
        | inl e ↦ rw e (elim (Bool-cases (contains (map (λ m. m.0) ms) j)) [
          | inl f ↦ rw f refl
          | inr f ↦ rw f refl
        ])
        | inr e ↦ rw e refl
      ]))

  -- A walk over items that are all pending leaves exactly the same ids pending.
  reclaim_items-get :
      (by_id : Dict EntryId E) (consumer : Text) (now idle room : ℕ) (items p : Pending)
      (j : EntryId)
      → ((k : EntryId) (v : Text × ℕ) → In (k, v) items → is_some (get p k) ≡ true)
      → is_some (get (reclaim_items by_id consumer now idle room items p).1 j) ≡ is_some (get p j)
  unfolding reclaim_items
  reclaim_items-get by_id consumer now idle room [] p j h = refl
  reclaim_items-get by_id consumer now idle zero (item ∷ items) p j h = refl
  reclaim_items-get by_id consumer now idle (suc room) ((eid, (owner, at)) ∷ items) p j h =
      let old = h eid (owner, at) (inl refl) in
      let kept : (k : EntryId) → is_some (get (put p eid (consumer, now)) k) ≡ is_some (get p k) =
        λ k. is_some-put p eid k (consumer, now) ∙ known eid k p old in
      elim (Bool-cases (leb (at + idle) now)) [
        | inl due ↦ rw due (
            reclaim_items-get by_id consumer now idle room items (put p eid (consumer, now)) j
              (λ k v i. kept k ∙ h k v (inr i))
            ∙ kept j)
        | inr young ↦ rw young (
            reclaim_items-get by_id consumer now idle (suc room) items p j (λ k v i. h k v (inr i)))
      ]
    where
      known :
          (eid k : EntryId) (p : Pending)
          → is_some (get p eid) ≡ true
          → (eid == k || is_some (get p k)) ≡ is_some (get p k)
      known eid k p old = elim (Bool-cases (eid == k)) [
        | inl e ↦ rw e (sym (ap (λ i. is_some (get p i)) (sym ((pair_eq.beq_iff eid k).0 e)) ∙ old))
        | inr e ↦ rw e refl
      ]

  group_of-same :
      (s : Stream E) (group : Text) (g : Group) → group_of (with_group s group g) group ≡ g
  group_of-same s group g = rw (get-put, beq_refl group) refl

  -- A message is pending until it is acknowledged: a read makes exactly the ids pending that it
  -- hands out, beside those that were; an acknowledgement takes exactly the given ids out and leaves
  -- the owner and the time of each other one; and a reclaim makes no id pending and takes none out.
  pub pending_exact :
      (s : Stream E) (group consumer : Text) (count now idle : ℕ) (clock : ℕ → ℕ)
      (eids : List EntryId) (j : EntryId)
      → let pending = (group_of s group).pending in
        (is_some (get (group_of (read group consumer count clock s).1 group).pending j)
          ≡ contains (map (λ m. m.0) (read group consumer count clock s).0) j
            || is_some (get pending j))
        × (get (group_of (acknowledge group eids s).1 group).pending j
            ≡ (if contains eids j then none else get pending j))
        × (is_some (get (group_of (reclaim group consumer now idle count s).1 group).pending j)
            ≡ is_some (get pending j))
  unfolding read acknowledge reclaim
  pending_exact s group consumer count now idle clock eids j =
      let g = group_of s group in
      let out = take count (drop g.cursor s.entries) in
      let p = deliver consumer clock g.cursor out g.pending in
      let walked =
        (reclaim_items (index_by_id s.entries []) consumer now idle count g.pending g.pending).1 in
      (
        ap (λ h. is_some (get h.pending j))
              (group_of-same s group (record { cursor = g.cursor + length out; pending = p }))
            ∙ deliver-get consumer clock g.cursor out g.pending j,
        ap (λ h. get h.pending j)
              (group_of-same s group (record g { pending = (ack_loop eids g.pending).1 }))
            ∙ ack_loop-get eids g.pending j,
        ap (λ h. is_some (get h.pending j)) (group_of-same s group (record g { pending = walked }))
            ∙ reclaim_items-get (index_by_id s.entries []) consumer now idle count g.pending
                g.pending j (In-is_some g.pending),
      )
