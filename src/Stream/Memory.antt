-- ===== src/Stream/Memory.antt =====
-- The in-process stream with consumer groups (fd_open_data_mcp/stream/memory.py). The type of an
-- envelope is a parameter. An entry id is the pair of numbers that its text is made of, and a clock
-- gives the reading at each turn of a loop.
pub mod Delivery
pub mod Reads
use fd_open_data_mcp.Base.{
  leb, if◌then◌else◌, is_some, get_default, length, take, drop, filter_by, nat_eq, list_eq, pair_eq,
  ◌==◌, Text, count, Dict, get, put, remove, ℕ, zero, suc, ◌+◌, max, Bool, true, false, ◌&&◌,
  Option, none, some, List, [], ◌∷◌, ◌++◌,
}

abbrev pub EntryId : Type 0
EntryId = ℕ × ℕ

-- The owner of a delivered message, and the time of the delivery.
abbrev pub Pending : Type 0
Pending = Dict EntryId (Text × ℕ)

pub record Group : Type 0 where
  pub cursor : ℕ
  pub pending : Pending

abbrev pub new_group : Group
new_group = record { cursor = 0; pending = [] }

-- `last_ms` is absent before the first entry, where the code has -1.
pub record Stream (E : Type 0) : Type 0 where
  pub entries : List (EntryId × E)
  pub seq : ℕ
  pub last_ms : Option ℕ
  pub groups : Dict Text Group

abbrev pub is_last : Option ℕ → ℕ → Bool
is_last none ms = false
is_last (some last) ms = ms == last

unfoldable pub ack_loop : List EntryId → Pending → ℕ × Pending
ack_loop [] p = (0, p)
ack_loop (eid ∷ eids) p =
    let (n, p') = ack_loop eids (remove p eid) in (if is_some (get p eid) then n + 1 else n, p')

module _ {E : Type 0} where
  unfoldable pub next_entry_id : ℕ → Stream E → EntryId × Stream E
  next_entry_id ms s =
      let n = if is_last s.last_ms ms then s.seq + 1 else 0 in
      ((ms, n), record s { seq = n; last_ms = some ms })

  unfoldable pub publish_loop : (ℕ → ℕ) → ℕ → List E → Stream E → Stream E
  unfolding next_entry_id
  publish_loop clock i [] s = s
  publish_loop clock i (ev ∷ events) s =
      let (entry_id, s') = next_entry_id (clock i) s in
      publish_loop clock (i + 1) events
        (record s' { entries = s'.entries ++ ((entry_id, ev) ∷ []) })

  unfoldable pub publish : (ℕ → ℕ) → List E → Stream E → ℕ × Stream E
  unfolding publish_loop
  publish clock events s = (length events, publish_loop clock 0 events s)

  -- The group, made where it is missing.
  abbrev pub group_of : Stream E → Text → Group
  group_of s group = get_default (get s.groups group) new_group

  abbrev pub with_group : Stream E → Text → Group → Stream E
  with_group s group g = record s { groups = put s.groups group g }

  -- The messages are handed out, each recorded as pending for the consumer.
  unfoldable pub deliver : Text → (ℕ → ℕ) → ℕ → List (EntryId × E) → Pending → Pending
  deliver consumer clock i [] p = p
  deliver consumer clock i ((entry_id, ev) ∷ ms) p =
      deliver consumer clock (i + 1) ms (put p entry_id (consumer, clock i))

  unfoldable pub read : Text → Text → ℕ → (ℕ → ℕ) → Stream E → List (EntryId × E) × Stream E
  unfolding deliver
  read group consumer count clock s =
      let g = group_of s group in
      let out = take count (drop g.cursor s.entries) in
      (
        out,
        with_group s group (record {
          cursor = g.cursor + length out;
          pending = deliver consumer clock g.cursor out g.pending;
        }),
      )

  unfoldable pub acknowledge : Text → List EntryId → Stream E → ℕ × Stream E
  unfolding ack_loop
  acknowledge group entry_ids s =
      let g = group_of s group in
      let (n, p) = ack_loop entry_ids g.pending in
      (n, with_group s group (record g { pending = p }))

  -- `{eid: ev for eid, ev in entries}`
  unfoldable pub index_by_id : List (EntryId × E) → Dict EntryId E → Dict EntryId E
  index_by_id [] d = d
  index_by_id ((eid, ev) ∷ es) d = index_by_id es (put d eid ev)

  -- The walk over the pending items with room for `room` more messages. A message with no envelope
  -- stands for the KeyError of a pending id that no entry has.
  unfoldable pub reclaim_items :
      Dict EntryId E → Text → ℕ → ℕ → ℕ → Pending → Pending → List (EntryId × Option E) × Pending
  reclaim_items by_id consumer now min_idle_ms room [] p = ([], p)
  reclaim_items by_id consumer now min_idle_ms zero (item ∷ items) p = ([], p)
  reclaim_items by_id consumer now min_idle_ms (suc room) ((eid, (owner, at)) ∷ items) p =
      let (out, p') =
        reclaim_items by_id consumer now min_idle_ms room items (put p eid (consumer, now)) in
      let next = reclaim_items by_id consumer now min_idle_ms (suc room) items p in
      if leb (at + min_idle_ms) now then ((eid, get by_id eid) ∷ out, p') else next

  unfoldable pub reclaim : Text → Text → ℕ → ℕ → ℕ → Stream E → List (EntryId × Option E) × Stream E
  unfolding reclaim_items index_by_id
  reclaim group consumer now min_idle_ms count s =
      let g = group_of s group in
      let (out, p) =
        reclaim_items (index_by_id s.entries []) consumer now min_idle_ms count g.pending
          g.pending in
      (out, with_group s group (record g { pending = p }))

  -- `iter_range`, with both ends optional and the count at which it stops.
  abbrev pub in_range : Option ℕ → Option ℕ → EntryId × E → Bool
  in_range start_ms end_ms ((ms, n), ev) =
      leb (get_default start_ms 0) ms && elim end_ms [ none ↦ true | some last ↦ leb ms last ]

  unfoldable pub iter_range : Option ℕ → Option ℕ → ℕ → Stream E → List (EntryId × E)
  iter_range start_ms end_ms max_count s =
      take (max 1 max_count) (filter_by (in_range start_ms end_ms) s.entries)
