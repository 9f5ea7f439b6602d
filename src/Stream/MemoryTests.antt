-- ===== src/Stream/MemoryTests.antt =====
-- The in-process stream at concrete inputs.
use fd_open_data_mcp.Base.{
  if◌then◌else◌, leb, Bool, Option, true, is_some, length, take, drop, nat_eq, list_eq, pair_eq,
  Text, codes, contains, get, put, remove, ℕ, ◌⊎◌, ◌+◌, ◌*◌, ◌/◌, ◌≡◌, refl, ◌||◌, none, some, List,
  [], ◌∷◌, map,
}
use fd_open_data_mcp.Stream.Memory.{
  EntryId, Stream, publish, read, acknowledge, reclaim, group_of, iter_range,
}
use fd_open_data_mcp.Stream.Memory.Delivery.{pending_exact}
use fd_open_data_mcp.Stream.Memory.Reads.{reads, reads_exact}
use fd_open_data_mcp.Stream.Replay.{
  Replay, Landing, row_limit, landed, new_replay, replay_from, replay,
}
use fd_open_data_mcp.Stream.Replay.Chunks.{IsReplayOf, replay_exact}

abbrev empty_stream : Stream ℕ
empty_stream = record { entries = []; seq = 0; last_ms = none; groups = [] }

abbrev ticks : ℕ → ℕ
ticks i = 500 + i

-- Three events, the first two in the same millisecond.
abbrev three_events : Stream ℕ
three_events = record {
  entries = ((5, 0), 70) ∷ ((5, 1), 71) ∷ ((6, 0), 72) ∷ [];
  seq = 0;
  last_ms = some 6;
  groups = [];
}

published : (publish (λ i. 5 + i / 2) (70 ∷ 71 ∷ 72 ∷ []) empty_stream).1 ≡ three_events
unfolding publish
published = refl

abbrev sink : Text
sink = codes "sink"

abbrev two_read : Stream ℕ
two_read = (read sink (codes "a") 2 ticks three_events).1

abbrev first_id : List EntryId
first_id = (5, 0) ∷ []

-- The second message goes to another consumer after it stood unacknowledged.
redelivered :
    (reclaim sink (codes "b") 900 100 5 (acknowledge sink first_id two_read).1).0
    ≡ ((5, 1), some 71) ∷ []
unfolding reclaim acknowledge read get put remove
redelivered = refl

pending_exact_example :
    let pending = (group_of two_read sink).pending in
    (is_some (get (group_of (read sink (codes "b") 2 ticks two_read).1 sink).pending (5, 1))
      ≡ contains (map (λ m. m.0) (read sink (codes "b") 2 ticks two_read).0) (5, 1)
        || is_some (get pending (5, 1)))
    × (get (group_of (acknowledge sink first_id two_read).1 sink).pending (5, 1)
        ≡ (if contains first_id (5, 1) then none else get pending (5, 1)))
    × (is_some (get (group_of (reclaim sink (codes "b") 900 100 2 two_read).1 sink).pending (5, 1))
        ≡ is_some (get pending (5, 1)))
pending_exact_example = pending_exact two_read sink (codes "b") 2 900 100 ticks first_id (5, 1)

reads_exact_example :
    (reads sink (codes "a") 2 (ticks ∷ ticks ∷ []) three_events).0
    ≡ take
        (length (ticks ∷ ticks ∷ []) * 2)
        (drop (group_of three_events sink).cursor three_events.entries)
reads_exact_example = reads_exact sink (codes "a") 2 (ticks ∷ ticks ∷ []) three_events

-- A session that counts the rows it was given.
abbrev count_rows : Landing ℕ ℕ
count_rows session chunk = (length chunk, session + length chunk)

-- The caller asks to stop after one chunk.
abbrev stop_after_one : Option (ℕ → Bool)
stop_after_one = some (λ chunks. leb 1 chunks)

abbrev two : ℕ
two = 2

abbrev stopped_replay : Replay ℕ
stopped_replay = record {
  session = 2;
  replayed = 2;
  chunks = 1;
  is_cancelled = true;
  reports = record { replayed = 2; chunks = 1 } ∷ [];
}

replay-stopped_replay :
    replay count_rows stop_after_one (some 5) none 2 none three_events 0 ≡ some (stopped_replay, 3)
unfolding replay replay_from landed iter_range
replay-stopped_replay = refl

replay_exact_example :
    ((two ≡ 0) × (replay count_rows stop_after_one (some 5) none 2 none three_events 0 ≡ none))
    ⊎ ((out : Replay ℕ) × (replay count_rows stop_after_one (some 5) none 2 none three_events 0
          ≡ some (out, length (iter_range (some 5) none (row_limit none) three_events)))
        × IsReplayOf count_rows stop_after_one 2
            (iter_range (some 5) none (row_limit none) three_events)
            (new_replay 0)
            out)
replay_exact_example = replay_exact count_rows stop_after_one (some 5) none 2 none three_events 0
