-- ===== src/Stream/Replay.antt =====
-- fd_open_data_mcp/stream/replay.py: the replay of a range of entries in chunks. The landing of a
-- chunk is a parameter that does not raise, and so are the answers of `should_cancel`, by the chunks landed before.
pub mod Chunks
use fd_open_data_mcp.Base.{
  ltb, if◌then◌else◌, length, take, drop, ℕ, zero, suc, ◌+◌, Bool, true, false, Option, none, some,
  List, [], ◌∷◌, ◌++◌,
}
use fd_open_data_mcp.Stream.Memory.{Stream, EntryId, iter_range}

-- What `progress` is given after a chunk, where there is one.
pub record ProgressReport : Type 0 where
  pub replayed : ℕ
  pub chunks : ℕ

pub record Replay (S : Type 0) : Type 0 where
  pub session : S
  pub replayed : ℕ
  pub chunks : ℕ
  pub is_cancelled : Bool
  pub reports : List ProgressReport

-- `land_events`: how many it lands, and what it leaves.
abbrev pub Landing : Type 0 → Type 0 → Type 0
Landing S E = S → List (EntryId × E) → ℕ × S

abbrev pub is_stopped : Option (ℕ → Bool) → ℕ → Bool
is_stopped none chunks = false
is_stopped (some should_cancel) chunks = should_cancel chunks

-- `max_rows or 10_000_000`
abbrev pub row_limit : Option ℕ → ℕ
row_limit none = 10000000
row_limit (some zero) = 10000000
row_limit (some (suc n)) = suc n

abbrev pub new_replay : {S : Type 0} → S → Replay S
new_replay session = record {
  session = session;
  replayed = 0;
  chunks = 0;
  is_cancelled = false;
  reports = [];
}

module _ {S E : Type 0} where
  unfoldable pub landed : Landing S E → Replay S → List (EntryId × E) → Replay S
  landed land_events r chunk =
      let out = land_events r.session chunk in
      record r {
        session = out.1;
        replayed = r.replayed + out.0;
        chunks = suc r.chunks;
        reports =
            r.reports ++ (record { replayed = r.replayed + out.0; chunks = suc r.chunks } ∷ []);
      }

  -- The loop from the position i; the fuel is at least what is left.
  unfoldable pub replay_from :
      Landing S E → Option (ℕ → Bool) → ℕ → List (EntryId × E) → ℕ → ℕ → Replay S → Replay S
  unfolding landed
  replay_from land_events should_cancel chunk_size msgs zero i r = r
  replay_from land_events should_cancel chunk_size msgs (suc f) i r =
      let chunk = take chunk_size (drop i msgs) in
      let rest =
        replay_from land_events should_cancel chunk_size msgs f (i + chunk_size)
          (landed land_events r chunk) in
      if ltb i (length msgs)
      then (if is_stopped should_cancel r.chunks then record r { is_cancelled = true } else rest)
      else r

  -- `none` where the chunks have no size, which raises.
  abbrev pub replay_all :
      Landing S E → Option (ℕ → Bool) → ℕ → List (EntryId × E) → S → Option (Replay S × ℕ)
  replay_all land_events should_cancel zero msgs session = none
  replay_all land_events should_cancel (suc n) msgs session = some (
    replay_from land_events should_cancel (suc n) msgs (length msgs) 0 (new_replay session),
    length msgs,
  )

  unfoldable pub replay :
      Landing S E
      → Option (ℕ → Bool)
      → Option ℕ
      → Option ℕ
      → ℕ
      → Option ℕ
      → Stream E
      → S
      → Option (Replay S × ℕ)
  unfolding replay_from
  replay land_events should_cancel start_ms end_ms chunk_size max_rows s session =
      replay_all land_events should_cancel chunk_size
        (iter_range start_ms end_ms (row_limit max_rows) s) session

  -- `replay_events`
  abbrev pub replay_events : Landing S E → List (EntryId × E) → S → ℕ × S
  replay_events land_events messages session = land_events session messages
