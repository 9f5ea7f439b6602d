-- ===== src/Stream/Replay/Chunks.antt =====
-- What a replay lands.
use fd_open_data_mcp.Base.{
  ltb, Bool-cases, length, take, drop, take-append-drop, length-take, ltb→lt, drop-drop,
  length-drop, ℕ, zero, suc, ◌+◌, ◌-◌, ◌≤◌, Bool, true, false, Option, none, some, List, [], ◌∷◌,
  ◌++◌, ◌≡◌, refl, ap, ◌∙◌, sym, ◌⊎◌, inl, inr, arith,
}
use mathlib.Core.List.{append_assoc}
use fd_open_data_mcp.Crawl.Split.{concat}
use fd_open_data_mcp.Stream.Memory.{EntryId, Stream, iter_range}
use fd_open_data_mcp.Stream.Replay.{
  Replay, Landing, is_stopped, row_limit, landed, replay_from, new_replay, replay,
}

unfoldable pub AllSized {ℓ} : {A : Type ℓ} → ℕ → List (List A) → Type 0
AllSized n [] = Unit
AllSized n (c ∷ cs) = ((1 ≤ length c) × (length c ≤ n)) × AllSized n cs

-- Nobody asked to stop before any of the chunks; k were landed before them.
unfoldable pub IsUnstopped {ℓ} : {A : Type ℓ} → Option (ℕ → Bool) → ℕ → List A → Type 0
IsUnstopped should_cancel k [] = Unit
IsUnstopped should_cancel k (c ∷ cs) =
    (is_stopped should_cancel k ≡ false) × IsUnstopped should_cancel (suc k) cs

empty_of {ℓ} : {A : Type ℓ} (xs : List A) → length xs ≡ 0 → [] ≡ xs
empty_of [] h = refl
empty_of (x ∷ xs) h = absurd (omega (arith, h))

module _ {S E : Type 0} where
  unfoldable pub land_each : Landing S E → Replay S → List (List (EntryId × E)) → Replay S
  land_each land_events r [] = r
  land_each land_events r (c ∷ cs) = land_each land_events (landed land_events r c) cs

  -- The chunks landed are all of the entries, or those before a stop.
  abbrev pub IsReplayOf :
      Landing S E → Option (ℕ → Bool) → ℕ → List (EntryId × E) → Replay S → Replay S → Type 0
  IsReplayOf land_events should_cancel n msgs r out =
      (cs : List (List (EntryId × E))) × AllSized n cs
      × IsUnstopped should_cancel r.chunks cs
      × (((out ≡ land_each land_events r cs) × (concat cs ≡ msgs))
          ⊎ ((out ≡ record (land_each land_events r cs) { is_cancelled = true })
              × (is_stopped should_cancel (land_each land_events r cs).chunks ≡ true)
              × ((rest : List (EntryId × E)) × (1 ≤ length rest) × (concat cs ++ rest ≡ msgs))))

  with_chunk :
      (land_events : Landing S E) (should_cancel : Option (ℕ → Bool)) (n : ℕ)
      (msgs : List (EntryId × E)) (r : Replay S) {left : List (EntryId × E)} {out : Replay S}
      → 1 ≤ n
      → 1 ≤ length msgs
      → drop n msgs ≡ left
      → is_stopped should_cancel r.chunks ≡ false
      → IsReplayOf land_events should_cancel n left (landed land_events r (take n msgs)) out
      → IsReplayOf land_events should_cancel n msgs r out
  unfolding land_each AllSized IsUnstopped landed
  with_chunk land_events should_cancel n msgs r p q e g (cs, sized, asked, inl (same, all)) = (
    take n msgs ∷ cs,
    (
      (let t = length-take n msgs in ground arith, let t = length-take n msgs in ground arith),
      sized,
    ),
    (g, asked),
    inl (same, ap (λ x. take n msgs ++ x) (all ∙ sym e) ∙ take-append-drop n msgs),
  )
  with_chunk land_events should_cancel n msgs r p q e g
        (cs, sized, asked, inr (same, stop, (rest, more, all))) =
      (
        take n msgs ∷ cs,
        (
          (let t = length-take n msgs in ground arith, let t = length-take n msgs in ground arith),
          sized,
        ),
        (g, asked),
        inr (
          same,
          stop,
          (
            rest,
            more,
            append_assoc (take n msgs) (concat cs) rest
                ∙ ap (λ x. take n msgs ++ x) (all ∙ sym e)
                ∙ take-append-drop n msgs,
          ),
        ),
      )

  replay_from-IsReplayOf :
      (land_events : Landing S E) (should_cancel : Option (ℕ → Bool)) (n : ℕ)
      (msgs : List (EntryId × E)) (f i : ℕ) (r : Replay S)
      → 1 ≤ n
      → length msgs - i ≤ f
      → IsReplayOf land_events should_cancel n
          (drop i msgs)
          r
          (replay_from land_events should_cancel n msgs f i r)
  unfolding land_each AllSized IsUnstopped landed replay_from
  replay_from-IsReplayOf land_events should_cancel n msgs zero i r p q =
      ([], tt, tt, inl (refl, empty_of (drop i msgs) (omega (arith, length-drop i msgs))))
  replay_from-IsReplayOf land_events should_cancel n msgs (suc f) i r p q =
      elim (Bool-cases (ltb i (length msgs))) [
        | inl more ↦ elim (Bool-cases (is_stopped should_cancel r.chunks)) [
          | inl stop ↦
              rw (more, stop)
                (
                  [],
                  tt,
                  tt,
                  inr (
                    refl,
                    stop,
                    (
                      drop i msgs,
                      omega (arith, length-drop i msgs, ltb→lt i (length msgs) more),
                      refl,
                    ),
                  ),
                )
          | inr go ↦
              rw (more, go)
                (with_chunk land_events should_cancel n (drop i msgs) r p
                  (let same = length-drop i msgs in ground arith) (drop-drop i n msgs) go
                  (replay_from-IsReplayOf land_events should_cancel n msgs f (i + n)
                    (landed land_events r (take n (drop i msgs))) p (ground arith)))
        ]
        | inr done ↦ rw done (
          [],
          tt,
          tt,
          inl (refl, empty_of (drop i msgs) (let same = length-drop i msgs in ground arith)),
        )
      ]

  -- A replay raises if its chunks have no size; else it ends with the state that landing the
  -- entries of the range leaves, in order, each once, in chunks within the size, or with the state
  -- that landing those before a stop leaves, where entries remain. It stops before the first chunk
  -- at which the caller asks to. Its counts and reports are those of the landings.
  pub replay_exact :
      (land_events : Landing S E) (should_cancel : Option (ℕ → Bool)) (start_ms end_ms : Option ℕ)
      (chunk_size : ℕ) (max_rows : Option ℕ) (s : Stream E) (session : S)
      → ((chunk_size ≡ 0)
          × (replay land_events should_cancel start_ms end_ms chunk_size max_rows s session ≡ none))
        ⊎ ((out : Replay S) × (replay land_events should_cancel start_ms end_ms chunk_size max_rows
                s session
              ≡ some (out, length (iter_range start_ms end_ms (row_limit max_rows) s)))
            × IsReplayOf land_events should_cancel chunk_size
                (iter_range start_ms end_ms (row_limit max_rows) s)
                (new_replay session)
                out)
  unfolding replay
  replay_exact land_events should_cancel start_ms end_ms zero max_rows s session = inl (refl, refl)
  replay_exact land_events should_cancel start_ms end_ms (suc n) max_rows s session =
      let msgs = iter_range start_ms end_ms (row_limit max_rows) s in
      inr (
        _,
        refl,
        replay_from-IsReplayOf land_events should_cancel (suc n) msgs (length msgs) 0
            (new_replay session) (omega arith) (omega arith),
      )
