-- ===== src/Stream/Memory/Reads.antt =====
-- Reads of a group in a row.
use fd_open_data_mcp.Base.{
  length, take, drop, drop-drop, drop-length-take, take-append-take, nat_eq, list_eq, pair_eq,
  beq_refl, Text, count, get-put, ℕ, suc, ◌+◌, ◌*◌, ◌≡◌, refl, sym, ap, ◌∙◌, List, [], ◌∷◌, ◌++◌,
  arith,
}
use fd_open_data_mcp.Stream.Memory.{EntryId, Group, Stream, group_of, with_group, deliver, read}

module _ {E : Type 0} where
  -- One read for each clock in the list.
  unfoldable pub reads : Text → Text → ℕ → List (ℕ → ℕ) → Stream E → List (EntryId × E) × Stream E
  reads group consumer count [] s = ([], s)
  reads group consumer count (clock ∷ clocks) s =
      let (out, s') = read group consumer count clock s in
      let (later, s'') = reads group consumer count clocks s' in (out ++ later, s'')

  after_read :
      (group consumer : Text) (count : ℕ) (clock : ℕ → ℕ) (s : Stream E)
      → let s' = (read group consumer count clock s).1 in
        drop (group_of s' group).cursor s'.entries
        ≡ drop count (drop (group_of s group).cursor s.entries)
  unfolding read
  after_read group consumer count clock s =
      let g = group_of s group in
      let rest = drop g.cursor s.entries in
      let moved : Group = record {
        cursor = g.cursor + length (take count rest);
        pending = deliver consumer clock g.cursor (take count rest) g.pending;
      } in
      let found : group_of (with_group s group moved) group ≡ moved =
        rw (get-put, beq_refl group) refl in
      ap (λ h. drop h.cursor s.entries) found
      ∙ sym (drop-drop g.cursor (length (take count rest)) s.entries)
      ∙ drop-length-take count rest

  -- However many reads of a group follow one another, together they hand out, in the stream's order
  -- and each once, the entries from the group's cursor on: as many as the reads have room for, or
  -- all that there are.
  pub reads_exact :
      (group consumer : Text) (count : ℕ) (clocks : List (ℕ → ℕ)) (s : Stream E)
      → (reads group consumer count clocks s).0
        ≡ take (length clocks * count) (drop (group_of s group).cursor s.entries)
  unfolding reads
  reads_exact group consumer count [] s =
      let none_left : 0 ≡ 0 * count = omega arith in
      ap (λ k. take k (drop (group_of s group).cursor s.entries)) none_left
  reads_exact group consumer count (clock ∷ clocks) s =
      let rest = drop (group_of s group).cursor s.entries in
      let s' = (read group consumer count clock s).1 in
      let total : count + length clocks * count ≡ suc (length clocks) * count = omega arith in
      ap (λ l. (read group consumer count clock s).0 ++ l)
        (reads_exact group consumer count clocks s'
          ∙ ap (take (length clocks * count)) (after_read group consumer count clock s))
      ∙ first_read group consumer count clock s (take (length clocks * count) (drop count rest))
      ∙ take-append-take count (length clocks * count) rest
      ∙ ap (λ k. take k rest) total
    where
      first_read :
          (group consumer : Text) (count : ℕ) (clock : ℕ → ℕ) (s : Stream E)
          (l : List (EntryId × E))
          → (read group consumer count clock s).0 ++ l
            ≡ take count (drop (group_of s group).cursor s.entries) ++ l
      first_read group consumer count clock s l = unfold read in refl
