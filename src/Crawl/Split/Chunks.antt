-- ===== src/Crawl/Split/Chunks.antt =====
-- The chunks of a list of ids.
use fd_open_data_mcp.Base.{
  ltb, Bool-cases, length, take, drop, length-take, length-drop, take-append-drop, drop-drop,
  nat_eq, list_eq, pair_eq, ℕ, zero, suc, ◌+◌, ◌-◌, ◌≤◌, ◌≡◌, refl, sym, ap, ◌∙◌, ◌⊎◌, inl, inr,
  none, some, List, [], ◌∷◌, ◌++◌, map, arith,
}
use fd_open_data_mcp.Crawl.Split.{concat, range_by, slice, chunk_ids}

pub drop-all : (i : ℕ) (ids : List ℕ) → length ids ≤ i → drop i ids ≡ []
drop-all zero [] p = refl
drop-all zero (x ∷ ids) p = absurd (omega arith)
drop-all (suc i) [] p = refl
drop-all (suc i) (x ∷ ids) p = drop-all i ids (omega arith)

pub concat-slices :
    (f i m : ℕ) (ids : List ℕ)
    → 1 ≤ m
    → length ids - i ≤ f
    → concat (map (slice ids m) (range_by f i (length ids) m)) ≡ drop i ids
unfolding range_by
concat-slices zero i m ids p q = sym (drop-all i ids (omega arith))
concat-slices (suc f) i m ids p q = elim (Bool-cases (ltb i (length ids))) [
  | inl more ↦ rw more (
      ap (λ r. take m (drop i ids) ++ r)
        (concat-slices f (i + m) m ids p (ground arith) ∙ sym (drop-drop i m ids))
      ∙ take-append-drop m (drop i ids))
  | inr done ↦ rw done (sym (drop-all i ids (ground arith)))
]

-- Every group is a slice that starts inside the list.
abbrev pub AllSized : ℕ → List (List ℕ) → Type 0
AllSized m [] = Unit
AllSized m (g ∷ gs) = ((1 ≤ length g) × (length g ≤ m)) × AllSized m gs

pub slices-AllSized :
    (f i m : ℕ) (ids : List ℕ)
    → 1 ≤ m
    → AllSized m (map (slice ids m) (range_by f i (length ids) m))
unfolding range_by
slices-AllSized zero i m ids p = tt
slices-AllSized (suc f) i m ids p = elim (Bool-cases (ltb i (length ids))) [
  | inl more ↦ rw more (
      let size = length-take m (drop i ids) in
      let left = length-drop i ids in
      ((ground arith, ground arith), slices-AllSized f (i + m) m ids p))
  | inr done ↦ rw done tt
]

-- Chunking with a cap of at least one succeeds; the chunks joined are the list again, and each has
-- at least one id and at most the cap. With no cap it raises.
pub chunk_ids_exact :
    (ids : List ℕ) (m : ℕ)
    → (m ≡ 0 × chunk_ids ids m ≡ none)
      ⊎ ((groups : List (List ℕ)) × (chunk_ids ids m ≡ some groups)
          × (concat groups ≡ ids)
          × AllSized m groups)
unfolding chunk_ids
chunk_ids_exact ids m = elim (Bool-cases (ltb m 1)) [
  | inl small ↦ inl (ground arith, rw small refl)
  | inr big ↦ inr (
    map (slice ids m) (range_by (length ids) 0 (length ids) m),
    rw big refl,
    concat-slices (length ids) 0 m ids (ground arith) (omega arith),
    slices-AllSized (length ids) 0 m ids (ground arith),
  )
]
