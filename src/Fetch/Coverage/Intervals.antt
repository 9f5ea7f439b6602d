-- ===== src/Fetch/Coverage/Intervals.antt =====
-- The merging of intervals and of days.
use fd_open_data_mcp.Base.{
  In, nat_eq, list_eq, pair_eq, IsAscending, ℕ, ◌+◌, ◌≤◌, max, ◌↔◌, ◌⊎◌, List, [], ◌∷◌, arith,
}
use fd_open_data_mcp.Fetch.Coverage.{
  Interval, merge_from, merge, insert_interval, sort_intervals, coalesce_from, coalesce,
  merge_intervals,
}

-- The day lies in one of the intervals.
abbrev pub Covers : List Interval → ℕ → Type 0
Covers [] d = ⊥
Covers ((a, b) ∷ is) d = ((a ≤ d) × (d ≤ b)) ⊎ Covers is d

-- Each interval has a day.
abbrev pub AreProper : List Interval → Type 0
AreProper [] = Unit
AreProper ((a, b) ∷ is) = (a ≤ b) × AreProper is

-- The intervals start at m or later, each has a day, and a day is left out between two of them.
abbrev pub AreApart : ℕ → List Interval → Type 0
AreApart m [] = Unit
AreApart m ((a, b) ∷ is) = (m ≤ a) × (a ≤ b) × AreApart (b + 2) is

-- Each interval has a day, and starts no earlier than the one before, the first not before m.
abbrev AreSorted : ℕ → List Interval → Type 0
AreSorted m [] = Unit
AreSorted m ((a, b) ∷ is) = (m ≤ a) × (a ≤ b) × AreSorted a is

insert-Covers :
    (i : Interval) (is : List Interval) (d : ℕ)
    → Covers (insert_interval i is) d ↔ Covers (i ∷ is) d
unfolding insert_interval
insert-Covers (a, b) [] d = ground arith
insert-Covers (a, b) ((x, y) ∷ is) d = ground (arith, insert-Covers (a, b) is d)

sort-Covers : (is : List Interval) (d : ℕ) → Covers (sort_intervals is) d ↔ Covers is d
unfolding sort_intervals
sort-Covers [] d = ground arith
sort-Covers ((a, b) ∷ is) d =
    ground (arith, insert-Covers (a, b) (sort_intervals is) d, sort-Covers is d)

insert-AreSorted :
    (m a b : ℕ) (is : List Interval)
    → m ≤ a
    → a ≤ b
    → AreSorted m is
    → AreSorted m (insert_interval (a, b) is)
unfolding insert_interval
insert-AreSorted m a b [] p q s = (p, q, tt)
insert-AreSorted m a b ((x, y) ∷ is) p q (r, t, s) = ground (arith, insert-AreSorted x a b is)

sort-AreSorted : (is : List Interval) → AreProper is → AreSorted 0 (sort_intervals is)
unfolding sort_intervals
sort-AreSorted [] p = tt
sort-AreSorted ((a, b) ∷ is) (p, q) =
    insert-AreSorted 0 a b (sort_intervals is) (omega arith) p (sort-AreSorted is q)

later : (m n : ℕ) (is : List Interval) → m ≤ n → AreSorted n is → AreSorted m is
later m n [] p s = tt
later m n ((a, b) ∷ is) p (q, r, s) = (omega arith, r, s)

coalesce_from-Covers :
    (lo hi : ℕ) (is : List Interval) (d : ℕ)
    → lo ≤ hi
    → AreSorted lo is
    → Covers (coalesce_from lo hi is) d ↔ Covers ((lo, hi) ∷ is) d
unfolding coalesce_from
coalesce_from-Covers lo hi [] d p s = ground arith
coalesce_from-Covers lo hi ((a, b) ∷ is) d p (q, r, s) =
    let joined = coalesce_from-Covers lo (max hi b) is d (omega arith) (later lo a is q s) in
    let parted = coalesce_from-Covers a b is d r s in ground (arith, joined, parted)

coalesce_from-AreApart :
    (m lo hi : ℕ) (is : List Interval)
    → m ≤ lo
    → lo ≤ hi
    → AreSorted lo is
    → AreApart m (coalesce_from lo hi is)
unfolding coalesce_from
coalesce_from-AreApart m lo hi [] p q s = (p, q, tt)
coalesce_from-AreApart m lo hi ((a, b) ∷ is) p q (r, t, s) =
    let joined = coalesce_from-AreApart m lo (max hi b) is p (omega arith) (later lo a is r s) in
    let parted = coalesce_from-AreApart (hi + 2) a b is in ground (arith, joined, parted)

coalesce-Covers :
    (is : List Interval) (d : ℕ) → AreSorted 0 is → Covers (coalesce is) d ↔ Covers is d
unfolding coalesce
coalesce-Covers [] d s = ground arith
coalesce-Covers ((a, b) ∷ is) d (p, q, s) = coalesce_from-Covers a b is d q s

coalesce-AreApart : (is : List Interval) → AreSorted 0 is → AreApart 0 (coalesce is)
unfolding coalesce
coalesce-AreApart [] s = tt
coalesce-AreApart ((a, b) ∷ is) (p, q, s) = coalesce_from-AreApart 0 a b is (omega arith) q s

-- Merging intervals that each have a day gives intervals that are ascending and leave at least one
-- day out between any two, and that cover a day exactly if one of the given intervals covers it.
pub merge_intervals_exact :
    (is : List Interval)
    → AreProper is
    → AreApart 0 (merge_intervals is) × ((d : ℕ) → Covers (merge_intervals is) d ↔ Covers is d)
unfolding merge_intervals
merge_intervals_exact is p =
    let s = sort-AreSorted is p in
    (
      coalesce-AreApart (sort_intervals is) s,
      λ d.
          (let c = coalesce-Covers (sort_intervals is) d s in
            let e = sort-Covers is d in ground (arith, c, e)),
    )

-- Merged days: intervals apart from one another that cover exactly the days given.
merge_from-AreApart :
    (m lo hi : ℕ) (ds : List ℕ)
    → m ≤ lo
    → lo ≤ hi
    → IsAscending (hi ∷ ds)
    → AreApart m (merge_from lo hi ds)
unfolding merge_from
merge_from-AreApart m lo hi [] p q s = (p, q, tt)
merge_from-AreApart m lo hi (d ∷ ds) p q (r, s) =
    let joined = merge_from-AreApart m lo d ds p (omega arith) s in
    let parted = merge_from-AreApart (hi + 2) d d ds in ground (arith, joined, parted)

merge_from-Covers :
    (lo hi : ℕ) (ds : List ℕ) (d : ℕ)
    → lo ≤ hi
    → IsAscending (hi ∷ ds)
    → Covers (merge_from lo hi ds) d ↔ (((lo ≤ d) × (d ≤ hi)) ⊎ In d ds)
unfolding merge_from
merge_from-Covers lo hi [] d p s = ground arith
merge_from-Covers lo hi (x ∷ ds) d p (r, s) =
    let joined = merge_from-Covers lo x ds d (omega arith) s in
    let parted = merge_from-Covers x x ds d (omega arith) s in ground (arith, joined, parted)

pub merge-AreApart : (ds : List ℕ) → IsAscending ds → AreApart 0 (merge ds)
unfolding merge
merge-AreApart [] s = tt
merge-AreApart (d ∷ ds) s = merge_from-AreApart 0 d d ds (omega arith) (omega arith) s

pub merge-Covers : (ds : List ℕ) (d : ℕ) → IsAscending ds → Covers (merge ds) d ↔ In d ds
unfolding merge
merge-Covers [] d s = ground arith
merge-Covers (x ∷ ds) d s = let e = merge_from-Covers x x ds d (omega arith) s in ground (arith, e)
