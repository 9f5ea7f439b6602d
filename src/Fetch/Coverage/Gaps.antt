-- ===== src/Fetch/Coverage/Gaps.antt =====
-- The gaps of a window.
use fd_open_data_mcp.Base.{
  ltb, leb, if◌then◌else◌, Bool-cases, filter_by, In, In-filter_by, nat_eq, list_eq, pair_eq,
  sorted_set, IsAscending, sorted_set-IsAscending, In-sorted_set, ℕ, ◌+◌, ◌-◌, ◌*◌, ◌≤◌, ◌<◌, min,
  max, ◌≡◌, refl, ◌↔◌, ◌⊎◌, inl, inr, false, ◌&&◌, some, List, [], ◌∷◌, ◌++◌, arith,
}
use fd_open_data_mcp.Fetch.Coverage.{
  Coverage, width, merge, clip, total_width, wide, last, interior, span_gaps, coverage_of, coverage,
}
use fd_open_data_mcp.Fetch.Coverage.Intervals.{Covers, AreProper, AreApart, merge_intervals_exact}
use fd_open_data_mcp.Fetch.Coverage.Holes.{
  Covers-append, AreProper-append, first-least, last-greatest, interior_sound, interior-AreProper,
  interior-all,
}

span_gaps-AreProper :
    (m c start end : ℕ) (dates : List ℕ) (x y : ℕ) → AreProper (span_gaps m c start end dates x y)
unfolding span_gaps
span_gaps-AreProper m c start end dates x y =
    AreProper-append (if ltb start x then wide m start (x - 1) else [])
      ((if ltb y end then wide m (y + 1) end else [])
        ++ interior m c (max start x) (min end y) dates)
      (ground arith)
      (AreProper-append (if ltb y end then wide m (y + 1) end else [])
        (interior m c (max start x) (min end y) dates) (ground arith)
        (interior-AreProper m c (max start x) (min end y) dates))

span_gaps-Covers :
    (m c start end : ℕ) (dates : List ℕ) (x y d : ℕ)
    → Covers (span_gaps m c start end dates x y) d ↔ (
        Covers (if ltb start x then wide m start (x - 1) else []) d
        ⊎ (Covers (if ltb y end then wide m (y + 1) end else []) d
            ⊎ Covers (interior m c (max start x) (min end y) dates) d))
unfolding span_gaps
span_gaps-Covers m c start end dates x y d =
    let lead =
      Covers-append (if ltb start x then wide m start (x - 1) else [])
        ((if ltb y end then wide m (y + 1) end else [])
          ++ interior m c (max start x) (min end y) dates)
        d in
    let trail =
      Covers-append (if ltb y end then wide m (y + 1) end else [])
        (interior m c (max start x) (min end y) dates) d in
    ground (arith, lead, trail)

-- A series of days `whole`, of which `dates` are those in the window.
abbrev AreWindow : ℕ → ℕ → List ℕ → List ℕ → Type 0
AreWindow start end whole dates = (k : ℕ) → In k dates ↔ (In k whole × (start ≤ k) × (k ≤ end))

span_gaps_sound :
    (m c start end : ℕ) (dates : List ℕ) (x : ℕ) (xs : List ℕ) (d : ℕ)
    → IsAscending (x ∷ xs)
    → IsAscending dates
    → AreWindow start end (x ∷ xs) dates
    → Covers (span_gaps m c start end dates x (last x xs)) d
    → ¬ (In d (x ∷ xs))
span_gaps_sound m c start end dates x xs d s t w v i =
    let least = first-least x xs d s i in
    let greatest = last-greatest x xs d s i in
    let inner = interior_sound m c (max start x) (min end (last x xs)) dates d t (λ k j.
      (let (a, b, e) = (w k).0 j in
        let above = first-least x xs k s a in
        let below = last-greatest x xs k s a in (omega arith, omega arith))) in
    let parts = (span_gaps-Covers m c start end dates x (last x xs) d).0 v in
    let same = w d in
    elim parts [
      | inl lead ↦ ground (arith, lead)
      | inr (inl trail) ↦ ground (arith, trail)
      | inr (inr middle) ↦ let (a, b, n) = inner middle in n (same.1 (i, omega arith, omega arith))
    ]

span_gaps-all :
    (m c start end : ℕ) (dates : List ℕ) (x : ℕ) (xs : List ℕ) (d : ℕ)
    → IsAscending dates
    → AreWindow start end (x ∷ xs) dates
    → m ≤ 1
    → start ≤ d
    → d ≤ end
    → total_width (merge dates) * 100 < c * width (max start x) (min end (last x xs))
    → ¬ (In d (x ∷ xs))
    → Covers (span_gaps m c start end dates x (last x xs)) d
span_gaps-all m c start end dates x xs d t w p q r sparse n =
    let parts = span_gaps-Covers m c start end dates x (last x xs) d in
    let same = w d in
    elim (Bool-cases (ltb d x)) [
      | inl before ↦ parts.1 (inl (ground arith))
      | inr k ↦ elim (Bool-cases (ltb (last x xs) d)) [
        | inl after ↦ parts.1 (inr (inl (ground arith)))
        | inr l ↦ parts.1 (
            inr (
              inr (
                interior-all m c (max start x) (min end (last x xs)) dates d t p (ground arith)
                  (ground arith) sparse (λ i. n (same.0 i).0))))
      ]
    ]

-- The days of the window that the series has, as the code takes them.
abbrev pub window : List ℕ → ℕ → ℕ → List ℕ
window all start end = filter_by (λ d. leb start d && leb d end) all

In-window :
    (all : List ℕ) (start end d : ℕ)
    → In d (window all start end) ↔ (In d all × (start ≤ d) × (d ≤ end))
In-window all start end d =
    let e = In-filter_by (λ k. leb start k && leb k end) d all in ground (arith, e)

window-AreWindow :
    (all : List ℕ) (start end : ℕ)
    → AreWindow start end (sorted_set all) (sorted_set (window all start end))
window-AreWindow all start end k =
    let e = In-window all start end k in
    let f = In-sorted_set k (window all start end) in
    let g = In-sorted_set k all in ground (arith, e, f, g)

-- Too few of the days between the first and the last point inside the window have a point.
abbrev pub IsSparse : ℕ → ℕ → ℕ → List ℕ → List ℕ → Type 0
IsSparse c start end dates [] = Unit
IsSparse c start end dates (x ∷ xs) =
    total_width (merge dates) * 100 < c * width (max start x) (min end (last x xs))

abbrev pub HasGaps : ℕ → ℕ → ℕ → ℕ → List ℕ → List ℕ → Coverage → Type 0
HasGaps m c start end whole dates cov =
    AreApart 0 cov.gaps
    × ((d : ℕ) → Covers cov.gaps d → ¬ (In d whole))
    × ((d : ℕ)
        → m ≤ 1
        → IsSparse c start end dates whole
        → start ≤ d
        → d ≤ end
        → ¬ (In d whole)
        → Covers cov.gaps d)

coverage_of-HasGaps :
    (whole dates : List ℕ) (start end m c : ℕ)
    → start ≤ end
    → IsAscending whole
    → IsAscending dates
    → AreWindow start end whole dates
    → HasGaps m c start end whole dates (coverage_of dates whole start end m c [])
unfolding coverage_of clip
coverage_of-HasGaps [] dates start end m c p s t w =
    ((omega arith, p, tt), (λ d v i. absurd i), λ d q r a b n. inl (a, b))
coverage_of-HasGaps (x ∷ xs) dates start end m c p s t w =
    let gaps = span_gaps m c start end dates x (last x xs) in
    let (apart, same) =
      merge_intervals_exact gaps (span_gaps-AreProper m c start end dates x (last x xs)) in
    (
      apart,
      (λ d v. span_gaps_sound m c start end dates x xs d s t w ((same d).0 v)),
      λ d q r a b n. (same d).1 (span_gaps-all m c start end dates x xs d t w q a b r n),
    )

-- The coverage of a window, with no interval known to be empty, raises only where the start is
-- after the end. Its gaps are ascending with a day left out between any two, and on no day of a gap
-- has the series a point. With a minimal hole of one day or none, and too few points between the
-- first and the last one inside the window, each day of the window with no point lies in a gap.
pub coverage_exact :
    (all : List ℕ) (start end m c : ℕ)
    → start ≤ end
    → (cov : Coverage) × (coverage all start end m c [] ≡ some cov)
      × HasGaps m c start end (sorted_set all) (sorted_set (window all start end)) cov
unfolding coverage
coverage_exact all start end m c p =
    let ordered : ltb end start ≡ false = ground arith in
    (
      coverage_of (sorted_set (window all start end)) (sorted_set all) start end m c [],
      rw ordered refl,
      coverage_of-HasGaps (sorted_set all) (sorted_set (window all start end)) start end m c p
          (sorted_set-IsAscending all) (sorted_set-IsAscending (window all start end))
          (window-AreWindow all start end),
    )
