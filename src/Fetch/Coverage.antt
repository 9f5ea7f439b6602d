-- ===== src/Fetch/Coverage.antt =====
-- Gap detection of a series (fd_open_data_mcp/fetch/coverage.py). A day is its ordinal, so the next
-- day is one more, and the order of the ISO texts is the order of the numbers. The minimal coverage
-- is in hundredths.
pub mod Intervals
pub mod Holes
pub mod Gaps
use fd_open_data_mcp.Base.{
  ltb, leb, nat_beq, if◌then◌else◌, is_some, filter_by, nat_eq, list_eq, pair_eq, contains,
  sorted_set, ℕ, ◌+◌, ◌-◌, ◌*◌, min, max, Bool, true, false, not, ◌&&◌, ◌||◌, Option, none, some,
  List, [], ◌∷◌, ◌++◌,
}

-- An inclusive interval of days.
abbrev pub Interval : Type 0
Interval = ℕ × ℕ

abbrev pub default_min_hole_days : ℕ
default_min_hole_days = 5

abbrev pub default_min_coverage : ℕ
default_min_coverage = 98

pub record Coverage : Type 0 where
  pub span_start : Option ℕ
  pub span_end : Option ℕ
  pub present : List ℕ
  pub gaps : List Interval
  pub known_empty : List Interval

unfoldable pub complete : Coverage → Bool
complete c = elim c.gaps [ [] ↦ true | g ∷ gs ↦ false ]

unfoldable pub fetchable : Coverage → List Interval
fetchable c = filter_by (λ g. not (contains c.known_empty g)) c.gaps

unfoldable pub cold : Coverage → Bool
cold c = not (is_some c.span_start)

abbrev pub width : ℕ → ℕ → ℕ
width start end = end - start + 1

-- The interval under construction, and the days still to come; the list ends with the former.
unfoldable pub merge_from : ℕ → ℕ → List ℕ → List Interval
merge_from lo hi [] = (lo, hi) ∷ []
merge_from lo hi (d ∷ ds) =
    let joined = merge_from lo d ds in
    let parted = merge_from d d ds in if nat_beq (hi + 1) d then joined else (lo, hi) ∷ parted

-- `_merge`, of days that are sorted already.
unfoldable pub merge : List ℕ → List Interval
unfolding merge_from
merge [] = []
merge (d ∷ ds) = merge_from d d ds

-- `sorted(intervals)`, by the first day and then the last one.
abbrev interval_le : Interval → Interval → Bool
interval_le (a, b) (c, d) = ltb a c || (nat_beq a c && leb b d)

unfoldable insert_interval : Interval → List Interval → List Interval
insert_interval i [] = i ∷ []
insert_interval i (j ∷ js) =
    let rest = insert_interval i js in if interval_le i j then i ∷ j ∷ js else j ∷ rest

unfoldable pub sort_intervals : List Interval → List Interval
unfolding insert_interval
sort_intervals [] = []
sort_intervals (i ∷ is) = insert_interval i (sort_intervals is)

unfoldable pub coalesce_from : ℕ → ℕ → List Interval → List Interval
coalesce_from lo hi [] = (lo, hi) ∷ []
coalesce_from lo hi ((a, b) ∷ is) =
    let joined = coalesce_from lo (max hi b) is in
    let parted = coalesce_from a b is in if leb a (hi + 1) then joined else (lo, hi) ∷ parted

unfoldable coalesce : List Interval → List Interval
unfolding coalesce_from
coalesce [] = []
coalesce ((a, b) ∷ is) = coalesce_from a b is

unfoldable pub merge_intervals : List Interval → List Interval
unfolding sort_intervals coalesce
merge_intervals is = coalesce (sort_intervals is)

unfoldable pub clip : ℕ → ℕ → List Interval → List Interval
clip start end [] = []
clip start end ((lo, hi) ∷ is) =
    let rest = clip start end is in
    if leb (max lo start) (min hi end) then (max lo start, min hi end) ∷ rest else rest

unfoldable pub total_width : List Interval → ℕ
total_width [] = 0
total_width ((a, b) ∷ is) = width a b + total_width is

-- The interval lo .. hi as a gap, where it is wide enough.
abbrev pub wide : ℕ → ℕ → ℕ → List Interval
wide min_hole_days lo hi = if leb min_hole_days (width lo hi) then (lo, hi) ∷ [] else []

-- The walk over the present intervals: the holes before, between and after them.
unfoldable pub holes : ℕ → ℕ → ℕ → List Interval → List Interval
holes min_hole_days inner_hi cursor [] =
    if leb cursor inner_hi then wide min_hole_days cursor inner_hi else []
holes min_hole_days inner_hi cursor ((hole_start, hole_end) ∷ is) =
    let rest = holes min_hole_days inner_hi (hole_end + 1) is in
    (if ltb cursor hole_start then wide min_hole_days cursor (hole_start - 1) else []) ++ rest

abbrev pub first : ℕ → List ℕ → ℕ
first d [] = d
first d (x ∷ xs) = x

abbrev pub last : ℕ → List ℕ → ℕ
last d [] = d
last d (x ∷ xs) = last x xs

-- The interior gaps, where too little of the span inside the window is covered.
unfoldable pub interior : ℕ → ℕ → ℕ → ℕ → List ℕ → List Interval
unfolding merge total_width holes
interior min_hole_days min_coverage inner_lo inner_hi dates =
    if leb inner_lo inner_hi
      && ltb (total_width (merge dates) * 100) (min_coverage * width inner_lo inner_hi)
    then holes min_hole_days inner_hi inner_lo (merge dates)
    else []

-- The gaps of a series with points, from its first day to its last one.
unfoldable pub span_gaps : ℕ → ℕ → ℕ → ℕ → List ℕ → ℕ → ℕ → List Interval
unfolding interior
span_gaps min_hole_days min_coverage start end dates span_start span_end =
    (if ltb start span_start then wide min_hole_days start (span_start - 1) else [])
    ++ ((if ltb span_end end then wide min_hole_days (span_end + 1) end else [])
        ++ interior min_hole_days min_coverage (max start span_start) (min end span_end) dates)

unfoldable coverage_of : List ℕ → List ℕ → ℕ → ℕ → ℕ → ℕ → List Interval → Coverage
unfolding clip merge_intervals span_gaps
coverage_of dates [] start end min_hole_days min_coverage [] = record {
  span_start = none;
  span_end = none;
  present = [];
  gaps = (start, end) ∷ [];
  known_empty = [];
}
coverage_of dates [] start end min_hole_days min_coverage (k ∷ ks) = record {
  span_start = none;
  span_end = none;
  present = dates;
  gaps = merge_intervals (clip start end (k ∷ ks));
  known_empty = merge_intervals (clip start end (k ∷ ks));
}
coverage_of dates (x ∷ xs) start end min_hole_days min_coverage known = record {
  span_start = some x;
  span_end = some (last x xs);
  present = dates;
  gaps =
      merge_intervals (
        clip start end known ++ span_gaps min_hole_days min_coverage start end dates x (last x xs));
  known_empty = merge_intervals (clip start end known);
}

-- `none` where the start is after the end, which raises.
unfoldable pub coverage : List ℕ → ℕ → ℕ → ℕ → ℕ → List Interval → Option Coverage
unfolding coverage_of
coverage all_dates start end min_hole_days min_coverage known_empty =
    if ltb end start
    then none
    else some (
        coverage_of (sorted_set (filter_by (λ d. leb start d && leb d end) all_dates))
          (sorted_set all_dates) start end min_hole_days min_coverage known_empty)
