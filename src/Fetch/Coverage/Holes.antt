-- ===== src/Fetch/Coverage/Holes.antt =====
-- The interior of a series and its holes.
use fd_open_data_mcp.Base.{
  ltb, leb, if◌then◌else◌, lt→ltb, Bool-cases, In, nat_eq, list_eq, pair_eq, IsAscending, ℕ, ◌+◌,
  ◌-◌, ◌*◌, ◌≤◌, ◌<◌, ◌≡◌, ◌↔◌, ◌⊎◌, inl, inr, true, ◌&&◌, List, [], ◌∷◌, ◌++◌, arith,
}
use fd_open_data_mcp.Fetch.Coverage.{
  Interval, width, merge, total_width, wide, holes, last, interior,
}
use fd_open_data_mcp.Fetch.Coverage.Intervals.{
  Covers, AreProper, AreApart, merge-AreApart, merge-Covers,
}

pub Covers-append :
    (is js : List Interval) (d : ℕ) → Covers (is ++ js) d ↔ (Covers is d ⊎ Covers js d)
Covers-append [] js d = ground arith
Covers-append ((a, b) ∷ is) js d = ground (arith, Covers-append is js d)

pub AreProper-append : (is js : List Interval) → AreProper is → AreProper js → AreProper (is ++ js)
AreProper-append [] js p q = q
AreProper-append ((a, b) ∷ is) js (r, p) q = (r, AreProper-append is js p q)

pub apart_weaker : (m n : ℕ) (is : List Interval) → m ≤ n → AreApart n is → AreApart m is
apart_weaker m n [] p s = tt
apart_weaker m n ((a, b) ∷ is) p (q, r, s) = (omega arith, r, s)

pub apart_after : (m : ℕ) (is : List Interval) (d : ℕ) → AreApart m is → Covers is d → m ≤ d
apart_after m [] d s c = absurd c
apart_after m ((a, b) ∷ is) d (p, q, s) (inl c) = omega (arith, c.1)
apart_after m ((a, b) ∷ is) d (p, q, s) (inr c) =
    let e = apart_after (b + 2) is d s c in omega arith

pub wide-Covers : (m lo hi d : ℕ) → Covers (wide m lo hi) d → (lo ≤ d) × (d ≤ hi)
wide-Covers m lo hi d c = ground arith

pub wide-all : (m lo hi d : ℕ) → m ≤ 1 → lo ≤ d → d ≤ hi → Covers (wide m lo hi) d
wide-all m lo hi d p q r = ground arith

pub wide-AreProper : (m lo hi : ℕ) → lo ≤ hi → AreProper (wide m lo hi)
wide-AreProper m lo hi p = ground arith

pub holes_sound :
    (m hi cursor : ℕ) (is : List Interval) (d : ℕ)
    → AreApart cursor is
    → Covers (holes m hi cursor is) d
    → (cursor ≤ d) × ¬ (Covers is d)
unfolding holes
holes_sound m hi cursor [] d s c = ground arith
holes_sound m hi cursor ((a, b) ∷ is) d (p, q, s) c =
    let next = apart_weaker (b + 1) (b + 2) is (omega arith) s in
    let rest = holes_sound m hi (b + 1) is d next in
    let after = apart_after (b + 2) is d s in
    let split =
      Covers-append (if ltb cursor a then wide m cursor (a - 1) else []) (holes m hi (b + 1) is)
        d in
    ground (arith, rest, after, split, c)

pub holes-all :
    (m hi cursor : ℕ) (is : List Interval) (d : ℕ)
    → m ≤ 1
    → cursor ≤ d
    → d ≤ hi
    → ¬ (Covers is d)
    → Covers (holes m hi cursor is) d
unfolding holes
holes-all m hi cursor [] d p q r n = ground arith
holes-all m hi cursor ((a, b) ∷ is) d p q r n =
    let rest = holes-all m hi (b + 1) is d p in
    let split =
      Covers-append (if ltb cursor a then wide m cursor (a - 1) else []) (holes m hi (b + 1) is)
        d in
    ground (arith, rest, split)

pub holes-AreProper : (m hi cursor : ℕ) (is : List Interval) → AreProper (holes m hi cursor is)
unfolding holes
holes-AreProper m hi cursor [] = ground arith
holes-AreProper m hi cursor ((a, b) ∷ is) =
    AreProper-append (if ltb cursor a then wide m cursor (a - 1) else []) (holes m hi (b + 1) is)
      (ground arith) (holes-AreProper m hi (b + 1) is)

pub first-least : (x : ℕ) (xs : List ℕ) (d : ℕ) → IsAscending (x ∷ xs) → In d (x ∷ xs) → x ≤ d
first-least x [] d s i = ground arith
first-least x (y ∷ xs) d (p, s) i = let later = first-least y xs d s in ground (arith, later)

pub last-above : (x : ℕ) (xs : List ℕ) → IsAscending (x ∷ xs) → x ≤ last x xs
last-above x [] s = omega arith
last-above x (y ∷ xs) (p, s) = let later = last-above y xs s in omega (arith, later)

pub last-greatest :
    (x : ℕ) (xs : List ℕ) (d : ℕ) → IsAscending (x ∷ xs) → In d (x ∷ xs) → d ≤ last x xs
last-greatest x [] d s i = ground arith
last-greatest x (y ∷ xs) d (p, s) i =
    let later = last-greatest y xs d s in
    let above = last-above y xs s in ground (arith, later, above)

pub apart_from :
    (lo : ℕ) (is : List Interval)
    → AreApart 0 is
    → ((d : ℕ) → Covers is d → lo ≤ d)
    → AreApart lo is
apart_from lo [] s f = tt
apart_from lo ((a, b) ∷ is) (p, q, s) f = (f a (inl (omega arith, q)), q, s)

pub holes-bounded :
    (m hi cursor : ℕ) (is : List Interval) (d : ℕ)
    → AreApart cursor is
    → ((k : ℕ) → Covers is k → k ≤ hi)
    → Covers (holes m hi cursor is) d
    → d ≤ hi
unfolding holes
holes-bounded m hi cursor [] d s f c = ground arith
holes-bounded m hi cursor ((a, b) ∷ is) d (p, q, s) f c =
    let next = apart_weaker (b + 1) (b + 2) is (omega arith) s in
    let rest = holes-bounded m hi (b + 1) is d next (λ k v. f k (inr v)) in
    let starts = f a (inl (omega arith, q)) in
    let split =
      Covers-append (if ltb cursor a then wide m cursor (a - 1) else []) (holes m hi (b + 1) is)
        d in
    ground (arith, rest, starts, split, c)

-- The interior of a series whose days are not before lo.
pub interior_sound :
    (m c lo hi : ℕ) (dates : List ℕ) (d : ℕ)
    → IsAscending dates
    → ((k : ℕ) → In k dates → (lo ≤ k) × (k ≤ hi))
    → Covers (interior m c lo hi dates) d
    → (lo ≤ d) × (d ≤ hi) × ¬ (In d dates)
unfolding interior
interior_sound m c lo hi dates d s f =
    elim (Bool-cases (leb lo hi && ltb (total_width (merge dates) * 100) (c * width lo hi))) [
      | inr skipped ↦ rw skipped (λ k. absurd k)
      | inl walked ↦
          let from =
            apart_from lo (merge dates) (merge-AreApart dates s)
              (λ k v. (f k ((merge-Covers dates k s).0 v)).0) in
          let sound = holes_sound m hi lo (merge dates) d from in
          let below =
            holes-bounded m hi lo (merge dates) d from
              (λ k v. (f k ((merge-Covers dates k s).0 v)).1) in
          let same = merge-Covers dates d s in
          rw walked (λ k. (ground (arith, sound k, below k, same)))
    ]

pub interior-AreProper : (m c lo hi : ℕ) (dates : List ℕ) → AreProper (interior m c lo hi dates)
unfolding interior
interior-AreProper m c lo hi dates =
    elim (Bool-cases (leb lo hi && ltb (total_width (merge dates) * 100) (c * width lo hi))) [
      | inr skipped ↦ rw skipped tt
      | inl walked ↦ rw walked (holes-AreProper m hi lo (merge dates))
    ]

pub interior-all :
    (m c lo hi : ℕ) (dates : List ℕ) (d : ℕ)
    → IsAscending dates
    → m ≤ 1
    → lo ≤ d
    → d ≤ hi
    → total_width (merge dates) * 100 < c * width lo hi
    → ¬ (In d dates)
    → Covers (interior m c lo hi dates) d
unfolding interior
interior-all m c lo hi dates d s p q r t n =
    let inside : leb lo hi ≡ true = ground arith in
    let sparse = lt→ltb (total_width (merge dates) * 100) (c * width lo hi) t in
    let same = merge-Covers dates d s in
    rw (inside, sparse) (holes-all m hi lo (merge dates) d p q r (λ v. n (same.0 v)))
