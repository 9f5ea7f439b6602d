-- ===== src/Base/Lists.antt =====
-- Lists measured by native numbers, under the library's names, and predicates on them by recursion.
use Prim.Native.Nat.{ℕ, zero, suc, ◌+◌, ◌-◌, min}
use mathlib.Core.Path.{◌≡◌, refl, sym, ap, ◌∙◌}
use mathlib.Core.Logic.{◌⊎◌, ◌↔◌, inl, inr}
use mathlib.Core.Bool.{Bool, true, false}
use mathlib.Core.List.{List, [], ◌∷◌, ◌++◌}
use mathlib.Core.Option.{Option, none, some}
use native.Mathlib.Omega.{arith}
use fd_open_data_mcp.Base.Tests.{if◌then◌else◌}

module _ {ℓ} {A : Type ℓ} where
  abbrev pub length : List A → ℕ
  length [] = 0
  length (x ∷ xs) = suc (length xs)

  abbrev pub take : ℕ → List A → List A
  take zero xs = []
  take (suc n) [] = []
  take (suc n) (x ∷ xs) = x ∷ take n xs

  abbrev pub drop : ℕ → List A → List A
  drop zero xs = xs
  drop (suc n) [] = []
  drop (suc n) (x ∷ xs) = drop n xs

  abbrev pub replicate : ℕ → A → List A
  replicate zero a = []
  replicate (suc n) a = a ∷ replicate n a

  -- `[x for x in xs if p(x)]`; the library's `filter` wants a decision instead of a test.
  abbrev pub filter_by : (A → Bool) → List A → List A
  filter_by p [] = []
  filter_by p (x ∷ xs) = let rest = filter_by p xs in if p x then x ∷ rest else rest

  -- `all(p(x) for x in xs)`
  abbrev pub all_of : (A → Bool) → List A → Bool
  all_of p [] = true
  all_of p (x ∷ xs) = let rest = all_of p xs in if p x then rest else false

-- Membership with its place kept.
abbrev pub In : {A : Type 0} → A → List A → Type 0
In a [] = ⊥
In a (x ∷ xs) = (a ≡ x) ⊎ In a xs

module _ {A : Type 0} where
  pub In-append : (a : A) (xs ys : List A) → In a (xs ++ ys) ↔ (In a xs ⊎ In a ys)
  In-append a [] ys = ground arith
  In-append a (x ∷ xs) ys = ground (arith, In-append a xs ys)

  pub In-filter_by :
      (p : A → Bool) (a : A) (xs : List A) → In a (filter_by p xs) ↔ (In a xs × (p a ≡ true))
  In-filter_by p a [] = ground arith
  In-filter_by p a (x ∷ xs) = ground (arith, In-filter_by p a xs)

-- `[y for x in xs if (y := f(x)) is not None]`
abbrev pub collect {ℓ κ} : {A : Type ℓ} {B : Type κ} → (A → Option B) → List A → List B
collect f [] = []
collect f (x ∷ xs) = let rest = collect f xs in elim (f x) [ none ↦ rest | some y ↦ y ∷ rest ]

module _ {A B : Type 0} (f : A → Option B) where
  pub In-collect : (b : B) (xs : List A) → In b (collect f xs) → (a : A) × In a xs × (f a ≡ some b)
  In-collect b [] h = absurd h
  In-collect b (x ∷ xs) h = go (f x) refl h (In-collect b xs)
    where
      go :
          (o : Option B)
          → f x ≡ o
          → In b (elim o [ none ↦ collect f xs | some y ↦ y ∷ collect f xs ])
          → (In b (collect f xs) → (a : A) × In a xs × (f a ≡ some b))
          → (a : A) × In a (x ∷ xs) × (f a ≡ some b)
      go none e k later = let (a, i, q) = later k in (a, inr i, q)
      go (some y) e (inl k) later = (x, inl refl, e ∙ ap some (sym k))
      go (some y) e (inr k) later = let (a, i, q) = later k in (a, inr i, q)

  pub collect-In : (a : A) (b : B) (xs : List A) → In a xs → f a ≡ some b → In b (collect f xs)
  collect-In a b [] i e = absurd i
  collect-In a b (x ∷ xs) i e = ground (arith, collect-In a b xs)

module _ {ℓ} {A : Type ℓ} where
  pub length-append : (xs ys : List A) → length (xs ++ ys) ≡ length xs + length ys
  length-append [] ys = omega arith
  length-append (x ∷ xs) ys = omega (arith, length-append xs ys)

  pub length-take : (n : ℕ) (xs : List A) → length (take n xs) ≡ min n (length xs)
  length-take zero xs = omega arith
  length-take (suc n) [] = omega arith
  length-take (suc n) (x ∷ xs) = omega (arith, length-take n xs)

  pub length-drop : (n : ℕ) (xs : List A) → length (drop n xs) ≡ length xs - n
  length-drop zero xs = omega arith
  length-drop (suc n) [] = omega arith
  length-drop (suc n) (x ∷ xs) = omega (arith, length-drop n xs)

  pub take-append-drop : (n : ℕ) (xs : List A) → take n xs ++ drop n xs ≡ xs
  take-append-drop zero xs = refl
  take-append-drop (suc n) [] = refl
  take-append-drop (suc n) (x ∷ xs) = ap (λ r. x ∷ r) (take-append-drop n xs)

  pub drop-drop : (i m : ℕ) (ids : List A) → drop m (drop i ids) ≡ drop (i + m) ids
  drop-drop zero m ids = let same : m ≡ 0 + m = omega arith in ap (λ k. drop k ids) same
  drop-drop (suc i) zero [] = let same : suc i ≡ suc i + 0 = omega arith in ap (λ k. drop k []) same
  drop-drop (suc i) (suc m) [] =
      let same : suc (i + suc m) ≡ suc i + suc m = omega arith in ap (λ k. drop k []) same
  drop-drop (suc i) m (x ∷ ids) =
      let same : suc (i + m) ≡ suc i + m = omega arith in
      drop-drop i m ids ∙ ap (λ k. drop k (x ∷ ids)) same

  pub drop-length-take : (n : ℕ) (xs : List A) → drop (length (take n xs)) xs ≡ drop n xs
  drop-length-take zero xs = refl
  drop-length-take (suc n) [] = refl
  drop-length-take (suc n) (x ∷ xs) = drop-length-take n xs

  pub take-append-take : (m n : ℕ) (xs : List A) → take m xs ++ take n (drop m xs) ≡ take (m + n) xs
  take-append-take zero n xs = let same : n ≡ 0 + n = omega arith in ap (λ k. take k xs) same
  take-append-take (suc m) n (x ∷ xs) =
      let same : suc (m + n) ≡ suc m + n = omega arith in
      ap (λ r. x ∷ r) (take-append-take m n xs) ∙ ap (λ k. take k (x ∷ xs)) same
  take-append-take (suc m) zero [] =
      let same : suc (m + 0) ≡ suc m + 0 = omega arith in ap (λ k. take k []) same
  take-append-take (suc m) (suc n) [] =
      let same : suc (m + suc n) ≡ suc m + suc n = omega arith in ap (λ k. take k []) same
