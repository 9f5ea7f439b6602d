-- ===== src/Base/Sets.antt =====
-- `sorted(set(xs))` of numbers: the ascending list without repetitions, which stands for the set.
use Prim.Native.Nat.{ℕ, ◌<◌}
use mathlib.Core.Path.{◌≡◌, refl}
use mathlib.Core.Logic.{◌↔◌, ◌⊎◌}
use mathlib.Core.List.{List, [], ◌∷◌}
use native.Mathlib.Omega.{arith}
use fd_open_data_mcp.Base.Tests.{ltb, nat_beq, if◌then◌else◌}
use fd_open_data_mcp.Base.Lists.{In}

unfoldable pub insert_new : ℕ → List ℕ → List ℕ
insert_new a [] = a ∷ []
insert_new a (x ∷ xs) =
    let rest = insert_new a xs in
    if ltb a x then a ∷ x ∷ xs else if nat_beq a x then x ∷ xs else x ∷ rest

unfoldable pub sorted_set : List ℕ → List ℕ
unfolding insert_new
sorted_set [] = []
sorted_set (x ∷ xs) = insert_new x (sorted_set xs)

-- Each number is less than the next one.
abbrev pub IsAscending : List ℕ → Type 0
IsAscending [] = Unit
IsAscending (x ∷ []) = Unit
IsAscending (x ∷ y ∷ xs) = (x < y) × IsAscending (y ∷ xs)

insert_new-IsAscending : (a : ℕ) (xs : List ℕ) → IsAscending xs → IsAscending (insert_new a xs)
unfolding insert_new
insert_new-IsAscending a [] u = tt
insert_new-IsAscending a (x ∷ []) u = ground arith
insert_new-IsAscending a (x ∷ y ∷ xs) (u, v) = ground (arith, insert_new-IsAscending a (y ∷ xs) v)

pub sorted_set-IsAscending : (xs : List ℕ) → IsAscending (sorted_set xs)
unfolding sorted_set
sorted_set-IsAscending [] = tt
sorted_set-IsAscending (x ∷ xs) =
    insert_new-IsAscending x (sorted_set xs) (sorted_set-IsAscending xs)

In-insert_new : (b a : ℕ) (xs : List ℕ) → In b (insert_new a xs) ↔ ((b ≡ a) ⊎ In b xs)
unfolding insert_new
In-insert_new b a [] = ground arith
In-insert_new b a (x ∷ xs) = ground (arith, In-insert_new b a xs)

pub In-sorted_set : (b : ℕ) (xs : List ℕ) → In b (sorted_set xs) ↔ In b xs
unfolding sorted_set
In-sorted_set b [] = ground arith
In-sorted_set b (x ∷ xs) = ground (arith, In-insert_new b x (sorted_set xs), In-sorted_set b xs)

tail-IsAscending : (x : ℕ) (xs : List ℕ) → IsAscending (x ∷ xs) → IsAscending xs
tail-IsAscending x [] u = tt
tail-IsAscending x (y ∷ xs) (p, u) = u

insert_new-first : (x : ℕ) (xs : List ℕ) → IsAscending (x ∷ xs) → insert_new x xs ≡ x ∷ xs
unfolding insert_new
insert_new-first x [] u = refl
insert_new-first x (y ∷ xs) u = ground arith

-- An ascending list is its own sorted set.
pub sorted_set-of_ascending : (xs : List ℕ) → IsAscending xs → sorted_set xs ≡ xs
unfolding sorted_set
sorted_set-of_ascending [] u = refl
sorted_set-of_ascending (x ∷ xs) u =
    rw (sorted_set-of_ascending xs (tail-IsAscending x xs u)) (insert_new-first x xs u)
