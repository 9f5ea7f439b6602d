-- ===== src/Base/Equality.antt =====
-- Equality tests: an interface, with its instances at numbers, texts and pairs. A text is the list
-- of its code points.
use Prim.Native.Nat.{ℕ, suc, ◌+◌}
use Prim.Native.Char.{code}
use Prim.Native.String.{String}
use mathlib.Core.Path.{◌≡◌, refl}
use mathlib.Core.Logic.{◌↔◌}
use mathlib.Core.Bool.{Bool, true, false, ◌&&◌, ◌||◌}
use mathlib.Core.List.{List, [], ◌∷◌, ◌++◌}
use native.Mathlib.Omega.{arith}
use fd_open_data_mcp.Base.Tests.{nat_beq, nat_beq_iff, ltb, if◌then◌else◌}

pub record Eq {ℓ} (K : Type ℓ) : Type ℓ where
  pub beq : K → K → Bool
  pub beq_iff : (j k : K) → (beq j k ≡ true) ↔ (j ≡ k)

instance abbrev pub nat_eq : Eq ℕ
nat_eq = record { beq = nat_beq; beq_iff = nat_beq_iff }

infix 50 ◌==◌
abbrev pub ◌==◌ {ℓ} : {K : Type ℓ} ⦃d : Eq K⦄ (j k : K) → Bool
◌==◌ ⦃d⦄ j k = d.beq j k

pub beq_refl {ℓ} : {A : Type ℓ} ⦃e : Eq A⦄ (a : A) → (a == a) ≡ true
beq_refl ⦃e⦄ a = (e.beq_iff a a).1 refl

module _ {ℓ} {A : Type ℓ} ⦃e : Eq A⦄ where
  abbrev pub list_beq : List A → List A → Bool
  list_beq [] [] = true
  list_beq [] (b ∷ t) = false
  list_beq (a ∷ s) [] = false
  list_beq (a ∷ s) (b ∷ t) = a == b && list_beq s t

  pub list_beq_iff : (s t : List A) → (list_beq s t ≡ true) ↔ (s ≡ t)
  list_beq_iff [] [] = ground arith
  list_beq_iff [] (b ∷ t) = ground arith
  list_beq_iff (a ∷ s) [] = ground arith
  list_beq_iff (a ∷ s) (b ∷ t) = ground (arith, e.beq_iff a b, list_beq_iff s t)

instance abbrev pub list_eq {ℓ} : {A : Type ℓ} ⦃e : Eq A⦄ → Eq (List A)
list_eq ⦃e⦄ = record { beq = list_beq; beq_iff = list_beq_iff }

module _ {ℓ κ} {A : Type ℓ} {B : Type κ} ⦃e : Eq A⦄ ⦃f : Eq B⦄ where
  abbrev pub pair_beq : A × B → A × B → Bool
  pair_beq (a, b) (c, d) = a == c && b == d

  pub pair_beq_iff : (p q : A × B) → (pair_beq p q ≡ true) ↔ (p ≡ q)
  pair_beq_iff (a, b) (c, d) = ground (arith, e.beq_iff a c, f.beq_iff b d)

instance abbrev pub pair_eq {ℓ κ} : {A : Type ℓ} {B : Type κ} ⦃e : Eq A⦄ ⦃f : Eq B⦄ → Eq (A × B)
pair_eq ⦃e⦄ ⦃f⦄ = record { beq = pair_beq; beq_iff = pair_beq_iff }

abbrev pub Text : Type 0
Text = List ℕ

abbrev pub codes : String → Text
codes String.[] = []
codes (String.◌∷◌ c s) = code c ∷ codes s

module _ {ℓ} {A : Type ℓ} ⦃e : Eq A⦄ where
  -- `a in xs`
  abbrev pub contains : List A → A → Bool
  contains [] a = false
  contains (x ∷ xs) a = x == a || contains xs a

  abbrev pub count : A → List A → ℕ
  count a [] = 0
  count a (x ∷ xs) = let rest = count a xs in if x == a then suc rest else rest

  -- `xs.add(a)` on a set kept as a list without repetitions.
  abbrev pub add : List A → A → List A
  add xs a = if contains xs a then xs else a ∷ xs

  pub contains-count : (xs : List A) (a : A) → contains xs a ≡ ltb 0 (count a xs)
  contains-count [] a = refl
  contains-count (x ∷ xs) a = ground (arith, contains-count xs a)

  pub count-append : (a : A) (xs ys : List A) → count a (xs ++ ys) ≡ count a xs + count a ys
  count-append a [] ys = omega arith
  count-append a (x ∷ xs) ys = ground (arith, count-append a xs ys)

  pub count-add : (a b : A) (xs : List A) → count b xs ≡ 0 → count a (add xs b) ≡ count a (b ∷ xs)
  count-add a b xs z = ground (arith, contains-count xs b)
