-- ===== src/Base/Decimal.antt =====
-- Python's `str` of a natural number and `int` of a text of ASCII digits.
use Prim.Native.Nat.{ℕ, zero, suc, ◌+◌, ◌-◌, ◌*◌, ◌/◌, ◌%◌, ◌<◌}
use mathlib.Core.Path.{◌≡◌, refl, ◌∙◌, ap, sym}
use mathlib.Core.Bool.{Bool, true, ◌&&◌}
use mathlib.Core.Option.{Option, none, some}
use mathlib.Core.List.{[], ◌∷◌, ◌++◌, append_assoc, append-nil}
use native.Mathlib.Omega.{arith}
use fd_open_data_mcp.Base.Tests.{ltb, leb, ltb→lt, Bool-cases, if◌then◌else◌}
use fd_open_data_mcp.Base.Lists.{all_of}
use fd_open_data_mcp.Base.Equality.{Text}
use mathlib.Core.Logic.{inl, inr}

digits : ℕ → ℕ → Text
digits zero n = []
digits (suc f) n =
    let front = digits f (n / 10) in
    if ltb n 10 then (48 + n) ∷ [] else front ++ ((48 + n % 10) ∷ [])

-- `str(n)`; a number has fewer digits than one more than itself.
unfoldable pub str : ℕ → Text
unfolding digits
str n = digits (suc n) n

abbrev pub is_digit : ℕ → Bool
is_digit c = leb 48 c && leb c 57

unfoldable pub int_from : ℕ → Text → Option ℕ
int_from n [] = some n
int_from n (c ∷ t) = let rest = int_from (n * 10 + (c - 48)) t in if is_digit c then rest else none

-- `int(s)`, `none` where it raises; signs, blanks and underscores are not read.
unfoldable pub int_of : Text → Option ℕ
unfolding int_from
int_of [] = none
int_of (c ∷ t) = int_from 0 (c ∷ t)

int_from_digit : (n d : ℕ) (t : Text) → d < 10 → int_from n ((48 + d) ∷ t) ≡ int_from (n * 10 + d) t
unfolding int_from
int_from_digit n d t h =
    let value : n * 10 + (48 + d - 48) ≡ n * 10 + d = omega arith in
    let first : is_digit (48 + d) ≡ true = ground arith in rw (first, value)

int_from-digits : (f n : ℕ) (t : Text) → n < f → int_from 0 (digits f n ++ t) ≡ int_from n t
unfolding digits
int_from-digits zero n t h = elim h [ ]
int_from-digits (suc f) n t h = elim (Bool-cases (ltb n 10)) [
  | inl small ↦
      rw small (int_from_digit 0 n t (ltb→lt n 10 small) ∙ ap (λ k. int_from k t) (omega arith))
  | inr big ↦
      rw (big, append_assoc)
        (int_from-digits f (n / 10) ((48 + n % 10) ∷ t) (ground arith)
          ∙ int_from_digit (n / 10) (n % 10) t (omega arith)
          ∙ ap (λ k. int_from k t) (omega arith))
]

int_of-append : (s : Text) (c : ℕ) → int_of (s ++ (c ∷ [])) ≡ int_from 0 (s ++ (c ∷ []))
unfolding int_of
int_of-append [] c = refl
int_of-append (d ∷ s) c = refl

int_of-digits : (f n : ℕ) → int_of (digits (suc f) n) ≡ int_from 0 (digits (suc f) n)
unfolding digits
int_of-digits f n = elim (Bool-cases (ltb n 10)) [
  | inl small ↦ rw small (int_of-append [] (48 + n))
  | inr big ↦ rw big (int_of-append (digits f (n / 10)) (48 + n % 10))
]

-- The text of a number is read back as the number.
pub int_of-str : (n : ℕ) → int_of (str n) ≡ some n
unfolding str
int_of-str n =
    int_of-digits n n
    ∙ ap (int_from 0) (sym (append-nil (digits (suc n) n)))
    ∙ (unfold int_from in int_from-digits (suc n) n [] (omega arith))

pub str-injective : (m n : ℕ) → str m ≡ str n → m ≡ n
str-injective m n e = cc (int_of-str m, int_of-str n, ap int_of e)

all_of-append :
    (p : ℕ → Bool) (s t : Text) → all_of p s ≡ true → all_of p t ≡ true → all_of p (s ++ t) ≡ true
all_of-append p [] t h k = k
all_of-append p (c ∷ s) t h k = ground (arith, all_of-append p s t, h, k)

all_of-digits :
    (p : ℕ → Bool)
    → ((d : ℕ) → d < 10 → p (48 + d) ≡ true)
    → (f n : ℕ) → all_of p (digits f n) ≡ true
unfolding digits
all_of-digits p each zero n = refl
all_of-digits p each (suc f) n = elim (Bool-cases (ltb n 10)) [
  | inl small ↦ rw (small, each n (ltb→lt n 10 small)) refl
  | inr big ↦ rw big (
      all_of-append p (digits f (n / 10)) ((48 + n % 10) ∷ []) (all_of-digits p each f (n / 10))
        (rw (each (n % 10) (omega arith)) refl))
]

-- What holds of every digit holds of every code of the text of a number.
pub all_of-str :
    (p : ℕ → Bool) → ((d : ℕ) → d < 10 → p (48 + d) ≡ true) → (n : ℕ) → all_of p (str n) ≡ true
unfolding str
all_of-str p each n = all_of-digits p each (suc n) n
