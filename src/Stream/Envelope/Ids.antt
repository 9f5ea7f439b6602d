-- ===== src/Stream/Envelope/Ids.antt =====
-- The digits of an event id: what they decode to, and their order.
use fd_open_data_mcp.Base.{
  ltb, nat_beq, nat_beq_iff, Bool-cases, is_some, get_default, length, length-append, nat_eq,
  list_eq, pair_eq, Text, ℕ, zero, suc, ◌*◌, ◌/◌, ◌%◌, ◌<◌, ◌≡◌, refl, sym, ap, ◌∙◌, inl, inr, Bool,
  true, false, not, ◌&&◌, ◌||◌, Option, none, some, [], ◌∷◌, ◌++◌, arith,
}
use mathlib.Core.List.{append_assoc, append-nil}
use fd_open_data_mcp.Stream.Envelope.{
  alphabet, nth, encode, ulid_text, index_of, next_digit, decode_from, head_of, event_id_ms,
}

-- The first number that n digits do not hold.
unfoldable pub limit : ℕ → ℕ
limit zero = 1
limit (suc n) = limit n * 32

-- The texts in the order of their characters.
unfoldable pub text_lt : Text → Text → Bool
text_lt s [] = false
text_lt [] (d ∷ t) = true
text_lt (c ∷ s) (d ∷ t) = ltb c d || (nat_beq c d && text_lt s t)

-- Whether a test holds of all numbers below a limit.
unfoldable holds_below : (ℕ → Bool) → ℕ → Bool
holds_below p zero = true
holds_below p (suc n) = p n && holds_below p n

holds_below-at : (p : ℕ → Bool) (n d : ℕ) → holds_below p n ≡ true → d < n → p d ≡ true
unfolding holds_below
holds_below-at p zero d h b = ground arith
holds_below-at p (suc n) d h b = elim (Bool-cases (nat_beq d n)) [
  | inl same ↦ grind arith
  | inr other ↦ holds_below-at p n d (grind arith) (ground arith)
]

abbrev is_index : ℕ → Bool
is_index d =
    is_some (index_of alphabet (nth alphabet d))
    && nat_beq (get_default (index_of alphabet (nth alphabet d)) 0) d

is_index_all : holds_below is_index 32 ≡ true
unfolding holds_below nth index_of
is_index_all = refl

some_of : (o : Option ℕ) (d : ℕ) → (is_some o && nat_beq (get_default o 0) d) ≡ true → o ≡ some d
some_of none d h = ground arith
some_of (some x) d h = ap some ((nat_beq_iff x d).0 h)

index_of-nth : (d : ℕ) → d < 32 → index_of alphabet (nth alphabet d) ≡ some d
index_of-nth d b =
    some_of (index_of alphabet (nth alphabet d)) d (holds_below-at is_index 32 d is_index_all b)

abbrev is_digit : ℕ → Bool
is_digit d = not (nat_beq (nth alphabet d) 45)

is_digit_all : holds_below is_digit 32 ≡ true
unfolding holds_below nth
is_digit_all = refl

nth-no_dash : (d : ℕ) → d < 32 → nat_beq (nth alphabet d) 45 ≡ false
nth-no_dash d b = let h = holds_below-at is_digit 32 d is_digit_all b in ground arith

abbrev is_rise : ℕ → Bool
is_rise d = holds_below (λ c. ltb (nth alphabet c) (nth alphabet d)) d

is_rise_all : holds_below is_rise 32 ≡ true
unfolding holds_below nth
is_rise_all = refl

nth_mono : (c d : ℕ) → c < d → d < 32 → ltb (nth alphabet c) (nth alphabet d) ≡ true
nth_mono c d b e =
    holds_below-at (λ c. ltb (nth alphabet c) (nth alphabet d)) d c
      (holds_below-at is_rise 32 d is_rise_all e) b

-- The digits decode to the number.
decode_from-none : (t : Text) → decode_from t none ≡ none
unfolding decode_from
decode_from-none [] = refl
decode_from-none (c ∷ t) = refl

decode_from-append :
    (s t : Text) (v : Option ℕ) → decode_from (s ++ t) v ≡ decode_from t (decode_from s v)
unfolding decode_from
decode_from-append [] t v = refl
decode_from-append (c ∷ s) t (some v) = decode_from-append s t (next_digit v (index_of alphabet c))
decode_from-append (c ∷ s) t none = sym (decode_from-none t)

decode_from-encode : (n v : ℕ) → v < limit n → decode_from (encode n v) (some 0) ≡ some v
unfolding decode_from encode limit
decode_from-encode zero v b = ap some (omega arith)
decode_from-encode (suc n) v b =
    let b' : v / 32 < limit n = omega arith in
    let ih = decode_from-encode n (v / 32) b' in
    let ix = index_of-nth (v % 32) (omega arith) in
    decode_from-append (encode n (v / 32)) (nth alphabet (v % 32) ∷ []) (some 0)
    ∙ (rw (ih, ix) (ap some (omega arith)))

head_of-past : (c : ℕ) (t : Text) → nat_beq c 45 ≡ false → head_of (c ∷ t) ≡ c ∷ head_of t
unfolding head_of
head_of-past c t h = rw h refl

head_of-encode : (n v : ℕ) (t : Text) → head_of (encode n v ++ t) ≡ encode n v ++ head_of t
unfolding encode
head_of-encode zero v t = refl
head_of-encode (suc n) v t =
    let past = head_of-past (nth alphabet (v % 32)) t (nth-no_dash (v % 32) (omega arith)) in
    rw
      (
        append_assoc (encode n (v / 32)) (nth alphabet (v % 32) ∷ []) t,
        append_assoc (encode n (v / 32)) (nth alphabet (v % 32) ∷ []) (head_of t),
        head_of-encode n (v / 32) (nth alphabet (v % 32) ∷ t),
        past,
      )
      refl

pub length-encode : (n v : ℕ) → length (encode n v) ≡ n
unfolding encode
length-encode zero v = refl
length-encode (suc n) v = rw (length-append, length-encode n (v / 32)) (omega arith)

pub text_lt-append :
    (s t x y : Text) → text_lt s t ≡ true → length s ≡ length t → text_lt (s ++ x) (t ++ y) ≡ true
unfolding text_lt
text_lt-append [] [] x y h l = ground arith
text_lt-append [] (d ∷ t) x y h l = ground arith
text_lt-append (c ∷ s) [] x y h l = ground arith
text_lt-append (c ∷ s) (d ∷ t) x y h l = elim (Bool-cases (text_lt s t)) [
  | inl less ↦ let ih = text_lt-append s t x y less (omega arith) in ground arith
  | inr other ↦ ground arith
]

pub text_lt-same : (s x y : Text) → text_lt x y ≡ true → text_lt (s ++ x) (s ++ y) ≡ true
unfolding text_lt
text_lt-same [] x y h = h
text_lt-same (c ∷ s) x y h = let ih = text_lt-same s x y h in ground arith

text_lt-one : (c d : ℕ) → ltb c d ≡ true → text_lt (c ∷ []) (d ∷ []) ≡ true
unfolding text_lt
text_lt-one c d h = rw h refl

pub encode_mono : (n v w : ℕ) → v < w → w < limit n → text_lt (encode n v) (encode n w) ≡ true
unfolding limit encode
encode_mono zero v w b e = ground arith
encode_mono (suc n) v w b e = elim (Bool-cases (ltb (v / 32) (w / 32))) [
  | inl less ↦
      text_lt-append (encode n (v / 32)) (encode n (w / 32)) (nth alphabet (v % 32) ∷ [])
        (nth alphabet (w % 32) ∷ []) (encode_mono n (v / 32) (w / 32) (ground arith) (omega arith))
        (length-encode n (v / 32) ∙ sym (length-encode n (w / 32)))
  | inr same ↦
      let h : v / 32 ≡ w / 32 = ground arith in
      rw h (
        text_lt-same (encode n (w / 32)) _ _ (
          text_lt-one (nth alphabet (v % 32)) (nth alphabet (w % 32))
            (nth_mono (v % 32) (w % 32) (omega arith) (omega arith))))
]

-- Reading the time out of an id gives the time it was issued at.
pub event_id_ms-ulid_text :
    (ms rand : ℕ) → ms < limit 10 → event_id_ms (ulid_text ms rand) ≡ some ms
unfolding event_id_ms ulid_text head_of
event_id_ms-ulid_text ms rand b =
    rw (head_of-encode 10 ms (45 ∷ encode 16 rand), append-nil) (decode_from-encode 10 ms b)
