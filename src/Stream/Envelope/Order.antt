-- ===== src/Stream/Envelope/Order.antt =====
-- The order of the event ids of one process.
use fd_open_data_mcp.Base.{
  leb, nat_beq, Bool-cases, nat_eq, list_eq, pair_eq, Text, ℕ, suc, ◌≤◌, ◌<◌, ◌≡◌, refl, sym, ◌∙◌,
  subst, ◌⊎◌, inl, inr, true, Option, none, some, List, [], ◌∷◌, arith,
}
use fd_open_data_mcp.Stream.Envelope.{ulid_text, encode, Ulid, rand_limit, next_rand, issue, next}
use fd_open_data_mcp.Stream.Envelope.Ids.{
  limit, text_lt, encode_mono, text_lt-append, text_lt-same, length-encode,
}

abbrev prepend : Option Text → List Text → List Text
prepend none ts = ts
prepend (some t) ts = t ∷ ts

-- The ids that a run of calls of `next` hands out, given the clock and the random bytes of each; a
-- call that raises hands out none.
unfoldable pub issued : Ulid → List (ℕ × ℕ) → List Text
unfolding next
issued u [] = []
issued u (call ∷ calls) =
    let r = next u (call.0) (call.1) in let rest = issued (r.1) calls in prepend (r.0) rest

-- Clocks that never step back and stay within ten digits, with ten random bytes each.
unfoldable pub IsClocked : ℕ → List (ℕ × ℕ) → Type 0
IsClocked ms [] = Unit
IsClocked ms (call ∷ calls) =
    (ms ≤ call.0) × (call.0 < limit 10) × (call.1 < rand_limit) × IsClocked (call.0) calls

-- Each text is above the one before it.
unfoldable pub IsRising : Text → List Text → Type 0
IsRising t [] = Unit
IsRising t (x ∷ xs) = (text_lt t x ≡ true) × IsRising x xs

ulid_text_mono :
    (m r n s : ℕ)
    → m < n ⊎ (m ≡ n) × (r < s)
    → n < limit 10
    → s < limit 16
    → text_lt (ulid_text m r) (ulid_text n s) ≡ true
unfolding ulid_text
ulid_text_mono m r n s (inl b) e f =
    text_lt-append (encode 10 m) (encode 10 n) (45 ∷ encode 16 r) (45 ∷ encode 16 s)
      (encode_mono 10 m n b e) (length-encode 10 m ∙ sym (length-encode 10 n))
ulid_text_mono m r n s (inr p) e f =
    rw (p.0)
      (text_lt-same (encode 10 n) _ _ (text_lt-same (45 ∷ []) _ _ (encode_mono 16 r s (p.1) f)))

abbrev pub after : ℕ → ℕ → Ulid
after ms rand = record { last_ms = some ms; last_rand = rand }

rand_limit_lem : limit 16 ≡ rand_limit
unfolding limit
rand_limit_lem = refl

-- What a call hands out is above the last id, and the generator then stands at it.
next_above :
    (m r ms fresh : ℕ)
    → m ≤ ms
    → ms < limit 10
    → fresh < rand_limit
    → (next (after m r) ms fresh ≡ (none, after m r) × (m ≡ ms))
      ⊎ ((s : ℕ) × (next (after m r) ms fresh ≡ (some (ulid_text ms s), after ms s))
          × (s < rand_limit)
          × (text_lt (ulid_text m r) (ulid_text ms s) ≡ true))
unfolding next next_rand issue
next_above m r ms fresh le b f = elim (Bool-cases (nat_beq ms m)) [
  | inl same ↦ elim (Bool-cases (leb rand_limit (suc r))) [
    | inl full ↦ inl (rw (same, full) refl, ground arith)
    | inr room ↦ inr (
      suc r,
      rw (same, room) refl,
      ground arith,
      ulid_text_mono m r ms (suc r) (inr (ground arith, omega arith)) b
          (subst (λ x. suc r < x) (sym rand_limit_lem) (ground arith)),
    )
  ]
  | inr later ↦ inr (
    fresh,
    rw later refl,
    f,
    ulid_text_mono m r ms fresh (inl (ground arith)) b
        (subst (λ x. fresh < x) (sym rand_limit_lem) f),
  )
]

-- The ids that one process hands out rise in the order of text, across calls within a millisecond
-- too, while its clock does not step back and a time fits ten digits; a call that raises hands out
-- none.
pub issued-IsRising :
    (ms rand : ℕ) (calls : List (ℕ × ℕ))
    → IsClocked ms calls
    → IsRising (ulid_text ms rand) (issued (after ms rand) calls)
unfolding IsClocked IsRising issued
issued-IsRising ms rand [] h = h
issued-IsRising ms rand (call ∷ calls) h =
    elim (next_above ms rand (call.0) (call.1) (h.0) (h.1) (h.2)) [
      | inl raised ↦
          rw (raised.0)
            (issued-IsRising ms rand calls (subst (λ x. IsClocked x calls) (sym (raised.1)) (h.3)))
      | inr done ↦ rw (done.1) (done.3, issued-IsRising (call.0) (done.0) calls (h.3))
    ]
