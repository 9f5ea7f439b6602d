-- ===== src/SearchCache/Hits.antt =====
-- The answers and the contents of the search cache.
use fd_open_data_mcp.Base.{
  ltb, if◌then◌else◌, Bool-cases, nat_eq, list_eq, pair_eq, beq_refl, list_beq, Text, get, get-put,
  ℕ, ◌+◌, ◌≡◌, refl, inl, inr, Bool, true, false, not, ◌&&◌, Option, none, some,
}
use fd_open_data_mcp.SearchCache.{
  Payload, Store, is_error, mark, cache_key, keep_result, fresh_hit, answer, cached_search,
}

-- No stored result is an error.
abbrev pub HasNoError : Store → Type 0
HasNoError store =
    (k : Text) (at : ℕ) (p : Payload) → get store k ≡ some (at, p) → is_error p ≡ false

written :
    (store : Store) (key : Text) (later : ℕ) (result : Payload) (k : Text) (at : ℕ) (p : Payload)
    → HasNoError store
    → is_error result ≡ false
    → (if list_beq key k then some (later, result) else get store k) ≡ some (at, p)
    → is_error p ≡ false
written store key later result k at p h e = elim (Bool-cases (list_beq key k)) [
  | inl same ↦ rw same (λ g. (cc (g, e)))
  | inr apart ↦ rw apart (h k at p)
]

module _ {W : Type 0} where
  keep_result-HasNoError :
      (store : Store) (key : Text) (later : ℕ) (w : W) (result : Payload)
      → HasNoError store
      → HasNoError (keep_result store key later (w, result)).0
  unfolding keep_result
  keep_result-HasNoError store key later w result h = elim (Bool-cases (is_error result)) [
    | inl e ↦ rw e h
    | inr e ↦ rw e (λ k at p. (rw get-put (written store key later result k at p h e)))
  ]

  answer-HasNoError :
      (o : Option Payload) (store : Store) (key : Text) (later : ℕ) (w : W) (fn : W → W × Payload)
      → HasNoError store
      → HasNoError (answer o store key later w fn).0
  unfolding answer
  answer-HasNoError (some result) store key later w fn h = h
  answer-HasNoError none store key later w fn h =
      keep_result-HasNoError store key later (fn w).0 (fn w).1 h

  -- A search through the cache stores no error: if no stored result is one, none is after it.
  pub no_error_cached :
      (enabled : Bool) (ttl : ℕ) (store : Store) (tool params : Text) (now later : ℕ) (w : W)
      (fn : W → W × Payload)
      → HasNoError store
      → HasNoError (cached_search enabled ttl store tool params now later w fn).0
  unfolding cached_search
  no_error_cached true ttl store tool params now later w fn h =
      let key = cache_key tool params in
      answer-HasNoError (fresh_hit now ttl (get store key)) store key later w fn h
  no_error_cached false ttl store tool params now later w fn h = h

  -- Of two searches with the same tool and parameters, the first one a miss: if the first run gave
  -- an error, or if its lifetime is over, the second one runs too; else the second one leaves the
  -- state and the store as they are and answers the first result, marked as cached.
  pub second_search :
      (ttl : ℕ) (store : Store) (tool params : Text) (now later now' later' : ℕ) (w w' : W)
      (fn fn' : W → W × Payload)
      → fresh_hit now ttl (get store (cache_key tool params)) ≡ none
      → fresh_hit now' ttl (get store (cache_key tool params)) ≡ none
      → let key = cache_key tool params in
        let after = (cached_search true ttl store tool params now later w fn).0 in
        let result = (fn w).1 in
        cached_search true ttl after tool params now' later' w' fn' ≡ (
          if not (is_error result) && ltb now' (later + ttl)
          then (after, (w', mark result true))
          else keep_result after key later' (fn' w'))
  unfolding cached_search answer keep_result
  second_search ttl store tool params now later now' later' w w' fn fn' miss miss' =
      let key = cache_key tool params in
      let hit = beq_refl key in
      elim (Bool-cases (is_error (fn w).1)) [
        | inl e ↦ rw (miss, e, miss') refl
        | inr e ↦
            rw (miss, e, get-put, hit)
              (elim (Bool-cases (ltb now' (later + ttl))) [ inl l ↦ rw l refl | inr l ↦ rw l refl ])
      ]
