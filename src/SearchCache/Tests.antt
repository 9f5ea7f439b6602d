-- ===== src/SearchCache/Tests.antt =====
-- The search cache at concrete inputs.
use fd_open_data_mcp.Base.{
  ltb, if◌then◌else◌, nat_eq, list_eq, pair_eq, codes, get, ℕ, ◌+◌, ◌≡◌, refl, true, false, not,
  ◌&&◌, none, [],
}
use fd_open_data_mcp.SearchCache.{
  Payload, dict, is_error, mark, cache_key, keep_result, fresh_hit, cached_search,
}
use fd_open_data_mcp.SearchCache.Hits.{HasNoError, second_search}

-- A search that counts its runs.
abbrev search_once : ℕ → ℕ × Payload
search_once w = (w + 1, dict false none 7)

abbrev failing : ℕ → ℕ × Payload
failing w = (w + 1, dict true none 0)

empty : HasNoError []
unfolding get
empty k at p e = cc

missed : (now : ℕ) → fresh_hit now 300 (get [] (cache_key (codes "find") (codes "{}"))) ≡ none
unfolding get
missed now = refl

second_search_example :
    let key = cache_key (codes "find") (codes "{}") in
    let after = (cached_search true 300 [] (codes "find") (codes "{}") 10 11 0 search_once).0 in
    cached_search true 300 after (codes "find") (codes "{}") 20 21 1 failing ≡ (
      if not (is_error (dict false none 7)) && ltb 20 (11 + 300)
      then (after, (1, mark (dict false none 7) true))
      else keep_result after key 21 (failing 1))
second_search_example =
    second_search 300 [] (codes "find") (codes "{}") 10 11 20 21 0 1 search_once failing (missed 10)
      (missed 20)
