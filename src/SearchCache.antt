-- ===== src/SearchCache.antt =====
-- The cache of the search tools (fd_open_data_mcp/search_cache.py). A clock reading is in
-- milliseconds, and a search acts on a state of its own. The two settings that the code reads from
-- the environment, whether the cache is enabled and its lifetime, are arguments.
pub mod Hits
mod Tests
use fd_open_data_mcp.Base.{
  ltb, if◌then◌else◌, nat_eq, list_eq, pair_eq, Text, Dict, get, put, ℕ, ◌+◌, Bool, true, false,
  Option, none, some, [], ◌∷◌, ◌++◌,
}

-- A dict, by whether it has the key `error` and what its key `cached` holds; or another value.
pub data Payload : Type 0 where
  dict : Bool → Option Bool → ℕ → Payload
  other : ℕ → Payload

abbrev pub Store : Type 0
Store = Dict Text (ℕ × Payload)

abbrev pub is_error : Payload → Bool
is_error (dict error cached rest) = error
is_error (other rest) = false

-- The marker is set, and the type of the payload stays.
abbrev pub mark : Payload → Bool → Payload
mark (dict error old rest) cached = dict error (some cached) rest
mark (other rest) cached = other rest

unfoldable pub invalidate : Store → Store
invalidate store = []

-- The parameters are given as the text of their JSON form.
unfoldable pub cache_key : Text → Text → Text
cache_key tool params = tool ++ (124 ∷ params)

-- `now - at < ttl`, written as a sum.
abbrev pub fresh_hit : ℕ → ℕ → Option (ℕ × Payload) → Option Payload
fresh_hit now ttl none = none
fresh_hit now ttl (some (at, result)) = if ltb now (at + ttl) then some result else none

module _ {W : Type 0} where
  -- What follows the run of the search, with the clock's reading then.
  unfoldable pub keep_result : Store → Text → ℕ → W × Payload → Store × (W × Payload)
  keep_result store key later (w, result) =
      if is_error result
      then (store, (w, result))
      else (put store key (later, result), (w, mark result false))

  unfoldable pub answer :
      Option Payload → Store → Text → ℕ → W → (W → W × Payload) → Store × (W × Payload)
  unfolding keep_result
  answer (some result) store key later w fn = (store, (w, mark result true))
  answer none store key later w fn = keep_result store key later (fn w)

  unfoldable pub cached_search :
      Bool → ℕ → Store → Text → Text → ℕ → ℕ → W → (W → W × Payload) → Store × (W × Payload)
  unfolding answer cache_key
  cached_search enabled ttl store tool params now later w fn =
      let key = cache_key tool params in
      if enabled
      then answer (fresh_hit now ttl (get store key)) store key later w fn
      else (store, fn w)
