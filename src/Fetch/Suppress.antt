-- ===== src/Fetch/Suppress.antt =====
-- Suppression of paths that fail permanently (fd_open_data_mcp/fetch/suppress.py) on the fetch log,
-- newest row first.
pub mod Clearing
use fd_open_data_mcp.Base.{
  ltb, if◌then◌else◌, get_default, length, take, filter_by, all_of, nat_eq, list_eq, pair_eq, ◌==◌,
  list_beq, Text, codes, add, ℕ, max, Bool, true, false, ◌&&◌, Option, none, some, List, [], ◌∷◌,
}
use fd_open_data_mcp.Fetch.Settings.{int_setting}

-- The columns of the fetch log that suppression and demotion read and write (models.py).
pub record FetchLog : Type 0 where
  pub concept_id : Option ℕ
  pub function_id : Option ℕ
  pub cluster_id : Option ℕ
  pub status : Text
  pub classification : Option Text

abbrev pub default_suppress_min : ℕ
default_suppress_min = 3

abbrev pub permanent : Text
permanent = codes "permanent"

abbrev pub cleared : Text
cleared = codes "cleared"

-- `max(1, int(...))` of the setting, the default where there is none or it is no number.
unfoldable pub suppress_threshold : Option Text → ℕ
unfolding int_setting
suppress_threshold none = default_suppress_min
suppress_threshold (some raw) = max 1 (get_default (int_setting raw) default_suppress_min)

-- A column that is set to this value.
abbrev pub holds_id : Option ℕ → ℕ → Bool
holds_id none n = false
holds_id (some m) n = m == n

abbrev pub of_pair : ℕ → ℕ → FetchLog → Bool
of_pair concept_id function_id row =
    holds_id row.concept_id concept_id && holds_id row.function_id function_id

abbrev pub is_permanent : FetchLog → Bool
is_permanent row = list_beq (get_default row.classification []) permanent

unfoldable pub is_suppressed_pair : List FetchLog → ℕ → ℕ → ℕ → Bool
is_suppressed_pair log concept_id function_id n =
    let rows = take n (filter_by (of_pair concept_id function_id) log) in
    if ltb (length rows) n then false else all_of is_permanent rows

-- Pairs with an absent id are passed over.
unfoldable pub suppressed_loop : List FetchLog → ℕ → List (Option ℕ × Option ℕ) → List (ℕ × ℕ)
unfolding is_suppressed_pair
suppressed_loop log n [] = []
suppressed_loop log n ((none, f) ∷ pairs) = suppressed_loop log n pairs
suppressed_loop log n ((some c, none) ∷ pairs) = suppressed_loop log n pairs
suppressed_loop log n ((some c, some f) ∷ pairs) =
    let out = suppressed_loop log n pairs in
    if is_suppressed_pair log c f n then add out (c, f) else out

unfoldable pub suppressed_paths :
    List FetchLog → Option Text → List (Option ℕ × Option ℕ) → Option ℕ → List (ℕ × ℕ)
unfolding suppressed_loop suppress_threshold
suppressed_paths log env pairs threshold =
    suppressed_loop log (get_default threshold (suppress_threshold env)) pairs

unfoldable pub clear_suppression : List FetchLog → Option ℕ → Option ℕ → List FetchLog × Bool
clear_suppression log none f = (log, false)
clear_suppression log (some c) none = (log, false)
clear_suppression log (some c) (some f) = (
  record {
    concept_id = some c;
    function_id = some f;
    cluster_id = none;
    status = codes "error";
    classification = some cleared;
  }
      ∷ log,
  true,
)
