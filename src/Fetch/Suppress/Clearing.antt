-- ===== src/Fetch/Suppress/Clearing.antt =====
-- The suppression of a pair after it is cleared.
use fd_open_data_mcp.Base.{
  leb, length, take, replicate, filter_by, all_of, length-take, nat_eq, list_eq, pair_eq, ◌==◌,
  beq_refl, codes, ℕ, zero, suc, ◌+◌, ◌≤◌, ◌≡◌, refl, ap, ◌∙◌, true, false, ◌&&◌, none, some, List,
  ◌∷◌, ◌++◌, arith,
}
use fd_open_data_mcp.Fetch.Suppress.{
  FetchLog, of_pair, is_permanent, cleared, is_suppressed_pair, clear_suppression,
}

module _ (c f : ℕ) (r m : FetchLog) (log : List FetchLog) where
  filter-run :
      (k : ℕ)
      → of_pair c f r ≡ true
      → of_pair c f m ≡ true
      → filter_by (of_pair c f) (replicate k r ++ (m ∷ log))
        ≡ replicate k r ++ (m ∷ filter_by (of_pair c f) log)
  filter-run zero p q = rw q refl
  filter-run (suc k) p q = rw p (ap (λ u. r ∷ u) (filter-run k p q))

  all-run :
      (n k : ℕ)
      → is_permanent r ≡ true
      → is_permanent m ≡ false
      → all_of is_permanent (take n (replicate k r ++ (m ∷ log))) ≡ leb n k
  all-run zero k p q = ground arith
  all-run (suc n) zero p q = rw q (ground arith)
  all-run (suc n) (suc k) p q = rw p (all-run n k p q ∙ ground arith)

  length-run : (k : ℕ) → length (replicate k r ++ (m ∷ log)) ≡ k + suc (length log)
  length-run zero = omega arith
  length-run (suc k) = let e = length-run k in omega (arith, e)

-- Clearing a pair answers true. After it, and after k more rows of the pair, each the same permanent
-- outcome, the pair is suppressed exactly if k has reached the threshold, which is at least one;
-- every other pair is suppressed after the clearing as it was before.
pub clearing_exact :
    (log : List FetchLog) (c f n k : ℕ) (r : FetchLog)
    → 1 ≤ n
    → of_pair c f r ≡ true
    → is_permanent r ≡ true
    → let after = (clear_suppression log (some c) (some f)).0 in
      ((clear_suppression log (some c) (some f)).1 ≡ true)
      × (is_suppressed_pair (replicate k r ++ after) c f n ≡ leb n k)
      × ((c' f' : ℕ)
          → ((c == c') && (f == f')) ≡ false
          → is_suppressed_pair after c' f' n ≡ is_suppressed_pair log c' f' n)
unfolding clear_suppression is_suppressed_pair
clearing_exact log c f n k r p q t =
    let m : FetchLog = record {
      concept_id = some c;
      function_id = some f;
      cluster_id = none;
      status = codes "error";
      classification = some cleared;
    } in
    let mine : of_pair c f m ≡ true = ground (arith, beq_refl c, beq_refl f) in
    let rest = filter_by (of_pair c f) log in
    let size = length-take n (replicate k r ++ (m ∷ rest)) in
    let long = length-run c f r m rest k in
    let same = filter-run c f r m log k q mine in
    let runs = all-run c f r m rest n k t refl in
    (refl, rw (same, runs) (ground (arith, size, long)), λ c' f' d. rw d refl)
