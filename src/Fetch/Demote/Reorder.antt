-- ===== src/Fetch/Demote/Reorder.antt =====
-- The demoted functions and the reordering of a chain.
use fd_open_data_mcp.Base.{
  nat_beq_iff, filter_by, In, nat_eq, list_eq, pair_eq, Text, contains, Dict, ℕ, ◌≡◌, refl, ap, ◌∙◌,
  inl, inr, Bool, true, false, not, ◌&&◌, Option, none, some, List, [], ◌∷◌, arith,
}
use fd_open_data_mcp.Fetch.Suppress.{FetchLog}
use fd_open_data_mcp.Fetch.Demote.{
  Entry, function_ids, in_bad, is_demoted, demote_threshold, demoted_loop, demoted_functions,
  reorder_by, reorder_chain,
}

contains-demoted :
    (log : List FetchLog) (n cluster f : ℕ) (fs : List ℕ)
    → contains (demoted_loop log n cluster fs) f ≡ contains fs f && is_demoted log n cluster f
unfolding demoted_loop
contains-demoted log n cluster f [] = refl
contains-demoted log n cluster f (g ∷ fs) =
    ground (arith, nat_beq_iff g f, contains-demoted log n cluster f fs)

-- The functions demoted for a cluster are those of the given ones whose latest outcomes from that
-- cluster, as many as the threshold, are all failures; with no cluster there are none.
pub demoted_exact :
    (log : List FetchLog) (env : Option Text) (cluster f : ℕ) (fs : List ℕ)
    → (contains (demoted_functions log env (some cluster) fs) f
        ≡ contains fs f && is_demoted log (demote_threshold env) cluster f)
      × (demoted_functions log env none fs ≡ [])
unfolding demoted_functions
demoted_exact log env cluster f fs =
    (contains-demoted log (demote_threshold env) cluster f fs, refl)

filter-same :
    (p q : Entry → Bool) (xs : List Entry)
    → ((e : Entry) → In e xs → p e ≡ q e)
    → filter_by p xs ≡ filter_by q xs
filter-same p q [] h = refl
filter-same p q (x ∷ xs) h = rw (h x (inl refl), filter-same p q xs (λ e i. h e (inr i))) refl

filter-all : (xs : List Entry) → filter_by (λ e. true) xs ≡ xs
filter-all [] = refl
filter-all (x ∷ xs) = ap (λ u. x ∷ u) (filter-all xs)

filter-none : (xs : List Entry) → filter_by (λ e. false) xs ≡ []
filter-none [] = refl
filter-none (x ∷ xs) = filter-none xs

in_bad-empty : (e : Entry) → in_bad [] e ≡ false
in_bad-empty (none, rest) = refl
in_bad-empty (some f, rest) = refl

reorder_by_lem :
    (bad : List ℕ) (chain : List Entry)
    → reorder_by bad chain
      ≡ (filter_by (λ rs. not (in_bad bad rs)) chain, filter_by (in_bad bad) chain)
unfolding reorder_by
reorder_by_lem [] chain =
    let kept =
      filter-same (λ rs. not (in_bad [] rs)) (λ e. true) chain (λ e i. ap not (in_bad-empty e))
      ∙ filter-all chain in
    let out =
      filter-same (in_bad []) (λ e. false) chain (λ e i. in_bad-empty e) ∙ filter-none chain in
    cc (kept, out)
reorder_by_lem (b ∷ bad) chain = refl

reorder_chain_lem :
    (log : List FetchLog) (env : Option Text) (cluster : Option ℕ) (chain : List Entry)
    → reorder_chain log env cluster chain
      ≡ reorder_by (demoted_functions log env cluster (function_ids chain)) chain
unfolding reorder_chain
reorder_chain_lem log env cluster chain = go (function_ids chain) cluster
  where
    go :
        (fs : List ℕ) (cluster : Option ℕ)
        → elim fs as (λ u. List Entry × List Entry) [
          | [] ↦ (chain, [])
          | f ∷ fs ↦ reorder_by (demoted_functions log env cluster (f ∷ fs)) chain
        ]
          ≡ reorder_by (demoted_functions log env cluster fs) chain
    go [] none = unfold reorder_by demoted_functions in refl
    go [] (some c) = unfold reorder_by demoted_functions demoted_loop in refl
    go (f ∷ fs) cluster = refl

In-function_ids :
    (chain : List Entry) (f : ℕ) (rest : Dict Text Text)
    → In (some f, rest) chain
    → contains (function_ids chain) f ≡ true
In-function_ids [] f rest i = absurd i
In-function_ids ((none, other) ∷ chain) f rest (inl i) = cc
In-function_ids ((none, other) ∷ chain) f rest (inr i) = In-function_ids chain f rest i
In-function_ids ((some g, other) ∷ chain) f rest (inl i) = ground (arith, nat_beq_iff g f)
In-function_ids ((some g, other) ∷ chain) f rest (inr i) =
    ground (arith, In-function_ids chain f rest i)

-- An entry whose own function is demoted for the cluster.
abbrev pub is_demoted_entry : List FetchLog → ℕ → ℕ → Entry → Bool
is_demoted_entry log n cluster (none, rest) = false
is_demoted_entry log n cluster (some f, rest) = is_demoted log n cluster f

-- For a cluster, the reordering of a chain parts it into the entries whose function is not demoted
-- (or that name none) and those whose function is, each in the chain's order; with no cluster the
-- chain stays as it is.
pub reorder_chain_exact :
    (log : List FetchLog) (env : Option Text) (cluster : ℕ) (chain : List Entry)
    → let bad = is_demoted_entry log (demote_threshold env) cluster in
      (reorder_chain log env (some cluster) chain
        ≡ (filter_by (λ rs. not (bad rs)) chain, filter_by bad chain))
      × (reorder_chain log env none chain ≡ (chain, []))
reorder_chain_exact log env cluster chain =
    let bad = demoted_functions log env (some cluster) (function_ids chain) in
    let same : (e : Entry)
        → In e chain
        → in_bad bad e ≡ is_demoted_entry log (demote_threshold env) cluster e =
      agree in
    (
      reorder_chain_lem log env (some cluster) chain
          ∙ reorder_by_lem bad chain
          ∙ (cc (
            filter-same (λ rs. not (in_bad bad rs))
                (λ rs. not (is_demoted_entry log (demote_threshold env) cluster rs)) chain
                (λ e i. ap not (same e i)),
            filter-same (in_bad bad) (is_demoted_entry log (demote_threshold env) cluster) chain
                same,
          )),
      reorder_chain_lem log env none chain
          ∙ ap (λ u. reorder_by u chain) (demoted_exact log env cluster 0 (function_ids chain)).1
          ∙ (unfold reorder_by in refl),
    )
  where
    agree :
        (e : Entry)
        → In e chain
        → in_bad (demoted_functions log env (some cluster) (function_ids chain)) e
          ≡ is_demoted_entry log (demote_threshold env) cluster e
    agree (none, rest) i = refl
    agree (some f, rest) i =
        rw
          ((demoted_exact log env cluster f (function_ids chain)).0, In-function_ids chain f rest i)
          refl
