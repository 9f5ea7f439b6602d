-- ===== src/Fetch/ActivePool/Prewarm.antt =====
-- The pre-warming of the pool (fd_open_data_mcp/fetch/active_pool.py, prewarm). Filling the gaps of
-- one member (fetch/gapfill.py) is a parameter: it acts on a state, and it may raise.
use fd_open_data_mcp.Base.{
  if◌then◌else◌, length, take, filter_by, nat_eq, list_eq, pair_eq, ℕ, suc, ◌+◌, ◌-◌, ◌≡◌, refl, ap,
  ◌∙◌, Bool, true, false, not, ◌&&◌, Option, none, some, List, [], ◌∷◌, map, arith,
}
use fd_open_data_mcp.Fetch.ActivePool.{PoolSource, EntityKey, Table, Row, pool_members}

-- What the filling of the gaps returns.
pub record Filled : Type 0 where
  pub fill_failed : Bool
  pub gaps : List (ℕ × ℕ)
  pub points : ℕ

pub record Result : Type 0 where
  pub entity : EntityKey
  pub source : PoolSource
  pub ok : Bool
  pub points : Option ℕ
  pub gaps : Option (List (ℕ × ℕ))

pub record Report : Type 0 where
  pub ok : Bool
  pub results : List Result
  pub succeeded : ℕ
  pub failed : ℕ

abbrev pub no_gaps : List (ℕ × ℕ) → Bool
no_gaps [] = true
no_gaps (g ∷ gs) = false

module _ {W : Type 0} (fill_gaps : W → ℕ → EntityKey → ℕ → ℕ → W × Option Filled) where
  -- The result of one member; a member whose filling raised has no points and no gaps to report.
  unfoldable pub result_of : Row → Option Filled → Result
  result_of (k, m) none = record {
    entity = k;
    source = m.source;
    ok = false;
    points = none;
    gaps = none;
  }
  result_of (k, m) (some out) = record {
    entity = k;
    source = m.source;
    ok = not out.fill_failed && no_gaps out.gaps;
    points = some out.points;
    gaps = some out.gaps;
  }

  unfoldable pub prewarm_loop : W → ℕ → ℕ → ℕ → Table → W × Report
  unfolding result_of
  prewarm_loop w concept start end [] =
      (w, record { ok = true; results = []; succeeded = 0; failed = 0 })
  prewarm_loop w concept start end (r ∷ rs) =
      let (w', out) = fill_gaps w concept r.0 start end in
      let (w'', later) = prewarm_loop w' concept start end rs in
      let result = result_of r out in
      (
        w'',
        record {
          ok = true;
          results = result ∷ later.results;
          succeeded = (if result.ok then 1 else 0) + later.succeeded;
          failed = (if result.ok then 0 else 1) + later.failed;
        },
      )

  abbrev pub limited : Option ℕ → Table → Table
  limited none t = t
  limited (some n) t = take n t

  unfoldable pub prewarm : W → Table → Option ℕ → ℕ → ℕ → Option ℕ → W × Report
  unfolding prewarm_loop pool_members
  prewarm w t none today days limit =
      (w, record { ok = false; results = []; succeeded = 0; failed = 0 })
  prewarm w t (some concept) today days limit =
      prewarm_loop w concept (today - days) today (limited limit (pool_members t))

  loop-tally :
      (w : W) (concept start end : ℕ) (t : Table)
      → let report = (prewarm_loop w concept start end t).1 in
        (map (λ r. r.entity) report.results ≡ map (λ r. r.0) t)
        × (report.succeeded + report.failed ≡ length t)
        × (report.succeeded ≡ length (filter_by (λ r. r.ok) report.results))
  unfolding prewarm_loop
  loop-tally w concept start end [] = (refl, omega arith, refl)
  loop-tally w concept start end (r ∷ t) =
      let (w', out) = fill_gaps w concept r.0 start end in
      let later = (prewarm_loop w' concept start end t).1 in
      let (e, s, f) = loop-tally w' concept start end t in
      (
        one_entity r out (map (λ x. x.entity) later.results) ∙ ap (λ u. r.0 ∷ u) e,
        one_counted (result_of r out).ok later.succeeded later.failed (length t) s,
        one_good (result_of r out) later.succeeded later.results f,
      )
    where
      one_entity :
          (r : Row) (o : Option Filled) (k : List EntityKey) → (result_of r o).entity ∷ k ≡ r.0 ∷ k
      one_entity r none k = unfold result_of in refl
      one_entity r (some x) k = unfold result_of in refl

      one_counted :
          (b : Bool) (m n k : ℕ)
          → m + n ≡ k
          → (if b then 1 else 0) + m + ((if b then 0 else 1) + n) ≡ suc k
      one_counted b m n k e = ground arith

      one_good :
          (x : Result) (n : ℕ) (rs : List Result)
          → n ≡ length (filter_by (λ r. r.ok) rs)
          → (if x.ok then 1 else 0) + n ≡ length (filter_by (λ r. r.ok) (x ∷ rs))
      one_good x n rs e = ground arith

  -- Pre-warming for a concept that is known reports on each member of the pool, in the listing's
  -- order and up to the limit, whatever the fillings do and also where they raise; each is counted
  -- once, as succeeded exactly if its result is good.
  pub prewarm_tally :
      (w : W) (t : Table) (concept today days : ℕ) (limit : Option ℕ)
      → let report = (prewarm w t (some concept) today days limit).1 in
        let members = limited limit (pool_members t) in
        (map (λ r. r.entity) report.results ≡ map (λ r. r.0) members)
        × (report.succeeded + report.failed ≡ length members)
        × (report.succeeded ≡ length (filter_by (λ r. r.ok) report.results))
  unfolding prewarm
  prewarm_tally w t concept today days limit =
      loop-tally w concept (today - days) today (limited limit (pool_members t))
