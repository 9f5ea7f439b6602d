-- ===== src/Base/Dictionary.antt =====
-- Python's `dict`: an association list in insertion order. A write to a key that is there keeps its
-- place, a new key goes to the end.
use mathlib.Core.Path.{◌≡◌, refl}
use mathlib.Core.List.{List, [], ◌∷◌}
use mathlib.Core.Option.{Option, none, some, map as map_option}
use native.Mathlib.Omega.{arith}
use mathlib.Core.Logic.{inl, inr}
use fd_open_data_mcp.Base.Lists.{In}
use fd_open_data_mcp.Base.Tests.{if◌then◌else◌}
use fd_open_data_mcp.Base.Equality.{Eq, ◌==◌}

abbrev pub Dict {ℓ κ} : Type ℓ → Type κ → Type (ℓ ⊔ κ)
Dict K V = List (K × V)

module _ {ℓ κ} {K : Type ℓ} {V : Type κ} ⦃e : Eq K⦄ where
  unfoldable pub get : Dict K V → K → Option V
  get [] k = none
  get ((j, v) ∷ d) k = if j == k then some v else get d k

  unfoldable pub put : Dict K V → K → V → Dict K V
  put [] k v = (k, v) ∷ []
  put ((j, w) ∷ d) k v = if j == k then (j, v) ∷ d else (j, w) ∷ put d k v

  unfoldable pub remove : Dict K V → K → Dict K V
  remove [] k = []
  remove ((j, w) ∷ d) k = let rest = remove d k in if j == k then rest else (j, w) ∷ rest

  pub get-put :
      (d : Dict K V) (k j : K) (v : V) → get (put d k v) j ≡ (if k == j then some v else get d j)
  unfolding get put
  get-put [] k j v = refl
  get-put ((i, w) ∷ d) k j v =
      ground (arith, e.beq_iff i k, e.beq_iff k j, e.beq_iff i j, get-put d k j v)

  pub get-remove :
      (d : Dict K V) (k j : K) → get (remove d k) j ≡ (if k == j then none else get d j)
  unfolding get remove
  get-remove [] k j = ground arith
  get-remove ((i, w) ∷ d) k j =
      ground (arith, e.beq_iff i k, e.beq_iff k j, e.beq_iff i j, get-remove d k j)

-- Each value replaced by what a function of the key and it gives.
abbrev pub map_values {ℓ κ μ} :
    {K : Type ℓ} {V : Type κ} {W : Type μ} → (K → V → W) → Dict K V → Dict K W
map_values f [] = []
map_values f ((k, v) ∷ d) = (k, f k v) ∷ map_values f d

module _ {K V W : Type 0} ⦃e : Eq K⦄ where
  pub get-map_values :
      (f : K → V → W) (d : Dict K V) (k : K) → get (map_values f d) k ≡ map_option (f k) (get d k)
  unfolding get
  get-map_values f [] k = refl
  get-map_values f ((j, v) ∷ d) k = ground (arith, e.beq_iff j k, get-map_values f d k)

  pub remove-map_values :
      (f : K → V → W) (d : Dict K V) (k : K) → remove (map_values f d) k ≡ map_values f (remove d k)
  unfolding remove
  remove-map_values f [] k = refl
  remove-map_values f ((j, v) ∷ d) k = ground (arith, remove-map_values f d k)

  pub put-map_values :
      (f : K → V → W) (d : Dict K V) (k : K) (v : V)
      → put (map_values f d) k (f k v) ≡ map_values f (put d k v)
  unfolding put
  put-map_values f [] k v = refl
  put-map_values f ((j, w) ∷ d) k v = ground (arith, e.beq_iff j k, put-map_values f d k v)

module _ {K V : Type 0} ⦃e : Eq K⦄ where
  -- No key stands twice.
  abbrev pub IsUnique : Dict K V → Type 0
  IsUnique [] = Unit
  IsUnique ((k, v) ∷ d) = (get d k ≡ none) × IsUnique d

  pub get-In : (d : Dict K V) (k : K) (v : V) → get d k ≡ some v → In (k, v) d
  unfolding get
  get-In [] k v h = cc
  get-In ((j, w) ∷ d) k v h = ground (arith, e.beq_iff j k, get-In d k v)

  pub In-get : (d : Dict K V) (k : K) (v : V) → IsUnique d → In (k, v) d → get d k ≡ some v
  unfolding get
  In-get [] k v u i = absurd i
  In-get ((j, w) ∷ d) k v u (inl i) = ground (arith, e.beq_iff j k)
  In-get ((j, w) ∷ d) k v u (inr i) = ground (arith, e.beq_iff j k, In-get d k v u.1 i)

  pub put-IsUnique : (d : Dict K V) (k : K) (v : V) → IsUnique d → IsUnique (put d k v)
  unfolding get put
  put-IsUnique [] k v u = (refl, tt)
  put-IsUnique ((j, w) ∷ d) k v u =
      ground (arith, e.beq_iff j k, e.beq_iff k j, put-IsUnique d k v u.1, get-put d k j v)

  pub remove-IsUnique : (d : Dict K V) (k : K) → IsUnique d → IsUnique (remove d k)
  unfolding get remove
  remove-IsUnique [] k u = tt
  remove-IsUnique ((j, w) ∷ d) k u =
      ground (arith, e.beq_iff k j, remove-IsUnique d k u.1, get-remove d k j)
