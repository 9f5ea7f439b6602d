-- ===== src/Stream/RedisLease/Entries.antt =====
-- The entries of a dictionary by a list of its keys.
use fd_open_data_mcp.Base.{
  nat_eq, list_eq, ◌==◌, beq_refl, list_beq_iff, Text, count, Dict, get, IsUnique, map_values,
  get-map_values, map_option, ◌≤◌, ◌≡◌, ◌⊎◌, false, refl, sym, ap, ◌∙◌, inl, inr, Option, none,
  some, List, [], ◌∷◌, arith, Bool-cases,
}
use fd_open_data_mcp.Stream.RedisLease.{entries_of, with_entry}

unfoldable pub keys : {V : Type 0} → Dict Text V → List Text
keys [] = []
keys ((k, v) ∷ d) = k ∷ keys d

module _ {V : Type 0} where
  with_entry-map_values :
      (f : Text → V → Text) (k : Text) (o : Option V) (d : Dict Text V)
      → with_entry k (map_option (f k) o) (map_values f d) ≡ map_values f (with_entry k o d)
  with_entry-map_values f k none d = refl
  with_entry-map_values f k (some v) d = refl

  pub entries_of-map_values :
      (f : Text → V → Text) (ks : List Text) (d : Dict Text V)
      → entries_of ks (map_values f d) ≡ map_values f (entries_of ks d)
  unfolding entries_of
  entries_of-map_values f [] d = refl
  entries_of-map_values f (k ∷ ks) d =
      ap (λ o. with_entry k o (entries_of ks (map_values f d))) (get-map_values f d k)
      ∙ ap (with_entry k (map_option (f k) (get d k))) (entries_of-map_values f ks d)
      ∙ with_entry-map_values f k (get d k) (entries_of ks d)

  get-with_entry :
      (j k : Text) (o : Option V) (d : Dict Text V) (v : V)
      → get (with_entry j o d) k ≡ some v
      → ((j ≡ k) × (o ≡ some v)) ⊎ (get d k ≡ some v)
  unfolding get
  get-with_entry j k none d v h = inr h
  get-with_entry j k (some w) d v h = elim (Bool-cases (j == k)) [
    | inl e ↦ inl ((list_beq_iff j k).0 e, ground (arith, h, e))
    | inr e ↦ inr (ground (arith, h, e))
  ]

  pub get-entries_of :
      (ks : List Text) (d : Dict Text V) (k : Text) (v : V)
      → get (entries_of ks d) k ≡ some v
      → get d k ≡ some v
  unfolding entries_of
  get-entries_of [] d k v h = unfold get in cc h
  get-entries_of (j ∷ ks) d k v h = elim (get-with_entry j k (get d j) (entries_of ks d) v h) [
    | inl (same, e) ↦ ap (get d) (sym same) ∙ e
    | inr e ↦ get-entries_of ks d k v e
  ]

  with_entry-none :
      (j k : Text) (o : Option V) (d : Dict Text V)
      → (j == k) ≡ false
      → get d k ≡ none
      → get (with_entry j o d) k ≡ none
  unfolding get
  with_entry-none j k none d e h = h
  with_entry-none j k (some w) d e h = ground (arith, e, h)

  get-entries_none :
      (ks : List Text) (d : Dict Text V) (k : Text)
      → count k ks ≡ 0
      → get (entries_of ks d) k ≡ none
  unfolding entries_of
  get-entries_none [] d k h = unfold get in refl
  get-entries_none (j ∷ ks) d k h =
      with_entry-none j k (get d j) (entries_of ks d) (ground (arith, h))
        (get-entries_none ks d k (ground (arith, h)))

  with_entry-IsUnique :
      (k : Text) (o : Option V) (d : Dict Text V)
      → get d k ≡ none
      → IsUnique d
      → IsUnique (with_entry k o d)
  with_entry-IsUnique k none d h u = u
  with_entry-IsUnique k (some v) d h u = (h, u)

  pub entries_of-IsUnique :
      (ks : List Text) (d : Dict Text V)
      → ((k : Text) → count k ks ≤ 1)
      → IsUnique (entries_of ks d)
  unfolding entries_of
  entries_of-IsUnique [] d h = tt
  entries_of-IsUnique (k ∷ ks) d h =
      with_entry-IsUnique k (get d k) (entries_of ks d)
        (get-entries_none ks d k (ground (arith, h k, beq_refl k)))
        (entries_of-IsUnique ks d (λ j. ground (arith, h j)))

  count-keys-none : (d : Dict Text V) (k : Text) → get d k ≡ none → count k (keys d) ≡ 0
  unfolding get keys
  count-keys-none [] k h = refl
  count-keys-none ((j, v) ∷ d) k h = ground (arith, h, count-keys-none d k)

  pub count-keys :
      (d : Dict Text V) (k : Text) (v : V) → IsUnique d → get d k ≡ some v → count k (keys d) ≡ 1
  unfolding get keys
  count-keys [] k v u h = cc h
  count-keys ((j, w) ∷ d) k v u h = elim (Bool-cases (j == k)) [
    | inl e ↦
        let absent = ap (get d) (sym ((list_beq_iff j k).0 e)) ∙ u.0 in
        ground (arith, e, count-keys-none d k absent)
    | inr e ↦ ground (arith, e, h, count-keys d k v u.1)
  ]

  entries_of-other :
      (ks : List Text) (k : Text) (v : V) (d : Dict Text V)
      → count k ks ≡ 0
      → entries_of ks ((k, v) ∷ d) ≡ entries_of ks d
  unfolding entries_of get
  entries_of-other [] k v d h = refl
  entries_of-other (j ∷ ks) k v d h =
      let other : (k == j) ≡ false = ground (arith, h, list_beq_iff k j, beq_refl k) in
      rw other (ap (with_entry j (get d j)) (entries_of-other ks k v d (ground (arith, h))))

  pub entries_of-keys : (d : Dict Text V) → IsUnique d → entries_of (keys d) d ≡ d
  unfolding entries_of get keys
  entries_of-keys [] u = refl
  entries_of-keys ((k, v) ∷ d) u = rw (beq_refl k) (
      ap (λ r. (k, v) ∷ r)
        (entries_of-other (keys d) k v d (count-keys-none d k u.0) ∙ entries_of-keys d u.1))
