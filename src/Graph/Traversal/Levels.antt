-- ===== src/Graph/Traversal/Levels.antt =====
-- The levels of the breadth-first traversal: an invariant of its loop.
use fd_open_data_mcp.Base.{
  nat_beq_iff, Bool-cases, In, In-append, nat_eq, list_eq, pair_eq, ◌==◌, contains, count,
  contains-count, count-append, ℕ, zero, suc, ◌≤◌, ◌≡◌, refl, sym, ap, ◌∙◌, subst, ◌⊎◌, inl, inr,
  true, false, some, [], ◌∷◌, ◌++◌, arith,
}
use fd_open_data_mcp.Graph.Manager.{Graph, pushes}
use fd_open_data_mcp.Graph.Traversal.{
  Order, nodes_of, is_skipped, visit, extend, order_step, order_loop,
}
use fd_open_data_mcp.Graph.Traversal.Fuel.{pushes-In, In-pushes, skipped-false, nodes_of-visit}

-- A walk along edges from the start to a node, with its length.
pub data Walk (graph : Graph) (start : ℕ) : ℕ → ℕ → Type 0 where
  stays : Walk graph start start 0
  goes : (n m d : ℕ) → Walk graph start n d → In m (graph.neighbors n) → Walk graph start m (suc d)

-- The depths do not fall, and each is at most one more than those before it.
abbrev pub IsSorted : Order → Type 0
IsSorted [] = Unit
IsSorted ((m, k) ∷ queue) = ((n j : ℕ) → In (n, j) queue → (k ≤ j) × (j ≤ suc k)) × IsSorted queue

level-IsSorted : (c : ℕ) (ys : Order) → ((m k : ℕ) → In (m, k) ys → k ≡ c) → IsSorted ys
level-IsSorted c [] all = tt
level-IsSorted c ((m, k) ∷ ys) all = (
  λ n j i. omega (arith, all m k (inl refl), all n j (inr i)),
  level-IsSorted c ys (λ n j i. all n j (inr i)),
)

append-IsSorted :
    (c : ℕ) (xs ys : Order)
    → IsSorted xs
    → ((m k : ℕ) → In (m, k) ys → k ≡ c)
    → ((m k : ℕ) → In (m, k) xs → (k ≤ c) × (c ≤ suc k))
    → IsSorted (xs ++ ys)
append-IsSorted c [] ys s all near = level-IsSorted c ys all
append-IsSorted c ((m, k) ∷ xs) ys (l, s) all near = (
  λ n j i. elim ((In-append (n, j) xs ys).0 i) [
    | inl x ↦ l n j x
    | inr y ↦ (
      omega (arith, all n j y, near m k (inl refl)),
      omega (arith, all n j y, near m k (inl refl)),
    )
  ],
  append-IsSorted c xs ys s all (λ n j i. near n j (inr i)),
)

contains-entry :
    (order : Order) (m : ℕ) → contains (nodes_of order) m ≡ true → (k : ℕ) × In (m, k) order
contains-entry [] m = λ h. cc h
contains-entry ((n, d) ∷ order) m = elim (Bool-cases (n == m)) [
  | inl e ↦ λ h. (d, inl (ap (λ x. (x, d)) (sym ((nat_beq_iff n m).0 e))))
  | inr e ↦ rw e (λ h. let (k, i) = contains-entry order m h in (k, inr i))
]

-- The node is visited or waits, at this depth or a lower one.
abbrev pub Has : Order → Order → ℕ → ℕ → Type 0
Has order queue m j = (k : ℕ) × (In (m, k) order ⊎ In (m, k) queue) × (k ≤ j)

pub record Invariant (graph : Graph) (start max_depth : ℕ) (order queue : Order) : Type 0 where
  pub walked : (n d : ℕ) → In (n, d) order ⊎ In (n, d) queue → Walk graph start n d
  pub low : (n d : ℕ) → In (n, d) order → d ≤ max_depth
  pub distinct : (n : ℕ) → count n (nodes_of order) ≤ 1
  pub no_deeper : (n d m k : ℕ) → In (n, d) order → In (m, k) queue → d ≤ k
  pub sorted : IsSorted queue
  pub closed :
      (n d m : ℕ)
      → In (n, d) order
      → suc d ≤ max_depth
      → In m (graph.neighbors n)
      → Has order queue m (suc d)
  pub begun : Has order queue start 0

module _ (graph : Graph) (start max_depth : ℕ) where
  -- An entry that is skipped is too deep, or its node is visited at its depth or a lower one.
  has-skip :
      (order queue : Order) (n d m j : ℕ)
      → ((a b : ℕ) → In (a, b) order → b ≤ d)
      → is_skipped max_depth order (n, d) ≡ true
      → j ≤ max_depth
      → Has order ((n, d) ∷ queue) m j
      → Has order queue m j
  has-skip order queue n d m j no_deeper s l (k, inl i, h) = (k, inl i, h)
  has-skip order queue n d m j no_deeper s l (k, inr (inr i), h) = (k, inr i, h)
  has-skip order queue n d m j no_deeper s l (k, inr (inl e), h) =
      let same_node : m ≡ n = ap (λ p. p.0) e in
      let same_depth : k ≡ d = ap (λ p. p.1) e in
      elim (Bool-cases (contains (nodes_of order) n)) [
        | inl c ↦
            let (b, i) = contains-entry order m (ap (contains (nodes_of order)) same_node ∙ c) in
            (b, inl i, omega (arith, no_deeper m b i, h, same_depth))
        | inr c ↦ absurd (ground (arith, s, c, h, l, same_depth))
      ]

  skip-Invariant :
      (order queue : Order) (n d : ℕ)
      → is_skipped max_depth order (n, d) ≡ true
      → Invariant graph start max_depth order ((n, d) ∷ queue)
      → Invariant graph start max_depth order queue
  skip-Invariant order queue n d s v =
      let under : (a b : ℕ) → In (a, b) order → b ≤ d = λ a b i. v.no_deeper a b n d i (inl refl) in
      record {
        walked = λ a b i. v.walked a b (elim i [ inl o ↦ inl o | inr q ↦ inr (inr q) ]);
        low = v.low;
        distinct = v.distinct;
        no_deeper = λ a b m k i q. v.no_deeper a b m k i (inr q);
        sorted = v.sorted.1;
        closed = λ a b m i l e. has-skip order queue n d m (suc b) under s l (v.closed a b m i l e);
        begun = has-skip order queue n d start 0 under s (omega arith) v.begun;
      }

  -- A node that is visited or waits, the head of the queue included, still does after the visit.
  has-visit :
      (order queue pushed : Order) (e : ℕ × ℕ) (m j : ℕ)
      → Has order (e ∷ queue) m j
      → Has (visit order e) (queue ++ pushed) m j
  has-visit order queue pushed e m j (k, inl i, h) =
      (k, inl ((In-append (m, k) order (e ∷ [])).1 (inl i)), h)
  has-visit order queue pushed e m j (k, inr (inl i), h) =
      (k, inl ((In-append (m, k) order (e ∷ [])).1 (inr (inl i))), h)
  has-visit order queue pushed e m j (k, inr (inr i), h) =
      (k, inr ((In-append (m, k) queue pushed).1 (inl i)), h)

  In-visit : (order : Order) (e x : ℕ × ℕ) → In x (visit order e) → In x order ⊎ (x ≡ e)
  In-visit order e x i = elim ((In-append x order (e ∷ [])).0 i) [
    | inl o ↦ inl o
    | inr (inl q) ↦ inr q
    | inr (inr z) ↦ absurd z
  ]

  module _ (order queue : Order) (n d : ℕ)
      (v : Invariant graph start max_depth order ((n, d) ∷ queue)) where
    after : Order
    after = visit order (n, d)

    pushed : Order
    pushed = pushes (nodes_of after) (graph.neighbors n) (suc d)

    below_head : (a b : ℕ) → In (a, b) after → b ≤ d
    unfolding after
    below_head a b i = elim (In-visit order (n, d) (a, b) i) [
      | inl o ↦ v.no_deeper a b n d o (inl refl)
      | inr e ↦ let q : b ≡ d = ap (λ p. p.1) e in omega (arith, q)
    ]

    pushed-depth : (m k : ℕ) → In (m, k) pushed → k ≡ suc d
    unfolding pushed
    pushed-depth m k i = (pushes-In (nodes_of after) (graph.neighbors n) (suc d) m k i).2

    waiting : (m k : ℕ) → In (m, k) (queue ++ pushed) → d ≤ k
    waiting m k i = elim ((In-append (m, k) queue pushed).0 i) [
      | inl q ↦ (v.sorted.0 m k q).0
      | inr q ↦ omega (arith, pushed-depth m k q)
    ]

    neighbor-Has : (m : ℕ) → In m (graph.neighbors n) → Has after (queue ++ pushed) m (suc d)
    unfolding pushed
    neighbor-Has m i = elim (Bool-cases (contains (nodes_of after) m)) [
      | inl c ↦ let (k, o) = contains-entry after m c in (k, inl o, omega (arith, below_head m k o))
      | inr c ↦ (
        suc d,
        inr (
            (In-append (m, suc d) queue pushed).1
              (inr (In-pushes (nodes_of after) (graph.neighbors n) (suc d) m i c))),
        omega arith,
      )
    ]

    visit-distinct : contains (nodes_of order) n ≡ false → (a : ℕ) → count a (nodes_of after) ≤ 1
    unfolding after
    visit-distinct new a = rw (nodes_of-visit graph order n d) (
        ground (
          arith,
          count-append a (nodes_of order) (n ∷ []),
          contains-count (nodes_of order) n,
          new,
          v.distinct a,
          nat_beq_iff n a,
        ))

    visit-walked : (a b : ℕ) → In (a, b) after ⊎ In (a, b) (queue ++ pushed) → Walk graph start a b
    unfolding after pushed
    visit-walked a b (inl i) = elim (In-visit order (n, d) (a, b) i) [
      | inl o ↦ v.walked a b (inl o)
      | inr e ↦ v.walked a b (inr (inl e))
    ]
    visit-walked a b (inr i) = elim ((In-append (a, b) queue pushed).0 i) [
      | inl q ↦ v.walked a b (inr (inr q))
      | inr q ↦
          let (edge, new, deep) = pushes-In (nodes_of after) (graph.neighbors n) (suc d) a b q in
          subst (Walk graph start a) (sym deep) (goes n a d (v.walked n d (inr (inl refl))) edge)
    ]

    visit-closed :
        (a b m : ℕ)
        → In (a, b) after
        → suc b ≤ max_depth
        → In m (graph.neighbors a)
        → Has after (queue ++ pushed) m (suc b)
    unfolding after
    visit-closed a b m i l e = elim (In-visit order (n, d) (a, b) i) [
      | inl o ↦ has-visit order queue pushed (n, d) m (suc b) (v.closed a b m o l e)
      | inr q ↦
          let node : a ≡ n = ap (λ p. p.0) q in
          let depth : b ≡ d = ap (λ p. p.1) q in
          subst (λ (k : ℕ). Has after (queue ++ pushed) m (suc k)) (sym depth)
            (neighbor-Has m (subst (λ (k : ℕ). In m (graph.neighbors k)) node e))
    ]

    visit-Invariant :
        is_skipped max_depth order (n, d) ≡ false
        → Invariant graph start max_depth (visit order (n, d)) (extend graph order (n, d) queue)
    unfolding after pushed
    visit-Invariant s =
        let (deep, new) = skipped-false graph max_depth order n d s in
        record {
          walked = visit-walked;
          low = λ a b i. omega (arith, below_head a b i, deep);
          distinct = visit-distinct new;
          no_deeper = λ a b m k i q. omega (arith, below_head a b i, waiting m k q);
          sorted = append-IsSorted (suc d) queue pushed v.sorted.1 pushed-depth (λ m k i.
              let near = v.sorted.0 m k i in (omega (arith, near.1), omega (arith, near.0)));
          closed = visit-closed;
          begun = has-visit order queue pushed (n, d) start 0 v.begun;
        }

  step-Invariant :
      (order queue : Order) (n d : ℕ)
      → Invariant graph start max_depth order ((n, d) ∷ queue)
      → let (after, rest) = order_step graph max_depth order (n, d) queue in
        Invariant graph start max_depth after rest
  unfolding order_step
  step-Invariant order queue n d v = elim (Bool-cases (is_skipped max_depth order (n, d))) [
    | inl s ↦ rw s (skip-Invariant order queue n d s v)
    | inr s ↦ rw s (visit-Invariant order queue n d v s)
  ]

  pub order_loop-Invariant :
      (f : ℕ) (order queue last : Order)
      → Invariant graph start max_depth order queue
      → order_loop f graph max_depth order queue ≡ some last
      → Invariant graph start max_depth last []
  unfolding order_loop
  order_loop-Invariant zero order queue last v h = cc h
  order_loop-Invariant (suc f) order [] last v h =
      let same : order ≡ last = ground (arith, h) in
      subst (λ (o : Order). Invariant graph start max_depth o []) same v
  order_loop-Invariant (suc f) order ((n, d) ∷ queue) last v h =
      let (after, rest) = order_step graph max_depth order (n, d) queue in
      order_loop-Invariant f after rest last (step-Invariant order queue n d v) h

  -- Where nothing waits, every walk that is short enough ends in a node that is visited no deeper.
  pub Walk-visited :
      (order : Order) (n d : ℕ)
      → Invariant graph start max_depth order []
      → Walk graph start n d
      → d ≤ max_depth
      → (k : ℕ) × In (n, k) order × (k ≤ d)
  Walk-visited order n d v stays l =
      let (k, o, q) = v.begun in elim o [ inl x ↦ (k, x, q) | inr x ↦ absurd x ]
  Walk-visited order n d v (goes a m b walk edge) l =
      let (k, i, h) = Walk-visited order a b v walk (omega (arith, l)) in
      let (j, o, q) = v.closed a k m i (omega (arith, h, l)) edge in
      elim o [ inl x ↦ (j, x, omega (arith, q, h)) | inr x ↦ absurd x ]

  first-Walk :
      (n d : ℕ)
      → In {A = ℕ × ℕ} (n, d) [] ⊎ In {A = ℕ × ℕ} (n, d) ((start, 0) ∷ [])
      → Walk graph start n d
  first-Walk n d (inl z) = absurd z
  first-Walk n d (inr (inr z)) = absurd z
  first-Walk n d (inr (inl e)) = subst (λ (x : ℕ × ℕ). Walk graph start x.0 x.1) (sym e) stays

  pub init-Invariant : Invariant graph start max_depth [] ((start, 0) ∷ [])
  init-Invariant = record {
    walked = λ n d i. first-Walk n d i;
    low = λ n d i. absurd i;
    distinct = λ n. omega arith;
    no_deeper = λ n d m k i q. absurd i;
    sorted = (λ n j i. absurd i, tt);
    closed = λ n d m i l e. absurd i;
    begun = (0, inr (inl refl), omega arith);
  }
