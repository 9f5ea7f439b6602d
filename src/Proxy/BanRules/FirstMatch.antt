-- ===== src/Proxy/BanRules/FirstMatch.antt =====
-- The class that `classify` gives, and the priority of the rules.
use fd_open_data_mcp.Base.{
  ℕ, ◌≤◌, ◌≡◌, refl, sym, ap, ◌∙◌, subst, Bool, true, inl, inr, ◌⊎◌, ◌↔◌, Bool-cases, Option-cases,
  Option, none, some, List, [], ◌∷◌, arith, if◌then◌else◌, ltb, Text, In, In-filter_by, filter_by,
  get, get_default, list_eq, list_beq_iff, nat_eq, ◌==◌, collect,
}
use fd_open_data_mcp.Proxy.Circuit.{Classification}
use fd_open_data_mcp.Proxy.BanRules.{
  BanRule, Rule, FetchOutcome, insert_by_priority, by_priority, applies_to, rule_of, query_rules,
  is_gated, rule_matches, default_class, classify_loop, classify, load_rules, resolve_rules,
  or_library, real_source_fallback, fresh_entry, Cache,
}

-- Every row after another has at most its priority.
abbrev pub Below : ℕ → List BanRule → Type 0
Below n [] = Unit
Below n (x ∷ xs) = (x.priority ≤ n) × Below n xs

abbrev pub IsDescending : List BanRule → Type 0
IsDescending [] = Unit
IsDescending (x ∷ xs) = Below x.priority xs × IsDescending xs

Below-mono : (m n : ℕ) (xs : List BanRule) → m ≤ n → Below m xs → Below n xs
Below-mono m n [] h b = tt
Below-mono m n (x ∷ xs) h b = (omega arith, Below-mono m n xs h b.1)

Below-insert :
    (n : ℕ) (r : BanRule) (xs : List BanRule)
    → r.priority ≤ n
    → Below n xs
    → Below n (insert_by_priority r xs)
unfolding insert_by_priority
Below-insert n r [] h b = (h, tt)
Below-insert n r (x ∷ xs) h b = ground (arith, Below-insert n r xs h b.1)

insert-IsDescending :
    (r : BanRule) (xs : List BanRule) → IsDescending xs → IsDescending (insert_by_priority r xs)
unfolding insert_by_priority
insert-IsDescending r [] d = (tt, tt)
insert-IsDescending r (x ∷ xs) d = elim (Bool-cases (ltb r.priority x.priority)) [
  | inl e ↦ rw e (Below-insert x.priority r xs (ground arith) d.0, insert-IsDescending r xs d.1)
  | inr e ↦ rw e ((ground arith, Below-mono x.priority r.priority xs (ground arith) d.0), d)
]

by_priority-IsDescending : (rs : List BanRule) → IsDescending (by_priority rs)
unfolding by_priority
by_priority-IsDescending [] = tt
by_priority-IsDescending (r ∷ rs) =
    insert-IsDescending r (by_priority rs) (by_priority-IsDescending rs)

In-insert :
    (b r : BanRule) (xs : List BanRule) → In b (insert_by_priority r xs) ↔ ((b ≡ r) ⊎ In b xs)
unfolding insert_by_priority
In-insert b r [] = ground arith
In-insert b r (x ∷ xs) = ground (arith, In-insert b r xs)

In-by_priority : (b : BanRule) (rs : List BanRule) → In b (by_priority rs) ↔ In b rs
unfolding by_priority
In-by_priority b [] = ground arith
In-by_priority b (r ∷ rs) = ground (arith, In-insert b r (by_priority rs), In-by_priority b rs)

Below-In : (n : ℕ) (b : BanRule) (xs : List BanRule) → Below n xs → In b xs → b.priority ≤ n
Below-In n b [] h i = absurd i
Below-In n b (x ∷ xs) h (inl e) = rw e h.0
Below-In n b (x ∷ xs) h (inr i) = Below-In n b xs h.1 i

-- The source whose rows decide: the library of the source where no enabled row of the source has a
-- class of the code, and the source itself where one has or no library stands for it.
unfoldable pub deciding_source : List BanRule → Text → Text
deciding_source table source = elim (query_rules table source) [
  | [] ↦ get_default (real_source_fallback source) source
  | rule ∷ rules ↦ source
]

or_library-query :
    (table : List BanRule) (source : Text) (library : Option Text) (rules : List Rule)
    → query_rules table source ≡ rules
    → or_library table source library rules
      ≡ query_rules table (elim rules [ [] ↦ get_default library source | rule ∷ later ↦ source ])
or_library-query table source none [] e = sym e
or_library-query table source none (rule ∷ rules) e = sym e
or_library-query table source (some library) (rule ∷ rules) e = sym e
or_library-query table source (some library) [] e = elim (Bool-cases (library == source)) [
  | inl same ↦ rw same (sym e ∙ ap (query_rules table) (sym ((list_beq_iff library source).0 same)))
  | inr other ↦ rw other refl
]

resolve_rules-query :
    (table : List BanRule) (source : Text)
    → resolve_rules table source ≡ query_rules table (deciding_source table source)
unfolding resolve_rules deciding_source
resolve_rules-query table source =
    or_library-query table source (real_source_fallback source) (query_rules table source) refl

module _ (search : Text → Text → Option Bool) (o : FetchOutcome) (fail_streak : ℕ) where
  -- The class that this rule gives, if its streak is reached and it matches.
  abbrev pub fired : Option Rule → Option Classification
  fired none = none
  fired (some rule) =
      if is_gated rule fail_streak
      then none
      else if rule_matches search rule o
      then some rule.class
      else none

  abbrev pub row_fires : BanRule → Option Classification
  row_fires br = fired (rule_of br)

  -- Either no row fires and the class is the default, or a row of the highest priority that fires
  -- gives it.
  abbrev pub Verdict : (BanRule → Type 0) → Classification → Type 0
  Verdict P c =
      (((br : BanRule) → P br → row_fires br ≡ none) × (c ≡ default_class o.http_status))
      ⊎ ((br : BanRule) × P br
          × (row_fires br ≡ some c)
          × ((other : BanRule) (d : Classification)
              → P other
              → row_fires other ≡ some d
              → other.priority ≤ br.priority))

  loop_skips :
      (br : BanRule) (rows : List BanRule)
      → row_fires br ≡ none
      → classify_loop search (collect rule_of (br ∷ rows)) o fail_streak
        ≡ classify_loop search (collect rule_of rows) o fail_streak
  unfolding classify_loop
  loop_skips br rows e = ground arith

  loop_takes :
      (br : BanRule) (rows : List BanRule) (c : Classification)
      → row_fires br ≡ some c
      → classify_loop search (collect rule_of (br ∷ rows)) o fail_streak ≡ c
  unfolding classify_loop
  loop_takes br rows c e = ground arith

  Verdict-skip :
      (br : BanRule) (rows : List BanRule) (c : Classification)
      → row_fires br ≡ none
      → Verdict (λ b. In b rows) c
      → Verdict (λ b. In b (br ∷ rows)) c
  Verdict-skip br rows c e (inl (dark, def)) =
      inl (λ b i. elim i [ inl same ↦ ap (λ r. row_fires r) same ∙ e | inr j ↦ dark b j ], def)
  Verdict-skip br rows c e (inr (b, i, f, top)) = inr (
    b,
    inr i,
    f,
    λ other d j q. elim j [ inl same ↦ cc (ap (λ r. row_fires r) same) | inr k ↦ top other d k q ],
  )

  Verdict-take :
      (br : BanRule) (rows : List BanRule) (c : Classification)
      → Below br.priority rows
      → row_fires br ≡ some c
      → Verdict (λ b. In b (br ∷ rows)) c
  Verdict-take br rows c below e = inr (
    br,
    inl refl,
    e,
    λ other d j q. elim j [
      | inl same ↦ omega (arith, ap (λ (r : BanRule). r.priority) same)
      | inr k ↦ Below-In br.priority other rows below k
    ],
  )

  classify_loop-Verdict :
      (rows : List BanRule)
      → IsDescending rows
      → Verdict (λ br. In br rows) (classify_loop search (collect rule_of rows) o fail_streak)
  classify_loop-Verdict [] d = inl (λ br i. absurd i, unfold classify_loop in refl)
  classify_loop-Verdict (br ∷ rows) d =
      let later = classify_loop-Verdict rows d.1 in
      let P = λ (b : BanRule). In b (br ∷ rows) in
      elim (Option-cases (row_fires br)) [
        | inl e ↦ subst (Verdict P) (sym (loop_skips br rows e)) (Verdict-skip br rows _ e later)
        | inr (c, e) ↦
            subst (Verdict P) (sym (loop_takes br rows c e)) (Verdict-take br rows c d.0 e)
      ]

  Verdict-of_iff :
      (P Q : BanRule → Type 0) (c : Classification)
      → ((b : BanRule) → P b ↔ Q b)
      → Verdict P c
      → Verdict Q c
  Verdict-of_iff P Q c same (inl (dark, def)) = inl (λ b q. dark b ((same b).1 q), def)
  Verdict-of_iff P Q c same (inr (b, p, f, top)) =
      inr (b, (same b).0 p, f, λ other d q e. top other d ((same other).1 q) e)

  source_rules-Verdict :
      (table : List BanRule) (source : Text)
      → Verdict
          (λ br. In br table × (applies_to source br ≡ true))
          (classify_loop search (query_rules table source) o fail_streak)
  unfolding query_rules
  source_rules-Verdict table source =
      let rows = filter_by (applies_to source) table in
      Verdict-of_iff (λ b. In b (by_priority rows))
        (λ br. In br table × (applies_to source br ≡ true)) _
        (λ b. (
          (λ i. (In-filter_by (applies_to source) b table).0 ((In-by_priority b rows).0 i)),
          λ q. (In-by_priority b rows).1 ((In-filter_by (applies_to source) b table).1 q),
        ))
        (classify_loop-Verdict (by_priority rows) (by_priority-IsDescending rows))

  -- The class of an outcome, where the cache of rules has no entry of the last minute. The rows that
  -- decide are the enabled ones of the source, or of its library where none of those has a class of
  -- the code. If no such row fires, the class is the default; if one does, the class is that of such
  -- a row that fires, and no such row that fires has a higher priority.
  pub classify-priority :
      (table : List BanRule) (now : ℕ) (source : Text) (cache : Cache)
      → fresh_entry now (get cache source) ≡ none
      → Verdict
          (λ br. In br table × (applies_to (deciding_source table source) br ≡ true))
          (classify search table now source cache o fail_streak).0
  unfolding classify load_rules
  classify-priority table now source cache stale =
      rw (stale, resolve_rules-query table source)
        (source_rules-Verdict table (deciding_source table source))
