-- ===== src/Refresh/Policy/Window.antt =====
-- The crawl window of a policy.
use fd_open_data_mcp.Base.{
  Bool-cases, get_default, list_eq, nat_eq, ◌==◌, codes, Date, date_lt, ◌≡◌, refl, sym, ◌∙◌, inl,
  inr, true, false, Option, none, some, arith, [], Text,
}
use fd_open_data_mcp.Refresh.Policy.{CrawlPolicy, build_date_range, frozen_window, frozen_end}

date_lt_irreflexive : (d : Date) → date_lt d d ≡ false
unfolding date_lt
date_lt_irreflexive d = ground arith

frozen_end-open :
    (o : Option Date) (today : Date)
    → frozen_end o today ≡ none
    → date_lt (get_default o today) today ≡ false
unfolding frozen_end
frozen_end-open none today h = date_lt_irreflexive today
frozen_end-open (some e) today h = elim (Bool-cases (date_lt e today)) [
  | inl l ↦ cc (h, l)
  | inr l ↦ l
]

explicit_both :
    (o : Option Text)
    → (get_default o (codes "since_last") == codes "explicit") ≡ true
    → (get_default o [] == codes "explicit") ≡ true
explicit_both none h = cc h
explicit_both (some t) h = h

explicit-frozen :
    (policy : CrawlPolicy) (today : Date)
    → (get_default policy.date_policy.window_mode [] == codes "explicit") ≡ true
    → frozen_window policy today ≡ frozen_end policy.date_policy.end today
unfolding frozen_window
explicit-frozen policy today x = rw x refl

-- The window of a policy that is not refused as frozen does not end before today, whatever its mode.
pub window_open :
    (policy : CrawlPolicy) (today : Date)
    → frozen_window policy today ≡ none
    → date_lt (build_date_range policy today).0.end today ≡ false
unfolding build_date_range
window_open policy today h =
    let o = policy.date_policy.window_mode in
    elim (Bool-cases (get_default o (codes "since_last") == codes "trailing")) [
      | inl t ↦ rw t (date_lt_irreflexive today)
      | inr t ↦ elim (Bool-cases (get_default o (codes "since_last") == codes "explicit")) [
        | inl x ↦
            let frozen = explicit-frozen policy today (explicit_both o x) in
            rw (t, x) (frozen_end-open policy.date_policy.end today (sym frozen ∙ h))
        | inr x ↦ rw (t, x) (date_lt_irreflexive today)
      ]
    ]
