-- ===== src/Refresh/Runs/Cancel.antt =====
-- The table of runs after a cancel, and a second cancel.
use fd_open_data_mcp.Base.{
  if◌then◌else◌, nat_beq_iff, Bool-cases, map_option, nat_eq, list_eq, pair_eq, ◌==◌, beq_refl,
  Text, get, put, get-put, ℕ, ◌≡◌, refl, sym, ap, ◌∙◌, inl, inr, false, Option, none, some, [], ◌∷◌,
}
use fd_open_data_mcp.Refresh.Runs.{
  is_open, PolicyRun, Runs, CancelResult, not_found, already_finished, closed, Delete, tear_down,
  cancel_open, cancel_found, cancel_run,
}

pub tear_down-rows :
    (st : Runs) (launcher : Option Delete) (job : Option Text)
    → (tear_down st launcher job).0.rows ≡ st.rows
unfolding tear_down
tear_down-rows st none job = refl
tear_down-rows st (some delete) none = refl
tear_down-rows st (some delete) (some []) = refl
tear_down-rows st (some delete) (some (c ∷ job)) = refl

-- What a cancel that finds this row makes of it.
abbrev pub after_cancel : ℕ → Option Text → PolicyRun → PolicyRun
after_cancel now actor run = if is_open run.status then closed now actor run else run

found-rows :
    (st : Runs) (id j : ℕ) (o : Option PolicyRun) (actor : Option Text) (launcher : Option Delete)
    (now : ℕ)
    → get st.rows id ≡ o
    → get (cancel_found st id o actor launcher now).0.rows j
      ≡ (if id == j then map_option (after_cancel now actor) o else get st.rows j)
unfolding cancel_found cancel_open
found-rows st id j none actor launcher now h = elim (Bool-cases (id == j)) [
  | inl e ↦ rw e (ap (get st.rows) (sym ((nat_beq_iff id j).0 e)) ∙ h)
  | inr e ↦ rw e refl
]
found-rows st id j (some run) actor launcher now h = elim (Bool-cases (is_open run.status)) [
  | inl o ↦
      rw
        (
          o,
          tear_down-rows
              (record st {
                rows = put st.rows id (closed now actor run);
                mirrored = id ∷ st.mirrored;
              })
              launcher run.job_ref,
          get-put,
        )
        refl
  | inr o ↦ rw o (elim (Bool-cases (id == j)) [
    | inl e ↦ rw e (ap (get st.rows) (sym ((nat_beq_iff id j).0 e)) ∙ h)
    | inr e ↦ rw e refl
  ])
]

-- A cancel closes the run with the given id exactly if it is running, and changes no other row.
pub cancel_run_rows :
    (st : Runs) (id j : ℕ) (actor : Option Text) (launcher : Option Delete) (now : ℕ)
    → get (cancel_run st id actor launcher now).0.rows j
      ≡ (if id == j then map_option (after_cancel now actor) (get st.rows id) else get st.rows j)
unfolding cancel_run
cancel_run_rows st id j actor launcher now =
    found-rows st id j (get st.rows id) actor launcher now refl

-- The answer to a cancel of a row that is closed, or of none.
abbrev pub lost : Option PolicyRun → CancelResult
lost none = not_found
lost (some run) = already_finished run.status

cancel_closed :
    (st : Runs) (id : ℕ) (o : Option PolicyRun) (actor : Option Text) (launcher : Option Delete)
    (now : ℕ)
    → elim o [ none ↦ false | some run ↦ is_open run.status ] ≡ false
    → cancel_found st id o actor launcher now ≡ (st, lost o)
unfolding cancel_found
cancel_closed st id none actor launcher now h = refl
cancel_closed st id (some run) actor launcher now h = rw h refl

after_cancel-closed :
    (now : ℕ) (actor : Option Text) (o : Option PolicyRun)
    → elim (map_option (after_cancel now actor) o) [ none ↦ false | some run ↦ is_open run.status ]
      ≡ false
unfolding closed
after_cancel-closed now actor none = refl
after_cancel-closed now actor (some run) = elim (Bool-cases (is_open run.status)) [
  | inl o ↦ rw o refl
  | inr o ↦ rw o o
]

pub cancel_run_lem :
    (st : Runs) (id : ℕ) (actor : Option Text) (launcher : Option Delete) (now : ℕ)
    → cancel_run st id actor launcher now ≡ cancel_found st id (get st.rows id) actor launcher now
unfolding cancel_run
cancel_run_lem st id actor launcher now = refl

-- After a cancel, a second one of the same run has no effect at all, whoever asks and with
-- whatever launcher: it answers that there is no such run, or the status with which it is closed.
pub cancel_once :
    (st : Runs) (id : ℕ) (actor actor' : Option Text) (launcher launcher' : Option Delete)
    (now now' : ℕ)
    → let after = (cancel_run st id actor launcher now).0 in
      cancel_run after id actor' launcher' now'
      ≡ (after, lost (map_option (after_cancel now actor) (get st.rows id)))
cancel_once st id actor actor' launcher launcher' now now' =
    let after = (cancel_run st id actor launcher now).0 in
    let row : get after.rows id ≡ map_option (after_cancel now actor) (get st.rows id) =
      rw (cancel_run_rows st id id actor launcher now, beq_refl id) refl in
    cancel_run_lem after id actor' launcher' now'
    ∙ ap (λ o. cancel_found after id o actor' launcher' now') row
    ∙ cancel_closed after id (map_option (after_cancel now actor) (get st.rows id)) actor' launcher'
        now' (after_cancel-closed now actor (get st.rows id))
