-- ===== src/Analysis/Sound.antt =====
-- What holds in every run of the analysis queue.
use e_commerec_operations.Accounts.{Directory}
use e_commerec_operations.Analysis.Advances.{
  Advance, Advance-refl, Advance-trans, at_step-Advance, finished-Advance, renewed-Advance,
  run_checks,
}
use e_commerec_operations.Analysis.Queue.{
  at_step, create_analysis_run, fail_analysis_run, finalize_analysis_run, finished_run, new_run,
  renew_analysis_lease, renewed_run, update_analysis_step,
}
use e_commerec_operations.Analysis.Runs.{
  Advanced, Advanced-refl, authorized-Advanced, claim-Advanced, commit-Advanced, fail-Advanced,
  others-Advanced, persist-Advanced, select-Advanced,
}
use e_commerec_operations.Analysis.Selection.{optimization_run, select_product, selected_run}
use e_commerec_operations.Analysis.Steps.{
  AnalysisReach, AnalysisReach_induction, AnalysisStep, broke_off, finalized, lease_renewed,
  no_runs, others_added, others_changed, persisted, requested, selected, stepped, taken,
  users_changed,
}
use e_commerec_operations.Analysis.Tables.{
  AnalysisDb, AnalysisRun, analysis_actor, analysis_id, commit_owned_run,
}
use e_commerec_operations.Base.{
  ==_iff, All, All-find?, All-update_where, Bool-cases, IsKeyed, List, Option, Result-cases, Rows,
  Rows-All, Rows-IsKeyed, Rows-find?, Rows-map, SameKey, arith, find?, inl, inr, ok, refl, some,
  subst, sym, true, update_where, ℕ, ◌==◌, ◌∙◌, ◌∷◌, ◌≡◌, ◌≢◌, ◌≤◌, ◌⊎◌,
}

-- The keys are unique, and every row satisfies the CHECK constraints of its table.
abbrev pub IsSoundQueue : AnalysisDb → Type 0
IsSoundQueue db = IsKeyed analysis_id db.runs × All (λ r. run_checks r ≡ true) db.runs

new-checks :
    (now i store_id created_by start_date end_date : ℕ)
    → start_date ≤ end_date
    → run_checks (new_run now i store_id created_by start_date end_date) ≡ true
unfolding run_checks
new-checks now i store_id created_by start_date end_date h = ground arith

optimization-checks :
    (now k actor_id : ℕ) (r : AnalysisRun) → run_checks (optimization_run now k actor_id r) ≡ true
unfolding run_checks
optimization-checks now k actor_id r = refl

create-runs :
    (now i store_id created_by start_date end_date : ℕ) (db db' : AnalysisDb)
    → create_analysis_run now i store_id created_by start_date end_date db ≡ ok db'
    → db'.runs ≡ new_run now i store_id created_by start_date end_date ∷ db.runs
unfolding create_analysis_run
create-runs now i store_id created_by start_date end_date db db' e =
    elim (Result-cases (analysis_actor created_by store_id db.directory)) [
      | inl (x, refused) ↦ absurd (ground arith)
      | inr (u, granted) ↦ ground arith
    ]

-- What a step does to the rows: it moves them, and may add one.
pub record Inserted (db db' : AnalysisDb) : Type 0 where
  pub rows : List AnalysisRun
  pub run : AnalysisRun
  pub moved : Rows Advance db.runs rows
  pub fresh : All (λ x. analysis_id x ≢ run.id) rows
  pub checks : run_checks run ≡ true
  pub runs : db'.runs ≡ run ∷ rows

pub AnalysisStep-Advanced :
    (db db' : AnalysisDb)
    → AnalysisStep db db'
    → IsKeyed analysis_id db.runs
    → Advanced db db' ⊎ Inserted db db'
unfolding renew_analysis_lease update_analysis_step finalize_analysis_run fail_analysis_run
    select_product
AnalysisStep-Advanced db db' (requested now i store_id created_by start_date end_date fresh h e)
      keyed =
    inr (record {
      rows = db.runs;
      run = new_run now i store_id created_by start_date end_date;
      moved = Advanced-refl db;
      fresh = fresh;
      checks = new-checks now i store_id created_by start_date end_date h;
      runs = create-runs now i store_id created_by start_date end_date db db' e;
    })
AnalysisStep-Advanced db db' (taken now locked owner seconds) keyed =
    inl (claim-Advanced now locked owner seconds db keyed)
AnalysisStep-Advanced db db' (lease_renewed now i owner seconds) keyed = inl (
    authorized-Advanced now i owner (λ r. commit_owned_run now i owner (renewed_run now seconds) db)
      db keyed
      (λ r det owned.
        commit-Advanced now i owner (renewed_run now seconds) db
          (λ x o q. renewed-Advance now seconds x o q)))
AnalysisStep-Advanced db db' (stepped now i owner current_step) keyed = inl (
    authorized-Advanced now i owner (λ r. commit_owned_run now i owner (at_step current_step) db) db
      keyed
      (λ r det owned.
        commit-Advanced now i owner (at_step current_step) db
          (λ x o q. at_step-Advance current_step x o)))
AnalysisStep-Advanced db db' (persisted now i owner candidates calls quality_status finalize)
      keyed =
    inl (persist-Advanced now i owner candidates calls quality_status finalize db keyed)
AnalysisStep-Advanced db db' (finalized now i owner candidate_count quality_status) keyed = inl (
    authorized-Advanced now i owner
      (λ r. commit_owned_run now i owner (finished_run quality_status candidate_count) db) db keyed
      (λ r det owned.
        commit-Advanced now i owner (finished_run quality_status candidate_count) db
          (λ x o q. finished-Advance quality_status candidate_count x o)))
AnalysisStep-Advanced db db' (broke_off now i owner error_code) keyed =
    inl (fail-Advanced now i owner error_code db)
AnalysisStep-Advanced db db' (selected now k actor_id i r fresh e t q) keyed = inr (record {
  rows = update_where (λ x. analysis_id x == r.id) selected_run db.runs;
  run = optimization_run now k actor_id r;
  moved = select-Advanced i r db keyed e q;
  fresh =
      All-update_where (λ x. analysis_id x ≢ k) (λ x. analysis_id x == r.id) selected_run db.runs
        (λ x other at. other) fresh;
  checks = optimization-checks now k actor_id r;
  runs = refl;
})
AnalysisStep-Advanced db db' (others_added r fresh other ok_r) keyed = inr (record {
  rows = db.runs;
  run = r;
  moved = Advanced-refl db;
  fresh = fresh;
  checks = ok_r;
  runs = refl;
})
AnalysisStep-Advanced db db' (others_changed p f h) keyed = inl (others-Advanced p f db h)
AnalysisStep-Advanced db db' (users_changed dir) keyed = inl (Advanced-refl db)

moved-IsSound :
    (rows rows' : List AnalysisRun)
    → Rows Advance rows rows'
    → IsKeyed analysis_id rows × All (λ r. run_checks r ≡ true) rows
    → IsKeyed analysis_id rows' × All (λ r. run_checks r ≡ true) rows'
moved-IsSound rows rows' moved (keyed, sound) = (
  Rows-IsKeyed analysis_id rows rows'
      (Rows-map Advance (SameKey analysis_id) (λ r s a. a.same_id) rows rows' moved) keyed,
  Rows-All (λ r. run_checks r ≡ true) rows rows'
      (Rows-map Advance (λ r s. run_checks r ≡ true → run_checks s ≡ true) (λ r s a. a.checked) rows
        rows' moved)
      sound,
)

step-IsSoundQueue : (db db' : AnalysisDb) → AnalysisStep db db' → IsSoundQueue db → IsSoundQueue db'
step-IsSoundQueue db db' st (keyed, sound) = elim (AnalysisStep-Advanced db db' st keyed) [
  | inl rows ↦ moved-IsSound db.runs db'.runs rows (keyed, sound)
  | inr m ↦
      let (k, h) = moved-IsSound db.runs m.rows m.moved (keyed, sound) in
      rw m.runs ((m.fresh, k), (m.checks, h))
]

-- Whatever the transactions and their order, if the database checks the rows that the other workflows
-- write, every row of the table of runs has a key of its own and satisfies the CHECK constraints: at most
-- three attempts, a lease just while it is processed, and for an analysis its dates in order and a status
-- that an analysis may have.
pub AnalysisReach-IsSoundQueue :
    (dir : Directory) (db : AnalysisDb) → AnalysisReach (no_runs dir) db → IsSoundQueue db
AnalysisReach-IsSoundQueue dir db =
    AnalysisReach_induction IsSoundQueue (no_runs dir) (tt, tt) step-IsSoundQueue

abbrev pub analysis_run : ℕ → AnalysisDb → Option AnalysisRun
analysis_run i db = find? (λ r. analysis_id r == i) db.runs

abbrev Follows : AnalysisDb → AnalysisDb → Type 0
Follows start db =
    (i : ℕ) (r : AnalysisRun)
    → analysis_run i start ≡ some r
    → (s : AnalysisRun) × (analysis_run i db ≡ some s) × Advance r s

inserted-run :
    (w : AnalysisRun) (i : ℕ) (runs : List AnalysisRun) (r : AnalysisRun)
    → All (λ x. analysis_id x ≢ w.id) runs
    → find? (λ r. analysis_id r == i) runs ≡ some r
    → find? (λ r. analysis_id r == i) (w ∷ runs) ≡ some r
unfolding find?
inserted-run w i runs r fresh e =
    let (other, at_i) =
      All-find? (λ x. analysis_id x ≢ w.id) (λ x. analysis_id x == i) runs e fresh in
    elim (Bool-cases (analysis_id w == i)) [
      | inl t ↦ absurd (other ((==_iff r.id i).0 at_i ∙ sym ((==_iff w.id i).0 t)))
      | inr f ↦ rw f e
    ]

step-Follows :
    (db db' : AnalysisDb) → AnalysisStep db db' → IsKeyed analysis_id db.runs → Follows db db'
step-Follows db db' st keyed i r e = elim (AnalysisStep-Advanced db db' st keyed) [
  | inl rows ↦ Rows-find? analysis_id Advance (λ x y a. a.same_id) i db.runs db'.runs rows e
  | inr m ↦
      let (x, found, moved) =
        Rows-find? analysis_id Advance (λ x y a. a.same_id) i db.runs m.rows m.moved e in
      (
        x,
        subst (λ l. find? (λ y. analysis_id y == i) l ≡ some x) (sym m.runs)
            (inserted-run m.run i m.rows x m.fresh found),
        moved,
      )
]

-- From a state that is sound, every run keeps each analysis of the table with its store and its creator;
-- its attempts only grow, once it waits for a selection nothing changes but that the choice of a product
-- completes it, and nothing changes once it is completed or has failed. The other rows of the table keep
-- their workflow.
pub AnalysisReach-Advance :
    (start db : AnalysisDb)
    → IsSoundQueue start
    → AnalysisReach start db
    → (i : ℕ) (r : AnalysisRun) → analysis_run i start ≡ some r
    → (s : AnalysisRun) × (analysis_run i db ≡ some s) × Advance r s
AnalysisReach-Advance start db sound reach =
    (AnalysisReach_induction (λ x. IsSoundQueue x × Follows start x) start
      (sound, λ i r e. (r, e, Advance-refl r))
      (λ a b st (h, follows). (
        step-IsSoundQueue a b st h,
        λ i r e.
            let (s, row, before) = follows i r e in
            let (t, found, after) = step-Follows a b st h.0 i s row in
            (t, found, Advance-trans r s t before after),
      ))
      reach).1
