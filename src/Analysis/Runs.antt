-- ===== src/Analysis/Runs.antt =====
-- The runs of the analysis queue: what each transaction does to the rows, and what holds in every run.
use e_commerec_operations.Analysis.Advances.{
  Advance, Advance-refl, Advance-trans, at_step-Advance, claimed-Advance, finished-Advance,
  is_open_run, selected-Advance, stopped-Advance,
}
use e_commerec_operations.Analysis.Queue.{
  at_step, call_of, candidate_of, claim_next_analysis_run, claimed_run, fail_analysis_run,
  failure_codes, finished_run, is_ready, is_worn, next_run, persist_analysis_completion, stop_worn,
  take_run, upsert_call, upsert_candidate, upsert_each,
}
use e_commerec_operations.Analysis.Selection.{is_selectable, selected_run}
use e_commerec_operations.Analysis.Steps.{OtherChange}
use e_commerec_operations.Analysis.Tables.{
  AgentCall, AnalysisCandidate, AnalysisDb, AnalysisRun, analysis_actor, analysis_id,
  commit_owned_run, is_owned_run, is_running, owned_run, stopped, store_run, with_authorized_run,
}
use e_commerec_operations.Base.{
  ==_iff, All, All-find?, All-head?, All-map, All-of, All-order_by, All-select_where, Bool,
  Bool-cases, Determines, IsKeyed, IsKeyed-Determines, List, Option-cases, Result-cases, Rows,
  Rows-IsKeyed, Rows-map, Rows-refl, Rows-trans, Rows-update_where, SameKey, String, arith,
  contains, exists_where, find?, if◌then◌else◌, inl, inr, length, map, order_by, select_where, some,
  subst, sym, true, update_where, ℕ, ◌<◌, ◌==◌, ◌≡◌,
}
use e_commerec_operations.Common.{WorkflowQuality}

abbrev pub Advanced : AnalysisDb → AnalysisDb → Type 0
Advanced db db' = Rows Advance db.runs db'.runs

pub Advanced-refl : (db : AnalysisDb) → Advanced db db
Advanced-refl db = Rows-refl Advance Advance-refl db.runs

-- The row found is rewritten by its key.
pub stored-Rows :
    (r : AnalysisRun) (change : AnalysisRun → AnalysisRun) (rows : List AnalysisRun)
    → All (Determines analysis_id r) rows
    → Advance r (change r)
    → Rows Advance rows (update_where (λ x. analysis_id x == r.id) change rows)
stored-Rows r change rows det move =
    Rows-update_where Advance (λ x. analysis_id x == r.id) change Advance-refl rows
      (All-map (Determines analysis_id r)
        (λ x. (analysis_id x == r.id) ≡ true → Advance x (change x))
        (λ x k e. subst (λ y. Advance y (change y)) (sym (k ((==_iff x.id r.id).0 e))) move) rows
        det)

owned-open :
    (now i : ℕ) (owner : String) (r : AnalysisRun)
    → is_owned_run now i owner r ≡ true
    → (is_open_run r ≡ true) × (is_running r.status ≡ true)
owned-open now i owner r e = (ground arith, ground arith)

pub commit-Advanced :
    (now i : ℕ) (owner : String) (change : AnalysisRun → AnalysisRun) (db : AnalysisDb)
    → ((r : AnalysisRun) → is_open_run r ≡ true → is_running r.status ≡ true → Advance r (change r))
    → Advanced db (commit_owned_run now i owner change db).1
unfolding commit_owned_run
commit-Advanced now i owner change db move =
    elim (Bool-cases (exists_where (is_owned_run now i owner) db.runs)) [
      | inl t ↦ rw t (
          Rows-update_where Advance (is_owned_run now i owner) change Advance-refl db.runs (
            All-of (λ r. is_owned_run now i owner r ≡ true → Advance r (change r))
              (λ r e. let (o, q) = owned-open now i owner r e in move r o q) db.runs))
      | inr f ↦ rw f (Advanced-refl db)
    ]

owned-found :
    (now i : ℕ) (owner : String) (db : AnalysisDb) (r : AnalysisRun)
    → IsKeyed analysis_id db.runs
    → owned_run now i owner db ≡ some r
    → All (Determines analysis_id r) db.runs × (is_owned_run now i owner r ≡ true)
unfolding owned_run
owned-found now i owner db r keyed e =
    All-find? (λ x. All (Determines analysis_id x) db.runs) (is_owned_run now i owner) db.runs e
      (IsKeyed-Determines analysis_id db.runs keyed)

pub authorized-Advanced :
    (now i : ℕ) (owner : String) (go_on : AnalysisRun → Bool × AnalysisDb) (db : AnalysisDb)
    → IsKeyed analysis_id db.runs
    → ((r : AnalysisRun)
        → All (Determines analysis_id r) db.runs
        → is_owned_run now i owner r ≡ true
        → Advanced db (go_on r).1)
    → Advanced db (with_authorized_run now i owner go_on db).1
unfolding with_authorized_run store_run
authorized-Advanced now i owner go_on db keyed does =
    elim (Option-cases (owned_run now i owner db)) [
      | inl missing ↦ rw (missing, with_authorized_run) (Advanced-refl db)
      | inr (r, e) ↦
          let (det, owned) = owned-found now i owner db r keyed e in
          elim (Result-cases (analysis_actor r.created_by r.store_id db.directory)) [
            | inr (u, granted) ↦ rw (e, granted, with_authorized_run) (does r det owned)
            | inl (x, refused) ↦
                rw (e, refused, with_authorized_run)
                  (stored-Rows r (stopped "ANALYSIS_AUTHORIZATION_CHANGED") db.runs det (
                    stopped-Advance "ANALYSIS_AUTHORIZATION_CHANGED" r
                      (owned-open now i owner r owned).0))
          ]
    ]

next-found :
    (now : ℕ) (locked : ℕ → Bool) (db : AnalysisDb) {r : AnalysisRun}
    → IsKeyed analysis_id db.runs
    → next_run now locked db ≡ some r
    → All (Determines analysis_id r) db.runs × (is_ready now locked r ≡ true)
unfolding next_run
next-found now locked db {r} keyed e =
    let P : AnalysisRun → Type 0 =
      λ x. All (Determines analysis_id x) db.runs × (is_ready now locked x ≡ true) in
    let key : AnalysisRun → ℕ × ℕ = λ x. (x.created_at, x.id) in
    let chosen =
      All-select_where (λ x. All (Determines analysis_id x) db.runs) (is_ready now locked) db.runs
        (IsKeyed-Determines analysis_id db.runs keyed) in
    All-head? P (order_by key (select_where (is_ready now locked) db.runs)) e
      (All-order_by P key (select_where (is_ready now locked) db.runs) chosen)

ready-open :
    (now : ℕ) (locked : ℕ → Bool) (r : AnalysisRun)
    → is_ready now locked r ≡ true
    → (is_open_run r ≡ true) × (r.attempt_count < 3)
ready-open now locked r e = (ground arith, ground arith)

stop-Advanced : (now : ℕ) (db : AnalysisDb) → Advanced db (stop_worn now db)
unfolding stop_worn
stop-Advanced now db =
    Rows-update_where Advance (is_worn now) (stopped "LEASE_ATTEMPTS_EXHAUSTED") Advance-refl
      db.runs
      (All-of (λ r. is_worn now r ≡ true → Advance r (stopped "LEASE_ATTEMPTS_EXHAUSTED" r))
        (λ r e. stopped-Advance "LEASE_ATTEMPTS_EXHAUSTED" r (ground arith)) db.runs)

take-Advanced :
    (now : ℕ) (locked : ℕ → Bool) (owner : String) (seconds : ℕ) (db : AnalysisDb)
    → IsKeyed analysis_id db.runs
    → Advanced db (take_run now owner seconds db (next_run now locked db)).1
unfolding take_run store_run
take-Advanced now locked owner seconds db keyed = elim (Option-cases (next_run now locked db)) [
  | inl none_left ↦ rw (none_left, take_run) (Advanced-refl db)
  | inr (r, e) ↦
      let (det, ready) = next-found now locked db keyed e in
      let (o, few) = ready-open now locked r ready in
      rw (e, take_run)
        (stored-Rows r (claimed_run now owner seconds) db.runs det
          (claimed-Advance now owner seconds r o few))
]

pub Advanced-IsKeyed :
    (db db' : AnalysisDb)
    → Advanced db db'
    → IsKeyed analysis_id db.runs
    → IsKeyed analysis_id db'.runs
Advanced-IsKeyed db db' rows keyed =
    Rows-IsKeyed analysis_id db.runs db'.runs
      (Rows-map Advance (SameKey analysis_id) (λ r s a. a.same_id) db.runs db'.runs rows) keyed

pub claim-Advanced :
    (now : ℕ) (locked : ℕ → Bool) (owner : String) (seconds : ℕ) (db : AnalysisDb)
    → IsKeyed analysis_id db.runs
    → Advanced db (claim_next_analysis_run now locked owner seconds db).1
unfolding claim_next_analysis_run
claim-Advanced now locked owner seconds db keyed =
    let mid = stop_worn now db in
    let db' = (take_run now owner seconds mid (next_run now locked mid)).1 in
    let worn = stop-Advanced now db in
    Rows-trans Advance Advance-trans db.runs mid.runs db'.runs worn
      (take-Advanced now locked owner seconds mid (Advanced-IsKeyed db mid worn keyed))

pub persist-Advanced :
    (now i : ℕ) (owner : String) (candidates : List AnalysisCandidate) (calls : List AgentCall)
    (quality_status : WorkflowQuality) (finalize : Bool) (db : AnalysisDb)
    → IsKeyed analysis_id db.runs
    → Advanced db
        (persist_analysis_completion now i owner candidates calls quality_status finalize db).1
unfolding persist_analysis_completion store_run
persist-Advanced now i owner candidates calls quality_status finalize db keyed =
    let final = finished_run quality_status (length candidates) in
    let written : AnalysisDb = record db {
      candidates = upsert_each upsert_candidate (map (candidate_of i) candidates) db.candidates;
      calls = upsert_each upsert_call (map (call_of i) calls) db.calls;
    } in
    authorized-Advanced now i owner
      (λ r. (true, store_run r.id (if finalize then final else at_step "persist_results") written))
      db keyed
      (λ r det owned.
        let (o, q) = owned-open now i owner r owned in
        elim (Bool-cases finalize) [
          | inl t ↦ rw t (
              stored-Rows r final db.runs det
                (finished-Advance quality_status (length candidates) r o))
          | inr f ↦ rw f (
              stored-Rows r (at_step "persist_results") db.runs det
                (at_step-Advance "persist_results" r o))
        ])

pub fail-Advanced :
    (now i : ℕ) (owner error_code : String) (db : AnalysisDb)
    → Advanced db (fail_analysis_run now i owner error_code db).1
unfolding fail_analysis_run
fail-Advanced now i owner error_code db = elim (Bool-cases (contains error_code failure_codes)) [
  | inl t ↦ rw t (
      commit-Advanced now i owner (stopped error_code) db (λ r o q. stopped-Advance error_code r o))
  | inr f ↦ rw f (Advanced-refl db)
]

-- Rows of other workflows are rewritten.
pub others-Advanced :
    (p : AnalysisRun → Bool) (f : AnalysisRun → AnalysisRun) (db : AnalysisDb)
    → All (λ r. p r ≡ true → OtherChange r (f r)) db.runs
    → Advanced db (record db { runs = update_where p f db.runs })
others-Advanced p f db h = Rows-update_where Advance p f Advance-refl db.runs (
    All-map (λ r. p r ≡ true → OtherChange r (f r)) (λ r. p r ≡ true → Advance r (f r))
      (λ r keep t.
        let c = keep t in
        let no = c.foreign in
        record {
          same_id = c.same_id;
          same_type = c.same_type;
          move = λ k. absurd (ground arith);
          checked = λ k. c.checks;
        })
      db.runs h)

-- The run of a key is completed by the choice of a product.
pub select-Advanced :
    (i : ℕ) (r : AnalysisRun) (db : AnalysisDb)
    → IsKeyed analysis_id db.runs
    → find? (λ x. analysis_id x == i) db.runs ≡ some r
    → is_selectable r.status ≡ true
    → Rows Advance db.runs (update_where (λ x. analysis_id x == r.id) selected_run db.runs)
select-Advanced i r db keyed e q =
    stored-Rows r selected_run db.runs
      (All-find? (λ x. All (Determines analysis_id x) db.runs) (λ x. analysis_id x == i) db.runs e
        (IsKeyed-Determines analysis_id db.runs keyed)).0
      (selected-Advance r q)
