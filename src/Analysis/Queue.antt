-- ===== src/Analysis/Queue.antt =====
-- The transactions of backend/analysis_runs.py.
use e_commerec_operations.Accounts.{HttpException}
use e_commerec_operations.Analysis.Tables.{
  AgentCall, AnalysisCandidate, AnalysisDb, AnalysisRun, analysis_actor, commit_owned_run,
  is_analysis, is_running, is_waiting, same_call_type, stopped, store_run, with_authorized_run,
}
use e_commerec_operations.Base.{
  Bool, List, Option, Result, String, [], contains, exists_where, false, head?, holds,
  if◌then◌else◌, leb, length, ltb, map, none, not, ok, order_by, select_where, some, str_eq, true,
  update_where, ℕ, ◌&&◌, ◌++◌, ◌+◌, ◌==◌, ◌>>◌, ◌||◌, ◌∷◌,
}
use e_commerec_operations.Common.{WorkflowQuality, WorkflowStatus, WorkflowType}

abbrev pub new_run : ℕ → ℕ → ℕ → ℕ → ℕ → ℕ → AnalysisRun
new_run now i store_id created_by start_date end_date = record {
  id = i;
  workflow_type = WorkflowType.analysis;
  store_id = store_id;
  created_by = created_by;
  start_date = some start_date;
  end_date = some end_date;
  status = WorkflowStatus.accepted;
  quality_status = WorkflowQuality.normal;
  attempt_count = 0;
  lease_owner = none;
  lease_expires_at = none;
  current_step = none;
  candidate_count = none;
  error_code = none;
  created_at = now;
}

unfoldable pub create_analysis_run :
    ℕ → ℕ → ℕ → ℕ → ℕ → ℕ → AnalysisDb → Result HttpException AnalysisDb
create_analysis_run now i store_id created_by start_date end_date db =
    analysis_actor created_by store_id db.directory
    >> ok (record db { runs = new_run now i store_id created_by start_date end_date ∷ db.runs })

abbrev pub is_overdue : ℕ → AnalysisRun → Bool
is_overdue now r = is_running r.status && holds (λ t. ltb t now) r.lease_expires_at

abbrev pub is_worn : ℕ → AnalysisRun → Bool
is_worn now r = is_analysis r.workflow_type && is_overdue now r && leb 3 r.attempt_count

unfoldable pub stop_worn : ℕ → AnalysisDb → AnalysisDb
stop_worn now db = record db {
  runs = update_where (is_worn now) (stopped "LEASE_ATTEMPTS_EXHAUSTED") db.runs;
}

abbrev pub is_ready : ℕ → (ℕ → Bool) → AnalysisRun → Bool
is_ready now locked r =
    is_analysis r.workflow_type
    && (is_waiting r.status || is_overdue now r)
    && ltb r.attempt_count 3
    && not (locked r.id)

unfoldable pub next_run : ℕ → (ℕ → Bool) → AnalysisDb → Option AnalysisRun
next_run now locked db = head? (
    order_by (λ (r : AnalysisRun). (r.created_at, r.id))
      (select_where (is_ready now locked) db.runs))

abbrev pub claimed_run : ℕ → String → ℕ → AnalysisRun → AnalysisRun
claimed_run now owner seconds r = record r {
  status = WorkflowStatus.processing;
  lease_owner = some owner;
  lease_expires_at = some (now + seconds);
  attempt_count = r.attempt_count + 1;
  current_step = some "claimed";
  error_code = none;
}

unfoldable pub take_run : ℕ → String → ℕ → AnalysisDb → Option AnalysisRun → Option ℕ × AnalysisDb
unfolding store_run
take_run now owner seconds db none = (none, db)
take_run now owner seconds db (some r) =
    (some r.id, store_run r.id (claimed_run now owner seconds) db)

unfoldable pub claim_next_analysis_run :
    ℕ → (ℕ → Bool) → String → ℕ → AnalysisDb → Option ℕ × AnalysisDb
unfolding stop_worn take_run
claim_next_analysis_run now locked owner seconds db =
    let mid = stop_worn now db in take_run now owner seconds mid (next_run now locked mid)

abbrev pub renewed_run : ℕ → ℕ → AnalysisRun → AnalysisRun
renewed_run now seconds r = record r { lease_expires_at = some (now + seconds) }

unfoldable pub renew_analysis_lease : ℕ → ℕ → String → ℕ → AnalysisDb → Bool × AnalysisDb
unfolding with_authorized_run commit_owned_run
renew_analysis_lease now i owner seconds db =
    with_authorized_run now i owner (λ r. commit_owned_run now i owner (renewed_run now seconds) db)
      db

abbrev pub at_step : String → AnalysisRun → AnalysisRun
at_step current_step r = record r { current_step = some current_step }

unfoldable pub update_analysis_step : ℕ → ℕ → String → String → AnalysisDb → Bool × AnalysisDb
unfolding with_authorized_run commit_owned_run
update_analysis_step now i owner current_step db =
    with_authorized_run now i owner (λ r. commit_owned_run now i owner (at_step current_step) db) db

-- `INSERT … ON CONFLICT … DO UPDATE`, of all columns but the key
unfoldable pub upsert_candidate :
    AnalysisCandidate → List AnalysisCandidate → List AnalysisCandidate
upsert_candidate new rows =
    let same : AnalysisCandidate → Bool =
      λ c. c.workflow_run_id == new.workflow_run_id && c.product_id == new.product_id in
    if exists_where same rows
    then update_where same (λ c. record c { content = new.content }) rows
    else rows ++ new ∷ []

unfoldable pub upsert_call : AgentCall → List AgentCall → List AgentCall
upsert_call new rows =
    let same : AgentCall → Bool = λ c.
      c.workflow_run_id == new.workflow_run_id
      && str_eq c.node_name new.node_name
      && same_call_type c.call_type new.call_type
      && c.iteration == new.iteration
      && c.attempt == new.attempt in
    if exists_where same rows
    then update_where same (λ c. record c { content = new.content }) rows
    else rows ++ new ∷ []

unfoldable pub upsert_each {ℓ} : {A : Type ℓ} → (A → List A → List A) → List A → List A → List A
upsert_each upsert [] rows = rows
upsert_each upsert (new ∷ news) rows = upsert_each upsert news (upsert new rows)

abbrev pub finished_run : WorkflowQuality → ℕ → AnalysisRun → AnalysisRun
finished_run quality_status candidate_count r = record r {
  status = WorkflowStatus.awaiting_selection;
  quality_status = quality_status;
  lease_owner = none;
  lease_expires_at = none;
  current_step = some "persist_results";
  candidate_count = some candidate_count;
}

abbrev pub candidate_of : ℕ → AnalysisCandidate → AnalysisCandidate
candidate_of i c = record c { workflow_run_id = i }

abbrev pub call_of : ℕ → AgentCall → AgentCall
call_of i c = record c { workflow_run_id = i; iteration = 0 }

-- The ranks of the candidates are distinct, as the table requires.
unfoldable pub persist_analysis_completion :
    ℕ
    → ℕ
    → String
    → List AnalysisCandidate
    → List AgentCall
    → WorkflowQuality
    → Bool
    → AnalysisDb
    → Bool × AnalysisDb
unfolding with_authorized_run upsert_candidate upsert_call upsert_each store_run
persist_analysis_completion now i owner candidates calls quality_status finalize db =
    let written : AnalysisDb = record db {
      candidates = upsert_each upsert_candidate (map (candidate_of i) candidates) db.candidates;
      calls = upsert_each upsert_call (map (call_of i) calls) db.calls;
    } in
    let final = finished_run quality_status (length candidates) in
    with_authorized_run now i owner
      (λ r. (true, store_run r.id (if finalize then final else at_step "persist_results") written))
      db

unfoldable pub finalize_analysis_run :
    ℕ → ℕ → String → ℕ → WorkflowQuality → AnalysisDb → Bool × AnalysisDb
unfolding with_authorized_run commit_owned_run
finalize_analysis_run now i owner candidate_count quality_status db =
    with_authorized_run now i owner
      (λ r. commit_owned_run now i owner (finished_run quality_status candidate_count) db) db

abbrev pub failure_codes : List String
failure_codes = "FACT_COLLECTION_ERROR" ∷ "INPUT_ERROR" ∷ "DATABASE_ERROR" ∷ "CHECKPOINT_ERROR" ∷ []

unfoldable pub fail_analysis_run : ℕ → ℕ → String → String → AnalysisDb → Bool × AnalysisDb
unfolding commit_owned_run
fail_analysis_run now i owner error_code db =
    if contains error_code failure_codes
    then commit_owned_run now i owner (stopped error_code) db
    else (false, db)
