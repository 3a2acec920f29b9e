-- ===== src/Analysis/Steps.antt =====
-- Any transactions of backend/analysis_runs.py in any order, with the selections of a product and the other
-- writers of `workflow_runs` among them. The schema of a request has compared its dates, and `uuid4` makes
-- new keys.
use e_commerec_operations.Accounts.{Directory}
use e_commerec_operations.Analysis.Advances.{run_checks}
use e_commerec_operations.Analysis.Queue.{
  claim_next_analysis_run, create_analysis_run, fail_analysis_run, finalize_analysis_run,
  persist_analysis_completion, renew_analysis_lease, update_analysis_step,
}
use e_commerec_operations.Analysis.Selection.{is_selectable, select_product}
use e_commerec_operations.Analysis.Tables.{
  AgentCall, AnalysisCandidate, AnalysisDb, AnalysisRun, analysis_id, is_analysis,
}
use e_commerec_operations.Base.{
  All, Bool, List, String, [], false, find?, ok, some, true, update_where, ℕ, ◌==◌, ◌∷◌, ◌≡◌, ◌≢◌,
  ◌≤◌,
}
use e_commerec_operations.Common.{WorkflowQuality}

-- A row of another workflow stays one.
pub record OtherChange (r s : AnalysisRun) : Type 0 where
  pub foreign : is_analysis r.workflow_type ≡ false
  pub same_id : s.id ≡ r.id
  pub same_type : s.workflow_type ≡ r.workflow_type
  pub checks : run_checks s ≡ true

pub data AnalysisStep (db : AnalysisDb) : AnalysisDb → Type 0 where
  requested :
      (now i store_id created_by start_date end_date : ℕ) {db' : AnalysisDb}
      → All (λ r. analysis_id r ≢ i) db.runs
      → start_date ≤ end_date
      → create_analysis_run now i store_id created_by start_date end_date db ≡ ok db'
      → AnalysisStep db db'
  taken :
      (now : ℕ) (locked : ℕ → Bool) (owner : String) (seconds : ℕ)
      → AnalysisStep db (claim_next_analysis_run now locked owner seconds db).1
  lease_renewed :
      (now i : ℕ) (owner : String) (seconds : ℕ)
      → AnalysisStep db (renew_analysis_lease now i owner seconds db).1
  stepped :
      (now i : ℕ) (owner current_step : String)
      → AnalysisStep db (update_analysis_step now i owner current_step db).1
  persisted :
      (now i : ℕ) (owner : String) (candidates : List AnalysisCandidate) (calls : List AgentCall)
      (quality_status : WorkflowQuality) (finalize : Bool)
      → AnalysisStep db
          (persist_analysis_completion now i owner candidates calls quality_status finalize db).1
  finalized :
      (now i : ℕ) (owner : String) (candidate_count : ℕ) (quality_status : WorkflowQuality)
      → AnalysisStep db (finalize_analysis_run now i owner candidate_count quality_status db).1
  broke_off :
      (now i : ℕ) (owner error_code : String)
      → AnalysisStep db (fail_analysis_run now i owner error_code db).1
  -- `select_product_for_optimization`, with the checks that it makes of the run
  selected :
      (now k actor_id i : ℕ) (r : AnalysisRun)
      → All (λ x. analysis_id x ≢ k) db.runs
      → find? (λ x. analysis_id x == i) db.runs ≡ some r
      → is_analysis r.workflow_type ≡ true
      → is_selectable r.status ≡ true
      → AnalysisStep db (select_product now k actor_id r db)
  -- the runs of the other workflows in the same table, whose rows the database checks
  others_added :
      (r : AnalysisRun)
      → All (λ x. analysis_id x ≢ r.id) db.runs
      → is_analysis r.workflow_type ≡ false
      → run_checks r ≡ true
      → AnalysisStep db (record db { runs = r ∷ db.runs })
  others_changed :
      (p : AnalysisRun → Bool) (f : AnalysisRun → AnalysisRun)
      → All (λ r. p r ≡ true → OtherChange r (f r)) db.runs
      → AnalysisStep db (record db { runs = update_where p f db.runs })
  -- other parts of the system change the users, stores and scopes
  users_changed : (dir : Directory) → AnalysisStep db (record db { directory = dir })

pub data AnalysisReach (start : AnalysisDb) : AnalysisDb → Type 0 where
  at_once : AnalysisReach start start
  then_step :
      {db db' : AnalysisDb} → AnalysisReach start db → AnalysisStep db db' → AnalysisReach start db'

pub AnalysisReach_induction :
    (P : AnalysisDb → Type 0) (start : AnalysisDb)
    → P start
    → ((db db' : AnalysisDb) → AnalysisStep db db' → P db → P db')
    → {db : AnalysisDb} → AnalysisReach start db
    → P db
AnalysisReach_induction P start h keep at_once = h
AnalysisReach_induction P start h keep (then_step {db} {db'} r st) =
    keep db db' st (AnalysisReach_induction P start h keep r)

abbrev pub no_runs : Directory → AnalysisDb
no_runs dir = record { directory = dir; runs = []; candidates = []; calls = [] }
