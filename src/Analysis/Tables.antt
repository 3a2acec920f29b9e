-- ===== src/Analysis/Tables.antt =====
-- The tables of backend/analysis_runs.py, and the helpers that its transactions share. The columns of a
-- candidate or of an agent call that are only stored are one text.
use e_commerec_operations.Accounts.{
  Directory, HttpException, get_user, http, require_department, require_store_access,
}
use e_commerec_operations.Base.{
  Bool, List, Option, Result, String, err, exists_where, false, find?, holds, if◌then◌else◌, ltb,
  none, ok, some, str_eq, true, update_where, ℕ, ◌&&◌, ◌==◌, ◌>>=◌, ◌>>◌,
}
use e_commerec_operations.Common.{UserDepartment, WorkflowQuality, WorkflowStatus, WorkflowType}

pub data AgentCallType : Type 0 where
  primary schema_repair : AgentCallType

abbrev pub same_call_type : AgentCallType → AgentCallType → Bool
same_call_type primary primary = true
same_call_type schema_repair schema_repair = true
same_call_type _ _ = false

-- `workflow_runs`
pub record AnalysisRun : Type 0 where
  pub id : ℕ
  pub workflow_type : WorkflowType
  pub store_id : ℕ
  pub created_by : ℕ
  pub start_date : Option ℕ
  pub end_date : Option ℕ
  pub status : WorkflowStatus
  pub quality_status : WorkflowQuality
  pub attempt_count : ℕ
  pub lease_owner : Option String
  pub lease_expires_at : Option ℕ
  pub current_step : Option String
  pub candidate_count : Option ℕ
  pub error_code : Option String
  pub created_at : ℕ

pub record AnalysisCandidate : Type 0 where
  pub id : ℕ
  pub workflow_run_id : ℕ
  pub product_id : ℕ
  pub content : String

pub record AgentCall : Type 0 where
  pub id : ℕ
  pub workflow_run_id : ℕ
  pub node_name : String
  pub call_type : AgentCallType
  pub iteration : ℕ
  pub attempt : ℕ
  pub content : String

pub record AnalysisDb : Type 0 where
  pub directory : Directory
  pub runs : List AnalysisRun
  pub candidates : List AnalysisCandidate
  pub calls : List AgentCall

abbrev pub analysis_id : AnalysisRun → ℕ
analysis_id r = r.id

abbrev pub is_analysis : WorkflowType → Bool
is_analysis WorkflowType.analysis = true
is_analysis _ = false

abbrev pub is_waiting : WorkflowStatus → Bool
is_waiting WorkflowStatus.accepted = true
is_waiting _ = false

abbrev pub is_running : WorkflowStatus → Bool
is_running WorkflowStatus.processing = true
is_running _ = false

-- `_analysis_actor`
unfoldable pub analysis_actor : ℕ → ℕ → Directory → Result HttpException (Unit {0})
analysis_actor actor_id store_id dir = elim (get_user actor_id dir) [
  | none ↦ err (http 403)
  | some u ↦
      require_department (some u) UserDepartment.operations
      >> (require_store_access store_id u dir >>= λ store. ok tt)
]

-- `owned_workflow_lease`, of an analysis
abbrev pub is_owned_run : ℕ → ℕ → String → AnalysisRun → Bool
is_owned_run now i owner r =
    analysis_id r == i
    && is_analysis r.workflow_type
    && is_running r.status
    && holds (λ o. str_eq o owner) r.lease_owner
    && holds (λ t. ltb now t) r.lease_expires_at

unfoldable pub owned_run : ℕ → ℕ → String → AnalysisDb → Option AnalysisRun
owned_run now i owner db = find? (is_owned_run now i owner) db.runs

abbrev pub stopped : String → AnalysisRun → AnalysisRun
stopped error_code r = record r {
  status = WorkflowStatus.failed;
  lease_owner = none;
  lease_expires_at = none;
  current_step = some "failed";
  error_code = some error_code;
}

-- The session writes one run back.
unfoldable pub store_run : ℕ → (AnalysisRun → AnalysisRun) → AnalysisDb → AnalysisDb
store_run i change db = record db { runs = update_where (λ r. analysis_id r == i) change db.runs }

-- `_authorized_analysis_run`, and what a call does when the run is there
unfoldable pub with_authorized_run :
    ℕ → ℕ → String → (AnalysisRun → Bool × AnalysisDb) → AnalysisDb → Bool × AnalysisDb
unfolding store_run
with_authorized_run now i owner go_on db = elim (owned_run now i owner db) [
  | none ↦ (false, db)
  | some r ↦ elim (analysis_actor r.created_by r.store_id db.directory) [
    | err e ↦ (false, store_run r.id (stopped "ANALYSIS_AUTHORIZATION_CHANGED") db)
    | ok u ↦ go_on r
  ]
]

-- `commit_owned_workflow_update`
unfoldable pub commit_owned_run :
    ℕ → ℕ → String → (AnalysisRun → AnalysisRun) → AnalysisDb → Bool × AnalysisDb
commit_owned_run now i owner change db =
    if exists_where (is_owned_run now i owner) db.runs
    then (true, record db { runs = update_where (is_owned_run now i owner) change db.runs })
    else (false, db)
