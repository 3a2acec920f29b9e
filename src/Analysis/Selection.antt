-- ===== src/Analysis/Selection.antt =====
-- What `select_product_for_optimization` of backend/proposals.py does to `workflow_runs`, when its checks
-- have passed: it starts the run of the optimization and completes the run of the analysis.
use e_commerec_operations.Analysis.Tables.{AnalysisDb, AnalysisRun, analysis_id}
use e_commerec_operations.Base.{Bool, false, none, some, true, update_where, ℕ, ◌==◌, ◌∷◌}
use e_commerec_operations.Common.{WorkflowQuality, WorkflowStatus, WorkflowType}

abbrev pub is_selectable : WorkflowStatus → Bool
is_selectable WorkflowStatus.awaiting_selection = true
is_selectable _ = false

abbrev pub selected_run : AnalysisRun → AnalysisRun
selected_run r = record r {
  status = WorkflowStatus.completed;
  current_step = some "product_selected";
}

abbrev pub optimization_run : ℕ → ℕ → ℕ → AnalysisRun → AnalysisRun
optimization_run now i actor_id r = record {
  id = i;
  workflow_type = WorkflowType.optimization;
  store_id = r.store_id;
  created_by = actor_id;
  start_date = none;
  end_date = none;
  status = WorkflowStatus.accepted;
  quality_status = WorkflowQuality.normal;
  attempt_count = 0;
  lease_owner = none;
  lease_expires_at = none;
  current_step = none;
  candidate_count = none;
  error_code = none;
  created_at = now;
}

unfoldable pub select_product : ℕ → ℕ → ℕ → AnalysisRun → AnalysisDb → AnalysisDb
select_product now i actor_id r db = record db {
  runs =
      optimization_run now i actor_id r
      ∷ update_where (λ x. analysis_id x == r.id) selected_run db.runs;
}
