-- ===== src/Analysis/Tests.antt =====
-- A run that is requested, claimed and finished.
use e_commerec_operations.Accounts.{
  Directory, User, enabled_store, get_user, has_department_access, require_department,
  require_store_access,
}
use e_commerec_operations.Analysis.Advances.{Advance}
use e_commerec_operations.Analysis.Queue.{
  claim_next_analysis_run, claimed_run, create_analysis_run, finalize_analysis_run, new_run,
  next_run,
}
use e_commerec_operations.Analysis.Sound.{
  AnalysisReach-Advance, AnalysisReach-IsSoundQueue, IsSoundQueue, analysis_run,
}
use e_commerec_operations.Analysis.Steps.{
  AnalysisReach, at_once, finalized, no_runs, requested, taken, then_step,
}
use e_commerec_operations.Analysis.Tables.{AnalysisDb, AnalysisRun, analysis_actor, owned_run}
use e_commerec_operations.Base.{
  Bool, Option, String, [], arith, exists_where, false, find?, map, none, ok, order_by, refl,
  select_where, some, true, update_where, ℕ, ◌∷◌, ◌≡◌,
}
use e_commerec_operations.Common.{
  UserDepartment, UserRole, UserStatus, WorkflowQuality, WorkflowStatus,
}

abbrev analyst : User
analyst = record {
  id = 1;
  role = UserRole.admin;
  status = UserStatus.active;
  department = UserDepartment.operations;
}

abbrev desk : Directory
desk = record { users = analyst ∷ []; stores = record { id = 5; enabled = true } ∷ []; scopes = [] }

abbrev no_lock : ℕ → Bool
no_lock n = false

abbrev asked : AnalysisDb
asked = record (no_runs desk) { runs = new_run 100 7 5 1 20 30 ∷ [] }

abbrev held : AnalysisDb
held = (claim_next_analysis_run 110 no_lock "w1" 30 asked).1

abbrev done : AnalysisDb
done = (finalize_analysis_run 120 7 "w1" 3 WorkflowQuality.normal held).1

request_ok : create_analysis_run 100 7 5 1 20 30 (no_runs desk) ≡ ok asked
unfolding create_analysis_run analysis_actor get_user find? require_department has_department_access
    require_store_access enabled_store
request_ok = refl

abbrev run_state : AnalysisRun → ℕ × WorkflowStatus × ℕ × Option String
run_state r = (r.id, r.status, r.attempt_count, r.lease_owner)

done_run : (map run_state done.runs ≡ (7, WorkflowStatus.awaiting_selection, 1, none) ∷ [])
unfolding finalize_analysis_run owned_run find? claim_next_analysis_run next_run order_by
    select_where update_where analysis_actor get_user require_department has_department_access
    require_store_access enabled_store exists_where
done_run = refl

to_held : AnalysisReach (no_runs desk) held
to_held =
    then_step (then_step at_once (requested 100 7 5 1 20 30 tt (omega arith) request_ok))
      (taken 110 no_lock "w1" 30)

AnalysisReach-IsSoundQueue_example : IsSoundQueue done
AnalysisReach-IsSoundQueue_example =
    AnalysisReach-IsSoundQueue desk done
      (then_step to_held (finalized 120 7 "w1" 3 WorkflowQuality.normal))

held_run : analysis_run 7 held ≡ some (claimed_run 110 "w1" 30 (new_run 100 7 5 1 20 30))
unfolding find? claim_next_analysis_run next_run order_by select_where update_where
held_run = refl

AnalysisReach-Advance_example :
    (s : AnalysisRun) × (analysis_run 7 done ≡ some s)
    × Advance (claimed_run 110 "w1" 30 (new_run 100 7 5 1 20 30)) s
AnalysisReach-Advance_example =
    AnalysisReach-Advance held done (AnalysisReach-IsSoundQueue desk held to_held)
      (then_step at_once (finalized 120 7 "w1" 3 WorkflowQuality.normal)) 7
      (claimed_run 110 "w1" 30 (new_run 100 7 5 1 20 30)) held_run
