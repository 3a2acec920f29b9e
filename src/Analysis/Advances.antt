-- ===== src/Analysis/Advances.antt =====
-- Every transaction of backend/analysis_runs.py rewrites a row of `workflow_runs` by one of a few moves.
use e_commerec_operations.Analysis.Queue.{at_step, claimed_run, finished_run, renewed_run}
use e_commerec_operations.Analysis.Selection.{is_selectable, selected_run}
use e_commerec_operations.Analysis.Tables.{
  AnalysisRun, is_analysis, is_running, is_waiting, stopped,
}
use e_commerec_operations.Base.{
  Bool, String, ap, arith, false, holds, if◌then◌else◌, inl, inr, is_none, leb, not, refl, true, ℕ,
  ◌&&◌, ◌<◌, ◌||◌, ◌∙◌, ◌≡◌, ◌≤◌, ◌⊎◌,
}
use e_commerec_operations.Common.{WorkflowQuality, WorkflowStatus}

-- `ck_workflow_runs_attempt_count`, `ck_workflow_runs_lease_state`, and `ck_workflow_runs_type_status_dates`
-- of an analysis
abbrev has_status : WorkflowStatus → Bool
has_status WorkflowStatus.accepted = true
has_status WorkflowStatus.processing = true
has_status WorkflowStatus.awaiting_selection = true
has_status WorkflowStatus.completed = true
has_status WorkflowStatus.failed = true
has_status _ = false

abbrev has_dates : AnalysisRun → Bool
has_dates r = holds (λ s. holds (λ e. leb s e) r.end_date) r.start_date

abbrev lease_state : AnalysisRun → Bool
lease_state r =
    if is_running r.status
    then not (is_none r.lease_owner) && not (is_none r.lease_expires_at)
    else is_none r.lease_owner && is_none r.lease_expires_at

unfoldable pub run_checks : AnalysisRun → Bool
run_checks r =
    leb r.attempt_count 3
    && lease_state r
    && (not (is_analysis r.workflow_type) || has_dates r && has_status r.status)

abbrev pub is_over : WorkflowStatus → Bool
is_over WorkflowStatus.accepted = false
is_over WorkflowStatus.processing = false
is_over WorkflowStatus.awaiting_selection = false
is_over _ = true

-- The analysis stays whose it is, its attempts only grow, the choice of a product is all that changes it
-- while it waits for one, and nothing does when it is over.
pub record Move (r s : AnalysisRun) : Type 0 where
  pub same_store : s.store_id ≡ r.store_id
  pub same_creator : s.created_by ≡ r.created_by
  pub attempts : r.attempt_count ≤ s.attempt_count
  pub selecting : is_selectable r.status ≡ true → (s ≡ r) ⊎ (s ≡ selected_run r)
  pub over : is_over r.status ≡ true → s ≡ r

pub Move-refl : (r : AnalysisRun) → Move r r
Move-refl r = record {
  same_store = refl;
  same_creator = refl;
  attempts = omega arith;
  selecting = λ h. inl refl;
  over = λ h. refl;
}

Move-trans : (r s t : AnalysisRun) → Move r s → Move s t → Move r t
Move-trans r s t a b = record {
  same_store = b.same_store ∙ a.same_store;
  same_creator = b.same_creator ∙ a.same_creator;
  attempts = let x = a.attempts in let y = b.attempts in omega arith;
  selecting = λ h. elim (a.selecting h) [
    | inr done ↦ inr (b.over (rw done refl) ∙ done)
    | inl same ↦ elim (b.selecting (rw same h)) [
      | inl still ↦ inl (still ∙ same)
      | inr then_done ↦ inr (then_done ∙ ap selected_run same)
    ]
  ];
  over = λ h. let same = a.over h in b.over (rw same h) ∙ same;
}

pub record Advance (r s : AnalysisRun) : Type 0 where
  pub same_id : s.id ≡ r.id
  pub same_type : s.workflow_type ≡ r.workflow_type
  pub move : is_analysis r.workflow_type ≡ true → Move r s
  pub checked : run_checks r ≡ true → run_checks s ≡ true

pub Advance-refl : (r : AnalysisRun) → Advance r r
Advance-refl r = record {
  same_id = refl;
  same_type = refl;
  move = λ h. Move-refl r;
  checked = λ h. h;
}

pub Advance-trans : (r s t : AnalysisRun) → Advance r s → Advance s t → Advance r t
Advance-trans r s t a b = record {
  same_id = b.same_id ∙ a.same_id;
  same_type = b.same_type ∙ a.same_type;
  move = λ h. Move-trans r s t (a.move h) (b.move (rw a.same_type h));
  checked = λ h. b.checked (a.checked h);
}

-- What the moves have in common: an analysis that waits or runs is rewritten.
abbrev pub is_open_run : AnalysisRun → Bool
is_open_run r = is_analysis r.workflow_type && (is_waiting r.status || is_running r.status)

open-Advance :
    (r s : AnalysisRun)
    → is_open_run r ≡ true
    → s.id ≡ r.id
    → s.workflow_type ≡ r.workflow_type
    → s.store_id ≡ r.store_id
    → s.created_by ≡ r.created_by
    → r.attempt_count ≤ s.attempt_count
    → (run_checks r ≡ true → run_checks s ≡ true)
    → Advance r s
open-Advance r s o i type store creator attempts checked = record {
  same_id = i;
  same_type = type;
  move = λ h. record {
    same_store = store;
    same_creator = creator;
    attempts = attempts;
    selecting = λ k. absurd (ground arith);
    over = λ k. absurd (ground arith);
  };
  checked = checked;
}

stopped-checks :
    (code : String) (r : AnalysisRun) → run_checks r ≡ true → run_checks (stopped code r) ≡ true
unfolding run_checks
stopped-checks code r h = ground arith

pub stopped-Advance :
    (code : String) (r : AnalysisRun) → is_open_run r ≡ true → Advance r (stopped code r)
stopped-Advance code r o =
    open-Advance r (stopped code r) o refl refl refl refl (omega arith) (stopped-checks code r)

renewed-checks :
    (now seconds : ℕ) (r : AnalysisRun)
    → is_running r.status ≡ true
    → run_checks r ≡ true
    → run_checks (renewed_run now seconds r) ≡ true
unfolding run_checks
renewed-checks now seconds r q h = ground arith

pub renewed-Advance :
    (now seconds : ℕ) (r : AnalysisRun)
    → is_open_run r ≡ true
    → is_running r.status ≡ true
    → Advance r (renewed_run now seconds r)
renewed-Advance now seconds r o q =
    open-Advance r (renewed_run now seconds r) o refl refl refl refl (omega arith)
      (renewed-checks now seconds r q)

at_step-checks :
    (step : String) (r : AnalysisRun) → run_checks r ≡ true → run_checks (at_step step r) ≡ true
unfolding run_checks
at_step-checks step r h = h

pub at_step-Advance :
    (step : String) (r : AnalysisRun) → is_open_run r ≡ true → Advance r (at_step step r)
at_step-Advance step r o =
    open-Advance r (at_step step r) o refl refl refl refl (omega arith) (at_step-checks step r)

finished-checks :
    (quality : WorkflowQuality) (n : ℕ) (r : AnalysisRun)
    → run_checks r ≡ true
    → run_checks (finished_run quality n r) ≡ true
unfolding run_checks
finished-checks quality n r h = ground arith

pub finished-Advance :
    (quality : WorkflowQuality) (n : ℕ) (r : AnalysisRun)
    → is_open_run r ≡ true
    → Advance r (finished_run quality n r)
finished-Advance quality n r o =
    open-Advance r (finished_run quality n r) o refl refl refl refl (omega arith)
      (finished-checks quality n r)

claimed-checks :
    (now : ℕ) (owner : String) (seconds : ℕ) (r : AnalysisRun)
    → r.attempt_count < 3
    → run_checks r ≡ true
    → run_checks (claimed_run now owner seconds r) ≡ true
unfolding run_checks
claimed-checks now owner seconds r few h = ground arith

pub claimed-Advance :
    (now : ℕ) (owner : String) (seconds : ℕ) (r : AnalysisRun)
    → is_open_run r ≡ true
    → r.attempt_count < 3
    → Advance r (claimed_run now owner seconds r)
claimed-Advance now owner seconds r o few =
    open-Advance r (claimed_run now owner seconds r) o refl refl refl refl (omega arith)
      (claimed-checks now owner seconds r few)

selected-checks :
    (r : AnalysisRun)
    → is_selectable r.status ≡ true
    → run_checks r ≡ true
    → run_checks (selected_run r) ≡ true
unfolding run_checks
selected-checks r q h = ground arith

pub selected-Advance :
    (r : AnalysisRun) → is_selectable r.status ≡ true → Advance r (selected_run r)
selected-Advance r q = record {
  same_id = refl;
  same_type = refl;
  move = λ h. record {
    same_store = refl;
    same_creator = refl;
    attempts = omega arith;
    selecting = λ k. inr refl;
    over = λ k. absurd (ground arith);
  };
  checked = selected-checks r q;
}
