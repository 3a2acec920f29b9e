-- ===== src/Approvals/Context.antt =====
-- The checks that each call of backend/approvals.py starts with: `_authorized_context`.
use e_commerec_operations.Accounts.{
  Store, User, enabled_store, get_user, has_department_access, in_scope,
}
use e_commerec_operations.Approvals.Tables.{
  ApprovalDb, ApprovalError, Product, ProductProposal, ProposalRevision, WorkflowRun, is_key_of,
  is_optimization, proposal_action_forbidden, proposal_not_found,
}
use e_commerec_operations.Base.{
  Bool, Option, Result, err, false, find?, if◌then◌else◌, none, not, ok, some, true, ℕ, ◌&&◌, ◌==◌,
  ◌>>=◌, ◌>>◌,
}
use e_commerec_operations.Common.{UserDepartment, is_active}

pub record Context : Type 0 where
  pub actor : User
  pub store : Store
  pub proposal : ProductProposal
  pub run : WorkflowRun
  pub product : Product
  pub revision : ProposalRevision

abbrev pub run_key : WorkflowRun → ℕ
run_key r = r.id

abbrev pub proposal_key : ProductProposal → ℕ
proposal_key p = p.id

abbrev pub product_key : Product → ℕ
product_key p = p.id

abbrev pub found_or {ℓ} : {A : Type ℓ} → ApprovalError → Option A → Result ApprovalError A
found_or e none = err e
found_or e (some a) = ok a

-- `if test: raise`
abbrev pub refuse_if : Bool → ApprovalError → Result ApprovalError (Unit {0})
refuse_if true e = err e
refuse_if false e = ok tt

unfoldable pub active_actor : Option User → Result ApprovalError User
active_actor none = err proposal_not_found
active_actor (some u) =
    if not (is_active u.status)
    then err proposal_not_found
    else if not (has_department_access (some u) UserDepartment.operations)
    then err proposal_action_forbidden
    else ok u

unfoldable pub is_revision_of : ℕ → ℕ → ProposalRevision → Bool
is_revision_of proposal revision r = r.id == revision && r.proposal_id == proposal

-- the last condition of `_authorized_context`
abbrev pub is_run_of : ProductProposal → Store → WorkflowRun → Bool
is_run_of p s run =
    is_optimization run.workflow_type
    && run.store_id == s.id
    && is_key_of p.id run.input_proposal_id
    && is_key_of p.product_id run.input_product_id
    && is_key_of s.id run.input_store_id

unfoldable pub load : User → Store → ProductProposal → ℕ → ApprovalDb → Result ApprovalError Context
unfolding is_revision_of
load u s p revision_id db =
    found_or proposal_not_found (find? (λ r. run_key r == p.optimization_run_id) db.runs) >>= λ run.
    found_or proposal_not_found (find? (λ x. product_key x == p.product_id) db.products)
    >>= λ product.
        found_or proposal_not_found (find? (is_revision_of p.id revision_id) db.revisions)
        >>= λ revision.
            refuse_if (not (is_run_of p s run && product.store_id == s.id)) proposal_not_found
            >> ok (record {
              actor = u;
              store = s;
              proposal = p;
              run = run;
              product = product;
              revision = revision;
            })

unfoldable pub authorized_context : ℕ → ℕ → ℕ → ApprovalDb → Result ApprovalError Context
unfolding active_actor load
authorized_context actor_id n revision_id db =
    let dir = db.queue.directory in
    active_actor (get_user actor_id dir) >>= λ u.
    found_or proposal_not_found (find? (λ p. proposal_key p == n) db.proposals) >>= λ p.
    found_or proposal_not_found (enabled_store p.store_id dir) >>= λ s.
    refuse_if (not (in_scope u.id p.store_id dir)) proposal_not_found >> load u s p revision_id db
