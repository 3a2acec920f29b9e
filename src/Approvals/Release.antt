-- ===== src/Approvals/Release.antt =====
-- What a published approval has gone through, and what it leaves behind.
use e_commerec_operations.Approvals.Actions.{Library, moved_run}
use e_commerec_operations.Approvals.Approved.{Approved}
use e_commerec_operations.Approvals.Authorized.{Authorized}
use e_commerec_operations.Approvals.Cited.{InForce, cited_chunk, recheck-InForce}
use e_commerec_operations.Approvals.Context.{Context, product_key, run_key}
use e_commerec_operations.Approvals.Publish.{Approval}
use e_commerec_operations.Approvals.Review.{
  RuleCitation, checked_citations, current_review, is_review_of,
}
use e_commerec_operations.Approvals.Tables.{
  ApprovalActionType, ApprovalDb, ComplianceReview, Product, is_approver, is_normal, same_status,
}
use e_commerec_operations.Base.{
  ==_iff, All, Bool, IsKeyed, List, Option, Option-cases, arith, eq_iff, false≢true, find?, inl,
  inr, is_none, none, ok, refl, some, true, ◌+◌, ◌==◌, ◌≡◌,
}
use e_commerec_operations.Common.{WorkflowStatus}
use e_commerec_operations.Delivery.Steps.{enqueue}
use e_commerec_operations.Delivery.Tables.{PublishRecord}

-- The review of the revision has passed, and its citations quote the rules in force.
pub record Reviewed (lib : Library) (c : Context) (db : ApprovalDb) : Type 0 where
  pub review : ComplianceReview
  pub found : find? (is_review_of c.revision.id) db.reviews ≡ some review
  pub passed : review.passed ≡ true
  pub same_proposal : review.proposal_id ≡ c.proposal.id
  pub same_citations : review.citations ≡ c.revision.citations
  pub normal : is_normal review.quality_status ≡ true
  pub no_error : review.error_code ≡ none
  pub citations : List RuleCitation
  pub parsed : lib.parse_citations c.revision.citations ≡ some citations
  pub distinct : IsKeyed cited_chunk citations
  pub in_force : All (InForce c.product db.knowledge) citations

none-is_none : {A : Type 0} (o : Option A) → is_none o ≡ true → o ≡ none
none-is_none none e = refl
none-is_none (some x) e = absurd (false≢true e)

pub current_review-Reviewed :
    (lib : Library) (c : Context) (submitting : Bool) (db : ApprovalDb)
    → current_review lib.parse_citations c submitting db ≡ ok tt
    → Reviewed lib c db
unfolding current_review checked_citations
current_review-Reviewed lib c submitting db e =
    elim (Option-cases (find? (is_review_of c.revision.id) db.reviews)) [
      | inl missing ↦ absurd (ground arith)
      | inr (review, found) ↦ elim (Option-cases (lib.parse_citations c.revision.citations)) [
        | inl unreadable ↦ absurd (ground arith)
        | inr (citations, parsed) ↦
            let (distinct, in_force) =
              recheck-InForce c.product citations db.knowledge (ground arith) in
            record {
              review = review;
              found = found;
              passed = ground arith;
              same_proposal = (==_iff review.proposal_id c.proposal.id).0 (ground arith);
              same_citations = (eq_iff review.citations c.revision.citations).0 (ground arith);
              normal = ground arith;
              no_error = none-is_none review.error_code (ground arith);
              citations = citations;
              parsed = parsed;
              distinct = distinct;
              in_force = in_force;
            }
      ]
    ]

pub record Release (lib : Library) (call : Approval) (db db' : ApprovalDb) : Type 0 where
  pub context : Context
  pub authorized :
      Authorized call.call.actor_id call.call.proposal_id call.call.request.revision_id db context
  pub approver : is_approver context.actor.role ≡ true
  pub reviewed : Reviewed lib context db
  pub asked : context.revision.id ≡ call.call.request.revision_id
  pub submitted : context.proposal.submitted_revision_id ≡ some context.revision.id
  pub current : context.proposal.current_revision_id ≡ some context.revision.id
  pub no_open_review : context.proposal.active_manual_review_run_id ≡ none
  pub base_version : context.product.current_version ≡ context.proposal.base_product_version
  pub pending : same_status context.run.status WorkflowStatus.pending_approval ≡ true
  pub completed_run :
      find? (λ r. run_key r == context.run.id) db'.runs
      ≡ some (moved_run ApprovalActionType.approve context.run)
  pub product : Product
  pub released : find? (λ x. product_key x == context.product.id) db'.products ≡ some product
  pub next_version : product.current_version ≡ context.product.current_version + 1
  pub queued :
      (r : PublishRecord) × (db'.queue ≡ enqueue call.now call.delivery_id r db.queue)
      × (r.product_id ≡ context.product.id)
      × (r.approved_by ≡ context.actor.id)
      × (r.published_product_version ≡ product.current_version)
