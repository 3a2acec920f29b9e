-- ===== src/Approvals/Publish.antt =====
-- `approve_proposal` of backend/approvals.py: the approval of a proposal, its publication and the
-- delivery that it leaves to the queue. As in Approvals/Actions.antt, no flush fails on a key.
use e_commerec_operations.Approvals.Actions.{
  Answer, Call, Library, concluded, deny_role, hashed_key, in_state, is_keyed, moved_run,
  new_action, new_event, request_hash_of, versions_agree,
}
use e_commerec_operations.Approvals.Chain.{valid_publish_chain}
use e_commerec_operations.Approvals.Context.{
  Context, authorized_context, found_or, product_key, refuse_if, run_key,
}
use e_commerec_operations.Approvals.Output.{
  AttributeCompletion, Decimal, OptimizationOutput, PriceSuggestion, SkuSuggestion, has_entries,
  listing, product_snapshot, same_dict, value_of, with_listing,
}
use e_commerec_operations.Approvals.Review.{current_review}
use e_commerec_operations.Approvals.Tables.{
  ApprovalAction, ApprovalActionType, ApprovalDb, ApprovalError, Product, ProductSku, Publication,
  idempotency_replay_conflict, is_approver, product_version_conflict, proposal_action_forbidden,
  proposal_data_inconsistent, publish_replay_conflict, published, same_action, same_comment,
  trusted_evidence_invalid,
}
use e_commerec_operations.Approvals.Trail.{action_details}
use e_commerec_operations.Base.{
  Bool, List, Option, Result, String, [], err, exists_where, false, find?, holds, if◌then◌else◌,
  is_none, none, not, ok, select_where, some, str_eq, true, update_where, ℕ, ◌&&◌, ◌*◌, ◌++◌, ◌+◌,
  ◌==◌, ◌>>=◌, ◌>>◌, ◌^◌, ◌||◌, ◌∷◌,
}
use e_commerec_operations.Common.{AuditEventType}
use e_commerec_operations.Delivery.Steps.{enqueue, new_delivery}
use e_commerec_operations.Delivery.Tables.{PlatformDelivery}

-- The keys that `uuid4` makes, and the time of the transaction.
pub record Approval : Type 0 where
  pub call : Call
  pub record_id : ℕ
  pub delivery_id : ℕ
  pub now : ℕ

-- the action, the record, the delivery, and whether they are new
abbrev pub Published : Type 0
Published = ApprovalAction × Publication × Option PlatformDelivery × Bool

abbrev completion_valid : Product → AttributeCompletion → Bool
completion_valid p c = same_comment c.current_value (value_of c.target_attribute p.attributes)

abbrev is_price : Decimal → ℕ → Bool
is_price d cents = (not d.negative || d.digits == 0) && d.digits * 100 == cents * 10 ^ d.places

abbrev is_sku : ℕ → ProductSku → Bool
is_sku i s = s.id == i

abbrev price_valid : List ProductSku → PriceSuggestion → Bool
price_valid skus s =
    holds (λ (k : ProductSku). is_price s.current_price k.price)
      (find? (is_sku s.target_sku_id) skus)

abbrev sku_valid : List ProductSku → SkuSuggestion → Bool
sku_valid skus s =
    holds (λ (k : ProductSku). str_eq s.current_code k.code && same_dict s.current_spec k.spec)
      (find? (is_sku s.target_sku_id) skus)

unfoldable pub every {ℓ} : {A : Type ℓ} → (A → Bool) → List A → Bool
every p [] = true
every p (x ∷ xs) = p x && every p xs

abbrev pub is_sku_of : ℕ → ProductSku → Bool
is_sku_of i s = s.product_id == i

-- `facts_valid` of `_validated_publish_output`
unfoldable pub facts_valid : Product → List ProductSku → OptimizationOutput → Bool
unfolding value_of has_entries every
facts_valid p skus o =
    every (completion_valid p) o.attribute_completions
    && every (price_valid skus) o.price_suggestions
    && every (sku_valid skus) o.sku_suggestions

unfoldable pub new_publication :
    Library → Approval → Context → ApprovalAction → OptimizationOutput → Publication
unfolding listing
new_publication lib call c a o =
    let n = c.proposal.base_product_version + 1 in
    record {
      row = record {
        id = call.record_id;
        product_id = c.product.id;
        store_id = c.store.id;
        approved_by = c.actor.id;
        published_product_version = n;
      };
      proposal_id = c.proposal.id;
      proposal_revision_id = c.revision.id;
      approval_action_id = a.id;
      publish_idempotency_hash = lib.publish_hash c.proposal.id c.revision.id;
      before_snapshot = product_snapshot c.product;
      after_snapshot = listing o c.product.attributes n;
      base_product_version = c.proposal.base_product_version;
    }

-- What `_first_publish` writes. `enqueue` adds the record to the queue, with a delivery and its event.
unfoldable pub publish : Approval → Context → ApprovalAction → Publication → ApprovalDb → ApprovalDb
unfolding enqueue
publish call c a p db = record db {
  queue = enqueue call.now call.delivery_id p.row db.queue;
  products =
      update_where (λ x. product_key x == c.product.id) (with_listing p.after_snapshot) db.products;
  actions = a ∷ db.actions;
  publications = p ∷ db.publications;
  events =
      db.events
      ++ new_event c a AuditEventType.proposal_approved (some p.row.id)
          (action_details ApprovalActionType.approve)
        ∷ new_event c a AuditEventType.simulated_publish_completed (some p.row.id)
            (published p.base_product_version p.row.published_product_version)
        ∷ [];
  runs = update_where (λ r. run_key r == c.run.id) (moved_run ApprovalActionType.approve) db.runs;
}

abbrev pub is_publication_for : ℕ → Publication → Bool
is_publication_for i p = p.proposal_id == i

abbrev is_approval_of : ℕ → ApprovalAction → Bool
is_approval_of i a = a.proposal_id == i && same_action a.action ApprovalActionType.approve

abbrev pub is_action : ℕ → ApprovalAction → Bool
is_action i a = a.id == i

module _ (lib : Library) where
  -- the delivery of the record, if there is one, is of its store
  unfoldable pub replayed_delivery :
      Context
      → ApprovalAction
      → Publication
      → ApprovalDb
      → Result ApprovalError (Published × ApprovalDb)
  replayed_delivery c a p db =
      let delivery =
        find? (λ (d : PlatformDelivery). d.publish_record_id == p.row.id) db.queue.deliveries in
      refuse_if
        (not
          (is_none delivery || holds (λ (d : PlatformDelivery). d.store_id == c.store.id) delivery))
        publish_replay_conflict
      >> ok ((a, p, delivery, false), db)

  -- the end of `_publish_replay`, on an action and a record
  unfoldable pub replayed :
      Context
      → Option ApprovalAction
      → Publication
      → ApprovalDb
      → Result ApprovalError (Published × ApprovalDb)
  unfolding valid_publish_chain replayed_delivery
  replayed c none p db = err publish_replay_conflict
  replayed c (some a) p db =
      refuse_if (not (valid_publish_chain lib.publish_hash lib.parse_output c a p db))
        publish_replay_conflict
      >> replayed_delivery c a p db

  -- `_first_publish`
  unfoldable pub first_publish :
      Approval → Context → String → ApprovalDb → Result ApprovalError (Published × ApprovalDb)
  unfolding in_state current_review facts_valid publish
  first_publish call c key_hash db =
      let a =
        new_action call.call c ApprovalActionType.approve none key_hash
          (request_hash_of lib ApprovalActionType.approve call.call c) in
      let skus = select_where (is_sku_of c.product.id) db.skus in
      in_state ApprovalActionType.approve c db
      >> (refuse_if (not (versions_agree c)) product_version_conflict
          >> (current_review lib.parse_citations c false db
              >> (found_or proposal_data_inconsistent (lib.parse_output c.revision.proposal_output)
                  >>= λ o.
                      let p = new_publication lib call c a o in
                      refuse_if (not (facts_valid c.product skus o)) trusted_evidence_invalid
                      >> ok (
                        (a, p, some (new_delivery call.now call.delivery_id p.row), true),
                        publish call c a p db,
                      ))))

  -- `_publish_replay` on what is stored, or else `_first_publish`
  unfoldable pub replay_or_publish :
      Approval
      → Context
      → String
      → ApprovalDb
      → Option ApprovalAction
      → Option Publication
      → Result ApprovalError (Published × ApprovalDb)
  unfolding replayed first_publish
  replay_or_publish call c key_hash db (some a) none =
      refuse_if
        (not (str_eq a.request_hash (request_hash_of lib ApprovalActionType.approve call.call c)))
        idempotency_replay_conflict
      >> err publish_replay_conflict
  replay_or_publish call c key_hash db (some a) (some p) =
      refuse_if
        (not (str_eq a.request_hash (request_hash_of lib ApprovalActionType.approve call.call c)))
        idempotency_replay_conflict
      >> (refuse_if (not (p.approval_action_id == a.id)) publish_replay_conflict
          >> replayed c (some a) p db)
  replay_or_publish call c key_hash db none (some p) =
      replayed c (find? (is_action p.approval_action_id) db.actions) p db
  replay_or_publish call c key_hash db none none =
      refuse_if (exists_where (is_approval_of c.proposal.id) db.actions) publish_replay_conflict
      >> first_publish call c key_hash db

  unfoldable pub approve_as : Approval → Context → String → ApprovalDb → Answer Published
  unfolding replay_or_publish
  approve_as call c key_hash db =
      let stored =
        find? (is_keyed c.proposal.id c.actor.id ApprovalActionType.approve key_hash) db.actions in
      if not (is_approver c.actor.role)
      then (err proposal_action_forbidden, deny_role c db)
      else concluded db (
          replay_or_publish call c key_hash db stored
            (find? (is_publication_for c.proposal.id) db.publications))

  unfoldable pub approve_proposal : Approval → ApprovalDb → Answer Published
  unfolding hashed_key approve_as
  approve_proposal call db = elim (hashed_key lib call.call.idempotency_key) [
    | err e ↦ (err e, db)
    | ok key_hash ↦
        elim (authorized_context call.call.actor_id call.call.proposal_id
          call.call.request.revision_id db) [
            | err e ↦ (err e, db)
            | ok c ↦ approve_as call c key_hash db
          ]
  ]
