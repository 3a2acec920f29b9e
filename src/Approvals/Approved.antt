-- ===== src/Approvals/Approved.antt =====
-- An approval that publishes: what has been checked, and what is written.
use e_commerec_operations.Approvals.Actions.{
  Library, concluded, has_terminal, hashed_key, in_state, is_current, is_keyed, new_action,
  request_hash_of,
}
use e_commerec_operations.Approvals.Authorized.{Authorized, authorized_context-Authorized}
use e_commerec_operations.Approvals.Chain.{valid_publish_chain}
use e_commerec_operations.Approvals.Context.{Context, authorized_context, refuse_if}
use e_commerec_operations.Approvals.Output.{OptimizationOutput}
use e_commerec_operations.Approvals.Publish.{
  Approval, Published, approve_as, approve_proposal, facts_valid, first_publish, is_action,
  is_publication_for, is_sku_of, new_publication, publish, replay_or_publish, replayed,
  replayed_delivery,
}
use e_commerec_operations.Approvals.Review.{current_review}
use e_commerec_operations.Approvals.Tables.{
  ApprovalAction, ApprovalActionType, ApprovalDb, ApprovalError, Publication, is_approver,
  publish_replay_conflict, same_status,
}
use e_commerec_operations.Approvals.Trail.{is_submitted}
use e_commerec_operations.Base.{
  Bool, Bool-cases, Option, Option-cases, Result, Result-cases, String, ap, arith, err, false,
  find?, holds, inl, inr, is_none, none, not, ok, ok-injective, refl, select_where, some, sym, true,
  ◌==◌, ◌>>◌, ◌||◌, ◌≡◌, ◌⊎◌,
}
use e_commerec_operations.Common.{WorkflowStatus}
use e_commerec_operations.Delivery.Tables.{PlatformDelivery}

-- A guard that has let the rest run.
pub refuse_if-ok :
    {A : Type 0} (b : Bool) (x : ApprovalError) (rest : Result ApprovalError A) (r : A)
    → (refuse_if b x >> rest) ≡ ok r
    → (b ≡ false) × (rest ≡ ok r)
refuse_if-ok true x rest r e = absurd (ground arith)
refuse_if-ok false x rest r e = (refl, e)

module _ (lib : Library) (call : Approval) where
  abbrev pub approval_action : Context → String → ApprovalAction
  approval_action c key_hash =
      new_action call.call c ApprovalActionType.approve none key_hash
        (request_hash_of lib ApprovalActionType.approve call.call c)

  -- what `_first_publish` has checked, and what it writes
  pub record Checked (c : Context) (key_hash : String) (db : ApprovalDb) (o : OptimizationOutput)
      (result : Published) (db' : ApprovalDb) : Type 0 where
    pub first : has_terminal c db ≡ false
    pub pending : same_status c.run.status WorkflowStatus.pending_approval ≡ true
    pub submitted : is_submitted c ≡ true
    pub current : is_current c ≡ true
    pub version : c.product.current_version ≡ c.proposal.base_product_version
    pub same_version : c.revision.base_product_version ≡ c.proposal.base_product_version
    pub reviewed : current_review lib.parse_citations c false db ≡ ok tt
    pub output : lib.parse_output c.revision.proposal_output ≡ some o
    pub facts : facts_valid c.product (select_where (is_sku_of c.product.id) db.skus) o ≡ true
    pub action : result.0 ≡ approval_action c key_hash
    pub publication : result.1 ≡ new_publication lib call c (approval_action c key_hash) o
    pub written :
        db'
        ≡ publish call c
            (approval_action c key_hash)
            (new_publication lib call c (approval_action c key_hash) o)
            db

  pub first_publish-Checked :
      (c : Context) (key_hash : String) (db : ApprovalDb) (result : Published) (db' : ApprovalDb)
      → first_publish lib call c key_hash db ≡ ok (result, db')
      → (o : OptimizationOutput) × Checked c key_hash db o result db'
  unfolding first_publish in_state
  first_publish-Checked c key_hash db result db' e =
      elim (Option-cases (lib.parse_output c.revision.proposal_output)) [
        | inl unreadable ↦ absurd (ground arith)
        | inr (o, readable) ↦ elim (Result-cases (current_review lib.parse_citations c false db)) [
          | inl (x, refused) ↦ absurd (ground arith)
          | inr (u, reviewed) ↦ (
            o,
            record {
              first = ground arith;
              pending = ground arith;
              submitted = ground arith;
              current = ground arith;
              version = ground arith;
              same_version = ground arith;
              reviewed = ground arith;
              output = readable;
              facts = ground arith;
              action = ground arith;
              publication = ground arith;
              written = ground arith;
            },
          )
        ]
      ]

  replayed-old :
      (c : Context) (stored : Option ApprovalAction) (p : Publication) (db : ApprovalDb)
      (result : Published) (db' : ApprovalDb)
      → replayed lib c stored p db ≡ ok (result, db')
      → (result.3 ≡ false) × (db' ≡ db)
  unfolding replayed replayed_delivery
  replayed-old c none p db result db' e = absurd (ground arith)
  replayed-old c (some a) p db result db' e =
      let valid = valid_publish_chain lib.publish_hash lib.parse_output c a p db in
      let delivered =
        (refuse_if-ok (not valid) publish_replay_conflict (replayed_delivery lib c a p db)
          (result, db') e).1 in
      let delivery =
        find? (λ (d : PlatformDelivery). d.publish_record_id == p.row.id) db.queue.deliveries in
      let of_store =
        is_none delivery || holds (λ (d : PlatformDelivery). d.store_id == c.store.id) delivery in
      let answer : Published × ApprovalDb = ((a, p, delivery, false), db) in
      let same =
        ok-injective
          (refuse_if-ok (not of_store) publish_replay_conflict (ok answer) (result, db')
            delivered).1 in
      (
        sym (ap (λ (x : Published × ApprovalDb). x.0.3) same),
        sym (ap (λ (x : Published × ApprovalDb). x.1) same),
      )

  -- A call that goes through either changes nothing, or is the first for the proposal.
  replay_or_publish-cases :
      (c : Context) (key_hash : String) (db : ApprovalDb) (stored : Option ApprovalAction)
      (known : Option Publication) (result : Published) (db' : ApprovalDb)
      → replay_or_publish lib call c key_hash db stored known ≡ ok (result, db')
      → (result.3 ≡ false) × (db' ≡ db)
        ⊎ (known ≡ none) × (first_publish lib call c key_hash db ≡ ok (result, db'))
  unfolding replay_or_publish
  replay_or_publish-cases c key_hash db (some a) none result db' e = absurd (ground arith)
  replay_or_publish-cases c key_hash db (some a) (some p) result db' e =
      inl (replayed-old c (some a) p db result db' (ground arith))
  replay_or_publish-cases c key_hash db none (some p) result db' e =
      inl (replayed-old c (find? (is_action p.approval_action_id) db.actions) p db result db' e)
  replay_or_publish-cases c key_hash db none none result db' e = inr (refl, ground arith)

  pub record Approved (db : ApprovalDb) (result : Published) (db' : ApprovalDb) : Type 0 where
    pub context : Context
    pub key_hash : String
    pub output : OptimizationOutput
    pub authorized :
        Authorized call.call.actor_id call.call.proposal_id call.call.request.revision_id db context
    pub approver : is_approver context.actor.role ≡ true
    pub unpublished : find? (is_publication_for context.proposal.id) db.publications ≡ none
    pub checked : Checked context key_hash db output result db'

  concluded-ok :
      {A : Type 0} (db : ApprovalDb) (r : Result ApprovalError (A × ApprovalDb)) (a : A)
      (db' : ApprovalDb)
      → concluded db r ≡ (ok a, db')
      → r ≡ ok (a, db')
  concluded-ok db (err x) a db' e = absurd (ground arith)
  concluded-ok db (ok (b, db₁)) a db' e = ground arith

  approve_as-cases :
      (c : Context) (key_hash : String) (db : ApprovalDb) (result : Published) (db' : ApprovalDb)
      → approve_as lib call c key_hash db ≡ (ok result, db')
      → (is_approver c.actor.role ≡ true)
        × ((result.3 ≡ false) × (db' ≡ db)
            ⊎ (find? (is_publication_for c.proposal.id) db.publications ≡ none)
              × (first_publish lib call c key_hash db ≡ ok (result, db')))
  unfolding approve_as
  approve_as-cases c key_hash db result db' e = elim (Bool-cases (is_approver c.actor.role)) [
    | inr f ↦ absurd (ground arith)
    | inl t ↦
        let stored =
          find? (is_keyed c.proposal.id c.actor.id ApprovalActionType.approve key_hash)
            db.actions in
        let known = find? (is_publication_for c.proposal.id) db.publications in
        let inner : concluded db (replay_or_publish lib call c key_hash db stored known)
            ≡ (ok result, db') =
          rw (t, approve_as) at e in
        (
          t,
          replay_or_publish-cases c key_hash db stored known result db' (
              concluded-ok db (replay_or_publish lib call c key_hash db stored known) result db'
                inner),
        )
  ]

  -- An approval that returns either is a replay, which changes nothing, or it has published.
  pub approve-cases :
      (db : ApprovalDb) (result : Published) (db' : ApprovalDb)
      → approve_proposal lib call db ≡ (ok result, db')
      → (result.3 ≡ false) × (db' ≡ db) ⊎ Approved db result db'
  unfolding approve_proposal
  approve-cases db result db' e = elim (Result-cases (hashed_key lib call.call.idempotency_key)) [
    | inl (x, refused) ↦ absurd (ground arith)
    | inr (key_hash, hashed) ↦
        elim (Result-cases (
          authorized_context call.call.actor_id call.call.proposal_id call.call.request.revision_id
            db)) [
              | inl (x, refused) ↦ absurd (ground arith)
              | inr (c, loaded) ↦
                  let inner : approve_as lib call c key_hash db ≡ (ok result, db') = ground arith in
                  let (approver, outcome) = approve_as-cases c key_hash db result db' inner in
                  elim outcome [
                    | inl replay ↦ inl replay
                    | inr (fresh, done) ↦
                        let (o, checked) = first_publish-Checked c key_hash db result db' done in
                        inr (record {
                          context = c;
                          key_hash = key_hash;
                          output = o;
                          authorized =
                              authorized_context-Authorized call.call.actor_id call.call.proposal_id
                                call.call.request.revision_id db c loaded;
                          approver = approver;
                          unpublished = fresh;
                          checked = checked;
                        })
                  ]
            ]
  ]
