-- ===== src/Approvals/Written.antt =====
-- A call that submits a proposal, rejects it or asks for changes: what has been checked when it
-- writes, and what it writes.
use e_commerec_operations.Approvals.Actions.{
  Call, Library, Written, act, concluded, first_write, hashed_key, in_state, is_keyed, new_action,
  perform_action, replay_or_write, replayable, request_hash_of, submission_audited, versions_agree,
  write,
}
use e_commerec_operations.Approvals.Authorized.{Authorized, authorized_context-Authorized}
use e_commerec_operations.Approvals.Changes.{Kept, Untouched, Untouched-deny, Untouched-refl}
use e_commerec_operations.Approvals.Context.{Context, authorized_context, refuse_if}
use e_commerec_operations.Approvals.Review.{current_review}
use e_commerec_operations.Approvals.Tables.{
  ApprovalAction, ApprovalActionType, ApprovalDb, ApprovalError, idempotency_replay_conflict,
  is_approver, is_submit, is_terminal, product_version_conflict, proposal_data_inconsistent,
}
use e_commerec_operations.Base.{
  Bool-cases, Option, Result, Result-cases, String, ap, arith, err, false, find?, inl, inr, none,
  not, ok, ok-injective, refl, some, str_eq, subst, sym, true, ◌&&◌, ◌>>◌, ◌||◌, ◌∙◌, ◌∷◌, ◌≡◌, ◌⊎◌,
}

-- A check that has let the rest run.
check-ok :
    {A : Type 0} (m : Result ApprovalError (Unit {0})) (rest : Result ApprovalError A) (r : A)
    → (m >> rest) ≡ ok r
    → (m ≡ ok tt) × (rest ≡ ok r)
check-ok (err x) rest r e = absurd (ground arith)
check-ok (ok u) rest r e = (refl, e)

module _ (lib : Library) (type : ApprovalActionType) (call : Call) where
  abbrev pub written_action : Context → String → ApprovalAction
  written_action c key_hash =
      new_action call c type call.request.comment key_hash (request_hash_of lib type call c)

  pub record Allowed (c : Context) (key_hash : String) (db : ApprovalDb) (result : Written)
      (db' : ApprovalDb) : Type 0 where
    pub state : in_state type c db ≡ ok tt
    pub versions : versions_agree c ≡ true
    pub reviewed : current_review lib.parse_citations c (is_submit type) db ≡ ok tt
    pub submission : submission_audited type c db ≡ true
    pub action : result ≡ (written_action c key_hash, true)
    pub written : db' ≡ write type c (written_action c key_hash) db

  pub first_write-Allowed :
      (c : Context) (key_hash : String) (db : ApprovalDb) (result : Written) (db' : ApprovalDb)
      → first_write lib type call c key_hash db ≡ ok (result, db')
      → Allowed c key_hash db result db'
  unfolding first_write
  first_write-Allowed c key_hash db result db' e =
      let a = written_action c key_hash in
      let answer : Result ApprovalError (Written × ApprovalDb) =
        ok ((a, true), write type c a db) in
      let audited = refuse_if (not (submission_audited type c db)) proposal_data_inconsistent in
      let review = current_review lib.parse_citations c (is_submit type) db in
      let versions = refuse_if (not (versions_agree c)) product_version_conflict in
      let (state, e₁) =
        check-ok (in_state type c db) (versions >> (review >> (audited >> answer))) (result, db')
          e in
      let (agree, e₂) = check-ok versions (review >> (audited >> answer)) (result, db') e₁ in
      let (reviewed, e₃) = check-ok review (audited >> answer) (result, db') e₂ in
      let (submission, e₄) = check-ok audited answer (result, db') e₃ in
      let same = ok-injective e₄ in
      record {
        state = state;
        versions = ground arith;
        reviewed = reviewed;
        submission = ground arith;
        action = sym (ap (λ (x : Written × ApprovalDb). x.0) same);
        written = sym (ap (λ (x : Written × ApprovalDb). x.1) same);
      }

  pub record Performed (db : ApprovalDb) (result : Written) (db' : ApprovalDb) : Type 0 where
    pub context : Context
    pub key_hash : String
    pub hashed : hashed_key lib call.idempotency_key ≡ ok key_hash
    pub authorized : Authorized call.actor_id call.proposal_id call.request.revision_id db context
    pub allowed : (not (is_terminal type) || is_approver context.actor.role) ≡ true
    pub unseen :
        find? (is_keyed context.proposal.id context.actor.id type key_hash) db.actions ≡ none
    pub checked : Allowed context key_hash db result db'

  replay_or_write-cases :
      (c : Context) (key_hash : String) (db : ApprovalDb) (stored : Option ApprovalAction)
      (result : Written) (db' : ApprovalDb)
      → replay_or_write lib type call c key_hash db stored ≡ ok (result, db')
      → (result.1 ≡ false) × (db' ≡ db) ⊎ (stored ≡ none) × Allowed c key_hash db result db'
  unfolding replay_or_write
  replay_or_write-cases c key_hash db none result db' e =
      inr (refl, first_write-Allowed c key_hash db result db' e)
  replay_or_write-cases c key_hash db (some a) result db' e =
      let answer : Result ApprovalError (Written × ApprovalDb) = ok ((a, false), db) in
      let guard = refuse_if (not (replayable lib type call c a db)) proposal_data_inconsistent in
      let hash =
        refuse_if (not (str_eq a.request_hash (request_hash_of lib type call c)))
          idempotency_replay_conflict in
      let (at_hash, e₁) = check-ok hash (guard >> answer) (result, db') e in
      let same = ok-injective (check-ok guard answer (result, db') e₁).1 in
      inl (
        sym (ap (λ (x : Written × ApprovalDb). x.0.1) same),
        sym (ap (λ (x : Written × ApprovalDb). x.1) same),
      )

  concluded-ok :
      {A : Type 0} (db : ApprovalDb) (r : Result ApprovalError (A × ApprovalDb)) (a : A)
      (db' : ApprovalDb)
      → concluded db r ≡ (ok a, db')
      → r ≡ ok (a, db')
  concluded-ok db (err x) a db' e = absurd (ground arith)
  concluded-ok db (ok (b, db₁)) a db' e = ground arith

  -- A call that returns either is a replay, which changes nothing, or it has written its action.
  pub perform-cases :
      (db : ApprovalDb) (result : Written) (db' : ApprovalDb)
      → perform_action lib type call db ≡ (ok result, db')
      → (result.1 ≡ false) × (db' ≡ db) ⊎ Performed db result db'
  unfolding perform_action act
  perform-cases db result db' e = elim (Result-cases (hashed_key lib call.idempotency_key)) [
    | inl (x, refused) ↦ absurd (ground arith)
    | inr (key_hash, hashed) ↦
        elim (Result-cases
          (authorized_context call.actor_id call.proposal_id call.request.revision_id db)) [
            | inl (x, refused) ↦ absurd (ground arith)
            | inr (c, loaded) ↦
                elim (Bool-cases (is_terminal type && not (is_approver c.actor.role))) [
                  | inl t ↦
                      let k = rw (hashed, perform_action, loaded, t, act) at e in
                      absurd (ground arith)
                  | inr f ↦
                      let stored =
                        find? (is_keyed c.proposal.id c.actor.id type key_hash) db.actions in
                      let answer = replay_or_write lib type call c key_hash db stored in
                      let inner : concluded db answer ≡ (ok result, db') =
                        rw (hashed, perform_action, loaded, f, act) at e in
                      elim (replay_or_write-cases c key_hash db stored result db'
                        (concluded-ok db answer result db' inner)) [
                          | inl old ↦ inl old
                          | inr (unseen, allowed) ↦ inr (record {
                            context = c;
                            key_hash = key_hash;
                            hashed = hashed;
                            authorized =
                                authorized_context-Authorized call.actor_id call.proposal_id
                                  call.request.revision_id db c loaded;
                            allowed = ground arith;
                            unseen = unseen;
                            checked = allowed;
                          })
                        ]
                ]
          ]
  ]

  concluded-cases :
      {A : Type 0} (db : ApprovalDb) (r : Result ApprovalError (A × ApprovalDb))
      → ((concluded db r).1 ≡ db)
        ⊎ ((a : A) × (db' : ApprovalDb) × (r ≡ ok (a, db'))
            × ((concluded db r).1 ≡ db')
            × ((concluded db r).0 ≡ ok a))
  concluded-cases db (err x) = inl refl
  concluded-cases db (ok (a, db')) = inr (a, db', refl, refl, refl)

  -- A call either writes no action, or it is the first of its key and passes every check.
  pub perform-Change :
      (db : ApprovalDb)
      → Untouched db (perform_action lib type call db).1
        ⊎ ((result : Written) × Performed db result (perform_action lib type call db).1)
  unfolding perform_action act
  perform-Change db = elim (Result-cases (hashed_key lib call.idempotency_key)) [
    | inl (y, refused) ↦ inl (rw (refused, perform_action) (Untouched-refl db))
    | inr (key_hash, hashed) ↦
        elim (Result-cases
          (authorized_context call.actor_id call.proposal_id call.request.revision_id db)) [
            | inl (y, refused) ↦ inl (rw (hashed, perform_action, refused) (Untouched-refl db))
            | inr (c, loaded) ↦
                elim (Bool-cases (is_terminal type && not (is_approver c.actor.role))) [
                  | inl t ↦ inl (rw (hashed, perform_action, loaded, t, act) (Untouched-deny c db))
                  | inr f ↦
                      let stored =
                        find? (is_keyed c.proposal.id c.actor.id type key_hash) db.actions in
                      let answer = replay_or_write lib type call c key_hash db stored in
                      rw (hashed, perform_action, loaded, f, act)
                        (elim (concluded-cases db answer) [
                          | inl same ↦ inl (subst (Untouched db) (sym same) (Untouched-refl db))
                          | inr (result, db', is, same, at_result) ↦
                              elim (replay_or_write-cases c key_hash db stored result db' is) [
                                | inl (old, back) ↦
                                    inl
                                      (subst (Untouched db) (sym (same ∙ back)) (Untouched-refl db))
                                | inr (unseen, allowed) ↦ inr (
                                  result,
                                  record {
                                    context = c;
                                    key_hash = key_hash;
                                    hashed = hashed;
                                    authorized =
                                        authorized_context-Authorized call.actor_id call.proposal_id
                                          call.request.revision_id db c loaded;
                                    allowed = ground arith;
                                    unseen = unseen;
                                    checked =
                                        subst (Allowed c key_hash db result) (sym same) allowed;
                                  },
                                )
                              ]
                        ])
                ]
          ]
  ]

  pub Performed-Kept :
      (db : ApprovalDb) (result : Written) (db' : ApprovalDb)
      → Performed db result db'
      → Kept db db'
  unfolding write
  Performed-Kept db result db' m = record {
    queue = ap (λ (x : ApprovalDb). x.queue) m.checked.written;
    products = ap (λ (x : ApprovalDb). x.products) m.checked.written;
    publications = ap (λ (x : ApprovalDb). x.publications) m.checked.written;
  }

  pub Performed-actions :
      (db : ApprovalDb) (result : Written) (db' : ApprovalDb) (m : Performed db result db')
      → db'.actions ≡ written_action m.context m.key_hash ∷ db.actions
  unfolding write
  Performed-actions db result db' m = ap (λ (x : ApprovalDb). x.actions) m.checked.written
