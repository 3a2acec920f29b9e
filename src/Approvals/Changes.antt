-- ===== src/Approvals/Changes.antt =====
-- What a call of backend/approvals.py does to the tables, whatever it answers.
use e_commerec_operations.Approvals.Actions.{Library, concluded, deny_role, hashed_key, is_keyed}
use e_commerec_operations.Approvals.Approved.{Approved, approve-cases}
use e_commerec_operations.Approvals.Context.{Context, authorized_context}
use e_commerec_operations.Approvals.Publish.{
  Approval, Published, approve_as, approve_proposal, is_publication_for, replay_or_publish,
}
use e_commerec_operations.Approvals.Tables.{
  ApprovalActionType, ApprovalDb, ApprovalError, is_approver,
}
use e_commerec_operations.Base.{
  Bool-cases, Result, Result-cases, arith, err, find?, inl, inr, ok, refl, subst, sym, ◌≡◌, ◌⊎◌,
}

-- The tables that only an approval changes stay.
pub record Kept (db db' : ApprovalDb) : Type 0 where
  pub queue : db'.queue ≡ db.queue
  pub products : db'.products ≡ db.products
  pub publications : db'.publications ≡ db.publications

pub record Untouched (db db' : ApprovalDb) : Type 0 where
  pub kept : Kept db db'
  pub actions : db'.actions ≡ db.actions

pub Untouched-refl : (db : ApprovalDb) → Untouched db db
Untouched-refl db = record {
  kept = record { queue = refl; products = refl; publications = refl };
  actions = refl;
}

pub Untouched-deny : (c : Context) (db : ApprovalDb) → Untouched db (deny_role c db)
Untouched-deny c db = record {
  kept = record { queue = refl; products = refl; publications = refl };
  actions = refl;
}

concluded-Untouched :
    {A : Type 0} (db : ApprovalDb) (r : Result ApprovalError (A × ApprovalDb)) (x : ApprovalError)
    → (concluded db r).0 ≡ err x
    → Untouched db (concluded db r).1
concluded-Untouched db (err y) x e = Untouched-refl db
concluded-Untouched db (ok a) x e = absurd (ground arith)

module _ (lib : Library) where
  approve-refused :
      (call : Approval) (db : ApprovalDb) (x : ApprovalError)
      → (approve_proposal lib call db).0 ≡ err x
      → Untouched db (approve_proposal lib call db).1
  unfolding approve_proposal approve_as
  approve-refused call db x e = elim (Result-cases (hashed_key lib call.call.idempotency_key)) [
    | inl (y, refused) ↦ rw (refused, approve_proposal) (Untouched-refl db)
    | inr (key_hash, hashed) ↦
        elim (Result-cases (
          authorized_context call.call.actor_id call.call.proposal_id call.call.request.revision_id
            db)) [
              | inl (y, refused) ↦ rw (hashed, approve_proposal, refused) (Untouched-refl db)
              | inr (c, loaded) ↦ elim (Bool-cases (is_approver c.actor.role)) [
                | inr f ↦ rw (hashed, approve_proposal, loaded, f, approve_as) (Untouched-deny c db)
                | inl t ↦
                    let stored =
                      find? (is_keyed c.proposal.id c.actor.id ApprovalActionType.approve key_hash)
                        db.actions in
                    let known = find? (is_publication_for c.proposal.id) db.publications in
                    let e' = rw (hashed, approve_proposal, loaded, t, approve_as) at e in
                    rw (hashed, approve_proposal, loaded, t, approve_as)
                      (concluded-Untouched db
                        (replay_or_publish lib call c key_hash db stored known) x e')
              ]
            ]
  ]

  pub approve-Change :
      (call : Approval) (db : ApprovalDb)
      → Untouched db (approve_proposal lib call db).1
        ⊎ ((result : Published) × Approved lib call db result (approve_proposal lib call db).1)
  approve-Change call db = elim (Result-cases (approve_proposal lib call db).0) [
    | inl (x, e) ↦ inl (approve-refused call db x e)
    | inr (result, e) ↦
        let db' = (approve_proposal lib call db).1 in
        let is : approve_proposal lib call db ≡ (ok result, db') = λ i. (e i, db') in
        elim (approve-cases lib call db result db' is) [
          | inl (old, same) ↦ inl (subst (Untouched db) (sym same) (Untouched-refl db))
          | inr done ↦ inr (result, done)
        ]
  ]
