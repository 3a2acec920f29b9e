-- ===== src/Approvals/Restored.antt =====
-- The context of a call after an action of it has been written: the same rows, with the proposal and its
-- run as the action has left them.
use e_commerec_operations.Accounts.{User, has_department_access}
use e_commerec_operations.Approvals.Actions.{moved_proposal, moved_run, write}
use e_commerec_operations.Approvals.Authorized.{Authorized}
use e_commerec_operations.Approvals.Context.{
  Context, active_actor, authorized_context, is_revision_of, is_run_of, load, product_key,
  proposal_key, run_key,
}
use e_commerec_operations.Approvals.Tables.{
  ApprovalAction, ApprovalActionType, ApprovalDb, ProductProposal,
}
use e_commerec_operations.Base.{
  ==_iff, List, arith, find?, find?-update_where, ok, refl, some, true, update_where, ℕ, ◌&&◌, ◌==◌,
  ◌≡◌,
}
use e_commerec_operations.Common.{UserDepartment, is_active}

abbrev pub after_action : ApprovalActionType → Context → Context
after_action type c = record c {
  run = moved_run type c.run;
  proposal = moved_proposal type c.revision.id c.proposal;
}

pub moved_proposal-parts :
    (type : ApprovalActionType) (r : ℕ) (p : ProductProposal)
    → ((moved_proposal type r p).id ≡ p.id)
      × ((moved_proposal type r p).store_id ≡ p.store_id)
      × ((moved_proposal type r p).product_id ≡ p.product_id)
      × ((moved_proposal type r p).optimization_run_id ≡ p.optimization_run_id)
      × ((moved_proposal type r p).base_product_version ≡ p.base_product_version)
moved_proposal-parts ApprovalActionType.submit r p = (refl, refl, refl, refl, refl)
moved_proposal-parts ApprovalActionType.approve r p = (refl, refl, refl, refl, refl)
moved_proposal-parts ApprovalActionType.reject r p = (refl, refl, refl, refl, refl)
moved_proposal-parts ApprovalActionType.request_changes r p = (refl, refl, refl, refl, refl)

-- The checks of `_authorized_context` are enough.
load-again :
    (c : Context) (revision_id : ℕ) (db : ApprovalDb)
    → find? (λ r. run_key r == c.proposal.optimization_run_id) db.runs ≡ some c.run
    → find? (λ x. product_key x == c.proposal.product_id) db.products ≡ some c.product
    → find? (is_revision_of c.proposal.id revision_id) db.revisions ≡ some c.revision
    → (is_run_of c.proposal c.store c.run && c.product.store_id == c.store.id) ≡ true
    → load c.actor c.store c.proposal revision_id db ≡ ok c
unfolding load
load-again c revision_id db run product revision agrees = rw (run, product, revision, agrees) refl

actor-again :
    (u : User)
    → has_department_access (some u) UserDepartment.operations ≡ true
    → active_actor (some u) ≡ ok u
unfolding active_actor has_department_access
actor-again u access =
    let active : is_active u.status ≡ true = ground arith in rw active (ground arith)

pub Authorized-authorized_context :
    (actor_id n revision_id : ℕ) (db : ApprovalDb) (c : Context)
    → Authorized actor_id n revision_id db c
    → authorized_context actor_id n revision_id db ≡ ok c
unfolding authorized_context
Authorized-authorized_context actor_id n revision_id db c a =
    let actor = a.actor in
    let known = actor-again c.actor a.access in
    let proposal = a.proposal in
    let store = a.store in
    let scope = a.scope in
    let loaded = load-again c revision_id db a.run a.product a.revision a.agrees in
    rw (actor, known, proposal, store, scope, loaded) refl

-- The row of a key, after its own UPDATE.
update-row :
    {A : Type 0} (id : A → ℕ) (f : A → A)
    → ((x : A) → id (f x) ≡ id x)
    → (n : ℕ) (xs : List A) (x : A) → find? (λ z. id z == n) xs ≡ some x
    → find? (λ z. id z == n) (update_where (λ z. id z == id x) f xs) ≡ some (f x)
update-row id f same n xs x e =
    let itself : (id x == id x) ≡ true = (==_iff (id x) (id x)).1 refl in
    let k = find?-update_where id (λ z. id z == id x) f same n xs e in rw itself at k

module _ (type : ApprovalActionType) (c : Context) (a : ApprovalAction) (actor_id n revision_id : ℕ)
    (db : ApprovalDb) (h : Authorized actor_id n revision_id db c) where
  agrees-after :
      (is_run_of (after_action type c).proposal c.store (after_action type c).run
        && c.product.store_id == c.store.id)
      ≡ true
  agrees-after =
      let (same_id, same_store, same_product, same_run, same_base) =
        moved_proposal-parts type c.revision.id c.proposal in
      let before = h.agrees in rw (same_id, same_product) before

  pub write-Authorized : Authorized actor_id n revision_id (write type c a db) (after_action type c)
  unfolding write
  write-Authorized =
      let (same_id, same_store, same_product, same_run, same_base) =
        moved_proposal-parts type c.revision.id c.proposal in
      record {
        actor = h.actor;
        access = h.access;
        proposal =
            update-row proposal_key (moved_proposal type c.revision.id)
              (λ p. (moved_proposal-parts type c.revision.id p).0) n db.proposals c.proposal
              h.proposal;
        store = rw same_store h.store;
        scope = rw same_store h.scope;
        run = rw same_run (
            update-row run_key (moved_run type) (λ r. refl) c.proposal.optimization_run_id db.runs
              c.run h.run);
        product = rw same_product h.product;
        revision = rw same_id h.revision;
        agrees = agrees-after;
      }
