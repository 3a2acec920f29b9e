-- ===== src/Approvals/Authorized.antt =====
-- What `_authorized_context` has checked when it returns.
use e_commerec_operations.Accounts.{
  Store, User, enabled_store, get_user, has_department_access, in_scope,
}
use e_commerec_operations.Approvals.Context.{
  Context, active_actor, authorized_context, is_revision_of, is_run_of, load, product_key,
  proposal_key, run_key,
}
use e_commerec_operations.Approvals.Tables.{ApprovalDb, ProductProposal}
use e_commerec_operations.Base.{
  Bool-cases, Option, Option-cases, Result-cases, ap, arith, find?, inl, inr, none, ok, refl, some,
  true, ℕ, ◌&&◌, ◌==◌, ◌≡◌,
}
use e_commerec_operations.Common.{UserDepartment, is_active}

pub record Authorized (actor_id n revision_id : ℕ) (db : ApprovalDb) (c : Context) : Type 0 where
  pub actor : get_user actor_id db.queue.directory ≡ some c.actor
  pub access : has_department_access (some c.actor) UserDepartment.operations ≡ true
  pub proposal : find? (λ p. proposal_key p == n) db.proposals ≡ some c.proposal
  pub store : enabled_store c.proposal.store_id db.queue.directory ≡ some c.store
  pub scope : in_scope c.actor.id c.proposal.store_id db.queue.directory ≡ true
  pub run : find? (λ r. run_key r == c.proposal.optimization_run_id) db.runs ≡ some c.run
  pub product : find? (λ x. product_key x == c.proposal.product_id) db.products ≡ some c.product
  pub revision : find? (is_revision_of c.proposal.id revision_id) db.revisions ≡ some c.revision
  pub agrees : (is_run_of c.proposal c.store c.run && c.product.store_id == c.store.id) ≡ true

load-parts :
    (u : User) (s : Store) (p : ProductProposal) (revision_id : ℕ) (db : ApprovalDb) (c : Context)
    → load u s p revision_id db ≡ ok c
    → (c.actor ≡ u)
      × (c.store ≡ s)
      × (c.proposal ≡ p)
      × (find? (λ r. run_key r == p.optimization_run_id) db.runs ≡ some c.run)
      × (find? (λ x. product_key x == p.product_id) db.products ≡ some c.product)
      × (find? (is_revision_of p.id revision_id) db.revisions ≡ some c.revision)
      × ((is_run_of p s c.run && c.product.store_id == s.id) ≡ true)
unfolding load
load-parts u s p revision_id db c e =
    elim (Option-cases (find? (λ r. run_key r == p.optimization_run_id) db.runs)) [
      | inl no_run ↦ absurd (ground arith)
      | inr (run, at_run) ↦
          elim (Option-cases (find? (λ x. product_key x == p.product_id) db.products)) [
            | inl no_product ↦ absurd (ground arith)
            | inr (product, at_product) ↦
                elim (Option-cases (find? (is_revision_of p.id revision_id) db.revisions)) [
                  | inl no_revision ↦ absurd (ground arith)
                  | inr (revision, at_revision) ↦
                      elim (Bool-cases (is_run_of p s run && product.store_id == s.id)) [
                        | inl t ↦
                            let is : record {
                              actor = u;
                              store = s;
                              proposal = p;
                              run = run;
                              product = product;
                              revision = revision;
                            }
                                ≡ c =
                              ground arith in
                            rw (← is) (refl, refl, refl, at_run, at_product, at_revision, t)
                        | inr f ↦ absurd (ground arith)
                      ]
                ]
          ]
    ]

actor-parts :
    (o : Option User) (u : User)
    → active_actor o ≡ ok u
    → (o ≡ some u) × (has_department_access (some u) UserDepartment.operations ≡ true)
unfolding active_actor
actor-parts none u e = absurd (ground arith)
actor-parts (some v) u e = elim (Bool-cases (is_active v.status)) [
  | inr f ↦ absurd (ground arith)
  | inl t ↦ elim (Bool-cases (has_department_access (some v) UserDepartment.operations)) [
    | inr g ↦ absurd (ground arith)
    | inl k ↦ let is : v ≡ u = ground arith in (ap some is, rw (← is) k)
  ]
]

pub authorized_context-Authorized :
    (actor_id n revision_id : ℕ) (db : ApprovalDb) (c : Context)
    → authorized_context actor_id n revision_id db ≡ ok c
    → Authorized actor_id n revision_id db c
unfolding authorized_context
authorized_context-Authorized actor_id n revision_id db c e =
    let dir = db.queue.directory in
    elim (Result-cases (active_actor (get_user actor_id dir))) [
      | inl (x, refused) ↦ absurd (ground arith)
      | inr (u, is_actor) ↦ elim (Option-cases (find? (λ p. proposal_key p == n) db.proposals)) [
        | inl missing ↦ absurd (ground arith)
        | inr (p, at_proposal) ↦ elim (Option-cases (enabled_store p.store_id dir)) [
          | inl closed ↦ absurd (ground arith)
          | inr (s, at_store) ↦ elim (Bool-cases (in_scope u.id p.store_id dir)) [
            | inr out ↦ absurd (ground arith)
            | inl scoped ↦
                let loaded : load u s p revision_id db ≡ ok c = ground arith in
                let (same_u, same_s, same_p, run, product, revision, agrees) =
                  load-parts u s p revision_id db c loaded in
                let (found, access) = actor-parts (get_user actor_id dir) u is_actor in
                record {
                  actor = rw same_u found;
                  access = rw same_u access;
                  proposal = rw same_p at_proposal;
                  store = rw (same_p, same_s) at_store;
                  scope = rw (same_u, same_p) scoped;
                  run = rw same_p run;
                  product = rw same_p product;
                  revision = rw same_p revision;
                  agrees = rw (same_p, same_s) agrees;
                }
          ]
        ]
      ]
    ]
