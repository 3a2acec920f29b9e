-- ===== src/Approvals/Queue.antt =====
-- What approvals do to the delivery queue: each is an insertion of the next version of a product, so
-- that every run of the approval tables is a run of the queue.
use mathlib.Core.Option.{some-injective}
use e_commerec_operations.Accounts.{Directory}
use e_commerec_operations.Approvals.Actions.{Library, moved_run, perform_action}
use e_commerec_operations.Approvals.Approved.{Approved, approval_action}
use e_commerec_operations.Approvals.Changes.{Kept, approve-Change}
use e_commerec_operations.Approvals.Context.{product_key, run_key}
use e_commerec_operations.Approvals.Output.{listing, with_listing}
use e_commerec_operations.Approvals.Publish.{
  Approval, Published, approve_proposal, new_publication, publish,
}
use e_commerec_operations.Approvals.Steps.{
  ApprovalReach, ApprovalReach_induction, ApprovalStep, IsFresh, approved, delivered, elsewhere,
  performed,
}
use e_commerec_operations.Approvals.Tables.{ApprovalActionType, ApprovalDb, Product, Snapshot}
use e_commerec_operations.Approvals.Written.{Performed-Kept, perform-Change}
use e_commerec_operations.Base.{
  ==_iff, All, All-map, Bool-cases, ap, arith, false≢true, find?, find?-test, find?-updated, inl,
  inr, refl, some, subst, sym, update_where, ℕ, ◌+◌, ◌<◌, ◌==◌, ◌∙◌, ◌∷◌, ◌≡◌, ◌≤◌,
}
use e_commerec_operations.Delivery.Steps.{IsNext, Reach, empty_db, enqueue, enqueued, here, next}
use e_commerec_operations.Delivery.Tables.{Db, PublishRecord}

abbrev pub BelowProducts : ApprovalDb → Type 0
BelowProducts db =
    (i : ℕ) (x : Product)
    → find? (λ y. product_key y == i) db.products ≡ some x
    → All
        (λ (r : PublishRecord). r.product_id ≡ i → r.published_product_version ≤ x.current_version)
        db.queue.records

module _ (lib : Library) (call : Approval) (db : ApprovalDb) (result : Published) (db' : ApprovalDb)
    (m : Approved lib call db result db') where
  pub published_row : PublishRecord
  published_row =
      (new_publication lib call m.context (approval_action lib call m.context m.key_hash)
        m.output).row

  pub queue-enqueued : db'.queue ≡ enqueue call.now call.delivery_id published_row db.queue
  unfolding publish published_row
  queue-enqueued = ap (λ (x : ApprovalDb). x.queue) m.checked.written

  pub product-id : m.context.product.id ≡ m.context.proposal.product_id
  product-id = (==_iff m.context.product.id m.context.proposal.product_id).0 (
      find?-test (λ x. product_key x == m.context.proposal.product_id) db.products
        m.authorized.product)

  pub row-parts :
      (published_row.product_id ≡ m.context.product.id)
      × (published_row.published_product_version ≡ m.context.proposal.base_product_version + 1)
      × (published_row.approved_by ≡ m.context.actor.id)
  unfolding published_row new_publication
  row-parts = (refl, refl, refl)

  pub runs-after :
      db'.runs
      ≡ update_where
          (λ r. run_key r == m.context.run.id)
          (moved_run ApprovalActionType.approve)
          db.runs
  unfolding publish
  runs-after = ap (λ (x : ApprovalDb). x.runs) m.checked.written

  pub enqueued-IsNext :
      IsFresh call db → BelowProducts db → IsNext call.delivery_id published_row db.queue
  unfolding published_row new_publication
  enqueued-IsNext fresh below =
      let version = m.checked.version in
      let same = product-id in
      record {
        new_record = fresh.new_record;
        new_id = fresh.new_delivery_id;
        newest =
            All-map
              (λ (r : PublishRecord).
                r.product_id ≡ m.context.proposal.product_id
                → r.published_product_version ≤ m.context.product.current_version)
              (λ (r : PublishRecord).
                r.product_id ≡ m.context.product.id
                → r.published_product_version < m.context.proposal.base_product_version + 1)
              (λ r bound is. let k = bound (is ∙ same) in omega arith) db.queue.records
              (below m.context.proposal.product_id m.context.product m.authorized.product);
      }

  records-after : db'.queue.records ≡ published_row ∷ db.queue.records
  unfolding enqueue
  records-after = ap (λ (q : Db). q.records) queue-enqueued

  pub products-after :
      (n : Snapshot) × (n.current_version ≡ m.context.proposal.base_product_version + 1)
      × (db'.products
          ≡ update_where (λ x. product_key x == m.context.product.id) (with_listing n) db.products)
  unfolding publish listing new_publication
  products-after = (
    (new_publication lib call m.context (approval_action lib call m.context m.key_hash)
        m.output).after_snapshot,
    refl,
    ap (λ (x : ApprovalDb). x.products) m.checked.written,
  )

  pub published-BelowProducts : BelowProducts db → BelowProducts db'
  published-BelowProducts below i y found =
      let (n, at_n, products) = products-after in
      let version = m.checked.version in
      let (row_product, row_version, row_approver) = row-parts in
      let (x, row, is) =
        find?-updated product_key (λ x. product_key x == m.context.product.id) (with_listing n)
          (λ x. refl) i db.products (rw products at found) in
      let x_at = (==_iff x.id i).0 (find?-test (λ z. product_key z == i) db.products row) in
      let old = below i x row in
      elim (Bool-cases (product_key x == m.context.product.id)) [
        | inl t ↦
            let y_is : y ≡ with_listing n x = rw t at is in
            let y_version : y.current_version ≡ m.context.proposal.base_product_version + 1 =
              ap (λ (z : Product). z.current_version) y_is ∙ at_n in
            let one : i ≡ m.context.proposal.product_id =
              sym x_at ∙ (==_iff x.id m.context.product.id).0 t ∙ product-id in
            let x_is : x ≡ m.context.product = some-injective _ _ (
              sym row
              ∙ ap (λ j. find? (λ z. product_key z == j) db.products) one
              ∙ m.authorized.product) in
            let x_version : x.current_version ≡ m.context.product.current_version =
              ap (λ (z : Product). z.current_version) x_is in
            rw records-after (
              (λ p.
                  subst (λ v. v ≤ y.current_version) (sym row_version)
                    (rw y_version (omega arith))),
              All-map
                  (λ (r : PublishRecord).
                    r.product_id ≡ i → r.published_product_version ≤ x.current_version)
                  (λ (r : PublishRecord).
                    r.product_id ≡ i → r.published_product_version ≤ y.current_version)
                  (λ r bound p. let k = bound p in omega arith) db.queue.records old,
            )
        | inr f ↦
            let y_is : y ≡ x = rw f at is in
            rw records-after (
              (λ p. absurd (
                  false≢true
                    (sym f ∙ (==_iff x.id m.context.product.id).1 (x_at ∙ sym p ∙ row_product)))),
              subst
                  (λ (z : Product).
                    All
                      (λ (r : PublishRecord).
                        r.product_id ≡ i → r.published_product_version ≤ z.current_version)
                      db.queue.records)
                  (sym y_is) old,
            )
      ]

Kept-BelowProducts :
    (db db' : ApprovalDb)
    → db'.queue.records ≡ db.queue.records
    → db'.products ≡ db.products
    → BelowProducts db
    → BelowProducts db'
Kept-BelowProducts db db' records products below i x found =
    rw records (below i x (rw products at found))

module _ (lib : Library) (start : ApprovalDb) (dir : Directory) where
  IsQueued : ApprovalDb → Type 0
  IsQueued db = Reach (empty_db dir) db.queue × BelowProducts db

  Kept-IsQueued : (db db' : ApprovalDb) → Kept db db' → IsQueued db → IsQueued db'
  unfolding IsQueued
  Kept-IsQueued db db' k (r, below) = (
    subst (Reach (empty_db dir)) (sym k.queue) r,
    Kept-BelowProducts db db' (ap (λ (q : Db). q.records) k.queue) k.products below,
  )

  step-IsQueued : (db db' : ApprovalDb) → ApprovalStep lib db db' → IsQueued db → IsQueued db'
  unfolding IsQueued
  step-IsQueued db db' (performed type call) h = elim (perform-Change lib type call db) [
    | inl same ↦ Kept-IsQueued db (perform_action lib type call db).1 same.kept h
    | inr (result, m) ↦
        let db₁ = (perform_action lib type call db).1 in
        Kept-IsQueued db db₁ (Performed-Kept lib type call db result db₁ m) h
  ]
  step-IsQueued db db' (approved call fresh) (r, below) = elim (approve-Change lib call db) [
    | inl same ↦ Kept-IsQueued db (approve_proposal lib call db).1 same.kept (r, below)
    | inr (result, m) ↦
        let db₁ = (approve_proposal lib call db).1 in
        let row = published_row lib call db result db₁ m in
        (
          subst (Reach (empty_db dir)) (sym (queue-enqueued lib call db result db₁ m)) (
              next r (
                enqueued call.now call.delivery_id row
                  (enqueued-IsNext lib call db result db₁ m fresh below))),
          published-BelowProducts lib call db result db₁ m below,
        )
  ]
  step-IsQueued db db' (delivered queue st records) (r, below) =
      (next r st, Kept-BelowProducts db (record db { queue = queue }) records refl below)
  step-IsQueued db db' (elsewhere queue products actions publications) h =
      Kept-IsQueued db db'
        (record { queue = queue; products = products; publications = publications }) h

  -- Every run of the approval tables that starts with an empty queue is a run of the delivery queue: each
  -- approval that publishes inserts the next version of its product.
  pub ApprovalReach-Reach :
      (db : ApprovalDb)
      → start.queue ≡ empty_db dir
      → ApprovalReach lib start db
      → Reach (empty_db dir) db.queue
  unfolding IsQueued
  ApprovalReach-Reach db empty r =
      let reached : Reach (empty_db dir) start.queue =
        subst (Reach (empty_db dir)) (sym empty) here in
      let none_yet : BelowProducts start = λ i x found.
        subst
          (λ (q : Db).
            All
              (λ (s : PublishRecord).
                s.product_id ≡ i → s.published_product_version ≤ x.current_version)
              q.records)
          (sym empty) tt in
      (ApprovalReach_induction lib IsQueued start (reached, none_yet) step-IsQueued r).0
