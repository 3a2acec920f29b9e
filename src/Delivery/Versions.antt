-- ===== src/Delivery/Versions.antt =====
-- In every run of the queue the versions of a product are attempted in their order.
use e_commerec_operations.Accounts.{Directory}
use e_commerec_operations.Base.{
  All, All-exists_where, All-find?, All-map₂, Bool, List, Option, Rows, Rows-refl, String, arith,
  exists_where-All, false, find?, ok, refl, some, sym, true, ℕ, ◌<◌, ◌∙◌, ◌∷◌, ◌≡◌, ◌≢◌,
}
use e_commerec_operations.Delivery.Claim.{
  claim_next_platform_delivery, claimable, fail_exhausted, has_predecessor, next_claimable,
  precedes, take_claim,
}
use e_commerec_operations.Delivery.Constraints.{Step-Keyed}
use e_commerec_operations.Delivery.Finish.{
  complete_platform_delivery, fail_platform_delivery, return_platform_delivery_for_retry,
}
use e_commerec_operations.Delivery.Moves.{Allows, Keyed, complete-Rows, give_up-Rows, return-Rows}
use e_commerec_operations.Delivery.Order.{
  Attempt, Attempt-Allows, Attempt-InOrder, Closing, Closing-Allows, InOrder, IsFree, IsFree-Rows,
}
use e_commerec_operations.Delivery.Respects.{
  Always, exhausted-Keyed, exhausted-Rows, take_claim-Rows,
}
use e_commerec_operations.Delivery.Steps.{
  IsNext, Reach, Reach_induction, Step, claimed, completed, empty_db, enqueue, enqueued, gave_up,
  new_delivery, reassigned, returned,
}
use e_commerec_operations.Delivery.Tables.{
  Db, PlatformDelivery, PublishRecord, is_record, publish_record,
}

claim-records :
    (now : ℕ) (locked : ℕ → Bool) (owner : String) (seconds : ℕ) (db : Db)
    (found : Option PlatformDelivery) {db' : Db}
    → claim_next_platform_delivery now locked owner seconds db ≡ ok (found, db')
    → db'.records ≡ db.records
unfolding claim_next_platform_delivery fail_exhausted
claim-records now locked owner seconds db found {db'} e = ground arith

complete-records :
    (now i : ℕ) (owner operation : String) (db : Db) (done : Bool) {db' : Db}
    → complete_platform_delivery now i owner operation db ≡ ok (done, db')
    → db'.records ≡ db.records
unfolding complete_platform_delivery
complete-records now i owner operation db done {db'} e = ground arith

return-records :
    (now i : ℕ) (owner code : String) (after : Option ℕ) (db : Db) (done : Bool) {db' : Db}
    → return_platform_delivery_for_retry now i owner code after db ≡ ok (done, db')
    → db'.records ≡ db.records
unfolding return_platform_delivery_for_retry
return-records now i owner code after db done {db'} e = ground arith

give_up-records :
    (now i : ℕ) (owner code : String) (db : Db) (done : Bool) {db' : Db}
    → fail_platform_delivery now i owner code db ≡ ok (done, db')
    → db'.records ≡ db.records
unfolding fail_platform_delivery
give_up-records now i owner code db done {db'} e = ground arith

-- Only a claim adds an attempt.
abbrev Never : PlatformDelivery → Type 0
Never d = ⊥

abbrev Tried : PlatformDelivery → PlatformDelivery → Type 0
Tried = Attempt Never

Tried-Allows : Allows Never Tried
Tried-Allows = Attempt-Allows Never (λ a b e t. t)

-- the change of a transaction that claims nothing
Tried-InOrder :
    (db db' : Db)
    → db'.records ≡ db.records
    → Rows Tried db.deliveries db'.deliveries
    → Rows (Closing db.records) db.deliveries db'.deliveries
    → InOrder db
    → InOrder db'
Tried-InOrder db db' same tried closing =
    Attempt-InOrder Never db db' same closing tried (λ d t. absurd t)

exhausted-InOrder :
    (now : ℕ) (locked : ℕ → Bool) (db : Db) → InOrder db → InOrder (fail_exhausted now locked db)
exhausted-InOrder now locked db =
    Tried-InOrder db (fail_exhausted now locked db) (unfold fail_exhausted in refl)
      (exhausted-Rows Never Tried Tried-Allows now locked db)
      (exhausted-Rows Always (Closing db.records) (Closing-Allows db.records) now locked db)

-- the test that a claimed delivery has passed
claimable-IsFree :
    (now : ℕ) (locked : ℕ → Bool) (db : Db) (d : PlatformDelivery)
    → claimable now locked db d ≡ true
    → IsFree db d
unfolding claimable
claimable-IsFree now locked db d e r found = ground arith

IsFree-carry :
    (db : Db) (a b : PlatformDelivery)
    → b.publish_record_id ≡ a.publish_record_id
    → IsFree db b
    → IsFree db a
unfolding publish_record
IsFree-carry db a b same free r e = free r (rw same e)

take_claim-records :
    (now : ℕ) (owner : String) (seconds : ℕ) (db : Db) (chosen found : Option PlatformDelivery)
    {db' : Db}
    → take_claim now owner seconds db chosen ≡ ok (found, db')
    → db'.records ≡ db.records
unfolding take_claim
take_claim-records now owner seconds db chosen found {db'} e = ground arith

take_claim-InOrder :
    (now : ℕ) (locked : ℕ → Bool) (owner : String) (seconds : ℕ) (db : Db)
    (found : Option PlatformDelivery) {db' : Db}
    → Keyed db
    → take_claim now owner seconds db (next_claimable now locked db) ≡ ok (found, db')
    → InOrder db
    → InOrder db'
take_claim-InOrder now locked owner seconds db found {db'} keyed e =
    let same = take_claim-records now owner seconds db (next_claimable now locked db) found e in
    let closing =
      take_claim-Rows Always (Closing db.records) (Closing-Allows db.records) now locked owner
        seconds db found (λ d t. tt) keyed e in
    Attempt-InOrder (IsFree db) db db' same closing
      (take_claim-Rows (IsFree db) (Attempt (IsFree db))
        (Attempt-Allows (IsFree db) (IsFree-carry db)) now locked owner seconds db found
        (claimable-IsFree now locked db) keyed e)
      (λ d free. IsFree-Rows db db' d same closing free)

claim-InOrder :
    (now : ℕ) (locked : ℕ → Bool) (owner : String) (seconds : ℕ) (db : Db)
    (found : Option PlatformDelivery) {db' : Db}
    → Keyed db
    → claim_next_platform_delivery now locked owner seconds db ≡ ok (found, db')
    → InOrder db
    → InOrder db'
unfolding claim_next_platform_delivery
claim-InOrder now locked owner seconds db found {db'} keyed e h =
    let mid = fail_exhausted now locked db in
    let taken : take_claim now owner seconds mid (next_claimable now locked mid) ≡ ok (found, db') =
      ground arith in
    take_claim-InOrder now locked owner seconds mid found (exhausted-Keyed now locked db keyed)
      taken (exhausted-InOrder now locked db h)

-- an older delivery keeps its record when a new one is put in front
publish_record-cons :
    (r : PublishRecord) (records : List PublishRecord) (d : PlatformDelivery)
    → d.publish_record_id ≢ r.id
    → publish_record (r ∷ records) d ≡ publish_record records d
unfolding publish_record find?
publish_record-cons r records d ne = ground arith

new_not_precedes :
    (now i : ℕ) (r : PublishRecord) (records : List PublishRecord) (s : PublishRecord)
    → (s.product_id ≡ r.product_id → s.published_product_version < r.published_product_version)
    → precedes (r ∷ records) s (new_delivery now i r) ≡ false
unfolding publish_record find?
new_not_precedes now i r records s newer = ground arith

enqueue-IsFree :
    (now i : ℕ) (r : PublishRecord) (db : Db) (d : PlatformDelivery)
    → IsNext i r db
    → d.publish_record_id ≢ r.id
    → IsFree db d
    → IsFree (enqueue now i r db) d
unfolding has_predecessor enqueue publish_record
enqueue-IsFree now i r db d fresh ne free s e =
    let found : publish_record db.records d ≡ some s =
      sym (publish_record-cons r db.records d ne) ∙ e in
    let Older = λ (s : PublishRecord).
      s.product_id ≡ r.product_id → s.published_product_version < r.published_product_version in
    let newer = All-find? Older (is_record d.publish_record_id) db.records found fresh.newest in
    let p = precedes (r ∷ db.records) s in
    All-exists_where p (new_delivery now i r ∷ db.deliveries) (
      new_not_precedes now i r db.records s newer.0,
      All-map₂ (λ o. (o.id ≢ i) × (o.publish_record_id ≢ r.id))
          (λ o. precedes db.records s o ≡ false) (λ o. p o ≡ false)
          (λ o other no. rw (publish_record-cons r db.records o other.1) no) db.deliveries
          fresh.new_id (exists_where-All (precedes db.records s) db.deliveries (free s found)),
    )

enqueue-InOrder :
    (now i : ℕ) (r : PublishRecord) (db : Db)
    → IsNext i r db
    → InOrder db
    → All
        (λ d. 0 < d.attempt_count → IsFree (enqueue now i r db) d)
        (new_delivery now i r ∷ db.deliveries)
enqueue-InOrder now i r db fresh h = (
  (λ tried. absurd (omega arith)),
  All-map₂ (λ o. (o.id ≢ i) × (o.publish_record_id ≢ r.id)) (λ d. 0 < d.attempt_count → IsFree db d)
      (λ d. 0 < d.attempt_count → IsFree (enqueue now i r db) d)
      (λ d other free tried. enqueue-IsFree now i r db d fresh other.1 (free tried)) db.deliveries
      fresh.new_id h,
)

-- Every transaction keeps the order.
Step-InOrder : (db db' : Db) → Step db db' → Keyed db → InOrder db → InOrder db'
Step-InOrder db db' (enqueued now i r fresh) keyed h =
    unfold enqueue in enqueue-InOrder now i r db fresh h
Step-InOrder db db' (claimed now locked owner seconds found e) keyed h =
    claim-InOrder now locked owner seconds db found keyed e h
Step-InOrder db db' (completed now i owner operation done e) keyed h =
    Tried-InOrder db db' (complete-records now i owner operation db done e)
      (complete-Rows Never Tried Tried-Allows now i owner operation db done keyed e)
      (complete-Rows Always (Closing db.records) (Closing-Allows db.records) now i owner operation
        db done keyed e)
      h
Step-InOrder db db' (returned now i owner code after done e) keyed h =
    Tried-InOrder db db' (return-records now i owner code after db done e)
      (return-Rows Never Tried Tried-Allows now i owner code after db done keyed e)
      (return-Rows Always (Closing db.records) (Closing-Allows db.records) now i owner code after db
        done keyed e)
      h
Step-InOrder db db' (gave_up now i owner code done e) keyed h =
    Tried-InOrder db db' (give_up-records now i owner code db done e)
      (give_up-Rows Never Tried Tried-Allows now i owner code db done keyed e)
      (give_up-Rows Always (Closing db.records) (Closing-Allows db.records) now i owner code db done
        keyed e)
      h
Step-InOrder db db' (reassigned dir) keyed h =
    Tried-InOrder db db' refl (Rows-refl Tried Tried-Allows.stay db.deliveries)
      (Rows-refl (Closing db.records) (Closing-Allows db.records).stay db.deliveries) h

-- In every state that the queue reaches from empty tables: once a delivery has been attempted, no
-- delivery of an older version of its product is pending or in progress.
pub Reach-InOrder : (dir : Directory) (db : Db) → Reach (empty_db dir) db → InOrder db
Reach-InOrder dir db r =
    (Reach_induction (λ x. Keyed x × InOrder x) (empty_db dir) (tt, tt)
      (λ x y st h. (Step-Keyed x y st h.0, Step-InOrder x y st h.0 h.1)) r).1
