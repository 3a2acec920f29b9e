-- ===== src/Delivery/Outcomes.antt =====
-- What the holder of a lease reaches with it, and what becomes of a delivery whose leases all run out.
use e_commerec_operations.Audit.{AuditEvent}
use e_commerec_operations.Base.{
  ==_iff, Bool, Bool-cases, List, Mem, Option, Option-cases, Rows-find?, String, [], ap, arith,
  eq_iff, false, find?-IsKeyed, find?-Mem, find?-test, find?-update_where, find?-write, holds, inl,
  inr, leb, none, not, ok, refl, some, str_eq, true, ℕ, ◌++◌, ◌+◌, ◌<◌, ◌∙◌, ◌∷◌, ◌≡◌, ◌≤◌, ◌⊎◌,
}
use e_commerec_operations.Common.{PlatformDeliveryStatus}
use e_commerec_operations.Delivery.Claim.{
  claim_next_platform_delivery, fail_exhausted, is_exhausted, next_claimable, take_claim,
}
use e_commerec_operations.Delivery.Finish.{
  complete_platform_delivery, delivery_authorized, retried_delivery, retry_delay,
  return_platform_delivery_for_retry, succeeded_delivery,
}
use e_commerec_operations.Delivery.Leases.{Leased}
use e_commerec_operations.Delivery.Moves.{Keyed, delivery_id, forbidden_code}
use e_commerec_operations.Delivery.Permits.{MayPublish, publish_authorized-MayPublish}
use e_commerec_operations.Delivery.Progress.{Later, Later-Allows, delivery}
use e_commerec_operations.Delivery.Ready.{GivenUp, given-up}
use e_commerec_operations.Delivery.Respects.{Always, exhausted-Keyed, take_claim-Rows}
use e_commerec_operations.Delivery.Tables.{
  Db, PlatformDelivery, PublishRecord, failed_delivery, is_error_code, is_owned, is_record,
  mark_failed, owned_delivery, publish_authorized, publish_record, store_delivery, terminal_audit,
}

owned-delivery :
    (now i : ℕ) (owner : String) (db : Db) (d : PlatformDelivery)
    → Keyed db
    → owned_delivery now i owner db ≡ some d
    → (delivery i db ≡ some d) × (d.id ≡ i)
unfolding owned_delivery delivery
owned-delivery now i owner db d keyed e = (
  find?-IsKeyed delivery_id (is_owned now i owner) i (λ x t. ground arith) db.deliveries keyed e,
  (let t = find?-test (is_owned now i owner) db.deliveries e in ground arith),
)

owned-test :
    (now i : ℕ) (owner : String) (db : Db) (d : PlatformDelivery)
    → owned_delivery now i owner db ≡ some d
    → is_owned now i owner d ≡ true
unfolding owned_delivery
owned-test now i owner db d e = find?-test (is_owned now i owner) db.deliveries e

-- the row of a key is the one that was stored
delivery-store_delivery :
    (i : ℕ) (d d' : PlatformDelivery) (events : List AuditEvent) (db : Db)
    → d'.id ≡ i
    → delivery i db ≡ some d
    → delivery i (store_delivery d' events db) ≡ some d'
unfolding delivery store_delivery
delivery-store_delivery i d d' events db same e = find?-write delivery_id i d' same db.deliveries e

pub record_row :
    (db : Db) (d : PlatformDelivery) (r : PublishRecord)
    → publish_record db.records d ≡ some r
    → Mem r db.records × (r.id ≡ d.publish_record_id)
unfolding publish_record
record_row db d r e =
    let (row, at) = find?-Mem (is_record d.publish_record_id) db.records e in
    (row, (==_iff r.id d.publish_record_id).0 at)

authorized_record :
    (db : Db) (d : PlatformDelivery)
    → delivery_authorized db d ≡ true
    → (r : PublishRecord) × (publish_record db.records d ≡ some r)
      × (publish_authorized db.directory r ≡ true)
unfolding delivery_authorized
authorized_record db d e = elim (Option-cases (publish_record db.records d)) [
  | inl missing ↦ absurd (ground arith)
  | inr (r, found) ↦ (r, found, ground arith)
]

owned-Leased :
    (now i : ℕ) (owner : String) (d : PlatformDelivery)
    → is_owned now i owner d ≡ true
    → Leased now owner d
owned-Leased now i owner d e = elim (Option-cases d.lease_owner) [
  | inl free ↦ absurd (ground arith)
  | inr (o, held) ↦ elim (Option-cases d.lease_expires_at) [
    | inl endless ↦ absurd (ground arith)
    | inr (t, until) ↦
        let same : str_eq o owner ≡ true = ground arith in
        record {
          processing = ground arith;
          holder = held ∙ ap some ((eq_iff o owner).0 same);
          until = (t, until, ground arith);
        }
  ]
]

-- A delivery that has succeeded at `now` under an operation.
pub record Succeeded (now : ℕ) (operation : String) (d d' : PlatformDelivery) : Type 0 where
  pub status : d'.status ≡ PlatformDeliveryStatus.succeeded
  pub under : d'.external_operation_id ≡ some operation
  pub completed : d'.completed_at ≡ some now
  pub no_error : d'.error_code ≡ none
  pub no_holder : d'.lease_owner ≡ none
  pub no_lease : d'.lease_expires_at ≡ none
  pub attempts : d'.attempt_count ≡ d.attempt_count

pub record Completed (now i : ℕ) (owner operation : String) (db db' : Db) : Type 0 where
  pub before : PlatformDelivery
  pub found : delivery i db ≡ some before
  pub leased : Leased now owner before
  pub publication : PublishRecord
  pub publication_row : Mem publication db.records
  pub publication_id : publication.id ≡ before.publish_record_id
  pub permit : MayPublish db.directory publication
  pub after : PlatformDelivery
  pub stored : delivery i db' ≡ some after
  pub succeeded : Succeeded now operation before after
  pub logged : db'.audit ≡ db.audit ++ terminal_audit after true ∷ []

-- In tables with distinct keys, a completion that returns `True` is made by the holder of a lease that
-- has not run out; the approver of the publication is then an active member of the operations department
-- or an administrator, no operator, and has the store, which is enabled, in his scope. The delivery is
-- stored as succeeded under the operation's id, with no lease, and its end is in the audit log.
pub complete_only_authorized :
    (now i : ℕ) (owner operation : String) (db db' : Db)
    → Keyed db
    → complete_platform_delivery now i owner operation db ≡ ok (true, db')
    → Completed now i owner operation db db'
unfolding complete_platform_delivery store_delivery
complete_only_authorized now i owner operation db db' keyed e =
    elim (Option-cases (owned_delivery now i owner db)) [
      | inl missing ↦ absurd (ground arith)
      | inr (d, found) ↦
          let (present, at_i) = owned-delivery now i owner db d keyed found in
          let granted : delivery_authorized db d ≡ true = ground arith in
          let d' = succeeded_delivery now operation d in
          let is : db' ≡ store_delivery d' (terminal_audit d' true ∷ []) db = ground arith in
          let stored =
            delivery-store_delivery i d d' (terminal_audit d' true ∷ []) db at_i present in
          let (r, joined, may) = authorized_record db d granted in
          let (row, same) = record_row db d r joined in
          record {
            before = d;
            found = present;
            leased = owned-Leased now i owner d (owned-test now i owner db d found);
            publication = r;
            publication_row = row;
            publication_id = same;
            permit = publish_authorized-MayPublish db.directory r may;
            after = d';
            stored = rw is stored;
            succeeded = record {
              status = refl;
              under = refl;
              completed = refl;
              no_error = refl;
              no_holder = refl;
              no_lease = refl;
              attempts = refl;
            };
            logged = ap (λ (x : Db). x.audit) is;
          }
    ]

-- the two ways in which a return for a retry ends
abbrev pub Failed : ℕ → PlatformDelivery → PlatformDelivery → Type 0
Failed now d d' = (code : String) × (is_error_code code ≡ true) × (d' ≡ failed_delivery now code d)

abbrev pub BackInQueue : ℕ → PlatformDelivery → PlatformDelivery → Type 0
BackInQueue now d d' =
    (d.attempt_count < 3)
    × ((t : ℕ) × (d'.next_attempt_at ≡ some t) × (now ≤ t) × (t ≤ now + 60))
    × (d'.status ≡ PlatformDeliveryStatus.pending)
    × (d'.attempt_count ≡ d.attempt_count)
    × (d'.lease_owner ≡ none)

retry_delay_bounded :
    (after : Option ℕ) (n : ℕ)
    → holds (λ r. not (leb r 60)) after ≡ false
    → retry_delay after n ≤ 60
unfolding retry_delay
retry_delay_bounded none n h = omega arith
retry_delay_bounded (some r) n h = ground arith

delivery-mark_failed :
    (now i : ℕ) (code : String) (d : PlatformDelivery) (db : Db)
    → d.id ≡ i
    → delivery i db ≡ some d
    → delivery i (mark_failed now code d db) ≡ some (failed_delivery now code d)
unfolding mark_failed
delivery-mark_failed now i code d db same e =
    delivery-store_delivery i d (failed_delivery now code d)
      (terminal_audit (failed_delivery now code d) false ∷ []) db same e

-- In tables with distinct keys, a delivery that its holder returns for a retry has failed, or is
-- pending again, with no attempt added, after a delay of at most a minute and only if fewer than
-- three attempts were made.
pub return_outcome :
    (now i : ℕ) (owner code : String) (after : Option ℕ) (db db' : Db)
    → Keyed db
    → return_platform_delivery_for_retry now i owner code after db ≡ ok (true, db')
    → (d d' : PlatformDelivery) × (delivery i db ≡ some d)
      × (is_owned now i owner d ≡ true)
      × (delivery i db' ≡ some d')
      × (Failed now d d' ⊎ BackInQueue now d d')
unfolding return_platform_delivery_for_retry
return_outcome now i owner code after db db' keyed e =
    elim (Option-cases (owned_delivery now i owner db)) [
      | inl missing ↦ absurd (ground arith)
      | inr (d, found) ↦
          let (present, at_i) = owned-delivery now i owner db d keyed found in
          let owned = owned-test now i owner db d found in
          let listed : is_error_code code ≡ true = ground arith in
          elim (Bool-cases (delivery_authorized db d)) [
            | inr refused ↦
                let is : db' ≡ mark_failed now "PLATFORM_FORBIDDEN" d db = ground arith in
                (
                  d,
                  failed_delivery now "PLATFORM_FORBIDDEN" d,
                  present,
                  owned,
                  rw is (delivery-mark_failed now i "PLATFORM_FORBIDDEN" d db at_i present),
                  inl ("PLATFORM_FORBIDDEN", forbidden_code, refl),
                )
            | inl granted ↦ elim (Bool-cases (leb 3 d.attempt_count)) [
              | inl last ↦
                  let is : db' ≡ mark_failed now code d db = ground arith in
                  (
                    d,
                    failed_delivery now code d,
                    present,
                    owned,
                    rw is (delivery-mark_failed now i code d db at_i present),
                    inl (code, listed, refl),
                  )
              | inr again ↦
                  let delay = retry_delay after d.attempt_count in
                  let d' = retried_delivery now delay code d in
                  let is : db' ≡ store_delivery d' [] db = ground arith in
                  let brief = retry_delay_bounded after d.attempt_count (ground arith) in
                  (
                    d,
                    d',
                    present,
                    owned,
                    rw is (delivery-store_delivery i d d' [] db at_i present),
                    inr (
                      ground arith,
                      (now + delay, refl, omega arith, omega arith),
                      refl,
                      refl,
                      refl,
                    ),
                  )
            ]
          ]
    ]

exhausted-delivery :
    (now i : ℕ) (locked : ℕ → Bool) (db : Db) (d : PlatformDelivery)
    → delivery i db ≡ some d
    → is_exhausted now locked d ≡ true
    → delivery i (fail_exhausted now locked db)
      ≡ some (failed_delivery now "PLATFORM_DELIVERY_FAILED" d)
unfolding delivery fail_exhausted
exhausted-delivery now i locked db d present ex =
    find?-update_where delivery_id (is_exhausted now locked)
      (failed_delivery now "PLATFORM_DELIVERY_FAILED") (λ x. refl) i db.deliveries present
    ∙ rw ex

-- In tables with distinct keys, a delivery in progress that has had three attempts or more, whose lease
-- has run out, and whose row no other transaction holds, is stored as failed, with no lease, by the next
-- claim of any worker.
pub claim-gives_up :
    (now i until : ℕ) (locked : ℕ → Bool) (owner : String) (seconds : ℕ) (db : Db)
    (found : Option PlatformDelivery) (d : PlatformDelivery) (db' : Db)
    → Keyed db
    → delivery i db ≡ some d
    → d.status ≡ PlatformDeliveryStatus.processing
    → 3 ≤ d.attempt_count
    → d.lease_expires_at ≡ some until
    → until ≤ now
    → locked d.id ≡ false
    → claim_next_platform_delivery now locked owner seconds db ≡ ok (found, db')
    → (d' : PlatformDelivery) × (delivery i db' ≡ some d') × GivenUp now d d'
unfolding claim_next_platform_delivery delivery
claim-gives_up now i until locked owner seconds db found d db' keyed present running three at past
      free e =
    let ex : is_exhausted now locked d ≡ true = rw (running, at) (ground arith) in
    let mid = fail_exhausted now locked db in
    let taken : take_claim now owner seconds mid (next_claimable now locked mid) ≡ ok (found, db') =
      ground arith in
    let rows =
      take_claim-Rows Always Later Later-Allows now locked owner seconds mid found (λ x t. tt)
        (exhausted-Keyed now locked db keyed) taken in
    let (y, at_i, later) =
      Rows-find? delivery_id Later (λ a b r. r.0) i mid.deliveries db'.deliveries rows
        (exhausted-delivery now i locked db d present ex) in
    (
      failed_delivery now "PLATFORM_DELIVERY_FAILED" d,
      at_i ∙ ap some (later.3 refl),
      given-up now d,
    )
