-- ===== src/Delivery/Claim.antt =====
-- `claim_next_platform_delivery` of backend/platform_delivery_runs.py. `locked` tells the rows that
-- another transaction holds (`SKIP LOCKED`). The ORM flushes before it selects, so the second SELECT
-- sees the rows that the loop over the first has changed.
use e_commerec_operations.Base.{
  ℕ, ◌+◌, String, Bool, false, ◌&&◌, ◌||◌, not, Option, none, some, List, [], ◌++◌, map, head?,
  ◌==◌, ltb, leb, holds, is_none, if◌then◌else◌, Result, ok, err, select_where, exists_where,
  update_where, order_by,
}
use e_commerec_operations.Common.{PlatformDeliveryStatus}
use e_commerec_operations.Delivery.Tables.{
  PublishRecord, PlatformDelivery, Db, ValueError, invalid_lease_owner, invalid_lease_seconds,
  is_pending, is_processing, valid_owner, publish_record, terminal_audit, failed_delivery,
  store_delivery,
}

abbrev pub is_exhausted : ℕ → (ℕ → Bool) → PlatformDelivery → Bool
is_exhausted now locked d =
    is_processing d.status
    && holds (λ t. leb t now) d.lease_expires_at
    && leb 3 d.attempt_count
    && not (locked d.id)

abbrev pub queue_key : PlatformDelivery → ℕ × ℕ
queue_key d = (d.created_at, d.id)

-- the first part of `claim_next_platform_delivery`: the loop over `exhausted`
unfoldable pub fail_exhausted : ℕ → (ℕ → Bool) → Db → Db
fail_exhausted now locked db =
    let exhausted = order_by queue_key (select_where (is_exhausted now locked) db.deliveries) in
    let give_up = failed_delivery now "PLATFORM_DELIVERY_FAILED" in
    record db {
      deliveries = update_where (is_exhausted now locked) give_up db.deliveries;
      audit = db.audit ++ map (λ d. terminal_audit (give_up d) false) exhausted;
    }

abbrev pub is_eligible : ℕ → PlatformDelivery → Bool
is_eligible now d =
    is_pending d.status && (is_none d.next_attempt_at || holds (λ t. leb t now) d.next_attempt_at)
    || is_processing d.status && holds (λ t. leb t now) d.lease_expires_at

abbrev pub is_open : PlatformDelivery → Bool
is_open d = is_pending d.status || is_processing d.status

-- `r` publishes an older version of the same product than `newer`
abbrev pub is_older : PublishRecord → PublishRecord → Bool
is_older newer r =
    r.store_id == newer.store_id
    && r.product_id == newer.product_id
    && ltb r.published_product_version newer.published_product_version

abbrev pub precedes : List PublishRecord → PublishRecord → PlatformDelivery → Bool
precedes records newer older =
    holds (is_older newer) (publish_record records older) && is_open older

unfoldable pub has_predecessor : Db → PublishRecord → Bool
has_predecessor db r = exists_where (precedes db.records r) db.deliveries

unfoldable pub claimable : ℕ → (ℕ → Bool) → Db → PlatformDelivery → Bool
unfolding has_predecessor
claimable now locked db d =
    is_eligible now d
    && ltb d.attempt_count 3
    && holds (λ r. not (has_predecessor db r)) (publish_record db.records d)
    && not (locked d.id)

unfoldable pub next_claimable : ℕ → (ℕ → Bool) → Db → Option PlatformDelivery
unfolding claimable
next_claimable now locked db =
    head? (order_by queue_key (select_where (claimable now locked db) db.deliveries))

abbrev pub claimed_delivery : ℕ → String → ℕ → PlatformDelivery → PlatformDelivery
claimed_delivery now lease_owner lease_seconds d = record d {
  status = PlatformDeliveryStatus.processing;
  attempt_count = d.attempt_count + 1;
  next_attempt_at = none;
  lease_owner = some lease_owner;
  lease_expires_at = some (now + lease_seconds);
  error_code = none;
}

unfoldable pub take_claim :
    ℕ → String → ℕ → Db → Option PlatformDelivery → Result ValueError (Option PlatformDelivery × Db)
unfolding store_delivery
take_claim now lease_owner lease_seconds db none = ok (none, db)
take_claim now lease_owner lease_seconds db (some d) =
    let d' = claimed_delivery now lease_owner lease_seconds d in
    ok (some d', store_delivery d' [] db)

unfoldable pub claim_next_platform_delivery :
    ℕ → (ℕ → Bool) → String → ℕ → Db → Result ValueError (Option PlatformDelivery × Db)
unfolding valid_owner take_claim
claim_next_platform_delivery now locked lease_owner lease_seconds db =
    let db' = fail_exhausted now locked db in
    let claim = take_claim now lease_owner lease_seconds db' (next_claimable now locked db') in
    if not (valid_owner lease_owner)
    then err invalid_lease_owner
    else if lease_seconds == 0
    then err invalid_lease_seconds
    else claim
