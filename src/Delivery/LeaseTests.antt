-- ===== src/Delivery/LeaseTests.antt =====
-- The first delivery of the test run as its holder, another worker and the clock treat it.
use e_commerec_operations.Accounts.{enabled_store, get_user, has_department_access, in_scope}
use e_commerec_operations.Base.{
  [], arith, exists_where, find?, none, ok, order_by, refl, select_where, some, true, update_where,
  ◌∷◌, ◌≡◌, ◌≢◌, ◌⊎◌,
}
use e_commerec_operations.Delivery.Claim.{
  claim_next_platform_delivery, claimed_delivery, fail_exhausted, next_claimable,
}
use e_commerec_operations.Delivery.Constraints.{Reach-IsSound}
use e_commerec_operations.Delivery.Finish.{
  complete_platform_delivery, delivery_authorized, fail_platform_delivery, is_operation_id,
  retried_delivery, retry_delay, return_platform_delivery_for_retry, succeeded_delivery,
}
use e_commerec_operations.Delivery.Leases.{IsIgnored, claim_excludes, lease_excludes}
use e_commerec_operations.Delivery.Moves.{Keyed}
use e_commerec_operations.Delivery.Outcomes.{
  BackInQueue, Completed, Failed, claim-gives_up, complete_only_authorized, return_outcome,
}
use e_commerec_operations.Delivery.Progress.{delivery}
use e_commerec_operations.Delivery.Ready.{GivenUp}
use e_commerec_operations.Delivery.Steps.{IsNext, enqueue, enqueued, new_delivery, next}
use e_commerec_operations.Delivery.Tables.{
  Db, PlatformDelivery, PublishRecord, is_error_code, is_owned, owned_delivery, publish_authorized,
  publish_record, store_delivery, terminal_audit,
}
use e_commerec_operations.Delivery.Tests.{
  claimed_db, held, keyed, lease, other_worker, present, run, shop, spent, spent_db, unlocked,
  worker_2,
}

lease_excludes_example :
    IsIgnored claimed_db (complete_platform_delivery 120 11 worker_2 "op-1" claimed_db)
    × IsIgnored claimed_db
        (return_platform_delivery_for_retry 120 11 worker_2 "PLATFORM_TIMEOUT" none claimed_db)
    × IsIgnored claimed_db (fail_platform_delivery 120 11 worker_2 "PLATFORM_TIMEOUT" claimed_db)
lease_excludes_example =
    lease_excludes 120 "worker-1" worker_2 claimed_db held keyed present lease "op-1"
      "PLATFORM_TIMEOUT" none other_worker

-- a delivery of another product, which the second worker gets while the first is at work
abbrev other_record : PublishRecord
other_record = record {
  id = 9;
  product_id = 8;
  store_id = 5;
  approved_by = 1;
  published_product_version = 2;
}

abbrev wide_db : Db
wide_db = enqueue 115 13 other_record claimed_db

abbrev handed : PlatformDelivery
handed = claimed_delivery 120 worker_2 30 (new_delivery 115 13 other_record)

other_IsNext : IsNext 13 other_record claimed_db
unfolding enqueue
other_IsNext = record {
  new_record = (ground arith, (ground arith, tt));
  new_id = ((ground arith, ground arith), ((ground arith, ground arith), tt));
  newest = ((λ same. ground arith), ((λ same. ground arith), tt));
}

wide-Keyed : Keyed wide_db
wide-Keyed = (Reach-IsSound shop wide_db (next run (enqueued 115 13 other_record other_IsNext))).0

wide_present : delivery 11 wide_db ≡ some held
unfolding delivery find? enqueue
wide_present = refl

abbrev handed_db : Db
handed_db = store_delivery handed [] wide_db

hands : claim_next_platform_delivery 120 unlocked worker_2 30 wide_db ≡ ok (some handed, handed_db)
unfolding claim_next_platform_delivery fail_exhausted enqueue next_claimable order_by select_where
    update_where publish_record find? exists_where
hands = refl

claim_excludes_example : handed.id ≢ 11
claim_excludes_example =
    claim_excludes 120 "worker-1" worker_2 wide_db held wide-Keyed wide_present lease unlocked 30
      handed handed_db hands

abbrev completed_db : Db
completed_db =
    let d' = succeeded_delivery 120 "op-1" held in
    store_delivery d' (terminal_audit d' true ∷ []) claimed_db

completes : complete_platform_delivery 120 11 "worker-1" "op-1" claimed_db ≡ ok (true, completed_db)
unfolding complete_platform_delivery owned_delivery delivery_authorized publish_record find? enqueue
    publish_authorized has_department_access get_user enabled_store in_scope exists_where
    is_operation_id
completes = refl

complete_only_authorized_example : Completed 120 11 "worker-1" "op-1" claimed_db completed_db
complete_only_authorized_example =
    complete_only_authorized 120 11 "worker-1" "op-1" claimed_db completed_db keyed completes

abbrev returned_db : Db
returned_db = store_delivery (retried_delivery 120 2 "PLATFORM_TIMEOUT" held) [] claimed_db

returns :
    return_platform_delivery_for_retry 120 11 "worker-1" "PLATFORM_TIMEOUT" none claimed_db
    ≡ ok (true, returned_db)
unfolding return_platform_delivery_for_retry owned_delivery delivery_authorized publish_record find?
    enqueue publish_authorized has_department_access get_user enabled_store in_scope exists_where
    is_error_code retry_delay
returns = refl

return_outcome_example :
    (d d' : PlatformDelivery) × (delivery 11 claimed_db ≡ some d)
    × (is_owned 120 11 "worker-1" d ≡ true)
    × (delivery 11 returned_db ≡ some d')
    × (Failed 120 d d' ⊎ BackInQueue 120 d d')
return_outcome_example =
    return_outcome 120 11 "worker-1" "PLATFORM_TIMEOUT" none claimed_db returned_db keyed returns

-- the third lease of the delivery has run out at 140
abbrev spent_after : Db
spent_after = fail_exhausted 150 unlocked spent_db

gives_up : claim_next_platform_delivery 150 unlocked worker_2 30 spent_db ≡ ok (none, spent_after)
unfolding claim_next_platform_delivery fail_exhausted next_claimable order_by select_where
    update_where publish_record find? exists_where
gives_up = refl

spent-Keyed : Keyed spent_db
spent-Keyed = (tt, tt)

spent_present : delivery 11 spent_db ≡ some spent
unfolding delivery find?
spent_present = refl

claim-gives_up_example :
    (d' : PlatformDelivery) × (delivery 11 spent_after ≡ some d') × GivenUp 150 spent d'
claim-gives_up_example =
    claim-gives_up 150 11 140 unlocked worker_2 30 spent_db none spent spent_after spent-Keyed
      spent_present refl (omega arith) refl (omega arith) refl gives_up
