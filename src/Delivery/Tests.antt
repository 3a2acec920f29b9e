-- ===== src/Delivery/Tests.antt =====
-- Two versions of one product in the delivery queue: the first is claimed while the second waits.
use e_commerec_operations.Accounts.{Directory, User}
use e_commerec_operations.Base.{
  Bool, Rows, String, [], arith, eq_iff, exists_where, false, false≢true, find?, ok, order_by, refl,
  select_where, some, true, update_where, ℕ, ◌∷◌, ◌≡◌, ◌≢◌,
}
use e_commerec_operations.Common.{UserDepartment, UserRole, UserStatus}
use e_commerec_operations.Delivery.Claim.{
  claim_next_platform_delivery, claimed_delivery, fail_exhausted, next_claimable,
}
use e_commerec_operations.Delivery.Constraints.{IsSound, Reach-IsSound}
use e_commerec_operations.Delivery.Leases.{Claimed, GaveUp, Leased, claim-Claimed}
use e_commerec_operations.Delivery.Moves.{Keyed}
use e_commerec_operations.Delivery.Order.{InOrder}
use e_commerec_operations.Delivery.Progress.{Later, Reach-Later, delivery}
use e_commerec_operations.Delivery.Steps.{
  IsNext, Reach, claimed, empty_db, enqueue, enqueued, here, new_delivery, next,
}
use e_commerec_operations.Delivery.Tables.{Db, PlatformDelivery, PublishRecord, publish_record}
use e_commerec_operations.Delivery.Versions.{Reach-InOrder}

abbrev approver : User
approver = record {
  id = 1;
  role = UserRole.supervisor;
  status = UserStatus.active;
  department = UserDepartment.operations;
}

abbrev pub shop : Directory
shop = record {
  users = approver ∷ [];
  stores = record { id = 5; enabled = true } ∷ [];
  scopes = record { user_id = 1; store_id = 5 } ∷ [];
}

abbrev version : ℕ → PublishRecord
version n = record {
  id = n;
  product_id = 7;
  store_id = 5;
  approved_by = 1;
  published_product_version = n;
}

abbrev pub unlocked : ℕ → Bool
unlocked _ = false

abbrev pub queued : Db
queued = enqueue 101 12 (version 3) (enqueue 100 11 (version 2) (empty_db shop))

abbrev pub held : PlatformDelivery
held = claimed_delivery 110 "worker-1" 30 (new_delivery 100 11 (version 2))

abbrev pub claimed_db : Db
claimed_db = record queued { deliveries = new_delivery 101 12 (version 3) ∷ held ∷ [] }

-- the state in which the third lease has run out
abbrev pub spent : PlatformDelivery
spent = record held { attempt_count = 3 }

abbrev pub spent_db : Db
spent_db = record claimed_db { deliveries = spent ∷ [] }

claims : claim_next_platform_delivery 110 unlocked "worker-1" 30 queued ≡ ok (some held, claimed_db)
unfolding claim_next_platform_delivery fail_exhausted enqueue next_claimable order_by select_where
    update_where publish_record find? exists_where
claims = refl

first_IsNext : IsNext 11 (version 2) (empty_db shop)
first_IsNext = record { new_record = tt; new_id = tt; newest = tt }

second_IsNext : IsNext 12 (version 3) (enqueue 100 11 (version 2) (empty_db shop))
unfolding enqueue
second_IsNext = record {
  new_record = (ground arith, tt);
  new_id = ((ground arith, ground arith), tt);
  newest = ((λ same. ground arith), tt);
}

pub run : Reach (empty_db shop) claimed_db
run =
    next
      (next (next here (enqueued 100 11 (version 2) first_IsNext))
        (enqueued 101 12 (version 3) second_IsNext))
      (claimed 110 unlocked "worker-1" 30 (some held) claims)

Reach-InOrder_example : InOrder claimed_db
Reach-InOrder_example = Reach-InOrder shop claimed_db run

Reach-IsSound_example : IsSound claimed_db
Reach-IsSound_example = Reach-IsSound shop claimed_db run

pub keyed : Keyed claimed_db
keyed = (Reach-IsSound shop claimed_db run).0

pub present : delivery 11 claimed_db ≡ some held
unfolding delivery find?
present = refl

pub lease : Leased 120 "worker-1" held
lease = record { processing = refl; holder = refl; until = (140, refl, ground arith) }

abbrev pub worker_2 : String
worker_2 = "worker-2"

pub other_worker : worker_2 ≢ "worker-1"
other_worker e = false≢true ((eq_iff worker_2 "worker-1").1 e)

Reach-Later_example :
    Keyed claimed_db × ((d : PlatformDelivery) × (delivery 11 claimed_db ≡ some d) × Later held d)
Reach-Later_example = Reach-Later claimed_db 11 held keyed present {db' = claimed_db} here

queued-Keyed : Keyed queued
unfolding enqueue
queued-Keyed = (((λ e. absurd (ground arith)), tt), (tt, tt))

claim-Claimed_example :
    (mid : Db) × Rows (GaveUp 110 unlocked) queued.deliveries mid.deliveries
    × (mid.records ≡ queued.records)
    × Claimed 110 unlocked "worker-1" 30 mid (some held) claimed_db
claim-Claimed_example =
    claim-Claimed 110 unlocked "worker-1" 30 queued (some held) claimed_db queued-Keyed claims
