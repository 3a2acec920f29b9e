-- ===== src/Delivery/Leases.antt =====
-- What a claim hands out, and what a lease keeps from the other workers.
use e_commerec_operations.Base.{
  ==_iff, All, All-find?, All-map, All-update_where, Bool, Bool-cases, Determines,
  IsKeyed-Determines, IsKeyed-found, List, NotAfter, Option, Option-cases, Result, Rows, String, [],
  ap, arith, earlier, eq_iff, err, false, false≢true, find?, find?-none, find?-write, head?-none,
  head?-order_by, inl, inr, none, ok, refl, select_where, select_where-All, some, sym, true,
  update_where, ℕ, ◌+◌, ◌<◌, ◌==◌, ◌∙◌, ◌∷◌, ◌≡◌, ◌≢◌, ◌⊎◌,
}
use e_commerec_operations.Delivery.Claim.{
  claim_next_platform_delivery, claimable, claimed_delivery, fail_exhausted, is_eligible,
  is_exhausted, next_claimable, queue_key, take_claim,
}
use e_commerec_operations.Delivery.Finish.{
  complete_platform_delivery, fail_platform_delivery, return_platform_delivery_for_retry,
}
use e_commerec_operations.Delivery.Moves.{Keyed, delivery_id}
use e_commerec_operations.Delivery.Progress.{delivery}
use e_commerec_operations.Delivery.Ready.{
  Exhausted, Exhausted-is_exhausted, GivenUp, Ready, Ready-claimable, claimable-Ready, given-up,
  is_exhausted-Exhausted,
}
use e_commerec_operations.Delivery.Respects.{exhausted-Keyed, next_claimable-All}
use e_commerec_operations.Delivery.Tables.{
  Db, PlatformDelivery, ValueError, failed_delivery, is_owned, is_processing, owned_delivery,
  store_delivery,
}

abbrev NotAfterQueued : PlatformDelivery → PlatformDelivery → Type 0
NotAfterQueued = NotAfter queue_key

-- A lease on `d` that has not run out.
pub record Leased (now : ℕ) (owner : String) (d : PlatformDelivery) : Type 0 where
  pub processing : is_processing d.status ≡ true
  pub holder : d.lease_owner ≡ some owner
  pub until : (t : ℕ) × (d.lease_expires_at ≡ some t) × (now < t)

-- Each exhausted delivery is given up, and no other row changes.
abbrev pub GaveUp : ℕ → (ℕ → Bool) → PlatformDelivery → PlatformDelivery → Type 0
GaveUp now locked d d' =
    (d'.id ≡ d.id)
    × ((Exhausted now locked d × GivenUp now d d') ⊎ ((Exhausted now locked d → ⊥) × (d' ≡ d)))

-- The delivery as the worker gets it.
pub record Taken (now : ℕ) (owner : String) (seconds : ℕ) (d d' : PlatformDelivery) : Type 0 where
  pub same_id : d'.id ≡ d.id
  pub publication : d'.publish_record_id ≡ d.publish_record_id
  pub lease : Leased now owner d'
  pub until : d'.lease_expires_at ≡ some (now + seconds)
  pub attempts : d'.attempt_count ≡ d.attempt_count + 1

-- What a claim did, from the tables as it found them without the exhausted deliveries.
abbrev pub Claimed : ℕ → (ℕ → Bool) → String → ℕ → Db → Option PlatformDelivery → Db → Type 0
Claimed now locked owner seconds db none db' =
    All (λ o. Ready now locked db o → ⊥) db.deliveries × (db' ≡ db)
Claimed now locked owner seconds db (some d') db' =
    (d : PlatformDelivery) × (delivery d.id db ≡ some d)
    × Ready now locked db d
    × All (λ o. Ready now locked db o → earlier (queue_key o) (queue_key d) ≡ false) db.deliveries
    × Taken now owner seconds d d'
    × (delivery d.id db' ≡ some d')

next_claimable-first :
    (now : ℕ) (locked : ℕ → Bool) (db : Db) {d : PlatformDelivery}
    → next_claimable now locked db ≡ some d
    → All (λ o. claimable now locked db o ≡ true → NotAfterQueued d o) db.deliveries
unfolding next_claimable
next_claimable-first now locked db {d} e =
    select_where-All (NotAfterQueued d) (claimable now locked db) db.deliveries
      (head?-order_by queue_key (select_where (claimable now locked db) db.deliveries) e)

next_claimable-none :
    (now : ℕ) (locked : ℕ → Bool) (db : Db)
    → next_claimable now locked db ≡ none
    → All (λ o. claimable now locked db o ≡ false) db.deliveries
unfolding next_claimable
next_claimable-none now locked db e = head?-none queue_key (claimable now locked db) db.deliveries e

next_claimable-row :
    (now : ℕ) (locked : ℕ → Bool) (db : Db) {d : PlatformDelivery}
    → Keyed db
    → next_claimable now locked db ≡ some d
    → (delivery d.id db ≡ some d) × (claimable now locked db d ≡ true)
unfolding delivery
next_claimable-row now locked db {d} keyed chosen =
    next_claimable-All (λ x. find? (λ z. delivery_id z == delivery_id x) db.deliveries ≡ some x) now
      locked db chosen (IsKeyed-found delivery_id db.deliveries keyed)

take_claim-Claimed :
    (now : ℕ) (locked : ℕ → Bool) (owner : String) (seconds : ℕ) (db : Db)
    (found : Option PlatformDelivery) (db' : Db)
    → Keyed db
    → 0 < seconds
    → take_claim now owner seconds db (next_claimable now locked db) ≡ ok (found, db')
    → Claimed now locked owner seconds db found db'
unfolding take_claim store_delivery delivery
take_claim-Claimed now locked owner seconds db found db' keyed lasting e =
    elim (Option-cases (next_claimable now locked db)) [
      | inl nothing ↦
          let is : found ≡ none = ground arith in
          let stays : db' ≡ db = ground arith in
          rw (is, stays)
            (
              All-map (λ o. claimable now locked db o ≡ false) (λ o. Ready now locked db o → ⊥)
                  (λ o f x. false≢true (sym f ∙ Ready-claimable now locked db o x)) db.deliveries
                  (next_claimable-none now locked db nothing),
              refl,
            )
      | inr (d, chosen) ↦
          let d' = claimed_delivery now owner seconds d in
          let is : found ≡ some d' = ground arith in
          let stays : db' ≡ store_delivery d' [] db = ground arith in
          let (row, test) = next_claimable-row now locked db keyed chosen in
          rw (is, stays)
            (
              d,
              row,
              claimable-Ready now locked db d test,
              All-map (λ o. claimable now locked db o ≡ true → NotAfterQueued d o)
                  (λ o. Ready now locked db o → NotAfterQueued d o)
                  (λ o k x. k (Ready-claimable now locked db o x)) db.deliveries
                  (next_claimable-first now locked db chosen),
              record {
                same_id = refl;
                publication = refl;
                lease = record {
                  processing = refl;
                  holder = refl;
                  until = (now + seconds, refl, omega arith);
                };
                until = refl;
                attempts = refl;
              },
              find?-write delivery_id d.id d' refl db.deliveries row,
            )
    ]

GaveUp-Rows :
    (now : ℕ) (locked : ℕ → Bool) (rows : List PlatformDelivery)
    → Rows (GaveUp now locked) rows (
        update_where
          (is_exhausted now locked)
          (failed_delivery now "PLATFORM_DELIVERY_FAILED")
          rows)
unfolding update_where
GaveUp-Rows now locked [] = tt
GaveUp-Rows now locked (d ∷ ds) = elim (Bool-cases (is_exhausted now locked d)) [
  | inl t ↦ rw t (
    (refl, inl (is_exhausted-Exhausted now locked d t, given-up now d)),
    GaveUp-Rows now locked ds,
  )
  | inr f ↦ rw f (
    (refl, inr ((λ x. false≢true (sym f ∙ Exhausted-is_exhausted now locked d x)), refl)),
    GaveUp-Rows now locked ds,
  )
]

-- In tables with distinct keys, a claim first gives up the deliveries in progress that are unlocked and
-- whose third lease has run out, and changes no other. Of what is left it takes a delivery that is due,
-- unlocked, has had fewer than three attempts and has no unfinished delivery of an older version of the
-- product before it, such that no other of this kind is older; it stores and returns it in progress, with
-- one attempt more and a lease of the asked length for the worker. It returns none, and writes nothing
-- more, just when there is no such delivery.
pub claim-Claimed :
    (now : ℕ) (locked : ℕ → Bool) (owner : String) (seconds : ℕ) (db : Db)
    (found : Option PlatformDelivery) (db' : Db)
    → Keyed db
    → claim_next_platform_delivery now locked owner seconds db ≡ ok (found, db')
    → (mid : Db) × Rows (GaveUp now locked) db.deliveries mid.deliveries
      × (mid.records ≡ db.records)
      × Claimed now locked owner seconds mid found db'
unfolding claim_next_platform_delivery fail_exhausted
claim-Claimed now locked owner seconds db found db' keyed e =
    let mid = fail_exhausted now locked db in
    (
      mid,
      GaveUp-Rows now locked db.deliveries,
      refl,
      take_claim-Claimed now locked owner seconds mid found db'
          (exhausted-Keyed now locked db keyed) (ground arith) (ground arith),
    )

-- A call that writes nothing: it is refused, or answers `False`.
abbrev pub IsIgnored : Db → Result ValueError (Bool × Db) → Type 0
IsIgnored db (err e) = Unit
IsIgnored db (ok (done, db')) = (done ≡ false) × (db' ≡ db)

-- the row that a key determines is owned by its holder alone, and is neither due nor exhausted
not_owned_row :
    (now : ℕ) (owner other : String) (d x : PlatformDelivery)
    → Leased now owner d
    → other ≢ owner
    → Determines delivery_id d x
    → is_owned now d.id other x ≡ false
not_owned_row now owner other d x lease ne det = elim (Bool-cases (x.id == d.id)) [
  | inl t ↦
      let holder : x.lease_owner ≡ some owner = rw (det ((==_iff x.id d.id).0 t)) lease.holder in
      ground (arith, eq_iff owner other)
  | inr f ↦ rw f
]

not_exhausted_row :
    (now : ℕ) (locked : ℕ → Bool) (owner : String) (d : PlatformDelivery)
    → Leased now owner d
    → is_exhausted now locked d ≡ false
not_exhausted_row now locked owner d lease = let (t, e, later) = lease.until in ground arith

not_claimable_row :
    (now : ℕ) (locked : ℕ → Bool) (owner : String) (db : Db) (d : PlatformDelivery)
    → Leased now owner d
    → claimable now locked db d ≡ false
unfolding claimable
not_claimable_row now locked owner db d lease =
    let (t, e, later) = lease.until in
    let p = lease.processing in let due : is_eligible now d ≡ false = ground arith in rw due

chosen_row :
    (now : ℕ) (locked : ℕ → Bool) (owner : String) (seconds : ℕ) (db : Db) (e : PlatformDelivery)
    (db' : Db)
    → claim_next_platform_delivery now locked owner seconds db ≡ ok (some e, db')
    → (x : PlatformDelivery) × (next_claimable now locked (fail_exhausted now locked db) ≡ some x)
      × (e ≡ claimed_delivery now owner seconds x)
unfolding claim_next_platform_delivery
chosen_row now locked owner seconds db e db' h =
    elim (Option-cases (next_claimable now locked (fail_exhausted now locked db))) [
      | inl nothing ↦ absurd (ground arith)
      | inr (x, chosen) ↦ (x, chosen, ground arith)
    ]

module _ (now : ℕ) (owner other : String) (db : Db) (d : PlatformDelivery) (keyed : Keyed db)
    (present : delivery d.id db ≡ some d) (lease : Leased now owner d) where
  determined : All (Determines delivery_id d) db.deliveries
  unfolding delivery
  determined =
      (All-find? (λ x. All (Determines delivery_id x) db.deliveries) (λ z. delivery_id z == d.id)
        db.deliveries present (IsKeyed-Determines delivery_id db.deliveries keyed)).0

  -- no row of this key is owned by the other worker
  not_owned : other ≢ owner → owned_delivery now d.id other db ≡ none
  unfolding owned_delivery
  not_owned ne = find?-none (is_owned now d.id other) db.deliveries (
      All-map (Determines delivery_id d) (λ x. is_owned now d.id other x ≡ false)
        (λ x. not_owned_row now owner other d x lease ne) db.deliveries determined)

  -- it is still the row of its key when the exhausted ones have been given up
  determined_mid :
      (locked : ℕ → Bool) → All (Determines delivery_id d) (fail_exhausted now locked db).deliveries
  unfolding fail_exhausted
  determined_mid locked =
      let give_up = failed_delivery now "PLATFORM_DELIVERY_FAILED" in
      All-update_where (Determines delivery_id d) (is_exhausted now locked) give_up db.deliveries
        (λ x det ex same.
          absurd
            (false≢true (sym (not_exhausted_row now locked owner d lease) ∙ rw (det same) at ex)))
        determined

  -- In tables with distinct keys, while a lease on a delivery runs no other worker can end it: each
  -- of the three calls either is refused for its arguments or returns `False`, and in both cases
  -- nothing is written.
  pub lease_excludes :
      (operation code : String) (after : Option ℕ)
      → other ≢ owner
      → IsIgnored db (complete_platform_delivery now d.id other operation db)
        × IsIgnored db (return_platform_delivery_for_retry now d.id other code after db)
        × IsIgnored db (fail_platform_delivery now d.id other code db)
  unfolding complete_platform_delivery return_platform_delivery_for_retry fail_platform_delivery
  lease_excludes operation code after ne =
      let k = not_owned ne in (ground arith, ground arith, ground arith)

  -- In tables with distinct keys, while a lease on a delivery runs, whatever a worker claims is
  -- another delivery.
  pub claim_excludes :
      (locked : ℕ → Bool) (seconds : ℕ) (e : PlatformDelivery) (db' : Db)
      → claim_next_platform_delivery now locked other seconds db ≡ ok (some e, db')
      → e.id ≢ d.id
  claim_excludes locked seconds e db' h same =
      let mid = fail_exhausted now locked db in
      let (x, chosen, is) = chosen_row now locked other seconds db e db' h in
      let (det, test) =
        next_claimable-All (Determines delivery_id d) now locked mid chosen
          (determined_mid locked) in
      let at_d : x ≡ d = det (sym (ap delivery_id is) ∙ same) in
      false≢true (sym (not_claimable_row now locked owner mid d lease) ∙ rw at_d at test)
