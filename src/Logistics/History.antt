-- ===== src/Logistics/History.antt =====
-- Any run of the logistics handlers: rows keep their place in the order of their states, and the trail
-- only grows.
use e_commerec_operations.Base.{
  All, All-find?, List, Option, arith, false, find?, ok, refl, some, ℕ, ◌∙◌, ◌∷◌, ◌≡◌, ◌≢◌,
}
use e_commerec_operations.Logistics.Changes.{
  create_return-Requested, create_shipment-Placed, record_event-Moved,
  transition_return-Transitioned,
}
use e_commerec_operations.Logistics.Dedupe.{SameFacts, patrol_as-done}
use e_commerec_operations.Logistics.Final.{
  ReturnLater, ReturnStep, ReturnStep-refl, ShipmentLater, return-moved, return-same, return_case,
  shipment, shipment-Moved, shipment-same,
}
use e_commerec_operations.Logistics.Patrol.{Evidence, patrol}
use e_commerec_operations.Logistics.Returns.{new_return}
use e_commerec_operations.Logistics.Runs.{shipment_id}
use e_commerec_operations.Logistics.Shipments.{new_shipment}
use e_commerec_operations.Logistics.Steps.{
  Reach, Step, elsewhere, handling, here, next, patrolling, placing, recording, requesting,
  transitioning,
}
use e_commerec_operations.Logistics.Tables.{
  LogisticsDb, ReturnCase, Shipment, is_return, is_shipment,
}
use e_commerec_operations.Logistics.TaskChanges.{
  patrol-patrol_as, patroller, update_exception-Handled,
}

shipment-placed :
    (i n : ℕ) (x : Shipment) (db db' : LogisticsDb) (s : Shipment)
    → x.id ≡ n
    → All (λ t. t.id ≢ n) db.shipments
    → shipment i db ≡ some s
    → db'.shipments ≡ x ∷ db.shipments
    → shipment i db' ≡ some s
unfolding shipment find?
shipment-placed i n x db db' s at_n fresh e is =
    let (other, at_i) = All-find? (λ t. t.id ≢ n) (is_shipment i) db.shipments e fresh in
    let apart : is_shipment i x ≡ false = ground arith in rw (is, apart) e

return-requested :
    (i n : ℕ) (x : ReturnCase) (db db' : LogisticsDb) (c : ReturnCase)
    → x.id ≡ n
    → All (λ t. t.id ≢ n) db.returns
    → return_case i db ≡ some c
    → db'.returns ≡ x ∷ db.returns
    → return_case i db' ≡ some c
unfolding return_case find?
return-requested i n x db db' c at_n fresh e is =
    let (other, at_i) = All-find? (λ t. t.id ≢ n) (is_return i) db.returns e fresh in
    let apart : is_return i x ≡ false = ground arith in rw (is, apart) e

module _ (digest : Evidence → ℕ) where
  patrol-SameFacts :
      (uuid : ℕ → ℕ) (now : ℕ) (actor_id : Option ℕ) (shipment_ids ids : List ℕ)
      (db db' : LogisticsDb)
      → patrol digest uuid now actor_id shipment_ids ids db ≡ ok db'
      → SameFacts digest db db'
  patrol-SameFacts uuid now actor_id shipment_ids ids db db' e =
      rw (patrol-patrol_as digest uuid now actor_id shipment_ids ids db db' e)
        (patrol_as-done digest uuid now (patroller actor_id db.directory) shipment_ids ids db).0

  Step-ShipmentLater :
      (i : ℕ) (db db' : LogisticsDb) (s : Shipment)
      → shipment i db ≡ some s
      → Step digest db db'
      → (s' : Shipment) × (shipment i db' ≡ some s') × ShipmentLater s s'
  Step-ShipmentLater i db db' s e (placing now actor_id n payload fresh h) =
      let (o, m) = create_shipment-Placed now actor_id n payload db db' h in
      (
        s,
        shipment-placed i n (new_shipment n payload o) db db' s refl fresh e m.shipments,
        (refl, refl, omega arith, λ r. refl),
      )
  Step-ShipmentLater i db db' s e (recording now actor_id n payload h) =
      let (t, m) = record_event-Moved now actor_id n payload db db' h in
      shipment-Moved i n payload db db' s t e m
  Step-ShipmentLater i db db' s e (requesting now actor_id n shipment_id due fresh h) =
      let (t, m) = create_return-Requested now actor_id n shipment_id due db db' h in
      shipment-same i db db' s e m.shipments
  Step-ShipmentLater i db db' s e (transitioning now actor_id n payload h) =
      let (c, m) = transition_return-Transitioned now actor_id n payload db db' h in
      shipment-same i db db' s e m.shipments
  Step-ShipmentLater i db db' s e (handling now actor_id n payload h) =
      let (t, m) = update_exception-Handled now actor_id n payload db db' h in
      shipment-same i db db' s e m.shipments
  Step-ShipmentLater i db db' s e (patrolling uuid now actor_id shipment_ids ids h) =
      shipment-same i db db' s e (patrol-SameFacts uuid now actor_id shipment_ids ids db db' h).1
  Step-ShipmentLater i db db' s e (elsewhere dir orders) = shipment-same i db db' s e refl

  Step-ReturnLater :
      (i : ℕ) (db db' : LogisticsDb) (c : ReturnCase)
      → return_case i db ≡ some c
      → Step digest db db'
      → (c' : ReturnCase) × (return_case i db' ≡ some c') × ReturnStep c c'
  Step-ReturnLater i db db' c e (placing now actor_id n payload fresh h) =
      let (o, m) = create_shipment-Placed now actor_id n payload db db' h in
      return-same i db db' c e m.returns
  Step-ReturnLater i db db' c e (recording now actor_id n payload h) =
      let (t, m) = record_event-Moved now actor_id n payload db db' h in
      return-same i db db' c e m.returns
  Step-ReturnLater i db db' c e (requesting now actor_id n shipment_id due fresh h) =
      let (t, m) = create_return-Requested now actor_id n shipment_id due db db' h in
      (
        c,
        return-requested i n (new_return now n due t) db db' c refl fresh e m.returns,
        ReturnStep-refl c,
      )
  Step-ReturnLater i db db' c e (transitioning now actor_id n payload h) =
      let (d, m) = transition_return-Transitioned now actor_id n payload db db' h in
      return-moved i now n payload db db' c d e m
  Step-ReturnLater i db db' c e (handling now actor_id n payload h) =
      let (t, m) = update_exception-Handled now actor_id n payload db db' h in
      return-same i db db' c e m.returns
  Step-ReturnLater i db db' c e (patrolling uuid now actor_id shipment_ids ids h) =
      return-same i db db' c e (patrol-SameFacts uuid now actor_id shipment_ids ids db db' h).2
  Step-ReturnLater i db db' c e (elsewhere dir orders) = return-same i db db' c e refl

  -- Between any two states of a run a shipment stays that of its order and never goes back in the
  -- order of its states, and once it is delivered nothing in its row changes.
  pub Reach-ShipmentLater :
      (i : ℕ) (db db' : LogisticsDb) (s : Shipment)
      → shipment i db ≡ some s
      → Reach digest db db'
      → (s' : Shipment) × (shipment i db' ≡ some s') × ShipmentLater s s'
  Reach-ShipmentLater i db db' s e here = (s, e, (refl, refl, omega arith, λ r. refl))
  Reach-ShipmentLater i db db' s e (next {db = mid} r st) =
      let (x, ex, (a, b, c, d)) = Reach-ShipmentLater i db mid s e r in
      let (y, ey, (a', b', c', d')) = Step-ShipmentLater i mid db' x ex st in
      (
        y,
        ey,
        (
          a' ∙ a,
          b' ∙ b,
          omega arith,
          λ done. let same : x ≡ s = d done in d' (rw same done) ∙ same,
        ),
      )

  Reach-kept :
      (i : ℕ) (db db' : LogisticsDb) (c : ReturnCase)
      → return_case i db ≡ some c
      → Reach digest db db'
      → (c' : ReturnCase) × (return_case i db' ≡ some c') × ReturnLater c c'
  Reach-kept i db db' c e here = (c, e, (ReturnStep-refl c).0)
  Reach-kept i db db' c e (next {db = mid} r st) =
      let (x, ex, (a, b, p, t, d)) = Reach-kept i db mid c e r in
      let (y, ey, ((a', b', p', t', d'), step)) = Step-ReturnLater i mid db' x ex st in
      (
        y,
        ey,
        (
          a' ∙ a,
          b' ∙ b,
          omega arith,
          omega arith,
          λ done. let same : x ≡ c = d done in d' (rw same done) ∙ same,
        ),
      )

  -- A return that is there at some state of a run is there at every later state, as the return of the
  -- same shipment, with times that never decrease, and nothing in its row changes once it is closed or
  -- rejected. Each step of the run leaves its row, or moves it from requested to approved or rejected,
  -- from approved to in transit, from there to received, or from received to closed.
  pub Reach-ReturnLater :
      (i : ℕ) (db mid db' : LogisticsDb) (c : ReturnCase)
      → return_case i db ≡ some c
      → Reach digest db mid
      → Step digest mid db'
      → (d d' : ReturnCase) × (return_case i mid ≡ some d)
        × (return_case i db' ≡ some d')
        × ReturnLater c d
        × ReturnStep d d'
  Reach-ReturnLater i db mid db' c e r st =
      let (d, found, later) = Reach-kept i db mid c e r in
      let (d', after, step) = Step-ReturnLater i mid db' d found st in
      (d, d', found, after, later, step)
