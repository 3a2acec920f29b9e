-- ===== src/Logistics/Final.antt =====
-- What never changes back: a shipment that is delivered, and a return that is closed or rejected.
use mathlib.Core.Option.{some-injective}
use e_commerec_operations.Base.{
  Bool-cases, Option, arith, false, false≢true, find?, find?-test, find?-update_where, inl, inr,
  refl, some, subst, sym, true, ℕ, ◌∙◌, ◌≡◌, ◌≤◌, ◌⊎◌,
}
use e_commerec_operations.Logistics.Changes.{Moved, Transitioned}
use e_commerec_operations.Logistics.Returns.{ReturnTransition, moved_return}
use e_commerec_operations.Logistics.Runs.{moved-ids, moved_return-ids, return_id, shipment_id}
use e_commerec_operations.Logistics.Shipments.{EventCreate, moved_shipment}
use e_commerec_operations.Logistics.States.{
  ReturnStatus, ShipmentStatus, event_allowed, is_active_return, return_allowed,
}
use e_commerec_operations.Logistics.Tables.{
  LogisticsDb, ReturnCase, Shipment, is_return, is_shipment,
}

abbrev pub rank : ShipmentStatus → ℕ
rank ShipmentStatus.pending_dispatch = 0
rank ShipmentStatus.in_transit = 1
rank ShipmentStatus.delivered = 2

-- The order of the steps of a return; a rejection ends it.
abbrev pub return_rank : ReturnStatus → ℕ
return_rank ReturnStatus.requested = 0
return_rank ReturnStatus.approved = 1
return_rank ReturnStatus.in_transit = 2
return_rank ReturnStatus.received = 3
return_rank ReturnStatus.closed = 4
return_rank ReturnStatus.rejected = 4

abbrev pub ShipmentLater : Shipment → Shipment → Type 0
ShipmentLater s s' =
    (s'.id ≡ s.id)
    × (s'.order_id ≡ s.order_id)
    × (rank s.status ≤ rank s'.status)
    × (rank s.status ≡ 2 → s' ≡ s)

abbrev pub ReturnLater : ReturnCase → ReturnCase → Type 0
ReturnLater c c' =
    (c'.id ≡ c.id)
    × (c'.shipment_id ≡ c.shipment_id)
    × (return_rank c.status ≤ return_rank c'.status)
    × (c.updated_at ≤ c'.updated_at)
    × (is_active_return c.status ≡ false → c' ≡ c)

-- The steps that a return may take.
pub data NextReturn : ReturnStatus → ReturnStatus → Type 0 where
  approving : NextReturn ReturnStatus.requested ReturnStatus.approved
  rejecting : NextReturn ReturnStatus.requested ReturnStatus.rejected
  sending : NextReturn ReturnStatus.approved ReturnStatus.in_transit
  receiving : NextReturn ReturnStatus.in_transit ReturnStatus.received
  closing : NextReturn ReturnStatus.received ReturnStatus.closed

from_requested :
    (b : ReturnStatus)
    → return_allowed ReturnStatus.requested b ≡ true
    → NextReturn ReturnStatus.requested b
from_requested ReturnStatus.requested e = absurd (false≢true e)
from_requested ReturnStatus.approved e = approving
from_requested ReturnStatus.in_transit e = absurd (false≢true e)
from_requested ReturnStatus.received e = absurd (false≢true e)
from_requested ReturnStatus.closed e = absurd (false≢true e)
from_requested ReturnStatus.rejected e = rejecting

from_approved :
    (b : ReturnStatus)
    → return_allowed ReturnStatus.approved b ≡ true
    → NextReturn ReturnStatus.approved b
from_approved ReturnStatus.requested e = absurd (false≢true e)
from_approved ReturnStatus.approved e = absurd (false≢true e)
from_approved ReturnStatus.in_transit e = sending
from_approved ReturnStatus.received e = absurd (false≢true e)
from_approved ReturnStatus.closed e = absurd (false≢true e)
from_approved ReturnStatus.rejected e = absurd (false≢true e)

from_in_transit :
    (b : ReturnStatus)
    → return_allowed ReturnStatus.in_transit b ≡ true
    → NextReturn ReturnStatus.in_transit b
from_in_transit ReturnStatus.requested e = absurd (false≢true e)
from_in_transit ReturnStatus.approved e = absurd (false≢true e)
from_in_transit ReturnStatus.in_transit e = absurd (false≢true e)
from_in_transit ReturnStatus.received e = receiving
from_in_transit ReturnStatus.closed e = absurd (false≢true e)
from_in_transit ReturnStatus.rejected e = absurd (false≢true e)

from_received :
    (b : ReturnStatus)
    → return_allowed ReturnStatus.received b ≡ true
    → NextReturn ReturnStatus.received b
from_received ReturnStatus.requested e = absurd (false≢true e)
from_received ReturnStatus.approved e = absurd (false≢true e)
from_received ReturnStatus.in_transit e = absurd (false≢true e)
from_received ReturnStatus.received e = absurd (false≢true e)
from_received ReturnStatus.closed e = closing
from_received ReturnStatus.rejected e = absurd (false≢true e)

return_allowed-NextReturn : (a b : ReturnStatus) → return_allowed a b ≡ true → NextReturn a b
return_allowed-NextReturn ReturnStatus.requested b e = from_requested b e
return_allowed-NextReturn ReturnStatus.approved b e = from_approved b e
return_allowed-NextReturn ReturnStatus.in_transit b e = from_in_transit b e
return_allowed-NextReturn ReturnStatus.received b e = from_received b e
return_allowed-NextReturn ReturnStatus.closed b e = absurd (ground arith)
return_allowed-NextReturn ReturnStatus.rejected b e = absurd (ground arith)

-- In one step the row stays, or moves to the next state.
abbrev pub ReturnStep : ReturnCase → ReturnCase → Type 0
ReturnStep c c' = ReturnLater c c' × ((c' ≡ c) ⊎ NextReturn c.status c'.status)

pub ReturnStep-refl : (c : ReturnCase) → ReturnStep c c
ReturnStep-refl c = ((refl, refl, omega arith, omega arith, λ r. refl), inl refl)

moved-Later :
    (payload : EventCreate) (s : Shipment)
    → event_allowed s.status payload.action ≡ true
    → ShipmentLater s (moved_shipment payload s)
unfolding moved_shipment
moved-Later payload s allowed =
    (ground arith, ground arith, ground arith, λ r. absurd (ground arith))

moved_return-Later :
    (payload : ReturnTransition) (c : ReturnCase)
    → return_allowed c.status payload.status ≡ true
    → c.updated_at ≤ payload.occurred_at
    → ReturnStep c (moved_return payload c)
unfolding moved_return
moved_return-Later payload c allowed later = (
  (ground arith, ground arith, ground arith, ground arith, λ r. absurd (ground arith)),
  inr (
      subst (NextReturn c.status) (ground arith)
        (return_allowed-NextReturn c.status payload.status allowed)),
)

unfoldable pub shipment : ℕ → LogisticsDb → Option Shipment
shipment i db = find? (is_shipment i) db.shipments

unfoldable pub return_case : ℕ → LogisticsDb → Option ReturnCase
return_case i db = find? (is_return i) db.returns

pub shipment-same :
    (i : ℕ) (db db' : LogisticsDb) (s : Shipment)
    → shipment i db ≡ some s
    → db'.shipments ≡ db.shipments
    → (s' : Shipment) × (shipment i db' ≡ some s') × ShipmentLater s s'
unfolding shipment
shipment-same i db db' s e same = (s, rw same e, (refl, refl, omega arith, λ r. refl))

pub return-same :
    (i : ℕ) (db db' : LogisticsDb) (c : ReturnCase)
    → return_case i db ≡ some c
    → db'.returns ≡ db.returns
    → (c' : ReturnCase) × (return_case i db' ≡ some c') × ReturnStep c c'
unfolding return_case
return-same i db db' c e same = (c, rw same e, ReturnStep-refl c)

pub shipment-Moved :
    (i n : ℕ) (payload : EventCreate) (db db' : LogisticsDb) (s t : Shipment)
    → shipment i db ≡ some s
    → Moved n payload db db' t
    → (s' : Shipment) × (shipment i db' ≡ some s') × ShipmentLater s s'
unfolding shipment
shipment-Moved i n payload db db' s t e m =
    let now_is =
      find?-update_where shipment_id (is_shipment t.id) (moved_shipment payload)
        (λ x. (moved-ids payload x).0) i db.shipments e in
    let found = m.found in
    let at_i = find?-test (is_shipment i) db.shipments e in
    let at_n = find?-test (is_shipment n) db.shipments found in
    elim (Bool-cases (is_shipment t.id s)) [
      | inr other ↦ (s, rw (m.shipments, now_is, other), (refl, refl, omega arith, λ r. refl))
      | inl same ↦
          let is : i ≡ n = ground arith in
          let one : s ≡ t = some-injective _ _ (sym (rw is at e) ∙ found) in
          (
            moved_shipment payload s,
            rw (m.shipments, now_is, same),
            moved-Later payload s (rw one m.allowed),
          )
    ]

pub return-moved :
    (i now n : ℕ) (payload : ReturnTransition) (db db' : LogisticsDb) (c d : ReturnCase)
    → return_case i db ≡ some c
    → Transitioned now n payload db db' d
    → (c' : ReturnCase) × (return_case i db' ≡ some c') × ReturnStep c c'
unfolding return_case
return-moved i now n payload db db' c d e m =
    let now_is =
      find?-update_where return_id (is_return d.id) (moved_return payload)
        (λ x. (moved_return-ids payload x).0) i db.returns e in
    let found = m.found in
    let at_i = find?-test (is_return i) db.returns e in
    let at_n = find?-test (is_return n) db.returns found in
    elim (Bool-cases (is_return d.id c)) [
      | inr other ↦ (c, rw (m.returns, now_is, other), ReturnStep-refl c)
      | inl same ↦
          let is : i ≡ n = ground arith in
          let one : c ≡ d = some-injective _ _ (sym (rw is at e) ∙ found) in
          (
            moved_return payload c,
            rw (m.returns, now_is, same),
            moved_return-Later payload c (rw one m.allowed) (rw one m.later),
          )
    ]
