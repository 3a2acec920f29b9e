-- ===== src/Logistics/Runs.antt =====
-- What holds of the logistics tables in every run.
use e_commerec_operations.Base.{
  All, All-map, IsKeyed, IsTable, IsTable-insert, IsTable-update, arith, exists_where-All, false,
  update-IsKeyed, ℕ, ◌≡◌, ◌≢◌,
}
use e_commerec_operations.Logistics.Changes.{Moved, Placed, Requested, Transitioned}
use e_commerec_operations.Logistics.Returns.{
  ReturnTransition, is_return_of, moved_return, new_return,
}
use e_commerec_operations.Logistics.Shipments.{
  EventCreate, ShipmentCreate, conflicts, moved_shipment, new_shipment,
}
use e_commerec_operations.Logistics.Sound.{
  ReturnSound, ShipmentSound, TaskSound, moved-ReturnSound, moved-ShipmentSound, return_checks,
  shipment_checks, tracked,
}
use e_commerec_operations.Logistics.Tables.{
  LogisticsDb, Order, ReturnCase, Shipment, is_return, is_shipment,
}

abbrev pub shipment_id : Shipment → ℕ
shipment_id s = s.id

abbrev pub return_id : ReturnCase → ℕ
return_id c = c.id

-- The constraints of the three tables, with the keys and the UNIQUE columns `order_id` and
-- `shipment_id`.
pub record IsConsistent (db : LogisticsDb) : Type 0 where
  pub shipments : IsTable shipment_id ShipmentSound db.shipments
  pub one_shipment : IsKeyed (λ (s : Shipment). s.order_id) db.shipments
  pub returns : IsTable return_id ReturnSound db.returns
  pub one_return : IsKeyed (λ (c : ReturnCase). c.shipment_id) db.returns
  pub tasks : All TaskSound db.tasks

pub moved-ids :
    (payload : EventCreate) (s : Shipment)
    → ((moved_shipment payload s).id ≡ s.id) × ((moved_shipment payload s).order_id ≡ s.order_id)
unfolding moved_shipment
moved-ids payload s = (ground arith, ground arith)

pub moved_return-ids :
    (payload : ReturnTransition) (c : ReturnCase)
    → ((moved_return payload c).id ≡ c.id) × ((moved_return payload c).shipment_id ≡ c.shipment_id)
unfolding moved_return
moved_return-ids payload c = (ground arith, ground arith)

pub Placed-IsConsistent :
    (n : ℕ) (payload : ShipmentCreate) (db db' : LogisticsDb) (o : Order)
    → All (λ s. s.id ≢ n) db.shipments
    → Placed n payload db db' o
    → IsConsistent db
    → IsConsistent db'
unfolding shipment_checks tracked
Placed-IsConsistent n payload db db' o fresh m h =
    let s = new_shipment n payload o in
    let due = m.due in
    let sound : ShipmentSound s = (ground arith, ground arith) in
    let apart =
      All-map (λ t. conflicts s t ≡ false) (λ t. t.order_id ≢ s.order_id) (λ t f same. ground arith)
        db.shipments (exists_where-All (conflicts s) db.shipments m.apart) in
    record {
      shipments =
          rw m.shipments
            (IsTable-insert shipment_id ShipmentSound s db.shipments fresh sound h.shipments);
      one_shipment = rw m.shipments (apart, h.one_shipment);
      returns = rw m.returns h.returns;
      one_return = rw m.returns h.one_return;
      tasks = rw m.tasks h.tasks;
    }

pub Moved-IsConsistent :
    (n : ℕ) (payload : EventCreate) (db db' : LogisticsDb) (s : Shipment)
    → Moved n payload db db' s
    → IsConsistent db
    → IsConsistent db'
Moved-IsConsistent n payload db db' s m h = record {
  shipments = rw m.shipments (
      IsTable-update shipment_id ShipmentSound (moved_shipment payload)
        (λ x. (moved-ids payload x).0) n db.shipments m.found
        (moved-ShipmentSound payload s m.allowed m.later) h.shipments);
  one_shipment = rw m.shipments (
      update-IsKeyed (λ (x : Shipment). x.order_id) (is_shipment s.id) (moved_shipment payload)
        (λ x. (moved-ids payload x).1) db.shipments h.one_shipment);
  returns = rw m.returns h.returns;
  one_return = rw m.returns h.one_return;
  tasks = rw m.tasks h.tasks;
}

pub Requested-IsConsistent :
    (now n due : ℕ) (db db' : LogisticsDb) (s : Shipment)
    → All (λ c. c.id ≢ n) db.returns
    → Requested now n due db db' s
    → IsConsistent db
    → IsConsistent db'
unfolding return_checks
Requested-IsConsistent now n due db db' s fresh m h =
    let c = new_return now n due s in
    let ahead = m.ahead in
    let sound : ReturnSound c = (ground arith, ground arith, ground arith) in
    let only =
      All-map (λ d. is_return_of s.id d ≡ false) (λ d. d.shipment_id ≢ s.id)
        (λ d f same. ground arith) db.returns
        (exists_where-All (is_return_of s.id) db.returns m.only) in
    record {
      shipments = rw m.shipments h.shipments;
      one_shipment = rw m.shipments h.one_shipment;
      returns =
          rw m.returns (IsTable-insert return_id ReturnSound c db.returns fresh sound h.returns);
      one_return = rw m.returns (only, h.one_return);
      tasks = rw m.tasks h.tasks;
    }

pub Transitioned-IsConsistent :
    (now n : ℕ) (payload : ReturnTransition) (db db' : LogisticsDb) (c : ReturnCase)
    → Transitioned now n payload db db' c
    → IsConsistent db
    → IsConsistent db'
Transitioned-IsConsistent now n payload db db' c m h = record {
  shipments = rw m.shipments h.shipments;
  one_shipment = rw m.shipments h.one_shipment;
  returns = rw m.returns (
      IsTable-update return_id ReturnSound (moved_return payload)
        (λ x. (moved_return-ids payload x).0) n db.returns m.found
        (moved-ReturnSound payload c m.allowed m.later) h.returns);
  one_return = rw m.returns (
      update-IsKeyed (λ (x : ReturnCase). x.shipment_id) (is_return c.id) (moved_return payload)
        (λ x. (moved_return-ids payload x).1) db.returns h.one_return);
  tasks = rw m.tasks h.tasks;
}
