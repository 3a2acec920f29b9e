-- ===== src/Logistics/Changes.antt =====
-- What the handlers of shipments and returns do when they succeed.
use e_commerec_operations.Base.{
  Option-cases, Result-cases, arith, exists_where, false, find?, inl, inr, ok, some, true,
  update_where, ℕ, ◌<◌, ◌∷◌, ◌≡◌, ◌≤◌,
}
use e_commerec_operations.Logistics.Returns.{
  ReturnTransition, check_parcel, create_return, is_return_of, moved_return, new_return,
  scoped_return, transition_return,
}
use e_commerec_operations.Logistics.Shipments.{
  EventCreate, ShipmentCreate, conflicts, create_shipment, moved_shipment, new_shipment,
  record_event,
}
use e_commerec_operations.Logistics.States.{event_allowed, return_allowed}
use e_commerec_operations.Logistics.Tables.{
  LogisticsDb, Order, ReturnCase, Shipment, add_event, before, check_time, is_order, is_return,
  is_shipment, logistics_actor, scoped_shipment, shipment_row,
}

pub scoped-found :
    (actor_id n : ℕ) (db : LogisticsDb) (s : Shipment) (o : Order)
    → scoped_shipment actor_id n db ≡ ok (s, o)
    → find? (is_shipment n) db.shipments ≡ some s
unfolding scoped_shipment shipment_row
scoped-found actor_id n db s o e = elim (Result-cases (logistics_actor actor_id db.directory)) [
  | inl (x, refused) ↦ absurd (ground arith)
  | inr (actor, is_actor) ↦ elim (Option-cases (find? (is_shipment n) db.shipments)) [
    | inl missing ↦ absurd (ground arith)
    | inr (t, found) ↦ elim (Option-cases (find? (is_order t.order_id) db.orders)) [
      | inl missing ↦ absurd (ground arith)
      | inr (p, at_order) ↦ ground arith
    ]
  ]
]

pub record Moved (n : ℕ) (payload : EventCreate) (db db' : LogisticsDb) (s : Shipment)
    : Type 0 where
  pub found : find? (is_shipment n) db.shipments ≡ some s
  pub allowed : event_allowed s.status payload.action ≡ true
  pub later : before s.last_event_at payload.occurred_at ≡ true
  pub shipments :
      db'.shipments ≡ update_where (is_shipment s.id) (moved_shipment payload) db.shipments
  pub returns : db'.returns ≡ db.returns
  pub tasks : db'.tasks ≡ db.tasks

pub record_event-Moved :
    (now actor_id n : ℕ) (payload : EventCreate) (db db' : LogisticsDb)
    → record_event now actor_id n payload db ≡ ok db'
    → (s : Shipment) × Moved n payload db db' s
unfolding record_event check_time add_event
record_event-Moved now actor_id n payload db db' e =
    elim (Result-cases (scoped_shipment actor_id n db)) [
      | inl (x, refused) ↦ absurd (ground arith)
      | inr ((s, o), row) ↦
          let found = scoped-found actor_id n db s o row in
          (
            s,
            record {
              found = found;
              allowed = ground arith;
              later = ground arith;
              shipments = ground arith;
              returns = ground arith;
              tasks = ground arith;
            },
          )
    ]

pub record Placed (n : ℕ) (payload : ShipmentCreate) (db db' : LogisticsDb) (o : Order)
    : Type 0 where
  pub due : payload.dispatch_due_at ≤ payload.expected_delivery_at
  pub apart : exists_where (conflicts (new_shipment n payload o)) db.shipments ≡ false
  pub shipments : db'.shipments ≡ new_shipment n payload o ∷ db.shipments
  pub returns : db'.returns ≡ db.returns
  pub tasks : db'.tasks ≡ db.tasks

pub create_shipment-Placed :
    (now actor_id n : ℕ) (payload : ShipmentCreate) (db db' : LogisticsDb)
    → create_shipment now actor_id n payload db ≡ ok db'
    → (o : Order) × Placed n payload db db' o
unfolding create_shipment add_event
create_shipment-Placed now actor_id n payload db db' e =
    elim (Result-cases (logistics_actor actor_id db.directory)) [
      | inl (x, refused) ↦ absurd (ground arith)
      | inr (actor, is_actor) ↦ elim (Option-cases (find? (is_order payload.order_id) db.orders)) [
        | inl missing ↦ absurd (ground arith)
        | inr (o, found) ↦ (
          o,
          record {
            due = ground arith;
            apart = ground arith;
            shipments = ground arith;
            returns = ground arith;
            tasks = ground arith;
          },
        )
      ]
    ]

pub record Requested (now n due : ℕ) (db db' : LogisticsDb) (s : Shipment) : Type 0 where
  pub ahead : now < due
  pub only : exists_where (is_return_of s.id) db.returns ≡ false
  pub shipments : db'.shipments ≡ db.shipments
  pub returns : db'.returns ≡ new_return now n due s ∷ db.returns
  pub tasks : db'.tasks ≡ db.tasks

pub create_return-Requested :
    (now actor_id n shipment_id due : ℕ) (db db' : LogisticsDb)
    → create_return now actor_id n shipment_id due db ≡ ok db'
    → (s : Shipment) × Requested now n due db db' s
unfolding create_return add_event
create_return-Requested now actor_id n shipment_id due db db' e =
    elim (Result-cases (scoped_shipment actor_id shipment_id db)) [
      | inl (x, refused) ↦ absurd (ground arith)
      | inr ((s, o), row) ↦ (
        s,
        record {
          ahead = ground arith;
          only = ground arith;
          shipments = ground arith;
          returns = ground arith;
          tasks = ground arith;
        },
      )
    ]

pub scoped_return-found :
    (actor_id n : ℕ) (db : LogisticsDb) (c : ReturnCase) (s : Shipment)
    → scoped_return actor_id n db ≡ ok (c, s)
    → find? (is_return n) db.returns ≡ some c
unfolding scoped_return
scoped_return-found actor_id n db c s e =
    elim (Result-cases (logistics_actor actor_id db.directory)) [
      | inl (x, refused) ↦ absurd (ground arith)
      | inr (actor, is_actor) ↦ elim (Option-cases (find? (is_return n) db.returns)) [
        | inl missing ↦ absurd (ground arith)
        | inr (d, found) ↦ elim (Result-cases (scoped_shipment actor_id d.shipment_id db)) [
          | inl (x, refused) ↦ absurd (ground arith)
          | inr ((t, o), row) ↦ ground arith
        ]
      ]
    ]

pub record Transitioned (now n : ℕ) (payload : ReturnTransition) (db db' : LogisticsDb)
    (c : ReturnCase) : Type 0 where
  pub found : find? (is_return n) db.returns ≡ some c
  pub allowed : return_allowed c.status payload.status ≡ true
  pub later : c.updated_at ≤ payload.occurred_at
  pub shipments : db'.shipments ≡ db.shipments
  pub returns : db'.returns ≡ update_where (is_return c.id) (moved_return payload) db.returns
  pub tasks : db'.tasks ≡ db.tasks

pub transition_return-Transitioned :
    (now actor_id n : ℕ) (payload : ReturnTransition) (db db' : LogisticsDb)
    → transition_return now actor_id n payload db ≡ ok db'
    → (c : ReturnCase) × Transitioned now n payload db db' c
unfolding transition_return check_time add_event
transition_return-Transitioned now actor_id n payload db db' e =
    elim (Result-cases (scoped_return actor_id n db)) [
      | inl (x, refused) ↦ absurd (ground arith)
      | inr ((c, s), row) ↦
          let found = scoped_return-found actor_id n db c s row in
          elim (Result-cases (check_parcel payload)) [
            | inl (x, refused) ↦ absurd (ground arith)
            | inr (u, fits) ↦ (
              c,
              record {
                found = found;
                allowed = ground arith;
                later = ground arith;
                shipments = ground arith;
                returns = ground arith;
                tasks = ground arith;
              },
            )
          ]
    ]
