-- ===== src/Logistics/Sound.antt =====
-- The CHECK and UNIQUE constraints of backend/logistics_models.py, and that the handlers keep them: the
-- database never refuses what they write.
use e_commerec_operations.Base.{
  Bool, Option, arith, count, false, holds, is_none, leb, none, not, some, true, ℕ, ◌&&◌, ◌||◌, ◌≡◌,
  ◌≤◌,
}
use e_commerec_operations.Logistics.Returns.{ReturnTransition, moved_return}
use e_commerec_operations.Logistics.Shipments.{EventCreate, moved_shipment}
use e_commerec_operations.Logistics.States.{
  ShipmentStatus, event_allowed, is_closed, is_received, is_resolved, return_allowed,
}
use e_commerec_operations.Logistics.Tables.{ExceptionTask, ReturnCase, Shipment, before}

-- `ck_logistics_shipment_progress`
unfoldable pub progress_check : ShipmentStatus → Option ℕ → Option ℕ → Bool
progress_check ShipmentStatus.pending_dispatch none none = true
progress_check ShipmentStatus.in_transit (some dispatched_at) none = true
progress_check ShipmentStatus.delivered (some dispatched_at) (some delivered_at) =
    leb dispatched_at delivered_at
progress_check _ _ _ = false

-- with `ck_logistics_shipment_schedule`
unfoldable pub shipment_checks : Shipment → Bool
unfolding progress_check
shipment_checks s =
    leb s.dispatch_due_at s.expected_delivery_at
    && progress_check s.status s.dispatched_at s.delivered_at

-- The last event is not before the dispatch, and there is none before it.
unfoldable pub tracked : Option ℕ → Option ℕ → Bool
tracked none none = true
tracked (some dispatched_at) (some last_event_at) = leb dispatched_at last_event_at
tracked _ _ = false

abbrev pub ShipmentSound : Shipment → Type 0
ShipmentSound s = (shipment_checks s ≡ true) × (tracked s.dispatched_at s.last_event_at ≡ true)

pub moved-ShipmentSound :
    (payload : EventCreate) (s : Shipment)
    → event_allowed s.status payload.action ≡ true
    → before s.last_event_at payload.occurred_at ≡ true
    → ShipmentSound s
    → ShipmentSound (moved_shipment payload s)
unfolding shipment_checks tracked moved_shipment
moved-ShipmentSound payload s allowed later (checks, track) = (ground arith, ground arith)

abbrev after : ℕ → Option ℕ → Bool
after t u = is_none u || holds (λ v. leb t v) u

-- `ck_logistics_return_schedule`, `…_received`, `…_received_state` and `…_closed`
unfoldable pub return_checks : ReturnCase → Bool
return_checks c =
    leb c.requested_at c.expected_return_at
    && after c.requested_at c.received_at
    && (not (is_received c.status || is_closed c.status) || not (is_none c.received_at))
    && (not (is_closed c.status) || holds (λ r. holds (λ z. leb r z) c.closed_at) c.received_at)

abbrev pub ReturnSound : ReturnCase → Type 0
ReturnSound c =
    (return_checks c ≡ true)
    × (leb c.requested_at c.updated_at ≡ true)
    × (before c.received_at c.updated_at ≡ true)

pub moved-ReturnSound :
    (payload : ReturnTransition) (c : ReturnCase)
    → return_allowed c.status payload.status ≡ true
    → c.updated_at ≤ payload.occurred_at
    → ReturnSound c
    → ReturnSound (moved_return payload c)
unfolding return_checks moved_return
moved-ReturnSound payload c allowed later (checks, since, until) =
    (ground arith, ground arith, ground arith)

-- `ck_logistics_exception_resolution`
unfoldable pub task_checks : ExceptionTask → Bool
task_checks t =
    not (is_resolved t.status) || not (is_none t.resolved_at) && leb 1 (count t.resolution)

abbrev pub TaskSound : ExceptionTask → Type 0
TaskSound t = task_checks t ≡ true
