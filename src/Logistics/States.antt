-- ===== src/Logistics/States.antt =====
-- backend/logistics.py: the states of shipments, returns and exception tasks, and the actions on them.
use e_commerec_operations.Base.{Bool, false, true}

pub data ShipmentStatus : Type 0 where
  pending_dispatch in_transit delivered : ShipmentStatus

pub data EventAction : Type 0 where
  dispatch transit deliver : EventAction

pub data ReturnStatus : Type 0 where
  requested approved in_transit received closed rejected : ReturnStatus

pub data ExceptionStatus : Type 0 where
  open_ in_progress resolved : ExceptionStatus

pub data ExceptionKind : Type 0 where
  dispatch_overdue no_movement delivery_overdue return_overdue : ExceptionKind

pub data Severity : Type 0 where
  medium high : Severity

-- `assign` or `resolve`, the field `action` of a change of a task
pub data TaskAction : Type 0 where
  assign resolve : TaskAction

-- The `event_type` of a row of the trail.
pub data EventType : Type 0 where
  created : EventType
  moved : EventAction → EventType
  return_requested : EventType
  return_moved : ReturnStatus → EventType
  exception_changed : TaskAction → EventType
  exception_detected : EventType

-- the table `allowed` of `record_event`
abbrev pub event_allowed : ShipmentStatus → EventAction → Bool
event_allowed ShipmentStatus.pending_dispatch EventAction.dispatch = true
event_allowed ShipmentStatus.in_transit EventAction.transit = true
event_allowed ShipmentStatus.in_transit EventAction.deliver = true
event_allowed _ _ = false

-- the table `allowed` of `transition_return`
abbrev pub return_allowed : ReturnStatus → ReturnStatus → Bool
return_allowed ReturnStatus.requested ReturnStatus.approved = true
return_allowed ReturnStatus.requested ReturnStatus.rejected = true
return_allowed ReturnStatus.approved ReturnStatus.in_transit = true
return_allowed ReturnStatus.in_transit ReturnStatus.received = true
return_allowed ReturnStatus.received ReturnStatus.closed = true
return_allowed _ _ = false

-- The comparisons with one member.
abbrev pub is_pending_dispatch : ShipmentStatus → Bool
is_pending_dispatch ShipmentStatus.pending_dispatch = true
is_pending_dispatch _ = false

abbrev pub is_in_transit : ShipmentStatus → Bool
is_in_transit ShipmentStatus.in_transit = true
is_in_transit _ = false

abbrev pub is_sent_back : ReturnStatus → Bool
is_sent_back ReturnStatus.in_transit = true
is_sent_back _ = false

abbrev pub is_received : ReturnStatus → Bool
is_received ReturnStatus.received = true
is_received _ = false

abbrev pub is_closed : ReturnStatus → Bool
is_closed ReturnStatus.closed = true
is_closed _ = false

abbrev pub is_resolved : ExceptionStatus → Bool
is_resolved ExceptionStatus.resolved = true
is_resolved _ = false

-- `status in ACTIVE_RETURNS`
abbrev pub is_active_return : ReturnStatus → Bool
is_active_return ReturnStatus.closed = false
is_active_return ReturnStatus.rejected = false
is_active_return _ = true
