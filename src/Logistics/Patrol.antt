-- ===== src/Logistics/Patrol.antt =====
-- `issues` and `patrol` of backend/logistics.py: the rules over the recorded facts, and the tasks that
-- they open. `digest` is the hash of the evidence's text, `uuid` the keys that `uuid4` yields in turn.
use mathlib.Core.Option.{get_or}
use mathlib.Core.Option
use e_commerec_operations.Accounts.{
  Directory, HttpException, Store, User, enabled_store, http, store_visible,
}
use e_commerec_operations.Admin.{is_id}
use e_commerec_operations.Base.{
  Bool, List, Option, Result, [], err, exists_where, find?, holds, if◌then◌else◌, is_none, length,
  ltb, map, none, not, ok, order_by, select_where, some, ℕ, ◌&&◌, ◌*◌, ◌++◌, ◌+◌, ◌==◌, ◌>>=◌, ◌||◌,
  ◌∷◌,
}
use e_commerec_operations.Logistics.Returns.{is_return_of}
use e_commerec_operations.Logistics.States.{
  EventType, ExceptionKind, ExceptionStatus, Severity, is_active_return, is_in_transit,
  is_pending_dispatch, is_received,
}
use e_commerec_operations.Logistics.Tables.{
  ExceptionTask, LogisticsDb, ReturnCase, Shipment, add_event, logistics_actor,
}

pub record Issue : Type 0 where
  pub kind : ExceptionKind
  pub severity : Severity
  pub anchor : ℕ
  pub return_id : Option ℕ

abbrev pub hours : ℕ → ℕ
hours n = 3600 * n

abbrev issue : ExceptionKind → Severity → ℕ → Option ℕ → Issue
issue kind severity anchor return_id = record {
  kind = kind;
  severity = severity;
  anchor = anchor;
  return_id = return_id;
}

unfoldable pub dispatch_issues : ℕ → Shipment → List Issue
dispatch_issues now s =
    if is_pending_dispatch s.status && ltb s.dispatch_due_at now
    then issue ExceptionKind.dispatch_overdue Severity.high s.dispatch_due_at none ∷ []
    else []

unfoldable pub delivery_issues : ℕ → Shipment → List Issue
delivery_issues now s =
    if is_in_transit s.status && ltb s.expected_delivery_at now
    then issue ExceptionKind.delivery_overdue Severity.high s.expected_delivery_at none ∷ []
    else []

-- `last_event_at or dispatched_at`
abbrev pub last_seen : Shipment → Option ℕ
last_seen s = elim s.last_event_at [ none ↦ s.dispatched_at | some t ↦ some t ]

-- `anchor < now - timedelta(hours=48)`
unfoldable pub stalled_issues : ℕ → Option ℕ → List Issue
stalled_issues now none = []
stalled_issues now (some anchor) =
    if ltb (anchor + hours 48) now
    then issue ExceptionKind.no_movement Severity.medium anchor none ∷ []
    else []

unfoldable pub movement_issues : ℕ → Shipment → List Issue
unfolding stalled_issues
movement_issues now s = if is_in_transit s.status then stalled_issues now (last_seen s) else []

-- A parcel that has arrived is to be checked within a day. A row in this state has its time of
-- arrival, by the constraint of the table.
abbrev pub return_anchor : ReturnCase → ℕ
return_anchor c =
    if is_received c.status then get_or c.received_at 0 + hours 24 else c.expected_return_at

unfoldable pub return_issues : ℕ → Option ReturnCase → List Issue
return_issues now none = []
return_issues now (some c) =
    if is_active_return c.status && ltb (return_anchor c) now
    then issue ExceptionKind.return_overdue Severity.high (return_anchor c) (some c.id) ∷ []
    else []

unfoldable pub issues : Shipment → Option ReturnCase → ℕ → List Issue
unfolding dispatch_issues delivery_issues movement_issues return_issues
issues s case now =
    dispatch_issues now s
    ++ delivery_issues now s
    ++ movement_issues now s
    ++ return_issues now case

-- What the hash is taken of.
pub record Evidence : Type 0 where
  pub shipment_id : ℕ
  pub kind : ExceptionKind
  pub return_id : Option ℕ
  pub anchor : ℕ

abbrev pub evidence : Shipment → Issue → Evidence
evidence s i = record {
  shipment_id = s.id;
  kind = i.kind;
  return_id = i.return_id;
  anchor = i.anchor;
}

abbrev pub has_key : ℕ → ExceptionTask → Bool
has_key key t = t.dedupe_key == key

pub record Counts : Type 0 where
  pub created : ℕ
  pub existing : ℕ

unfoldable pub record_run : ℕ → Option ℕ → List ℕ → ℕ → Counts × LogisticsDb → LogisticsDb
record_run now actor_id ids scanned (n, db) = record db {
  runs =
      record {
        created_by = actor_id;
        scope_store_ids = ids;
        started_at = now;
        scanned_shipments = scanned;
        created_exceptions = n.created;
        existing_exceptions = n.existing;
      }
      ∷ db.runs;
}

abbrev pub in_ids : List ℕ → ℕ → Bool
in_ids ids n = exists_where (is_id n) ids

-- the rows that are still in an enabled store of the scope, and visible to the actor if there is one
abbrev pub is_patrolled : Option User → Directory → List ℕ → List ℕ → Shipment → Bool
is_patrolled actor dir shipment_ids ids s =
    in_ids shipment_ids s.id
    && in_ids ids s.store_id
    && not (is_none (enabled_store s.store_id dir))
    && (is_none actor || holds (λ u. store_visible u s.store_id dir) actor)

-- `scope_ids` without a store: the enabled stores that the actor sees
unfoldable pub visible_store_ids : User → Directory → List ℕ
visible_store_ids actor dir =
    order_by (λ n. (n, n))
      (map (λ (s : Store). s.id)
        (select_where (λ (s : Store). s.enabled && store_visible actor s.id dir) dir.stores))

module _ (digest : Evidence → ℕ) (uuid : ℕ → ℕ) where
  abbrev pub new_task : ℕ → ℕ → Shipment → Issue → ExceptionTask
  new_task now task_id s i = record {
    id = task_id;
    shipment_id = s.id;
    return_id = i.return_id;
    store_id = s.store_id;
    kind = i.kind;
    severity = i.severity;
    status = ExceptionStatus.open_;
    dedupe_key = digest (evidence s i);
    assignee_id = none;
    created_at = now;
    resolved_at = none;
    resolution = "";
  }

  -- `INSERT … ON CONFLICT (dedupe_key) DO NOTHING`, and the trail of what it inserted
  unfoldable pub report :
      ℕ → Option ℕ → Shipment → Issue → Counts × LogisticsDb → Counts × LogisticsDb
  report now actor_id s i (n, db) =
      let t = new_task now (uuid (n.created + n.existing)) s i in
      if exists_where (has_key t.dedupe_key) db.tasks
      then (record n { existing = n.existing + 1 }, db)
      else (
        record n { created = n.created + 1 },
        add_event s.id i.return_id actor_id EventType.exception_detected now ""
            (record db { tasks = t ∷ db.tasks }),
      )

  unfoldable pub report_all :
      ℕ → Option ℕ → Shipment → List Issue → Counts × LogisticsDb → Counts × LogisticsDb
  unfolding report
  report_all now actor_id s [] acc = acc
  report_all now actor_id s (i ∷ is) acc =
      report_all now actor_id s is (report now actor_id s i acc)

  -- the loop over the shipments; `cases` are the returns as they were read before it, at most one of
  -- a shipment
  unfoldable pub patrol_rows :
      ℕ → Option ℕ → List ReturnCase → List Shipment → Counts × LogisticsDb → Counts × LogisticsDb
  unfolding report_all
  patrol_rows now actor_id cases [] acc = acc
  patrol_rows now actor_id cases (s ∷ rows) acc =
      patrol_rows now actor_id cases rows
        (report_all now actor_id s (issues s (find? (is_return_of s.id) cases) now) acc)

  unfoldable pub patrol_as : ℕ → Option User → List ℕ → List ℕ → LogisticsDb → LogisticsDb
  unfolding patrol_rows record_run
  patrol_as now actor shipment_ids ids db =
      let rows =
        order_by (λ (s : Shipment). (s.id, s.id))
          (select_where (is_patrolled actor db.directory shipment_ids ids) db.shipments) in
      let actor_id = Option.map (λ (u : User). u.id) actor in
      record_run now actor_id ids (length rows)
        (patrol_rows now actor_id db.returns rows (record { created = 0; existing = 0 }, db))

  unfoldable pub patrol :
      ℕ → Option ℕ → List ℕ → List ℕ → LogisticsDb → Result HttpException LogisticsDb
  unfolding patrol_as visible_store_ids
  patrol now none shipment_ids ids db = ok (patrol_as now none shipment_ids ids db)
  patrol now (some actor_id) shipment_ids ids db =
      logistics_actor actor_id db.directory >>= λ actor.
      if exists_where (λ n. not (in_ids (visible_store_ids actor db.directory) n)) ids
      then err (http 403)
      else ok (patrol_as now (some actor) shipment_ids ids db)
