-- ===== src/Logistics/Dedupe.antt =====
-- A patrol reports a fact once: the tasks that it finds under the key of the evidence are left alone.
use mathlib.Core.Option
use e_commerec_operations.Accounts.{User}
use e_commerec_operations.Base.{
  All, All-map, Bool, Bool-cases, List, Option, [], ap, arith, exists_where, find?, inl, inr, ok,
  order_by, refl, select_where, true, ℕ, ◌∙◌, ◌∷◌, ◌≡◌,
}
use e_commerec_operations.Logistics.Patrol.{
  Counts, Evidence, Issue, evidence, has_key, is_patrolled, issues, patrol, patrol_as, patrol_rows,
  record_run, report, report_all,
}
use e_commerec_operations.Logistics.Returns.{is_return_of}
use e_commerec_operations.Logistics.Tables.{
  ExceptionTask, LogisticsDb, ReturnCase, Shipment, add_event,
}
use e_commerec_operations.Logistics.TaskChanges.{patrol-patrol_as, patrol_rows-keeps, patroller}

module _ (digest : Evidence → ℕ) where
  abbrev pub Known : Shipment → LogisticsDb → Issue → Type 0
  Known s db i = exists_where (has_key (digest (evidence s i))) db.tasks ≡ true

  abbrev pub issues_of : ℕ → List ReturnCase → Shipment → List Issue
  issues_of now cases s = issues s (find? (is_return_of s.id) cases) now

  -- every issue of the rows has its task
  abbrev pub AllKnown : ℕ → List ReturnCase → List Shipment → LogisticsDb → Type 0
  AllKnown now cases rows db = All (λ s. All (Known s db) (issues_of now cases s)) rows

  module _ (uuid : ℕ → ℕ) (now : ℕ) (actor_id : Option ℕ) where
    report-keeps :
        (q : ExceptionTask → Bool) (s : Shipment) (i : Issue) (acc : Counts × LogisticsDb)
        → exists_where q acc.1.tasks ≡ true
        → exists_where q (report digest uuid now actor_id s i acc).1.tasks ≡ true
    unfolding report add_event exists_where
    report-keeps q s i (n, db) h = ground arith

    report-reports :
        (s : Shipment) (i : Issue) (acc : Counts × LogisticsDb)
        → Known s (report digest uuid now actor_id s i acc).1 i
    unfolding report add_event exists_where
    report-reports s i (n, db) =
        elim (Bool-cases (exists_where (has_key (digest (evidence s i))) db.tasks)) [
          | inl known ↦ rw known known
          | inr new ↦ rw new (ground arith)
        ]

    report-idle :
        (s : Shipment) (i : Issue) (acc : Counts × LogisticsDb)
        → Known s acc.1 i
        → (report digest uuid now actor_id s i acc).1 ≡ acc.1
    unfolding report
    report-idle s i (n, db) known = rw known

    report_all-keeps :
        (q : ExceptionTask → Bool) (s : Shipment) (is : List Issue) (acc : Counts × LogisticsDb)
        → exists_where q acc.1.tasks ≡ true
        → exists_where q (report_all digest uuid now actor_id s is acc).1.tasks ≡ true
    unfolding report_all
    report_all-keeps q s [] acc h = h
    report_all-keeps q s (i ∷ is) acc h =
        report_all-keeps q s is (report digest uuid now actor_id s i acc) (report-keeps q s i acc h)

    report_all-reports :
        (s : Shipment) (is : List Issue) (acc : Counts × LogisticsDb)
        → All (Known s (report_all digest uuid now actor_id s is acc).1) is
    unfolding report_all
    report_all-reports s [] acc = tt
    report_all-reports s (i ∷ is) acc =
        let acc' = report digest uuid now actor_id s i acc in
        (
          report_all-keeps (has_key (digest (evidence s i))) s is acc' (report-reports s i acc),
          report_all-reports s is acc',
        )

    report_all-idle :
        (s : Shipment) (is : List Issue) (acc : Counts × LogisticsDb)
        → All (Known s acc.1) is
        → (report_all digest uuid now actor_id s is acc).1 ≡ acc.1
    unfolding report_all
    report_all-idle s [] acc h = refl
    report_all-idle s (i ∷ is) acc (known, h) =
        let acc' = report digest uuid now actor_id s i acc in
        let same : acc'.1 ≡ acc.1 = report-idle s i acc known in
        report_all-idle s is acc' (rw same h) ∙ same

    patrol_rows-keep :
        (q : ExceptionTask → Bool) (cases : List ReturnCase) (rows : List Shipment)
        (acc : Counts × LogisticsDb)
        → exists_where q acc.1.tasks ≡ true
        → exists_where q (patrol_rows digest uuid now actor_id cases rows acc).1.tasks ≡ true
    unfolding patrol_rows
    patrol_rows-keep q cases [] acc h = h
    patrol_rows-keep q cases (s ∷ rows) acc h =
        let is = issues_of now cases s in
        patrol_rows-keep q cases rows (report_all digest uuid now actor_id s is acc)
          (report_all-keeps q s is acc h)

    pub patrol_rows-reports :
        (cases : List ReturnCase) (rows : List Shipment) (acc : Counts × LogisticsDb)
        → AllKnown now cases rows (patrol_rows digest uuid now actor_id cases rows acc).1
    unfolding patrol_rows
    patrol_rows-reports cases [] acc = tt
    patrol_rows-reports cases (s ∷ rows) acc =
        let is = issues_of now cases s in
        let acc' = report_all digest uuid now actor_id s is acc in
        (
          All-map (Known s acc'.1)
              (Known s (patrol_rows digest uuid now actor_id cases rows acc').1)
              (λ i k. patrol_rows-keep (has_key (digest (evidence s i))) cases rows acc' k) is
              (report_all-reports s is acc),
          patrol_rows-reports cases rows acc',
        )

    pub patrol_rows-idle :
        (cases : List ReturnCase) (rows : List Shipment) (acc : Counts × LogisticsDb)
        → AllKnown now cases rows acc.1
        → (patrol_rows digest uuid now actor_id cases rows acc).1 ≡ acc.1
    unfolding patrol_rows
    patrol_rows-idle cases [] acc h = refl
    patrol_rows-idle cases (s ∷ rows) acc (known, h) =
        let is = issues_of now cases s in
        let acc' = report_all digest uuid now actor_id s is acc in
        let same : acc'.1 ≡ acc.1 = report_all-idle s is acc known in
        patrol_rows-idle cases rows acc' (rw same h) ∙ same

  -- what a patrol leaves as it is
  abbrev pub SameFacts : LogisticsDb → LogisticsDb → Type 0
  SameFacts db x =
      (x.directory ≡ db.directory) × (x.shipments ≡ db.shipments) × (x.returns ≡ db.returns)

  report-SameFacts :
      (uuid : ℕ → ℕ) (now : ℕ) (actor_id : Option ℕ) (db : LogisticsDb) (s : Shipment) (i : Issue)
      (acc : Counts × LogisticsDb)
      → SameFacts db acc.1
      → SameFacts db (report digest uuid now actor_id s i acc).1
  unfolding report add_event
  report-SameFacts uuid now actor_id db s i (n, x) (d, t, r) =
      (ground arith, ground arith, ground arith)

  abbrev pub start_of : LogisticsDb → Counts × LogisticsDb
  start_of db = (record { created = 0; existing = 0 }, db)

  abbrev pub patrolled : Option User → List ℕ → List ℕ → LogisticsDb → List Shipment
  patrolled actor shipment_ids ids db =
      order_by (λ (s : Shipment). (s.id, s.id))
        (select_where (is_patrolled actor db.directory shipment_ids ids) db.shipments)

  patrol_as-tables :
      (uuid : ℕ → ℕ) (now : ℕ) (actor : Option User) (shipment_ids ids : List ℕ) (db : LogisticsDb)
      → let done =
          (patrol_rows digest uuid now
            (Option.map (λ (u : User). u.id) actor)
            db.returns
            (patrolled actor shipment_ids ids db)
            (start_of db)).1 in
        let db' = patrol_as digest uuid now actor shipment_ids ids db in
        SameFacts done db' × (db'.tasks ≡ done.tasks) × (db'.events ≡ done.events)
  unfolding patrol_as record_run
  patrol_as-tables uuid now actor shipment_ids ids db = ((refl, refl, refl), refl, refl)

  -- what a patrol has done when it returns
  pub patrol_as-done :
      (uuid : ℕ → ℕ) (now : ℕ) (actor : Option User) (shipment_ids ids : List ℕ) (db : LogisticsDb)
      → let db' = patrol_as digest uuid now actor shipment_ids ids db in
        SameFacts db db' × AllKnown now db.returns (patrolled actor shipment_ids ids db) db'
  patrol_as-done uuid now actor shipment_ids ids db =
      let actor_id = Option.map (λ (u : User). u.id) actor in
      let rows = patrolled actor shipment_ids ids db in
      let ((d, t, r), tasks, events) = patrol_as-tables uuid now actor shipment_ids ids db in
      let (d', t', r') =
        patrol_rows-keeps digest uuid now actor_id (SameFacts db)
          (report-SameFacts uuid now actor_id db) db.returns rows (start_of db)
          (refl, refl, refl) in
      let known = patrol_rows-reports uuid now actor_id db.returns rows (start_of db) in
      ((d ∙ d', t ∙ t', r ∙ r'), rw tasks known)

  -- a patrol over known facts
  patrol_as-idle :
      (uuid : ℕ → ℕ) (now : ℕ) (actor : Option User) (shipment_ids ids : List ℕ) (db : LogisticsDb)
      → AllKnown now db.returns (patrolled actor shipment_ids ids db) db
      → let db' = patrol_as digest uuid now actor shipment_ids ids db in
        (db'.tasks ≡ db.tasks) × (db'.events ≡ db.events)
  patrol_as-idle uuid now actor shipment_ids ids db known =
      let actor_id = Option.map (λ (u : User). u.id) actor in
      let rows = patrolled actor shipment_ids ids db in
      let (facts, tasks, events) = patrol_as-tables uuid now actor shipment_ids ids db in
      let idle = patrol_rows-idle uuid now actor_id db.returns rows (start_of db) known in
      (tasks ∙ ap (λ x. x.tasks) idle, events ∙ ap (λ x. x.events) idle)

  -- A patrol that is repeated at the same time over the same rows, with nothing between, opens no
  -- task and adds nothing to the trail.
  pub patrol-repeats :
      (uuid uuid' : ℕ → ℕ) (now : ℕ) (actor_id : Option ℕ) (shipment_ids ids : List ℕ)
      (db db₁ db₂ : LogisticsDb)
      → patrol digest uuid now actor_id shipment_ids ids db ≡ ok db₁
      → patrol digest uuid' now actor_id shipment_ids ids db₁ ≡ ok db₂
      → (db₂.tasks ≡ db₁.tasks) × (db₂.events ≡ db₁.events)
  patrol-repeats uuid uuid' now actor_id shipment_ids ids db db₁ db₂ e₁ e₂ =
      let actor = patroller actor_id db.directory in
      let is₁ = patrol-patrol_as digest uuid now actor_id shipment_ids ids db db₁ e₁ in
      let is₂ = patrol-patrol_as digest uuid' now actor_id shipment_ids ids db₁ db₂ e₂ in
      let done : SameFacts db db₁
          × AllKnown now db.returns (patrolled actor shipment_ids ids db) db₁ =
        rw is₁ (patrol_as-done uuid now actor shipment_ids ids db) in
      let ((d, t, r), known) = done in
      let known₁ : AllKnown now db₁.returns
          (patrolled (patroller actor_id db₁.directory) shipment_ids ids db₁) db₁ =
        rw (d, t, r) known in
      rw is₂
        (patrol_as-idle uuid' now (patroller actor_id db₁.directory) shipment_ids ids db₁ known₁)
