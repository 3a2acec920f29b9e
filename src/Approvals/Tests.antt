-- ===== src/Approvals/Tests.antt =====
-- One proposal that an operator submits and a supervisor approves.
use e_commerec_operations.Accounts.{
  Directory, User, enabled_store, get_user, has_department_access, in_scope,
}
use e_commerec_operations.Approvals.Actions.{Call, Library, perform_action}
use e_commerec_operations.Approvals.Context.{Context, authorized_context}
use e_commerec_operations.Approvals.Decisions.{ApprovalReach-IsDecidedOnce, IsDecidedOnce}
use e_commerec_operations.Approvals.Output.{OptimizationOutput}
use e_commerec_operations.Approvals.Publish.{Approval, approve_proposal, new_publication}
use e_commerec_operations.Approvals.Queue.{ApprovalReach-Reach}
use e_commerec_operations.Approvals.Release.{Release}
use e_commerec_operations.Approvals.Repeats.{History, perform-repeated}
use e_commerec_operations.Approvals.Steps.{
  ApprovalReach, IsFresh, and_then, approved, performed, started,
}
use e_commerec_operations.Approvals.Tables.{ApprovalAction, ApprovalActionType, ApprovalDb, Product}
use e_commerec_operations.Approvals.Text.{stripped_length}
use e_commerec_operations.Base.{
  [], exists_where, false, find?, map, none, ok, refl, select_where, some, true, update_where, ℕ,
  ◌∷◌, ◌≡◌,
}
use e_commerec_operations.Common.{
  UserDepartment, UserRole, UserStatus, WorkflowQuality, WorkflowStatus, WorkflowType,
}
use e_commerec_operations.Delivery.Steps.{Reach, empty_db}
use e_commerec_operations.Delivery.Tables.{PublishRecord}

abbrev author : User
author = record {
  id = 1;
  role = UserRole.operator;
  status = UserStatus.active;
  department = UserDepartment.operations;
}

abbrev judge : User
judge = record {
  id = 2;
  role = UserRole.supervisor;
  status = UserStatus.active;
  department = UserDepartment.operations;
}

abbrev team : Directory
team = record {
  users = author ∷ judge ∷ [];
  stores = record { id = 5; enabled = true } ∷ [];
  scopes = record { user_id = 1; store_id = 5 } ∷ record { user_id = 2; store_id = 5 } ∷ [];
}

abbrev lamp : Product
lamp = record {
  id = 7;
  store_id = 5;
  title = "Lamp";
  category = "home";
  selling_points = [];
  description = "";
  search_keywords = [];
  attributes = ("color", "red") ∷ [];
  current_version = 3;
}

abbrev better_lamp : OptimizationOutput
better_lamp = record {
  title = "Desk lamp";
  selling_points = "bright" ∷ [];
  description = record { heading = "Use"; body = "At a desk." } ∷ [];
  keywords = "lamp" ∷ [];
  attribute_completions =
      record { target_attribute = "color"; current_value = some "red"; suggested_value = "blue" }
      ∷ record { target_attribute = "size"; current_value = none; suggested_value = "small" }
      ∷ [];
  price_suggestions = [];
  sku_suggestions = [];
}

-- hashes that keep their argument, and validators that know one text
abbrev plain_library : Library
plain_library = record {
  key_hash = λ key. key;
  request_hash = λ type actor proposal request version. "request";
  publish_hash = λ proposal revision. "publication";
  parse_citations = λ citations. some [];
  parse_output = λ output. some better_lamp;
}

abbrev drafted : ApprovalDb
drafted = record {
  queue = empty_db team;
  knowledge = record { directory = team; documents = []; versions = []; chunks = []; audit = [] };
  products = lamp ∷ [];
  skus = [];
  runs =
      record {
        id = 40;
        workflow_type = WorkflowType.optimization;
        store_id = 5;
        input_proposal_id = some 30;
        input_product_id = some 7;
        input_store_id = some 5;
        status = WorkflowStatus.draft_ready;
        quality_status = WorkflowQuality.normal;
        current_step = none;
        error_code = none;
      }
      ∷ [];
  proposals =
      record {
        id = 30;
        store_id = 5;
        product_id = 7;
        optimization_run_id = 40;
        base_product_version = 3;
        current_revision_id = some 31;
        submitted_revision_id = none;
        active_manual_review_run_id = none;
      }
      ∷ [];
  revisions =
      record {
        id = 31;
        proposal_id = 30;
        iteration = some 0;
        base_product_version = 3;
        citations = "[]";
        proposal_output = "{}";
      }
      ∷ [];
  reviews =
      record {
        proposal_revision_id = 31;
        proposal_id = 30;
        iteration = some 0;
        citations = "[]";
        passed = true;
        quality_status = WorkflowQuality.normal;
        error_code = none;
      }
      ∷ [];
  actions = [];
  publications = [];
  events = [];
}

abbrev submission : Call
submission = record {
  action_id = 50;
  actor_id = 1;
  proposal_id = 30;
  request = record { revision_id = 31; comment = none };
  idempotency_key = some "k1";
}

abbrev approval : Approval
approval = record {
  call = record submission { action_id = 51; actor_id = 2 };
  record_id = 60;
  delivery_id = 70;
  now = 100;
}

abbrev submitted_db : ApprovalDb
submitted_db = (perform_action plain_library ApprovalActionType.submit submission drafted).1

abbrev approved_db : ApprovalDb
approved_db = (approve_proposal plain_library approval submitted_db).1

approval-IsFresh : IsFresh approval submitted_db
unfolding perform_action stripped_length exists_where authorized_context get_user find?
    has_department_access enabled_store in_scope
approval-IsFresh = record { new_record = tt; new_delivery_id = tt }

approval_run : ApprovalReach plain_library drafted approved_db
approval_run =
    and_then (and_then started (performed ApprovalActionType.submit submission))
      (approved approval approval-IsFresh)

ApprovalReach-Reach_example : Reach (empty_db team) approved_db.queue
ApprovalReach-Reach_example =
    ApprovalReach-Reach plain_library drafted team approved_db refl approval_run

ApprovalReach-IsDecidedOnce_example : IsDecidedOnce approved_db
ApprovalReach-IsDecidedOnce_example =
    ApprovalReach-IsDecidedOnce plain_library drafted approved_db refl refl approval_run

abbrev version_of : PublishRecord → ℕ × ℕ
version_of r = (r.product_id, r.published_product_version)

-- The fourth version of the lamp waits in the queue.
lamp_is_queued : map version_of approved_db.queue.records ≡ (7, 4) ∷ []
unfolding approve_proposal stripped_length exists_where authorized_context get_user find?
    perform_action has_department_access enabled_store in_scope update_where new_publication
lamp_is_queued = refl

submitted_row : ApprovalAction
submitted_row = record {
  id = 50;
  proposal_id = 30;
  proposal_revision_id = 31;
  store_id = 5;
  actor_id = 1;
  actor_role = UserRole.operator;
  action = ApprovalActionType.submit;
  comment = none;
  idempotency_key_hash = "k1";
  request_hash = "request";
}

submission_returns :
    perform_action plain_library ApprovalActionType.submit submission drafted
    ≡ (ok (submitted_row, true), submitted_db)
unfolding perform_action submitted_row stripped_length exists_where authorized_context get_user
    find? has_department_access enabled_store in_scope
submission_returns = refl

none_before :
    (c : Context)
    → authorized_context 1 30 31 drafted ≡ ok c
    → History ApprovalActionType.submit 50 c drafted
unfolding select_where
none_before c e = (refl, refl)

perform-repeated_example :
    perform_action plain_library ApprovalActionType.submit
      (record submission { action_id = 52 })
      submitted_db
    ≡ (ok (submitted_row, false), submitted_db)
perform-repeated_example =
    perform-repeated plain_library ApprovalActionType.submit submission 52 drafted submitted_row
      submitted_db submission_returns tt none_before
