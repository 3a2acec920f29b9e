-- ===== src/Knowledge/Tests.antt =====
-- One document with two versions: the second takes the place of the first.
use e_commerec_operations.Accounts.{Directory, User, get_user, has_department_access}
use e_commerec_operations.Base.{
  All, Bool, [], arith, err, false, find?, inr, map, none, ok, order_by, refl, select_where, some,
  true, update_where, ℕ, ◌∷◌, ◌≡◌, ◌≢◌,
}
use e_commerec_operations.Common.{KnowledgeVersionStatus, UserDepartment, UserRole, UserStatus}
use e_commerec_operations.Knowledge.Activate.{activate_knowledge_version}
use e_commerec_operations.Knowledge.Claim.{claim_next_knowledge_version, next_version}
use e_commerec_operations.Knowledge.Consistent.{IsCoherent, Progress}
use e_commerec_operations.Knowledge.Create.{
  Upload, create_document_version, document_by_key, last_number, version_by_sha,
}
use e_commerec_operations.Knowledge.Repeats.{create-repeated, sent_again}
use e_commerec_operations.Knowledge.Runs.{Reach-Advances, Reach-IsCoherent}
use e_commerec_operations.Knowledge.Steps.{
  Reach, activated_version, claimed, here, next, no_documents, uploaded,
}
use e_commerec_operations.Knowledge.Tables.{
  KnowledgeDb, KnowledgeDocument, KnowledgeVersion, get_document, get_version, knowledge_actor,
  owned_version, uploader_authorized,
}

abbrev keeper : User
keeper = record {
  id = 1;
  role = UserRole.admin;
  status = UserStatus.active;
  department = UserDepartment.operations;
}

abbrev office : Directory
office = record { users = keeper ∷ []; stores = []; scopes = [] }

abbrev rules : Upload
rules = record {
  document_id = 10;
  version_id = 20;
  created_by = 1;
  name = some "Listing rules";
  category = some "rules";
  sha256 = "aa";
  idempotency_key = some "k1";
}

abbrev newer_rules : Upload
newer_rules = record rules {
  version_id = 21;
  name = none;
  category = none;
  sha256 = "bb";
  idempotency_key = none;
}

-- The state after a successful upload, or the one before.
abbrev uploaded_to : ℕ → Upload → KnowledgeDb → KnowledgeDb
uploaded_to now up db = elim (create_document_version now up db) [ ok r ↦ r.1 | err e ↦ db ]

abbrev no_locks : ℕ → Bool
no_locks n = false

abbrev first_stored : KnowledgeDb
first_stored = uploaded_to 100 rules (no_documents office)

abbrev first_claimed : KnowledgeDb
first_claimed = (claim_next_knowledge_version 110 no_locks "w1" 30 first_stored).1

abbrev first_active : KnowledgeDb
first_active = (activate_knowledge_version 120 20 "w1" first_claimed).1

abbrev second_stored : KnowledgeDb
second_stored = uploaded_to 130 newer_rules first_active

abbrev second_claimed : KnowledgeDb
second_claimed = (claim_next_knowledge_version 140 no_locks "w1" 30 second_stored).1

abbrev second_active : KnowledgeDb
second_active = (activate_knowledge_version 150 21 "w1" second_claimed).1

first_upload :
    create_document_version 100 rules (no_documents office) ≡ ok ((10, 20, true), first_stored)
unfolding create_document_version knowledge_actor get_user find? has_department_access
    document_by_key get_document
first_upload = refl

second_upload :
    create_document_version 130 newer_rules first_active ≡ ok ((10, 21, true), second_stored)
unfolding create_document_version knowledge_actor get_user find? activate_knowledge_version
    get_version claim_next_knowledge_version next_version order_by select_where update_where
    has_department_access document_by_key get_document owned_version uploader_authorized
    version_by_sha
second_upload = refl

second_is_new : All (λ v. v.id ≢ 21) first_active.versions
unfolding create_document_version activate_knowledge_version get_version find?
    claim_next_knowledge_version next_version order_by select_where update_where knowledge_actor
    get_user has_department_access document_by_key get_document owned_version uploader_authorized
second_is_new = (ground arith, tt)

first_run : Reach (no_documents office) first_active
first_run =
    next
      (next (next here (uploaded 100 rules (10, 20, true) tt first_upload))
        (claimed 110 no_locks "w1" 30))
      (activated_version 120 20 "w1")

second_run : Reach first_active second_active
second_run =
    next
      (next (next here (uploaded 130 newer_rules (10, 21, true) second_is_new second_upload))
        (claimed 140 no_locks "w1" 30))
      (activated_version 150 21 "w1")

abbrev row_state : KnowledgeVersion → ℕ × KnowledgeVersionStatus
row_state v = (v.id, v.status)

-- The second version is the current one of its document, and the first is disabled.
second_is_current :
    (map row_state second_active.versions
      ≡ (21, KnowledgeVersionStatus.active) ∷ (20, KnowledgeVersionStatus.disabled) ∷ [])
    × (map (λ (d : KnowledgeDocument). d.current_version_id) second_active.documents ≡ some 21 ∷ [])
unfolding create_document_version claim_next_knowledge_version activate_knowledge_version
    get_version find? next_version order_by select_where update_where knowledge_actor get_user
    has_department_access document_by_key get_document owned_version uploader_authorized
    version_by_sha last_number
second_is_current = (refl, refl)

first_row : (v : KnowledgeVersion) × (get_version 20 first_active.versions ≡ some v)
unfolding create_document_version get_version find? activate_knowledge_version
    claim_next_knowledge_version next_version order_by select_where update_where knowledge_actor
    get_user has_department_access document_by_key get_document owned_version uploader_authorized
first_row = (_, refl)

Reach-IsCoherent_example : IsCoherent first_active
Reach-IsCoherent_example = Reach-IsCoherent office first_active first_run

Reach-Advances_example :
    (w : KnowledgeVersion) × (get_version 20 second_active.versions ≡ some w)
    × Progress first_row.0 w
Reach-Advances_example =
    Reach-Advances first_active second_active (Reach-IsCoherent office first_active first_run)
      second_run 20 first_row.0 first_row.1

create-repeated_example :
    create_document_version 101 (sent_again 11 22 rules) first_stored
    ≡ ok ((10, 20, false), first_stored)
unfolding get_document find?
create-repeated_example =
    create-repeated 100 101 11 22 rules (no_documents office) 10 20 first_stored first_upload
      (inr (refl, refl))
