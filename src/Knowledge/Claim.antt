-- ===== src/Knowledge/Claim.antt =====
-- `claim_next_knowledge_version` of backend/knowledge_runs.py.
use e_commerec_operations.Base.{
  Bool, Option, String, head?, holds, leb, ltb, none, not, order_by, select_where, some,
  update_where, ℕ, ◌&&◌, ◌+◌, ◌||◌,
}
use e_commerec_operations.Common.{KnowledgeVersionStatus}
use e_commerec_operations.Knowledge.Tables.{
  KnowledgeDb, KnowledgeVersion, is_accepted, is_processed, released, store_version,
}

abbrev pub is_expired : ℕ → KnowledgeVersion → Bool
is_expired now v = is_processed v.status && holds (λ t. ltb t now) v.lease_expires_at

abbrev pub is_spent : ℕ → KnowledgeVersion → Bool
is_spent now v = is_expired now v && leb 3 v.attempt_count

unfoldable pub fail_spent : ℕ → KnowledgeDb → KnowledgeDb
fail_spent now db =
    let give_up = released KnowledgeVersionStatus.failed "KNOWLEDGE_ATTEMPTS_EXHAUSTED" in
    record db { versions = update_where (is_spent now) give_up db.versions }

abbrev pub is_next : ℕ → (ℕ → Bool) → KnowledgeVersion → Bool
is_next now locked v =
    (is_accepted v.status || is_expired now v) && ltb v.attempt_count 3 && not (locked v.id)

unfoldable pub next_version : ℕ → (ℕ → Bool) → KnowledgeDb → Option KnowledgeVersion
next_version now locked db = head? (
    order_by (λ (v : KnowledgeVersion). (v.created_at, v.id))
      (select_where (is_next now locked) db.versions))

abbrev pub claimed_version : ℕ → String → ℕ → KnowledgeVersion → KnowledgeVersion
claimed_version now owner seconds v = record v {
  status = KnowledgeVersionStatus.processing;
  lease_owner = some owner;
  lease_expires_at = some (now + seconds);
  attempt_count = v.attempt_count + 1;
  error_code = none;
}

unfoldable pub take_version :
    ℕ → String → ℕ → KnowledgeDb → Option KnowledgeVersion → Option ℕ × KnowledgeDb
unfolding store_version
take_version now owner seconds db none = (none, db)
take_version now owner seconds db (some v) =
    (some v.id, store_version v.id (claimed_version now owner seconds) db)

unfoldable pub claim_next_knowledge_version :
    ℕ → (ℕ → Bool) → String → ℕ → KnowledgeDb → Option ℕ × KnowledgeDb
unfolding fail_spent take_version
claim_next_knowledge_version now locked owner seconds db =
    let mid = fail_spent now db in take_version now owner seconds mid (next_version now locked mid)
