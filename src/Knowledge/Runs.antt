-- ===== src/Knowledge/Runs.antt =====
-- The runs of the knowledge tables: what holds in each, and how the versions move in it.
use mathlib.Core.Option.{get_or}
use e_commerec_operations.Accounts.{Directory}
use e_commerec_operations.Base.{
  Bool, IsKeyed, Option, Option-cases, Result-cases, ap, arith, find?, inl, inr, ok, refl, some, ℕ,
  ◌≡◌,
}
use e_commerec_operations.Knowledge.Activate.{disable_knowledge_document, shut_document}
use e_commerec_operations.Knowledge.Changes.{Change, shut_down, stayed}
use e_commerec_operations.Knowledge.Consistent.{IsCoherent, Progress, Progress-refl, Progress-trans}
use e_commerec_operations.Knowledge.Moves.{renew-Change}
use e_commerec_operations.Knowledge.Progress.{Advances, Change-Advances}
use e_commerec_operations.Knowledge.Shut.{Change-IsCoherent}
use e_commerec_operations.Knowledge.Steps.{
  Reach, Reach_induction, Step, activated_version, claimed, disabled_document, gave_up, indexed,
  no_documents, reassigned, renewed, returned, uploaded,
}
use e_commerec_operations.Knowledge.Tables.{
  KnowledgeDb, KnowledgeVersion, get_document, get_version, knowledge_actor, version_id,
}
use e_commerec_operations.Knowledge.Transactions.{
  activate-Change, claim-Change, fail-Change, return-Change, upsert-Change,
}
use e_commerec_operations.Knowledge.Uploads.{create-Change, create-Outcome}

disable-Change :
    (i : ℕ) (actor_id : Option ℕ) (done : Bool) (db db' : KnowledgeDb)
    → disable_knowledge_document i actor_id db ≡ ok (done, db')
    → Change db db'
unfolding disable_knowledge_document shut_document
disable-Change i actor_id done db db' e = elim (Option-cases (get_document i db.documents)) [
  | inl missing ↦ stayed (ground arith) (ground arith)
  | inr (d, found) ↦
      elim (Result-cases (knowledge_actor (get_or actor_id d.created_by) db.directory)) [
        | inl (x, refused) ↦ absurd (ground arith)
        | inr (actor, granted) ↦
            let is : db' ≡ shut_document actor i db = ground arith in
            shut_down i (ap (λ (x : KnowledgeDb). x.documents) is)
              (ap (λ (x : KnowledgeDb). x.versions) is)
      ]
]

pub Step-Change :
    {db db' : KnowledgeDb} → Step db db' → IsKeyed version_id db.versions → Change db db'
Step-Change {db} {db'} (uploaded now up result fresh e) keyed =
    create-Change now up fresh (create-Outcome now up db result db' e)
Step-Change {db} (claimed now locked owner seconds) keyed =
    claim-Change now locked owner seconds db keyed
Step-Change {db} (renewed now i owner seconds) keyed = renew-Change now i owner seconds db keyed
Step-Change {db} (returned now later i owner error_code) keyed =
    return-Change now later i owner error_code db
Step-Change {db} (gave_up now i owner error_code) keyed = fail-Change now i owner error_code db
Step-Change {db} (indexed now i owner drafts) keyed = upsert-Change now i owner drafts db keyed
Step-Change {db} (activated_version now i owner) keyed = activate-Change now i owner db keyed
Step-Change {db} {db'} (disabled_document i actor_id done e) keyed =
    disable-Change i actor_id done db db' e
Step-Change {db} (reassigned dir) keyed = stayed refl refl

-- Whatever the transactions and their order, the tables stay consistent: keys are unique, every version
-- satisfies the CHECK constraints, an active version is the one its document points to, and a document
-- that points to a version is enabled, and the version is active and its own.
pub Reach-IsCoherent :
    (dir : Directory) (db : KnowledgeDb) → Reach (no_documents dir) db → IsCoherent db
unfolding get_document get_version find?
Reach-IsCoherent dir db =
    Reach_induction IsCoherent (no_documents dir)
      (record {
        document_keys = tt;
        version_keys = tt;
        checks = λ i v e. absurd cc;
        active_is_current = λ i v e a. absurd cc;
        current_is_active = λ k i d e points. absurd cc;
      })
      (λ a b st h. Change-IsCoherent (Step-Change st h.version_keys) h)

-- From a consistent state, every run keeps each version with its document, number and content; its
-- attempts only grow, from active it can only be disabled, and once failed or disabled it never changes.
pub Reach-Advances :
    (start db : KnowledgeDb)
    → IsCoherent start
    → Reach start db
    → (i : ℕ) (v : KnowledgeVersion) → get_version i start.versions ≡ some v
    → (w : KnowledgeVersion) × (get_version i db.versions ≡ some w) × Progress v w
Reach-Advances start db sound r =
    let P : KnowledgeDb → Type 0 = λ x. IsCoherent x × Advances start x in
    (Reach_induction P start (sound, λ i v e. (v, e, Progress-refl v))
      (λ a b st (h, moved).
        let change = Step-Change st h.version_keys in
        (
          Change-IsCoherent change h,
          λ i v e.
              let (w, row, first) = moved i v e in
              let (x, found, second) = Change-Advances change i w row in
              (x, found, Progress-trans v w x first second),
        ))
      r).1
