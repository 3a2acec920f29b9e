-- ===== src/Knowledge/Repeats.antt =====
-- An upload that is sent again.
use e_commerec_operations.Accounts.{User}
use e_commerec_operations.Base.{
  ==_iff, Bool, Bool-cases, List, Option, Option-cases, Result-cases, String, ap, arith, false,
  false≢true, find?, inl, inr, is_none, none, ok, refl, some, str_eq, str_eq_refl, subst, sym, true,
  ℕ, ◌+◌, ◌==◌, ◌∙◌, ◌∷◌, ◌≡◌, ◌≢◌, ◌⊎◌,
}
use e_commerec_operations.Knowledge.Create.{
  Upload, Uploaded, add_version, answer_upload, create_document_version, document_by_key,
  has_document_key, has_sha, has_version_key, is_key, last_number, named_document, new_document,
  new_version, repeated_document, same_text, upload_document, upload_version, version_by_key,
  version_by_sha,
}
use e_commerec_operations.Knowledge.Tables.{
  KnowledgeDb, KnowledgeDocument, KnowledgeVersion, document_id, get_document, knowledge_actor,
}
use e_commerec_operations.Knowledge.Uploads.{
  Outcome, create-Outcome, first_version, further_version, repeated,
}

find?-first :
    {A : Type 0} (p : A → Bool) (x : A) (xs : List A) → p x ≡ true → find? p (x ∷ xs) ≡ some x
unfolding find?
find?-first p x xs t = rw t

key-same : (key : Option String) → is_key key ≡ true → same_text key key ≡ true
key-same (some s) k = str_eq_refl s
key-same none k = k

repeated-old :
    (up : Upload) (db : KnowledgeDb) (d : KnowledgeDocument) (i v : ℕ) (db' : KnowledgeDb)
    → repeated_document up db d ≢ ok ((i, v, true), db')
unfolding repeated_document
repeated-old up db d i v db' e = elim (Option-cases (version_by_sha d.id up.sha256 db)) [
  | inl missing ↦ absurd (ground arith)
  | inr (w, found) ↦ absurd (ground arith)
]

-- A first answer that adds a version has found no document of the key.
create-new :
    (now : ℕ) (up : Upload) (db : KnowledgeDb) (d v : ℕ) (db' : KnowledgeDb)
    → create_document_version now up db ≡ ok ((d, v, true), db')
    → (actor : User) × (knowledge_actor up.created_by db.directory ≡ ok actor)
      × (named_document up db ≡ none)
unfolding create_document_version answer_upload
create-new now up db d v db' e = elim (Result-cases (knowledge_actor up.created_by db.directory)) [
  | inl (x, refused) ↦ absurd (ground arith)
  | inr (actor, granted) ↦
      let k = rw (granted, create_document_version) at e in
      elim (Option-cases (named_document up db)) [
        | inl nothing ↦ (actor, granted, nothing)
        | inr (w, found) ↦ absurd (repeated-old up db w d v db' (rw (found, answer_upload) at k))
      ]
]

-- The same upload, with the keys that the second call has made.
abbrev pub sent_again : ℕ → ℕ → Upload → Upload
sent_again document version up = record up { document_id = document; version_id = version }

sha-found :
    (w : KnowledgeVersion) (sha : String) (db : KnowledgeDb) (versions : List KnowledgeVersion)
    → db.versions ≡ w ∷ versions
    → w.sha256 ≡ sha
    → version_by_sha w.document_id sha db ≡ some w
unfolding version_by_sha
sha-found w sha db versions e same = rw e (
    find?-first (has_sha w.document_id sha) w versions
      (rw same (rw ((==_iff w.document_id w.document_id).1 refl) (str_eq_refl sha))))

module _ (later document version : ℕ) (up : Upload) (actor : User) (db : KnowledgeDb)
    (w : KnowledgeVersion) (versions : List KnowledgeVersion) (rows : db.versions ≡ w ∷ versions)
    (content : w.sha256 ≡ up.sha256) where
  again-add :
      w.document_id ≡ document
      → add_version later
          (sent_again document version up)
          actor
          db
          (version_by_sha document up.sha256 db)
        ≡ ok ((document, w.id, false), db)
  unfolding add_version
  again-add of_w =
      let found : version_by_sha document up.sha256 db ≡ some w =
        subst (λ n. version_by_sha n up.sha256 db ≡ some w) of_w
          (sha-found w up.sha256 db versions rows content) in
      rw (found, add_version) refl

  key-found :
      w.document_id ≡ document
      → is_key up.idempotency_key ≡ true
      → w.idempotency_key ≡ up.idempotency_key
      → version_by_key document up.idempotency_key db ≡ some w
  unfolding version_by_key
  key-found of_w keyed same =
      let k : same_text w.idempotency_key up.idempotency_key ≡ true =
        rw same (key-same up.idempotency_key keyed) in
      rw rows (
        find?-first (has_version_key document up.idempotency_key) w versions
          (rw k (rw ((==_iff w.document_id document).1 of_w))))

  again-document :
      (d : KnowledgeDocument)
      → get_document document db.documents ≡ some d
      → w.document_id ≡ document
      → (is_key up.idempotency_key ≡ true → w.idempotency_key ≡ up.idempotency_key)
      → upload_document later
          (sent_again document version up)
          actor
          db
          (get_document document db.documents)
        ≡ ok ((document, w.id, false), db)
  unfolding upload_document upload_version
  again-document d found of_w key = elim (Bool-cases (is_key up.idempotency_key)) [
    | inl keyed ↦
        let by_key = key-found of_w keyed (key keyed) in
        let same : str_eq w.sha256 up.sha256 ≡ true = rw content (str_eq_refl up.sha256) in
        rw (found, upload_document, keyed, by_key, upload_version, same) refl
    | inr plain ↦ rw (found, upload_document, plain, upload_version) (again-add of_w)
  ]

  again-named :
      (d : KnowledgeDocument) (documents : List KnowledgeDocument)
      → db.documents ≡ d ∷ documents
      → w.document_id ≡ d.id
      → d.created_by ≡ up.created_by
      → d.idempotency_key ≡ up.idempotency_key
      → is_none up.name ≡ false
      → is_key up.idempotency_key ≡ true
      → answer_upload later
          (sent_again document version up)
          actor
          db
          (named_document (sent_again document version up) db)
        ≡ ok ((d.id, w.id, false), db)
  unfolding answer_upload named_document document_by_key repeated_document
  again-named d documents rows_d of_w by key named keyed =
      let k : same_text d.idempotency_key up.idempotency_key ≡ true =
        rw key (key-same up.idempotency_key keyed) in
      let first_d =
        find?-first (has_document_key up.created_by up.idempotency_key) d documents
          (rw k (rw ((==_iff d.created_by up.created_by).1 by))) in
      let sha : version_by_sha d.id up.sha256 db ≡ some w =
        subst (λ n. version_by_sha n up.sha256 db ≡ some w) of_w
          (sha-found w up.sha256 db versions rows content) in
      let chosen : named_document (sent_again document version up) db ≡ some d =
        rw (named_document, named, keyed, document_by_key, rows_d, first_d) refl in
      rw (chosen, answer_upload, repeated_document, sha) refl

  again-plain :
      (d : KnowledgeDocument)
      → named_document (sent_again document version up) db ≡ none
      → get_document document db.documents ≡ some d
      → w.document_id ≡ document
      → (is_key up.idempotency_key ≡ true → w.idempotency_key ≡ up.idempotency_key)
      → answer_upload later
          (sent_again document version up)
          actor
          db
          (named_document (sent_again document version up) db)
        ≡ ok ((document, w.id, false), db)
  unfolding answer_upload
  again-plain d nothing found of_w key =
      rw (nothing, answer_upload) (again-document d found of_w key)

module _ (now later document version : ℕ) (up : Upload) (actor : User) (db : KnowledgeDb) where
  again-first :
      (db' : KnowledgeDb) (name category : String)
      → up.name ≡ some name
      → db'.documents ≡ new_document up name category ∷ db.documents
      → db'.versions ≡ new_version now up 1 none ∷ db.versions
      → (document ≡ up.document_id) ⊎ (is_key up.idempotency_key ≡ true)
      → answer_upload later
          (sent_again document version up)
          actor
          db'
          (named_document (sent_again document version up) db')
        ≡ ok ((up.document_id, up.version_id, false), db')
  unfolding named_document get_document
  again-first db' name category at_name documents versions place =
      let w = new_version now up 1 none in
      let d = new_document up name category in
      let is_named : is_none up.name ≡ false = rw at_name refl in
      elim (Bool-cases (is_key up.idempotency_key)) [
        | inl keyed ↦
            again-named later document version up actor db' w db.versions versions refl d
              db.documents documents refl refl refl is_named keyed
        | inr plain ↦
            let nothing : named_document (sent_again document version up) db' ≡ none =
              rw (named_document, is_named, plain) refl in
            let same : document ≡ up.document_id = elim place [
              | inl e ↦ e
              | inr keyed ↦ absurd (false≢true (sym plain ∙ keyed))
            ] in
            let found : get_document document db'.documents ≡ some d = rw documents (
              find?-first (λ x. document_id x == document) d db.documents
                ((==_iff d.id document).1 (sym same))) in
            again-plain later document version up actor db' w db.versions versions refl d nothing
              found (sym same) (λ keyed. absurd (false≢true (sym plain ∙ keyed)))
            ∙ ap (λ n. ok ((n, w.id, false), db')) same
      ]

  again-further :
      (db' : KnowledgeDb) (d : KnowledgeDocument) (number : ℕ)
      → named_document up db ≡ none
      → get_document up.document_id db.documents ≡ some d
      → db'.documents ≡ db.documents
      → db'.versions ≡ new_version now up number up.idempotency_key ∷ db.versions
      → document ≡ up.document_id
      → answer_upload later
          (sent_again document version up)
          actor
          db'
          (named_document (sent_again document version up) db')
        ≡ ok ((up.document_id, up.version_id, false), db')
  unfolding named_document document_by_key
  again-further db' d number nothing found documents versions same =
      let w = new_version now up number up.idempotency_key in
      let still : named_document (sent_again document version up) db' ≡ none =
        rw (named_document, document_by_key, documents) nothing in
      again-plain later document version up actor db' w db.versions versions refl d still
        (rw (documents, same) found) (sym same) (λ keyed. refl)
      ∙ ap (λ n. ok ((n, w.id, false), db')) same

  again-Outcome :
      {result : Uploaded} {db' : KnowledgeDb}
      → Outcome now up db result db'
      → named_document up db ≡ none
      → result.2 ≡ true
      → (document ≡ up.document_id)
        ⊎ (get_document up.document_id db.documents ≡ none) × (is_key up.idempotency_key ≡ true)
      → answer_upload later
          (sent_again document version up)
          actor
          db'
          (named_document (sent_again document version up) db')
        ≡ ok ((result.0, result.1, false), db')
  again-Outcome (repeated d v) nothing new place = absurd (false≢true new)
  again-Outcome (first_version name category event at_name at_category absent) nothing new place =
      again-first _ name category at_name refl refl
        (elim place [ inl same ↦ inl same | inr (fresh, keyed) ↦ inr keyed ])
  again-Outcome (further_version d event found unknown) nothing new place =
      again-further _ d (last_number up.document_id db.versions + 1) nothing found refl refl
        (elim place [
          | inl same ↦ same
          | inr (fresh, keyed) ↦ let k = fresh in let l = found in absurd cc
        ])

same-directory :
    {now : ℕ} {up : Upload} {db : KnowledgeDb} {result : Uploaded} {db' : KnowledgeDb}
    → Outcome now up db result db'
    → db'.directory ≡ db.directory
same-directory (repeated d v) = refl
same-directory (first_version name category event at_name at_category absent) = refl
same-directory (further_version d event found unknown) = refl

-- An upload that added a version is answered with that version, and changes nothing, when it is sent
-- again: to the same document, whatever its key, or, when it had made the document and carries a key, as
-- another new document with keys of its own.
pub create-repeated :
    (now later document version : ℕ) (up : Upload) (db : KnowledgeDb) (d v : ℕ) (db' : KnowledgeDb)
    → create_document_version now up db ≡ ok ((d, v, true), db')
    → (document ≡ up.document_id)
      ⊎ (get_document up.document_id db.documents ≡ none) × (is_key up.idempotency_key ≡ true)
    → create_document_version later (sent_again document version up) db' ≡ ok ((d, v, false), db')
unfolding create_document_version
create-repeated now later document version up db d v db' e place =
    let (actor, granted, nothing) = create-new now up db d v db' e in
    let outcome = create-Outcome now up db (d, v, true) db' e in
    let same = same-directory outcome in
    let granted' : knowledge_actor up.created_by db'.directory ≡ ok actor =
      ap (knowledge_actor up.created_by) same ∙ granted in
    rw (granted', create_document_version)
      (again-Outcome now later document version up actor db outcome nothing refl place)
