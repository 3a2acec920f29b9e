-- ===== src/Knowledge/Lookup.antt =====
-- Reading a version or a document by its key, before and after an UPDATE or an INSERT.
use mathlib.Core.Option.{some-injective}
use e_commerec_operations.Base.{
  ==_iff, All, All-find?, All-map, Bool, Bool-cases, IsKeyed, List, String, arith, false,
  false≢true, find?, find?-IsKeyed, find?-missing, find?-test, find?-update_where, find?-updated,
  if◌then◌else◌, inl, inr, none, some, sym, true, update_where, ℕ, ◌==◌, ◌∙◌, ◌∷◌, ◌≡◌, ◌≢◌, ◌⊎◌,
}
use e_commerec_operations.Knowledge.Tables.{
  KnowledgeDb, KnowledgeDocument, KnowledgeVersion, document_id, get_document, get_version,
  is_owned_version, owned_version, version_id,
}

pub get_version-id :
    (i : ℕ) (versions : List KnowledgeVersion) {v : KnowledgeVersion}
    → get_version i versions ≡ some v
    → v.id ≡ i
unfolding get_version
get_version-id i versions {v} e = (==_iff v.id i).0 (find?-test (λ v. version_id v == i) versions e)

pub get_document-id :
    (i : ℕ) (documents : List KnowledgeDocument) {d : KnowledgeDocument}
    → get_document i documents ≡ some d
    → d.id ≡ i
unfolding get_document
get_document-id i documents {d} e =
    (==_iff d.id i).0 (find?-test (λ d. document_id d == i) documents e)

module _ (p : KnowledgeVersion → Bool) (f : KnowledgeVersion → KnowledgeVersion)
    (same : (v : KnowledgeVersion) → (f v).id ≡ v.id) (i : ℕ) (versions : List KnowledgeVersion)
    {v : KnowledgeVersion} where
  pub get_version-update :
      get_version i versions ≡ some v
      → get_version i (update_where p f versions) ≡ some (if p v then f v else v)
  unfolding get_version
  get_version-update = find?-update_where version_id p f same i versions

  pub get_version-updated :
      get_version i (update_where p f versions) ≡ some v
      → (u : KnowledgeVersion) × (get_version i versions ≡ some u) × (v ≡ (if p u then f u else u))
  unfolding get_version
  get_version-updated = find?-updated version_id p f same i versions

module _ (p : KnowledgeDocument → Bool) (f : KnowledgeDocument → KnowledgeDocument)
    (same : (d : KnowledgeDocument) → (f d).id ≡ d.id) (i : ℕ) (documents : List KnowledgeDocument)
    {d : KnowledgeDocument} where
  pub get_document-update :
      get_document i documents ≡ some d
      → get_document i (update_where p f documents) ≡ some (if p d then f d else d)
  unfolding get_document
  get_document-update = find?-update_where document_id p f same i documents

  pub get_document-updated :
      get_document i (update_where p f documents) ≡ some d
      → (c : KnowledgeDocument) × (get_document i documents ≡ some c)
        × (d ≡ (if p c then f c else c))
  unfolding get_document
  get_document-updated = find?-updated document_id p f same i documents

-- A row that is found is not the one that is inserted.
pub get_version-insert :
    (w : KnowledgeVersion) (i : ℕ) (versions : List KnowledgeVersion) {v : KnowledgeVersion}
    → All (λ u. version_id u ≢ w.id) versions
    → get_version i versions ≡ some v
    → get_version i (w ∷ versions) ≡ some v
unfolding get_version find?
get_version-insert w i versions {v} fresh e =
    let (other, at_i) =
      All-find? (λ u. version_id u ≢ w.id) (λ u. version_id u == i) versions e fresh in
    elim (Bool-cases (version_id w == i)) [
      | inl t ↦ absurd (other ((==_iff v.id i).0 at_i ∙ sym ((==_iff w.id i).0 t)))
      | inr f ↦ rw f e
    ]

pub get_version-inserted :
    (w : KnowledgeVersion) (i : ℕ) (versions : List KnowledgeVersion) {v : KnowledgeVersion}
    → get_version i (w ∷ versions) ≡ some v
    → (v ≡ w) ⊎ (get_version i versions ≡ some v)
unfolding get_version find?
get_version-inserted w i versions e = elim (Bool-cases (version_id w == i)) [
  | inl t ↦ inl (sym (some-injective _ _ (rw t at e)))
  | inr f ↦ inr (rw f at e)
]

pub get_document-insert :
    (w : KnowledgeDocument) (i : ℕ) (documents : List KnowledgeDocument) {d : KnowledgeDocument}
    → get_document w.id documents ≡ none
    → get_document i documents ≡ some d
    → get_document i (w ∷ documents) ≡ some d
unfolding get_document find?
get_document-insert w i documents {d} fresh e = elim (Bool-cases (document_id w == i)) [
  | inl t ↦
      let same : w.id ≡ i = (==_iff w.id i).0 t in
      let missing : find? (λ d. document_id d == i) documents ≡ none = rw same at fresh in absurd cc
  | inr f ↦ rw f e
]

pub get_document-inserted :
    (w : KnowledgeDocument) (i : ℕ) (documents : List KnowledgeDocument) {d : KnowledgeDocument}
    → get_document i (w ∷ documents) ≡ some d
    → (d ≡ w) ⊎ (get_document i documents ≡ some d)
unfolding get_document find?
get_document-inserted w i documents e = elim (Bool-cases (document_id w == i)) [
  | inl t ↦ inl (sym (some-injective _ _ (rw t at e)))
  | inr f ↦ inr (rw f at e)
]

pub get_document-missing :
    (i : ℕ) (documents : List KnowledgeDocument)
    → get_document i documents ≡ none
    → All (λ d. document_id d ≢ i) documents
unfolding get_document
get_document-missing i documents e =
    All-map (λ d. (document_id d == i) ≡ false) (λ d. document_id d ≢ i)
      (λ d f same. absurd (false≢true (sym f ∙ (==_iff d.id i).1 same))) documents
      (find?-missing (λ d. document_id d == i) documents e)

-- The row that a lease is held on is the row of its key.
pub owned-found :
    (now i : ℕ) (owner : String) (db : KnowledgeDb) {v : KnowledgeVersion}
    → IsKeyed version_id db.versions
    → owned_version now i owner db ≡ some v
    → (get_version i db.versions ≡ some v) × (is_owned_version now i owner v ≡ true)
unfolding owned_version get_version
owned-found now i owner db {v} keyed e = (
  find?-IsKeyed version_id (is_owned_version now i owner) i (λ x h. ground arith) db.versions keyed
      e,
  find?-test (is_owned_version now i owner) db.versions e,
)
