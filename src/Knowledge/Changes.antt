-- ===== src/Knowledge/Changes.antt =====
-- What the transactions of backend/knowledge_runs.py do to the two tables.
use e_commerec_operations.Base.{
  All, Bool, Bool-cases, List, ap, false, false≢true, inl, inr, none, some, subst, sym, true,
  update-IsKeyed, update_where, ℕ, ◌==◌, ◌∙◌, ◌∷◌, ◌≡◌, ◌≢◌,
}
use e_commerec_operations.Knowledge.Activate.{
  activated, current_of, is_alive, is_newer, point_to, retire, shut, withdrawn,
}
use e_commerec_operations.Knowledge.Consistent.{IsCoherent, Progress, version_checks}
use e_commerec_operations.Knowledge.Lookup.{
  get_document-insert, get_document-inserted, get_document-missing, get_version-insert,
  get_version-inserted, get_version-update, get_version-updated,
}
use e_commerec_operations.Knowledge.Tables.{
  KnowledgeDb, KnowledgeDocument, KnowledgeVersion, document_id, get_document, get_version,
  is_active_version, is_processed, version_id,
}

-- An UPDATE of versions that are not active, and do not become so.
pub record Quiet (versions : List KnowledgeVersion) (p : KnowledgeVersion → Bool)
    (f : KnowledgeVersion → KnowledgeVersion) : Type 0 where
  pub same : (v : KnowledgeVersion) → (f v).id ≡ v.id
  pub before :
      (i : ℕ) (v : KnowledgeVersion)
      → get_version i versions ≡ some v
      → p v ≡ true
      → is_active_version v.status ≡ false
  pub after : (v : KnowledgeVersion) → p v ≡ true → is_active_version (f v).status ≡ false
  pub checks :
      (i : ℕ) (v : KnowledgeVersion)
      → get_version i versions ≡ some v
      → p v ≡ true
      → version_checks v ≡ true
      → version_checks (f v) ≡ true
  pub progress :
      (i : ℕ) (v : KnowledgeVersion)
      → get_version i versions ≡ some v
      → p v ≡ true
      → Progress v (f v)

-- The version `v` at `i` becomes the current one of the document `d`.
pub record Switched (db db' : KnowledgeDb) (i : ℕ) (v : KnowledgeVersion) (d : KnowledgeDocument)
    (p : KnowledgeVersion → Bool) : Type 0 where
  pub row : get_version i db.versions ≡ some v
  pub document : get_document v.document_id db.documents ≡ some d
  pub enabled : d.enabled ≡ true
  pub processed : is_processed v.status ≡ true
  pub newer : is_newer (current_of d db.versions) v ≡ true
  pub chosen : p v ≡ true
  pub only : (u : KnowledgeVersion) → p u ≡ true → u.id ≡ i
  pub versions :
      db'.versions ≡ retire (current_of d db.versions) (update_where p activated db.versions)
  pub documents :
      db'.documents ≡ update_where (λ e. document_id e == d.id) (point_to (some i)) db.documents

pub data Change : KnowledgeDb → KnowledgeDb → Type 0 where
  stayed :
      {db db' : KnowledgeDb}
      → db'.documents ≡ db.documents
      → db'.versions ≡ db.versions
      → Change db db'
  passed :
      (p : KnowledgeVersion → Bool) (f : KnowledgeVersion → KnowledgeVersion) {db db' : KnowledgeDb}
      → Quiet db.versions p f
      → db'.documents ≡ db.documents
      → db'.versions ≡ update_where p f db.versions
      → Change db db'
  twice : {db mid db' : KnowledgeDb} → Change db mid → Change mid db' → Change db db'
  gained_version :
      (w : KnowledgeVersion) {db db' : KnowledgeDb}
      → All (λ u. version_id u ≢ w.id) db.versions
      → is_active_version w.status ≡ false
      → version_checks w ≡ true
      → db'.documents ≡ db.documents
      → db'.versions ≡ w ∷ db.versions
      → Change db db'
  gained_document :
      (w : KnowledgeDocument) {db db' : KnowledgeDb}
      → get_document w.id db.documents ≡ none
      → w.current_version_id ≡ none
      → db'.documents ≡ w ∷ db.documents
      → db'.versions ≡ db.versions
      → Change db db'
  switched :
      (i : ℕ) (v : KnowledgeVersion) (d : KnowledgeDocument) (p : KnowledgeVersion → Bool)
      {db db' : KnowledgeDb}
      → Switched db db' i v d p
      → Change db db'
  shut_down :
      (i : ℕ) {db db' : KnowledgeDb}
      → db'.documents ≡ update_where (λ d. document_id d == i) shut db.documents
      → db'.versions ≡ update_where (is_alive i) withdrawn db.versions
      → Change db db'

pub passed-IsCoherent :
    (p : KnowledgeVersion → Bool) (f : KnowledgeVersion → KnowledgeVersion) (db db' : KnowledgeDb)
    → Quiet db.versions p f
    → db'.documents ≡ db.documents
    → db'.versions ≡ update_where p f db.versions
    → IsCoherent db
    → IsCoherent db'
passed-IsCoherent p f db db' q documents versions h = record {
  document_keys = rw documents h.document_keys;
  version_keys = rw versions (update-IsKeyed version_id p f q.same db.versions h.version_keys);
  checks = λ i w e.
      let (v, row, is) = get_version-updated p f q.same i db.versions (rw versions at e) in
      let old = h.checks i v row in
      elim (Bool-cases (p v)) [
        | inl t ↦ rw (is, t) (q.checks i v row t old)
        | inr g ↦ rw (is, g) old
      ];
  active_is_current = λ i w e a.
      let (v, row, is) = get_version-updated p f q.same i db.versions (rw versions at e) in
      elim (Bool-cases (p v)) [
        | inl t ↦ absurd (false≢true (sym (q.after v t) ∙ (rw (is, t) at a)))
        | inr g ↦
            let same : w ≡ v = rw g at is in
            let (d, found, points) = h.active_is_current i v row (rw same at a) in
            let of_same : w.document_id ≡ v.document_id =
              ap (λ (x : KnowledgeVersion). x.document_id) same in
            (
              d,
              rw documents (subst (λ n. get_document n db.documents ≡ some d) (sym of_same) found),
              points,
            )
      ];
  current_is_active = λ k i d e points.
      let (on, (v, row, of_k, a)) = h.current_is_active k i d (rw documents at e) points in
      let kept = get_version-update p f q.same i db.versions row in
      elim (Bool-cases (p v)) [
        | inl t ↦ absurd (false≢true (sym (q.before i v row t) ∙ a))
        | inr g ↦ (on, (v, rw versions (rw g at kept), of_k, a))
      ];
}

pub gained_version-IsCoherent :
    (w : KnowledgeVersion) (db db' : KnowledgeDb)
    → All (λ u. version_id u ≢ w.id) db.versions
    → is_active_version w.status ≡ false
    → version_checks w ≡ true
    → db'.documents ≡ db.documents
    → db'.versions ≡ w ∷ db.versions
    → IsCoherent db
    → IsCoherent db'
gained_version-IsCoherent w db db' fresh idle sound documents versions h = record {
  document_keys = rw documents h.document_keys;
  version_keys = rw versions (fresh, h.version_keys);
  checks = λ i v e. elim (get_version-inserted w i db.versions (rw versions at e)) [
    | inl new ↦ rw new sound
    | inr row ↦ h.checks i v row
  ];
  active_is_current = λ i v e a. elim (get_version-inserted w i db.versions (rw versions at e)) [
    | inl new ↦ absurd (false≢true (sym idle ∙ (rw new at a)))
    | inr row ↦
        let (d, found, points) = h.active_is_current i v row a in (d, rw documents found, points)
  ];
  current_is_active = λ k i d e points.
      let (on, (v, row, of_k, a)) = h.current_is_active k i d (rw documents at e) points in
      (on, (v, rw versions (get_version-insert w i db.versions fresh row), of_k, a));
}

pub gained_document-IsCoherent :
    (w : KnowledgeDocument) (db db' : KnowledgeDb)
    → get_document w.id db.documents ≡ none
    → w.current_version_id ≡ none
    → db'.documents ≡ w ∷ db.documents
    → db'.versions ≡ db.versions
    → IsCoherent db
    → IsCoherent db'
gained_document-IsCoherent w db db' fresh blank documents versions h = record {
  document_keys = rw documents (get_document-missing w.id db.documents fresh, h.document_keys);
  version_keys = rw versions h.version_keys;
  checks = λ i v e. h.checks i v (rw versions at e);
  active_is_current = λ i v e a.
      let (d, found, points) = h.active_is_current i v (rw versions at e) a in
      (d, rw documents (get_document-insert w v.document_id db.documents fresh found), points);
  current_is_active = λ k i d e points.
      elim (get_document-inserted w k db.documents (rw documents at e)) [
        | inl new ↦ let none_is : none ≡ some i = sym blank ∙ (rw new at points) in absurd cc
        | inr row ↦ rw versions (h.current_is_active k i d row points)
      ];
}
