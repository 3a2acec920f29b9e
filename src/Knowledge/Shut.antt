-- ===== src/Knowledge/Shut.antt =====
-- The end of a document leaves the knowledge tables consistent, and so does every change of them.
use e_commerec_operations.Base.{
  Bool, Bool-cases, List, ap, arith, false, false≢true, inl, inr, none, refl, some, sym, true,
  update-IsKeyed, update_where, ℕ, ◌==◌, ◌∙◌, ◌≡◌, ◌≢◌,
}
use e_commerec_operations.Common.{KnowledgeVersionStatus}
use e_commerec_operations.Knowledge.Activate.{is_alive, shut, withdrawn}
use e_commerec_operations.Knowledge.Changes.{
  Change, gained_document, gained_document-IsCoherent, gained_version, gained_version-IsCoherent,
  passed, passed-IsCoherent, shut_down, stayed, switched, twice,
}
use e_commerec_operations.Knowledge.Consistent.{IsCoherent, version_checks}
use e_commerec_operations.Knowledge.Lookup.{
  get_document-id, get_document-update, get_document-updated, get_version-update,
  get_version-updated,
}
use e_commerec_operations.Knowledge.Switches.{Switched-IsCoherent}
use e_commerec_operations.Knowledge.Tables.{
  KnowledgeDb, KnowledgeDocument, KnowledgeVersion, document_id, get_version, is_active_version,
  version_id,
}

abbrev document_gone : ℕ → KnowledgeDocument → Bool
document_gone i d = document_id d == i

shut-version :
    (i j : ℕ) (versions : List KnowledgeVersion) (w : KnowledgeVersion)
    → get_version j (update_where (is_alive i) withdrawn versions) ≡ some w
    → is_active_version w.status ≡ true
    → (get_version j versions ≡ some w) × (w.document_id ≢ i)
shut-version i j versions w e a =
    let (u, row, is) = get_version-updated (is_alive i) withdrawn (λ u. refl) j versions e in
    elim (Bool-cases (is_alive i u)) [
      | inl t ↦
          let gone : w ≡ withdrawn u = rw t at is in
          let status : w.status ≡ KnowledgeVersionStatus.disabled =
            ap (λ (x : KnowledgeVersion). x.status) gone in
          let b : is_active_version KnowledgeVersionStatus.disabled ≡ true = rw status at a in
          absurd (false≢true b)
      | inr f ↦
          let same : w ≡ u = rw f at is in
          let live : is_alive i w ≡ false = ap (is_alive i) same ∙ f in
          (row ∙ ap some (sym same), λ q. absurd (ground arith))
    ]

shut-kept :
    (i j : ℕ) (versions : List KnowledgeVersion) (w : KnowledgeVersion)
    → get_version j versions ≡ some w
    → w.document_id ≢ i
    → get_version j (update_where (is_alive i) withdrawn versions) ≡ some w
shut-kept i j versions w e other =
    let kept = get_version-update (is_alive i) withdrawn (λ u. refl) j versions e in
    let off : is_alive i w ≡ false = ground arith in rw off at kept

shut_down-IsCoherent :
    (i : ℕ) (db db' : KnowledgeDb)
    → db'.documents ≡ update_where (λ d. document_id d == i) shut db.documents
    → db'.versions ≡ update_where (is_alive i) withdrawn db.versions
    → IsCoherent db
    → IsCoherent db'
unfolding version_checks
shut_down-IsCoherent i db db' documents versions h = record {
  document_keys =
      rw documents (
        update-IsKeyed document_id (document_gone i) shut (λ d. refl) db.documents h.document_keys);
  version_keys =
      rw versions
        (update-IsKeyed version_id (is_alive i) withdrawn (λ v. refl) db.versions h.version_keys);
  checks = λ j w e.
      let (u, row, is) =
        get_version-updated (is_alive i) withdrawn (λ u. refl) j db.versions (rw versions at e) in
      let old = h.checks j u row in
      elim (Bool-cases (is_alive i u)) [
        | inl t ↦ rw (is, t) (ground arith)
        | inr f ↦ rw (is, f) old
      ];
  active_is_current = λ j w e a.
      let (row, other) = shut-version i j db.versions w (rw versions at e) a in
      let (d, found, points) = h.active_is_current j w row a in
      let d_at = get_document-id w.document_id db.documents found in
      let kept =
        get_document-update (document_gone i) shut (λ d. refl) w.document_id db.documents found in
      let off : document_gone i d ≡ false = ground arith in
      (d, rw documents (rw off at kept), points);
  current_is_active = λ k j e found points.
      let (d, row, is) =
        get_document-updated (document_gone i) shut (λ d. refl) k db.documents
          (rw documents at found) in
      elim (Bool-cases (document_gone i d)) [
        | inl t ↦
            let gone : e ≡ shut d = rw t at is in
            let blank : none ≡ some j =
              ap (λ (x : KnowledgeDocument). x.current_version_id) (sym gone) ∙ points in
            absurd cc
        | inr f ↦
            let same : e ≡ d = rw f at is in
            let (on, (v, v_row, of_k, a)) =
              h.current_is_active k j d row
                (ap (λ (x : KnowledgeDocument). x.current_version_id) (sym same) ∙ points) in
            let d_at = get_document-id k db.documents row in
            let other : v.document_id ≢ i = λ q. absurd (ground arith) in
            (
              ap (λ (x : KnowledgeDocument). x.enabled) same ∙ on,
              (v, rw versions (shut-kept i j db.versions v v_row other), of_k, a),
            )
      ];
}

stayed-IsCoherent :
    (db db' : KnowledgeDb)
    → db'.documents ≡ db.documents
    → db'.versions ≡ db.versions
    → IsCoherent db
    → IsCoherent db'
stayed-IsCoherent db db' documents versions h = record {
  document_keys = rw documents h.document_keys;
  version_keys = rw versions h.version_keys;
  checks = rw versions h.checks;
  active_is_current = rw (documents, versions) h.active_is_current;
  current_is_active = rw (documents, versions) h.current_is_active;
}

pub Change-IsCoherent : {db db' : KnowledgeDb} → Change db db' → IsCoherent db → IsCoherent db'
Change-IsCoherent (stayed {db} {db'} documents versions) h =
    stayed-IsCoherent db db' documents versions h
Change-IsCoherent (passed p f {db} {db'} q documents versions) h =
    passed-IsCoherent p f db db' q documents versions h
Change-IsCoherent (twice a b) h = Change-IsCoherent b (Change-IsCoherent a h)
Change-IsCoherent (gained_version w {db} {db'} fresh idle sound documents versions) h =
    gained_version-IsCoherent w db db' fresh idle sound documents versions h
Change-IsCoherent (gained_document w {db} {db'} fresh blank documents versions) h =
    gained_document-IsCoherent w db db' fresh blank documents versions h
Change-IsCoherent (switched i v d p {db} {db'} m) h = Switched-IsCoherent db db' i v d p m h
Change-IsCoherent (shut_down i {db} {db'} documents versions) h =
    shut_down-IsCoherent i db db' documents versions h
