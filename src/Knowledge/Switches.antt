-- ===== src/Knowledge/Switches.antt =====
-- An activation leaves the knowledge tables consistent.
use mathlib.Core.Option.{some-injective}
use e_commerec_operations.Base.{
  ==_iff, Bool, Bool-cases, Option-cases, ap, arith, false, false≢true, holds, if◌then◌else◌, inl,
  inr, none, refl, some, subst, sym, true, update-IsKeyed, update_where, ℕ, ◌==◌, ◌∙◌, ◌≡◌, ◌≢◌,
}
use e_commerec_operations.Knowledge.Activate.{activated, current_of, point_to}
use e_commerec_operations.Knowledge.Changes.{Switched}
use e_commerec_operations.Knowledge.Consistent.{IsCoherent, version_checks}
use e_commerec_operations.Knowledge.Lookup.{
  get_document-id, get_document-update, get_document-updated, get_version-id, get_version-update,
  get_version-updated,
}
use e_commerec_operations.Knowledge.Retire.{retire-IsKeyed, retire-each, retire-get, retire-kept}
use e_commerec_operations.Knowledge.Tables.{
  KnowledgeDb, KnowledgeDocument, KnowledgeVersion, document_id, get_document, get_version,
  is_active_version, version_id,
}

module _ (db db' : KnowledgeDb) (i : ℕ) (v : KnowledgeVersion) (d : KnowledgeDocument)
    (p : KnowledgeVersion → Bool) (m : Switched db db' i v d p) (h : IsCoherent db) where
  -- the version that was current
  current-row :
      (c : KnowledgeVersion)
      → current_of d db.versions ≡ some c
      → (d.current_version_id ≡ some c.id)
        × (get_version c.id db.versions ≡ some c)
        × (c.document_id ≡ d.id)
        × (is_active_version c.status ≡ true)
  current-row c e = elim (Option-cases d.current_version_id) [
    | inl n ↦ let gone : none ≡ some c = rw n at e in absurd cc
    | inr (k, points) ↦
        let row : get_version k db.versions ≡ some c = rw points at e in
        let at_k = get_version-id k db.versions row in
        let at_d = get_document-id v.document_id db.documents m.document in
        let (on, (u, found, of_d, a)) = h.current_is_active v.document_id k d m.document points in
        let same : u ≡ c = some-injective _ _ (sym found ∙ row) in
        (
          points ∙ ap some (sym at_k),
          subst (λ n. get_version n db.versions ≡ some c) (sym at_k) row,
          ap (λ (x : KnowledgeVersion). x.document_id) (sym same) ∙ of_d ∙ sym at_d,
          rw (← same) a,
        )
  ]

  -- which is another one
  current-apart :
      (u : KnowledgeVersion)
      → u.id ≡ i
      → holds (λ (c : KnowledgeVersion). u.id == c.id) (current_of d db.versions) ≡ false
  current-apart u at_i = elim (Option-cases (current_of d db.versions)) [
    | inl n ↦ rw n refl
    | inr (c, e) ↦ rw e (elim (Bool-cases (u.id == c.id)) [
      | inr f ↦ f
      | inl t ↦
          let (points, row, of_d, a) = current-row c e in
          let c_at_i : c.id ≡ i = sym ((==_iff u.id c.id).0 t) ∙ at_i in
          let row_i = subst (λ n. get_version n db.versions ≡ some c) c_at_i row in
          let same : v ≡ c = some-injective _ _ (sym m.row ∙ row_i) in
          let a' : is_active_version v.status ≡ true = rw same a in
          let q = m.processed in absurd (ground arith)
    ])
  ]

  chosen-row :
      (u : KnowledgeVersion) (j : ℕ)
      → get_version j db.versions ≡ some u
      → p u ≡ true
      → (j ≡ i) × (u ≡ v)
  chosen-row u j e t =
      let j_is : j ≡ i = sym (get_version-id j db.versions e) ∙ m.only u t in
      let row_i = subst (λ n. get_version n db.versions ≡ some u) j_is e in
      (j_is, some-injective _ _ (sym row_i ∙ m.row))

  Switched-checks :
      (j : ℕ) (w : KnowledgeVersion) → get_version j db'.versions ≡ some w → version_checks w ≡ true
  unfolding version_checks
  Switched-checks j w e =
      retire-each (λ x. version_checks x ≡ true) (λ x a s. ground arith) (current_of d db.versions)
        j (update_where p activated db.versions) (rw m.versions at e)
        (λ x k.
          let (u, row, is) = get_version-updated p activated (λ u. refl) j db.versions k in
          let s = h.checks j u row in
          elim (Bool-cases (p u)) [ inl t ↦ rw (is, t) (ground arith) | inr f ↦ rw (is, f) s ])

  abbrev IsPointedTo : ℕ → KnowledgeVersion → Type 0
  IsPointedTo j w =
      (e : KnowledgeDocument) × (get_document w.document_id db'.documents ≡ some e)
      × (e.current_version_id ≡ some j)

  point-get :
      (n : ℕ) {x : KnowledgeDocument}
      → get_document n db.documents ≡ some x
      → get_document n db'.documents ≡ some (if x.id == d.id then point_to (some i) x else x)
  point-get n r = rw m.documents (
      get_document-update (λ e. document_id e == d.id) (point_to (some i)) (λ e. refl) n
        db.documents r)

  activated-points : IsPointedTo i (activated v)
  activated-points =
      let itself : (d.id == d.id) ≡ true = (==_iff d.id d.id).1 refl in
      let new = point-get v.document_id m.document in (point_to (some i) d, rw itself at new, refl)

  kept-points :
      (j : ℕ) (u : KnowledgeVersion)
      → get_version j db.versions ≡ some u
      → is_active_version u.status ≡ true
      → holds (λ (c : KnowledgeVersion). u.id == c.id) (current_of d db.versions) ≡ false
      → IsPointedTo j u
  kept-points j u row a apart =
      let (x, found, points) = h.active_is_current j u row a in
      let kept = point-get u.document_id found in
      elim (Bool-cases (x.id == d.id)) [
        | inr g ↦ (x, rw g at kept, points)
        | inl t ↦
            let one : u.document_id ≡ v.document_id =
              sym (get_document-id u.document_id db.documents found)
              ∙ (==_iff x.id d.id).0 t
              ∙ get_document-id v.document_id db.documents m.document in
            let x_is : x ≡ d =
              some-injective _ _
                (sym found ∙ ap (λ n. get_document n db.documents) one ∙ m.document) in
            let d_points : d.current_version_id ≡ some j = rw (← x_is) points in
            let was : current_of d db.versions ≡ some u = rw d_points row in
            let same : (u.id == u.id) ≡ false = rw was at apart in absurd (ground arith)
      ]

  Switched-active :
      (j : ℕ) (w : KnowledgeVersion)
      → get_version j db'.versions ≡ some w
      → is_active_version w.status ≡ true
      → IsPointedTo j w
  Switched-active j w e a =
      let (k, apart) =
        retire-get (current_of d db.versions) j (update_where p activated db.versions)
          (rw m.versions at e) a in
      let (u, row, is) = get_version-updated p activated (λ u. refl) j db.versions k in
      elim (Bool-cases (p u)) [
        | inl t ↦
            let (j_is, same) = chosen-row u j row t in
            let here : w ≡ activated v = rw (t, same) at is in
            subst (IsPointedTo j) (sym here)
              (subst (λ n. IsPointedTo n (activated v)) (sym j_is) activated-points)
        | inr f ↦
            let same : w ≡ u = rw f at is in
            subst (IsPointedTo j) (sym same) (
              kept-points j u row (rw same at a) (
                subst
                  (λ x.
                    holds (λ (c : KnowledgeVersion). x.id == c.id) (current_of d db.versions)
                    ≡ false)
                  same apart))
      ]

  -- a version of another document stays
  Switched-other :
      (k j : ℕ) (u : KnowledgeVersion)
      → get_version j db.versions ≡ some u
      → u.document_id ≡ k
      → k ≢ d.id
      → is_active_version u.status ≡ true
      → get_version j db'.versions ≡ some u
  Switched-other k j u row of_k other a =
      let kept = get_version-update p activated (λ u. refl) j db.versions row in
      let idle : p u ≡ false = elim (Bool-cases (p u)) [
        | inr f ↦ f
        | inl t ↦
            let same : u ≡ v = (chosen-row u j row t).1 in
            let b : is_active_version v.status ≡ true = rw same at a in
            let q = m.processed in absurd (ground arith)
      ] in
      let apart : holds (λ (c : KnowledgeVersion). u.id == c.id) (current_of d db.versions)
          ≡ false =
        elim (Option-cases (current_of d db.versions)) [
          | inl n ↦ rw n refl
          | inr (c, e) ↦ rw e (elim (Bool-cases (u.id == c.id)) [
            | inr f ↦ f
            | inl t ↦
                let (points, c_row, of_d, b) = current-row c e in
                let j_is : j ≡ c.id =
                  sym (get_version-id j db.versions row) ∙ (==_iff u.id c.id).0 t in
                let row_c = subst (λ n. get_version n db.versions ≡ some u) j_is row in
                let same : u ≡ c = some-injective _ _ (sym row_c ∙ c_row) in
                absurd (other (sym of_k ∙ ap (λ (x : KnowledgeVersion). x.document_id) same ∙ of_d))
          ])
        ] in
      rw m.versions (
        retire-kept (current_of d db.versions) j (update_where p activated db.versions)
          (rw idle at kept) apart)

  Switched-current :
      (k j : ℕ) (e : KnowledgeDocument)
      → get_document k db'.documents ≡ some e
      → e.current_version_id ≡ some j
      → (e.enabled ≡ true)
        × ((w : KnowledgeVersion) × (get_version j db'.versions ≡ some w)
            × (w.document_id ≡ k)
            × (is_active_version w.status ≡ true))
  Switched-current k j e found points =
      let (x, row, is) =
        get_document-updated (λ e. document_id e == d.id) (point_to (some i)) (λ e. refl) k
          db.documents (rw m.documents at found) in
      let x_at = get_document-id k db.documents row in
      elim (Bool-cases (x.id == d.id)) [
        | inl t ↦
            let here : e ≡ point_to (some i) x = rw t at is in
            let one : k ≡ v.document_id =
              sym x_at
              ∙ (==_iff x.id d.id).0 t
              ∙ get_document-id v.document_id db.documents m.document in
            let x_is : x ≡ d =
              some-injective _ _
                (sym row ∙ ap (λ n. get_document n db.documents) one ∙ m.document) in
            let j_is : i ≡ j =
              some-injective _ _
                (ap (λ (y : KnowledgeDocument). y.current_version_id) (sym here) ∙ points) in
            let on : e.enabled ≡ true =
              ap (λ (y : KnowledgeDocument). y.enabled) here
              ∙ ap (λ (y : KnowledgeDocument). y.enabled) x_is
              ∙ m.enabled in
            let new = get_version-update p activated (λ u. refl) i db.versions m.row in
            let chosen = m.chosen in
            let new_row : get_version i db'.versions ≡ some (activated v) = rw m.versions (
              retire-kept (current_of d db.versions) i (update_where p activated db.versions)
                (rw chosen at new) (current-apart v (get_version-id i db.versions m.row))) in
            (
              on,
              (
                activated v,
                subst (λ n. get_version n db'.versions ≡ some (activated v)) j_is new_row,
                sym one,
                refl,
              ),
            )
        | inr g ↦
            let same : e ≡ x = rw g at is in
            let (on, (u, u_row, of_k, a)) =
              h.current_is_active k j x row
                (ap (λ (y : KnowledgeDocument). y.current_version_id) (sym same) ∙ points) in
            let other : k ≢ d.id =
              λ q. absurd (false≢true (sym g ∙ (==_iff x.id d.id).1 (x_at ∙ q))) in
            (
              ap (λ (y : KnowledgeDocument). y.enabled) same ∙ on,
              (u, Switched-other k j u u_row of_k other a, of_k, a),
            )
      ]

  pub Switched-IsCoherent : IsCoherent db'
  Switched-IsCoherent = record {
    document_keys = rw m.documents (
        update-IsKeyed document_id (λ e. document_id e == d.id) (point_to (some i)) (λ e. refl)
          db.documents h.document_keys);
    version_keys = rw m.versions (
        retire-IsKeyed (current_of d db.versions) (update_where p activated db.versions)
          (update-IsKeyed version_id p activated (λ u. refl) db.versions h.version_keys));
    checks = Switched-checks;
    active_is_current = Switched-active;
    current_is_active = Switched-current;
  }
