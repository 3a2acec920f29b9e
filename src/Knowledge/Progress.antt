-- ===== src/Knowledge/Progress.antt =====
-- Every change of the knowledge tables keeps each version, and moves it only forward.
use mathlib.Core.Option.{some-injective}
use e_commerec_operations.Base.{
  Bool, Bool-cases, List, Option, arith, inl, inr, none, refl, some, subst, sym, true, update_where,
  ℕ, ◌∙◌, ◌≡◌,
}
use e_commerec_operations.Knowledge.Activate.{
  activated, current_of, is_alive, is_current, retire, retired, withdrawn,
}
use e_commerec_operations.Knowledge.Changes.{
  Change, Switched, gained_document, gained_version, passed, shut_down, stayed, switched, twice,
}
use e_commerec_operations.Knowledge.Consistent.{Progress, Progress-refl, Progress-trans}
use e_commerec_operations.Knowledge.Lookup.{get_version-id, get_version-insert, get_version-update}
use e_commerec_operations.Knowledge.Tables.{
  KnowledgeDb, KnowledgeDocument, KnowledgeVersion, get_version, is_active_version, is_processed,
}

abbrev pub Advances : KnowledgeDb → KnowledgeDb → Type 0
Advances db db' =
    (i : ℕ) (v : KnowledgeVersion)
    → get_version i db.versions ≡ some v
    → (w : KnowledgeVersion) × (get_version i db'.versions ≡ some w) × Progress v w

Progress-activated :
    (v : KnowledgeVersion) → is_processed v.status ≡ true → Progress v (activated v)
Progress-activated v q = record {
  document = refl;
  number = refl;
  content = refl;
  attempts = omega arith;
  from_active = λ h. refl;
  finished = λ h. absurd (ground arith);
}

Progress-retired :
    (v : KnowledgeVersion) → is_active_version v.status ≡ true → Progress v (retired v)
Progress-retired v a = record {
  document = refl;
  number = refl;
  content = refl;
  attempts = omega arith;
  from_active = λ h. refl;
  finished = λ h. absurd (ground arith);
}

Progress-withdrawn : (i : ℕ) (v : KnowledgeVersion) → is_alive i v ≡ true → Progress v (withdrawn v)
Progress-withdrawn i v a = record {
  document = refl;
  number = refl;
  content = refl;
  attempts = omega arith;
  from_active = λ h. refl;
  finished = λ h. absurd (ground arith);
}

update-Advances :
    (p : KnowledgeVersion → Bool) (f : KnowledgeVersion → KnowledgeVersion)
    → ((v : KnowledgeVersion) → (f v).id ≡ v.id)
    → (versions : List KnowledgeVersion) (i : ℕ) (v : KnowledgeVersion)
    → get_version i versions ≡ some v
    → (p v ≡ true → Progress v (f v))
    → (w : KnowledgeVersion) × (get_version i (update_where p f versions) ≡ some w) × Progress v w
update-Advances p f same versions i v e move =
    let kept = get_version-update p f same i versions e in
    elim (Bool-cases (p v)) [
      | inl t ↦ (f v, rw t at kept, move t)
      | inr g ↦ (v, rw g at kept, Progress-refl v)
    ]

retire-Advances :
    (c : Option KnowledgeVersion) (versions : List KnowledgeVersion) (i : ℕ) (v : KnowledgeVersion)
    → get_version i versions ≡ some v
    → (w : KnowledgeVersion) × (get_version i (retire c versions) ≡ some w) × Progress v w
unfolding retire
retire-Advances none versions i v e = (v, e, Progress-refl v)
retire-Advances (some c) versions i v e =
    update-Advances (is_current c.id) retired (λ u. refl) versions i v e
      (λ t. Progress-retired v (ground arith))

Switched-Advances :
    (i : ℕ) (v : KnowledgeVersion) (d : KnowledgeDocument) (p : KnowledgeVersion → Bool)
    (db db' : KnowledgeDb)
    → Switched db db' i v d p
    → Advances db db'
Switched-Advances i v d p db db' m j u e =
    let (w, row, first) =
      update-Advances p activated (λ x. refl) db.versions j u e
        (λ t.
          let j_is : j ≡ i = sym (get_version-id j db.versions e) ∙ m.only u t in
          let row_i = subst (λ n. get_version n db.versions ≡ some u) j_is e in
          let same : u ≡ v = some-injective _ _ (sym row_i ∙ m.row) in
          Progress-activated u (rw same m.processed)) in
    let (x, found, second) =
      retire-Advances (current_of d db.versions) (update_where p activated db.versions) j w row in
    (x, rw m.versions found, Progress-trans u w x first second)

same-Advances : (db db' : KnowledgeDb) → db'.versions ≡ db.versions → Advances db db'
same-Advances db db' versions i v e = (v, rw versions e, Progress-refl v)

pub Change-Advances : {db db' : KnowledgeDb} → Change db db' → Advances db db'
Change-Advances (stayed {db} {db'} documents versions) = same-Advances db db' versions
Change-Advances (passed p f {db} {db'} q documents versions) =
    λ i v e. rw versions (update-Advances p f q.same db.versions i v e (q.progress i v e))
Change-Advances (twice a b) = λ i v e.
    let (w, row, first) = Change-Advances a i v e in
    let (x, found, second) = Change-Advances b i w row in
    (x, found, Progress-trans v w x first second)
Change-Advances (gained_version w {db} {db'} fresh idle sound documents versions) =
    λ i v e. (v, rw versions (get_version-insert w i db.versions fresh e), Progress-refl v)
Change-Advances (gained_document w {db} {db'} fresh blank documents versions) =
    same-Advances db db' versions
Change-Advances (switched i v d p {db} {db'} m) = Switched-Advances i v d p db db' m
Change-Advances (shut_down i {db} {db'} documents versions) = λ j v e.
    rw versions (
      update-Advances (is_alive i) withdrawn (λ u. refl) db.versions j v e (Progress-withdrawn i v))
