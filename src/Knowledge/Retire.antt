-- ===== src/Knowledge/Retire.antt =====
-- The rows of a table after the version that was current is retired.
use e_commerec_operations.Base.{
  Bool-cases, IsKeyed, List, Option, arith, false, holds, inl, inr, none, refl, some, true,
  update-IsKeyed, ℕ, ◌==◌, ◌≡◌,
}
use e_commerec_operations.Knowledge.Activate.{is_current, retire, retired}
use e_commerec_operations.Knowledge.Lookup.{get_version-update, get_version-updated}
use e_commerec_operations.Knowledge.Tables.{
  KnowledgeVersion, get_version, is_active_version, version_id,
}

pub retire-get :
    (c : Option KnowledgeVersion) (i : ℕ) (versions : List KnowledgeVersion) {w : KnowledgeVersion}
    → get_version i (retire c versions) ≡ some w
    → is_active_version w.status ≡ true
    → (get_version i versions ≡ some w) × (holds (λ (x : KnowledgeVersion). w.id == x.id) c ≡ false)
unfolding retire
retire-get none i versions e a = (e, refl)
retire-get (some c) i versions {w} e a =
    let (v, row, is) = get_version-updated (is_current c.id) retired (λ v. refl) i versions e in
    elim (Bool-cases (is_current c.id v)) [
      | inl t ↦ let gone : w ≡ retired v = rw t at is in absurd (ground arith)
      | inr f ↦
          let same : w ≡ v = rw f at is in
          (
            rw same row,
            rw same (let b : is_active_version v.status ≡ true = rw same at a in ground arith),
          )
    ]

pub retire-kept :
    (c : Option KnowledgeVersion) (i : ℕ) (versions : List KnowledgeVersion) {w : KnowledgeVersion}
    → get_version i versions ≡ some w
    → holds (λ (x : KnowledgeVersion). w.id == x.id) c ≡ false
    → get_version i (retire c versions) ≡ some w
unfolding retire
retire-kept none i versions e apart = e
retire-kept (some c) i versions {w} e apart =
    let kept = get_version-update (is_current c.id) retired (λ v. refl) i versions e in
    let off : is_current c.id w ≡ false = ground arith in rw off at kept

pub retire-IsKeyed :
    (c : Option KnowledgeVersion) (versions : List KnowledgeVersion)
    → IsKeyed version_id versions
    → IsKeyed version_id (retire c versions)
unfolding retire
retire-IsKeyed none versions h = h
retire-IsKeyed (some c) versions h =
    update-IsKeyed version_id (is_current c.id) retired (λ v. refl) versions h

-- Whatever holds of a version before, and of it when it is retired, holds of each version after.
pub retire-each :
    (P : KnowledgeVersion → Type 0)
    → ((v : KnowledgeVersion) → is_active_version v.status ≡ true → P v → P (retired v))
    → (c : Option KnowledgeVersion) (i : ℕ) (versions : List KnowledgeVersion)
      {w : KnowledgeVersion}
    → get_version i (retire c versions) ≡ some w
    → ((v : KnowledgeVersion) → get_version i versions ≡ some v → P v)
    → P w
unfolding retire
retire-each P keep none i versions e h = h _ e
retire-each P keep (some c) i versions e h =
    let (v, row, is) = get_version-updated (is_current c.id) retired (λ v. refl) i versions e in
    elim (Bool-cases (is_current c.id v)) [
      | inl t ↦ rw (is, t) (keep v (ground arith) (h v row))
      | inr f ↦ rw (is, f) (h v row)
    ]
