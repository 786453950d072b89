-- ===== src/Engine/Healthy.antt =====
-- The stages of a commit while the database serves every statement: exact equations.
use nfvis.Prelude.{
  ℕ, String, Bool, true, false, List, [], ◌∷◌, ◌≡◌, refl, ◌∙◌, ◌⊎◌, inl, inr, arith, if◌then◌else◌,
  Bool-cases, Option-cases, List-cases,
}
use nfvis.Model.{Config, ValidateError}
use nfvis.Engine.Types.{
  Stmt, select_latest, select_revision, insert_revision, select_revisions, delete_revisions,
  insert_lock, update_lock, delete_lock, select_lock, upsert_confirmed, select_confirmed,
  delete_confirmed, insert_audit, select_audit, corrupt, confirm_required, validation, ok, err,
  Detail, rejected, Action, commit, Outcome, failure, AuditEntry, Session, CommitOpts,
}
use nfvis.Engine.Db.{append_audit}
use nfvis.Engine.Keeps.{bind_ok, bind_err, pure_eq}
use nfvis.Engine.State.{Env, Engine, ◌>>=◌, raise, pure, audit, committed}
use nfvis.Engine.Commit.{reject, vet, all_errors, needs_confirm, image_errors}

-- Every statement is served.
pub record IsHealthy (fault : Stmt → Bool) : Type 0 where
  pub latest : fault select_latest ≡ false
  pub revision : fault select_revision ≡ false
  pub appended : fault insert_revision ≡ false
  pub listed : fault select_revisions ≡ false
  pub pruned : fault delete_revisions ≡ false
  pub acquired : fault insert_lock ≡ false
  pub refreshed : fault update_lock ≡ false
  pub released : fault delete_lock ≡ false
  pub lock_read : fault select_lock ≡ false
  pub pending : fault upsert_confirmed ≡ false
  pub pending_read : fault select_confirmed ≡ false
  pub cleared : fault delete_confirmed ≡ false
  pub audited : fault insert_audit ≡ false
  pub audit_read : fault select_audit ≡ false

module _ {B S : Type 0} where
  abbrev pub IsServed : Engine B S → Type 0
  IsServed e = IsHealthy e.store.fault

module _ {B S : Type 0} (env : Env B S) (now : ℕ) where
  abbrev pub entry : String → Action → Detail → Outcome → AuditEntry
  entry user action detail result = record {
    time = now;
    user = user;
    action = action;
    detail = detail;
    result = result;
    time_synced = env.time_synced;
  }

  -- The engine with one more line in its audit log.
  abbrev pub logged : AuditEntry → Engine B S → Engine B S
  logged a e = record e { store = record (e.store) { audit = a ∷ e.store.audit } }

  pub audit_served :
      (user : String) (a : Action) (d : Detail) (r : Outcome) (e : Engine B S)
      → IsServed e
      → audit env now user a d r e ≡ (ok tt, logged (entry user a d r) e)
  unfolding audit append_audit ◌>>=◌
  audit_served user a d r e h = ground arith

  reject_cons :
      (sess : Session) (v : ValidateError) (vs : List ValidateError) (e : Engine B S)
      → IsServed e
      → reject env now sess (v ∷ vs) e
        ≡ (err (validation (v ∷ vs)), logged (entry sess.user commit (rejected (v ∷ vs)) failure) e)
  unfolding reject append_audit ◌>>=◌
  reject_cons sess v vs e h = ground arith

  reject_nil : (sess : Session) (e : Engine B S) → reject env now sess [] e ≡ (ok tt, e)
  unfolding reject ◌>>=◌
  reject_nil sess e = refl

  pub reject_served :
      (sess : Session) (vs : List ValidateError) (e : Engine B S) {v : ValidateError}
      {rest : List ValidateError}
      → vs ≡ v ∷ rest
      → IsServed e
      → reject env now sess vs e
        ≡ (err (validation vs), logged (entry sess.user commit (rejected vs) failure) e)
  reject_served sess vs e p h = rw p (reject_cons sess _ _ e h)

  pub reject_none :
      (sess : Session) (vs : List ValidateError) (e : Engine B S)
      → vs ≡ []
      → reject env now sess vs e ≡ (ok tt, e)
  reject_none sess vs e p = rw p (reject_nil sess e)

  guard_raises :
      (b : Bool) (e : Engine B S)
      → b ≡ true
      → (if b then raise {A = Unit {0}} confirm_required else pure tt) e ≡ (err confirm_required, e)
  unfolding ◌>>=◌
  guard_raises b e p = rw p

  guard_passes :
      (b : Bool) (e : Engine B S)
      → b ≡ false
      → (if b then raise {A = Unit {0}} confirm_required else pure tt) e ≡ (ok tt, e)
  unfolding ◌>>=◌
  guard_passes b e p = rw p

  -- `committedLocked` reads the newest revision, or finds that it does not parse.
  pub committed_served :
      (e : Engine B S)
      → IsServed e
      → (committed env e ≡ (err corrupt, e)) ⊎ ((c : Config) × (committed env e ≡ (ok c, e)))
  unfolding committed ◌>>=◌
  committed_served e h = elim (List-cases e.store.revisions) [
    | inl p ↦ inl (ground arith)
    | inr (r, rs, p) ↦ elim (Option-cases (env.decode r.config_json)) [
      | inl q ↦ inl (ground arith)
      | inr (c, q) ↦ inr (c, ground arith)
    ]
  ]

  -- How the checks of a commit end.
  pub data Vetted (sess : Session) (opts : CommitOpts) (c : Config) (e : Engine B S) : Type 0 where
    invalid :
        (vs : List ValidateError)
        → vs ≡ all_errors env opts c
        → vet env now sess opts c e
          ≡ (err (validation vs), logged (entry sess.user commit (rejected vs) failure) e)
        → Vetted sess opts c e
    unreadable : vet env now sess opts c e ≡ (err corrupt, e) → Vetted sess opts c e
    unconfirmed : vet env now sess opts c e ≡ (err confirm_required, e) → Vetted sess opts c e
    no_image :
        (vs : List ValidateError)
        → vs ≡ image_errors env c
        → vet env now sess opts c e
          ≡ (err (validation vs), logged (entry sess.user commit (rejected vs) failure) e)
        → Vetted sess opts c e
    passed :
        (base : Config)
        → committed env e ≡ (ok base, e)
        → all_errors env opts c ≡ []
        → needs_confirm sess opts base c ≡ false
        → image_errors env c ≡ []
        → vet env now sess opts c e ≡ (ok base, e)
        → Vetted sess opts c e

  pub vet_served :
      (sess : Session) (opts : CommitOpts) (c : Config) (e : Engine B S)
      → IsServed e
      → Vetted sess opts c e
  unfolding vet
  vet_served sess opts c e h = elim (List-cases (all_errors env opts c)) [
    | inr (v, vs, p) ↦ invalid _ refl (bind_err _ _ (reject_served sess _ e p h))
    | inl p ↦ elim (committed_served e h) [
      | inl q ↦ unreadable (bind_ok _ _ (reject_none sess _ e p) ∙ bind_err _ _ q)
      | inr (base, q) ↦ elim (Bool-cases (needs_confirm sess opts base c)) [
        | inl r ↦ unconfirmed (
            bind_ok _ _ (reject_none sess _ e p)
            ∙ bind_ok _ _ q
            ∙ bind_err _ _ (guard_raises _ e r))
        | inr r ↦ elim (List-cases (image_errors env c)) [
          | inr (v, vs, i) ↦ no_image _ refl (
              bind_ok _ _ (reject_none sess _ e p)
              ∙ bind_ok _ _ q
              ∙ bind_ok _ _ (guard_passes _ e r)
              ∙ bind_err _ _ (reject_served sess _ e i h))
          | inl i ↦ passed base q p r i (
              bind_ok _ _ (reject_none sess _ e p)
              ∙ bind_ok _ _ q
              ∙ bind_ok _ _ (guard_passes _ e r)
              ∙ bind_ok _ _ (reject_none sess _ e i)
              ∙ pure_eq base e)
        ]
      ]
    ]
  ]
