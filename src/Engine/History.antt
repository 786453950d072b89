-- ===== src/Engine/History.antt =====
-- Revisions and the audit log as the engine shows them (internal/config/engine.go): `Rollback`,
-- `Compare`, `CurrentRevision`, `History`, `AuditTrail`, `Audit`. What the difference of two
-- configurations is printed from is the pair.
use nfvis.Prelude.{
  ℕ, ◌-◌, String, Bool, true, ◌||◌, some, List, [], ◌∷◌, map, ◌==◌, ltb, leb, if◌then◌else◌,
}
use nfvis.Model.{Config}
use nfvis.Engine.Types.{
  no_revision, rollback_cancels, rolled_back, operation, rollback, custom, success, reported,
  AuditEntry, Message, Revision, Session,
}
use nfvis.Engine.Db.{
  keep_revisions, latest_revision, load_revision, list_revisions, refresh_lock, get_confirmed,
  list_audit,
}
use nfvis.Engine.State.{
  Env, session_holder, M, ◌>>=◌, ◌>>◌, pure, raise, modify, or_nil, call, audit, parse, committed,
  require_holder,
}
use nfvis.Engine.Lifecycle.{sweep}
use nfvis.Engine.Commit.{confirm_pending}

-- `Revision` of the engine: what the history shows of a row.
pub record HistoryEntry : Type 0 where
  pub rev : ℕ
  pub committed_at : ℕ
  pub user : String
  pub comment : Message
  pub current : Bool

module _ {B S : Type 0} (env : Env B S) (now : ℕ) where
  abbrev out_of_history : ℕ → Bool
  out_of_history n = n == 0 || ltb (keep_revisions - 1) n

  -- `Rollback` from where the snapshot has been read.
  unfoldable pub restore : Session → ℕ → ℕ → B → M B S (Unit {0})
  unfolding refresh_lock audit
  restore sess n rev stored = do
    cfg ← parse env (some stored)
    modify (λ e. record e { candidate = some cfg; dirty = true })
    audit env now sess.user rollback (rolled_back n rev) success
    call (refresh_lock (session_holder sess) now)

  -- `Rollback` behind the sweep and the check of the holder.
  unfoldable pub rollback_to : Session → ℕ → M B S (Unit {0})
  unfolding latest_revision load_revision get_confirmed confirm_pending restore
  rollback_to sess n = do
    if out_of_history n then raise (no_revision n) else pure tt
    cf ← or_nil (call get_confirmed)
    confirm_pending env now sess.user rollback_cancels cf
    latest ← call latest_revision
    stored ← call (load_revision (latest.0 - n))
    restore sess n (latest.0 - n) stored

  -- `Rollback`.
  unfoldable pub rollback_session : Session → ℕ → M B S (Unit {0})
  rollback_session sess n = do sweep env now; _ ← require_holder sess; rollback_to sess n

  -- `Compare`.
  unfoldable pub compare_revision : ℕ → M B S (Config × Config)
  unfolding latest_revision load_revision committed
  compare_revision n = do
    latest ← call latest_revision
    if out_of_history n || leb latest.0 n then raise (no_revision n) else pure tt
    stored ← call (load_revision (latest.0 - n))
    snap ← parse env (some stored)
    base ← committed env
    pure (snap, base)

  -- `Audit`.
  unfoldable pub audit_operation : String → String → String → String → M B S (Unit {0})
  unfolding audit
  audit_operation user action detail result =
      audit env now user (custom action) (operation detail) (reported result)

module _ {B : Type 0} where
  abbrev pub newest_rev : List (Revision B) → ℕ
  newest_rev [] = 0
  newest_rev (r ∷ rs) = r.rev

  abbrev pub entry_of : ℕ → Revision B → HistoryEntry
  entry_of latest r = record {
    rev = r.rev;
    committed_at = r.committed_at;
    user = r.user;
    comment = r.message;
    current = r.rev == latest;
  }

module _ {B S : Type 0} where
  -- `CurrentRevision`.
  unfoldable pub current_revision : M B S ℕ
  unfolding latest_revision
  current_revision = do latest ← call latest_revision; pure latest.0

  -- `History`.
  unfoldable pub history : ℕ → M B S (List HistoryEntry)
  unfolding list_revisions
  history limit = do
    revs ← call (list_revisions limit)
    pure (map (entry_of (newest_rev revs)) revs)

  -- `AuditTrail`.
  unfoldable pub audit_trail : ℕ → ℕ → M B S (List AuditEntry)
  unfolding list_audit
  audit_trail limit offset =
      call (list_audit (if limit == 0 || ltb 1000 limit then 100 else limit) offset)
