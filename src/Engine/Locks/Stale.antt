-- ===== src/Engine/Locks/Stale.antt =====
-- A lock that a restart of the daemon leaves behind.
use nfvis.Prelude.{ℕ, String, Bool, some, ◌≡◌, ◌≢◌, refl, sym, ◌∙◌, arith, subst, str_eq_sound}
use nfvis.Engine.Types.{Stmt, Message, err, locked, LockInfo, Session, ConfirmedInfo}
use nfvis.Engine.Db.{Db, latest_revision, append_revision, append_audit, release_lock}
use nfvis.Engine.State.{Env, Engine, ◌>>=◌, call, session_holder}
use nfvis.Engine.Lifecycle.{
  fresh, sweep, sweep_idle, sweep_confirmed, edit, new_engine, boot, drop_idle, recover_confirmed,
  do_confirmed_rollback,
}
use nfvis.Engine.Healthy.{IsHealthy}
use nfvis.Engine.Keeps.{Keeps, keeps_rules}
use nfvis.Engine.Swept.{FailsAs, do_confirmed_rollback-FailsAs, sweep_then, sweep-IsServed}
use nfvis.Engine.Exclusion.{edit_swept_locked}

-- Nobody edits in this process, and the lock row carries the name of a session.
abbrev IsStale : {B S : Type 0} → LockInfo → Engine B S → Type 0
IsStale li e = (e.holder ≡ "") × (e.store.lock ≡ some li)

module _ {B S : Type 0} (env : Env B S) (now : ℕ) (li : LockInfo) (named : li.holder ≢ "") where
  drop_idle-IsStale : (x : LockInfo) → Keeps (IsStale li) (drop_idle env now x)
  unfolding drop_idle append_audit release_lock ◌>>=◌
  drop_idle-IsStale x = record {
    at = λ e h. ground (arith, named, str_eq_sound li.holder e.holder);
  }

  sweep_idle-IsStale : Keeps (IsStale li) (sweep_idle env now)
  unfolding sweep_idle ◌>>=◌
  sweep_idle-IsStale = record {
    at = λ e h. grind (arith, λ (x : LockInfo). (drop_idle-IsStale x).at);
  }

  do_confirmed_rollback-IsStale :
      (cf : ConfirmedInfo) → Keeps (IsStale li) (do_confirmed_rollback env now cf)
  unfolding do_confirmed_rollback append_audit ◌>>=◌
  do_confirmed_rollback-IsStale cf = record { at = λ e h. ground arith }

  sweep_confirmed-IsStale : Keeps (IsStale li) (sweep_confirmed env now)
  unfolding sweep_confirmed ◌>>=◌
  sweep_confirmed-IsStale = record {
    at = λ e h. grind (arith, λ (cf : ConfirmedInfo). (do_confirmed_rollback-IsStale cf).at);
  }

  sweep-IsStale : Keeps (IsStale li) (sweep env now)
  unfolding sweep
  sweep-IsStale = search (keeps_rules, sweep_confirmed-IsStale, sweep_idle-IsStale)

  recover_confirmed-IsStale : Keeps (IsStale li) (recover_confirmed env now)
  unfolding recover_confirmed ◌>>=◌
  recover_confirmed-IsStale = record {
    at = λ e h. grind (arith, λ (cf : ConfirmedInfo). (do_confirmed_rollback-IsStale cf).at);
  }

  latest_revision-IsStale : Keeps (IsStale {B = B} {S = S} li) (call latest_revision)
  unfolding latest_revision ◌>>=◌
  latest_revision-IsStale = record { at = λ e h. ground arith }

  append_revision-IsStale :
      (b : B) (m : Message) (u : String)
      → Keeps (IsStale {B = B} {S = S} li) (call (append_revision b now m u))
  unfolding append_revision ◌>>=◌
  append_revision-IsStale b m u = record { at = λ e h. ground arith }

  boot-IsStale : Keeps (IsStale li) (boot env now)
  unfolding boot
  boot-IsStale =
      search
        (keeps_rules, latest_revision-IsStale, append_revision-IsStale, recover_confirmed-IsStale)
        depth 8

module _ {B S : Type 0} (env : Env B S) (now : ℕ) (f : Stmt → Bool) where
  recover_confirmed-FailsAs : Keeps (FailsAs f) (recover_confirmed env now)
  unfolding recover_confirmed ◌>>=◌
  recover_confirmed-FailsAs = record {
    at = λ e h.
        grind (arith, λ (cf : ConfirmedInfo). (do_confirmed_rollback-FailsAs env now f cf).at);
  }

  latest_revision-FailsAs : Keeps (FailsAs {B = B} {S = S} f) (call latest_revision)
  unfolding latest_revision ◌>>=◌
  latest_revision-FailsAs = record { at = λ e h. ground arith }

  append_revision-FailsAs :
      (b : B) (m : Message) (u : String)
      → Keeps (FailsAs {B = B} {S = S} f) (call (append_revision b now m u))
  unfolding append_revision ◌>>=◌
  append_revision-FailsAs b m u = record { at = λ e h. ground arith }

  boot-FailsAs : Keeps (FailsAs f) (boot env now)
  unfolding boot
  boot-FailsAs =
      search
        (keeps_rules, latest_revision-FailsAs, append_revision-FailsAs, recover_confirmed-FailsAs)
        depth 8

module _ {B S : Type 0} (env : Env B S) where
  -- A lock row that an earlier process has left keeps every other session out of the configuration
  -- mode at every later time, however long it has been idle: the sweep deletes a row of the session
  -- that edits in this process, and there is none. The database serves every statement.
  pub stale_lock_stays :
      (started later : ℕ) (sess : Session) (li : LockInfo) (db : Db B) (s : S)
      → IsHealthy db.fault
      → db.lock ≡ some li
      → li.holder ≢ ""
      → li.holder ≢ session_holder sess
      → let e = (new_engine env started db s).1 in
        edit env later sess e ≡ (err (locked li.holder), (sweep env later e).1)
  unfolding new_engine edit
  stale_lock_stays started later sess li db s h l n d =
      let e = (new_engine env started db s).1 in
      let stale = (boot-IsStale env started li n).at (fresh env started db s) (refl, l) in
      let served =
        subst IsHealthy (sym ((boot-FailsAs env started db.fault).at (fresh env started db s) refl))
          h in
      sweep_then env later _ e
      ∙ edit_swept_locked env later (session_holder sess) _ li
          ((sweep-IsStale env later li n).at e stale).1
          (sweep-IsServed env later e served).lock_read d
