-- ===== src/Engine/Locks/Idle.antt =====
-- The lock of a session that has been idle for too long, and a lock that is free.
use nfvis.Prelude.{
  ℕ, ◌<◌, ◌-◌, String, none, some, true, ltb, str_eq, str_eq_complete, false, ◌≡◌, refl, sym, ap,
  ◌∙◌, arith, subst,
}
use nfvis.Model.{Config}
use nfvis.Engine.Types.{ok, LockInfo, Session}
use nfvis.Engine.Db.{append_audit, release_lock, get_lock, refresh_lock}
use nfvis.Engine.State.{Env, Engine, ◌>>=◌, ◌>>◌, modify, call, session_holder, committed}
use nfvis.Engine.Lifecycle.{
  idle_ttl, sweep, sweep_idle, drop_if_idle, drop_idle, sweep_confirmed, edit, edit_swept,
  open_candidate,
}
use nfvis.Engine.Healthy.{IsServed}
use nfvis.Engine.Keeps.{bind_ok, on_failure_ok}
use nfvis.Engine.Reads.{committed_row, row_committed}
use nfvis.Engine.Swept.{sweep_then, sweep-IsServed}

module _ {B S : Type 0} (env : Env B S) (now : ℕ) where
  -- Nobody edits.
  pub record IsFree (e : Engine B S) : Type 0 where
    pub lock : e.store.lock ≡ none
    pub candidate : e.candidate ≡ none
    pub holder : e.holder ≡ ""
    pub clean : e.dirty ≡ false

  ltb-true : (a b : ℕ) → a < b → ltb a b ≡ true
  ltb-true a b l = ground arith

  sweep_idle_eq :
      (e : Engine B S) → IsServed e → sweep_idle env now e ≡ drop_if_idle env now e.store.lock e
  unfolding sweep_idle get_lock ◌>>=◌
  sweep_idle_eq e h = rw h.lock_read

  drop_if_idle_eq :
      (li : LockInfo) (e : Engine B S)
      → idle_ttl env.lock_idle_ttl < now - li.last_activity
      → drop_if_idle env now (some li) e ≡ drop_idle env now li e
  unfolding drop_if_idle ◌>>=◌
  drop_if_idle_eq li e i = rw (ltb-true _ _ i)

  drop_idle-IsFree :
      (li : LockInfo) (e : Engine B S)
      → IsServed e
      → e.store.lock ≡ some li
      → str_eq li.holder e.holder ≡ true
      → IsFree (drop_idle env now li e).1
  unfolding drop_idle append_audit release_lock ◌>>=◌
  drop_idle-IsFree li e h l o = record {
    lock = ground arith;
    candidate = ground arith;
    holder = ground arith;
    clean = ground arith;
  }

  nothing_pending :
      (e : Engine B S) → e.store.confirmed ≡ none → sweep_confirmed env now e ≡ (ok tt, e)
  unfolding sweep_confirmed ◌>>=◌
  nothing_pending e n = ground arith

  pub sweep_drops :
      (li : LockInfo) (e : Engine B S)
      → IsServed e
      → e.store.confirmed ≡ none
      → e.store.lock ≡ some li
      → idle_ttl env.lock_idle_ttl < now - li.last_activity
      → sweep env now e ≡ drop_idle env now li e
  unfolding sweep
  sweep_drops li e h n l i =
      bind_ok _ _ (nothing_pending e n)
      ∙ sweep_idle_eq e h
      ∙ ap (λ o. drop_if_idle env now o e) l
      ∙ drop_if_idle_eq li e i

  drop_idle-revisions :
      (li : LockInfo) (e : Engine B S)
      → (drop_idle env now li e).1.store.revisions ≡ e.store.revisions
  unfolding drop_idle append_audit release_lock ◌>>=◌
  drop_idle-revisions li e = ground arith

  -- The session `sess` edits a fresh copy of the committed configuration, under a lock of its own.
  pub record IsEditing (sess : Session) (base : Config) (e : Engine B S) : Type 0 where
    pub lock :
        e.store.lock
        ≡ some (record { holder = session_holder sess; acquired_at = now; last_activity = now })
    pub candidate : e.candidate ≡ some base
    pub holder : e.holder ≡ session_holder sess
    pub clean : e.dirty ≡ false

  -- The state behind `AcquireLock` of a free lock.
  abbrev taken : String → Engine B S → Engine B S
  taken h e = record e {
    store = record (e.store) {
      lock = some (record { holder = h; acquired_at = now; last_activity = now });
    };
  }

  edit_swept_eq :
      (h : String) (e : Engine B S)
      → IsServed e
      → e.store.lock ≡ none
      → edit_swept env now h e ≡ open_candidate env now h true (taken h e)
  unfolding edit_swept ◌>>=◌
  edit_swept_eq h e s l = ground arith

  abbrev opened : String → Config → Engine B S → Engine B S
  opened h base e = record e { candidate = some base; holder = h; dirty = false }

  refreshed :
      (h : String) (base : Config) (e : Engine B S)
      → IsServed e
      → str_eq h h ≡ true
      → (modify (λ x. opened h base x) >> call (refresh_lock h now)) (taken h e)
        ≡ (ok tt, opened h base (taken h e))
  unfolding refresh_lock ◌>>=◌
  refreshed h base e s t = ground arith

  open_candidate_eq :
      (h : String) (base : Config) (e : Engine B S)
      → IsServed e
      → committed env (taken h e) ≡ (ok base, taken h e)
      → str_eq h h ≡ true
      → open_candidate env now h true (taken h e) ≡ (ok tt, opened h base (taken h e))
  unfolding open_candidate
  open_candidate_eq h base e s q t = bind_ok _ _ (on_failure_ok _ _ q) ∙ refreshed h base e s t

  -- A session that finds the lock free gets it, with a fresh copy of the committed configuration as
  -- its candidate. The database serves every statement and the committed configuration parses.
  edit_swept_free :
      (sess : Session) (base : Config) (e : Engine B S)
      → IsServed e
      → e.store.lock ≡ none
      → committed env e ≡ (ok base, e)
      → let e' = (edit_swept env now (session_holder sess) e).1 in
        (edit_swept env now (session_holder sess) e ≡ (ok tt, e')) × IsEditing sess base e'
  edit_swept_free sess base e h l q =
      let w = session_holder sess in
      let (r, rs, p, d) = committed_row env e base h q in
      subst (λ x. (x ≡ (ok tt, x.1)) × IsEditing sess base x.1)
        (sym (
          edit_swept_eq w e h l
          ∙ open_candidate_eq w base e h (row_committed env (taken w e) base r rs h p d)
              (str_eq_complete w w refl)))
        (refl, record { lock = refl; candidate = refl; holder = refl; clean = refl })

  -- A lock of the session that edits and that has been idle for longer than the limit does not keep
  -- another session out: its `Edit` succeeds, and it edits a fresh copy of the committed
  -- configuration under a lock of its own. No commit is waiting for its confirmation, the database
  -- serves every statement, and the committed configuration parses.
  pub idle_lock_passes_on :
      (sess : Session) (base : Config) (li : LockInfo) (e : Engine B S)
      → IsServed e
      → e.store.confirmed ≡ none
      → e.store.lock ≡ some li
      → li.holder ≡ e.holder
      → idle_ttl env.lock_idle_ttl < now - li.last_activity
      → committed env e ≡ (ok base, e)
      → let e' = (edit env now sess e).1 in
        (edit env now sess e ≡ (ok tt, e')) × IsEditing sess base e'
  unfolding edit
  idle_lock_passes_on sess base li e h n l o i q =
      let t = sweep_drops li e h n l i in
      let s = (sweep env now e).1 in
      let free =
        subst (λ x. IsFree x.1) (sym t)
          (drop_idle-IsFree li e h l (str_eq_complete li.holder e.holder o)) in
      let (r, rs, p, d) = committed_row env e base h q in
      let served = sweep-IsServed env now e h in
      subst (λ x. (x ≡ (ok tt, x.1)) × IsEditing sess base x.1)
        (sym (sweep_then env now (edit_swept env now (session_holder sess)) e))
        (edit_swept_free sess base s served free.lock (
          row_committed env s base r rs served
            (ap (λ x. x.1.store.revisions) t ∙ drop_idle-revisions li e ∙ p) d))
