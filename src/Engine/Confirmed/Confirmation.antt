-- ===== src/Engine/Confirmed/Confirmation.antt =====
-- The confirmation of a commit.
use nfvis.Prelude.{ℕ, none, some, ◌∷◌, subst, ◌≡◌, ◌≢◌, refl, sym, ap, ◌∙◌, arith, inl, inr}
use nfvis.Engine.Types.{
  ok, err, not_editing, confirm, explicit_confirm, success, ConfirmedInfo, Session, CommitOpts,
}
use nfvis.Engine.Db.{append_audit, get_confirmed}
use nfvis.Engine.State.{Env, Engine, ◌>>=◌, call, session_holder}
use nfvis.Engine.Lifecycle.{on_confirmed_timer, sweep}
use nfvis.Engine.Commit.{commit_session, confirm_implicitly, confirm_explicitly, confirm_commit}
use nfvis.Engine.Healthy.{IsServed, entry}
use nfvis.Engine.Guards.{require_cases}
use nfvis.Engine.Keeps.{bind_ok, bind_err}
use nfvis.Engine.Swept.{sweep_then, sweep-IsServed}
use nfvis.Engine.Commits.Before.{before, commit_session_eq}
use nfvis.Engine.Confirmed.Timeout.{timer_waits}

none≠some : {A : Type 0} {a : A} → none ≡ some a → ⊥
none≠some p = cc p

module _ {B S : Type 0} (env : Env B S) (now : ℕ) where
  confirm_swept :
      (sess : Session) (cf : ConfirmedInfo) (e : Engine B S)
      → IsServed e
      → e.store.confirmed ≡ some cf
      → let e' = (confirm_implicitly env now sess e).1 in
        (e'.store.confirmed ≡ none) × (e'.timer ≡ none)
  unfolding confirm_implicitly append_audit ◌>>=◌
  confirm_swept sess cf e h p = ground arith

  -- A commit by a session that does not edit is refused, and yet it confirms the commit that was
  -- pending: a timer that fires later changes nothing. The database serves every statement.
  pub refused_commit_confirms :
      (sess : Session) (opts : CommitOpts) (cf : ConfirmedInfo) (e : Engine B S) (later : ℕ)
      → IsServed e
      → (sweep env now e).1.store.confirmed ≡ some cf
      → (before env now sess e).holder ≢ session_holder sess
      → (commit_session env now sess opts e ≡ (err not_editing, before env now sess e))
        × ((before env now sess e).store.confirmed ≡ none)
        × (on_confirmed_timer env later (before env now sess e) ≡ (ok tt, before env now sess e))
  refused_commit_confirms sess opts cf e later h p n =
      elim (require_cases sess (before env now sess e)) [
        | inr (c, a, b, r) ↦ absurd (n b)
        | inl r ↦
            let q = (confirm_swept sess cf _ (sweep-IsServed env now e h) p).0 in
            (
              commit_session_eq env now sess opts e h ∙ bind_err _ _ r,
              q,
              timer_waits env later _ (λ x w. elim (none≠some (sym q ∙ w)) [ ]),
            )
      ]

  -- Nothing is pending any more, and the rest but the audit log is as it was.
  pub record IsKept (e e' : Engine B S) : Type 0 where
    pub pending : e'.store.confirmed ≡ none
    pub timer : e'.timer ≡ none
    pub revisions : e'.store.revisions ≡ e.store.revisions
    pub plane : e'.substrate ≡ e.substrate
    pub candidate : e'.candidate ≡ e.candidate
    pub lock : e'.store.lock ≡ e.store.lock

  -- The engine after `ConfirmCommit` of `cf`.
  abbrev kept : Session → ConfirmedInfo → Engine B S → Engine B S
  kept sess cf e = record e {
    store = record (e.store) {
      confirmed = none;
      audit =
          entry env now sess.user confirm (explicit_confirm cf.base_rev) success ∷ e.store.audit;
    };
    timer = none;
  }

  confirm_explicitly_served :
      (sess : Session) (cf : ConfirmedInfo) (e : Engine B S)
      → IsServed e
      → confirm_explicitly env now sess (some cf) e ≡ (ok tt, kept sess cf e)
  unfolding confirm_explicitly append_audit ◌>>=◌
  confirm_explicitly_served sess cf e h = ground arith

  pending_served : (e : Engine B S) → IsServed e → call get_confirmed e ≡ (ok e.store.confirmed, e)
  unfolding get_confirmed ◌>>=◌
  pending_served e h = ground arith

  confirm_commit_eq :
      (sess : Session) (e : Engine B S)
      → IsServed e
      → let s = (sweep env now e).1 in
        confirm_commit env now sess e ≡ confirm_explicitly env now sess s.store.confirmed s
  unfolding confirm_commit
  confirm_commit_eq sess e h =
      sweep_then env now _ e ∙ bind_ok _ _ (pending_served _ (sweep-IsServed env now e h))

  -- `ConfirmCommit` with a commit pending after the sweep: that commit is kept for good. Nothing is
  -- pending any more, no timer is armed, and a timer that fires at any later time changes nothing;
  -- the revisions, the candidate, the lock and the data plane stay. The database serves every
  -- statement.
  pub confirm_commit_keeps :
      (sess : Session) (cf : ConfirmedInfo) (e : Engine B S) (later : ℕ)
      → IsServed e
      → (sweep env now e).1.store.confirmed ≡ some cf
      → let e' = (confirm_commit env now sess e).1 in
        (confirm_commit env now sess e ≡ (ok tt, e'))
        × IsKept (sweep env now e).1 e'
        × (on_confirmed_timer env later e' ≡ (ok tt, e'))
  confirm_commit_keeps sess cf e later h p =
      let s = (sweep env now e).1 in
      subst
        (λ r. (r ≡ (ok tt, r.1)) × IsKept s r.1 × (on_confirmed_timer env later r.1 ≡ (ok tt, r.1)))
        (sym (
          confirm_commit_eq sess e h
          ∙ ap (λ o. confirm_explicitly env now sess o s) p
          ∙ confirm_explicitly_served sess cf s (sweep-IsServed env now e h)))
        (
          refl,
          record {
            pending = refl;
            timer = refl;
            revisions = refl;
            plane = refl;
            candidate = refl;
            lock = refl;
          },
          timer_waits env later _ (λ x w. elim (none≠some w) [ ]),
        )
