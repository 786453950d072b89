-- ===== src/Engine/Confirmed/Undo.antt =====
-- A confirmed commit that nobody confirms: from the commit to the timer.
use nfvis.Prelude.{
  ℕ, zero, suc, ◌≤◌, ◌<◌, ◌+◌, ◌*◌, Option, some, List, [], ◌∷◌, true, ◌≡◌, refl, ap, ◌∙◌, arith,
  take,
}
use nfvis.Model.{Config}
use nfvis.Engine.Types.{ok, ConfirmedInfo, Session, CommitOpts, CommitResult, Revision, text}
use nfvis.Engine.Db.{find_revision, keep_revisions}
use nfvis.Engine.State.{Env, Engine, session_holder, committed}
use nfvis.Engine.Lifecycle.{on_confirmed_timer}
use nfvis.Engine.Commit.{commit_session, minute}
use nfvis.Engine.Healthy.{IsServed}
use nfvis.Engine.Numbered.Rows.{Numbered, IsNumbered}
use nfvis.Engine.Numbered.Calls.{sweep-IsNumbered, confirm_implicitly-IsNumbered}
use nfvis.Engine.Commits.Before.{before, before-IsServed}
use nfvis.Engine.Commits.Success.{commit_success, awaited}
use nfvis.Engine.Reads.{committed_row}
use nfvis.Engine.Confirmed.Timeout.{IsRestored, timer_restores}

module _ {B S : Type 0} (env : Env B S) where
  -- The row under the one that a commit adds.
  find_under :
      (n : ℕ) (rs rest : List (Revision B)) (x r : Revision B)
      → Numbered n rs
      → rs ≡ r ∷ rest
      → x.rev ≡ suc n
      → find_revision n (take keep_revisions (x ∷ rs)) ≡ ok r.config_json
  find_under n [] rest x r h p q = cc
  find_under zero (y ∷ ys) rest x r h p q = elim h [ ]
  find_under (suc n) (y ∷ ys) rest x r h p q = ground (arith, h.0)

  awaited-some :
      (now : ℕ) (sess : Session) (opts : CommitOpts) (rev : ℕ) (old : Option ConfirmedInfo)
      → 0 < opts.confirmed_minutes
      → awaited env now sess opts rev old
        ≡ some (record {
          base_rev = rev;
          deadline = now + opts.confirmed_minutes * minute;
          holder = session_holder sess;
        })
  awaited-some now sess opts rev old m = ground arith

  module _ (now : ℕ) where
    before-IsNumbered :
        (sess : Session) (e : Engine B S) → IsNumbered e → IsNumbered (before env now sess e)
    before-IsNumbered sess e h =
        (confirm_implicitly-IsNumbered env now sess).at _ ((sweep-IsNumbered env now).at e h)

    -- A commit with a confirmation time that succeeds and that nobody confirms: the timer that fires
    -- at or behind the deadline brings the configuration back that was committed before the commit.
    -- The data plane stays the one that the commit has made. The database serves every statement.
    pub unconfirmed_commit_undone :
        (sess : Session) (opts : CommitOpts) (e : Engine B S) (res : CommitResult) (e' : Engine B S)
        (later : ℕ)
        → IsServed e
        → IsNumbered e
        → (before env now sess e).dirty ≡ true
        → commit_session env now sess opts e ≡ (ok res, e')
        → 0 < opts.confirmed_minutes
        → now + opts.confirmed_minutes * minute ≤ later
        → (base : Config) × (committed env (before env now sess e)
            ≡ (ok base, before env now sess e))
          × IsRestored env later base e' (on_confirmed_timer env later e').1
    unconfirmed_commit_undone sess opts e res e' later h n d p m le =
        let s = before env now sess e in
        let (c, base, a, b, k) = commit_success env now sess opts e res e' h d p in
        let (r, rs, q, x) = committed_row env s base (before-IsServed env now sess e h) k.read in
        (
          base,
          k.read,
          timer_restores env later
              (record {
                base_rev = s.store.seq;
                deadline = now + opts.confirmed_minutes * minute;
                holder = session_holder sess;
              })
              r.config_json base e' k.served
              (k.pending ∙ awaited-some now sess opts s.store.seq s.store.confirmed m) le
              (ap (find_revision s.store.seq) k.revisions
                ∙ find_under s.store.seq s.store.revisions rs
                    (record {
                      rev = suc s.store.seq;
                      committed_at = now;
                      message = text opts.message;
                      user = sess.user;
                      config_json = env.encode c;
                    })
                    r (before-IsNumbered sess e n) q refl)
              x,
        )
