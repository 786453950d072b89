-- ===== src/Engine/Commits/Before.antt =====
-- `Commit` up to the check of the holder, and from there on.
use nfvis.Prelude.{ℕ, true, false, none, [], ◌≡◌, ◌∙◌, arith, if◌then◌else◌}
use nfvis.Model.{Config}
use nfvis.Engine.Types.{ok, Session, CommitOpts, CommitResult}
use nfvis.Engine.Db.{newest, append_audit, latest_revision}
use nfvis.Engine.State.{Env, Engine, M, ◌>>=◌, pure, gets, call, require_holder}
use nfvis.Engine.Lifecycle.{sweep}
use nfvis.Engine.Commit.{confirm_implicitly, commit_changes, commit_swept, commit_session}
use nfvis.Engine.Keeps.{bind_ok}
use nfvis.Engine.Healthy.{IsServed}
use nfvis.Engine.Swept.{sweep_then, sweep-IsServed}

module _ {B S : Type 0} (env : Env B S) (now : ℕ) where
  -- The state in which `Commit` has swept and has confirmed what was pending.
  abbrev pub before : Session → Engine B S → Engine B S
  before sess e = (confirm_implicitly env now sess (sweep env now e).1).1

  confirm_implicitly-IsServed :
      (sess : Session) (e : Engine B S)
      → IsServed e
      → (confirm_implicitly env now sess e ≡ (ok tt, (confirm_implicitly env now sess e).1))
        × IsServed (confirm_implicitly env now sess e).1
  unfolding confirm_implicitly append_audit ◌>>=◌
  confirm_implicitly-IsServed sess e h = ground arith

  pub before-IsServed : (sess : Session) (e : Engine B S) → IsServed e → IsServed (before sess e)
  before-IsServed sess e h = (confirm_implicitly-IsServed sess _ (sweep-IsServed env now e h)).1

  -- `Commit` from the check of the holder on.
  abbrev pub commit_held : Session → CommitOpts → Config → M B S CommitResult
  commit_held sess opts c = do
    latest ← call latest_revision
    dirty ← gets (λ e. e.dirty)
    if dirty
        then commit_changes env now sess opts c
        else pure (record { revision = latest.0; confirmed_until = none; warnings = [] })

  pub commit_session_eq :
      (sess : Session) (opts : CommitOpts) (e : Engine B S)
      → IsServed e
      → commit_session env now sess opts e
        ≡ (require_holder sess >>= commit_held sess opts) (before sess e)
  unfolding commit_session commit_swept
  commit_session_eq sess opts e h =
      sweep_then env now _ e
      ∙ bind_ok _ _ (confirm_implicitly-IsServed sess _ (sweep-IsServed env now e h)).0

  pub commit_held_dirty :
      (sess : Session) (opts : CommitOpts) (c : Config) (e : Engine B S)
      → IsServed e
      → e.dirty ≡ true
      → commit_held sess opts c e ≡ commit_changes env now sess opts c e
  unfolding latest_revision ◌>>=◌
  commit_held_dirty sess opts c e h d = rw (h.latest, d)

  pub commit_held_clean :
      (sess : Session) (opts : CommitOpts) (c : Config) (e : Engine B S)
      → IsServed e
      → e.dirty ≡ false
      → commit_held sess opts c e ≡ (
        ok (record {
          revision = (newest e.store.revisions).0;
          confirmed_until = none;
          warnings = [];
        }),
        e,
      )
  unfolding latest_revision ◌>>=◌
  commit_held_clean sess opts c e h d = ground arith
