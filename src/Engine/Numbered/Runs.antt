-- ===== src/Engine/Numbered/Runs.antt =====
-- The numbering of the revisions over commits, rollbacks and whole runs.
use nfvis.Prelude.{ℕ, String, Option, none, some, List, [], ◌∷◌, arith}
use nfvis.Model.{Config, ValidateError}
use nfvis.Engine.Types.{Error, Intent, Detail, ConfirmedInfo, Session, CommitOpts}
use nfvis.Engine.Db.{append_audit}
use nfvis.Engine.State.{Env, Engine, ◌>>=◌}
use nfvis.Engine.Lifecycle.{recover_confirmed, boot}
use nfvis.Engine.Commit.{
  confirm_pending, reject, vet, announce, conclude, install, await_confirm, record_commit, seal,
  commit_changes, commit_swept, commit_session,
}
use nfvis.Engine.History.{restore, rollback_to, rollback_session}
use nfvis.Engine.Keeps.{Keeps, Keeps-pure, keeps_rules}
use nfvis.Engine.Lifecycle.{on_confirmed_timer, new_engine}
use nfvis.Engine.Requests.{
  Request, edits, releases, discards, confirms, updates, merges, commits, rolls_back, timer_fires,
  restarts, Call, serve, serve_all,
}
use nfvis.Engine.Numbered.Rows.{IsNumbered}
use nfvis.Engine.Numbered.Calls.{
  calls, audit-IsNumbered, committed-IsNumbered, sweep_confirmed-IsNumbered,
  do_confirmed_rollback-IsNumbered, sweep-IsNumbered, edit-IsNumbered, release_session-IsNumbered,
  discard-IsNumbered, update_candidate-IsNumbered, merge_candidate-IsNumbered,
  confirm_implicitly-IsNumbered, confirm_commit-IsNumbered,
}

module _ {B S : Type 0} (env : Env B S) (now : ℕ) where
  reject-IsNumbered :
      (sess : Session) (vs : List ValidateError) → Keeps IsNumbered (reject env now sess vs)
  unfolding reject
  reject-IsNumbered sess [] = Keeps-pure tt
  reject-IsNumbered sess (v ∷ vs) = search (keeps_rules, audit-IsNumbered)

  vet-IsNumbered :
      (sess : Session) (opts : CommitOpts) (c : Config) → Keeps IsNumbered (vet env now sess opts c)
  unfolding vet
  vet-IsNumbered sess opts c = search (keeps_rules, reject-IsNumbered, committed-IsNumbered) depth 9

  announce-IsNumbered :
      (sess : Session) (is : List Intent) → Keeps IsNumbered (announce env now sess is)
  unfolding announce
  announce-IsNumbered sess [] = Keeps-pure tt
  announce-IsNumbered sess (i ∷ is) = audit-IsNumbered env now sess.user _ _ _

  conclude-IsNumbered :
      (sess : Session) (is : List Intent) (x : Error)
      → Keeps IsNumbered (conclude env now sess is x)
  unfolding conclude
  conclude-IsNumbered sess [] x = Keeps-pure tt
  conclude-IsNumbered sess (i ∷ is) x = audit-IsNumbered env now sess.user _ _ _

  install-IsNumbered :
      (sess : Session) (base c : Config) → Keeps IsNumbered (install env now sess base c)
  unfolding install ◌>>=◌ append_audit
  install-IsNumbered sess base c = record { at = λ e h. ground arith }

  await_confirm-IsNumbered :
      (sess : Session) (opts : CommitOpts) (rev : ℕ)
      → Keeps IsNumbered (await_confirm env now sess opts rev)
  unfolding await_confirm ◌>>=◌
  await_confirm-IsNumbered sess opts rev = record { at = λ e h. ground arith }

  record_commit-IsNumbered :
      (sess : Session) (opts : CommitOpts) (c : Config)
      → Keeps IsNumbered (record_commit env now sess opts c)
  unfolding record_commit
  record_commit-IsNumbered sess opts c = search (calls, await_confirm-IsNumbered) depth 9

  seal-IsNumbered :
      (sess : Session) (base c : Config) (rev : ℕ) → Keeps IsNumbered (seal env now sess base c rev)
  unfolding seal ◌>>=◌ append_audit
  seal-IsNumbered sess base c rev = record { at = λ e h. ground arith }

  commit_changes-IsNumbered :
      (sess : Session) (opts : CommitOpts) (c : Config)
      → Keeps IsNumbered (commit_changes env now sess opts c)
  unfolding commit_changes
  commit_changes-IsNumbered sess opts c =
      search
        (
          keeps_rules, vet-IsNumbered, announce-IsNumbered, conclude-IsNumbered, install-IsNumbered,
          record_commit-IsNumbered, seal-IsNumbered,
        )
        depth 12

  commit_swept-IsNumbered :
      (sess : Session) (opts : CommitOpts) → Keeps IsNumbered (commit_swept env now sess opts)
  unfolding commit_swept
  commit_swept-IsNumbered sess opts =
      search (calls, confirm_implicitly-IsNumbered, commit_changes-IsNumbered) depth 9

  commit_session-IsNumbered :
      (sess : Session) (opts : CommitOpts) → Keeps IsNumbered (commit_session env now sess opts)
  unfolding commit_session
  commit_session-IsNumbered sess opts =
      search (keeps_rules, sweep-IsNumbered, commit_swept-IsNumbered)

  confirm_pending-IsNumbered :
      (user : String) (d : Detail) (cf : Option ConfirmedInfo)
      → Keeps IsNumbered (confirm_pending env now user d cf)
  unfolding confirm_pending append_audit ◌>>=◌
  confirm_pending-IsNumbered user d none = record { at = λ e h. h }
  confirm_pending-IsNumbered user d (some cf) = record { at = λ e h. ground arith }

  restore-IsNumbered :
      (sess : Session) (n rev : ℕ) (b : B) → Keeps IsNumbered (restore env now sess n rev b)
  unfolding restore append_audit ◌>>=◌
  restore-IsNumbered sess n rev b = record { at = λ e h. ground arith }

  rollback_to-IsNumbered : (sess : Session) (n : ℕ) → Keeps IsNumbered (rollback_to env now sess n)
  unfolding rollback_to
  rollback_to-IsNumbered sess n =
      search (calls, confirm_pending-IsNumbered, restore-IsNumbered) depth 12

  rollback_session-IsNumbered :
      (sess : Session) (n : ℕ) → Keeps IsNumbered (rollback_session env now sess n)
  unfolding rollback_session
  rollback_session-IsNumbered sess n = search (calls, sweep-IsNumbered, rollback_to-IsNumbered)

  recover_confirmed-IsNumbered : Keeps IsNumbered (recover_confirmed env now)
  unfolding recover_confirmed ◌>>=◌
  recover_confirmed-IsNumbered = record {
    at = λ e h.
        grind (arith, λ (cf : ConfirmedInfo). (do_confirmed_rollback-IsNumbered env now cf).at);
  }

  boot-IsNumbered : Keeps IsNumbered (boot env now)
  unfolding boot
  boot-IsNumbered = search (calls, recover_confirmed-IsNumbered) depth 8

  serve-IsNumbered : (r : Request) (e : Engine B S) → IsNumbered e → IsNumbered (serve env now r e)
  unfolding serve on_confirmed_timer new_engine
  serve-IsNumbered (edits sess) e h = (edit-IsNumbered env now sess).at e h
  serve-IsNumbered (releases sess) e h = (release_session-IsNumbered env now sess).at e h
  serve-IsNumbered (discards sess) e h = (discard-IsNumbered env now sess).at e h
  serve-IsNumbered (confirms sess) e h = (confirm_commit-IsNumbered env now sess).at e h
  serve-IsNumbered (updates sess c) e h = (update_candidate-IsNumbered env now sess c).at e h
  serve-IsNumbered (merges sess c) e h = (merge_candidate-IsNumbered env now sess c).at e h
  serve-IsNumbered (commits sess opts) e h = (commit_session-IsNumbered sess opts).at e h
  serve-IsNumbered (rolls_back sess n) e h = (rollback_session-IsNumbered sess n).at e h
  serve-IsNumbered timer_fires e h = (sweep_confirmed-IsNumbered env now).at e h
  serve-IsNumbered restarts e h = boot-IsNumbered.at _ h

-- Whatever an engine serves, and whatever statements fail meanwhile, restarts included: the
-- revisions in the table carry consecutive numbers, newest first, down from the counter.
pub serve_all-IsNumbered :
    {B S : Type 0} (env : Env B S) (cs : List Call) (e : Engine B S)
    → IsNumbered e
    → IsNumbered (serve_all env cs e)
unfolding serve_all
serve_all-IsNumbered env [] e h = h
serve_all-IsNumbered env (c ∷ cs) e h =
    serve_all-IsNumbered env cs _ (serve-IsNumbered env c.now c.request _ h)
