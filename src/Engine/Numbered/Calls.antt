-- ===== src/Engine/Numbered/Calls.antt =====
-- Every call below a commit keeps the numbering of the revisions.
use nfvis.Prelude.{ℕ, String, false, arith}
use nfvis.Model.{Config}
use nfvis.Engine.Types.{Detail, Action, Outcome, LockInfo, ConfirmedInfo, Message, Session}
use nfvis.Engine.Db.{
  latest_revision, load_revision, append_revision, prune_revisions, acquire_lock, refresh_lock,
  release_lock, get_lock, set_confirmed, get_confirmed, clear_confirmed, append_audit,
}
use nfvis.Engine.State.{Env, ◌>>=◌, call, audit, committed, require_holder}
use nfvis.Engine.Lifecycle.{
  release_locked, do_confirmed_rollback, sweep_confirmed, drop_idle, sweep_idle, sweep, edit_swept,
  edit, release_session, discard,
}
use nfvis.Engine.Candidate.{update_candidate, merge_candidate}
use nfvis.Engine.Commit.{confirm_implicitly, confirm_commit}
use nfvis.Engine.Keeps.{Keeps, Keeps-pure, Keeps-call, Keeps-modify, Keeps-bind, keeps_rules}
use nfvis.Engine.Numbered.Rows.{IsNumbered, take-Numbered}

module _ {B S : Type 0} where
  pub call_latest : Keeps IsNumbered (call {B = B} {S = S} latest_revision)
  unfolding latest_revision
  call_latest = Keeps-call _ (λ e h. ground arith)

  pub call_load : (n : ℕ) → Keeps IsNumbered (call {B = B} {S = S} (load_revision n))
  unfolding load_revision
  call_load n = Keeps-call _ (λ e h. ground arith)

  pub call_append :
      (b : B) (at : ℕ) (m : Message) (user : String)
      → Keeps IsNumbered (call {B = B} {S = S} (append_revision b at m user))
  unfolding append_revision
  call_append b at m user = Keeps-call _ (λ e h. ground arith)

  pub call_prune : (n : ℕ) → Keeps IsNumbered (call {B = B} {S = S} (prune_revisions n))
  unfolding prune_revisions
  call_prune n =
      Keeps-call _ (λ e h. ground (arith, take-Numbered n e.store.seq e.store.revisions h))

  pub call_acquire :
      (h : String) (at : ℕ) → Keeps IsNumbered (call {B = B} {S = S} (acquire_lock h at))
  unfolding acquire_lock
  call_acquire h at = Keeps-call _ (λ e p. ground arith)

  pub call_refresh :
      (h : String) (at : ℕ) → Keeps IsNumbered (call {B = B} {S = S} (refresh_lock h at))
  unfolding refresh_lock
  call_refresh h at = Keeps-call _ (λ e p. ground arith)

  pub call_release : (h : String) → Keeps IsNumbered (call {B = B} {S = S} (release_lock h))
  unfolding release_lock
  call_release h = Keeps-call _ (λ e p. ground arith)

  pub call-get_lock : Keeps IsNumbered (call {B = B} {S = S} get_lock)
  unfolding get_lock
  call-get_lock = Keeps-call _ (λ e h. ground arith)

  pub call-set_confirmed :
      (n d : ℕ) (h : String) → Keeps IsNumbered (call {B = B} {S = S} (set_confirmed n d h))
  unfolding set_confirmed
  call-set_confirmed n d h = Keeps-call _ (λ e p. ground arith)

  pub call-get_confirmed : Keeps IsNumbered (call {B = B} {S = S} get_confirmed)
  unfolding get_confirmed
  call-get_confirmed = Keeps-call _ (λ e h. ground arith)

  pub call-clear_confirmed : Keeps IsNumbered (call {B = B} {S = S} clear_confirmed)
  unfolding clear_confirmed
  call-clear_confirmed = Keeps-call _ (λ e h. ground arith)

  pub require_holder-IsNumbered :
      (sess : Session) → Keeps IsNumbered (require_holder {B = B} {S = S} sess)
  unfolding require_holder
  require_holder-IsNumbered sess = record { at = λ e h. ground arith }

  pub release_locked-IsNumbered : Keeps IsNumbered (release_locked {B = B} {S = S})
  unfolding release_locked release_lock ◌>>=◌
  release_locked-IsNumbered = record { at = λ e h. ground arith }

pub ruleset calls = (
  keeps_rules, call_latest, call_load, call_append, call_prune, call_acquire, call_refresh,
  call_release, call-get_lock, call-set_confirmed, call-get_confirmed, call-clear_confirmed,
  require_holder-IsNumbered, release_locked-IsNumbered,
)

module _ {B S : Type 0} (env : Env B S) (now : ℕ) where
  pub audit-IsNumbered :
      (user : String) (a : Action) (d : Detail) (r : Outcome)
      → Keeps IsNumbered (audit env now user a d r)
  unfolding audit append_audit ◌>>=◌
  audit-IsNumbered user a d r = record { at = λ e h. ground arith }

  pub committed-IsNumbered : Keeps IsNumbered (committed env)
  unfolding committed ◌>>=◌
  committed-IsNumbered = record { at = λ e h. ground arith }

  pub do_confirmed_rollback-IsNumbered :
      (cf : ConfirmedInfo) → Keeps IsNumbered (do_confirmed_rollback env now cf)
  unfolding do_confirmed_rollback append_audit ◌>>=◌
  do_confirmed_rollback-IsNumbered cf = record { at = λ e h. ground arith }

  pub sweep_confirmed-IsNumbered : Keeps IsNumbered (sweep_confirmed env now)
  unfolding sweep_confirmed ◌>>=◌
  sweep_confirmed-IsNumbered = record {
    at = λ e h. grind (arith, λ (cf : ConfirmedInfo). (do_confirmed_rollback-IsNumbered cf).at);
  }

  pub drop_idle-IsNumbered : (li : LockInfo) → Keeps IsNumbered (drop_idle env now li)
  unfolding drop_idle append_audit release_lock ◌>>=◌
  drop_idle-IsNumbered li = record { at = λ e h. ground arith }

  pub sweep_idle-IsNumbered : Keeps IsNumbered (sweep_idle env now)
  unfolding sweep_idle ◌>>=◌
  sweep_idle-IsNumbered = record {
    at = λ e h. grind (arith, λ (li : LockInfo). (drop_idle-IsNumbered li).at);
  }

  pub sweep-IsNumbered : Keeps IsNumbered (sweep env now)
  unfolding sweep
  sweep-IsNumbered = search (keeps_rules, sweep_confirmed-IsNumbered, sweep_idle-IsNumbered)

  pub edit_swept-IsNumbered : (h : String) → Keeps IsNumbered (edit_swept env now h)
  unfolding edit_swept ◌>>=◌
  edit_swept-IsNumbered h = record { at = λ e p. ground arith }

  pub edit-IsNumbered : (sess : Session) → Keeps IsNumbered (edit env now sess)
  unfolding edit
  edit-IsNumbered sess = search (keeps_rules, sweep-IsNumbered, edit_swept-IsNumbered)

  pub release_session-IsNumbered :
      (sess : Session) → Keeps IsNumbered (release_session env now sess)
  unfolding release_session
  release_session-IsNumbered sess = search (calls, sweep-IsNumbered)

  pub discard-IsNumbered : (sess : Session) → Keeps IsNumbered (discard env now sess)
  unfolding discard
  discard-IsNumbered sess =
      search
        (
          calls,
          sweep-IsNumbered,
          Keeps-modify {P = IsNumbered} (λ e. record e { dirty = false }) (λ e h. h),
        )
        depth 8

  pub update_candidate-IsNumbered :
      (sess : Session) (c : Config) → Keeps IsNumbered (update_candidate env now sess c)
  unfolding update_candidate require_holder ◌>>=◌
  update_candidate-IsNumbered sess c =
      Keeps-bind _ _ sweep-IsNumbered (λ u. record { at = λ e h. ground arith })

  pub merge_candidate-IsNumbered :
      (sess : Session) (c : Config) → Keeps IsNumbered (merge_candidate env now sess c)
  unfolding merge_candidate require_holder ◌>>=◌
  merge_candidate-IsNumbered sess c =
      Keeps-bind _ _ sweep-IsNumbered (λ u. record { at = λ e h. ground arith })

  pub confirm_implicitly-IsNumbered :
      (sess : Session) → Keeps IsNumbered (confirm_implicitly env now sess)
  unfolding confirm_implicitly append_audit ◌>>=◌
  confirm_implicitly-IsNumbered sess = record { at = λ e h. ground arith }

  pub confirm_commit-IsNumbered : (sess : Session) → Keeps IsNumbered (confirm_commit env now sess)
  unfolding confirm_commit append_audit ◌>>=◌
  confirm_commit-IsNumbered sess =
      Keeps-bind _ _ sweep-IsNumbered (λ u. record { at = λ e h. ground arith })
