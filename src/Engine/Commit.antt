-- ===== src/Engine/Commit.antt =====
-- `Commit` and `ConfirmCommit` (internal/config/engine.go), stage by stage.
use nfvis.Prelude.{
  ℕ, ◌+◌, ◌-◌, ◌*◌, String, Bool, true, false, not, ◌&&◌, Option, none, some, List, [], ◌∷◌, ◌++◌,
  map, ◌==◌, str_eq, if◌then◌else◌, holds,
}
use nfvis.Model.{
  Config, ValidateError, check_super_user_present, VppConfig_discrete, ResourcePool_discrete,
}
use nfvis.Engine.Types.{
  confirm_required, nothing_to_confirm, validation, substrate, Error, ok, Intent, Detail,
  implicit_confirm, explicit_confirm, rejected, intends, unfinished, changes, substrate_failed,
  commit, confirm, success, failure, intent, ConfirmedInfo, text, Session, CommitOpts, Warning,
  management_changed, vpp_changed, pools_changed, nat_table_kept, CommitResult,
}
use nfvis.Engine.Db.{
  keep_revisions, latest_revision, append_revision, prune_revisions, set_confirmed, get_confirmed,
  clear_confirmed,
}
use nfvis.Engine.HighRisk.{high_risk_config_intent}
use nfvis.Engine.Checks.{check_images, sys_mgmt_changed, deleted_nat_ref_vrfs, numa_warnings}
use nfvis.Engine.State.{
  Env, session_holder, M, ◌>>=◌, ◌>>◌, pure, raise, gets, modify, ignore, on_failure, call,
  stop_timer, audit, committed, require_holder,
}
use nfvis.Engine.Lifecycle.{arm_timer, sweep}

-- `time.Minute`.
abbrev pub minute : ℕ
minute = 60000000000

abbrev pub is_empty : {A : Type 0} → List A → Bool
is_empty [] = true
is_empty (x ∷ xs) = false

-- A change of the management port over the network that is not a confirmed commit.
abbrev pub needs_confirm : Session → CommitOpts → Config → Config → Bool
needs_confirm sess opts base c =
    sys_mgmt_changed base.system c.system
    && (not (str_eq sess.source "console") && opts.confirmed_minutes == 0)

module _ {B S : Type 0} (env : Env B S) where
  -- The errors that the validator and the super-user check find.
  abbrev pub all_errors : CommitOpts → Config → List ValidateError
  all_errors opts c =
      env.validate c ++ (if opts.allow_no_super_user then [] else check_super_user_present c)

  abbrev pub image_errors : Config → List ValidateError
  image_errors c = elim env.images [ none ↦ [] | some images ↦ check_images images c ]

  unfoldable pub warnings : Config → Config → List Warning
  warnings base c =
      (if sys_mgmt_changed base.system c.system then management_changed ∷ [] else [])
      ++ ((if holds (VppConfig_discrete base.vpp c.vpp) then [] else vpp_changed ∷ [])
          ++ ((if holds (ResourcePool_discrete base.resource_pools c.resource_pools)
                then []
                else pools_changed ∷ [])
              ++ (map nat_table_kept (deleted_nat_ref_vrfs base c)
                  ++ numa_warnings env.topology c)))

module _ {B S : Type 0} (env : Env B S) (now : ℕ) where
  -- `clearConfirmedLocked`.
  unfoldable pub clear_confirmed_locked : String → Detail → M B S (Unit {0})
  unfolding clear_confirmed audit
  clear_confirmed_locked user detail = do
    ignore (call clear_confirmed)
    stop_timer
    audit env now user confirm detail success

  unfoldable pub confirm_pending : String → Detail → Option ConfirmedInfo → M B S (Unit {0})
  unfolding clear_confirmed_locked
  confirm_pending user detail none = pure tt
  confirm_pending user detail (some cf) = clear_confirmed_locked user detail

  -- The first step of `Commit`: any commit confirms what is pending.
  unfoldable pub confirm_implicitly : Session → M B S (Unit {0})
  unfolding get_confirmed confirm_pending
  confirm_implicitly sess = do
    cf ← call get_confirmed
    confirm_pending sess.user implicit_confirm cf

  -- The failure branches that list validation errors.
  unfoldable pub reject : Session → List ValidateError → M B S (Unit {0})
  unfolding audit
  reject sess [] = pure tt
  reject sess (v ∷ vs) = do
    audit env now sess.user commit (rejected (v ∷ vs)) failure
    raise (validation (v ∷ vs))

  -- The checks of `Commit` up to the first change of anything but the audit log.
  unfoldable pub vet : Session → CommitOpts → Config → M B S Config
  unfolding reject committed
  vet sess opts c = do
    reject sess (all_errors env opts c)
    base ← committed env
    if needs_confirm sess opts base c then raise confirm_required else pure tt
    reject sess (image_errors env c)
    pure base

  -- The line before the data plane is touched.
  unfoldable pub announce : Session → List Intent → M B S (Unit {0})
  unfolding audit
  announce sess [] = pure tt
  announce sess (i ∷ is) = audit env now sess.user commit (intends (i ∷ is)) intent

  -- The deferred line: an intent whose result was not written.
  unfoldable pub conclude : Session → List Intent → Error → M B S (Unit {0})
  unfolding audit
  conclude sess [] x = pure tt
  conclude sess (i ∷ is) x = audit env now sess.user commit (unfinished (i ∷ is) x) failure

  -- The call of the applier.
  unfoldable pub install : Session → Config → Config → M B S (Unit {0})
  unfolding audit
  install sess base c e =
      let (s, failed) = env.apply base c e.substrate in
      let e' = record e { substrate = s } in
      elim failed [
        | none ↦ (ok tt, e')
        | some msg ↦
            (do
              audit env now sess.user commit (substrate_failed base c msg) failure
              raise (substrate msg))
              e'
      ]

  abbrev deadline_of : CommitOpts → ℕ
  deadline_of opts = now + opts.confirmed_minutes * minute

  unfoldable pub await_confirm : Session → CommitOpts → ℕ → M B S (Option ℕ)
  unfolding set_confirmed
  await_confirm sess opts rev = if opts.confirmed_minutes == 0 then pure none else do
    call (set_confirmed (rev - 1) (deadline_of opts) (session_holder sess))
    arm_timer (deadline_of opts)
    pure (some (deadline_of opts))

  -- The revision, the pruning of old ones, and the wait for a confirmation.
  unfoldable pub record_commit : Session → CommitOpts → Config → M B S (ℕ × Option ℕ)
  unfolding append_revision prune_revisions await_confirm
  record_commit sess opts c = do
    rev ← call (append_revision (env.encode c) now (text opts.message) sess.user)
    call (prune_revisions keep_revisions)
    until ← await_confirm sess opts rev
    pure (rev, until)

  -- What is left once the revision stands.
  unfoldable pub seal : Session → Config → Config → ℕ → M B S (Unit {0})
  unfolding audit
  seal sess base c rev = do
    audit env now sess.user commit (changes base c) success
    modify (λ e. record e { dirty = false; commits = (rev, sess.user) ∷ e.commits })

  unfoldable pub commit_changes : Session → CommitOpts → Config → M B S CommitResult
  unfolding vet install record_commit seal warnings announce conclude
  commit_changes sess opts c = do
    base ← vet sess opts c
    let intents = high_risk_config_intent base c sess.source
    announce sess intents
    install sess base c
    done ← on_failure (record_commit sess opts c) (conclude sess intents)
    seal sess base c done.0
    pure (record { revision = done.0; confirmed_until = done.1; warnings = warnings env base c })

  -- `Commit` behind the sweep.
  unfoldable pub commit_swept : Session → CommitOpts → M B S CommitResult
  unfolding latest_revision require_holder confirm_implicitly commit_changes
  commit_swept sess opts = do
    confirm_implicitly sess
    c ← require_holder sess
    latest ← call latest_revision
    dirty ← gets (λ e. e.dirty)
    if dirty
        then commit_changes sess opts c
        else pure (record { revision = latest.0; confirmed_until = none; warnings = [] })

  -- `Commit`.
  unfoldable pub commit_session : Session → CommitOpts → M B S CommitResult
  commit_session sess opts = do sweep env now; commit_swept sess opts

  unfoldable pub confirm_explicitly : Session → Option ConfirmedInfo → M B S (Unit {0})
  unfolding clear_confirmed_locked
  confirm_explicitly sess none = raise nothing_to_confirm
  confirm_explicitly sess (some cf) =
      clear_confirmed_locked sess.user (explicit_confirm cf.base_rev)

  -- `ConfirmCommit`.
  unfoldable pub confirm_commit : Session → M B S (Unit {0})
  unfolding get_confirmed confirm_explicitly
  confirm_commit sess = do sweep env now; cf ← call get_confirmed; confirm_explicitly sess cf
