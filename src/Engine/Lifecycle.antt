-- ===== src/Engine/Lifecycle.antt =====
-- Timeouts and the life of a candidate (internal/config/engine.go): the sweep, the timer of a
-- confirmed commit, `NewEngine`, `Edit`, `Release`, `Discard`, `Close`.
use nfvis.Prelude.{
  ℕ, ◌-◌, String, Bool, true, false, Option, none, some, [], ltb, leb, ◌==◌, str_eq, if◌then◌else◌,
}
use nfvis.Model.{Config}
use nfvis.Engine.Types.{
  locked, Result, ok, err, lock_timed_out, auto_rolled_back, rollback_auto, lock_timeout, success,
  LockInfo, ConfirmedInfo, initial, auto_rollback, Session, confirmed_timeout,
  confirmed_base_missing, confirmed_append_failed, lock_timeout_event,
}
use nfvis.Engine.Db.{
  Db, latest_revision, load_revision, append_revision, acquire_lock, refresh_lock, release_lock,
  get_lock, get_confirmed, clear_confirmed,
}
use nfvis.Engine.State.{
  Env, Engine, session_holder, M, ◌>>=◌, ◌>>◌, pure, raise, gets, modify, attempt, ignore, or_nil,
  on_failure, when, call, emit, stop_timer, audit, committed, require_holder,
}

-- `DefaultLockIdleTTL`: ten minutes.
abbrev pub default_lock_idle_ttl : ℕ
default_lock_idle_ttl = 600000000000

abbrev pub idle_ttl : ℕ → ℕ
idle_ttl ttl = if ttl == 0 then default_lock_idle_ttl else ttl

module _ {B S : Type 0} where
  -- `releaseLocked`: the editing state goes, whatever the store answers.
  unfoldable pub release_locked : M B S (Unit {0})
  release_locked = do
    holder ← gets (λ e. e.holder)
    r ← attempt (call (release_lock holder))
    modify (λ e. record e { candidate = none; holder = ""; dirty = false })
    elim r [ ok u ↦ pure tt | err x ↦ raise x ]

  -- Arms the timer of `afterFunc`.
  abbrev pub arm_timer : ℕ → M B S (Unit {0})
  arm_timer deadline = modify (λ e. record e { timer = some deadline })

module _ {B S : Type 0} (env : Env B S) (now : ℕ) where
  unfoldable pub resync : Option Config → Option Config → M B S (Unit {0})
  resync none cfg = pure tt
  resync (some c) none = pure tt
  resync (some c) (some cfg) = modify (λ e. record e { candidate = some cfg; dirty = true })

  -- What follows the restored revision.
  unfoldable pub finish_rollback : ConfirmedInfo → B → M B S (Unit {0})
  unfolding audit resync
  finish_rollback cf base = do
    ignore (call clear_confirmed)
    stop_timer
    audit env now "system" rollback_auto (auto_rolled_back cf.base_rev) success
    emit (confirmed_timeout cf.base_rev)
    cand ← gets (λ e. e.candidate)
    resync cand (env.decode base)

  -- `doConfirmedRollback`.
  unfoldable pub do_confirmed_rollback : ConfirmedInfo → M B S (Unit {0})
  unfolding finish_rollback load_revision append_revision clear_confirmed
  do_confirmed_rollback cf = do
    loaded ← attempt (call (load_revision cf.base_rev))
    elim loaded [
      | err x ↦ (do ignore (call clear_confirmed); emit (confirmed_base_missing cf.base_rev x))
      | ok base ↦ (do
        appended ← attempt (call (append_revision base now (auto_rollback cf.base_rev) "system"))
        elim appended [
          | err x ↦ emit (confirmed_append_failed x)
          | ok rev ↦ finish_rollback cf base
        ])
    ]

  unfoldable pub roll_back_due : Option ConfirmedInfo → M B S (Unit {0})
  unfolding do_confirmed_rollback
  roll_back_due none = pure tt
  roll_back_due (some cf) = when (leb cf.deadline now) (do_confirmed_rollback cf)

  abbrev is_idle : LockInfo → Bool
  is_idle li = ltb (idle_ttl env.lock_idle_ttl) (now - li.last_activity)

  unfoldable pub drop_idle : LockInfo → M B S (Unit {0})
  unfolding release_locked audit
  drop_idle li = do
    ignore release_locked
    audit env now li.holder lock_timeout lock_timed_out success
    emit (lock_timeout_event li.holder)

  unfoldable pub drop_if_idle : Option LockInfo → M B S (Unit {0})
  unfolding drop_idle
  drop_if_idle none = pure tt
  drop_if_idle (some li) = when (is_idle li) (drop_idle li)

  -- The first half of `sweepLocked`: a confirmed commit whose time is over.
  unfoldable pub sweep_confirmed : M B S (Unit {0})
  unfolding get_confirmed roll_back_due
  sweep_confirmed = do cf ← or_nil (call get_confirmed); roll_back_due cf

  -- The second half: a lock that has been idle for too long.
  unfoldable pub sweep_idle : M B S (Unit {0})
  unfolding get_lock drop_if_idle
  sweep_idle = do li ← or_nil (call get_lock); drop_if_idle li

  -- `sweepLocked`.
  unfoldable pub sweep : M B S (Unit {0})
  unfolding sweep_confirmed sweep_idle
  sweep = do sweep_confirmed; sweep_idle

  -- `onConfirmedTimer`; a failed read of the store ends it.
  unfoldable pub on_confirmed_timer : M B S (Unit {0})
  unfolding sweep_confirmed
  on_confirmed_timer = sweep_confirmed

  unfoldable pub recover : Option ConfirmedInfo → M B S (Unit {0})
  unfolding do_confirmed_rollback
  recover none = pure tt
  recover (some cf) =
      if leb cf.deadline now then do_confirmed_rollback cf else arm_timer cf.deadline

  -- `recoverConfirmedLocked`.
  unfoldable pub recover_confirmed : M B S (Unit {0})
  unfolding get_confirmed recover
  recover_confirmed = do cf ← call get_confirmed; recover cf

  abbrev empty_config : Config
  empty_config = record {
    system = none;
    interfaces = [];
    bonds = [];
    virtual_switches = [];
    vrfs = [];
    acls = [];
    nat = none;
    port_mirroring = [];
    qos_policies = [];
    resource_pools = none;
    vpp = none;
    protocols = none;
    virtual_machine_functions = [];
    container_functions = [];
    annotations = [];
  }

  -- An engine as `NewEngine` allocates it.
  abbrev pub fresh : Db B → S → Engine B S
  fresh db s = record {
    store = db;
    candidate = none;
    holder = "";
    dirty = false;
    timer = none;
    substrate = s;
    events = [];
    commits = [];
  }

  unfoldable pub boot : M B S (Unit {0})
  unfolding latest_revision append_revision recover_confirmed
  boot = do
    latest ← call latest_revision
    when (latest.0 == 0)
        (do _ ← call (append_revision (env.encode empty_config) now initial "system"); pure tt)
    recover_confirmed

  -- `NewEngine`.
  unfoldable pub new_engine : Db B → S → Result (Unit {0}) × Engine B S
  unfolding boot
  new_engine db s = boot (fresh db s)

  -- `Edit` from where the candidate is set to a copy of the committed configuration. `acquired`:
  -- the lock was taken by this call, and is given back if that configuration cannot be read.
  unfoldable pub open_candidate : String → Bool → M B S (Unit {0})
  unfolding committed release_lock refresh_lock
  open_candidate h acquired = do
    cfg ← on_failure (committed env) (λ x. when acquired (ignore (call (release_lock h))))
    modify (λ e. record e { candidate = some cfg; holder = h; dirty = false })
    call (refresh_lock h now)

  unfoldable pub edit_with : String → Option LockInfo → Option Config → M B S (Unit {0})
  unfolding acquire_lock refresh_lock open_candidate
  edit_with h (some li) (some c) =
      if str_eq li.holder h then call (refresh_lock h now) else raise (locked li.holder)
  edit_with h (some li) none =
      if str_eq li.holder h then open_candidate h false else raise (locked li.holder)
  edit_with h none cand = do call (acquire_lock h now); open_candidate h true

  -- `Edit` behind the sweep.
  unfoldable pub edit_swept : String → M B S (Unit {0})
  unfolding get_lock edit_with
  edit_swept h = do li ← call get_lock; cand ← gets (λ e. e.candidate); edit_with h li cand

  -- `Edit`.
  unfoldable pub edit : Session → M B S (Unit {0})
  edit sess = do sweep; edit_swept (session_holder sess)

  -- `Release`.
  unfoldable pub release_session : Session → M B S (Unit {0})
  release_session sess = do sweep; _ ← require_holder sess; release_locked

  -- `Discard`.
  unfoldable pub discard : Session → M B S (Unit {0})
  discard sess = do
    sweep
    _ ← require_holder sess
    release_locked
    modify (λ e. record e { dirty = false })

-- `Close`.
unfoldable pub close : {B S : Type 0} → M B S (Unit {0})
close = stop_timer
