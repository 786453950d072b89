-- ===== src/Engine/Tests/Commits.antt =====
-- Commits, and confirmed commits.
use nfvis.Prelude.{ℕ, Bool, true, false, Option, none, some, [], ◌≡◌, ◌≢◌, refl, arith}
use nfvis.Model.{Config}
use nfvis.Model.{
  check_super_user_present, effective_class, MgmtConfig_discrete, VppConfig_discrete,
  ResourcePool_discrete,
}
use nfvis.Engine.Checks.{sys_mgmt_changed, deleted_nat_ref_vrfs, numa_warnings}
use nfvis.Engine.HighRisk.{high_risk_config_intent, user_change_parts, login_of}
use nfvis.Engine.Db.{append_audit}
use nfvis.Engine.Types.{ok, err, sql, Stmt, insert_revision, not_editing, CommitResult}
use nfvis.Engine.State.{Engine, ◌>>=◌, committed}
use nfvis.Engine.Lifecycle.{sweep, on_confirmed_timer}
use nfvis.Engine.Commit.{
  vet, confirm_implicitly, commit_changes, commit_session, commit_swept, confirm_commit,
}
use nfvis.Engine.Commits.Before.{before}
use nfvis.Engine.Commits.Failure.{IsUntouched, commit_failure}
use nfvis.Engine.Commits.Unrecorded.{IsAhead, unrecorded_commit_applied}
use nfvis.Engine.Commits.Success.{IsCommitted, commit_success}
use nfvis.Engine.Confirmed.Timeout.{IsRestored, timer_restores}
use nfvis.Engine.Confirmed.Confirmation.{IsKept, confirm_commit_keeps, refused_commit_confirms}
use nfvis.Engine.Confirmed.Undo.{unconfirmed_commit_undone}
use nfvis.Engine.Revisions.Listing.{commit_reads_back}
use nfvis.Engine.History.{current_revision}
use nfvis.Engine.State.{session_holder}
use nfvis.Engine.Tests.Setup.{
  setup, alice, bob, no_config, one_user, no_fault-IsHealthy, editing, waiting, pending, options,
}

-- What a commit of `editing` answers, and the engine behind it.
abbrev answer : Option ℕ → CommitResult
answer until = record { revision = 2; confirmed_until = until; warnings = [] }

abbrev behind : ℕ → Engine Config Config
behind minutes = (commit_session setup 10 alice (options minutes) editing).1

commit_runs : commit_session setup 10 alice (options 0) editing ≡ (ok (answer none), behind 0)
unfolding ◌>>=◌ sweep commit_session commit_swept check_super_user_present effective_class
    sys_mgmt_changed MgmtConfig_discrete high_risk_config_intent user_change_parts login_of
    append_audit VppConfig_discrete ResourcePool_discrete deleted_nat_ref_vrfs numa_warnings
commit_runs = refl

waiting_commit_runs :
    commit_session setup 10 alice (options 1) editing ≡ (ok (answer (some 60000000010)), behind 1)
unfolding ◌>>=◌ sweep commit_session commit_swept check_super_user_present effective_class
    sys_mgmt_changed MgmtConfig_discrete high_risk_config_intent user_change_parts login_of
    append_audit VppConfig_discrete ResourcePool_discrete deleted_nat_ref_vrfs numa_warnings
waiting_commit_runs = refl

unsaved : (before setup 10 alice editing).dirty ≡ true
unfolding sweep confirm_implicitly ◌>>=◌
unsaved = refl

commit_success_example :
    (c : Config) × (base : Config) × ((before setup 10 alice editing).candidate ≡ some c)
    × ((before setup 10 alice editing).holder ≡ session_holder alice)
    × IsCommitted setup 10 alice
        (options 0)
        c
        base
        (before setup 10 alice editing)
        (behind 0)
        (answer none)
commit_success_example =
    commit_success setup 10 alice (options 0) editing (answer none) (behind 0) no_fault-IsHealthy
      unsaved commit_runs

commit_reads_back_example :
    (c : Config) × ((before setup 10 alice editing).candidate ≡ some c)
    × (committed setup (behind 0) ≡ (ok c, behind 0))
    × (current_revision (behind 0) ≡ (ok 2, behind 0))
commit_reads_back_example =
    commit_reads_back setup 10 alice (options 0) editing (answer none) (behind 0) no_fault-IsHealthy
      (λ c. refl) unsaved commit_runs

unconfirmed_commit_undone_example :
    (base : Config) × (committed setup (before setup 10 alice editing)
      ≡ (ok base, before setup 10 alice editing))
    × IsRestored setup 60000000011 base
        (behind 1)
        (on_confirmed_timer setup 60000000011 (behind 1)).1
unconfirmed_commit_undone_example =
    unconfirmed_commit_undone setup 10 alice (options 1) editing (answer (some 60000000010))
      (behind 1) 60000000011 no_fault-IsHealthy (refl, tt) unsaved waiting_commit_runs (omega arith)
      (omega arith)

abbrev refused_state : Engine Config Config
refused_state = (commit_session setup 10 bob (options 0) editing).1

commit_refused : commit_session setup 10 bob (options 0) editing ≡ (err not_editing, refused_state)
unfolding ◌>>=◌ sweep commit_session commit_swept check_super_user_present effective_class
    sys_mgmt_changed MgmtConfig_discrete high_risk_config_intent user_change_parts login_of
    append_audit VppConfig_discrete ResourcePool_discrete deleted_nat_ref_vrfs numa_warnings
commit_refused = refl

commit_failure_example :
    IsUntouched setup 10 (before setup 10 bob editing) refused_state not_editing
commit_failure_example =
    commit_failure setup 10 bob (options 0) editing not_editing refused_state no_fault-IsHealthy
      commit_refused

timer_restores_example :
    IsRestored setup 700 no_config waiting (on_confirmed_timer setup 700 waiting).1
timer_restores_example =
    timer_restores setup 700 pending no_config no_config waiting no_fault-IsHealthy refl
      (omega arith) refl refl

still_pending : (sweep setup 10 waiting).1.store.confirmed ≡ some pending
unfolding sweep ◌>>=◌
still_pending = refl

confirm_commit_keeps_example :
    (confirm_commit setup 10 bob waiting ≡ (ok tt, (confirm_commit setup 10 bob waiting).1))
    × IsKept setup 10 (sweep setup 10 waiting).1 (confirm_commit setup 10 bob waiting).1
    × (on_confirmed_timer setup 900 (confirm_commit setup 10 bob waiting).1
        ≡ (ok tt, (confirm_commit setup 10 bob waiting).1))
confirm_commit_keeps_example =
    confirm_commit_keeps setup 10 bob pending waiting 900 no_fault-IsHealthy still_pending

stranger : (before setup 10 bob waiting).holder ≢ session_holder bob
unfolding sweep confirm_implicitly append_audit ◌>>=◌
stranger p = cc p

refused_commit_confirms_example :
    (commit_session setup 10 bob (options 0) waiting
      ≡ (err not_editing, before setup 10 bob waiting))
    × ((before setup 10 bob waiting).store.confirmed ≡ none)
    × (on_confirmed_timer setup 900 (before setup 10 bob waiting)
        ≡ (ok tt, before setup 10 bob waiting))
refused_commit_confirms_example =
    refused_commit_confirms setup 10 bob (options 0) pending waiting 900 no_fault-IsHealthy
      still_pending stranger

-- The database does not take revisions.
abbrev no_revisions : Stmt → Bool
no_revisions insert_revision = true
no_revisions s = false

abbrev full_disk : Engine Config Config
full_disk = record editing { store = record (editing.store) { fault = no_revisions } }

vetted : vet setup 10 alice (options 0) one_user full_disk ≡ (ok no_config, full_disk)
unfolding ◌>>=◌ vet check_super_user_present effective_class sys_mgmt_changed MgmtConfig_discrete
    deleted_nat_ref_vrfs
vetted = refl

unrecorded_commit_applied_example :
    (commit_changes setup 10 alice (options 0) one_user full_disk ≡ (
      err (sql insert_revision),
      (commit_changes setup 10 alice (options 0) one_user full_disk).1,
    ))
    × IsAhead setup 10 full_disk
        (commit_changes setup 10 alice (options 0) one_user full_disk).1
        (setup.apply no_config one_user full_disk.substrate).0
unrecorded_commit_applied_example =
    unrecorded_commit_applied setup 10 alice (options 0) no_config one_user full_disk vetted refl
      refl refl
