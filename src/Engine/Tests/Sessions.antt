-- ===== src/Engine/Tests/Sessions.antt =====
-- The session lock.
use nfvis.Prelude.{some, false, List, [], ◌∷◌, ◌≡◌, ◌≢◌, refl, arith}
use nfvis.Engine.Types.{select_lock, ok, err, locked, not_editing}
use nfvis.Engine.State.{◌>>=◌, committed, session_holder}
use nfvis.Engine.Lifecycle.{sweep, edit, new_engine, release_session, discard}
use nfvis.Engine.Candidate.{update_candidate, merge_candidate, commit_check}
use nfvis.Engine.History.{rollback_session}
use nfvis.Engine.Requests.{Call, edits, commits, restarts, serve_all}
use nfvis.Engine.Numbered.Rows.{IsNumbered}
use nfvis.Engine.Numbered.Runs.{serve_all-IsNumbered}
use nfvis.Engine.Owned.{IsOwned}
use nfvis.Engine.OwnedRuns.{started-IsOwned}
use nfvis.Engine.Exclusion.{lock_excludes}
use nfvis.Engine.Locks.Idle.{IsEditing, idle_lock_passes_on}
use nfvis.Engine.Locks.Stale.{stale_lock_stays}
use nfvis.Engine.Tests.Setup.{
  setup, alice, bob, no_config, no_fault, no_fault-IsHealthy, tables, alice_lock, editing, options,
}

-- A commit, a restart, and a session after it.
abbrev calls : List Call
calls =
    record { now = 6; fault = no_fault; request = commits alice (options 0) }
    ∷ record { now = 7; fault = no_fault; request = restarts }
    ∷ record { now = 200; fault = no_fault; request = edits bob }
    ∷ []

serve_all-IsNumbered_example : IsNumbered (serve_all setup calls editing)
serve_all-IsNumbered_example = serve_all-IsNumbered setup calls editing (refl, tt)

started-IsOwned_example : IsOwned (serve_all setup calls (new_engine setup 0 tables no_config).1)
started-IsOwned_example = started-IsOwned setup 0 tables no_config calls

swept_lock : (sweep setup 10 editing).1.store.lock ≡ some alice_lock
unfolding sweep ◌>>=◌
swept_lock = refl

swept_fault : (sweep setup 10 editing).1.store.fault select_lock ≡ false
unfolding sweep ◌>>=◌
swept_fault = refl

others : alice_lock.holder ≢ session_holder bob
others p = cc p

named : alice_lock.holder ≢ ""
named p = cc p

lock_excludes_example :
    let s = (sweep setup 10 editing).1 in
    (edit setup 10 bob editing ≡ (err (locked "alice@ssh"), s))
    × (update_candidate setup 10 bob no_config editing ≡ (err not_editing, s))
    × (merge_candidate setup 10 bob no_config editing ≡ (err not_editing, s))
    × (commit_check setup 10 bob editing ≡ (err not_editing, s))
    × (rollback_session setup 10 bob 1 editing ≡ (err not_editing, s))
    × (release_session setup 10 bob editing ≡ (err not_editing, s))
    × (discard setup 10 bob editing ≡ (err not_editing, s))
lock_excludes_example =
    lock_excludes setup 10 bob no_config 1 editing alice_lock (refl, λ p. cc p) swept_lock
      swept_fault others

read : committed setup editing ≡ (ok no_config, editing)
unfolding committed ◌>>=◌
read = refl

idle_lock_passes_on_example :
    (edit setup 106 bob editing ≡ (ok tt, (edit setup 106 bob editing).1))
    × IsEditing setup 106 bob no_config (edit setup 106 bob editing).1
idle_lock_passes_on_example =
    idle_lock_passes_on setup 106 bob no_config alice_lock editing no_fault-IsHealthy refl refl refl
      (omega arith) read

stale_lock_stays_example : edit setup 900 bob (new_engine setup 20 editing.store no_config).1 ≡ (
  err (locked "alice@ssh"),
  (sweep setup 900 (new_engine setup 20 editing.store no_config).1).1,
)
stale_lock_stays_example =
    stale_lock_stays setup 20 900 bob alice_lock editing.store no_config no_fault-IsHealthy refl
      named others
