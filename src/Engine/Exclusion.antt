-- ===== src/Engine/Exclusion.antt =====
-- Who gets in while a session holds the lock, and what becomes of a lock that a restart left.
use nfvis.Prelude.{
  ℕ, String, false, Option, none, some, ◌≡◌, ◌≢◌, ◌∙◌, arith, str_eq_sound, inl, inr,
}
use nfvis.Model.{Config}
use nfvis.Engine.Types.{err, locked, not_editing, select_lock, LockInfo, Session}
use nfvis.Engine.State.{Env, Engine, ◌>>=◌, session_holder, require_holder}
use nfvis.Engine.Lifecycle.{edit_swept, edit, release_session, discard, sweep}
use nfvis.Engine.Candidate.{update_candidate, merge_candidate, commit_check}
use nfvis.Engine.History.{rollback_session}
use nfvis.Engine.Guards.{require_cases}
use nfvis.Engine.Keeps.{bind_err}
use nfvis.Engine.Swept.{sweep_then}
use nfvis.Engine.Owned.{IsOwned, Owns, sweep-IsOwned}

module _ {B S : Type 0} (env : Env B S) (now : ℕ) where
  -- A session whose name is not on the lock row is not the one that edits.
  stranger_refused :
      (sess : Session) (e : Engine B S) (li : LockInfo)
      → IsOwned e
      → e.store.lock ≡ some li
      → li.holder ≢ session_holder sess
      → require_holder sess e ≡ (err not_editing, e)
  stranger_refused sess e li o l n = elim (require_cases sess e) [
    | inl r ↦ r
    | inr (c, a, b, r) ↦ absurd (n (owner e.candidate e.store.lock a l o ∙ b))
  ]
    where
      owner :
          (k : Option Config) (m : Option LockInfo) {c : Config}
          → k ≡ some c
          → m ≡ some li
          → Owns k e.holder m
          → li.holder ≡ e.holder
      owner none m p q w = cc
      owner (some c) none p q w = cc
      owner (some c) (some x) p q w = ground arith

  pub edit_swept_locked :
      (h : String) (e : Engine B S) (li : LockInfo)
      → e.store.lock ≡ some li
      → e.store.fault select_lock ≡ false
      → li.holder ≢ h
      → edit_swept env now h e ≡ (err (locked li.holder), e)
  unfolding edit_swept ◌>>=◌
  edit_swept_locked h e li l f n = ground (arith, str_eq_sound li.holder h)

  -- While a lock row stands that carries another session's name and has not been idle for too
  -- long, a session can neither enter the configuration mode nor change, check, roll back, release
  -- or discard the candidate: each call is refused and leaves the state that the sweep has left.
  pub lock_excludes :
      (sess : Session) (cfg : Config) (n : ℕ) (e : Engine B S) (li : LockInfo)
      → IsOwned e
      → (sweep env now e).1.store.lock ≡ some li
      → (sweep env now e).1.store.fault select_lock ≡ false
      → li.holder ≢ session_holder sess
      → let s = (sweep env now e).1 in
        (edit env now sess e ≡ (err (locked li.holder), s))
        × (update_candidate env now sess cfg e ≡ (err not_editing, s))
        × (merge_candidate env now sess cfg e ≡ (err not_editing, s))
        × (commit_check env now sess e ≡ (err not_editing, s))
        × (rollback_session env now sess n e ≡ (err not_editing, s))
        × (release_session env now sess e ≡ (err not_editing, s))
        × (discard env now sess e ≡ (err not_editing, s))
  unfolding edit update_candidate merge_candidate commit_check rollback_session release_session
      discard
  lock_excludes sess cfg n e li o l f d =
      let s = (sweep env now e).1 in
      let r = stranger_refused sess s li ((sweep-IsOwned env now).at e o) l d in
      (
        sweep_then env now _ e ∙ edit_swept_locked (session_holder sess) s li l f d,
        sweep_then env now _ e ∙ bind_err _ _ r,
        sweep_then env now _ e ∙ bind_err _ _ r,
        sweep_then env now _ e ∙ bind_err _ _ r,
        sweep_then env now _ e ∙ bind_err _ _ r,
        sweep_then env now _ e ∙ bind_err _ _ r,
        sweep_then env now _ e ∙ bind_err _ _ r,
      )
