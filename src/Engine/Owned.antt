-- ===== src/Engine/Owned.antt =====
-- The session lock: a candidate exists only under a lock row of the session that edits it.
use text.Mathlib.TextLemmas.{append-ne-nil_of_right_ne-nil, append-eq-nil_iff}
use nfvis.Prelude.{
  ℕ, String, Bool, false, Option, none, some, ◌≡◌, ◌≢◌, inl, inr, arith, str_eq_sound,
}
use nfvis.Model.{Config}
use nfvis.Engine.Types.{LockInfo, ConfirmedInfo, Session, CommitOpts}
use nfvis.Engine.Db.{release_lock, append_audit}
use nfvis.Engine.State.{Env, Engine, M, ◌>>=◌, session_holder, require_holder}
use nfvis.Engine.Lifecycle.{
  release_locked, drop_idle, do_confirmed_rollback, sweep_confirmed, sweep_idle, sweep,
  recover_confirmed, boot, open_candidate, edit_with, edit_swept, edit, release_session, discard,
}
use nfvis.Engine.Candidate.{update_candidate, merge_candidate}
use nfvis.Engine.Commit.{commit_session, confirm_commit}
use nfvis.Engine.History.{rollback_session, rollback_to, restore}
use nfvis.Engine.Guards.{require_cases}
use nfvis.Engine.Keeps.{Keeps, Keeps-modify, Keeps-bind, keeps_rules}
use nfvis.Engine.Frame.{
  Editing, latest_revision-Editing, append_revision-Editing, store_rules, confirm_pending-Editing,
  commit_swept-Editing,
}

abbrev pub Owns : Option Config → String → Option LockInfo → Type 0
Owns none h lock = h ≡ ""
Owns (some c) h none = ⊥
Owns (some c) h (some li) = (li.holder ≡ h) × (h ≢ "")

-- A session edits, under a lock row that carries its name.
abbrev pub Held : Option Config → String → Option LockInfo → Type 0
Held none h lock = ⊥
Held (some c) h none = ⊥
Held (some c) h (some li) = (li.holder ≡ h) × (h ≢ "")

Held-Owns : (c : Option Config) (h : String) (l : Option LockInfo) → Held c h l → Owns c h l
Held-Owns none h l p = elim p [ ]
Held-Owns (some c) h none p = p
Held-Owns (some c) h (some li) p = p

Owns-Held :
    (c : Option Config) (h : String) (l : Option LockInfo) {c' : Config}
    → c ≡ some c'
    → Owns c h l
    → Held c h l
Owns-Held none h l p o = cc
Owns-Held (some c) h none p o = o
Owns-Held (some c) h (some li) p o = o

-- Nobody edits, or the editing session's name is on the lock row.
abbrev pub IsOwned : {B S : Type 0} → Engine B S → Type 0
IsOwned e = Owns e.candidate e.holder e.store.lock

pub session_holder-ne : (sess : Session) → session_holder sess ≢ ""
session_holder-ne sess h =
    append-ne-nil_of_right_ne-nil sess.user {t = "@"} (λ e. cc e) (append-eq-nil_iff.0 h).0

module _ {B S : Type 0} (env : Env B S) (now : ℕ) where
  drop_idle-IsOwned : (li : LockInfo) → Keeps IsOwned (drop_idle env now li)
  unfolding drop_idle append_audit release_lock ◌>>=◌
  drop_idle-IsOwned li = record { at = λ e h. ground arith }

  sweep_idle-IsOwned : Keeps IsOwned (sweep_idle env now)
  unfolding sweep_idle ◌>>=◌
  sweep_idle-IsOwned = record {
    at = λ e h. grind (arith, λ (li : LockInfo). (drop_idle-IsOwned li).at);
  }

  do_confirmed_rollback-IsOwned :
      (cf : ConfirmedInfo) → Keeps IsOwned (do_confirmed_rollback env now cf)
  unfolding do_confirmed_rollback append_audit ◌>>=◌
  do_confirmed_rollback-IsOwned cf = record { at = λ e h. ground arith }

  pub sweep_confirmed-IsOwned : Keeps IsOwned (sweep_confirmed env now)
  unfolding sweep_confirmed ◌>>=◌
  sweep_confirmed-IsOwned = record {
    at = λ e h. grind (arith, λ (cf : ConfirmedInfo). (do_confirmed_rollback-IsOwned cf).at);
  }

  pub sweep-IsOwned : Keeps IsOwned (sweep env now)
  unfolding sweep
  sweep-IsOwned = search (keeps_rules, sweep_confirmed-IsOwned, sweep_idle-IsOwned)

  open_candidate-IsOwned :
      (h : String) (a : Bool) (e : Engine B S) (li : LockInfo)
      → e.candidate ≡ none
      → e.holder ≡ ""
      → e.store.lock ≡ some li
      → li.holder ≡ h
      → h ≢ ""
      → IsOwned (open_candidate env now h a e).1
  unfolding open_candidate ◌>>=◌
  open_candidate-IsOwned h a e li p q r s t = ground arith

  edit_with-IsOwned :
      (h : String) (li : Option LockInfo) (c : Option Config) (e : Engine B S)
      → h ≢ ""
      → e.store.lock ≡ li
      → e.candidate ≡ c
      → IsOwned e
      → IsOwned (edit_with env now h li c e).1
  unfolding edit_with ◌>>=◌
  edit_with-IsOwned h (some li) (some c) e n p q o = ground arith
  edit_with-IsOwned h (some li) none e n p q o = ground (arith, str_eq_sound li.holder h)
  edit_with-IsOwned h none none e n p q o = ground arith
  edit_with-IsOwned h none (some c) e n p q o = ground arith

  edit_swept-IsOwned : (sess : Session) → Keeps IsOwned (edit_swept env now (session_holder sess))
  unfolding edit_swept ◌>>=◌
  edit_swept-IsOwned sess = record {
    at = λ e h. ground (
      arith,
      edit_with-IsOwned (session_holder sess) e.store.lock e.candidate e (session_holder-ne sess),
    );
  }

  pub edit-IsOwned : (sess : Session) → Keeps IsOwned (edit env now sess)
  unfolding edit
  edit-IsOwned sess = search (keeps_rules, sweep-IsOwned, edit_swept-IsOwned)

  release_locked-IsOwned : Keeps IsOwned (release_locked {B = B} {S = S})
  unfolding release_locked release_lock ◌>>=◌
  release_locked-IsOwned = record { at = λ e h. ground arith }

  require_holder-IsOwned : (sess : Session) → Keeps IsOwned (require_holder {B = B} {S = S} sess)
  unfolding require_holder
  require_holder-IsOwned sess = record { at = λ e h. ground arith }

  pub release_session-IsOwned : (sess : Session) → Keeps IsOwned (release_session env now sess)
  unfolding release_session
  release_session-IsOwned sess =
      search (keeps_rules, sweep-IsOwned, require_holder-IsOwned, release_locked-IsOwned)

  pub discard-IsOwned : (sess : Session) → Keeps IsOwned (discard env now sess)
  unfolding discard
  discard-IsOwned sess =
      search
        (
          keeps_rules,
          sweep-IsOwned,
          require_holder-IsOwned,
          release_locked-IsOwned,
          Keeps-modify {P = IsOwned} (λ e. record e { dirty = false }) (λ e h. h),
        )
        depth 8

  pub update_candidate-IsOwned :
      (sess : Session) (c : Config) → Keeps IsOwned (update_candidate env now sess c)
  unfolding update_candidate require_holder ◌>>=◌
  update_candidate-IsOwned sess c =
      Keeps-bind _ _ sweep-IsOwned (λ u. record { at = λ e h. ground arith })

  pub merge_candidate-IsOwned :
      (sess : Session) (c : Config) → Keeps IsOwned (merge_candidate env now sess c)
  unfolding merge_candidate require_holder ◌>>=◌
  merge_candidate-IsOwned sess c =
      Keeps-bind _ _ sweep-IsOwned (λ u. record { at = λ e h. ground arith })

  pub commit_session-IsOwned :
      (sess : Session) (opts : CommitOpts) → Keeps IsOwned (commit_session env now sess opts)
  unfolding commit_session
  commit_session-IsOwned sess opts =
      Keeps-bind _ _ sweep-IsOwned (λ u. commit_swept-Editing env now Owns sess opts)

  pub confirm_commit-IsOwned : (sess : Session) → Keeps IsOwned (confirm_commit env now sess)
  unfolding confirm_commit append_audit ◌>>=◌
  confirm_commit-IsOwned sess =
      Keeps-bind _ _ sweep-IsOwned (λ u. record { at = λ e h. ground arith })

  restore-Held :
      (sess : Session) (n rev : ℕ) (b : B) → Keeps (Editing Held) (restore env now sess n rev b)
  unfolding restore append_audit ◌>>=◌
  restore-Held sess n rev b = record { at = λ e h. ground arith }

  rollback_to-Held : (sess : Session) (n : ℕ) → Keeps (Editing Held) (rollback_to env now sess n)
  unfolding rollback_to
  rollback_to-Held sess n = search (store_rules, confirm_pending-Editing, restore-Held) depth 12

  require-Held :
      {A : Type 0} (sess : Session) (f : Config → M B S A)
      → ((c : Config) → Keeps (Editing Held) (f c))
      → (e : Engine B S) → IsOwned e
      → IsOwned ((require_holder sess >>= f) e).1
  unfolding ◌>>=◌
  require-Held sess f k e h = elim (require_cases sess e) [
    | inl refused ↦ rw refused h
    | inr (c, p, q, r) ↦
        rw r (Held-Owns _ _ _ ((k c).at e (Owns-Held e.candidate e.holder e.store.lock p h)))
  ]

  pub rollback_session-IsOwned :
      (sess : Session) (n : ℕ) → Keeps IsOwned (rollback_session env now sess n)
  unfolding rollback_session
  rollback_session-IsOwned sess n =
      Keeps-bind _ _ sweep-IsOwned
        (λ u. record { at = require-Held sess _ (λ c. rollback_to-Held sess n) })

  pub recover_confirmed-IsOwned : Keeps IsOwned (recover_confirmed env now)
  unfolding recover_confirmed ◌>>=◌
  recover_confirmed-IsOwned = record {
    at = λ e h. grind (arith, λ (cf : ConfirmedInfo). (do_confirmed_rollback-IsOwned cf).at);
  }

  pub boot-IsOwned : Keeps IsOwned (boot env now)
  unfolding boot
  boot-IsOwned =
      search
        (
          keeps_rules,
          latest_revision-Editing {S = S} Owns,
          append_revision-Editing {S = S} Owns,
          recover_confirmed-IsOwned,
        )
        depth 8
