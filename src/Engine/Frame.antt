-- ===== src/Engine/Frame.antt =====
-- What the parts of `Commit` leave alone: they touch neither the candidate nor the session lock.
use nfvis.Prelude.{ℕ, String, Option, none, some, List, [], ◌∷◌, arith}
use nfvis.Model.{Config, ValidateError}
use nfvis.Engine.Types.{
  Error, Intent, Detail, Action, Outcome, AuditEntry, LockInfo, ConfirmedInfo, Message, Session,
  CommitOpts,
}
use nfvis.Engine.Db.{
  latest_revision, load_revision, append_revision, prune_revisions, set_confirmed, get_confirmed,
  clear_confirmed, append_audit,
}
use nfvis.Engine.State.{Env, Engine, ◌>>=◌, call, modify, audit, committed, require_holder}
use nfvis.Engine.Commit.{
  clear_confirmed_locked, confirm_pending, confirm_implicitly, reject, vet, announce, conclude,
  install, record_commit, seal, commit_changes, commit_swept,
}
use nfvis.Engine.Keeps.{Keeps, Keeps-pure, Keeps-call, Keeps-modify, keeps_rules}

-- A predicate of the editing state alone.
abbrev pub Editing :
    {B S : Type 0} → (Option Config → String → Option LockInfo → Type 0) → Engine B S → Type 0
Editing Q e = Q e.candidate e.holder e.store.lock

module _ {B S : Type 0} (Q : Option Config → String → Option LockInfo → Type 0) where
  pub latest_revision-Editing : Keeps (Editing Q) (call {B = B} {S = S} latest_revision)
  unfolding latest_revision
  latest_revision-Editing = Keeps-call _ (λ e h. ground arith)

  pub load_revision-Editing : (n : ℕ) → Keeps (Editing Q) (call {B = B} {S = S} (load_revision n))
  unfolding load_revision
  load_revision-Editing n = Keeps-call _ (λ e h. ground arith)

  pub append_revision-Editing :
      (b : B) (at : ℕ) (m : Message) (user : String)
      → Keeps (Editing Q) (call {B = B} {S = S} (append_revision b at m user))
  unfolding append_revision
  append_revision-Editing b at m user = Keeps-call _ (λ e h. ground arith)

  pub prune_revisions-Editing :
      (n : ℕ) → Keeps (Editing Q) (call {B = B} {S = S} (prune_revisions n))
  unfolding prune_revisions
  prune_revisions-Editing n = Keeps-call _ (λ e h. ground arith)

  pub set_confirmed-Editing :
      (n deadline : ℕ) (h : String)
      → Keeps (Editing Q) (call {B = B} {S = S} (set_confirmed n deadline h))
  unfolding set_confirmed
  set_confirmed-Editing n deadline h = Keeps-call _ (λ e p. ground arith)

  pub get_confirmed-Editing : Keeps (Editing Q) (call {B = B} {S = S} get_confirmed)
  unfolding get_confirmed
  get_confirmed-Editing = Keeps-call _ (λ e h. ground arith)

  pub clear_confirmed-Editing : Keeps (Editing Q) (call {B = B} {S = S} clear_confirmed)
  unfolding clear_confirmed
  clear_confirmed-Editing = Keeps-call _ (λ e h. ground arith)

  pub append_audit-Editing :
      (a : AuditEntry) → Keeps (Editing Q) (call {B = B} {S = S} (append_audit a))
  unfolding append_audit
  append_audit-Editing a = Keeps-call _ (λ e h. ground arith)

  pub require_holder-Editing :
      (sess : Session) → Keeps (Editing Q) (require_holder {B = B} {S = S} sess)
  unfolding require_holder
  require_holder-Editing sess = record { at = λ e h. ground arith }

pub ruleset store_rules = (
  keeps_rules, latest_revision-Editing, load_revision-Editing, append_revision-Editing,
  prune_revisions-Editing, set_confirmed-Editing, get_confirmed-Editing, clear_confirmed-Editing,
  append_audit-Editing, require_holder-Editing,
)

module _ {B S : Type 0} (env : Env B S) (now : ℕ)
    (Q : Option Config → String → Option LockInfo → Type 0) where
  pub audit-Editing :
      (user : String) (a : Action) (d : Detail) (r : Outcome)
      → Keeps (Editing Q) (audit env now user a d r)
  unfolding audit
  audit-Editing user a d r = search store_rules

  stop_timer-Editing : Keeps (Editing Q) (modify {B = B} {S = S} (λ e. record e { timer = none }))
  stop_timer-Editing = Keeps-modify _ (λ e h. h)

  pub clear_confirmed_locked-Editing :
      (user : String) (d : Detail) → Keeps (Editing Q) (clear_confirmed_locked env now user d)
  unfolding clear_confirmed_locked
  clear_confirmed_locked-Editing user d = search (store_rules, audit-Editing, stop_timer-Editing)

  pub confirm_pending-Editing :
      (user : String) (d : Detail) (cf : Option ConfirmedInfo)
      → Keeps (Editing Q) (confirm_pending env now user d cf)
  unfolding confirm_pending
  confirm_pending-Editing user d none = Keeps-pure tt
  confirm_pending-Editing user d (some cf) = clear_confirmed_locked-Editing user d

  pub confirm_implicitly-Editing :
      (sess : Session) → Keeps (Editing Q) (confirm_implicitly env now sess)
  unfolding confirm_implicitly
  confirm_implicitly-Editing sess = search (store_rules, confirm_pending-Editing)

  reject-Editing :
      (sess : Session) (vs : List ValidateError) → Keeps (Editing Q) (reject env now sess vs)
  unfolding reject
  reject-Editing sess [] = Keeps-pure tt
  reject-Editing sess (v ∷ vs) = search (store_rules, audit-Editing)

  committed-Editing : Keeps (Editing Q) (committed env)
  unfolding committed ◌>>=◌ latest_revision
  committed-Editing = record { at = λ e h. ground arith }

  pub vet-Editing :
      (sess : Session) (opts : CommitOpts) (c : Config)
      → Keeps (Editing Q) (vet env now sess opts c)
  unfolding vet
  vet-Editing sess opts c = search (store_rules, reject-Editing, committed-Editing) depth 9

  announce-Editing :
      (sess : Session) (is : List Intent) → Keeps (Editing Q) (announce env now sess is)
  unfolding announce
  announce-Editing sess [] = Keeps-pure tt
  announce-Editing sess (i ∷ is) = audit-Editing sess.user _ _ _

  conclude-Editing :
      (sess : Session) (is : List Intent) (x : Error)
      → Keeps (Editing Q) (conclude env now sess is x)
  unfolding conclude
  conclude-Editing sess [] x = Keeps-pure tt
  conclude-Editing sess (i ∷ is) x = audit-Editing sess.user _ _ _

  install-Editing :
      (sess : Session) (base c : Config) → Keeps (Editing Q) (install env now sess base c)
  unfolding install ◌>>=◌ append_audit
  install-Editing sess base c = record { at = λ e h. ground arith }

  record_commit-Editing :
      (sess : Session) (opts : CommitOpts) (c : Config)
      → Keeps (Editing Q) (record_commit env now sess opts c)
  unfolding record_commit ◌>>=◌
  record_commit-Editing sess opts c = record { at = λ e h. ground arith }

  seal-Editing :
      (sess : Session) (base c : Config) (rev : ℕ)
      → Keeps (Editing Q) (seal env now sess base c rev)
  unfolding seal ◌>>=◌ append_audit
  seal-Editing sess base c rev = record { at = λ e h. ground arith }

  pub commit_changes-Editing :
      (sess : Session) (opts : CommitOpts) (c : Config)
      → Keeps (Editing Q) (commit_changes env now sess opts c)
  unfolding commit_changes
  commit_changes-Editing sess opts c =
      search
        (
          keeps_rules, vet-Editing, announce-Editing, conclude-Editing, install-Editing,
          record_commit-Editing, seal-Editing,
        )
        depth 12

  pub commit_swept-Editing :
      (sess : Session) (opts : CommitOpts) → Keeps (Editing Q) (commit_swept env now sess opts)
  unfolding commit_swept
  commit_swept-Editing sess opts =
      search (store_rules, confirm_implicitly-Editing, commit_changes-Editing) depth 9
