-- ===== src/Engine/Commits/Failure.antt =====
-- A commit that fails changes nothing.
use nfvis.Prelude.{some, ℕ, String, List, ◌≡◌, refl, ap, sym, subst, ◌∙◌, ◌⊎◌, inl, inr, Bool-cases}
use nfvis.Model.{Config}
use nfvis.Engine.Types.{Error, substrate, ok, err, Session, CommitOpts, AuditEntry}
use nfvis.Engine.State.{Env, Engine, committed}
use nfvis.Engine.Commit.{commit_changes, commit_session}
use nfvis.Engine.Guards.{require_cases}
use nfvis.Engine.Keeps.{bind_ok, bind_err}
use nfvis.Engine.Healthy.{IsServed}
use nfvis.Engine.Outcome.{Ended, refused, failed, succeeded, commit_ends}
use nfvis.Engine.Commits.Before.{
  before, before-IsServed, commit_held, commit_session_eq, commit_held_dirty, commit_held_clean,
}

module _ {B S : Type 0} (env : Env B S) (now : ℕ) where
  -- The data plane has refused the change from the committed configuration to the candidate with `x`,
  -- and has ended in the state `s`.
  abbrev pub Refused : Engine B S → Error → S → Type 0
  Refused e x s =
      (base : Config) × (c : Config) × (msg : String) × (e.candidate ≡ some c)
      × (committed env e ≡ (ok base, e))
      × (x ≡ substrate msg)
      × (env.apply base c e.substrate ≡ (s, some msg))

  -- The call that failed with `x` has changed nothing but the audit log and, where the data plane
  -- has refused the change, the data plane.
  pub record IsUntouched (e e' : Engine B S) (x : Error) : Type 0 where
    pub revisions : e'.store.revisions ≡ e.store.revisions
    pub seq : e'.store.seq ≡ e.store.seq
    pub lock : e'.store.lock ≡ e.store.lock
    pub confirmed : e'.store.confirmed ≡ e.store.confirmed
    pub candidate : e'.candidate ≡ e.candidate
    pub holder : e'.holder ≡ e.holder
    pub dirty : e'.dirty ≡ e.dirty
    pub timer : e'.timer ≡ e.timer
    pub commits : e'.commits ≡ e.commits
    pub plane : (e'.substrate ≡ e.substrate) ⊎ Refused e x e'.substrate

  untouched :
      {e : Engine B S} {lines : List AuditEntry} {s : S} {x : Error}
      → (s ≡ e.substrate) ⊎ Refused e x s
      → IsUntouched e (record e { store = record (e.store) { audit = lines }; substrate = s }) x
  untouched o = record {
    revisions = refl;
    seq = refl;
    lock = refl;
    confirmed = refl;
    candidate = refl;
    holder = refl;
    dirty = refl;
    timer = refl;
    commits = refl;
    plane = o;
  }

  Ended-IsUntouched :
      (sess : Session) (opts : CommitOpts) (c : Config) (e : Engine B S) (x : Error)
      {e' : Engine B S}
      → e.candidate ≡ some c
      → Ended env now sess opts c e
      → commit_changes env now sess opts c e ≡ (err x, e')
      → IsUntouched e e' x
  Ended-IsUntouched sess opts c e x a (refused y lines q) p =
      subst (λ t. IsUntouched e t x) (ap (λ t. t.1) (sym q ∙ p)) (untouched (inl refl))
  Ended-IsUntouched sess opts c e x a (failed base msg lines q f r) p =
      subst (λ t. IsUntouched e t x) (ap (λ t. t.1) (sym r ∙ p))
        (untouched (
          inr (
            base,
            c,
            msg,
            a,
            q,
            cc (ap (λ t. t.0) (sym r ∙ p)),
            ap (λ o. ((env.apply base c e.substrate).0, o)) f,
          )))
  Ended-IsUntouched sess opts c e x a (succeeded base q v n i f r) p =
      cc (ap (λ t. t.0) (sym r ∙ p))

  commit_held_err :
      (sess : Session) (opts : CommitOpts) (c : Config) (e : Engine B S) (x : Error)
      {e' : Engine B S}
      → IsServed e
      → e.candidate ≡ some c
      → commit_held env now sess opts c e ≡ (err x, e')
      → IsUntouched e e' x
  commit_held_err sess opts c e x h a p = elim (Bool-cases e.dirty) [
    | inl d ↦
        Ended-IsUntouched sess opts c e x a (commit_ends env now sess opts c e h)
          (sym (commit_held_dirty env now sess opts c e h d) ∙ p)
    | inr d ↦ cc (ap (λ t. t.0) (sym (commit_held_clean env now sess opts c e h d) ∙ p))
  ]

  -- A commit that fails while the database serves every statement changes, behind the sweep and the
  -- implicit confirmation of a pending commit, nothing but the audit log: the revisions, the candidate
  -- with its unsaved mark, the session lock, the confirmation and the timer are those that the sweep
  -- and the implicit confirmation have left. The data plane is too, unless it has itself refused the
  -- change from the committed configuration to the candidate.
  pub commit_failure :
      (sess : Session) (opts : CommitOpts) (e : Engine B S) (x : Error) (e' : Engine B S)
      → IsServed e
      → commit_session env now sess opts e ≡ (err x, e')
      → IsUntouched (before env now sess e) e' x
  commit_failure sess opts e x e' h p =
      let q = sym (commit_session_eq env now sess opts e h) ∙ p in
      elim (require_cases sess (before env now sess e)) [
        | inl r ↦
            subst (λ t. IsUntouched (before env now sess e) t x)
              (ap (λ t. t.1) (sym (bind_err _ _ r) ∙ q)) (untouched (inl refl))
        | inr (c, a, b, r) ↦
            commit_held_err sess opts c _ x (before-IsServed env now sess e h) a
              (sym (bind_ok _ _ r) ∙ q)
      ]
