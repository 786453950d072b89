-- ===== src/Engine/Commits/Success.antt =====
-- What a successful commit has done.
use nfvis.Prelude.{
  ℕ, suc, true, false, none, some, Option, List, [], ◌∷◌, ◌≡◌, refl, ap, sym, subst, ◌∙◌, inl, inr,
  take, ◌==◌, Bool-cases, if◌then◌else◌,
}
use mathlib.Core.Path.{ap₂, subst₂}
use nfvis.Model.{Config}
use nfvis.Engine.Types.{
  ConfirmedInfo, commit, success, changes, Intent, Result, ok, err, text, Session, CommitOpts,
  CommitResult,
}
use nfvis.Engine.Db.{keep_revisions, insert_row}
use nfvis.Engine.State.{Env, Engine, session_holder, committed}
use nfvis.Engine.Commit.{
  all_errors, needs_confirm, image_errors, warnings, commit_changes, commit_session,
}
use nfvis.Engine.Guards.{require_cases}
use nfvis.Engine.Keeps.{bind_ok, bind_err}
use nfvis.Engine.Healthy.{IsHealthy, IsServed, entry}
use nfvis.Engine.Outcome.{
  deadline, until, on_plane, sealed, intents, Ended, refused, failed, succeeded, commit_ends,
  recorded, announced,
}
use nfvis.Engine.Commits.Before.{before, before-IsServed, commit_session_eq, commit_held_dirty}

ok_value : Result CommitResult → CommitResult → CommitResult
ok_value (ok r) d = r
ok_value (err x) d = d

ok-injective : {r s : CommitResult} → ok r ≡ ok s → r ≡ s
unfolding ok_value
ok-injective {r = r} p = ap (λ t. ok_value t r) p

module _ {B S : Type 0} (env : Env B S) (now : ℕ) where
  -- The confirmation that is pending after a commit over revision `rev`.
  abbrev pub awaited : Session → CommitOpts → ℕ → Option ConfirmedInfo → Option ConfirmedInfo
  awaited sess opts rev old =
      if opts.confirmed_minutes == 0
      then old
      else some (record {
        base_rev = rev;
        deadline = deadline env now opts;
        holder = session_holder sess;
      })

  -- What a successful commit of a changed candidate has done.
  pub record IsCommitted (sess : Session) (opts : CommitOpts) (c base : Config) (e e' : Engine B S)
      (res : CommitResult) : Type 0 where
    pub read : committed env e ≡ (ok base, e)
    pub valid : all_errors env opts c ≡ []
    pub confirmable : needs_confirm sess opts base c ≡ false
    pub images : image_errors env c ≡ []
    pub accepted : (env.apply base c e.substrate).1 ≡ none
    pub plane : e'.substrate ≡ (env.apply base c e.substrate).0
    pub revisions :
        e'.store.revisions
        ≡ take keep_revisions
            (insert_row (env.encode c) now (text opts.message) sess.user e.store).revisions
    pub seq : e'.store.seq ≡ suc e.store.seq
    pub revision : res.revision ≡ suc e.store.seq
    pub told : res.confirmed_until ≡ until env now opts
    pub candidate : e'.candidate ≡ e.candidate
    pub holder : e'.holder ≡ e.holder
    pub lock : e'.store.lock ≡ e.store.lock
    pub clean : e'.dirty ≡ false
    pub pending : e'.store.confirmed ≡ awaited sess opts e.store.seq e.store.confirmed
    pub armed :
        e'.timer ≡ (if opts.confirmed_minutes == 0 then e.timer else some (deadline env now opts))
    pub lines :
        e'.store.audit
        ≡ entry env now sess.user commit (changes base c) success
          ∷ (announced env now sess (intents env now sess base c) e).store.audit
    pub served : IsServed e'

  announced_facts :
      (sess : Session) (is : List Intent) (e : Engine B S)
      → let r = announced env now sess is e in
        (r.substrate ≡ e.substrate)
        × (r.store.seq ≡ e.store.seq)
        × (r.store.revisions ≡ e.store.revisions)
        × (r.candidate ≡ e.candidate)
        × (r.holder ≡ e.holder)
        × (r.store.lock ≡ e.store.lock)
        × (r.store.confirmed ≡ e.store.confirmed)
        × (r.timer ≡ e.timer)
        × (r.store.fault ≡ e.store.fault)
  announced_facts sess [] e = (refl, refl, refl, refl, refl, refl, refl, refl, refl)
  announced_facts sess (i ∷ is) e = (refl, refl, refl, refl, refl, refl, refl, refl, refl)

  recorded_facts :
      (sess : Session) (opts : CommitOpts) (c : Config) (e : Engine B S)
      → let e' = recorded env now sess opts c e in
        (e'.store.revisions
          ≡ take keep_revisions
              (insert_row (env.encode c) now (text opts.message) sess.user e.store).revisions)
        × (e'.store.seq ≡ suc e.store.seq)
        × (e'.candidate ≡ e.candidate)
        × (e'.holder ≡ e.holder)
        × (e'.store.lock ≡ e.store.lock)
        × (e'.substrate ≡ e.substrate)
        × (e'.store.confirmed ≡ awaited sess opts e.store.seq e.store.confirmed)
        × (e'.timer
            ≡ (if opts.confirmed_minutes == 0 then e.timer else some (deadline env now opts)))
        × (e'.store.audit ≡ e.store.audit)
        × (e'.store.fault ≡ e.store.fault)
  recorded_facts sess opts c e = elim (Bool-cases (opts.confirmed_minutes == 0)) [
    | inl p ↦ rw p (refl, refl, refl, refl, refl, refl, refl, refl, refl, refl)
    | inr p ↦ rw p (refl, refl, refl, refl, refl, refl, refl, refl, refl, refl)
  ]

  -- The state of `done`, over any intent line.
  abbrev behind : Session → CommitOpts → Config → Config → List Intent → Engine B S → Engine B S
  behind sess opts base c is e =
      let r = announced env now sess is e in
      sealed env now sess base c (suc r.store.seq)
        (recorded env now sess opts c (on_plane env now (env.apply base c r.substrate).0 r))

  behind-IsCommitted :
      (sess : Session) (opts : CommitOpts) (c base : Config) (e : Engine B S)
      → IsServed e
      → committed env e ≡ (ok base, e)
      → all_errors env opts c ≡ []
      → needs_confirm sess opts base c ≡ false
      → image_errors env c ≡ []
      → (env.apply base c e.substrate).1 ≡ none
      → IsCommitted sess opts c base e
          (behind sess opts base c (intents env now sess base c) e)
          (record {
            revision = suc e.store.seq;
            confirmed_until = until env now opts;
            warnings = warnings env base c;
          })
  behind-IsCommitted sess opts c base e h q v n i f =
      let is = intents env now sess base c in
      let r = announced env now sess is e in
      let facts =
        recorded_facts sess opts c (on_plane env now (env.apply base c r.substrate).0 r) in
      let same = announced_facts sess is e in
      record {
        read = q;
        valid = v;
        confirmable = n;
        images = i;
        accepted = f;
        plane = facts.5 ∙ ap (λ s. (env.apply base c s).0) same.0;
        revisions =
            facts.0
            ∙ ap₂
                (λ n rs. take keep_revisions (
                  record {
                    rev = suc n;
                    committed_at = now;
                    message = text opts.message;
                    user = sess.user;
                    config_json = env.encode c;
                  }
                  ∷ rs))
                same.1 same.2;
        seq = facts.1 ∙ ap suc same.1;
        revision = refl;
        told = refl;
        candidate = facts.2 ∙ same.3;
        holder = facts.3 ∙ same.4;
        lock = facts.4 ∙ same.5;
        clean = refl;
        pending = facts.6 ∙ ap₂ (awaited sess opts) same.1 same.6;
        armed =
            facts.7
            ∙ ap (λ t. if opts.confirmed_minutes == 0 then t else some (deadline env now opts))
                same.7;
        lines = ap (λ l. entry env now sess.user commit (changes base c) success ∷ l) facts.8;
        served = subst IsHealthy (sym (facts.9 ∙ same.8)) h;
      }

  Ended-IsCommitted :
      (sess : Session) (opts : CommitOpts) (c : Config) (e : Engine B S) (res : CommitResult)
      {e' : Engine B S}
      → IsServed e
      → Ended env now sess opts c e
      → commit_changes env now sess opts c e ≡ (ok res, e')
      → (base : Config) × IsCommitted sess opts c base e e' res
  Ended-IsCommitted sess opts c e res h (refused y lines q) p = cc (ap (λ t. t.0) (sym q ∙ p))
  Ended-IsCommitted sess opts c e res h (failed base msg lines q f r) p =
      cc (ap (λ t. t.0) (sym r ∙ p))
  Ended-IsCommitted sess opts c e res h (succeeded base q v n i f r) p = (
    base,
    subst₂ (λ t u. IsCommitted sess opts c base e t u) (ap (λ t. t.1) (sym r ∙ p))
        (ok-injective (ap (λ t. t.0) (sym r ∙ p)))
        (behind-IsCommitted sess opts c base e h q v n i f),
  )

  -- A commit of a changed candidate that succeeds: the session that edits made it, the checks found
  -- nothing, a change of the management port over the network came with a confirmation time, the
  -- data plane accepted the change from the last committed configuration to the candidate, and the
  -- candidate is the newest revision under the next number, at most 51 being kept. The candidate and
  -- the lock stay with the session, and nothing is left unsaved. With a confirmation time the commit
  -- waits until its deadline, over the revision before it, and the timer is armed. The audit log has
  -- got the line of success, above the line of intent where the change is a high-risk one. The
  -- database serves every statement.
  pub commit_success :
      (sess : Session) (opts : CommitOpts) (e : Engine B S) (res : CommitResult) (e' : Engine B S)
      → IsServed e
      → (before env now sess e).dirty ≡ true
      → commit_session env now sess opts e ≡ (ok res, e')
      → (c : Config) × (base : Config) × ((before env now sess e).candidate ≡ some c)
        × ((before env now sess e).holder ≡ session_holder sess)
        × IsCommitted sess opts c base (before env now sess e) e' res
  commit_success sess opts e res e' h d p =
      let q = sym (commit_session_eq env now sess opts e h) ∙ p in
      elim (require_cases sess (before env now sess e)) [
        | inl r ↦ cc (ap (λ t. t.0) (sym (bind_err _ _ r) ∙ q))
        | inr (c, a, b, r) ↦
            let g = before-IsServed env now sess e h in
            let (base, k) =
              Ended-IsCommitted sess opts c _ res g (commit_ends env now sess opts c _ g)
                (sym (commit_held_dirty env now sess opts c _ g d) ∙ sym (bind_ok _ _ r) ∙ q) in
            (c, base, a, b, k)
      ]
