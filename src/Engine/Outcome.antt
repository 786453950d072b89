-- ===== src/Engine/Outcome.antt =====
-- How a commit ends while the database serves every statement: refused, failed by the data plane,
-- or done.
use nfvis.Prelude.{
  ℕ, suc, ◌+◌, ◌*◌, String, false, Option, none, some, List, [], ◌∷◌, ◌≡◌, refl, ap, ◌∙◌, inl, inr,
  arith, if◌then◌else◌, take, ◌==◌, Bool-cases, Option-cases,
}
use nfvis.Model.{Config}
use nfvis.Engine.Types.{
  Error, substrate, ok, err, changes, substrate_failed, intends, Intent, commit, success, failure,
  intent, AuditEntry, text, Session, CommitOpts,
}
use nfvis.Engine.Db.{keep_revisions, insert_row, append_audit}
use nfvis.Engine.State.{Env, Engine, session_holder, ◌>>=◌, committed}
use nfvis.Engine.HighRisk.{high_risk_config_intent}
use nfvis.Engine.Commit.{
  minute, all_errors, needs_confirm, image_errors, warnings, announce, install, record_commit, seal,
  commit_changes,
}
use nfvis.Engine.Keeps.{bind_ok, bind_err, on_failure_ok, pure_eq}
use nfvis.Engine.Healthy.{
  IsServed, entry, logged, invalid, unreadable, unconfirmed, no_image, passed, vet_served,
}

module _ {B S : Type 0} (env : Env B S) (now : ℕ) where
  -- The state behind the intent line, if there is one.
  abbrev pub announced : Session → List Intent → Engine B S → Engine B S
  announced sess [] e = e
  announced sess (i ∷ is) e =
      logged env now (entry env now sess.user commit (intends (i ∷ is)) intent) e

  announce_served :
      (sess : Session) (is : List Intent) (e : Engine B S)
      → IsServed e
      → announce env now sess is e ≡ (ok tt, announced sess is e)
  unfolding announce ◌>>=◌ append_audit
  announce_served sess [] e h = refl
  announce_served sess (i ∷ is) e h = ground arith

  announced-IsServed :
      (sess : Session) (is : List Intent) (e : Engine B S)
      → IsServed e
      → IsServed (announced sess is e)
  announced-IsServed sess [] e h = h
  announced-IsServed sess (i ∷ is) e h = h

  abbrev pub on_plane : S → Engine B S → Engine B S
  on_plane s e = record e { substrate = s }

  pub install_done :
      (sess : Session) (base c : Config) (e : Engine B S)
      → (env.apply base c e.substrate).1 ≡ none
      → install env now sess base c e ≡ (ok tt, on_plane (env.apply base c e.substrate).0 e)
  unfolding install
  install_done sess base c e p = ground arith

  install_failed :
      (sess : Session) (base c : Config) (e : Engine B S) (msg : String)
      → IsServed e
      → (env.apply base c e.substrate).1 ≡ some msg
      → install env now sess base c e ≡ (
        err (substrate msg),
        logged env now
            (entry env now sess.user commit (substrate_failed base c msg) failure)
            (on_plane (env.apply base c e.substrate).0 e),
      )
  unfolding install ◌>>=◌ append_audit
  install_failed sess base c e msg h p = ground arith

  abbrev pub deadline : CommitOpts → ℕ
  deadline opts = now + opts.confirmed_minutes * minute

  -- The tables and the timer once the revision is recorded.
  abbrev pub recorded : Session → CommitOpts → Config → Engine B S → Engine B S
  recorded sess opts c e =
      let db = insert_row (env.encode c) now (text opts.message) sess.user e.store in
      let pruned = record db { revisions = take keep_revisions db.revisions } in
      if opts.confirmed_minutes == 0 then record e { store = pruned } else record e {
        store = record pruned {
          confirmed = some (record {
            base_rev = e.store.seq;
            deadline = deadline opts;
            holder = session_holder sess;
          });
        };
        timer = some (deadline opts);
      }

  abbrev pub until : CommitOpts → Option ℕ
  until opts = if opts.confirmed_minutes == 0 then none else some (deadline opts)

  record_commit_served :
      (sess : Session) (opts : CommitOpts) (c : Config) (e : Engine B S)
      → IsServed e
      → record_commit env now sess opts c e
        ≡ (ok (suc e.store.seq, until opts), recorded sess opts c e)
  unfolding record_commit ◌>>=◌
  record_commit_served sess opts c e h = ground arith

  abbrev pub sealed : Session → Config → Config → ℕ → Engine B S → Engine B S
  sealed sess base c rev e =
      let e' = logged env now (entry env now sess.user commit (changes base c) success) e in
      record e' { dirty = false; commits = (rev, sess.user) ∷ e'.commits }

  seal_served :
      (sess : Session) (base c : Config) (rev : ℕ) (e : Engine B S)
      → IsServed e
      → seal env now sess base c rev e ≡ (ok tt, sealed sess base c rev e)
  unfolding seal ◌>>=◌ append_audit
  seal_served sess base c rev e h = ground arith

  recorded-IsServed :
      (sess : Session) (opts : CommitOpts) (c : Config) (e : Engine B S)
      → IsServed e
      → IsServed (recorded sess opts c e)
  recorded-IsServed sess opts c e h = elim (Bool-cases (opts.confirmed_minutes == 0)) [
    | inl p ↦ rw p h
    | inr p ↦ rw p h
  ]

  abbrev pub intents : Session → Config → Config → List Intent
  intents sess base c = high_risk_config_intent base c sess.source

  -- The state in which the data plane is called.
  abbrev pub ready : Session → Config → Config → Engine B S → Engine B S
  ready sess base c e = announced sess (intents sess base c) e

  -- The state behind a successful commit.
  abbrev pub done : Session → CommitOpts → Config → Config → Engine B S → Engine B S
  done sess opts base c e =
      let r = ready sess base c e in
      sealed sess base c (suc r.store.seq)
        (recorded sess opts c (on_plane (env.apply base c r.substrate).0 r))

  -- How `Commit` ends from a state in which the session holds a changed candidate.
  pub data Ended (sess : Session) (opts : CommitOpts) (c : Config) (e : Engine B S) : Type 0 where
    refused :
        (x : Error) (lines : List AuditEntry)
        → commit_changes env now sess opts c e
          ≡ (err x, record e { store = record (e.store) { audit = lines } })
        → Ended sess opts c e
    failed :
        (base : Config) (msg : String) (lines : List AuditEntry)
        → committed env e ≡ (ok base, e)
        → (env.apply base c e.substrate).1 ≡ some msg
        → commit_changes env now sess opts c e ≡ (
          err (substrate msg),
          record e {
            store = record (e.store) { audit = lines };
            substrate = (env.apply base c e.substrate).0;
          },
        )
        → Ended sess opts c e
    succeeded :
        (base : Config)
        → committed env e ≡ (ok base, e)
        → all_errors env opts c ≡ []
        → needs_confirm sess opts base c ≡ false
        → image_errors env c ≡ []
        → (env.apply base c e.substrate).1 ≡ none
        → commit_changes env now sess opts c e ≡ (
          ok (record {
            revision = suc e.store.seq;
            confirmed_until = until opts;
            warnings = warnings env base c;
          }),
          done sess opts base c e,
        )
        → Ended sess opts c e

  announced_plane :
      (sess : Session) (is : List Intent) (e : Engine B S)
      → ((announced sess is e).substrate ≡ e.substrate)
        × ((announced sess is e).store.seq ≡ e.store.seq)
        × (announced sess is e
            ≡ record e { store = record (e.store) { audit = (announced sess is e).store.audit } })
  announced_plane sess [] e = (refl, refl, refl)
  announced_plane sess (i ∷ is) e = (refl, refl, refl)

  plane_of :
      (sess : Session) (is : List Intent) (base c : Config) (e : Engine B S) {o : Option String}
      → (env.apply base c e.substrate).1 ≡ o
      → (env.apply base c (announced sess is e).substrate).1 ≡ o
  plane_of sess [] base c e p = p
  plane_of sess (i ∷ is) base c e p = p

  failed_lines : Session → List Intent → Config → Config → String → Engine B S → List AuditEntry
  failed_lines sess is base c msg e =
      entry env now sess.user commit (substrate_failed base c msg) failure
      ∷ (announced sess is e).store.audit

  failed_state :
      (sess : Session) (is : List Intent) (base c : Config) (msg : String) (e : Engine B S)
      → logged env now
          (entry env now sess.user commit (substrate_failed base c msg) failure)
          (on_plane (env.apply base c (announced sess is e).substrate).0 (announced sess is e))
        ≡ record e {
          store = record (e.store) { audit = failed_lines sess is base c msg e };
          substrate = (env.apply base c e.substrate).0;
        }
  unfolding failed_lines
  failed_state sess [] base c msg e = refl
  failed_state sess (i ∷ is) base c msg e = refl

  pub commit_ends :
      (sess : Session) (opts : CommitOpts) (c : Config) (e : Engine B S)
      → IsServed e
      → Ended sess opts c e
  unfolding commit_changes
  commit_ends sess opts c e h = elim (vet_served env now sess opts c e h) [
    | invalid vs p q ↦ refused _ _ (bind_err _ _ q)
    | unreadable q ↦ refused _ _ (bind_err _ _ q)
    | unconfirmed q ↦ refused _ _ (bind_err _ _ q)
    | no_image vs p q ↦ refused _ _ (bind_err _ _ q)
    | passed base q p r i v ↦ elim (Option-cases (env.apply base c e.substrate).1) [
      | inr (msg, f) ↦ failed base msg (failed_lines sess (intents sess base c) base c msg e) q f (
          bind_ok _ _ v
          ∙ bind_ok _ _ (announce_served sess (intents sess base c) e h)
          ∙ bind_err _ _ (
              install_failed sess base c _ msg (announced-IsServed sess (intents sess base c) e h)
                (plane_of sess (intents sess base c) base c e f))
          ∙ ap (λ t. (err (substrate msg), t))
              (failed_state sess (intents sess base c) base c msg e))
      | inl f ↦ succeeded base q p r i f (
          bind_ok _ _ v
          ∙ bind_ok _ _ (announce_served sess (intents sess base c) e h)
          ∙ bind_ok _ _
              (install_done sess base c _ (plane_of sess (intents sess base c) base c e f))
          ∙ bind_ok _ _ (
              on_failure_ok _ _ (
                record_commit_served sess opts c _
                  (announced-IsServed sess (intents sess base c) e h)))
          ∙ bind_ok _ _ (
              seal_served sess base c _ _ (
                recorded-IsServed sess opts c _
                  (announced-IsServed sess (intents sess base c) e h)))
          ∙ pure_eq _ _
          ∙ ap
              (λ n. (
                ok (record {
                  revision = suc n;
                  confirmed_until = until opts;
                  warnings = warnings env base c;
                }),
                done sess opts base c e,
              ))
              (announced_plane sess (intents sess base c) e).1)
    ]
  ]
