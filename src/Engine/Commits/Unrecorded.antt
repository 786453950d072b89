-- ===== src/Engine/Commits/Unrecorded.antt =====
-- A commit whose revision the database does not take.
use nfvis.Prelude.{ℕ, true, false, none, List, [], ◌∷◌, ◌≡◌, refl, sym, ap, subst, ◌∙◌, arith}
use nfvis.Model.{Config}
use nfvis.Engine.Types.{
  Error, sql, insert_revision, insert_audit, ok, err, Intent, Session, CommitOpts,
}
use nfvis.Engine.Db.{append_audit, append_revision}
use nfvis.Engine.HighRisk.{high_risk_config_intent}
use nfvis.Engine.State.{Env, Engine, M, ◌>>=◌, on_failure}
use nfvis.Engine.Commit.{vet, announce, conclude, record_commit, commit_changes}
use nfvis.Engine.Keeps.{bind_ok, bind_err}
use nfvis.Engine.Outcome.{announced, install_done, on_plane}

module _ {B S A : Type 0} where
  on_failure_err :
      (m : M B S A) (h : Error → M B S (Unit {0})) {e e' : Engine B S} {x : Error}
      → m e ≡ (err x, e')
      → on_failure m h e ≡ (err x, (h x e').1)
  unfolding on_failure
  on_failure_err m h p = rw p refl

module _ {B S : Type 0} (env : Env B S) (now : ℕ) where
  -- The commit has failed with the change in the data plane and no revision for it.
  pub record IsAhead (e e' : Engine B S) (s : S) : Type 0 where
    pub plane : e'.substrate ≡ s
    pub revisions : e'.store.revisions ≡ e.store.revisions
    pub seq : e'.store.seq ≡ e.store.seq
    pub candidate : e'.candidate ≡ e.candidate
    pub dirty : e'.dirty ≡ e.dirty

  announce_logged :
      (sess : Session) (is : List Intent) (e : Engine B S)
      → e.store.fault insert_audit ≡ false
      → announce env now sess is e ≡ (ok tt, announced env now sess is e)
  unfolding announce ◌>>=◌ append_audit
  announce_logged sess [] e h = refl
  announce_logged sess (i ∷ is) e h = ground arith

  record_refused :
      (sess : Session) (opts : CommitOpts) (c : Config) (e : Engine B S)
      → e.store.fault insert_revision ≡ true
      → record_commit env now sess opts c e ≡ (err (sql insert_revision), e)
  unfolding record_commit append_revision ◌>>=◌
  record_refused sess opts c e h = rw h refl

  announced-substrate :
      (sess : Session) (is : List Intent) (e : Engine B S)
      → (announced env now sess is e).substrate ≡ e.substrate
  announced-substrate sess [] e = refl
  announced-substrate sess (i ∷ is) e = refl

  announced-fault :
      (sess : Session) (is : List Intent) (e : Engine B S)
      → (announced env now sess is e).store.fault ≡ e.store.fault
  announced-fault sess [] e = refl
  announced-fault sess (i ∷ is) e = refl

  -- The intent line before the change and the line about the failure leave the rest as it is.
  concluded-IsAhead :
      (sess : Session) (is : List Intent) (x : Error) (e : Engine B S) (s : S)
      → IsAhead e
          (conclude env now sess is x (on_plane env now s (announced env now sess is e))).1
          s
  unfolding conclude append_audit ◌>>=◌
  concluded-IsAhead sess [] x e s = record {
    plane = refl;
    revisions = refl;
    seq = refl;
    candidate = refl;
    dirty = refl;
  }
  concluded-IsAhead sess (i ∷ is) x e s = record {
    plane = ground arith;
    revisions = ground arith;
    seq = ground arith;
    candidate = ground arith;
    dirty = ground arith;
  }

  -- A commit whose change passes every check and is accepted by the data plane, but whose revision the
  -- database does not take, answers with the error of the database: the data plane has the new
  -- configuration then, while the revisions, the candidate and its unsaved mark are those of before.
  pub unrecorded_commit_applied :
      (sess : Session) (opts : CommitOpts) (base c : Config) (e : Engine B S)
      → vet env now sess opts c e ≡ (ok base, e)
      → (env.apply base c e.substrate).1 ≡ none
      → e.store.fault insert_audit ≡ false
      → e.store.fault insert_revision ≡ true
      → let e' = (commit_changes env now sess opts c e).1 in
        (commit_changes env now sess opts c e ≡ (err (sql insert_revision), e'))
        × IsAhead e e' (env.apply base c e.substrate).0
  unfolding commit_changes
  unrecorded_commit_applied sess opts base c e v f a r =
      let is = high_risk_config_intent base c sess.source in
      let b = announced env now sess is e in
      let same = ap (λ s. env.apply base c s) (announced-substrate sess is e) in
      let m = on_plane env now (env.apply base c b.substrate).0 b in
      let x = sql insert_revision in
      let q : commit_changes env now sess opts c e ≡ (err x, (conclude env now sess is x m).1) =
        bind_ok _ _ v
        ∙ bind_ok _ _ (announce_logged sess is e a)
        ∙ bind_ok _ _ (install_done env now sess base c b (ap (λ p. p.1) same ∙ f))
        ∙ bind_err _ _ (
            on_failure_err _ _ (
              record_refused sess opts c m
                (ap (λ g. g insert_revision) (announced-fault sess is e) ∙ r))) in
      (
        q ∙ ap (λ t. (err x, t)) (ap (λ p. p.1) (sym q)),
        subst (λ t. IsAhead e t (env.apply base c e.substrate).0) (ap (λ p. p.1) (sym q))
            (subst (λ s. IsAhead e (conclude env now sess is x m).1 s) (ap (λ p. p.0) same)
              (concluded-IsAhead sess is x e (env.apply base c b.substrate).0)),
      )
