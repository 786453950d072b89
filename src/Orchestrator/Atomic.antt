-- ===== src/Orchestrator/Atomic.antt =====
-- The orchestrator as the engine's applier: a commit that fails leaves the data plane as it was.
use nfvis.Prelude.{ℕ, String, Option, none, some, List, ◌≡◌, sym, ap, ◌∙◌, inl, inr}
use nfvis.Model.{Config}
use nfvis.Engine.Types.{Error, ok, err, Session, CommitOpts}
use nfvis.Engine.State.{Env, Engine, committed}
use nfvis.Engine.Commit.{commit_session}
use nfvis.Engine.Healthy.{IsServed}
use nfvis.Engine.Commits.Before.{before}
use nfvis.Engine.Commits.Failure.{commit_failure}
use nfvis.Orchestrator.Executor.{Op, Plane, Failure, apply_changes}
use nfvis.Orchestrator.Reversal.{IsReversible, IsAtomic, apply_changes-IsAtomic}

module _ {P : Type 0} where
  abbrev told : (Failure → String) → Plane P × Option Failure → Plane P × Option String
  told text (s, none) = (s, none)
  told text (s, some f) = (s, some (text f))

  -- An engine whose applier carries out `plan`; `text` prints its error.
  abbrev pub with_applier :
      {B : Type 0}
      → (Config → Config → List (Op P))
      → (Failure → String)
      → Env B (Plane P)
      → Env B (Plane P)
  with_applier plan text env = record env {
    apply = λ old new s. told text (apply_changes plan old new s);
  }

  refused_state :
      (text : Failure → String) (r : Plane P × Option Failure) (p : P) (s : Plane P) (msg : String)
      → IsAtomic p r
      → told text r ≡ (s, some msg)
      → s.state ≡ p
  refused_state text (t, none) p s msg a q = cc (ap (λ x. x.1) q)
  refused_state text (t, some f) p s msg a q = sym (ap (λ x. x.0.state) q) ∙ a.0

-- With the orchestrator as the applier of the engine: a commit that fails while the database serves
-- every statement leaves the data plane in the state before it, if each operation that the plan from
-- the committed configuration to the candidate comes to can be taken back where it is run.
pub commit_failure-state :
    {B P : Type 0} (plan : Config → Config → List (Op P)) (text : Failure → String)
    (env : Env B (Plane P)) (now : ℕ) (sess : Session) (opts : CommitOpts) (e : Engine B (Plane P))
    (x : Error) (e' : Engine B (Plane P))
    → IsServed e
    → let env' = with_applier plan text env in
      let b = before env' now sess e in
      ((base c : Config)
        → committed env' b ≡ (ok base, b)
        → b.candidate ≡ some c
        → IsReversible (plan base c) b.substrate.state)
      → commit_session env' now sess opts e ≡ (err x, e')
      → e'.substrate.state ≡ (before env' now sess e).substrate.state
commit_failure-state plan text env now sess opts e x e' h w p =
    let env' = with_applier plan text env in
    elim (commit_failure env' now sess opts e x e' h p).plane [
      | inl q ↦ ap (λ s. s.state) q
      | inr (base, c, msg, a, r, y, q) ↦
          refused_state text (apply_changes plan base c (before env' now sess e).substrate) _
            e'.substrate msg
            (apply_changes-IsAtomic plan base c (before env' now sess e).substrate (w base c r a)) q
    ]
