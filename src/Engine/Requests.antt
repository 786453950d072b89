-- ===== src/Engine/Requests.antt =====
-- Calls of the engine as a sequence: what its clients, its timer and a restart of the daemon do.
use nfvis.Prelude.{ℕ, Bool, List, [], ◌∷◌}
use nfvis.Model.{Config}
use nfvis.Engine.Types.{Stmt, Session, CommitOpts}
use nfvis.Engine.State.{Env, Engine}
use nfvis.Engine.Lifecycle.{on_confirmed_timer, new_engine, edit, release_session, discard}
use nfvis.Engine.Candidate.{update_candidate, merge_candidate}
use nfvis.Engine.Commit.{commit_session, confirm_commit}
use nfvis.Engine.History.{rollback_session}

pub data Request : Type 0 where
  edits releases discards confirms : Session → Request
  updates merges : Session → Config → Request
  commits : Session → CommitOpts → Request
  rolls_back : Session → ℕ → Request
  timer_fires restarts : Request

-- A request, the clock at which it is served, and the statements that fail while it is.
pub record Call : Type 0 where
  pub now : ℕ
  pub fault : Stmt → Bool
  pub request : Request

module _ {B S : Type 0} (env : Env B S) where
  abbrev with_fault : (Stmt → Bool) → Engine B S → Engine B S
  with_fault f e = record e { store = record (e.store) { fault = f } }

  unfoldable pub serve : ℕ → Request → Engine B S → Engine B S
  serve now (edits sess) e = (edit env now sess e).1
  serve now (releases sess) e = (release_session env now sess e).1
  serve now (discards sess) e = (discard env now sess e).1
  serve now (confirms sess) e = (confirm_commit env now sess e).1
  serve now (updates sess c) e = (update_candidate env now sess c e).1
  serve now (merges sess c) e = (merge_candidate env now sess c e).1
  serve now (commits sess opts) e = (commit_session env now sess opts e).1
  serve now (rolls_back sess n) e = (rollback_session env now sess n e).1
  serve now timer_fires e = (on_confirmed_timer env now e).1
  serve now restarts e = (new_engine env now e.store e.substrate).1

  unfoldable pub serve_all : List Call → Engine B S → Engine B S
  serve_all [] e = e
  serve_all (c ∷ cs) e = serve_all cs (serve c.now c.request (with_fault c.fault e))
