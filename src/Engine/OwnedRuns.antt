-- ===== src/Engine/OwnedRuns.antt =====
-- The session lock over whole runs of the engine.
use nfvis.Prelude.{ℕ, List, [], ◌∷◌, refl}
use nfvis.Engine.Db.{Db}
use nfvis.Engine.State.{Env, Engine}
use nfvis.Engine.Lifecycle.{on_confirmed_timer, new_engine}
use nfvis.Engine.Requests.{
  Request, edits, releases, discards, confirms, updates, merges, commits, rolls_back, timer_fires,
  restarts, Call, serve, serve_all,
}
use nfvis.Engine.Owned.{
  IsOwned, sweep_confirmed-IsOwned, edit-IsOwned, release_session-IsOwned, discard-IsOwned,
  update_candidate-IsOwned, merge_candidate-IsOwned, commit_session-IsOwned, confirm_commit-IsOwned,
  rollback_session-IsOwned, boot-IsOwned,
}

module _ {B S : Type 0} (env : Env B S) where
  new_engine-IsOwned : (now : ℕ) (db : Db B) (s : S) → IsOwned (new_engine env now db s).1
  unfolding new_engine
  new_engine-IsOwned now db s = (boot-IsOwned env now).at _ refl

  serve-IsOwned : (now : ℕ) (r : Request) (e : Engine B S) → IsOwned e → IsOwned (serve env now r e)
  unfolding serve on_confirmed_timer
  serve-IsOwned now (edits sess) e h = (edit-IsOwned env now sess).at e h
  serve-IsOwned now (releases sess) e h = (release_session-IsOwned env now sess).at e h
  serve-IsOwned now (discards sess) e h = (discard-IsOwned env now sess).at e h
  serve-IsOwned now (confirms sess) e h = (confirm_commit-IsOwned env now sess).at e h
  serve-IsOwned now (updates sess c) e h = (update_candidate-IsOwned env now sess c).at e h
  serve-IsOwned now (merges sess c) e h = (merge_candidate-IsOwned env now sess c).at e h
  serve-IsOwned now (commits sess opts) e h = (commit_session-IsOwned env now sess opts).at e h
  serve-IsOwned now (rolls_back sess n) e h = (rollback_session-IsOwned env now sess n).at e h
  serve-IsOwned now timer_fires e h = (sweep_confirmed-IsOwned env now).at e h
  serve-IsOwned now restarts e h = new_engine-IsOwned now e.store e.substrate

  -- Whatever requests an engine serves, restarts included, and whatever statements of the store
  -- fail while it does: a candidate exists only under a lock row that carries the name of the
  -- session that edits.
  pub serve_all-IsOwned :
      (cs : List Call) (e : Engine B S) → IsOwned e → IsOwned (serve_all env cs e)
  unfolding serve_all
  serve_all-IsOwned [] e h = h
  serve_all-IsOwned (c ∷ cs) e h = serve_all-IsOwned cs _ (serve-IsOwned c.now c.request _ h)

  -- From the start of an engine over any tables, and whatever requests it then serves, restarts
  -- included, whatever statements of the store fail meanwhile: a candidate exists only under a lock
  -- row that carries the name of the session that edits.
  pub started-IsOwned :
      (now : ℕ) (db : Db B) (s : S) (cs : List Call)
      → IsOwned (serve_all env cs (new_engine env now db s).1)
  started-IsOwned now db s cs = serve_all-IsOwned cs _ (new_engine-IsOwned now db s)
