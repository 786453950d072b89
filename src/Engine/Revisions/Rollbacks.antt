-- ===== src/Engine/Revisions/Rollbacks.antt =====
-- `Rollback` loads a revision by its age.
use nfvis.Prelude.{
  ℕ, zero, suc, ◌-◌, ◌<◌, none, some, List, [], ◌∷◌, true, ◌≡◌, sym, ap, ◌∙◌, arith, subst,
  get_elem?,
}
use nfvis.Model.{Config}
use nfvis.Engine.Types.{ok, Revision, Session}
use nfvis.Engine.Db.{newest, keep_revisions, append_audit, find_revision}
use nfvis.Engine.State.{Env, Engine, ◌>>=◌, require_holder}
use nfvis.Engine.Lifecycle.{sweep}
use nfvis.Engine.History.{rollback_to, rollback_session}
use nfvis.Engine.Healthy.{IsServed}
use nfvis.Engine.Keeps.{bind_ok}
use nfvis.Engine.Swept.{sweep_then, sweep-IsServed}
use nfvis.Engine.Numbered.Rows.{Numbered, IsNumbered, find-Numbered}
use nfvis.Engine.Numbered.Calls.{sweep-IsNumbered}

module _ {B S : Type 0} (env : Env B S) (now : ℕ) where
  newest-Numbered :
      (n i : ℕ) (rs : List (Revision B)) (r : Revision B)
      → Numbered n rs
      → get_elem? rs i ≡ some r
      → (newest rs).0 ≡ n
  newest-Numbered n i [] r h g = cc
  newest-Numbered zero i (x ∷ xs) r h g = elim h [ ]
  newest-Numbered (suc n) i (x ∷ xs) r h g = h.0

  -- What a rollback has done from the state `e`.
  pub record IsLoaded (cfg : Config) (e e' : Engine B S) : Type 0 where
    pub candidate : e'.candidate ≡ some cfg
    pub unsaved : e'.dirty ≡ true
    pub pending : e'.store.confirmed ≡ none
    pub holder : e'.holder ≡ e.holder
    pub revisions : e'.store.revisions ≡ e.store.revisions
    pub plane : e'.substrate ≡ e.substrate

  rollback_to_served :
      (sess : Session) (n : ℕ) (b : B) (cfg : Config) (e : Engine B S)
      → IsServed e
      → 0 < n
      → n < keep_revisions
      → find_revision ((newest e.store.revisions).0 - n) e.store.revisions ≡ ok b
      → env.decode b ≡ some cfg
      → IsLoaded cfg e (rollback_to env now sess n e).1
  unfolding rollback_to append_audit ◌>>=◌
  rollback_to_served sess n b cfg e h l u f d = record {
    candidate = ground arith;
    unsaved = ground arith;
    pending = ground arith;
    holder = ground arith;
    revisions = ground arith;
    plane = ground arith;
  }

  -- `Rollback n` by the session that edits, for n from 1 to 50: the candidate becomes the
  -- configuration of the revision n places below the newest, and is marked as unsaved; a pending
  -- confirmation is dropped; the revisions and the data plane stay. The revisions are numbered
  -- without gaps, the database serves every statement, the row is there and parses.
  pub rollback_loads :
      (sess : Session) (n : ℕ) (r : Revision B) (cfg c : Config) (e : Engine B S)
      → IsServed e
      → IsNumbered e
      → require_holder sess (sweep env now e).1 ≡ (ok c, (sweep env now e).1)
      → 0 < n
      → n < keep_revisions
      → get_elem? (sweep env now e).1.store.revisions n ≡ some r
      → env.decode r.config_json ≡ some cfg
      → IsLoaded cfg (sweep env now e).1 (rollback_session env now sess n e).1
  unfolding rollback_session
  rollback_loads sess n r cfg c e h w q l u g d =
      let s = (sweep env now e).1 in
      let num = (sweep-IsNumbered env now).at e w in
      let top = newest-Numbered s.store.seq n s.store.revisions r num g in
      subst (λ x. IsLoaded cfg s x.1) (sym (sweep_then env now _ e ∙ bind_ok _ _ q))
        (rollback_to_served sess n r.config_json cfg s (sweep-IsServed env now e h) l u
          (ap (λ k. find_revision (k - n) s.store.revisions) top
            ∙ find-Numbered n s.store.seq s.store.revisions r num g)
          d)
