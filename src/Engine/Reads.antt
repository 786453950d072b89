-- ===== src/Engine/Reads.antt =====
-- The committed configuration is that of the newest row.
use nfvis.Prelude.{some, List, ◌∷◌, ◌≡◌, arith, List-cases, Option-cases, inl, inr}
use nfvis.Model.{Config}
use nfvis.Engine.Types.{ok, Revision}
use nfvis.Engine.State.{Env, Engine, ◌>>=◌, committed}
use nfvis.Engine.Healthy.{IsServed}

module _ {B S : Type 0} (env : Env B S) where
  -- What `committedLocked` has read stands in the newest row.
  pub committed_row :
      (e : Engine B S) (base : Config)
      → IsServed e
      → committed env e ≡ (ok base, e)
      → (r : Revision B) × (rs : List (Revision B)) × (e.store.revisions ≡ r ∷ rs)
        × (env.decode r.config_json ≡ some base)
  unfolding committed ◌>>=◌
  committed_row e base h q = elim (List-cases e.store.revisions) [
    | inl p ↦ absurd (ground arith)
    | inr (r, rs, p) ↦ elim (Option-cases (env.decode r.config_json)) [
      | inl d ↦ absurd (ground arith)
      | inr (c, d) ↦ (r, rs, p, ground arith)
    ]
  ]

  -- What stands in the newest row is what `committedLocked` reads.
  pub row_committed :
      (e : Engine B S) (base : Config) (r : Revision B) (rs : List (Revision B))
      → IsServed e
      → e.store.revisions ≡ r ∷ rs
      → env.decode r.config_json ≡ some base
      → committed env e ≡ (ok base, e)
  unfolding committed ◌>>=◌
  row_committed e base r rs h p d = ground arith
