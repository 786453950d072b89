-- ===== src/Engine/Guards.antt =====
-- The two outcomes of the check of the holder.
use nfvis.Prelude.{some, ◌≡◌, ◌⊎◌, inl, inr, arith, str_eq, str_eq_sound, Bool-cases, Option-cases}
use nfvis.Model.{Config}
use nfvis.Engine.Types.{ok, err, not_editing, Session}
use nfvis.Engine.State.{Engine, session_holder, require_holder}

module _ {B S : Type 0} where
  -- The call is refused and changes nothing, or the session is the one that edits.
  pub require_cases :
      (sess : Session) (e : Engine B S)
      → (require_holder sess e ≡ (err not_editing, e))
        ⊎ ((c : Config) × (e.candidate ≡ some c)
            × (e.holder ≡ session_holder sess)
            × (require_holder sess e ≡ (ok c, e)))
  unfolding require_holder
  require_cases sess e = elim (Option-cases e.candidate) [
    | inl p ↦ inl (ground arith)
    | inr (c, p) ↦ elim (Bool-cases (str_eq e.holder "")) [
      | inl q ↦ inl (ground arith)
      | inr q ↦ elim (Bool-cases (str_eq e.holder (session_holder sess))) [
        | inl r ↦ inr (c, p, str_eq_sound _ _ r, ground arith)
        | inr r ↦ inl (ground arith)
      ]
    ]
  ]
