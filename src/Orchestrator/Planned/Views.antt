-- ===== src/Orchestrator/Planned/Views.antt =====
-- The objects of one kind that a run of a plan leaves in the data plane.
use nfvis.Prelude.{
  ℕ, suc, String, Bool, false, Option, none, some, List, [], ◌∷◌, ◌++◌, ◌≡◌, refl, sym, ap, ◌∙◌,
  Bool-cases, inl, inr, str_eq, if◌then◌else◌,
}
use nfvis.Orchestrator.Actions.{Action, Step}
use nfvis.Orchestrator.Plan.{joined}
use nfvis.Orchestrator.Planned.Blocks.{rank, IsRanked, AreRanked}

module _ {T : Type 0} where
  -- The object that a call puts under a name, or takes from it.
  abbrev pub changed : Option (String × Option T) → (String → Option T) → String → Option T
  changed none st n = st n
  changed (some (m, o)) st n = if str_eq m n then o else st n

  module _ (view : Action → Option (String × Option T)) where
    -- The objects behind a run in which every call succeeds.
    unfoldable pub run_view : List Step → (String → Option T) → String → Option T
    run_view [] st = st
    run_view (s ∷ ss) st = run_view ss (changed (view s.run) st)

    pub run_view-append :
        (xs ys : List Step) (st : String → Option T)
        → run_view (xs ++ ys) st ≡ run_view ys (run_view xs st)
    unfolding run_view
    run_view-append [] ys st = refl
    run_view-append (x ∷ xs) ys st = run_view-append xs ys (changed (view x.run) st)

    module _ (visible : ℕ → Bool)
        (hidden : (a : Action) → visible (rank a) ≡ false → view a ≡ none) where
      -- The blocks whose rank is visible.
      abbrev pub kept : ℕ → List (List Step) → List (List Step)
      kept k [] = []
      kept k (b ∷ bs) = if visible k then b ∷ kept (suc k) bs else kept (suc k) bs

      run_view-hidden :
          (k : ℕ) (b : List Step) (st : String → Option T)
          → visible k ≡ false
          → IsRanked k b
          → run_view b st ≡ st
      unfolding run_view
      run_view-hidden k [] st v r = refl
      run_view-hidden k (s ∷ ss) st v (e, r) =
          rw (hidden s.run (ap visible e ∙ v)) (run_view-hidden k ss st v r)

      pub run_view-kept :
          (k : ℕ) (bs : List (List Step)) (st : String → Option T)
          → AreRanked k bs
          → run_view (joined bs) st ≡ run_view (joined (kept k bs)) st
      unfolding run_view
      run_view-kept k [] st r = refl
      run_view-kept k (b ∷ bs) st (r, rs) = elim (Bool-cases (visible k)) [
        | inl e ↦
            rw e (
              run_view-append b _ st ∙ run_view-kept (suc k) bs _ rs ∙ sym (run_view-append b _ st))
        | inr e ↦ rw e (
            run_view-append b _ st
            ∙ run_view-kept (suc k) bs _ rs
            ∙ ap (run_view (joined (kept (suc k) bs))) (run_view-hidden k b st e r))
      ]

    -- A run of two blocks.
    pub run_view-joined :
        (a b : List Step) (st : String → Option T)
        → run_view (joined (a ∷ b ∷ [])) st ≡ run_view b (run_view a st)
    unfolding run_view
    run_view-joined a b st = run_view-append a (b ++ []) st ∙ run_view-append b [] (run_view a st)
