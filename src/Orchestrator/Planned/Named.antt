-- ===== src/Orchestrator/Planned/Named.antt =====
-- The objects behind the operations that make new and changed ones, and behind those that take away
-- old ones.
use nfvis.Prelude.{
  String, Bool, true, false, Option, none, some, List, [], ◌∷◌, ◌≡◌, refl, sym, ap, subst, ◌∙◌, any,
  Bool-cases, inl, inr, holds, holds_sound, str_eq, str_eq_sound, str_eq_complete, ◌⊎◌,
  Option-cases,
}
use nfvis.Orchestrator.Actions.{Action, Step}
use nfvis.Orchestrator.Steps.{named, has_name, step_if_changed, applies, deletes}
use nfvis.Orchestrator.Planned.Names.{
  IsUnique, named-absent, absent-named, named-has, named-head, named-tail, or-false, or-true,
  true≢false,
}
use nfvis.Orchestrator.Planned.Views.{changed, run_view, run_view-append}

module _ {T : Type 0} (name : T → String) where
  module _ (view : Action → Option (String × Option T)) where
    module _ (eq : Discrete T) (mk : T → Option T → Step)
        (seen : (x : T) (o : Option T) → view (mk x o).run ≡ some (name x, some x)) where
      -- The step for one object leaves the others as they are.
      step-other :
          (n : String) (o : Option T) (x : T) (st : String → Option T)
          → str_eq (name x) n ≡ false
          → run_view view (step_if_changed name eq mk o x) st n ≡ st n
      unfolding run_view
      step-other n none x st h = rw (seen x none) (rw h refl)
      step-other n (some o) x st h = elim (Bool-cases (holds (eq o x))) [
        | inl e ↦ rw e refl
        | inr e ↦ rw e (rw (seen x (some o)) (rw h refl))
      ]

      -- Behind the step for an object, the object is there.
      step-own :
          (o : Option T) (x : T) (st : String → Option T)
          → st (name x) ≡ o
          → run_view view (step_if_changed name eq mk o x) st (name x) ≡ some x
      unfolding run_view
      step-own none x st h = rw (seen x none) (rw (str_eq_complete (name x) (name x) refl) refl)
      step-own (some o) x st h = elim (Bool-cases (holds (eq o x))) [
        | inl e ↦ rw e (h ∙ ap some (holds_sound (eq o x) e))
        | inr e ↦ rw e (rw (seen x (some o)) (rw (str_eq_complete (name x) (name x) refl) refl))
      ]

      pub applies-other :
          (olds news : List T) (n : String) (st : String → Option T)
          → has_name name n news ≡ false
          → run_view view (applies name eq mk olds news) st n ≡ st n
      unfolding applies any run_view
      applies-other olds [] n st h = refl
      applies-other olds (x ∷ xs) n st h =
          ap (λ g. g n)
            (run_view-append view (step_if_changed name eq mk (named name (name x) olds) x) _ st)
          ∙ applies-other olds xs n _ (or-false _ _ h).1
          ∙ step-other n _ x st (or-false _ _ h).0

      pub applies-named :
          (olds news : List T) (n : String) (st : String → Option T) (x : T)
          → IsUnique name news
          → st n ≡ named name n olds
          → named name n news ≡ some x
          → run_view view (applies name eq mk olds news) st n ≡ some x
      unfolding applies any run_view
      applies-named olds [] n st x u s h = cc h
      applies-named olds (y ∷ ys) n st x (u, us) s h =
          let start =
            run_view-append view (step_if_changed name eq mk (named name (name y) olds) y)
              (applies name eq mk olds ys) st in
          elim (Bool-cases (str_eq (name y) n)) [
            | inl b ↦
                subst
                  (λ m.
                    st m ≡ named name m olds
                    → named name m (y ∷ ys) ≡ some x
                    → run_view view (applies name eq mk olds (y ∷ ys)) st m ≡ some x)
                  (str_eq_sound (name y) n b)
                  (λ s' h'.
                    ap (λ g. g (name y)) start
                    ∙ applies-other olds ys (name y) _ u
                    ∙ step-own (named name (name y) olds) y st s'
                    ∙ sym (named-head name y ys u)
                    ∙ h')
                  s h
            | inr b ↦
                ap (λ g. g n) start
                ∙ applies-named olds ys n _ x us (step-other n _ y st b ∙ s)
                    (sym (named-tail name n y ys b) ∙ h)
          ]

    module _ (mk : T → Step) (seen : (x : T) → view (mk x).run ≡ some (name x, none)) where
      taken-changed :
          (x : T) (taken : String → Bool) (n : String) (st : String → Option T)
          → taken (name x) ≡ false
          → taken n ≡ true
          → changed (view (mk x).run) st n ≡ st n
      taken-changed x taken n st e h = rw (seen x) (elim (Bool-cases (str_eq (name x) n)) [
        | inl b ↦ absurd (true≢false (sym h ∙ sym (ap taken (str_eq_sound (name x) n b)) ∙ e))
        | inr b ↦ rw b refl
      ])

      own-changed :
          (x : T) (n : String) (st : String → Option T)
          → str_eq (name x) n ≡ true
          → changed (view (mk x).run) st n ≡ none
      own-changed x n st b = rw (seen x) (rw b refl)

      other-changed :
          (x : T) (n : String) (st : String → Option T)
          → str_eq (name x) n ≡ false
          → changed (view (mk x).run) st n ≡ st n
      other-changed x n st b = rw (seen x) (rw b refl)

      pub deletes-spared :
          (ds : List T) (taken : String → Bool) (n : String) (st : String → Option T)
          → taken n ≡ true
          → run_view view (deletes name mk ds taken) st n ≡ st n
      unfolding deletes run_view
      deletes-spared [] taken n st h = refl
      deletes-spared (x ∷ xs) taken n st h = elim (Bool-cases (taken (name x))) [
        | inl e ↦ rw e (deletes-spared xs taken n st h)
        | inr e ↦ rw e (deletes-spared xs taken n _ h ∙ taken-changed x taken n st e h)
      ]

      deletes-gone :
          (ds : List T) (taken : String → Bool) (n : String) (st : String → Option T)
          → taken n ≡ false
          → (st n ≡ none) ⊎ (has_name name n ds ≡ true)
          → run_view view (deletes name mk ds taken) st n ≡ none
      unfolding deletes any run_view
      deletes-gone [] taken n st h (inl p) = p
      deletes-gone [] taken n st h (inr q) = cc q
      deletes-gone (x ∷ xs) taken n st h g = elim (Bool-cases (taken (name x))) [
        | inl e ↦ rw e (
            deletes-gone xs taken n st h (elim g [
              | inl p ↦ inl p
              | inr q ↦ elim (or-true _ _ q) [
                | inl b ↦ absurd (true≢false (sym e ∙ ap taken (str_eq_sound (name x) n b) ∙ h))
                | inr r ↦ inr r
              ]
            ]))
        | inr e ↦ rw e (
            deletes-gone xs taken n _ h (elim (Bool-cases (str_eq (name x) n)) [
              | inl b ↦ inl (own-changed x n st b)
              | inr b ↦ elim g [
                | inl p ↦ inl (other-changed x n st b ∙ p)
                | inr q ↦ elim (or-true _ _ q) [
                  | inl c ↦ inl (own-changed x n st c)
                  | inr r ↦ inr r
                ]
              ]
            ]))
      ]

    -- Making the new and changed objects and taking away those that are gone leads from the old
    -- objects to the new ones.
    module _ (eq : Discrete T) (mk : T → Option T → Step)
        (put : (x : T) (o : Option T) → view (mk x o).run ≡ some (name x, some x)) (del : T → Step)
        (take : (x : T) → view (del x).run ≡ some (name x, none)) (olds news gone : List T)
        (all : (n : String) → has_name name n gone ≡ has_name name n olds)
        (unique : IsUnique name news) where
      abbrev pub after : (String → Option T) → String → Option T
      after st =
          run_view view (deletes name del gone (λ n. has_name name n news))
            (run_view view (applies name eq mk olds news) st)

      gone_or :
          (n : String)
          → has_name name n news ≡ false
          → (run_view view (applies name eq mk olds news) (λ m. named name m olds) n ≡ none)
            ⊎ (has_name name n gone ≡ true)
      gone_or n h = elim (Bool-cases (has_name name n gone)) [
        | inl e ↦ inr e
        | inr e ↦
            inl
              (applies-other eq mk put olds news n _ h ∙ named-absent name n olds (sym (all n) ∙ e))
      ]

      pub after-named : (n : String) → after (λ m. named name m olds) n ≡ named name n news
      after-named n = elim (Option-cases (named name n news)) [
        | inl e ↦
            deletes-gone del take gone _ n _ (absent-named name n news e)
              (gone_or n (absent-named name n news e))
            ∙ sym e
        | inr (x, e) ↦
            deletes-spared del take gone _ n _ (named-has name n x news e)
            ∙ applies-named eq mk put olds news n _ x unique refl e
            ∙ sym e
      ]
