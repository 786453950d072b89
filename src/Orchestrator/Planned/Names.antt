-- ===== src/Orchestrator/Planned/Names.antt =====
-- Objects under their names: the lookup in a list, which takes the last, and the list of a map's values.
use nfvis.Prelude.{
  String, Bool, true, false, ◌||◌, none, some, List, [], ◌∷◌, ◌≡◌, refl, sym, ap, subst, ◌∙◌, any,
  Bool-cases, inl, inr, str_eq, str_eq_sound, str_eq_complete, arith, ◌⊎◌, Option-cases,
}
use nfvis.Orchestrator.Steps.{named, has_name, by_name}

pub true≢false : true ≡ false → ⊥
true≢false p = cc p

pub or-false : (a b : Bool) → (a || b) ≡ false → (a ≡ false) × (b ≡ false)
or-false a b h = ground arith

pub or-true : (a b : Bool) → (a || b) ≡ true → (a ≡ true) ⊎ (b ≡ true)
or-true true b h = inl refl
or-true false b h = inr h

none≢some : {T : Type 0} (x : T) → none ≡ some x → ⊥
none≢some x p = cc p

module _ {T : Type 0} (name : T → String) where
  -- No two objects have one name.
  abbrev pub IsUnique : List T → Type 0
  IsUnique [] = Unit
  IsUnique (x ∷ xs) = (has_name name (name x) xs ≡ false) × IsUnique xs

  pub named-absent :
      (n : String) (xs : List T) → has_name name n xs ≡ false → named name n xs ≡ none
  unfolding any
  named-absent n [] h = refl
  named-absent n (x ∷ xs) h = ground (arith, named-absent n xs)

  pub absent-named :
      (n : String) (xs : List T) → named name n xs ≡ none → has_name name n xs ≡ false
  unfolding any
  absent-named n [] h = refl
  absent-named n (x ∷ xs) h = ground (arith, absent-named n xs)

  pub named-has :
      (n : String) (x : T) (xs : List T) → named name n xs ≡ some x → has_name name n xs ≡ true
  named-has n x xs h = elim (Bool-cases (has_name name n xs)) [
    | inl e ↦ e
    | inr e ↦ absurd (none≢some x (sym (named-absent n xs e) ∙ h))
  ]

  pub named-head :
      (x : T) (xs : List T)
      → has_name name (name x) xs ≡ false
      → named name (name x) (x ∷ xs) ≡ some x
  named-head x xs h =
      rw (named-absent (name x) xs h) (rw (str_eq_complete (name x) (name x) refl) refl)

  pub named-tail :
      (n : String) (x : T) (xs : List T)
      → str_eq (name x) n ≡ false
      → named name n (x ∷ xs) ≡ named name n xs
  named-tail n x xs h = elim (Option-cases (named name n xs)) [
    | inl e ↦ rw e (rw h refl)
    | inr (y, e) ↦ rw e refl
  ]

  pub by_name-has :
      (n : String) (xs : List T) → has_name name n (by_name name xs) ≡ has_name name n xs
  unfolding by_name any
  by_name-has n [] = refl
  by_name-has n (x ∷ xs) = elim (Bool-cases (has_name name (name x) xs)) [
    | inl e ↦ rw e (elim (Bool-cases (str_eq (name x) n)) [
      | inl b ↦
          rw b (
            by_name-has n xs ∙ subst (λ m. has_name name m xs ≡ true) (str_eq_sound (name x) n b) e)
      | inr b ↦ rw b (by_name-has n xs)
    ])
    | inr e ↦ rw e (ap (λ b. str_eq (name x) n || b) (by_name-has n xs))
  ]
