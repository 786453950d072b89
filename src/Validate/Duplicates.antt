-- ===== src/Validate/Duplicates.antt =====
-- `dupCheck` finds every name that stands twice, and the lemmas on lists of errors.
use nfvis.Prelude.{
  String, Bool, true, false, not, ◌&&◌, ◌||◌, List, [], ◌∷◌, ◌++◌, any, flat_map, All, ◌≡◌, ◌⊎◌,
  inl, inr, refl, sym, ap, ◌∙◌, str_eq, str_eq_sound, str_eq_complete, Bool-cases, arith,
}
use nfvis.Model.{ValidateError}
use nfvis.Orchestrator.Steps.{has_name}
use nfvis.Orchestrator.Planned.Names.{IsUnique}
use nfvis.Validate.Tables.{Texts, all_of, error_if, mem_str, dup_from, under_name}

pub append-nil : {A : Type 0} (xs ys : List A) → xs ++ ys ≡ [] → (xs ≡ []) × (ys ≡ [])
append-nil [] ys h = (refl, h)
append-nil (x ∷ xs) ys h = cc h

pub all_of-nil : (bs : List (List ValidateError)) → all_of bs ≡ [] → All (λ b. b ≡ []) bs
all_of-nil [] h = tt
all_of-nil (b ∷ bs) h = let (e, es) = append-nil b (all_of bs) h in (e, all_of-nil bs es)

pub flat_map-nil :
    {A B : Type 0} (f : A → List B) (xs : List A) → flat_map f xs ≡ [] → All (λ x. f x ≡ []) xs
flat_map-nil f [] h = tt
flat_map-nil f (x ∷ xs) h =
    let (e, es) = append-nil (f x) (flat_map f xs) h in (e, flat_map-nil f xs es)

pub All-map :
    {A : Type 0} (P Q : A → Type 0) (xs : List A) → ((x : A) → P x → Q x) → All P xs → All Q xs
All-map P Q [] f h = tt
All-map P Q (x ∷ xs) f (p, ps) = (f x p, All-map P Q xs f ps)

pub error_if-nil : (b : Bool) (path format : String) → error_if b path format ≡ [] → b ≡ false
error_if-nil true path format h = cc h
error_if-nil false path format h = refl

pub under_name-nil :
    (texts : Texts) (path name what : String) (rest : List ValidateError)
    → under_name texts path name what rest ≡ []
    → rest ≡ []
under_name-nil texts path name what rest h = ground arith

-- A name is given and stands for something.
abbrev pub RefersTo : (String → Bool) → String → Type 0
RefersTo found n = (str_eq n "" ≡ true) ⊎ (found n ≡ true)

pub refers : (a b : Bool) → (not a && not b) ≡ false → (a ≡ true) ⊎ (b ≡ true)
refers true b h = inl refl
refers false true h = inr refl
refers false false h = cc h

false≢true : false ≡ true → ⊥
false≢true p = cc p

or_true : (b : Bool) → (b || true) ≡ true
or_true b = ground arith

module _ {T : Type 0} (name : T → String) (base what : String) where
  dup_from-unseen :
      (n : String) (seen : List String) (xs : List T)
      → dup_from name base what seen xs ≡ []
      → mem_str n seen ≡ true
      → has_name name n xs ≡ false
  unfolding dup_from any
  dup_from-unseen n seen [] h m = refl
  dup_from-unseen n seen (x ∷ xs) h m =
      let (e, es) = append-nil _ _ h in
      let d = error_if-nil (mem_str (name x) seen) _ _ e in
      elim (Bool-cases (str_eq (name x) n)) [
        | inl b ↦
            absurd (false≢true (sym d ∙ ap (λ k. mem_str k seen) (str_eq_sound (name x) n b) ∙ m))
        | inr b ↦
            rw b (dup_from-unseen n (name x ∷ seen) xs es (rw m (or_true (str_eq (name x) n))))
      ]

  pub dup_from-IsUnique :
      (seen : List String) (xs : List T) → dup_from name base what seen xs ≡ [] → IsUnique name xs
  unfolding dup_from any
  dup_from-IsUnique seen [] h = tt
  dup_from-IsUnique seen (x ∷ xs) h =
      let (e, es) = append-nil _ _ h in
      (
        dup_from-unseen (name x) (name x ∷ seen) xs es
            (rw (str_eq_complete (name x) (name x) refl) refl),
        dup_from-IsUnique (name x ∷ seen) xs es,
      )
