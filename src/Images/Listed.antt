-- ===== src/Images/Listed.antt =====
-- The names that the store lists, and the images that it has.
use nfvis.Prelude.{
  String, Bool, true, false, not, ◌&&◌, ◌||◌, Option, none, some, List, [], ◌∷◌, any, ◌≡◌, refl,
  sym, ap, ◌∙◌, str_eq, str_eq_sound, str_leb, if◌then◌else◌, Bool-cases, inl, inr, get, arith,
  subst,
}
use nfvis.Images.Store.{
  Meta, Store, is_failed, insert_meta, sound_names, sort_metas, list, names, lookup, available,
}

-- Each image stands under its own name, once.
abbrev pub IsKeyed : List (String × Meta) → Type 0
IsKeyed [] = Unit
IsKeyed ((k, m) ∷ rest) = (m.name ≡ k) × (get k rest ≡ none) × IsKeyed rest

abbrev pub is_some {ℓ} : {A : Type ℓ} → Option A → Bool
is_some none = false
is_some (some x) = true

abbrev is_usable : String → Meta → Bool
is_usable n m = not (is_failed m.import_state) && str_eq m.name n

swap : (a b c : Bool) → (a || (b || c)) ≡ (b || (a || c))
swap a b c = ground arith

insert-first :
    (m n : Meta) (ns : List Meta)
    → str_leb m.name n.name ≡ true
    → insert_meta m (n ∷ ns) ≡ m ∷ n ∷ ns
insert-first m n ns e = rw e refl

insert-later :
    (m n : Meta) (ns : List Meta)
    → str_leb m.name n.name ≡ false
    → insert_meta m (n ∷ ns) ≡ n ∷ insert_meta m ns
insert-later m n ns e = rw e refl

any-insert :
    (p : Meta → Bool) (m : Meta) (ns : List Meta) → any p (insert_meta m ns) ≡ (p m || any p ns)
unfolding any
any-insert p m [] = refl
any-insert p m (n ∷ ns) = elim (Bool-cases (str_leb m.name n.name)) [
  | inl e ↦ ap (any p) (insert-first m n ns e)
  | inr e ↦
      ap (any p) (insert-later m n ns e)
      ∙ ap (λ b. p n || b) (any-insert p m ns)
      ∙ swap (p n) (p m) (any p ns)
]

sound_names-failed :
    (m : Meta) (ns : List Meta)
    → is_failed m.import_state ≡ true
    → sound_names (m ∷ ns) ≡ sound_names ns
sound_names-failed m ns e = rw e refl

sound_names_kept :
    (m : Meta) (ns : List Meta)
    → is_failed m.import_state ≡ false
    → sound_names (m ∷ ns) ≡ m.name ∷ sound_names ns
sound_names_kept m ns e = rw e refl

any-named :
    (n : String) (ns : List Meta) → any (λ s. str_eq s n) (sound_names ns) ≡ any (is_usable n) ns
unfolding any
any-named n [] = refl
any-named n (m ∷ ns) = elim (Bool-cases (is_failed m.import_state)) [
  | inl e ↦
      ap (λ l. any (λ s. str_eq s n) l) (sound_names-failed m ns e)
      ∙ any-named n ns
      ∙ sym (ap (λ b. (not b && str_eq m.name n) || any (is_usable n) ns) e)
  | inr e ↦
      ap (λ l. any (λ s. str_eq s n) l) (sound_names_kept m ns e)
      ∙ ap (λ b. str_eq m.name n || b) (any-named n ns)
      ∙ sym (ap (λ b. (not b && str_eq m.name n) || any (is_usable n) ns) e)
]

usable_own :
    (n : String) (m : Meta) (o : Option Meta)
    → (str_eq m.name n ≡ true → o ≡ none)
    → (is_usable n m || is_some (available o))
      ≡ is_some (available (if str_eq m.name n then some m else o))
usable_own n m o h = elim (Bool-cases (str_eq m.name n)) [
  | inl e ↦ rw e (
      rw (h e)
        (elim (Bool-cases (is_failed m.import_state)) [ inl f ↦ rw f refl | inr f ↦ rw f refl ]))
  | inr e ↦
      rw e (elim (Bool-cases (is_failed m.import_state)) [ inl f ↦ rw f refl | inr f ↦ rw f refl ])
]

usable_or :
    (n k : String) (m : Meta) (o : Option Meta)
    → m.name ≡ k
    → (str_eq k n ≡ true → o ≡ none)
    → (is_usable n m || is_some (available o))
      ≡ is_some (available (if str_eq k n then some m else o))
usable_or n k m o own once =
    subst
      (λ j.
        (str_eq j n ≡ true → o ≡ none)
        → (is_usable n m || is_some (available o))
          ≡ is_some (available (if str_eq j n then some m else o)))
      own (λ h. usable_own n m o h) once

any-sorted :
    (n : String) (i : List (String × Meta))
    → IsKeyed i
    → any (is_usable n) (sort_metas i) ≡ is_some (available (get n i))
unfolding any get
any-sorted n [] h = refl
any-sorted n ((k, m) ∷ rest) (own, once, h) =
    any-insert (is_usable n) m (sort_metas rest)
    ∙ ap (λ b. is_usable n m || b) (any-sorted n rest h)
    ∙ usable_or n k m (get n rest) own
        (λ e. subst (λ j. get j rest ≡ none) (str_eq_sound k n e) once)

-- The names that the store lists are exactly those that it looks up.
pub names-lookup :
    (s : Store) (n : String)
    → IsKeyed s.index
    → any (λ m. str_eq m n) (names s) ≡ is_some (lookup s n)
unfolding names list lookup
names-lookup s n h = any-named n (sort_metas s.index) ∙ any-sorted n s.index h
