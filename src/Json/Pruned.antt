-- ===== src/Json/Pruned.antt =====
-- What is left of a document along a path of keys.
use nfvis.Prelude.{
  String, Bool, true, false, not, Option, none, some, List, [], ◌∷◌, ◌≡◌, refl, ap, ◌∙◌, sym, subst,
  ◌==◌, str_eq, if◌then◌else◌, Bool-cases, Option-cases, inl, inr, arith,
}
use nfvis.Json.Value.{
  Json, null, boolean, number, string, array, object, Fields, end, field, field_of,
}
use nfvis.Json.Merge.{is_end, prune_zero, prune_fields}
use nfvis.Json.Merged.{IsDistinct, pruned, prune_fields-field_of}

-- No map has a key twice, at any depth outside lists.
unfoldable mutual
  pub IsProper : Json → Type 0
  IsProper null = Unit
  IsProper (boolean b) = Unit
  IsProper (number n) = Unit
  IsProper (string s) = Unit
  IsProper (array xs) = Unit
  IsProper (object fs) = AreProper fs

  pub AreProper : Fields → Type 0
  AreProper end = Unit
  AreProper (field k v fs) = (field_of k fs ≡ none) × IsProper v × AreProper fs

-- A scalar other than a zero.
abbrev pub is_set : Json → Bool
is_set null = false
is_set (boolean b) = b
is_set (number n) = not (n == 0)
is_set (string s) = not (str_eq s "")
is_set (array xs) = false
is_set (object fs) = false

-- `null`, `false`, 0 or "".
abbrev pub is_zero : Json → Bool
is_zero null = true
is_zero (boolean b) = not b
is_zero (number n) = n == 0
is_zero (string s) = str_eq s ""
is_zero (array xs) = false
is_zero (object fs) = false

abbrev pub inside : (Json → Option Json) → Option Json → Option Json
inside f none = none
inside f (some v) = f v

-- What stands under a path of keys.
abbrev pub value_at : List String → Json → Option Json
value_at [] v = some v
value_at (k ∷ ks) (object fs) = inside (value_at ks) (field_of k fs)
value_at (k ∷ ks) v = none

abbrev pub silent_inside : (Json → Bool) → Option Json → Bool
silent_inside f none = true
silent_inside f (some v) = f v

-- The document says nothing of what stands under the path: a key of the path is missing or holds a
-- zero.
abbrev pub is_silent : List String → Json → Bool
is_silent [] v = is_zero v
is_silent (k ∷ ks) (object fs) = silent_inside (is_silent ks) (field_of k fs)
is_silent (k ∷ ks) v = is_zero v

pub AreProper-IsDistinct : (fs : Fields) → AreProper fs → IsDistinct fs
unfolding AreProper
AreProper-IsDistinct end h = tt
AreProper-IsDistinct (field k v fs) (once, _, h) = (once, AreProper-IsDistinct fs h)

pub field_of-IsProper :
    (k : String) (fs : Fields) (v : Json) → AreProper fs → field_of k fs ≡ some v → IsProper v
unfolding field_of AreProper
field_of-IsProper k end v h p = cc p
field_of-IsProper k (field j w fs) v (once, q, h) p = elim (Bool-cases (str_eq j k)) [
  | inl e ↦
      subst IsProper (found w v (subst (λ b. (if b then some w else field_of k fs) ≡ some v) e p)) q
  | inr e ↦
      field_of-IsProper k fs v h (subst (λ b. (if b then some w else field_of k fs) ≡ some v) e p)
]
  where
    found : (x y : Json) → some x ≡ some y → x ≡ y
    found x y p = cc p

pub prune_zero-set : (v : Json) → is_set v ≡ true → prune_zero v ≡ (v, true)
unfolding prune_zero
prune_zero-set null h = cc h
prune_zero-set (boolean b) h = ap (λ c. (boolean b, c)) h
prune_zero-set (number n) h = ap (λ c. (number n, c)) h
prune_zero-set (string s) h = ap (λ c. (string s, c)) h
prune_zero-set (array xs) h = cc h
prune_zero-set (object fs) h = cc h

pub prune_zero-zero : (v : Json) → is_zero v ≡ true → (prune_zero v).1 ≡ false
unfolding prune_zero
prune_zero-zero null h = refl
prune_zero-zero (boolean b) h = ground arith
prune_zero-zero (number n) h = ap not h
prune_zero-zero (string s) h = ap not h
prune_zero-zero (array xs) h = cc h
prune_zero-zero (object fs) h = cc h

pub pruned-true : (v : Json) → (prune_zero v).1 ≡ true → pruned (some v) ≡ some (prune_zero v).0
pruned-true v h = rw h refl

pub pruned-false : (v : Json) → (prune_zero v).1 ≡ false → pruned (some v) ≡ none
pruned-false v h = rw h refl

pub false≢true : false ≡ true → ⊥
false≢true p = cc p

pub none≠some : (s : Json) → none ≡ some s → ⊥
none≠some s p = cc p

pub some_eq : (x y : Json) → some x ≡ some y → x ≡ y
some_eq x y p = cc p

pub found-nonempty :
    (k : String) (fs : Fields) (v : Json) → field_of k fs ≡ some v → is_end fs ≡ false
unfolding field_of
found-nonempty k end v p = cc p
found-nonempty k (field j w fs) v p = refl

pub prune_zero-nonempty :
    (q : Fields) → is_end (prune_fields q) ≡ false → (prune_zero (object q)).1 ≡ true
unfolding prune_zero
prune_zero-nonempty q e = rw e refl

-- What is left of a document has what the document sets.
pub prune_zero-value_at :
    (ks : List String) (v s : Json)
    → IsProper v
    → value_at ks v ≡ some s
    → is_set s ≡ true
    → ((prune_zero v).1 ≡ true) × (value_at ks (prune_zero v).0 ≡ some s)
unfolding prune_zero IsProper
prune_zero-value_at [] v s h p e =
    let r = prune_zero-set v (subst (λ x. is_set x ≡ true) (sym (some_eq v s p)) e) in
    (ap (λ x. x.1) r, ap (λ x. some x.0) r ∙ p)
prune_zero-value_at (k ∷ ks) (object q) s h p e = elim (Option-cases (field_of k q)) [
  | inl n ↦ absurd (none≠some s (sym (ap (inside (value_at ks)) n) ∙ p))
  | inr (v, n) ↦
      let (t, u) =
        prune_zero-value_at ks v s (field_of-IsProper k q v h n)
          (sym (ap (inside (value_at ks)) n) ∙ p) e in
      let f : field_of k (prune_fields q) ≡ some (prune_zero v).0 =
        prune_fields-field_of k q (AreProper-IsDistinct q h) ∙ ap pruned n ∙ pruned-true v t in
      (
        prune_zero-nonempty q (found-nonempty k (prune_fields q) (prune_zero v).0 f),
        ap (inside (value_at ks)) f ∙ u,
      )
]
prune_zero-value_at (k ∷ ks) null s h p e = cc p
prune_zero-value_at (k ∷ ks) (boolean b) s h p e = cc p
prune_zero-value_at (k ∷ ks) (number n) s h p e = cc p
prune_zero-value_at (k ∷ ks) (string t) s h p e = cc p
prune_zero-value_at (k ∷ ks) (array xs) s h p e = cc p

-- What is left of a document has nothing where the document is silent.
pub prune_zero-silent :
    (ks : List String) (v : Json)
    → IsProper v
    → is_silent ks v ≡ true
    → (prune_zero v).1 ≡ true
    → value_at ks (prune_zero v).0 ≡ none
unfolding prune_zero IsProper
prune_zero-silent [] v h z t = absurd (false≢true (sym (prune_zero-zero v z) ∙ t))
prune_zero-silent (k ∷ ks) (object q) h z t =
    ap (inside (value_at ks)) (prune_fields-field_of k q (AreProper-IsDistinct q h))
    ∙ elim (Option-cases (field_of k q)) [
      | inl n ↦ rw n refl
      | inr (v, n) ↦ rw n (elim (Bool-cases (prune_zero v).1) [
        | inl l ↦ rw l (
            prune_zero-silent ks v (field_of-IsProper k q v h n)
              (sym (ap (silent_inside (is_silent ks)) n) ∙ z) l)
        | inr l ↦ rw l refl
      ])
    ]
prune_zero-silent (k ∷ ks) null h z t = refl
prune_zero-silent (k ∷ ks) (boolean b) h z t = refl
prune_zero-silent (k ∷ ks) (number n) h z t = refl
prune_zero-silent (k ∷ ks) (string s) h z t = refl
prune_zero-silent (k ∷ ks) (array xs) h z t = absurd (false≢true z)
