-- ===== src/Aaa/Grants.antt =====
-- What a class may do.
use nfvis.Prelude.{
  ◌≤◌, String, Bool, true, false, Option, none, some, List, [], ◌∷◌, ◌||◌, ◌≡◌, ◌≢◌, ◌↔◌, refl, sym,
  ap, ◌∙◌, subst, str_eq, any, Bool-cases, inl, inr, arith,
}
use nfvis.Model.{Config, ClassDef}
use nfvis.Aaa.Classes.{
  Class, level, match_prefix, join, find_class, classes_in, by_lists, authorize,
}
use nfvis.Aaa.Prefixes.{IsCovered, match_prefix_iff}

-- Some prefix of the list covers the path; an empty one covers nothing.
pub data IsUnder (path : String) : List String → Type 0 where
  here : (p : String) (ps : List String) → p ≢ "" → IsCovered p path → IsUnder path (p ∷ ps)
  there : (p : String) (ps : List String) → IsUnder path ps → IsUnder path (p ∷ ps)

or_true : (b : Bool) → (b || true) ≡ true
or_true b = ground arith

any-IsUnder :
    (path : String) (ps : List String) → any (match_prefix path) ps ≡ true → IsUnder path ps
unfolding any
any-IsUnder path [] h = cc h
any-IsUnder path (p ∷ ps) h = elim (Bool-cases (match_prefix path p)) [
  | inl e ↦ let (n, c) = (match_prefix_iff path p).0 e in here p ps n c
  | inr e ↦ there p ps (any-IsUnder path ps (ap (λ b. b || any (match_prefix path) ps) (sym e) ∙ h))
]

IsUnder-any :
    (path : String) (ps : List String) → IsUnder path ps → any (match_prefix path) ps ≡ true
unfolding any
IsUnder-any path [] x = elim x [ ]
IsUnder-any path (p ∷ ps) (here q qs n c) = rw ((match_prefix_iff path p).1 (n, c)) refl
IsUnder-any path (p ∷ ps) (there q qs h) =
    rw (IsUnder-any path ps h) (or_true (match_prefix path p))

false≢true : false ≡ true → ⊥
false≢true p = cc p

denied :
    (path : String) (d : ClassDef)
    → any (match_prefix path) d.deny ≡ true
    → by_lists path (some d) ≡ false
denied path d e = rw e refl

undenied :
    (path : String) (d : ClassDef)
    → any (match_prefix path) d.deny ≡ false
    → by_lists path (some d) ≡ any (match_prefix path) d.allow
undenied path d e = rw e refl

under-by_lists :
    (path : String) (d : ClassDef)
    → IsUnder path d.allow
    → (IsUnder path d.deny → ⊥)
    → by_lists path (some d) ≡ true
under-by_lists path d u n = elim (Bool-cases (any (match_prefix path) d.deny)) [
  | inl e ↦ absurd (n (any-IsUnder path d.deny e))
  | inr e ↦ undenied path d e ∙ IsUnder-any path d.allow u
]

by_lists_iff :
    (path : String) (o : Option ClassDef)
    → (by_lists path o ≡ true)
      ↔ ((d : ClassDef) × (o ≡ some d) × IsUnder path d.allow × (IsUnder path d.deny → ⊥))
by_lists_iff path none = (λ h. cc h, λ (d, e, u, n). cc e)
by_lists_iff path (some d) = (
  λ h. elim (Bool-cases (any (match_prefix path) d.deny)) [
    | inl e ↦ absurd (false≢true (sym (denied path d e) ∙ h))
    | inr e ↦ (
      d,
      refl,
      any-IsUnder path d.allow (sym (undenied path d e) ∙ h),
      λ u. false≢true (sym e ∙ IsUnder-any path d.deny u),
    )
  ],
  λ (c, e, u, n). subst (λ o. by_lists path o ≡ true) (sym e) (under-by_lists path c u n),
)

-- A class of the configuration may do exactly what a prefix of its allowed paths covers and no prefix
-- of its denied paths does, whatever level the operation asks for.
pub authorize_iff :
    (src : Option Config) (class : String) (required : Class) (path : List String)
    → str_eq class "super-user" ≡ false
    → str_eq class "operator" ≡ false
    → str_eq class "read-only" ≡ false
    → (authorize src class required path ≡ true) ↔ (
        (d : ClassDef) × (find_class class (classes_in src) ≡ some d)
        × IsUnder (join path) d.allow
        × (IsUnder (join path) d.deny → ⊥))
unfolding authorize
authorize_iff src class required path s o r =
    rw s (rw o (rw r (by_lists_iff (join path) (find_class class (classes_in src)))))

-- Whoever may do what a level asks for may do what every lower level asks for under the same path.
pub authorize_mono :
    (src : Option Config) (class : String) (low high : Class) (path : List String)
    → level low ≤ level high
    → authorize src class high path ≡ true
    → authorize src class low path ≡ true
unfolding authorize
authorize_mono src class low high path l h = ground arith
