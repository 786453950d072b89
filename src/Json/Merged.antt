-- ===== src/Json/Merged.antt =====
-- A merged document.
use nfvis.Prelude.{
  ℕ, String, Option, none, some, ◌≡◌, refl, ap, ◌∙◌, subst, str_eq, str_eq_sound, if◌then◌else◌,
  Bool-cases, inl, inr,
}
use nfvis.Json.Value.{Json, Fields, end, field, field_of, put_field, field_of-put}
use nfvis.Json.Merge.{prune_zero, prune_fields, merged_or, merge_value, merge_maps}

-- No key stands twice.
abbrev pub IsDistinct : Fields → Type 0
IsDistinct end = Unit
IsDistinct (field k v fs) = (field_of k fs ≡ none) × IsDistinct fs

-- What is left of the value under a key.
abbrev pub pruned : Option Json → Option Json
pruned none = none
pruned (some v) = if (prune_zero v).1 then some (prune_zero v).0 else none

module _ (show : ℕ → String) where
  abbrev pub merged_field : Option Json → Option Json → Option Json
  merged_field old none = old
  merged_field none (some p) = some p
  merged_field (some d) (some p) = some (merge_value show d p)

  merge_maps-field :
      (d : Fields) (j : String) (v : Json) (ps : Fields)
      → merge_maps show d (field j v ps)
        ≡ merge_maps show
            (put_field j (merged_or show (λ w. merge_value show w v) (field_of j d) v) d)
            ps
  unfolding merge_value
  merge_maps-field d j v ps = refl

  merge_maps-end : (d : Fields) → merge_maps show d end ≡ d
  unfolding merge_value
  merge_maps-end d = refl

  merged_or-field :
      (o : Option Json) (v : Json)
      → some (merged_or show (λ w. merge_value show w v) o v) ≡ merged_field o (some v)
  merged_or-field none v = refl
  merged_or-field (some d) v = refl

  merge_maps-field_of :
      (k : String) (d p : Fields)
      → IsDistinct p
      → field_of k (merge_maps show d p) ≡ merged_field (field_of k d) (field_of k p)
  unfolding field_of
  merge_maps-field_of k d end h = ap (field_of k) (merge_maps-end d)
  merge_maps-field_of k d (field j v ps) (once, h) =
      let m : Json = merged_or show (λ w. merge_value show w v) (field_of j d) v in
      ap (field_of k) (merge_maps-field d j v ps)
      ∙ merge_maps-field_of k (put_field j m d) ps h
      ∙ ap (λ o. merged_field o (field_of k ps)) (field_of-put j k m d)
      ∙ elim (Bool-cases (str_eq j k)) [
        | inl e ↦ rw e (
            rw (subst (λ i. field_of i ps ≡ none) (str_eq_sound j k e) once) (
              merged_or-field (field_of j d) v
              ∙ ap (λ i. merged_field (field_of i d) (some v)) (str_eq_sound j k e)))
        | inr e ↦ rw e refl
      ]

pub prune_fields-field_of :
    (k : String) (p : Fields) → IsDistinct p → field_of k (prune_fields p) ≡ pruned (field_of k p)
unfolding field_of prune_zero
prune_fields-field_of k end h = refl
prune_fields-field_of k (field j v ps) (once, h) = elim (Bool-cases (prune_zero v).1) [
  | inl e ↦ rw e (elim (Bool-cases (str_eq j k)) [
    | inl s ↦ rw s (rw e refl)
    | inr s ↦ rw s (prune_fields-field_of k ps h)
  ])
  | inr e ↦ rw e (elim (Bool-cases (str_eq j k)) [
    | inl s ↦ rw s (
        prune_fields-field_of k ps h
        ∙ ap pruned (subst (λ i. field_of i ps ≡ none) (str_eq_sound j k s) once)
        ∙ rw e refl)
    | inr s ↦ rw s (prune_fields-field_of k ps h)
  ])
]

prune_fields-IsDistinct : (p : Fields) → IsDistinct p → IsDistinct (prune_fields p)
unfolding field_of prune_zero
prune_fields-IsDistinct end h = tt
prune_fields-IsDistinct (field j v ps) (once, h) = elim (Bool-cases (prune_zero v).1) [
  | inl e ↦ rw e (prune_fields-field_of j ps h ∙ ap pruned once, prune_fields-IsDistinct ps h)
  | inr e ↦ rw e (prune_fields-IsDistinct ps h)
]

-- Behind a merge with what is left of a patch, a key holds what it held if nothing is left of the
-- value that the patch has for it, what is left if the document does not have the key, and the two
-- merged otherwise: a zero in a patch changes nothing.
pub merge_maps-prune_fields :
    (show : ℕ → String) (k : String) (d p : Fields)
    → IsDistinct p
    → field_of k (merge_maps show d (prune_fields p))
      ≡ merged_field show (field_of k d) (pruned (field_of k p))
merge_maps-prune_fields show k d p h =
    merge_maps-field_of show k d (prune_fields p) (prune_fields-IsDistinct p h)
    ∙ ap (merged_field show (field_of k d)) (prune_fields-field_of k p h)
