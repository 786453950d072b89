-- ===== src/Json/Clean.antt =====
-- A redacted document.
use nfvis.Prelude.{
  String, false, Option, none, some, ◌≡◌, refl, ap, ◌∙◌, str_eq, str_eq_sound, if◌then◌else◌,
  Bool-cases, inl, inr,
}
use nfvis.Json.Value.{
  Json, null, boolean, number, string, array, object, Elems, nil, cons, Fields, end, field,
  field_of,
}
use nfvis.Json.Redact.{is_sensitive_key, redact_tree, redact_elems, redact_fields}

abbrev map_field : (Json → Json) → Option Json → Option Json
map_field f none = none
map_field f (some v) = some (f v)

module _ (normal : String → String) where
  -- No key is sensitive, at any depth.
  unfoldable mutual
    pub IsClean : Json → Type 0
    IsClean null = Unit
    IsClean (boolean b) = Unit
    IsClean (number n) = Unit
    IsClean (string s) = Unit
    IsClean (array xs) = AreClean xs
    IsClean (object fs) = HasClean fs

    pub AreClean : Elems → Type 0
    AreClean nil = Unit
    AreClean (cons x xs) = IsClean x × AreClean xs

    pub HasClean : Fields → Type 0
    HasClean end = Unit
    HasClean (field k v fs) = (is_sensitive_key normal k ≡ false) × IsClean v × HasClean fs

  mutual
    unfolding IsClean redact_tree

    redact_tree-IsClean : (v : Json) → IsClean (redact_tree normal v)
    redact_tree-IsClean null = tt
    redact_tree-IsClean (boolean b) = tt
    redact_tree-IsClean (number n) = tt
    redact_tree-IsClean (string s) = tt
    redact_tree-IsClean (array xs) = redact_elems-AreClean xs
    redact_tree-IsClean (object fs) = redact_fields-HasClean fs

    redact_elems-AreClean : (xs : Elems) → AreClean (redact_elems normal xs)
    redact_elems-AreClean nil = tt
    redact_elems-AreClean (cons x xs) = (redact_tree-IsClean x, redact_elems-AreClean xs)

    redact_fields-HasClean : (fs : Fields) → HasClean (redact_fields normal fs)
    redact_fields-HasClean end = tt
    redact_fields-HasClean (field k v fs) = elim (Bool-cases (is_sensitive_key normal k)) [
      | inl e ↦ rw e (redact_fields-HasClean fs)
      | inr e ↦ rw e (e, redact_tree-IsClean v, redact_fields-HasClean fs)
    ]

  abbrev kept_field : String → Option Json → Option Json
  kept_field k o = if is_sensitive_key normal k then none else map_field (redact_tree normal) o

  redact_fields-field_of :
      (k : String) (fs : Fields)
      → field_of k (redact_fields normal fs) ≡ kept_field k (field_of k fs)
  unfolding field_of redact_tree
  redact_fields-field_of k end = elim (Bool-cases (is_sensitive_key normal k)) [
    | inl e ↦ rw e refl
    | inr e ↦ rw e refl
  ]
  redact_fields-field_of k (field j v fs) = elim (Bool-cases (str_eq j k)) [
    | inl s ↦ elim (Bool-cases (is_sensitive_key normal k)) [
      | inl e ↦ rw s (
          rw (ap (is_sensitive_key normal) (str_eq_sound j k s) ∙ e)
            (redact_fields-field_of k fs ∙ rw e refl))
      | inr e ↦ rw s (rw (ap (is_sensitive_key normal) (str_eq_sound j k s) ∙ e) (rw s (rw e refl)))
    ]
    | inr s ↦ elim (Bool-cases (is_sensitive_key normal j)) [
      | inl e ↦ rw s (rw e (redact_fields-field_of k fs))
      | inr e ↦ rw s (rw e (rw s (redact_fields-field_of k fs)))
    ]
  ]

  -- A redacted document has no sensitive key at any depth, and a redacted object has every other key
  -- of the object, with the redacted value.
  pub redact_tree_lem :
      (v : Json) (fs : Fields) (k : String)
      → IsClean (redact_tree normal v)
        × (is_sensitive_key normal k ≡ false
            → field_of k (redact_fields normal fs) ≡ map_field (redact_tree normal) (field_of k fs))
  redact_tree_lem v fs k = (redact_tree-IsClean v, λ e. redact_fields-field_of k fs ∙ rw e refl)
