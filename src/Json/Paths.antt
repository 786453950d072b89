-- ===== src/Json/Paths.antt =====
-- A merged document along a path of keys.
use nfvis.Prelude.{
  ℕ, String, true, Option, none, some, List, [], ◌∷◌, ◌≡◌, refl, ap, ◌∙◌, sym, subst, Bool-cases,
  Option-cases, inl, inr,
}
use nfvis.Json.Value.{Json, null, boolean, number, string, array, object, Fields, field_of}
use nfvis.Json.Merge.{prune_zero, prune_fields, merge_value, merge_maps}
use nfvis.Json.Merged.{pruned, merged_field, merge_maps-prune_fields}
use nfvis.Json.Pruned.{
  is_set, inside, value_at, silent_inside, is_silent, AreProper-IsDistinct, field_of-IsProper,
  prune_zero-set, prune_zero-zero, pruned-true, false≢true, none≠some, some_eq, prune_zero-value_at,
  prune_zero-silent, IsProper, AreProper,
}

module _ (show : ℕ → String) where
  merge_value-scalar : (w s : Json) → is_set s ≡ true → merge_value show w s ≡ s
  unfolding merge_value
  merge_value-scalar (object d) (object p) e = cc e
  merge_value-scalar (object d) (array p) e = refl
  merge_value-scalar (object d) null e = refl
  merge_value-scalar (object d) (boolean b) e = refl
  merge_value-scalar (object d) (number n) e = refl
  merge_value-scalar (object d) (string s) e = refl
  merge_value-scalar (array d) (array p) e = cc e
  merge_value-scalar (array d) (object p) e = refl
  merge_value-scalar (array d) null e = refl
  merge_value-scalar (array d) (boolean b) e = refl
  merge_value-scalar (array d) (number n) e = refl
  merge_value-scalar (array d) (string s) e = refl
  merge_value-scalar null s e = refl
  merge_value-scalar (boolean b) s e = refl
  merge_value-scalar (number n) s e = refl
  merge_value-scalar (string t) s e = refl

  -- An object is merged into an object, and replaces anything else.
  merge_value-object :
      (w : Json) (q : Fields) (P : Json → Json → Type 0)
      → ((d : Fields) → P (object d) (object (merge_maps show d q)))
      → (((k : String) (ks : List String) → value_at (k ∷ ks) w ≡ none) → P w (object q))
      → P w (merge_value show w (object q))
  unfolding merge_value
  merge_value-object (object d) q P f g = f d
  merge_value-object (array d) q P f g = g (λ k ks. refl)
  merge_value-object null q P f g = g (λ k ks. refl)
  merge_value-object (boolean b) q P f g = g (λ k ks. refl)
  merge_value-object (number n) q P f g = g (λ k ks. refl)
  merge_value-object (string s) q P f g = g (λ k ks. refl)

  inside-set :
      (ks : List String) (o : Option Json) (p s : Json)
      → ((w : Json) → value_at ks (merge_value show w p) ≡ some s)
      → value_at ks p ≡ some s
      → inside (value_at ks) (merged_field show o (some p)) ≡ some s
  inside-set ks none p s f e = e
  inside-set ks (some w) p s f e = f w

  inside-silent :
      (ks : List String) (o : Option Json) (p : Json)
      → ((w : Json) → value_at ks (merge_value show w p) ≡ value_at ks w)
      → value_at ks p ≡ none
      → inside (value_at ks) (merged_field show o (some p)) ≡ inside (value_at ks) o
  inside-silent ks none p f e = e
  inside-silent ks (some w) p f e = f w

  merged-at :
      (k : String) (ks : List String) (d q : Fields)
      → AreProper q
      → value_at (k ∷ ks) (object (merge_maps show d (prune_fields q)))
        ≡ inside (value_at ks) (merged_field show (field_of k d) (pruned (field_of k q)))
  merged-at k ks d q h =
      ap (inside (value_at ks)) (merge_maps-prune_fields show k d q (AreProper-IsDistinct q h))

  -- One key of a path; `f` is for the rest of it.
  fields-set :
      (k : String) (ks : List String) (d q : Fields) (s : Json)
      → ((w v : Json)
          → IsProper v
          → value_at ks v ≡ some s
          → value_at ks (merge_value show w (prune_zero v).0) ≡ some s)
      → AreProper q
      → value_at (k ∷ ks) (object q) ≡ some s
      → is_set s ≡ true
      → value_at (k ∷ ks) (object (merge_maps show d (prune_fields q))) ≡ some s
  fields-set k ks d q s f h p e = merged-at k ks d q h ∙ elim (Option-cases (field_of k q)) [
    | inl n ↦ absurd (none≠some s (sym (ap (inside (value_at ks)) n) ∙ p))
    | inr (v, n) ↦
        let proper = field_of-IsProper k q v h n in
        let at_v = sym (ap (inside (value_at ks)) n) ∙ p in
        let (t, u) = prune_zero-value_at ks v s proper at_v e in
        ap (λ o. inside (value_at ks) (merged_field show (field_of k d) o))
          (ap pruned n ∙ pruned-true v t)
        ∙ inside-set ks (field_of k d) (prune_zero v).0 s (λ w. f w v proper at_v) u
  ]

  merge_value-set :
      (ks : List String) (w v s : Json)
      → IsProper v
      → value_at ks v ≡ some s
      → is_set s ≡ true
      → value_at ks (merge_value show w (prune_zero v).0) ≡ some s
  unfolding prune_zero IsProper
  merge_value-set [] w v s h p e =
      let e' : is_set v ≡ true = subst (λ x. is_set x ≡ true) (sym (some_eq v s p)) e in
      ap (λ x. some (merge_value show w x.0)) (prune_zero-set v e')
      ∙ ap some (merge_value-scalar w v e')
      ∙ p
  merge_value-set (k ∷ ks) w (object q) s h p e =
      merge_value-object w (prune_fields q) (λ x y. value_at (k ∷ ks) y ≡ some s)
        (λ d. fields-set k ks d q s (λ w' v h' p'. merge_value-set ks w' v s h' p' e) h p e)
        (λ x. (prune_zero-value_at (k ∷ ks) (object q) s h p e).1)
  merge_value-set (k ∷ ks) w null s h p e = cc p
  merge_value-set (k ∷ ks) w (boolean b) s h p e = cc p
  merge_value-set (k ∷ ks) w (number n) s h p e = cc p
  merge_value-set (k ∷ ks) w (string t) s h p e = cc p
  merge_value-set (k ∷ ks) w (array xs) s h p e = cc p

  fields-silent :
      (k : String) (ks : List String) (d q : Fields)
      → ((w v : Json)
          → IsProper v
          → is_silent ks v ≡ true
          → (prune_zero v).1 ≡ true
          → value_at ks (merge_value show w (prune_zero v).0) ≡ value_at ks w)
      → AreProper q
      → is_silent (k ∷ ks) (object q) ≡ true
      → value_at (k ∷ ks) (object (merge_maps show d (prune_fields q)))
        ≡ value_at (k ∷ ks) (object d)
  fields-silent k ks d q f h z = merged-at k ks d q h ∙ elim (Option-cases (field_of k q)) [
    | inl n ↦ rw n refl
    | inr (v, n) ↦
        let proper = field_of-IsProper k q v h n in
        let z' = sym (ap (silent_inside (is_silent ks)) n) ∙ z in
        rw n (elim (Bool-cases (prune_zero v).1) [
          | inl l ↦ rw l (
              inside-silent ks (field_of k d) (prune_zero v).0 (λ w. f w v proper z' l)
                (prune_zero-silent ks v proper z' l))
          | inr l ↦ rw l refl
        ])
  ]

  merge_value-silent :
      (ks : List String) (w v : Json)
      → IsProper v
      → is_silent ks v ≡ true
      → (prune_zero v).1 ≡ true
      → value_at ks (merge_value show w (prune_zero v).0) ≡ value_at ks w
  unfolding prune_zero IsProper
  merge_value-silent [] w v h z t = absurd (false≢true (sym (prune_zero-zero v z) ∙ t))
  merge_value-silent (k ∷ ks) w (object q) h z t =
      merge_value-object w (prune_fields q) (λ x y. value_at (k ∷ ks) y ≡ value_at (k ∷ ks) x)
        (λ d. fields-silent k ks d q (merge_value-silent ks) h z)
        (λ x. prune_zero-silent (k ∷ ks) (object q) h z t ∙ sym (x k ks))
  merge_value-silent (k ∷ ks) w null h z t = absurd (false≢true t)
  merge_value-silent (k ∷ ks) w (boolean b) h z t =
      absurd (false≢true (sym (prune_zero-zero (boolean b) z) ∙ t))
  merge_value-silent (k ∷ ks) w (number n) h z t =
      absurd (false≢true (sym (prune_zero-zero (number n) z) ∙ t))
  merge_value-silent (k ∷ ks) w (string s) h z t =
      absurd (false≢true (sym (prune_zero-zero (string s) z) ∙ t))
  merge_value-silent (k ∷ ks) w (array xs) h z t = cc z

  -- A scalar other than a zero that a patch has under a path of keys stands under this path behind the
  -- merge. No map of the patch has a key twice.
  pub merge_maps-set :
      (d p : Fields) (k : String) (ks : List String) (s : Json)
      → AreProper p
      → value_at (k ∷ ks) (object p) ≡ some s
      → is_set s ≡ true
      → value_at (k ∷ ks) (object (merge_maps show d (prune_fields p))) ≡ some s
  merge_maps-set d p k ks s h q e =
      fields-set k ks d p s (λ w v h' q'. merge_value-set ks w v s h' q' e) h q e

  -- Under a path of keys on which a patch has no key further, or has a zero, the merge leaves what the
  -- document has there, if anything. No map of the patch has a key twice.
  pub merge_maps-silent :
      (d p : Fields) (k : String) (ks : List String)
      → AreProper p
      → is_silent (k ∷ ks) (object p) ≡ true
      → value_at (k ∷ ks) (object (merge_maps show d (prune_fields p)))
        ≡ value_at (k ∷ ks) (object d)
  merge_maps-silent d p k ks h z = fields-silent k ks d p (merge_value-silent ks) h z
