-- ===== src/Images/Served.antt =====
-- The images that a configuration refers to.
use nfvis.Prelude.{
  ℕ, suc, ◌+◌, String, ◌+++◌, Bool, true, false, Option, none, some, List, [], ◌∷◌, ◌++◌, ltb,
  flat_map, ◌≡◌, refl, ap, ◌∙◌, str_eq, if◌then◌else◌, Bool-cases, inl, inr, get, get-erase, arith,
}
use text.Mathlib.TextEquality.{eq_iff}
use nfvis.Model.{Config}
use nfvis.Engine.Checks.{check_images, check_used}
use nfvis.Images.Store.{
  Meta, Store, ImageError, lookup, available, resolver, drop_image, after_removal, remove_container,
  delete_found, delete, uses, vm_image, ct_image, ref_count, type_container, docker_failed,
  file_failed,
}

-- Whatever a deletion does, the images under other names are as they were.
abbrev IsSpared : String → Store → Store → Type 0
IsSpared name s t = (j : String) → str_eq name j ≡ false → lookup t j ≡ lookup s j

drop_image-IsSpared :
    (c : Bool) (name : String) (s : Store) → IsSpared name s (drop_image c name s).0
unfolding lookup
drop_image-IsSpared true name s j h = ap available (get-erase name j s.index ∙ rw h refl)
drop_image-IsSpared false name s j h = ap available (get-erase name j s.index ∙ rw h refl)

after_removal-IsSpared :
    (c : Bool) (name : String) (x : String → ImageError) (b : Bool) (s : Store)
    → IsSpared name s (after_removal c name x b s).0
after_removal-IsSpared c name x true s = drop_image-IsSpared c name s
after_removal-IsSpared c name x false s = λ j h. refl

remove_container-IsSpared :
    (c : Bool) (docker : Option (String → Bool)) (name : String) (s : Store)
    → IsSpared name s (remove_container c docker name s).0
remove_container-IsSpared c none name s = λ j h. refl
remove_container-IsSpared c (some r) name s = after_removal-IsSpared c name docker_failed (r name) s

delete_found-IsSpared :
    (c : Bool) (docker : Option (String → Bool)) (remove : String → Bool) (name : String)
    (o : Option Meta) (s : Store)
    → IsSpared name s (delete_found c docker remove name o s).0
delete_found-IsSpared c docker remove name none s = λ j h. refl
delete_found-IsSpared c docker remove name (some m) s =
    elim (Bool-cases (str_eq m.type type_container)) [
      | inl e ↦ rw e (remove_container-IsSpared c docker name s)
      | inr e ↦ rw e (after_removal-IsSpared c name file_failed (remove name) s)
    ]

append-nil : {A : Type 0} (xs ys : List A) → xs ++ ys ≡ [] → (xs ≡ []) × (ys ≡ [])
append-nil [] ys h = (refl, h)
append-nil (x ∷ xs) ys h = cc h

none_used : (b : Bool) (n : ℕ) → (if b then suc n else n) ≡ 0 → (b ≡ false) × (n ≡ 0)
none_used b n h = ground arith

no_sum : (m n : ℕ) → m + n ≡ 0 → (m ≡ 0) × (n ≡ 0)
no_sum m n h = ground arith

not_positive : (n : ℕ) → ltb 0 n ≡ false → n ≡ 0
not_positive n h = ground arith

module _ (name : String) (s t : Store) (spared : IsSpared name s t) where
  check_used-kept :
      (image want path : String)
      → str_eq image name ≡ false
      → check_used (resolver s) image want path ≡ []
      → check_used (resolver t) image want path ≡ []
  check_used-kept image want path d h =
      ground (arith, spared image, eq_iff name image, eq_iff image name)

  module _ {T : Type 0} (image : T → String) (want : String) (label : T → String) where
    all-kept :
        (xs : List T)
        → uses image name xs ≡ 0
        → flat_map (λ x. check_used (resolver s) (image x) want (label x)) xs ≡ []
        → flat_map (λ x. check_used (resolver t) (image x) want (label x)) xs ≡ []
    all-kept [] z h = refl
    all-kept (x ∷ xs) z h =
        let (d, n) = none_used (str_eq (image x) name) (uses image name xs) z in
        let (e, es) = append-nil (check_used (resolver s) (image x) want (label x)) _ h in
        rw (check_used-kept (image x) want (label x) d e) (all-kept xs n es)

  check_images-kept :
      (c : Config)
      → ref_count c name ≡ 0
      → check_images (resolver s) c ≡ []
      → check_images (resolver t) c ≡ []
  unfolding check_images ref_count
  check_images-kept c z h =
      let (v, k) = no_sum _ _ z in
      let (e, es) = append-nil _ _ h in
      rw
        (all-kept vm_image "vm-image" (λ vm. "virtual-machine-functions[" +++ vm.name +++ "].image")
          c.virtual_machine_functions v e)
        (all-kept ct_image "container-image"
          (λ ct. "container-functions[" +++ ct.name +++ "].image") c.container_functions k es)

-- A deletion that is told the references of a configuration leaves a configuration whose images are
-- all there with its images, whether it deletes, is refused, or fails.
pub delete-IsServed :
    (can_save : Bool) (docker : Option (String → Bool)) (remove_file : String → Bool)
    (name : String) (c : Config) (s : Store)
    → check_images (resolver s) c ≡ []
    → check_images (resolver (delete can_save docker remove_file name (ref_count c name) s).0) c
      ≡ []
unfolding delete
delete-IsServed can_save docker remove_file name c s h =
    elim (Bool-cases (ltb 0 (ref_count c name))) [
      | inl e ↦ rw e h
      | inr e ↦ rw e (
          check_images-kept name s _
            (delete_found-IsSpared can_save docker remove_file name (get name s.index) s) c
            (not_positive _ e) h)
    ]
