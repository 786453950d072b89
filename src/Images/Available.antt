-- ===== src/Images/Available.antt =====
-- The images that an import makes available.
use text.Mathlib.Text.{starts_with}
use nfvis.Prelude.{
  ℕ, String, ◌+++◌, Bool, true, false, not, ◌&&◌, Option, none, some, ◌≡◌, refl, sym, ap, ◌∙◌,
  subst, str_eq, str_eq_sound, str_eq_complete, if◌then◌else◌, Bool-cases, inl, inr, get, get-put,
}
use nfvis.Images.Store.{
  Meta, Store, lookup, available, no_docker, type_unknown, type_vm, type_container,
}
use nfvis.Images.Import.{
  Host, Imported, import_failed, imported, set_meta, meta_of, record_image, load_container, move_vm,
  import_hashed, import_from, import_at, import_incoming, format_of, no_loader,
}

-- What an import leaves behind that answers `m`: the image is available under the name and the type
-- that were asked for, the others are as they were, and the file stood in the directory for imports.
pub record IsImported (host : Host) (name type file : String) (s t : Store) (m : Meta)
    : Type 0 where
  pub stored : get name t.index ≡ some m
  pub found : lookup t name ≡ some (record { name = name; type = type })
  pub spared : (j : String) → str_eq name j ≡ false → lookup t j ≡ lookup s j
  pub incoming : String
  pub absolute : String
  pub directory : host.incoming ≡ some incoming
  pub resolved : host.resolve file ≡ some absolute
  pub inside : starts_with absolute (incoming +++ "/") ≡ true

true≢false : true ≡ false → ⊥
true≢false p = cc p

module _ (host : Host) (name type file : String) (s : Store) where
  abbrev IsGood : Store × Imported → Type 0
  IsGood (t, import_failed x) = Unit
  IsGood (t, imported m) = IsImported host name type file s t m

  module _ (incoming absolute : String) (directory : host.incoming ≡ some incoming)
      (resolved : host.resolve file ≡ some absolute)
      (inside : starts_with absolute (incoming +++ "/") ≡ true) where
    record_image-IsGood :
        (own format description : String) (h : String × ℕ)
        → own ≡ type
        → IsGood (record_image host (meta_of host name own format description h) s)
    unfolding set_meta lookup
    record_image-IsGood own format description h e = elim (Bool-cases host.can_save) [
      | inl c ↦ rw c (record {
        stored = get-put name name _ s.index ∙ rw (str_eq_complete name name refl) refl;
        found =
            ap available (get-put name name _ s.index)
            ∙ rw (str_eq_complete name name refl)
                (ap (λ x. some (record { name = name; type = x })) e);
        spared = λ j d. ap available (get-put name j _ s.index ∙ rw d refl);
        incoming = incoming;
        absolute = absolute;
        directory = directory;
        resolved = resolved;
        inside = inside;
      })
      | inr c ↦ rw c tt
    ]

    load_container-IsGood :
        (load : Option (String → String → Bool)) (description : String) (h : String × ℕ)
        → type_container ≡ type
        → IsGood (load_container host load name absolute description h s)
    load_container-IsGood none description h e = tt
    load_container-IsGood (some load) description h e = elim (Bool-cases (load absolute name)) [
      | inr l ↦ rw l tt
      | inl l ↦ rw l (elim (Bool-cases (host.remove absolute)) [
        | inr r ↦ rw r tt
        | inl r ↦ rw r (record_image-IsGood type_container "docker-archive" description h e)
      ])
    ]

    move_vm-IsGood :
        (description : String) (h : String × ℕ)
        → type_vm ≡ type
        → IsGood (move_vm host name absolute description h s)
    move_vm-IsGood description h e = elim (Bool-cases (host.rename absolute name)) [
      | inr r ↦ rw r tt
      | inl r ↦ rw r (record_image-IsGood type_vm (format_of host name) description h e)
    ]

    module _ (known : str_eq type type_container ≡ false → type_vm ≡ type) where
      import_hashed-IsGood :
          (description : String) (o : Option (String × ℕ))
          → IsGood (import_hashed host name type absolute description o s)
      import_hashed-IsGood description none = tt
      import_hashed-IsGood description (some h) = elim (Bool-cases (str_eq type type_container)) [
        | inl e ↦ rw e (
            load_container-IsGood host.docker_load description h
              (sym (str_eq_sound type type_container e)))
        | inr e ↦ rw e (move_vm-IsGood description h (known e))
      ]

      import_loaded-IsGood :
          (description : String) (b : Bool)
          → IsGood (
              if b
              then (s, import_failed (no_docker name))
              else import_hashed host name type absolute description (host.hash absolute) s)
      import_loaded-IsGood description true = tt
      import_loaded-IsGood description false = import_hashed-IsGood description (host.hash absolute)

  import_from-IsGood :
      (incoming absolute description : String)
      → host.incoming ≡ some incoming
      → host.resolve file ≡ some absolute
      → (str_eq type type_container ≡ false → type_vm ≡ type)
      → IsGood (import_from host name type incoming file absolute description s)
  import_from-IsGood incoming absolute description d r known =
      elim (Bool-cases (starts_with absolute (incoming +++ "/"))) [
        | inr e ↦ rw e tt
        | inl e ↦ rw e (
            import_loaded-IsGood incoming absolute d r e known description
              (str_eq type type_container && no_loader host.docker_load))
      ]

  import_at-IsGood :
      (description : String) (i a : Option String)
      → host.incoming ≡ i
      → host.resolve file ≡ a
      → (str_eq type type_container ≡ false → type_vm ≡ type)
      → IsGood (import_at host name type file description i a s)
  import_at-IsGood description none a d r known = tt
  import_at-IsGood description (some i) none d r known = tt
  import_at-IsGood description (some i) (some a) d r known =
      import_from-IsGood i a description d r known

  import_typed-IsGood :
      (description : String) (v c : Bool)
      → str_eq type type_vm ≡ v
      → str_eq type type_container ≡ c
      → IsGood (
          if not v && not c
          then (s, import_failed type_unknown)
          else import_at host name type file description host.incoming (host.resolve file) s)
  import_typed-IsGood description true c v e =
      import_at-IsGood description host.incoming (host.resolve file) refl refl
        (λ n. sym (str_eq_sound type type_vm v))
  import_typed-IsGood description false false v e = tt
  import_typed-IsGood description false true v e =
      import_at-IsGood description host.incoming (host.resolve file) refl refl
        (λ n. absurd (true≢false (sym e ∙ n)))

  import_incoming-IsGood :
      (description : String) → IsGood (import_incoming host name type file description s)
  unfolding import_incoming
  import_incoming-IsGood description = elim (Bool-cases (str_eq (host.trim name) "")) [
    | inl e ↦ rw e tt
    | inr e ↦ rw e (
        import_typed-IsGood description (str_eq type type_vm) (str_eq type type_container) refl
          refl)
  ]

  good :
      (r : Store × Imported) (m : Meta)
      → IsGood r
      → r.1 ≡ imported m
      → IsImported host name type file s r.0 m
  good (t, x) m h e = subst (λ y. IsGood (t, y)) e h

  -- An import that succeeds makes the image available under the name and the type that were asked
  -- for, leaves the others alone, and has taken a file from within the directory for imports.
  pub import_incoming-IsImported :
      (description : String) (m : Meta)
      → (import_incoming host name type file description s).1 ≡ imported m
      → IsImported host name type file s (import_incoming host name type file description s).0 m
  import_incoming-IsImported description m e =
      good (import_incoming host name type file description s) m
        (import_incoming-IsGood description) e
