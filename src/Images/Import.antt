-- ===== src/Images/Import.antt =====
-- `ImportIncoming` (internal/images/images.go).
use text.Mathlib.Text.{starts_with}
use nfvis.Prelude.{
  ℕ, String, ◌+++◌, Bool, true, false, not, ◌&&◌, Option, none, some, ◌∷◌, str_eq, if◌then◌else◌,
  put,
}
use nfvis.Images.Store.{
  Meta, Store, ImageError, ready, name_empty, type_unknown, outside, no_docker, docker_failed,
  file_failed, save_locked, type_vm, type_container,
}

-- The calls of the operating system and of Docker: `trim` is `strings.TrimSpace`, `incoming` the
-- absolute path of the directory, `resolve` the absolute path of a file in it, `hash` `fileSHA256`,
-- `remove` and `rename` say whether they succeed, `extension` is the lower-case extension.
pub record Host : Type 0 where
  pub trim : String → String
  pub incoming : Option String
  pub resolve : String → Option String
  pub docker_load : Option (String → String → Bool)
  pub hash : String → Option (String × ℕ)
  pub remove : String → Bool
  pub rename : String → String → Bool
  pub extension : String → String
  pub now : ℕ
  pub can_save : Bool

pub data Imported : Type 0 where
  import_failed : ImageError → Imported
  imported : Meta → Imported

-- `setMeta`.
unfoldable pub set_meta : Bool → Meta → Store → Store × Option ImageError
set_meta can_save m s = save_locked can_save (record s { index = put m.name m s.index })

abbrev pub emitted : Meta → Store × Option ImageError → Store × Imported
emitted m (s, some x) = (s, import_failed x)
emitted m (s, none) = (record s { events = (m.name, m.type, ready) ∷ s.events }, imported m)

abbrev pub no_loader : Option (String → String → Bool) → Bool
no_loader none = true
no_loader (some f) = false

module _ (host : Host) where
  -- `formatOf`.
  unfoldable pub format_of : String → String
  format_of name = if str_eq (host.extension name) "" then "unknown" else host.extension name

  abbrev pub meta_of : String → String → String → String → String × ℕ → Meta
  meta_of name type format description (sha, size) = record {
    name = name;
    type = type;
    size_bytes = size;
    sha256 = sha;
    format = format;
    description = description;
    imported_at = host.now;
    import_state = ready;
    downloaded_bytes = 0;
    total_bytes = 0;
    last_error = "";
  }

  abbrev pub record_image : Meta → Store → Store × Imported
  record_image m s = emitted m (set_meta host.can_save m s)

  abbrev pub load_container :
      Option (String → String → Bool)
      → String
      → String
      → String
      → String × ℕ
      → Store
      → Store × Imported
  load_container none name abs description h s = (s, import_failed (no_docker name))
  load_container (some load) name abs description h s =
      if not (load abs name)
      then (s, import_failed (docker_failed name))
      else if not (host.remove abs)
      then (s, import_failed (file_failed name))
      else record_image (meta_of name type_container "docker-archive" description h) s

  abbrev pub move_vm : String → String → String → String × ℕ → Store → Store × Imported
  move_vm name abs description h s =
      if not (host.rename abs name)
      then (s, import_failed (file_failed name))
      else record_image (meta_of name type_vm (format_of name) description h) s

  abbrev pub import_hashed :
      String → String → String → String → Option (String × ℕ) → Store → Store × Imported
  import_hashed name type abs description none s = (s, import_failed (file_failed name))
  import_hashed name type abs description (some h) s =
      if str_eq type type_container
      then load_container host.docker_load name abs description h s
      else move_vm name abs description h s

  abbrev pub import_from :
      String → String → String → String → String → String → Store → Store × Imported
  import_from name type incoming file abs description s =
      if not (starts_with abs (incoming +++ "/"))
      then (s, import_failed (outside file))
      else if str_eq type type_container && no_loader host.docker_load
      then (s, import_failed (no_docker name))
      else import_hashed name type abs description (host.hash abs) s

  abbrev pub import_at :
      String → String → String → String → Option String → Option String → Store → Store × Imported
  import_at name type file description none abs s = (s, import_failed (file_failed name))
  import_at name type file description (some incoming) none s =
      (s, import_failed (file_failed name))
  import_at name type file description (some incoming) (some abs) s =
      import_from name type incoming file abs description s

  -- `ImportIncoming`.
  unfoldable pub import_incoming : String → String → String → String → Store → Store × Imported
  unfolding set_meta format_of
  import_incoming name type file description s =
      if str_eq (host.trim name) ""
      then (s, import_failed name_empty)
      else if not (str_eq type type_vm) && not (str_eq type type_container)
      then (s, import_failed type_unknown)
      else import_at name type file description host.incoming (host.resolve file) s
