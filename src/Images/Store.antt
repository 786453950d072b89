-- ===== src/Images/Store.antt =====
-- `Store` (internal/images/images.go). `index` is the map of the source, `saved` the contents of
-- index.json, `events` the calls of the state sink, newest first. Whether the file can be written, and
-- the calls of the operating system and of Docker, are parameters of the calls.
use nfvis.Prelude.{
  ℕ, suc, ◌+◌, String, Bool, true, false, Option, none, some, List, [], ◌∷◌, ltb, str_eq, str_leb,
  if◌then◌else◌, get, erase, map_values,
}
use nfvis.Model.{Config, VmFunction, ContainerFunction}
use nfvis.Engine.Types.{ImageInfo, ImageResolver}

pub data ImportState : Type 0 where
  ready downloading failed : ImportState

-- `Meta`; the reason of a failed download is kept as whether it was broken off.
pub record Meta : Type 0 where
  pub name : String
  pub type : String
  pub size_bytes : ℕ
  pub sha256 : String
  pub format : String
  pub description : String
  pub imported_at : ℕ
  pub import_state : ImportState
  pub downloaded_bytes : ℕ
  pub total_bytes : ℕ
  pub last_error : String

pub record Store : Type 0 where
  pub index : List (String × Meta)
  pub saved : List (String × Meta)
  pub events : List (String × String × ImportState)

pub data ImageError : Type 0 where
  referenced : ℕ → ImageError
  not_found : String → ImageError
  no_docker : String → ImageError
  docker_failed : String → ImageError
  file_failed : String → ImageError
  save_failed : ImageError
  name_empty type_unknown : ImageError
  outside : String → ImageError

abbrev pub type_vm : String
type_vm = "vm-image"

abbrev pub type_container : String
type_container = "container-image"

-- `saveLocked`: none is success.
abbrev pub save_locked : Bool → Store → Store × Option ImageError
save_locked true s = (record s { saved = s.index }, none)
save_locked false s = (s, some save_failed)

abbrev broken_off : String
broken_off = "拉取未完成（下载中断或守护进程重启）；已下载部分保留在 .part，重跑同一命令即从断点续传"

abbrev pub fail_stale : ImportState → Meta → Meta
fail_stale downloading m = record m { import_state = failed; last_error = broken_off }
fail_stale ready m = m
fail_stale failed m = m

abbrev pub settle : Meta → Meta
settle m = fail_stale m.import_state m

abbrev pub is_downloading : ImportState → Bool
is_downloading downloading = true
is_downloading ready = false
is_downloading failed = false

abbrev pub any_stale : List (String × Meta) → Bool
any_stale [] = false
any_stale ((k, m) ∷ rest) = if is_downloading m.import_state then true else any_stale rest

-- `reconcileStaleDownloads`.
unfoldable pub reconcile : Bool → Store → Store × Option ImageError
reconcile can_save s =
    if any_stale s.index
    then save_locked can_save (record s { index = map_values settle s.index })
    else (s, none)

-- `Open` on an index.json that can be read; none is the error of the reconciliation.
unfoldable pub open_store : Bool → List (String × Meta) → Store × Option ImageError
unfolding reconcile
open_store can_save saved =
    reconcile can_save (record { index = saved; saved = saved; events = [] })

abbrev pub is_failed : ImportState → Bool
is_failed failed = true
is_failed ready = false
is_failed downloading = false

abbrev pub available : Option Meta → Option ImageInfo
available none = none
available (some m) =
    if is_failed m.import_state then none else some (record { name = m.name; type = m.type })

-- `Lookup`.
unfoldable pub lookup : Store → String → Option ImageInfo
lookup s name = available (get name s.index)

abbrev pub insert_meta : Meta → List Meta → List Meta
insert_meta m [] = m ∷ []
insert_meta m (n ∷ ns) =
    let rest = insert_meta m ns in if str_leb m.name n.name then m ∷ n ∷ ns else n ∷ rest

-- The loop of `Names`.
abbrev pub sound_names : List Meta → List String
sound_names [] = []
sound_names (m ∷ ms) =
    let rest = sound_names ms in if is_failed m.import_state then rest else m.name ∷ rest

abbrev pub sort_metas : List (String × Meta) → List Meta
sort_metas [] = []
sort_metas ((k, m) ∷ rest) = insert_meta m (sort_metas rest)

-- `List`.
unfoldable pub list : Store → List Meta
list s = sort_metas s.index

-- `Names`.
unfoldable pub names : Store → List String
unfolding list
names s = sound_names (list s)

-- The store as the engine asks it.
abbrev pub resolver : Store → ImageResolver
resolver s = record { lookup = lookup s; names = names s }

abbrev pub drop_image : Bool → String → Store → Store × Option ImageError
drop_image can_save name s = save_locked can_save (record s { index = erase name s.index })

abbrev pub after_removal :
    Bool → String → (String → ImageError) → Bool → Store → Store × Option ImageError
after_removal can_save name failure true s = drop_image can_save name s
after_removal can_save name failure false s = (s, some (failure name))

abbrev pub remove_container :
    Bool → Option (String → Bool) → String → Store → Store × Option ImageError
remove_container can_save none name s = (s, some (no_docker name))
remove_container can_save (some remove) name s =
    after_removal can_save name docker_failed (remove name) s

-- `docker` is `dockerRemove`, `remove_file` is `os.Remove` with a missing file as success.
abbrev pub delete_found :
    Bool
    → Option (String → Bool)
    → (String → Bool)
    → String
    → Option Meta
    → Store
    → Store × Option ImageError
delete_found can_save docker remove_file name none s = (s, some (not_found name))
delete_found can_save docker remove_file name (some m) s =
    if str_eq m.type type_container
    then remove_container can_save docker name s
    else after_removal can_save name file_failed (remove_file name) s

-- `Delete`.
unfoldable pub delete :
    Bool → Option (String → Bool) → (String → Bool) → String → ℕ → Store → Store × Option ImageError
delete can_save docker remove_file name ref_count s =
    if ltb 0 ref_count
    then (s, some (referenced ref_count))
    else delete_found can_save docker remove_file name (get name s.index) s

-- One loop of `RefCount`.
abbrev pub uses : {T : Type 0} → (T → String) → String → List T → ℕ
uses image name [] = 0
uses image name (x ∷ xs) = let n = uses image name xs in if str_eq (image x) name then suc n else n

abbrev pub vm_image : VmFunction → String
vm_image vm = vm.image

abbrev pub ct_image : ContainerFunction → String
ct_image ct = ct.image

-- `RefCount`.
unfoldable pub ref_count : Config → String → ℕ
ref_count c name =
    uses vm_image name c.virtual_machine_functions + uses ct_image name c.container_functions

-- `Path`; `join` is `filepath.Join` with the directory.
abbrev path_of : (String → String) → String → Option Meta → String
path_of join name none = ""
path_of join name (some m) = if str_eq m.type type_vm then join name else ""

unfoldable pub path : (String → String) → Store → String → String
path join s name = path_of join name (get name s.index)
