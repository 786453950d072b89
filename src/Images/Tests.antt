-- ===== src/Images/Tests.antt =====
-- A store with two images.
use nfvis.Prelude.{
  String, ◌+++◌, str_eq, true, false, none, some, List, [], ◌∷◌, ◌≡◌, refl, All, any, get,
}
use nfvis.Model.{Config, VmFunction}
use nfvis.Engine.Tests.Setup.{no_config}
use nfvis.Engine.Checks.{check_images}
use nfvis.Images.Store.{
  Meta, Store, ImportState, ready, downloading, lookup, names, resolver, delete, open_store,
  ref_count,
}
use nfvis.Images.Import.{Host, import_incoming, meta_of}
use nfvis.Images.Settled.{IsFresh, ready_info, open_store-IsSettled}
use nfvis.Images.Available.{IsImported, import_incoming-IsImported}
use nfvis.Images.Listed.{is_some, names-lookup}
use nfvis.Images.Served.{delete-IsServed}

abbrev image : String → ImportState → Meta
image name state = record {
  name = name;
  type = "vm-image";
  size_bytes = 1;
  sha256 = "";
  format = "qcow2";
  description = "";
  imported_at = 0;
  import_state = state;
  downloaded_bytes = 0;
  total_bytes = 0;
  last_error = "";
}

abbrev two : List (String × Meta)
two = ("fw", image "fw" ready) ∷ ("dns", image "dns" downloading) ∷ []

abbrev store : Store
store = record { index = two; saved = two; events = [] }

abbrev firewall : VmFunction
firewall = record {
  name = "edge";
  description = "";
  image = "fw";
  vcpu = record { count = 1; pin = none };
  memory = record { size_mb = 64; hugepage_size = ""; numa_node = none; backing = "" };
  disks = [];
  interfaces = [];
  cloud_init = none;
  serial_console = none;
  autostart = false;
}

abbrev config : Config
config = record no_config { virtual_machine_functions = firewall ∷ [] }

abbrev host : Host
host = record {
  trim = λ s. s;
  incoming = some "/in";
  resolve = λ f. some ("/in/" +++ f);
  docker_load = none;
  hash = λ f. some ("abc", 7);
  remove = λ f. true;
  rename = λ f n. true;
  extension = λ n. "";
  now = 5;
  can_save = true;
}

open_store-IsSettled_example :
    All IsFresh (open_store true two).0.index
    × ((name : String) → lookup (open_store true two).0 name ≡ ready_info (get name two))
open_store-IsSettled_example = open_store-IsSettled true two

delete-IsServed_example :
    check_images
      (resolver (delete true none (λ f. true) "fw" (ref_count config "fw") store).0)
      config
    ≡ []
unfolding check_images lookup get
delete-IsServed_example = delete-IsServed true none (λ f. true) "fw" config store refl

names-lookup_example : any (λ m. str_eq m "fw") (names store) ≡ is_some (lookup store "fw")
unfolding get
names-lookup_example = names-lookup store "fw" (refl, refl, (refl, refl, tt))

import_incoming-IsImported_example :
    IsImported host "nat" "vm-image" "nat.img" store
      (import_incoming host "nat" "vm-image" "nat.img" "" store).0
      (meta_of host "nat" "vm-image" "unknown" "" ("abc", 7))
unfolding import_incoming
import_incoming-IsImported_example =
    import_incoming-IsImported host "nat" "vm-image" "nat.img" store ""
      (meta_of host "nat" "vm-image" "unknown" "" ("abc", 7)) refl
