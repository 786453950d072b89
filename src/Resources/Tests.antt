-- ===== src/Resources/Tests.antt =====
-- Two VMs on five isolated cores, one of which is kept for VPP.
use nfvis.Prelude.{ℕ, ◌+◌, ◌≤◌, String, false, Option, none, some, List, [], ◌∷◌, ◌≡◌, refl, str_eq}
use nfvis.Model.{Config, VmFunction}
use nfvis.Engine.Tests.Setup.{no_config}
use nfvis.Resources.Hugepages.{allocate_pages}
use nfvis.Resources.Cores.{has_core}
use nfvis.Resources.Ledger.{new_pool_ledger, allocate, allocate_all, sort_vms, pin_cores}
use nfvis.Resources.Pages.{IsBalanced, allocate-IsBalanced}
use nfvis.Resources.Exclusive.{owners, one_if, allocate_exclusive}

abbrev vm : String → VmFunction
vm name = record {
  name = name;
  description = "";
  image = "";
  vcpu = record { count = 2; pin = none };
  memory = record { size_mb = 3; hugepage_size = ""; numa_node = none; backing = "" };
  disks = [];
  interfaces = [];
  cloud_init = none;
  serial_console = none;
  autostart = false;
}

abbrev cores : Config
cores = record no_config {
  resource_pools = some (record {
    hugepages = record { page_size = "2M"; count = 4 } ∷ [];
    cpu = some (record { isolated_cores = 4 ∷ 2 ∷ 3 ∷ 1 ∷ 5 ∷ []; numa = [] });
  });
  vpp = some (record {
    cpu = some (record { main_core = 1; corelist_workers = ""; workers_per_numa = 0 });
    memory = none;
    dpdk = none;
    plugins = [];
  });
  virtual_machine_functions = vm "b" ∷ vm "a" ∷ [];
}

abbrev no_cores : String → Option (List ℕ)
no_cores s = some []

allocate_exclusive_example :
    let l = new_pool_ledger str_eq no_cores cores in
    let l' = (allocate str_eq no_cores l cores).0 in
    owners 3 l'.cpu.vm_cores + one_if (has_core 3 l.cpu.vpp_reserved) ≤ 1
allocate_exclusive_example = allocate_exclusive str_eq no_cores cores 3

allocate-IsBalanced_example :
    IsBalanced (allocate str_eq no_cores (new_pool_ledger str_eq no_cores cores) cores).0.hugepages
allocate-IsBalanced_example = allocate-IsBalanced str_eq no_cores cores

gives_out :
    (allocate str_eq no_cores (new_pool_ledger str_eq no_cores cores) cores).0.cpu.vm_cores
    ≡ ("b", 4 ∷ 5 ∷ []) ∷ ("a", 2 ∷ 3 ∷ []) ∷ []
unfolding new_pool_ledger allocate allocate_all sort_vms pin_cores allocate_pages
gives_out = refl
