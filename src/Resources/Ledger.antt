-- ===== src/Resources/Ledger.antt =====
-- `NewPoolLedger` and `Allocate` (internal/model/resources.go). A Go map is a list with one entry
-- per key; the set `used` is the list of its cores. `parse_cores` is `parseCoreList`, and
-- `equal_fold` is `strings.EqualFold`.
use nfvis.Prelude.{
  ℕ, String, Bool, true, false, not, ◌&&◌, Option, none, some, List, [], ◌∷◌, ◌++◌, ◌==◌, ltb,
  str_eq, str_leb, if◌then◌else◌, filter,
}
use nfvis.Model.{Config, CpuSetup, VppCpu, VmFunction, ValidateError}
use nfvis.Resources.Hugepages.{
  HugepagePoolUsage, put_pools, declared_pools, uses_normal_memory, page_size_of, allocate_pages,
}
use nfvis.Resources.Cores.{
  minus_ints, sorted_copy, core_set, cpu_setup, isolated_of, cores_or_none, vpp_cpu, allocate_cores,
}

pub record CpuLedger : Type 0 where
  pub isolated : List ℕ
  pub vpp_reserved : List ℕ
  pub vm_cores : List (String × List ℕ)
  pub free : List ℕ

pub record PoolLedger : Type 0 where
  pub hugepages : List HugepagePoolUsage
  pub cpu : CpuLedger

pub record AllocatedResources : Type 0 where
  pub cores : List ℕ
  pub hugepage_size : String

-- What the loop of `Allocate` carries: the ledger's two parts, the cores in use, the errors.
pub record Allocation : Type 0 where
  pub pools : List HugepagePoolUsage
  pub vm_cores : List (String × List ℕ)
  pub used : List ℕ
  pub errors : List ValidateError

-- Where the loop starts.
abbrev pub opening : PoolLedger → Allocation
opening l = record {
  pools = l.hugepages;
  vm_cores = l.cpu.vm_cores;
  used = l.cpu.vpp_reserved;
  errors = [];
}

abbrev pub put_cores : String → List ℕ → List (String × List ℕ) → List (String × List ℕ)
put_cores name cores m = (name, cores) ∷ filter (λ p. not (str_eq p.0 name)) m

abbrev pub pinned : Option Bool → Bool
pinned none = true
pinned (some b) = b

-- The second half of the round.
unfoldable pub pin_cores : Option CpuSetup → List ℕ → VmFunction → Allocation → Allocation
unfolding allocate_cores
pin_cores setup isolated vm a =
    if ltb 0 vm.vcpu.count && pinned vm.vcpu.pin
    then (let (cores, errs) = allocate_cores setup isolated vm a.used in
        record a {
          vm_cores = put_cores vm.name cores a.vm_cores;
          used = cores ++ a.used;
          errors = a.errors ++ errs;
        })
    else a

abbrev insert_vm : VmFunction → List VmFunction → List VmFunction
insert_vm v [] = v ∷ []
insert_vm v (w ∷ ws) = elim (str_leb v.name w.name) [
  | true ↦ v ∷ w ∷ ws
  | false ↦ w ∷ insert_vm v ws
]

-- `sort.Slice` by name.
unfoldable pub sort_vms : List VmFunction → List VmFunction
sort_vms [] = []
sort_vms (v ∷ vs) = insert_vm v (sort_vms vs)

module _ (equal_fold : String → String → Bool) (parse_cores : String → Option (List ℕ)) where
  abbrev reserved_cores : Option VppCpu → List ℕ
  reserved_cores none = []
  reserved_cores (some c) = core_set (
      (if c.main_core == 0 then [] else c.main_core ∷ [])
      ++ cores_or_none (parse_cores c.corelist_workers))

  -- `NewPoolLedger`.
  unfoldable pub new_pool_ledger : Config → PoolLedger
  unfolding minus_ints sorted_copy
  new_pool_ledger c =
      let isolated = isolated_of (cpu_setup c.resource_pools) in
      let reserved = reserved_cores (vpp_cpu c.vpp) in
      record {
        hugepages = put_pools (declared_pools c.resource_pools) [];
        cpu = record {
          isolated = isolated;
          vpp_reserved = reserved;
          vm_cores = [];
          free = minus_ints isolated reserved;
        };
      }

  -- The loop of `Allocate`.
  unfoldable pub allocate_all : Config → List ℕ → List VmFunction → Allocation → Allocation
  unfolding allocate_pages pin_cores
  allocate_all c isolated [] a = a
  allocate_all c isolated (vm ∷ vms) a =
      let (pools, errs) = allocate_pages equal_fold (declared_pools c.resource_pools) vm a.pools in
      allocate_all c isolated vms (
        pin_cores (cpu_setup c.resource_pools) isolated vm
          (record a { pools = pools; errors = a.errors ++ errs }))

  -- `Allocate`: the ledger afterwards, and the errors.
  unfoldable pub allocate : PoolLedger → Config → PoolLedger × List ValidateError
  unfolding allocate_all sort_vms minus_ints
  allocate l c =
      let a = allocate_all c l.cpu.isolated (sort_vms c.virtual_machine_functions) (opening l) in
      (
        record {
          hugepages = a.pools;
          cpu = record (l.cpu) { vm_cores = a.vm_cores; free = minus_ints l.cpu.isolated a.used };
        },
        a.errors,
      )

  -- `CheckResources`.
  unfoldable pub check_resources : Config → List ValidateError
  unfolding new_pool_ledger allocate
  check_resources c = (allocate (new_pool_ledger c) c).1

  abbrev cores_of : String → List (String × List ℕ) → List ℕ
  cores_of name [] = []
  cores_of name (p ∷ ps) = if str_eq p.0 name then p.1 else cores_of name ps

  -- `AllocationFor`: nothing where the configuration asks for more than there is.
  unfoldable pub allocation_for : Config → VmFunction → AllocatedResources
  unfolding new_pool_ledger allocate
  allocation_for c vm =
      let (l, errs) = allocate (new_pool_ledger c) c in
      elim errs [
        | e ∷ es ↦ record { cores = []; hugepage_size = "" }
        | [] ↦ record {
          cores = cores_of vm.name l.cpu.vm_cores;
          hugepage_size =
              if uses_normal_memory equal_fold vm
              then ""
              else page_size_of (declared_pools c.resource_pools) vm.memory.hugepage_size;
        }
      ]
