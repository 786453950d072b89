-- ===== src/Resources/Cores.antt =====
-- The isolated cores (internal/model/resources.go). The set `used` of the source is a list.
use nfvis.Prelude.{
  ℕ, Bool, true, false, not, Option, none, some, List, [], ◌∷◌, ◌==◌, ltb, leb, if◌then◌else◌,
  length, take, filter, any,
}
use nfvis.Model.{
  ResourcePool, CpuSetup, NumaNode, VppConfig, VppCpu, VmFunction, ValidateError, cores_short,
}
use nfvis.Resources.Hugepages.{vm_path}

unfoldable pub has_core : ℕ → List ℕ → Bool
unfolding any
has_core n cores = any (λ c. c == n) cores

-- `minusInts`.
unfoldable pub minus_ints : List ℕ → List ℕ → List ℕ
unfolding has_core
minus_ints all remove = filter (λ c. not (has_core c remove)) all

abbrev pub insert_int : ℕ → List ℕ → List ℕ
insert_int n [] = n ∷ []
insert_int n (m ∷ ms) = elim (leb n m) [ true ↦ n ∷ m ∷ ms | false ↦ m ∷ insert_int n ms ]

-- `sortedCopy`.
unfoldable pub sorted_copy : List ℕ → List ℕ
sorted_copy [] = []
sorted_copy (n ∷ ns) = insert_int n (sorted_copy ns)

-- The set with one more core, in order.
abbrev pub with_core : ℕ → List ℕ → List ℕ
with_core n set = if any (λ c. c == n) set then set else insert_int n set

abbrev pub core_set : List ℕ → List ℕ
core_set [] = []
core_set (n ∷ ns) = with_core n (core_set ns)

abbrev pub cpu_setup : Option ResourcePool → Option CpuSetup
cpu_setup none = none
cpu_setup (some r) = r.cpu

abbrev pub isolated_of : Option CpuSetup → List ℕ
isolated_of none = []
isolated_of (some s) = sorted_copy s.isolated_cores

abbrev pub cores_or_none : Option (List ℕ) → List ℕ
cores_or_none none = []
cores_or_none (some cs) = cs

abbrev pub vpp_cpu : Option VppConfig → Option VppCpu
vpp_cpu none = none
vpp_cpu (some v) = v.cpu

abbrev pub find_node : ℕ → List NumaNode → Option NumaNode
find_node n [] = none
find_node n (x ∷ xs) = if x.node == n then some x else find_node n xs

abbrev pub node_of : Option CpuSetup → Option ℕ → Option NumaNode
node_of none n = none
node_of (some s) none = none
node_of (some s) (some n) = find_node n s.numa

-- The cores that a VM may get, before those in use are taken out, and its NUMA node.
abbrev pub offered : Option NumaNode → List ℕ → List ℕ × Option ℕ
offered none isolated = (isolated, none)
offered (some x) isolated = (sorted_copy x.cores, some x.node)

-- The first cores of the candidates, if there are enough.
abbrev pub take_cores : VmFunction → Option ℕ → List ℕ → List ℕ × List ValidateError
take_cores vm where_node candidates =
    if ltb (length candidates) vm.vcpu.count
    then (
      [],
      record {
        path = vm_path vm ".vcpu.count";
        message = cores_short where_node vm.vcpu.count (length candidates);
      }
          ∷ [],
    )
    else (take vm.vcpu.count candidates, [])

-- `allocateCores`: the cores, and the errors.
unfoldable pub allocate_cores :
    Option CpuSetup → List ℕ → VmFunction → List ℕ → List ℕ × List ValidateError
unfolding minus_ints sorted_copy
allocate_cores setup isolated vm used =
    let (all, where_node) = offered (node_of setup vm.memory.numa_node) isolated in
    take_cores vm where_node (minus_ints all used)
