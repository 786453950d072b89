-- ===== src/Resources/Hugepages.antt =====
-- The pools of huge pages (internal/model/resources.go); `equal_fold` is `strings.EqualFold`.
use nfvis.Prelude.{
  ℕ, ◌+◌, ◌-◌, ◌/◌, String, ◌+++◌, Bool, not, ◌&&◌, Option, none, some, List, [], ◌∷◌, map, ltb,
  str_eq, if◌then◌else◌, filter, find_last,
}
use nfvis.Model.{ResourcePool, HugePool, VmFunction, ValidateError, no_huge_pool, pages_short}

pub record HugepagePoolUsage : Type 0 where
  pub page_size : String
  pub total : ℕ
  pub allocated : ℕ
  pub free : ℕ

abbrev pub put_pool : HugePool → List HugepagePoolUsage → List HugepagePoolUsage
put_pool p pools =
    record { page_size = p.page_size; total = p.count; allocated = 0; free = p.count }
    ∷ filter (λ q. not (str_eq q.page_size p.page_size)) pools

abbrev pub put_pools : List HugePool → List HugepagePoolUsage → List HugepagePoolUsage
put_pools [] acc = acc
put_pools (p ∷ ps) acc = put_pools ps (put_pool p acc)

abbrev pub declared_pools : Option ResourcePool → List HugePool
declared_pools none = []
declared_pools (some r) = r.hugepages

-- `usesNormalMemory`.
abbrev pub uses_normal_memory : (String → String → Bool) → VmFunction → Bool
uses_normal_memory equal_fold vm = equal_fold vm.memory.backing "normal"

unfoldable pub pages_needed : ℕ → String → ℕ
pages_needed size_mb page_size =
    if str_eq page_size "2M"
    then (size_mb + 1) / 2
    else if str_eq page_size "1G"
    then (size_mb + 1023) / 1024
    else 0

-- The page size of a VM, the first pool's where it names none.
abbrev pub page_size_of : List HugePool → String → String
page_size_of [] size = size
page_size_of (p ∷ ps) size = if str_eq size "" then p.page_size else size

abbrev pub vm_path : VmFunction → String → String
vm_path vm field = "virtual-machine-functions[" +++ vm.name +++ "]" +++ field

abbrev pub find_pool : String → List HugepagePoolUsage → Option HugepagePoolUsage
find_pool size pools = find_last (λ p. str_eq p.page_size size) pools

abbrev pub charge : ℕ → HugepagePoolUsage → HugepagePoolUsage
charge pages p = record p { allocated = p.allocated + pages; free = p.free - pages }

unfoldable pub charge_pool : String → ℕ → List HugepagePoolUsage → List HugepagePoolUsage
charge_pool size pages pools =
    map (λ p. if str_eq p.page_size size then charge pages p else p) pools

abbrev pub pages_from :
    VmFunction
    → String
    → Option HugepagePoolUsage
    → List HugepagePoolUsage
    → List HugepagePoolUsage × List ValidateError
pages_from vm size none pools = (
  pools,
  record { path = vm_path vm ".memory.size-mb"; message = no_huge_pool size vm.memory.size_mb }
      ∷ [],
)
pages_from vm size (some pool) pools =
    let pages = pages_needed vm.memory.size_mb pool.page_size in
    if ltb pool.free pages
    then (
      pools,
      record {
        path = vm_path vm ".memory.size-mb";
        message = pages_short pool.page_size pages pool.free;
      }
          ∷ [],
    )
    else (charge_pool size pages pools, [])

-- The first half of the round of `Allocate` for one VM.
unfoldable pub allocate_pages :
    (String → String → Bool)
    → List HugePool
    → VmFunction
    → List HugepagePoolUsage
    → List HugepagePoolUsage × List ValidateError
unfolding pages_needed charge_pool
allocate_pages equal_fold declared vm pools =
    if ltb 0 vm.memory.size_mb && not (uses_normal_memory equal_fold vm)
    then (let size = page_size_of declared vm.memory.hugepage_size in
        pages_from vm size (find_pool size pools) pools)
    else (pools, [])
