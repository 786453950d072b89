-- ===== src/Resources/Pages.antt =====
-- Every page of a pool is either free or given out.
use nfvis.Prelude.{
  ℕ, ◌+◌, ◌≤◌, String, Bool, true, false, not, ◌&&◌, Option, none, some, List, [], ◌∷◌, ◌≡◌, refl,
  subst, sym, ◌∙◌, arith, filter, any, str_eq, str_eq_sound, inl, inr, Bool-cases, ltb,
}
use nfvis.Model.{Config, CpuSetup, HugePool, VmFunction}
use nfvis.Resources.Hugepages.{
  HugepagePoolUsage, put_pool, put_pools, find_pool, charge_pool, pages_from, pages_needed,
  page_size_of, uses_normal_memory, allocate_pages, declared_pools,
}
use nfvis.Resources.Cores.{cpu_setup}
use nfvis.Resources.Ledger.{
  Allocation, opening, pin_cores, sort_vms, pinned, allocate_all, allocate, new_pool_ledger,
}

abbrev has_size : String → List HugepagePoolUsage → Bool
has_size size pools = any (λ p. str_eq p.page_size size) pools

-- One pool per page size, and in each the pages that are free and those given out are all.
abbrev pub IsBalanced : List HugepagePoolUsage → Type 0
IsBalanced [] = Unit
IsBalanced (p ∷ ps) =
    (p.allocated + p.free ≡ p.total) × (has_size p.page_size ps ≡ false) × IsBalanced ps

has_size-filter :
    (size : String) (q : HugepagePoolUsage → Bool) (ps : List HugepagePoolUsage)
    → has_size size ps ≡ false
    → has_size size (filter q ps) ≡ false
unfolding any
has_size-filter size q [] h = refl
has_size-filter size q (p ∷ ps) h = ground (arith, has_size-filter size q ps)

filter_keeps :
    (q : HugepagePoolUsage → Bool) (p : HugepagePoolUsage) (ps : List HugepagePoolUsage)
    → q p ≡ true
    → filter q (p ∷ ps) ≡ p ∷ filter q ps
filter_keeps q p ps k = ground (arith, k)

filter_drops :
    (q : HugepagePoolUsage → Bool) (p : HugepagePoolUsage) (ps : List HugepagePoolUsage)
    → q p ≡ false
    → filter q (p ∷ ps) ≡ filter q ps
filter_drops q p ps k = ground (arith, k)

filter-IsBalanced :
    (q : HugepagePoolUsage → Bool) (ps : List HugepagePoolUsage)
    → IsBalanced ps
    → IsBalanced (filter q ps)
filter-IsBalanced q [] h = tt
filter-IsBalanced q (p ∷ ps) (b, u, h) = elim (Bool-cases (q p)) [
  | inl k ↦
      subst IsBalanced (sym (filter_keeps q p ps k))
        (b, has_size-filter p.page_size q ps u, filter-IsBalanced q ps h)
  | inr k ↦ subst IsBalanced (sym (filter_drops q p ps k)) (filter-IsBalanced q ps h)
]

has_size-removed :
    (size : String) (ps : List HugepagePoolUsage)
    → has_size size (filter (λ p. not (str_eq p.page_size size)) ps) ≡ false
unfolding any
has_size-removed size [] = refl
has_size-removed size (p ∷ ps) = ground (arith, has_size-removed size ps)

put_pool-IsBalanced :
    (p : HugePool) (ps : List HugepagePoolUsage) → IsBalanced ps → IsBalanced (put_pool p ps)
put_pool-IsBalanced p ps h = (
  omega arith,
  has_size-removed p.page_size ps,
  filter-IsBalanced (λ q. not (str_eq q.page_size p.page_size)) ps h,
)

put_pools-IsBalanced :
    (ds : List HugePool) (ps : List HugepagePoolUsage)
    → IsBalanced ps
    → IsBalanced (put_pools ds ps)
put_pools-IsBalanced [] ps h = h
put_pools-IsBalanced (d ∷ ds) ps h =
    put_pools-IsBalanced ds (put_pool d ps) (put_pool-IsBalanced d ps h)

find_pool-none :
    (size : String) (ps : List HugepagePoolUsage)
    → has_size size ps ≡ false
    → find_pool size ps ≡ none
unfolding any
find_pool-none size [] h = refl
find_pool-none size (p ∷ ps) h = ground (arith, find_pool-none size ps)

charge_pool-other :
    (size : String) (pages : ℕ) (ps : List HugepagePoolUsage)
    → has_size size ps ≡ false
    → charge_pool size pages ps ≡ ps
unfolding any charge_pool
charge_pool-other size pages [] h = refl
charge_pool-other size pages (p ∷ ps) h = ground (arith, charge_pool-other size pages ps)

has_size-charge_pool :
    (s size : String) (pages : ℕ) (ps : List HugepagePoolUsage)
    → has_size s (charge_pool size pages ps) ≡ has_size s ps
unfolding any charge_pool
has_size-charge_pool s size pages [] = refl
has_size-charge_pool s size pages (p ∷ ps) = ground (arith, has_size-charge_pool s size pages ps)

ltb-false : (a b : ℕ) → ltb a b ≡ false → b ≤ a
ltb-false a b h = ground arith

find_pool-head :
    (size : String) (p pool : HugepagePoolUsage) (ps : List HugepagePoolUsage)
    → str_eq p.page_size size ≡ true
    → has_size size ps ≡ false
    → find_pool size (p ∷ ps) ≡ some pool
    → pool.free ≡ p.free
find_pool-head size p pool ps e u f = ground (arith, find_pool-none size ps u)

find_pool-tail :
    (size : String) (p pool : HugepagePoolUsage) (ps : List HugepagePoolUsage)
    → str_eq p.page_size size ≡ false
    → find_pool size (p ∷ ps) ≡ some pool
    → find_pool size ps ≡ some pool
find_pool-tail size p pool ps e f = ground arith

-- A charge keeps the balance if the pool of that size has enough pages free.
charge_pool-IsBalanced :
    (size : String) (pages : ℕ) (ps : List HugepagePoolUsage) (pool : HugepagePoolUsage)
    → IsBalanced ps
    → find_pool size ps ≡ some pool
    → pages ≤ pool.free
    → IsBalanced (charge_pool size pages ps)
unfolding charge_pool
charge_pool-IsBalanced size pages [] pool h f le = tt
charge_pool-IsBalanced size pages (p ∷ ps) pool (b, u, h) f le =
    elim (Bool-cases (str_eq p.page_size size)) [
      | inl e ↦
          let u' = subst (λ s. has_size s ps ≡ false) (str_eq_sound p.page_size size e) u in
          rw e (
            omega (arith, b, le, find_pool-head size p pool ps e u' f),
            has_size-charge_pool p.page_size size pages ps ∙ u,
            subst IsBalanced (sym (charge_pool-other size pages ps u')) h,
          )
      | inr e ↦ rw e (
        b,
        has_size-charge_pool p.page_size size pages ps ∙ u,
        charge_pool-IsBalanced size pages ps pool h (find_pool-tail size p pool ps e f) le,
      )
    ]

pages_from-IsBalanced :
    (vm : VmFunction) (size : String) (found : Option HugepagePoolUsage)
    (ps : List HugepagePoolUsage)
    → find_pool size ps ≡ found
    → IsBalanced ps
    → IsBalanced (pages_from vm size found ps).0
pages_from-IsBalanced vm size none ps f h = h
pages_from-IsBalanced vm size (some pool) ps f h =
    let pages = pages_needed vm.memory.size_mb pool.page_size in
    elim (Bool-cases (ltb pool.free pages)) [
      | inl e ↦ rw e h
      | inr e ↦ rw e (charge_pool-IsBalanced size pages ps pool h f (ltb-false pool.free pages e))
    ]

allocate_pages-IsBalanced :
    (equal_fold : String → String → Bool) (declared : List HugePool) (vm : VmFunction)
    (ps : List HugepagePoolUsage)
    → IsBalanced ps
    → IsBalanced (allocate_pages equal_fold declared vm ps).0
unfolding allocate_pages
allocate_pages-IsBalanced equal_fold declared vm ps h =
    elim (Bool-cases (ltb 0 vm.memory.size_mb && not (uses_normal_memory equal_fold vm))) [
      | inl e ↦
          let size = page_size_of declared vm.memory.hugepage_size in
          rw e (pages_from-IsBalanced vm size (find_pool size ps) ps refl h)
      | inr e ↦ rw e h
    ]

pin_cores-pools :
    (setup : Option CpuSetup) (isolated : List ℕ) (vm : VmFunction) (a : Allocation)
    → (pin_cores setup isolated vm a).pools ≡ a.pools
unfolding pin_cores
pin_cores-pools setup isolated vm a =
    elim (Bool-cases (ltb 0 vm.vcpu.count && pinned vm.vcpu.pin)) [
      | inl e ↦ rw e refl
      | inr e ↦ rw e refl
    ]

module _ (equal_fold : String → String → Bool) (parse_cores : String → Option (List ℕ)) where
  allocate_all-IsBalanced :
      (c : Config) (isolated : List ℕ) (vms : List VmFunction) (a : Allocation)
      → IsBalanced a.pools
      → IsBalanced (allocate_all equal_fold parse_cores c isolated vms a).pools
  unfolding allocate_all
  allocate_all-IsBalanced c isolated [] a h = h
  allocate_all-IsBalanced c isolated (vm ∷ vms) a h = allocate_all-IsBalanced c isolated vms _ (
      subst IsBalanced (sym (pin_cores-pools (cpu_setup c.resource_pools) isolated vm _))
        (allocate_pages-IsBalanced equal_fold (declared_pools c.resource_pools) vm a.pools h))

  -- Whatever configuration is allocated, valid or not: the ledger has one pool for each page size,
  -- and in each the pages given out and those that are free make up the declared total.
  pub allocate-IsBalanced :
      (c : Config)
      → IsBalanced
          (allocate equal_fold parse_cores (new_pool_ledger equal_fold parse_cores c) c).0.hugepages
  unfolding allocate new_pool_ledger
  allocate-IsBalanced c =
      allocate_all-IsBalanced c (new_pool_ledger equal_fold parse_cores c).cpu.isolated
        (sort_vms c.virtual_machine_functions) (opening (new_pool_ledger equal_fold parse_cores c))
        (put_pools-IsBalanced (declared_pools c.resource_pools) [] tt)
