-- ===== src/Resources/Exclusive.antt =====
-- No core is given out twice.
use nfvis.Prelude.{
  ℕ, zero, suc, ◌+◌, ◌≤◌, String, Bool, true, false, not, ◌&&◌, ◌||◌, Option, List, [], ◌∷◌, ◌++◌,
  ◌==◌, ◌≡◌, refl, subst, arith, take, filter, str_eq, inl, inr, Bool-cases, ltb,
}
use nfvis.Model.{Config, CpuSetup, VmFunction}
use nfvis.Resources.Cores.{
  has_core, minus_ints, offered, node_of, cpu_setup, take_cores, allocate_cores,
}
use nfvis.Resources.Ledger.{
  Allocation, opening, sort_vms, pinned, pin_cores, allocate_all, allocate, new_pool_ledger,
}

abbrev pub one_if : Bool → ℕ
one_if true = 1
one_if false = 0

-- How many of the VMs have the core.
abbrev pub owners : ℕ → List (String × List ℕ) → ℕ
owners n [] = 0
owners n (p ∷ ps) = one_if (has_core n p.1) + owners n ps

owners-filter :
    (n : ℕ) (q : String × List ℕ → Bool) (m : List (String × List ℕ))
    → owners n (filter q m) ≤ owners n m
owners-filter n q [] = omega arith
owners-filter n q (p ∷ ps) = ground (arith, owners-filter n q ps)

has_core-append :
    (n : ℕ) (xs ys : List ℕ) → has_core n (xs ++ ys) ≡ (has_core n xs || has_core n ys)
unfolding has_core
has_core-append n [] ys = refl
has_core-append n (x ∷ xs) ys = ground (arith, has_core-append n xs ys)

eq_sound : (x n : ℕ) → (x == n) ≡ true → x ≡ n
eq_sound x n e = ground arith

-- The cores that are left over are not among those that are taken out.
has_core-minus_ints :
    (n : ℕ) (all used : List ℕ) → has_core n (minus_ints all used) ≡ true → has_core n used ≡ false
unfolding minus_ints has_core
has_core-minus_ints n [] used h = cc h
has_core-minus_ints n (x ∷ xs) used h = elim (Bool-cases (x == n)) [
  | inl e ↦ elim (Bool-cases (has_core x used)) [
    | inl u ↦ has_core-minus_ints n xs used (ground arith)
    | inr u ↦ subst (λ k. has_core k used ≡ false) (eq_sound x n e) u
  ]
  | inr e ↦ has_core-minus_ints n xs used (ground arith)
]

has_core-take : (n k : ℕ) (xs : List ℕ) → has_core n (take k xs) ≡ true → has_core n xs ≡ true
unfolding has_core
has_core-take n zero xs h = ground arith
has_core-take n (suc k) [] h = h
has_core-take n (suc k) (x ∷ xs) h = ground (arith, has_core-take n k xs)

-- Each core is counted at most once, over the VMs and the cores that are kept for VPP.
abbrev IsExclusive : List ℕ → ℕ → Allocation → Type 0
IsExclusive reserved n a =
    owners n a.vm_cores + one_if (has_core n reserved) ≤ one_if (has_core n a.used)

has_core-take_cores :
    (n : ℕ) (vm : VmFunction) (w : Option ℕ) (cs : List ℕ)
    → has_core n (take_cores vm w cs).0 ≡ true
    → has_core n cs ≡ true
unfolding has_core
has_core-take_cores n vm w cs h = ground (arith, has_core-take n vm.vcpu.count cs)

-- What `allocateCores` gives out was not in use.
has_core-allocate_cores :
    (n : ℕ) (setup : Option CpuSetup) (isolated : List ℕ) (vm : VmFunction) (used : List ℕ)
    → has_core n (allocate_cores setup isolated vm used).0 ≡ true
    → has_core n used ≡ false
unfolding allocate_cores
has_core-allocate_cores n setup isolated vm used h =
    let offer = offered (node_of setup vm.memory.numa_node) isolated in
    has_core-minus_ints n offer.0 used
      (has_core-take_cores n vm offer.1 (minus_ints offer.0 used) h)

-- Cores that were not in use stay exclusive where a VM gets them.
given-exclusive :
    (n held reserved : ℕ) (cores used : List ℕ)
    → (has_core n cores ≡ true → has_core n used ≡ false)
    → held + reserved ≤ one_if (has_core n used)
    → (one_if (has_core n cores) + held) + reserved ≤ one_if (has_core n (cores ++ used))
given-exclusive n held reserved cores used f h = elim (Bool-cases (has_core n cores)) [
  | inl p ↦ ground (arith, f p, has_core-append n cores used)
  | inr p ↦ ground (arith, has_core-append n cores used)
]

pin_cores-IsExclusive :
    (reserved : List ℕ) (n : ℕ) (setup : Option CpuSetup) (isolated : List ℕ) (vm : VmFunction)
    (a : Allocation)
    → IsExclusive reserved n a
    → IsExclusive reserved n (pin_cores setup isolated vm a)
unfolding pin_cores
pin_cores-IsExclusive reserved n setup isolated vm a h =
    elim (Bool-cases (ltb 0 vm.vcpu.count && pinned vm.vcpu.pin)) [
      | inr p ↦ rw p h
      | inl p ↦
          let cores = (allocate_cores setup isolated vm a.used).0 in
          rw p (
            omega (
              arith,
              given-exclusive n (owners n a.vm_cores) (one_if (has_core n reserved)) cores a.used
                  (has_core-allocate_cores n setup isolated vm a.used) h,
              owners-filter n (λ q. not (str_eq q.0 vm.name)) a.vm_cores,
            ))
    ]

module _ (equal_fold : String → String → Bool) (parse_cores : String → Option (List ℕ)) where
  allocate_all-IsExclusive :
      (reserved : List ℕ) (n : ℕ) (c : Config) (isolated : List ℕ) (vms : List VmFunction)
      (a : Allocation)
      → IsExclusive reserved n a
      → IsExclusive reserved n (allocate_all equal_fold parse_cores c isolated vms a)
  unfolding allocate_all
  allocate_all-IsExclusive reserved n c isolated [] a h = h
  allocate_all-IsExclusive reserved n c isolated (vm ∷ vms) a h =
      allocate_all-IsExclusive reserved n c isolated vms _
        (pin_cores-IsExclusive reserved n (cpu_setup c.resource_pools) isolated vm _ h)

  one_if-le : (b : Bool) → one_if b ≤ 1
  one_if-le true = omega arith
  one_if-le false = omega arith

  -- No core is given out twice: whatever configuration is allocated, valid or not, each core belongs
  -- to at most one VM of the ledger, and to none if it is kept for VPP.
  pub allocate_exclusive :
      (c : Config) (n : ℕ)
      → let l = new_pool_ledger equal_fold parse_cores c in
        let l' = (allocate equal_fold parse_cores l c).0 in
        owners n l'.cpu.vm_cores + one_if (has_core n l.cpu.vpp_reserved) ≤ 1
  unfolding allocate new_pool_ledger
  allocate_exclusive c n =
      let l = new_pool_ledger equal_fold parse_cores c in
      let a =
        allocate_all equal_fold parse_cores c l.cpu.isolated (sort_vms c.virtual_machine_functions)
          (opening l) in
      omega (
        arith,
        allocate_all-IsExclusive l.cpu.vpp_reserved n c l.cpu.isolated
            (sort_vms c.virtual_machine_functions) (opening l) (omega arith),
        one_if-le (has_core n a.used),
      )
