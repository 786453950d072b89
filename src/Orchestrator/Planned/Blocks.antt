-- ===== src/Orchestrator/Planned/Blocks.antt =====
-- A plan as blocks of operations of one kind each, under increasing ranks.
use nfvis.Prelude.{
  ℕ, suc, Bool, Option, none, some, List, [], ◌∷◌, ◌++◌, ◌≡◌, refl, All, map, filter, Bool-cases,
  inl, inr, holds, String,
}
use nfvis.Model.{
  Config, NatConfig, ProtocolsConfig, NatConfig_discrete, ProtocolsConfig_discrete, Vrf, Route,
  Acl_discrete, Bond_discrete, ContainerFunction_discrete, InterfaceConfig_discrete,
  PortMirroring_discrete, QosPolicy_discrete, VirtualSwitch_discrete, VmFunction_discrete,
  Vrf_discrete,
}
use nfvis.Orchestrator.Actions.{
  Action, Step, apply_vnf_interface, delete_vnf_interface, apply_acl, delete_acl, apply_bond,
  delete_bond, apply_bridge_domain, delete_bridge_domain, apply_vrf, delete_vrf, apply_route,
  delete_route, apply_nat, apply_span, delete_span, apply_qos, delete_qos, apply_lldp,
  apply_interface, define_vm, delete_vm, apply_container, delete_container, refuse, nothing,
}
use nfvis.Orchestrator.Steps.{
  step_if_changed, applies, deletes, nat_steps, lldp_steps, route_steps, route_step, has_name,
  by_name, port_key, dpdk_managed, is_l2, acl_step, bond_step, switch_step, vrf_step, span_step,
  qos_step, container_step, port_step, interface_step,
}
use nfvis.Orchestrator.Ports.{VnfPort_discrete}
use nfvis.Orchestrator.Plan.{
  Site, additions, removals, acl_name, bond_name, container_name, delete_acl_step, delete_bond_step,
  delete_container_step, delete_port_step, delete_qos_step, delete_span_step, delete_switch_step,
  delete_vm_step, delete_vrf_step, interface_name, members, ports, qos_name, span_name, switch_name,
  vm_name, vm_step, vrf_name,
}

-- The block of a plan that a call stands in.
abbrev pub rank : Action → ℕ
rank (apply_vnf_interface p) = 0
rank (apply_acl x) = 1
rank (apply_bond x) = 2
rank (apply_bridge_domain x) = 3
rank (apply_vrf x) = 4
rank (apply_nat x) = 5
rank (apply_span x) = 6
rank (apply_qos x) = 7
rank (apply_lldp x) = 8
rank (apply_interface d x) = 9
rank (define_vm x r) = 10
rank (apply_container x) = 11
rank (delete_container n) = 12
rank (delete_vm n) = 13
rank (delete_bridge_domain n) = 14
rank (delete_route n r) = 15
rank (delete_vrf n) = 16
rank (delete_bond n) = 17
rank (delete_vnf_interface v n) = 18
rank (delete_span n) = 19
rank (delete_qos n) = 20
rank (delete_acl n) = 21
rank (apply_route n r) = 22
rank (refuse ps) = 23
rank nothing = 24

abbrev HasRank : ℕ → Step → Type 0
HasRank k s = rank s.run ≡ k

abbrev pub IsRanked : ℕ → List Step → Type 0
IsRanked k b = All (HasRank k) b

-- The blocks have the ranks k, k + 1, … in this order.
abbrev pub AreRanked : ℕ → List (List Step) → Type 0
AreRanked k [] = Unit
AreRanked k (b ∷ bs) = IsRanked k b × AreRanked (suc k) bs

module _ (P : Step → Type 0) where
  All-append : (xs ys : List Step) → All P xs → All P ys → All P (xs ++ ys)
  All-append [] ys h k = k
  All-append (x ∷ xs) ys (p, h) k = (p, All-append xs ys h k)

  module _ {T : Type 0} (name : T → String) where
    All-step_if_changed :
        (eq : Discrete T) (mk : T → Option T → Step)
        → ((x : T) (o : Option T) → P (mk x o))
        → (o : Option T) (x : T) → All P (step_if_changed name eq mk o x)
    All-step_if_changed eq mk h none x = (h x none, tt)
    All-step_if_changed eq mk h (some o) x = elim (Bool-cases (holds (eq o x))) [
      | inl e ↦ rw e tt
      | inr e ↦ rw e (h x (some o), tt)
    ]

    All-applies :
        (eq : Discrete T) (mk : T → Option T → Step) (olds news : List T)
        → ((x : T) (o : Option T) → P (mk x o))
        → All P (applies name eq mk olds news)
    unfolding applies
    All-applies eq mk olds [] h = tt
    All-applies eq mk olds (x ∷ xs) h =
        All-append _ _ (All-step_if_changed eq mk h _ x) (All-applies eq mk olds xs h)

    All-deletes :
        (mk : T → Step) (olds : List T) (taken : String → Bool)
        → ((x : T) → P (mk x))
        → All P (deletes name mk olds taken)
    unfolding deletes
    All-deletes mk [] taken h = tt
    All-deletes mk (x ∷ xs) taken h = elim (Bool-cases (taken (name x))) [
      | inl e ↦ rw e (All-deletes mk xs taken h)
      | inr e ↦ rw e (h x, All-deletes mk xs taken h)
    ]

nat_steps-IsRanked : (o n : Option NatConfig) → IsRanked 5 (nat_steps o n)
unfolding nat_steps
nat_steps-IsRanked o n = elim (Bool-cases (holds (NatConfig_discrete o n))) [
  | inl e ↦ rw e tt
  | inr e ↦ rw e (refl, tt)
]

lldp_steps-IsRanked : (o n : Option ProtocolsConfig) → IsRanked 8 (lldp_steps o n)
unfolding lldp_steps
lldp_steps-IsRanked o n = elim (Bool-cases (holds (ProtocolsConfig_discrete o n))) [
  | inl e ↦ rw e tt
  | inr e ↦ rw e (refl, tt)
]

routes-IsRanked : (v : String) (rs : List Route) → IsRanked 15 (map (route_step v) rs)
routes-IsRanked v [] = tt
routes-IsRanked v (r ∷ rs) = (refl, routes-IsRanked v rs)

route_steps-IsRanked : (olds news : List Vrf) → IsRanked 15 (route_steps olds news)
unfolding route_steps
route_steps-IsRanked [] news = tt
route_steps-IsRanked (o ∷ os) news =
    All-append _ _ _ (routes-IsRanked o.name _) (route_steps-IsRanked os news)

module _ (site : Site) where
  pub blocks-AreRanked :
      (old new : Config) → AreRanked 0 (additions site old new ++ removals site old new)
  unfolding additions removals
  blocks-AreRanked old new = (
    All-applies (HasRank 0) port_key VnfPort_discrete port_step (ports site old) (ports site new)
        (λ x o. refl),
    (
      All-applies (HasRank 1) acl_name Acl_discrete acl_step old.acls new.acls (λ x o. refl),
      (
        All-applies (HasRank 2) bond_name Bond_discrete bond_step old.bonds new.bonds (λ x o. refl),
        (
          All-applies (HasRank 3) switch_name VirtualSwitch_discrete switch_step (members site old)
              (filter is_l2 (members site new)) (λ x o. refl),
          (
            All-applies (HasRank 4) vrf_name Vrf_discrete vrf_step old.vrfs new.vrfs (λ x o. refl),
            (
              nat_steps-IsRanked old.nat new.nat,
              (
                All-applies (HasRank 6) span_name PortMirroring_discrete span_step
                    old.port_mirroring new.port_mirroring (λ x o. refl),
                (
                  All-applies (HasRank 7) qos_name QosPolicy_discrete qos_step old.qos_policies
                      new.qos_policies (λ x o. refl),
                  (
                    lldp_steps-IsRanked old.protocols new.protocols,
                    (
                      All-applies (HasRank 9) interface_name InterfaceConfig_discrete
                          (interface_step (dpdk_managed new.vpp)) old.interfaces new.interfaces
                          (λ x o. refl),
                      (
                        All-applies (HasRank 10) vm_name VmFunction_discrete (vm_step site old new)
                            old.virtual_machine_functions new.virtual_machine_functions
                            (λ x o. refl),
                        (
                          All-applies (HasRank 11) container_name ContainerFunction_discrete
                              container_step old.container_functions new.container_functions
                              (λ x o. refl),
                          (
                            All-deletes (HasRank 12) container_name (delete_container_step site)
                                (by_name container_name old.container_functions)
                                (λ n. has_name container_name n new.container_functions)
                                (λ x. refl),
                            (
                              All-deletes (HasRank 13) vm_name (delete_vm_step site old)
                                  (by_name vm_name old.virtual_machine_functions)
                                  (λ n. has_name vm_name n new.virtual_machine_functions)
                                  (λ x. refl),
                              (
                                All-deletes (HasRank 14) switch_name (delete_switch_step site)
                                    (filter is_l2 (by_name switch_name (members site old)))
                                    (λ n. has_name switch_name n new.virtual_switches) (λ x. refl),
                                (
                                  route_steps-IsRanked old.vrfs new.vrfs,
                                  (
                                    All-deletes (HasRank 16) vrf_name (delete_vrf_step site)
                                        (by_name vrf_name old.vrfs)
                                        (λ n. has_name vrf_name n new.vrfs) (λ x. refl),
                                    (
                                      All-deletes (HasRank 17) bond_name (delete_bond_step site)
                                          (by_name bond_name old.bonds)
                                          (λ n. has_name bond_name n new.bonds) (λ x. refl),
                                      (
                                        All-deletes (HasRank 18) port_key (delete_port_step site)
                                            (ports site old)
                                            (λ n. has_name port_key n (ports site new)) (λ x. refl),
                                        (
                                          All-deletes (HasRank 19) span_name (delete_span_step site)
                                              old.port_mirroring
                                              (λ n. has_name span_name n new.port_mirroring)
                                              (λ x. refl),
                                          (
                                            All-deletes (HasRank 20) qos_name (delete_qos_step site)
                                                old.qos_policies
                                                (λ n. has_name qos_name n new.qos_policies)
                                                (λ x. refl),
                                            (
                                              All-deletes (HasRank 21) acl_name
                                                  (delete_acl_step site) old.acls
                                                  (λ n. has_name acl_name n new.acls) (λ x. refl),
                                              tt,
                                            ),
                                          ),
                                        ),
                                      ),
                                    ),
                                  ),
                                ),
                              ),
                            ),
                          ),
                        ),
                      ),
                    ),
                  ),
                ),
              ),
            ),
          ),
        ),
      ),
    ),
  )
