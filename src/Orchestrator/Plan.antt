-- ===== src/Orchestrator/Plan.antt =====
-- `plan` (internal/orchestrator/apply.go): the operations that lead from one configuration to another.
-- A loop over a Go map has no order in the source; it takes that of the configuration here.
use nfvis.Prelude.{ℕ, String, Bool, false, Option, List, [], ◌∷◌, ◌++◌, any, filter}
use nfvis.Model.{
  Config, Acl, Bond, ContainerFunction, InterfaceConfig, PortMirroring, QosPolicy, VirtualSwitch,
  VmFunction, Vrf, Acl_discrete, Bond_discrete, ContainerFunction_discrete,
  InterfaceConfig_discrete, PortMirroring_discrete, QosPolicy_discrete, VirtualSwitch_discrete,
  VmFunction_discrete, Vrf_discrete,
}
use nfvis.Resources.Ledger.{allocation_for}
use nfvis.Orchestrator.Ports.{Paths, VnfPort, VnfPort_discrete, vnf_ports_of, switch_members_of}
use nfvis.Orchestrator.Actions.{
  Action, Step, apply_vnf_interface, delete_vnf_interface, apply_acl, delete_acl, apply_bond,
  delete_bond, apply_bridge_domain, delete_bridge_domain, apply_vrf, delete_vrf, apply_span,
  delete_span, apply_qos, delete_qos, define_vm, delete_vm, apply_container, delete_container,
  refuse, nothing,
}
use nfvis.Orchestrator.Steps.{
  has_name, by_name, applies, deletes, labelled, undo_of, delete_op, compensated, port_key,
  acl_step, bond_step, switch_step, vrf_step, span_step, qos_step, container_step, port_step,
  interface_step, dpdk_managed, nat_steps, lldp_steps, is_l2, route_steps,
}

-- What the plan is computed with: the socket directories, `strings.EqualFold` and `parseCoreList`.
pub record Site : Type 0 where
  pub paths : Paths
  pub equal_fold : String → String → Bool
  pub parse_cores : String → Option (List ℕ)

abbrev pub acl_name : Acl → String
acl_name x = x.name

abbrev pub bond_name : Bond → String
bond_name x = x.name

abbrev pub switch_name : VirtualSwitch → String
switch_name x = x.name

abbrev pub vrf_name : Vrf → String
vrf_name x = x.name

abbrev pub span_name : PortMirroring → String
span_name x = x.name

abbrev pub qos_name : QosPolicy → String
qos_name x = x.name

abbrev pub interface_name : InterfaceConfig → String
interface_name x = x.name

abbrev pub vm_name : VmFunction → String
vm_name x = x.name

abbrev pub container_name : ContainerFunction → String
container_name x = x.name

abbrev pub joined : List (List Step) → List Step
joined [] = []
joined (b ∷ bs) = b ++ joined bs

abbrev pub refusal : List VnfPort → Step
refusal lost = record {
  desc = "vnf-vswitch-refs";
  run = refuse lost;
  undo = nothing;
  compensate_on_fail = false;
}

module _ (site : Site) where
  -- `DefineVM` with the resources that the configuration gives the VM.
  abbrev define_in : Config → VmFunction → Action
  define_in c vm = define_vm vm (allocation_for site.equal_fold site.parse_cores c vm)

  abbrev pub vm_step : Config → Config → VmFunction → Option VmFunction → Step
  vm_step old new x o = record {
    desc = labelled "vm" x.name;
    run = define_in new x;
    undo = undo_of (define_in old) (delete_vm x.name) o;
    compensate_on_fail = false;
  }

  abbrev pub members : Config → List VirtualSwitch
  members c = (switch_members_of site.paths c).0

  abbrev pub ports : Config → List VnfPort
  ports c = vnf_ports_of site.paths c

  -- New and changed objects, the referenced before the referring.
  unfoldable pub additions : Config → Config → List (List Step)
  unfolding applies nat_steps lldp_steps dpdk_managed vnf_ports_of switch_members_of
  additions old new =
      applies port_key VnfPort_discrete port_step (ports old) (ports new)
      ∷ applies acl_name Acl_discrete acl_step old.acls new.acls
      ∷ applies bond_name Bond_discrete bond_step old.bonds new.bonds
      ∷ applies switch_name VirtualSwitch_discrete switch_step (members old)
          (filter is_l2 (members new))
      ∷ applies vrf_name Vrf_discrete vrf_step old.vrfs new.vrfs
      ∷ nat_steps old.nat new.nat
      ∷ applies span_name PortMirroring_discrete span_step old.port_mirroring new.port_mirroring
      ∷ applies qos_name QosPolicy_discrete qos_step old.qos_policies new.qos_policies
      ∷ lldp_steps old.protocols new.protocols
      ∷ applies interface_name InterfaceConfig_discrete (interface_step (dpdk_managed new.vpp))
          old.interfaces new.interfaces
      ∷ applies vm_name VmFunction_discrete (vm_step old new) old.virtual_machine_functions
          new.virtual_machine_functions
      ∷ applies container_name ContainerFunction_discrete container_step old.container_functions
          new.container_functions
      ∷ []

  abbrev pub delete_container_step : ContainerFunction → Step
  delete_container_step x =
      delete_op (labelled "del-container" x.name) apply_container (delete_container x.name) x

  abbrev pub delete_vm_step : Config → VmFunction → Step
  delete_vm_step old x = delete_op (labelled "del-vm" x.name) (define_in old) (delete_vm x.name) x

  abbrev pub delete_switch_step : VirtualSwitch → Step
  delete_switch_step x =
      delete_op (labelled "del-bridge-domain" x.name) apply_bridge_domain
        (delete_bridge_domain x.name) x

  abbrev pub delete_vrf_step : Vrf → Step
  delete_vrf_step x =
      compensated (delete_op (labelled "del-vrf" x.name) apply_vrf (delete_vrf x.name) x)

  abbrev pub delete_bond_step : Bond → Step
  delete_bond_step x = delete_op (labelled "del-bond" x.name) apply_bond (delete_bond x.name) x

  abbrev pub delete_port_step : VnfPort → Step
  delete_port_step x =
      delete_op (labelled "del-vnf-if" (port_key x)) apply_vnf_interface
        (delete_vnf_interface x.vm x.interface) x

  abbrev pub delete_span_step : PortMirroring → Step
  delete_span_step x = delete_op (labelled "del-span" x.name) apply_span (delete_span x.name) x

  abbrev pub delete_qos_step : QosPolicy → Step
  delete_qos_step x = delete_op (labelled "del-qos" x.name) apply_qos (delete_qos x.name) x

  abbrev pub delete_acl_step : Acl → Step
  delete_acl_step x = delete_op (labelled "del-acl" x.name) apply_acl (delete_acl x.name) x

  -- Objects that are gone, the referring before the referenced.
  unfoldable pub removals : Config → Config → List (List Step)
  unfolding deletes by_name any route_steps vnf_ports_of switch_members_of
  removals old new =
      deletes container_name delete_container_step (by_name container_name old.container_functions)
        (λ n. has_name container_name n new.container_functions)
      ∷ deletes vm_name (delete_vm_step old) (by_name vm_name old.virtual_machine_functions)
          (λ n. has_name vm_name n new.virtual_machine_functions)
      ∷ deletes switch_name delete_switch_step (filter is_l2 (by_name switch_name (members old)))
          (λ n. has_name switch_name n new.virtual_switches)
      ∷ route_steps old.vrfs new.vrfs
      ∷ deletes vrf_name delete_vrf_step (by_name vrf_name old.vrfs)
          (λ n. has_name vrf_name n new.vrfs)
      ∷ deletes bond_name delete_bond_step (by_name bond_name old.bonds)
          (λ n. has_name bond_name n new.bonds)
      ∷ deletes port_key delete_port_step (ports old) (λ n. has_name port_key n (ports new))
      ∷ deletes span_name delete_span_step old.port_mirroring
          (λ n. has_name span_name n new.port_mirroring)
      ∷ deletes qos_name delete_qos_step old.qos_policies
          (λ n. has_name qos_name n new.qos_policies)
      ∷ deletes acl_name delete_acl_step old.acls (λ n. has_name acl_name n new.acls)
      ∷ []

  abbrev pub plan_unless : List VnfPort → Config → Config → List Step
  plan_unless [] old new = joined (additions old new ++ removals old new)
  plan_unless (p ∷ ps) old new = refusal (p ∷ ps) ∷ []

  -- `plan`: a port whose switch is missing refuses the whole change.
  unfoldable pub plan : Config → Config → List Step
  unfolding additions removals
  plan old new = plan_unless (switch_members_of site.paths new).1 old new
