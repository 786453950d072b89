-- ===== src/Orchestrator/Actions.antt =====
-- The calls of the providers that a plan is made of (internal/orchestrator/provider.go, apply.go).
use nfvis.Prelude.{String, Bool, true, Option, none, some, List, ◌∷◌}
use nfvis.Model.{
  Acl, Bond, ContainerFunction, InterfaceConfig, LldpConfig, NatConfig, PortMirroring, QosPolicy,
  Route, VirtualSwitch, VmFunction, Vrf,
}
use nfvis.Resources.Ledger.{AllocatedResources}
use nfvis.Orchestrator.Executor.{Op}
use nfvis.Orchestrator.Ports.{VnfPort}

-- The calls. `apply_interface` says whether the port is declared for DPDK; `refuse` is the error for
-- ports whose switch is missing, and `nothing` is an undo that does nothing.
pub data Action : Type 0 where
  apply_vnf_interface : VnfPort → Action
  delete_vnf_interface : String → String → Action
  apply_acl : Acl → Action
  delete_acl : String → Action
  apply_bond : Bond → Action
  delete_bond : String → Action
  apply_bridge_domain : VirtualSwitch → Action
  delete_bridge_domain : String → Action
  apply_vrf : Vrf → Action
  delete_vrf : String → Action
  apply_route delete_route : String → Route → Action
  apply_nat : NatConfig → Action
  apply_span : PortMirroring → Action
  delete_span : String → Action
  apply_qos : QosPolicy → Action
  delete_qos : String → Action
  apply_lldp : Option LldpConfig → Action
  apply_interface : Bool → InterfaceConfig → Action
  define_vm : VmFunction → AllocatedResources → Action
  delete_vm : String → Action
  apply_container : ContainerFunction → Action
  delete_container : String → Action
  refuse : List VnfPort → Action
  nothing : Action

-- An operation of the plan, with the calls as data.
pub record Step : Type 0 where
  pub desc : String
  pub run : Action
  pub undo : Action
  pub compensate_on_fail : Bool

-- The errors of the providers that the orchestrator tells apart.
pub data ProviderError : Type 0 where
  iface_unavailable l2_unavailable vrf_not_removed : String → ProviderError
  other_error : String → ProviderError

abbrev error_text : ProviderError → String
error_text (iface_unavailable t) = t
error_text (l2_unavailable t) = t
error_text (vrf_not_removed t) = t
error_text (other_error t) = t

-- What a call leaves to be done when the data plane starts again.
pub data Note : Type 0 where
  interface_deferred : String → Note
  vrf_deferred vrf_deleted : String → Note

-- The data plane, and the warnings and alarms of calls that were put off, newest first.
pub record Deferred (P : Type 0) : Type 0 where
  pub plane : P
  pub notes : List Note

module _ {P : Type 0} where
  -- `ifaceApply`: a port for DPDK that is not in the data plane yet is put off.
  abbrev interface_result :
      Bool → InterfaceConfig → P × Option ProviderError → List Note → Deferred P × Option String
  interface_result dpdk i (p, none) notes = (record { plane = p; notes = notes }, none)
  interface_result true i (p, some (iface_unavailable t)) notes =
      (record { plane = p; notes = interface_deferred i.name ∷ notes }, none)
  interface_result true i (p, some (l2_unavailable t)) notes =
      (record { plane = p; notes = interface_deferred i.name ∷ notes }, none)
  interface_result dpdk i (p, some e) notes =
      (record { plane = p; notes = notes }, some (error_text e))

  -- `deleteVRF`: a table that the data plane keeps is put off.
  abbrev vrf_result : String → P × Option ProviderError → List Note → Deferred P × Option String
  vrf_result name (p, none) notes = (record { plane = p; notes = vrf_deleted name ∷ notes }, none)
  vrf_result name (p, some (vrf_not_removed t)) notes =
      (record { plane = p; notes = vrf_deferred name ∷ notes }, none)
  vrf_result name (p, some e) notes = (record { plane = p; notes = notes }, some (error_text e))

  abbrev plain_result : P × Option ProviderError → List Note → Deferred P × Option String
  plain_result (p, none) notes = (record { plane = p; notes = notes }, none)
  plain_result (p, some e) notes = (record { plane = p; notes = notes }, some (error_text e))

  -- A call as the plan makes it; `perform` is the providers.
  unfoldable pub carry_out :
      (Action → P → P × Option ProviderError) → Action → Deferred P → Deferred P × Option String
  carry_out perform nothing d = (d, none)
  carry_out perform (apply_interface dpdk i) d =
      interface_result dpdk i (perform (apply_interface dpdk i) d.plane) d.notes
  carry_out perform (delete_vrf name) d =
      vrf_result name (perform (delete_vrf name) d.plane) d.notes
  carry_out perform a d = plain_result (perform a d.plane) d.notes

  unfoldable pub op_of : (Action → P → P × Option ProviderError) → Step → Op (Deferred P)
  unfolding carry_out
  op_of perform s = record {
    desc = s.desc;
    run = carry_out perform s.run;
    undo = carry_out perform s.undo;
    compensate_on_fail = s.compensate_on_fail;
  }
