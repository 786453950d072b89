-- ===== src/Orchestrator/Planned/Objects.antt =====
-- What the calls of a plan put into the data plane and take out of it, kind by kind.
use nfvis.Prelude.{ℕ, String, ◌+++◌, Bool, false, ◌==◌, ◌||◌, Option, none, some, ◌≡◌, refl}
use nfvis.Model.{Acl, Bond, ContainerFunction, PortMirroring, QosPolicy, VmFunction}
use nfvis.Orchestrator.Ports.{VnfPort}
use nfvis.Orchestrator.Steps.{port_key}
use nfvis.Orchestrator.Actions.{
  Action, apply_vnf_interface, delete_vnf_interface, apply_acl, delete_acl, apply_bond, delete_bond,
  apply_span, delete_span, apply_qos, delete_qos, define_vm, delete_vm, apply_container,
  delete_container,
}
use nfvis.Orchestrator.Planned.Blocks.{rank}

abbrev pub port_view : Action → Option (String × Option VnfPort)
port_view (apply_vnf_interface x) = some (port_key x, some x)
port_view (delete_vnf_interface v n) = some (v +++ "/" +++ n, none)
port_view a = none

abbrev pub port_rank : ℕ → Bool
port_rank k = k == 0 || k == 18

pub port_hidden : (a : Action) → port_rank (rank a) ≡ false → port_view a ≡ none
port_hidden (apply_vnf_interface x) h = cc h
port_hidden (delete_vnf_interface v n) h = cc h
port_hidden a h = refl

abbrev pub acl_view : Action → Option (String × Option Acl)
acl_view (apply_acl x) = some (x.name, some x)
acl_view (delete_acl n) = some (n, none)
acl_view a = none

abbrev pub acl_rank : ℕ → Bool
acl_rank k = k == 1 || k == 21

pub acl_hidden : (a : Action) → acl_rank (rank a) ≡ false → acl_view a ≡ none
acl_hidden (apply_acl x) h = cc h
acl_hidden (delete_acl n) h = cc h
acl_hidden a h = refl

abbrev pub bond_view : Action → Option (String × Option Bond)
bond_view (apply_bond x) = some (x.name, some x)
bond_view (delete_bond n) = some (n, none)
bond_view a = none

abbrev pub bond_rank : ℕ → Bool
bond_rank k = k == 2 || k == 17

pub bond_hidden : (a : Action) → bond_rank (rank a) ≡ false → bond_view a ≡ none
bond_hidden (apply_bond x) h = cc h
bond_hidden (delete_bond n) h = cc h
bond_hidden a h = refl

abbrev pub span_view : Action → Option (String × Option PortMirroring)
span_view (apply_span x) = some (x.name, some x)
span_view (delete_span n) = some (n, none)
span_view a = none

abbrev pub span_rank : ℕ → Bool
span_rank k = k == 6 || k == 19

pub span_hidden : (a : Action) → span_rank (rank a) ≡ false → span_view a ≡ none
span_hidden (apply_span x) h = cc h
span_hidden (delete_span n) h = cc h
span_hidden a h = refl

abbrev pub qos_view : Action → Option (String × Option QosPolicy)
qos_view (apply_qos x) = some (x.name, some x)
qos_view (delete_qos n) = some (n, none)
qos_view a = none

abbrev pub qos_rank : ℕ → Bool
qos_rank k = k == 7 || k == 20

pub qos_hidden : (a : Action) → qos_rank (rank a) ≡ false → qos_view a ≡ none
qos_hidden (apply_qos x) h = cc h
qos_hidden (delete_qos n) h = cc h
qos_hidden a h = refl

abbrev pub vm_view : Action → Option (String × Option VmFunction)
vm_view (define_vm x r) = some (x.name, some x)
vm_view (delete_vm n) = some (n, none)
vm_view a = none

abbrev pub vm_rank : ℕ → Bool
vm_rank k = k == 10 || k == 13

pub vm_hidden : (a : Action) → vm_rank (rank a) ≡ false → vm_view a ≡ none
vm_hidden (define_vm x r) h = cc h
vm_hidden (delete_vm n) h = cc h
vm_hidden a h = refl

abbrev pub container_view : Action → Option (String × Option ContainerFunction)
container_view (apply_container x) = some (x.name, some x)
container_view (delete_container n) = some (n, none)
container_view a = none

abbrev pub container_rank : ℕ → Bool
container_rank k = k == 11 || k == 12

pub container_hidden : (a : Action) → container_rank (rank a) ≡ false → container_view a ≡ none
container_hidden (apply_container x) h = cc h
container_hidden (delete_container n) h = cc h
container_hidden a h = refl
