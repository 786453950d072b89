-- ===== src/Engine/Checks.antt =====
-- The checks and warnings of a commit (internal/config/engine.go): images, NUMA placement, tables
-- that NAT keeps in the data plane, and changes of the management port.
use nfvis.Prelude.{
  ℕ, String, Bool, not, ◌&&◌, Option, none, some, List, [], ◌∷◌, ◌++◌, map, ◌==◌, str_eq, ◌+++◌,
  if◌then◌else◌, any, flat_map, find_last, holds,
}
use nfvis.Model.{
  Config, SystemConfig, MgmtConfig, NatConfig, NatRule, Vrf, VnfInterface, VmFunction,
  ValidateError, image_missing, image_type, MgmtConfig_discrete,
}
use nfvis.Engine.Types.{ImageResolver, Warning, numa_mismatch}

-- One call of the closure `check` of `checkImages`.
abbrev pub check_image : ImageResolver → String → String → String → List ValidateError
check_image images image want path = elim (images.lookup image) [
  | none ↦ record { path = path; message = image_missing image want images.names } ∷ []
  | some info ↦
      if str_eq info.type want
      then []
      else record { path = path; message = image_type want info.type } ∷ []
]

abbrev pub check_used : ImageResolver → String → String → String → List ValidateError
check_used images image want path =
    if str_eq image "" then [] else check_image images image want path

unfoldable pub check_images : ImageResolver → Config → List ValidateError
check_images images c =
    flat_map
      (λ vm.
        check_used images vm.image "vm-image"
          ("virtual-machine-functions[" +++ vm.name +++ "].image"))
      c.virtual_machine_functions
    ++ flat_map
        (λ ct.
          check_used images ct.image "container-image"
            ("container-functions[" +++ ct.name +++ "].image"))
        c.container_functions

abbrev mgmt_of : Option SystemConfig → Option MgmtConfig
mgmt_of none = none
mgmt_of (some s) = s.management

-- `sysMgmtChanged`.
unfoldable pub sys_mgmt_changed : Option SystemConfig → Option SystemConfig → Bool
sys_mgmt_changed old new = not (holds (MgmtConfig_discrete (mgmt_of old) (mgmt_of new)))

abbrev nat_rules : Option NatConfig → List NatRule
nat_rules none = []
nat_rules (some n) = n.rules

-- The VRF that owns an interface; a later entry overrides an earlier one.
abbrev owner_of : List Vrf → String → Option (String × String)
owner_of vrfs iface =
    find_last (λ p. str_eq p.0 iface)
      (flat_map (λ v. map (λ li. (li.interface, v.name)) v.l3_interfaces) vrfs)

abbrev rule_refs : List Vrf → NatRule → List String
rule_refs vrfs r =
    (if str_eq r.virtual_switch "" then [] else r.virtual_switch ∷ [])
    ++ elim (owner_of vrfs r.action.interface) [ none ↦ [] | some p ↦ p.1 ∷ [] ]

-- `deletedNatRefVRFs`; with no VRF or no rule the list is empty too.
unfoldable pub deleted_nat_ref_vrfs : Config → Config → List String
unfolding any
deleted_nat_ref_vrfs old new =
    let refs = flat_map (rule_refs old.vrfs) (nat_rules old.nat) in
    flat_map
      (λ v.
        if any (str_eq v.name) refs && not (any (λ k. str_eq k.name v.name) new.vrfs)
        then v.name ∷ []
        else [])
      old.vrfs

-- `ifaceByVM`: a switch and the last physical port that it declares.
abbrev switch_ports : Config → List (String × String)
switch_ports c =
    flat_map
      (λ vs.
        flat_map (λ p. if str_eq p.interface "" then [] else (vs.name, p.interface) ∷ []) vs.ports)
      c.virtual_switches

abbrev port_of : List (String × String) → String → String
port_of ports vs = elim (find_last (λ p. str_eq p.0 vs) ports) [ none ↦ "" | some p ↦ p.1 ]

abbrev iface_of_nic : List (String × String) → VnfInterface → String
iface_of_nic ports nic = elim nic.sriov [
  | none ↦ port_of ports nic.virtual_switch
  | some b ↦
      if str_eq nic.type "sriov-vf" then b.physical_interface else port_of ports nic.virtual_switch
]

abbrev numa_of_nic : (String → Option ℕ) → String → VnfInterface → String → ℕ → List Warning
numa_of_nic topology vm nic iface node = if str_eq iface "" then [] else elim (topology iface) [
  | none ↦ []
  | some numa ↦ if numa == node then [] else numa_mismatch vm nic.name iface numa node ∷ []
]

abbrev numa_of_vm : (String → Option ℕ) → List (String × String) → VmFunction → List Warning
numa_of_vm topology ports vm = elim vm.memory.numa_node [
  | none ↦ []
  | some node ↦
      flat_map (λ nic. numa_of_nic topology vm.name nic (iface_of_nic ports nic) node) vm.interfaces
]

-- `numaWarnings`; a nil topology reader gives none.
unfoldable pub numa_warnings : Option (String → Option ℕ) → Config → List Warning
numa_warnings none new = []
numa_warnings (some topology) new =
    flat_map (numa_of_vm topology (switch_ports new)) new.virtual_machine_functions
