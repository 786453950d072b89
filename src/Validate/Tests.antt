-- ===== src/Validate/Tests.antt =====
-- A small network.
use nfvis.Prelude.{String, ◌+++◌, true, false, none, some, [], ◌∷◌, ◌≡◌, refl, any}
use nfvis.Model.{
  other, Config, Bond, InterfaceConfig, MgmtConfig, NatConfig, PortMirroring, SystemConfig,
  VirtualSwitch, VswitchPort,
}
use nfvis.Engine.Tests.Setup.{no_config, system_with}
use nfvis.Validate.Tables.{
  Texts, is_iface, is_vrf, is_acl, is_qos, any_iface, is_vm_vnic, is_ct_vnic, check_acl_ref,
  dup_from, is_vnic_name, l3_iface_exists,
}
use nfvis.Validate.Network.{
  check_interfaces, check_bonds, check_virtual_switches, check_vrfs, check_acls,
}
use nfvis.Validate.Services.{check_network}
use nfvis.Validate.Accepted.{IsAccepted, check_network-IsAccepted}
use nfvis.Validate.Ports.{
  conflict, counted, claim_all, check_port_role_exclusivity, check_management_isolation,
}
use nfvis.Validate.Roles.{used_ports}
use nfvis.Validate.Exclusive.{IsIsolated, check_ports-IsExclusive}
use nfvis.Orchestrator.Planned.Names.{IsUnique}

abbrev texts : Texts
texts = record {
  name_matches = λ s. true;
  port_matches = λ s. true;
  is_cidr = λ s. true;
  is_ip = λ s. true;
  cut_to = λ s. some (s, s);
  show = λ n. "n";
  before_dot = λ s. none;
  vnf_name = λ m n. m +++ n;
  memif_name = λ m n. m +++ n;
}

abbrev interface : String → InterfaceConfig
interface name = record {
  name = name;
  description = "";
  mtu = 1500;
  enabled = none;
  sriov = none;
  ingress_policy = "";
}

abbrev bond : Bond
bond = record { name = "bond0"; members = "ens1" ∷ []; lacp = none; mtu = 0; description = "" }

abbrev port : VswitchPort
port = record {
  seq = 0;
  interface = "bond0";
  vnf = "";
  vnf_interface = "";
  container = "";
  container_interface = "";
  trunk = 10 ∷ [];
  native = 0;
  acl_in = "";
  acl_out = "";
}

abbrev lan : VirtualSwitch
lan = record {
  name = "lan";
  type = "l2";
  description = "";
  vlan_access = 10;
  cross_connect = false;
  gateway = none;
  ports = port ∷ [];
}

abbrev mirror : PortMirroring
mirror = record {
  name = "tap";
  source = record { interface = "ens3"; vnf = ""; vnf_interface = ""; direction = "both" };
  analyzer = "ens4";
}

abbrev translation : NatConfig
translation = record {
  source_pools = record { name = "pool"; address_range = "10.0.0.2 to 10.0.0.9" } ∷ [];
  rules =
      record {
        seq = 10;
        match_source = "192.168.0.0/24";
        virtual_switch = "wan";
        action = record { source_pool = "pool"; interface = "ens2" };
      }
      ∷ [];
  static = [];
}

abbrev config : Config
config = record no_config {
  interfaces = interface "ens1" ∷ interface "ens2" ∷ interface "ens3" ∷ interface "ens4" ∷ [];
  bonds = bond ∷ [];
  virtual_switches =
      lan ∷ record lan { name = "wan"; type = "l3"; vlan_access = 0; ports = [] } ∷ [];
  nat = some translation;
  port_mirroring = mirror ∷ [];
  qos_policies = record { name = "slow"; cir = 1000; cbs = 100 } ∷ [];
  vrfs =
      record {
        name = "wan";
        description = "";
        l3_interfaces =
            record { interface = "ens2"; vlan = 0; addresses = "10.0.0.1/24" ∷ []; acl_in = "" }
            ∷ [];
        routes = [];
      }
      ∷ [];
}

check_network-IsAccepted_example : IsAccepted texts config
unfolding any is_iface is_vrf is_acl is_qos any_iface is_vm_vnic is_ct_vnic check_acl_ref dup_from
    is_vnic_name l3_iface_exists check_interfaces check_bonds check_virtual_switches check_vrfs
    check_acls check_network
check_network-IsAccepted_example = check_network-IsAccepted texts config refl

-- A bond over a port that is not declared is refused.
missing_member :
    check_bonds texts (record no_config { bonds = bond ∷ [] })
    ≡ record { path = "bonds[bond0].members"; message = other "成员口 %q 不是物理口" } ∷ []
unfolding any is_iface dup_from check_bonds
missing_member = refl

abbrev management : MgmtConfig
management = record { interface = "eth0"; address = ""; gateway = "" }

abbrev managed : SystemConfig
managed = record (system_with []) { management = some management }

check_ports-IsExclusive_example :
    IsUnique (λ n. n) (used_ports texts (record config { system = some managed }))
    × IsIsolated texts (record config { system = some managed }) "eth0"
unfolding any is_iface any_iface is_vnic_name l3_iface_exists counted claim_all
    check_port_role_exclusivity check_management_isolation
check_ports-IsExclusive_example =
    check_ports-IsExclusive texts (record config { system = some managed }) managed management refl
      refl refl refl refl

-- A port of a bond that a switch uses too is refused, and so is the port of the management.
port_of_two :
    check_port_role_exclusivity texts (record config {
      virtual_switches = record lan { ports = record port { interface = "ens1" } ∷ [] } ∷ [];
    })
    ≡ record { path = "virtual-switches[lan].ports[n].interface"; message = other conflict } ∷ []
unfolding any is_iface any_iface is_vnic_name l3_iface_exists claim_all check_port_role_exclusivity
port_of_two = refl
