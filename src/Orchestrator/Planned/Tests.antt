-- ===== src/Orchestrator/Planned/Tests.antt =====
-- Plans between small configurations.
use nfvis.Prelude.{String, ◌+++◌, false, none, some, [], ◌∷◌, ◌≡◌, refl, str_eq, any}
use nfvis.Model.{Config, Acl, VirtualSwitch, ContainerFunction, VnfInterface}
use nfvis.Engine.Tests.Setup.{no_config}
use nfvis.Orchestrator.Ports.{
  socket_path, vrf_for_switch, sort_ports, vnf_ports_of, vnic_port_key, vnic_key_of_port,
  place_port, place_ports, switch_members_of,
}
use nfvis.Orchestrator.Plan.{Site, plan}
use nfvis.Orchestrator.Planned.Views.{run_view}
use nfvis.Orchestrator.Planned.Sockets.{socket_path_shared}
use nfvis.Orchestrator.Planned.Switches.{switch_view, plan-spares_bridge_domain}

abbrev site : Site
site = record {
  paths = record { vhost_dir = "/vhost"; memif_dir = "/memif"; join = λ d f. d +++ "/" +++ f };
  equal_fold = str_eq;
  parse_cores = λ s. none;
}

abbrev acl : String → String → Acl
acl name text = record { name = name; description = text; rules = [] }

abbrev switch : String → VirtualSwitch
switch type = record {
  name = "lan";
  type = type;
  description = "";
  vlan_access = 0;
  cross_connect = false;
  gateway = none;
  ports = [];
}

abbrev nic : VnfInterface
nic = record {
  name = "eth0";
  type = "memif";
  virtual_switch = "lan";
  mac = "";
  vlan = 0;
  sriov = none;
}

abbrev probe : ContainerFunction
probe = record {
  name = "probe";
  description = "";
  image = "alpine";
  vcpu = 1;
  memory_mb = 64;
  interfaces = nic ∷ [];
  env = [];
  command = "";
  args = [];
  restart_policy = "no";
  autostart = false;
}

abbrev bare : Config
bare = record no_config { acls = acl "in" "old" ∷ acl "out" "old" ∷ [] }

abbrev full : Config
full = record no_config {
  acls = acl "in" "new" ∷ acl "dmz" "new" ∷ [];
  virtual_switches = switch "l2" ∷ [];
  container_functions = probe ∷ [];
}

abbrev routed : Config
routed = record no_config { virtual_switches = switch "l3" ∷ [] }

plan-spares_bridge_domain_example :
    run_view switch_view (plan site full routed) (λ m. some (switch "l2")) "lan"
    ≡ some (switch "l2")
unfolding any switch_members_of place_ports place_port vnf_ports_of sort_ports vrf_for_switch
    vnic_key_of_port vnic_port_key
plan-spares_bridge_domain_example =
    plan-spares_bridge_domain site full routed refl "lan" (λ m. some (switch "l2")) refl refl

socket_path_shared_example :
    socket_path site.paths "/vhost" "fw" "lan-0" ≡ socket_path site.paths "/vhost" "fw-lan" "0"
socket_path_shared_example = socket_path_shared site.paths "/vhost" "fw" "lan" "0"
