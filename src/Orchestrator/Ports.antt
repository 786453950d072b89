-- ===== src/Orchestrator/Ports.antt =====
-- The ports of virtual machines and containers, and the members of switches that follow from them
-- (internal/orchestrator/vnf.go). `join` is `path.Join`.
use nfvis.Prelude.{
  ℕ, suc, String, ◌+++◌, Bool, true, false, not, ◌&&◌, ◌||◌, Option, none, some, List, [], ◌∷◌,
  ◌++◌, leb, str_eq, str_leb, if◌then◌else◌, any, flat_map, String_discrete, ℕ_discrete,
}
use nfvis.Model.{Config, VirtualSwitch, VswitchPort, VmFunction, ContainerFunction, VnfInterface}

pub record VnfPort : Type 0 where
  pub vm : String
  pub interface : String
  pub type : String
  pub virtual_switch : String
  pub mac : String
  pub vlan : ℕ
  pub socket : String
  pub vrf : String

unfoldable pub VnfPort_discrete : Discrete VnfPort
VnfPort_discrete = hlevel (String_discrete, ℕ_discrete)

-- The directories of the sockets.
pub record Paths : Type 0 where
  pub vhost_dir : String
  pub memif_dir : String
  pub join : String → String → String

-- `VnfSocketPath`, `MemifSocketPath`.
abbrev pub socket_path : Paths → String → String → String → String
socket_path paths dir owner nic = paths.join dir (owner +++ "-" +++ nic +++ ".sock")

abbrev vrf_in : List VirtualSwitch → String → String
vrf_in [] name = ""
vrf_in (vs ∷ vss) name =
    if str_eq vs.name name then (if str_eq vs.type "l3" then name else "") else vrf_in vss name

-- `vrfForSwitch`.
unfoldable pub vrf_for_switch : Config → String → String
vrf_for_switch c name = if str_eq name "" then "" else vrf_in c.virtual_switches name

abbrev port_at : Config → String → String → VnfInterface → VnfPort
port_at c owner socket nic = record {
  vm = owner;
  interface = nic.name;
  type = nic.type;
  virtual_switch = nic.virtual_switch;
  mac = nic.mac;
  vlan = nic.vlan;
  socket = socket;
  vrf = vrf_for_switch c nic.virtual_switch;
}

abbrev port_leb : VnfPort → VnfPort → Bool
port_leb p q = if str_eq p.vm q.vm then str_leb p.interface q.interface else str_leb p.vm q.vm

abbrev insert_port : VnfPort → List VnfPort → List VnfPort
insert_port p [] = p ∷ []
insert_port p (q ∷ qs) = elim (port_leb p q) [ true ↦ p ∷ q ∷ qs | false ↦ q ∷ insert_port p qs ]

unfoldable pub sort_ports : List VnfPort → List VnfPort
sort_ports [] = []
sort_ports (p ∷ ps) = insert_port p (sort_ports ps)

abbrev nics_of : Paths → Config → String → String → String → List VnfInterface → List VnfPort
nics_of paths c dir type owner nics =
    flat_map
      (λ nic.
        if str_eq nic.type type
        then port_at c owner (socket_path paths dir owner nic.name) nic ∷ []
        else [])
      nics

-- `VnfPortsOf`.
unfoldable pub vnf_ports_of : Paths → Config → List VnfPort
unfolding vrf_for_switch sort_ports
vnf_ports_of paths c = sort_ports (
    flat_map
      (λ (vm : VmFunction). nics_of paths c paths.vhost_dir "vhost-user" vm.name vm.interfaces)
      c.virtual_machine_functions
    ++ flat_map
        (λ (ct : ContainerFunction). nics_of paths c paths.memif_dir "memif" ct.name ct.interfaces)
        c.container_functions)

-- `vnicPortKey`.
unfoldable pub vnic_port_key : String → String → String → String → String
vnic_port_key vnf vnf_interface container container_interface =
    if not (str_eq vnf "")
    then "vnf:" +++ vnf +++ "/" +++ vnf_interface
    else if not (str_eq container "")
    then "ct:" +++ container +++ "/" +++ container_interface
    else ""

-- `vnicKeyOfPort`.
unfoldable pub vnic_key_of_port : VnfPort → String
unfolding vnic_port_key
vnic_key_of_port p =
    if str_eq p.type "memif"
    then vnic_port_key "" "" p.vm p.interface
    else vnic_port_key p.vm p.interface "" ""

abbrev key_of_declared : VswitchPort → String
key_of_declared p = vnic_port_key p.vnf p.vnf_interface p.container p.container_interface

-- Whether the switch itself declares the port.
abbrev is_declared : Config → VnfPort → Bool
is_declared c p =
    any
      (λ (vs : VirtualSwitch).
        str_eq vs.name p.virtual_switch
        && any
            (λ (q : VswitchPort).
              not (str_eq (key_of_declared q) "")
              && str_eq (key_of_declared q) (vnic_key_of_port p))
            vs.ports)
      c.virtual_switches

abbrev seq_above : ℕ → List VswitchPort → ℕ
seq_above n [] = n
seq_above n (p ∷ ps) = seq_above (if leb n p.seq then suc p.seq else n) ps

-- `nextSeq`: the first number above those of the ports of the switches with a name.
abbrev next_seq : ℕ → String → List VirtualSwitch → ℕ
next_seq n name [] = n
next_seq n name (vs ∷ vss) =
    next_seq (if str_eq vs.name name then seq_above n vs.ports else n) name vss

abbrev named_switch : String → VirtualSwitch → Bool
named_switch name vs = str_eq vs.name name

-- The last switch with a name; `idxOf` remembers that one.
abbrev switch_of : String → List VirtualSwitch → Option VirtualSwitch
switch_of name [] = none
switch_of name (vs ∷ vss) = elim (switch_of name vss) [
  | some w ↦ some w
  | none ↦ if str_eq vs.name name then some vs else none
]

abbrev update_last :
    String → (VirtualSwitch → VirtualSwitch) → List VirtualSwitch → List VirtualSwitch
update_last name f [] = []
update_last name f (vs ∷ vss) =
    let rest = update_last name f vss in
    if any (named_switch name) vss
    then vs ∷ rest
    else if str_eq vs.name name
    then f vs ∷ vss
    else vs ∷ vss

abbrev blank_port : ℕ → VswitchPort
blank_port seq = record {
  seq = seq;
  interface = "";
  vnf = "";
  vnf_interface = "";
  container = "";
  container_interface = "";
  trunk = [];
  native = 0;
  acl_in = "";
  acl_out = "";
}

abbrev member_port : ℕ → VnfPort → VswitchPort
member_port seq p =
    if str_eq p.type "memif"
    then record (blank_port seq) { container = p.vm; container_interface = p.interface }
    else record (blank_port seq) { vnf = p.vm; vnf_interface = p.interface }

abbrev with_port : VnfPort → ℕ → VirtualSwitch → VirtualSwitch
with_port p seq vs = record vs { ports = vs.ports ++ member_port seq p ∷ [] }

-- One round of the loop of `SwitchMembersOf`: the switches, and the ports whose switch is missing.
abbrev place_in :
    Config
    → VnfPort
    → Option VirtualSwitch
    → List VirtualSwitch
    → List VnfPort
    → List VirtualSwitch × List VnfPort
place_in c p none switches lost = (switches, lost ++ p ∷ [])
place_in c p (some vs) switches lost =
    if not (str_eq vs.type "l2") || is_declared c p then (switches, lost) else (
      update_last p.virtual_switch (with_port p (next_seq 0 p.virtual_switch switches)) switches,
      lost,
    )

unfoldable pub place_port :
    Config → VnfPort → List VirtualSwitch → List VnfPort → List VirtualSwitch × List VnfPort
unfolding vnic_key_of_port any
place_port c p switches lost =
    if str_eq p.virtual_switch ""
    then (switches, lost)
    else place_in c p (switch_of p.virtual_switch switches) switches lost

unfoldable pub place_ports :
    Config → List VnfPort → List VirtualSwitch → List VnfPort → List VirtualSwitch × List VnfPort
unfolding place_port
place_ports c [] switches lost = (switches, lost)
place_ports c (p ∷ ps) switches lost =
    let (switches', lost') = place_port c p switches lost in place_ports c ps switches' lost'

-- `SwitchMembersOf`: the switches with all their members, and the ports whose switch is missing.
unfoldable pub switch_members_of : Paths → Config → List VirtualSwitch × List VnfPort
unfolding vnf_ports_of place_ports
switch_members_of paths c = place_ports c (vnf_ports_of paths c) c.virtual_switches []
