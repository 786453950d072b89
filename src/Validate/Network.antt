-- ===== src/Validate/Network.antt =====
-- The checks of interfaces, bonds, switches, routing tables and access lists
-- (internal/model/validate.go).
use nfvis.Prelude.{
  ℕ, suc, ◌+◌, String, ◌+++◌, Bool, true, false, not, ◌&&◌, ◌||◌, Option, none, some, List, [], ◌∷◌,
  ◌++◌, ltb, leb, ◌==◌, str_eq, if◌then◌else◌, flat_map,
}
use nfvis.Model.{
  Config, Acl, AclRule, Bond, InterfaceConfig, L3Interface, Lacp, Route, VirtualSwitch, VsGateway,
  VswitchPort, Vrf, ValidateError,
}
use nfvis.Validate.Tables.{
  Texts, all_of, errf, error_if, mem_str, is_iface, is_vrf, is_qos, any_iface, is_vm_vnic,
  is_ct_vnic, check_vlan, check_acl_ref, dup_from, dup_check, l3_iface_exists, under_name,
}

abbrev in_range : ℕ → ℕ → ℕ → Bool
in_range low high n = leb low n && leb n high

module _ (texts : Texts) (c : Config) where
  abbrev pub interface_blocks : String → InterfaceConfig → List (List ValidateError)
  interface_blocks p i =
      error_if (not (i.mtu == 0) && not (in_range 68 9216 i.mtu)) (p +++ ".mtu")
        "mtu %d 超出合理范围 68-9216"
      ∷ error_if (not (str_eq i.ingress_policy "") && not (is_qos c i.ingress_policy))
          (p +++ ".ingress_policy") "限速策略 %q 不存在"
      ∷ []

  abbrev pub interface_errors : String → InterfaceConfig → List ValidateError
  interface_errors p i = all_of (interface_blocks p i)

  -- `checkInterfaces`.
  unfoldable pub check_interfaces : List ValidateError
  unfolding is_qos dup_from
  check_interfaces =
      dup_check (λ (i : InterfaceConfig). i.name) "interfaces" "接口" c.interfaces
      ++ flat_map
          (λ (i : InterfaceConfig).
            let p = "interfaces" +++ "[" +++ i.name +++ "]" in
            under_name texts p i.name "接口" (interface_errors p i))
          c.interfaces

  abbrev lacp_errors : String → Option Lacp → List ValidateError
  lacp_errors p none = []
  lacp_errors p (some l) =
      error_if (not (mem_str l.mode ("active" ∷ "passive" ∷ []))) (p +++ ".lacp.mode")
        "lacp mode 必须为 active 或 passive"
      ++ error_if (not (mem_str l.interval ("" ∷ "fast" ∷ "slow" ∷ []))) (p +++ ".lacp.interval")
          "lacp interval 必须为 fast 或 slow"

  abbrev no_strings : List String → Bool
  no_strings [] = true
  no_strings (s ∷ ss) = false

  abbrev pub member_errors : String → List String → List ValidateError
  member_errors p ms =
      flat_map (λ m. error_if (not (is_iface c m)) (p +++ ".members") "成员口 %q 不是物理口") ms

  abbrev pub bond_blocks : String → Bond → List (List ValidateError)
  bond_blocks p b =
      error_if (no_strings b.members) (p +++ ".members") "bond 至少需要一个成员口"
      ∷ member_errors p b.members
      ∷ lacp_errors p b.lacp
      ∷ []

  abbrev pub bond_errors : String → Bond → List ValidateError
  bond_errors p b = all_of (bond_blocks p b)

  -- `checkBonds`.
  unfoldable pub check_bonds : List ValidateError
  unfolding is_iface dup_from
  check_bonds =
      dup_check (λ (b : Bond). b.name) "bonds" "bond" c.bonds
      ++ flat_map
          (λ (b : Bond).
            let p = "bonds" +++ "[" +++ b.name +++ "]" in
            under_name texts p b.name "bond" (bond_errors p b))
          c.bonds

  abbrev is_some : Option VsGateway → Bool
  is_some none = false
  is_some (some g) = true

  abbrev no_ports : List VswitchPort → Bool
  no_ports [] = true
  no_ports (p ∷ ps) = false

  abbrev type_errors : String → VirtualSwitch → List ValidateError
  type_errors p s =
      if str_eq s.type "l2"
      then []
      else if str_eq s.type "l3"
      then error_if (not (is_vrf c s.name)) p "type=l3 交换机需要同名 VRF 条目承载 L3 配置（L3 虚拟交换机映射为同名 VRF）"
        ++ error_if
            (not (s.vlan_access == 0)
              || s.cross_connect
              || not (no_ports s.ports)
              || is_some s.gateway)
            p "type=l3 交换机不允许 L2 专属配置（vlan_access/ports/gateway/cross-connect）"
      else errf (p +++ ".type") "type 必须为 l2 或 l3"

  abbrev pub address_errors : String → ℕ → List String → String → List ValidateError
  address_errors p i [] format = []
  address_errors p i (a ∷ rest) format =
      error_if (not (texts.is_cidr a)) (p +++ ".addresses[" +++ texts.show i +++ "]") format
      ++ address_errors p (suc i) rest format

  abbrev pub gateway_errors : String → Option VsGateway → List ValidateError
  gateway_errors p none = []
  gateway_errors p (some g) =
      address_errors (p +++ ".gateway") 0 g.addresses "网关地址 %q 必须是 ip-prefix（CIDR）"
      ++ error_if (not (str_eq g.vrf "") && not (is_vrf c g.vrf)) (p +++ ".gateway.vrf")
          "VRF %q 不存在"
      ++ check_acl_ref c (p +++ ".gateway.acl_in") g.acl_in
      ++ check_acl_ref c (p +++ ".gateway.acl_out") g.acl_out

  abbrev kind : String → ℕ
  kind s = if str_eq s "" then 0 else 1

  -- The number of things that a port is declared to be.
  abbrev pub kinds : VswitchPort → ℕ
  kinds q = kind q.interface + kind q.vnf + kind q.container

  abbrev has_vlan : ℕ → List ℕ → Bool
  has_vlan n [] = false
  has_vlan n (m ∷ ms) = m == n || has_vlan n ms

  abbrev no_vlans : List ℕ → Bool
  no_vlans [] = true
  no_vlans (m ∷ ms) = false

  abbrev pub port_blocks : String → VirtualSwitch → VswitchPort → List (List ValidateError)
  port_blocks p s q =
      error_if (not (str_eq q.interface "") && not (any_iface c q.interface)) p
        "接口 %q 不存在或不是物理口/bond"
      ∷ error_if (not (str_eq q.vnf "") && not (is_vm_vnic c (q.vnf +++ "/" +++ q.vnf_interface))) p
          "VNF %q 的 vNIC %q 不存在"
      ∷ error_if
          (not (str_eq q.container "")
            && not (is_ct_vnic c (q.container +++ "/" +++ q.container_interface)))
          p "容器 %q 的 vNIC %q 不存在"
      ∷ error_if (not (kinds q == 1)) p "端口必须且只能指定 interface/vnf/container 之一"
      ∷ flat_map (λ t. error_if (not (check_vlan t)) (p +++ ".trunk") "vlan %d 必须在 1-4094") q.trunk
      ∷ error_if (not (q.native == 0) && not (check_vlan q.native)) (p +++ ".native")
          "vlan %d 必须在 1-4094"
      ∷ error_if (not (q.native == 0) && has_vlan q.native q.trunk) (p +++ ".native")
          "native VLAN %d 与 trunk 允许列表冲突"
      ∷ error_if
          (not (s.vlan_access == 0)
            && not (no_vlans q.trunk)
            && not (has_vlan s.vlan_access q.trunk))
          p "交换机 access VLAN %d 不在端口 trunk 允许列表内"
      ∷ check_acl_ref c (p +++ ".acl_in") q.acl_in
      ∷ check_acl_ref c (p +++ ".acl_out") q.acl_out
      ∷ []

  abbrev pub port_errors : String → VirtualSwitch → VswitchPort → List ValidateError
  port_errors p s q = all_of (port_blocks p s q)

  abbrev pub ports_errors : String → VirtualSwitch → List ValidateError
  ports_errors p s =
      flat_map (λ (q : VswitchPort). port_errors (p +++ ".ports[" +++ texts.show q.seq +++ "]") s q)
        s.ports

  abbrev pub switch_blocks : String → VirtualSwitch → List (List ValidateError)
  switch_blocks p s =
      type_errors p s
      ∷ error_if (not (s.vlan_access == 0) && not (check_vlan s.vlan_access)) (p +++ ".vlan_access")
          "vlan %d 必须在 1-4094"
      ∷ gateway_errors p s.gateway
      ∷ dup_check (λ (q : VswitchPort). texts.show q.seq) (p +++ ".ports") "端口" s.ports
      ∷ ports_errors p s
      ∷ []

  abbrev pub switch_errors : String → VirtualSwitch → List ValidateError
  switch_errors p s = all_of (switch_blocks p s)

  -- `checkVirtualSwitches`.
  unfoldable pub check_virtual_switches : List ValidateError
  unfolding is_vrf any_iface is_vm_vnic is_ct_vnic check_acl_ref dup_from
  check_virtual_switches =
      dup_check (λ (s : VirtualSwitch). s.name) "virtual-switches" "虚拟交换机" c.virtual_switches
      ++ flat_map
          (λ (s : VirtualSwitch).
            let p = "virtual-switches" +++ "[" +++ s.name +++ "]" in
            under_name texts p s.name "虚拟交换机" (switch_errors p s))
          c.virtual_switches

  abbrev pub l3_blocks : String → L3Interface → List (List ValidateError)
  l3_blocks p l =
      error_if (not (l3_iface_exists texts c l.interface)) p
        "L3 接口 %q 不存在或不是物理口/bond/vlan 子接口/已声明的 vNIC"
      ∷ address_errors p 0 l.addresses "地址 %q 必须是 ip-prefix（CIDR）"
      ∷ check_acl_ref c (p +++ ".acl_in") l.acl_in
      ∷ []

  abbrev pub l3_errors : String → L3Interface → List ValidateError
  l3_errors p l = all_of (l3_blocks p l)

  abbrev pub route_blocks : String → Route → List (List ValidateError)
  route_blocks p r =
      error_if (str_eq r.prefix "" || not (texts.is_cidr r.prefix)) (p +++ ".prefix")
        "路由前缀 %q 必须是 ip-prefix（CIDR）"
      ∷ error_if (not (texts.is_ip r.next_hop)) (p +++ ".next_hop") "下一跳 %q 必须是有效 ip"
      ∷ error_if (ltb 255 r.distance) (p +++ ".distance") "distance %d 必须在 0-255"
      ∷ []

  abbrev pub route_errors : String → Route → List ValidateError
  route_errors p r = all_of (route_blocks p r)

  abbrev pub vrf_blocks : String → Vrf → List (List ValidateError)
  vrf_blocks p r =
      dup_check (λ (l : L3Interface). l.interface) (p +++ ".l3_interfaces") "L3 接口" r.l3_interfaces
      ∷ flat_map
          (λ (l : L3Interface). l3_errors (p +++ ".l3_interfaces[" +++ l.interface +++ "]") l)
          r.l3_interfaces
      ∷ flat_map (λ (t : Route). route_errors (p +++ ".routes[" +++ t.prefix +++ "]") t) r.routes
      ∷ []

  abbrev pub vrf_errors : String → Vrf → List ValidateError
  vrf_errors p r = all_of (vrf_blocks p r)

  -- `checkVrfs`.
  unfoldable pub check_vrfs : List ValidateError
  unfolding l3_iface_exists check_acl_ref dup_from
  check_vrfs =
      dup_check (λ (r : Vrf). r.name) "vrfs" "VRF" c.vrfs
      ++ flat_map
          (λ (r : Vrf).
            let p = "vrfs" +++ "[" +++ r.name +++ "]" in
            under_name texts p r.name "VRF" (vrf_errors p r))
          c.vrfs

  abbrev no_rules : List AclRule → Bool
  no_rules [] = true
  no_rules (r ∷ rs) = false

  abbrev bad_end : String → Bool
  bad_end s = not (mem_str s ("" ∷ "any" ∷ [])) && not (texts.is_cidr s)

  abbrev bad_port : String → Bool
  bad_port s = not (str_eq s "") && not (texts.port_matches s)

  abbrev pub rule_blocks : String → AclRule → List (List ValidateError)
  rule_blocks p r =
      error_if (not (mem_str r.direction ("" ∷ "ingress" ∷ "egress" ∷ []))) (p +++ ".direction")
        "direction 必须为 ingress 或 egress"
      ∷ error_if (bad_end r.source) (p +++ ".source") "%s %q 必须为 ip-prefix 或 any"
      ∷ error_if (bad_end r.destination) (p +++ ".destination") "%s %q 必须为 ip-prefix 或 any"
      ∷ error_if (not (mem_str r.protocol ("" ∷ "tcp" ∷ "udp" ∷ "icmp" ∷ "any" ∷ [])))
          (p +++ ".protocol") "protocol 必须为 tcp|udp|icmp|any"
      ∷ error_if (bad_port r.source_port) (p +++ ".source_port") "端口 %q 必须为 <port> 或 <low>-<high>"
      ∷ error_if (bad_port r.destination_port) (p +++ ".destination_port")
          "端口 %q 必须为 <port> 或 <low>-<high>"
      ∷ error_if (not (mem_str r.action ("permit" ∷ "deny" ∷ []))) (p +++ ".action")
          "action 必须为 permit 或 deny"
      ∷ []

  abbrev pub rule_errors : String → AclRule → List ValidateError
  rule_errors p r = all_of (rule_blocks p r)

  abbrev pub acl_blocks : String → Acl → List (List ValidateError)
  acl_blocks p a =
      error_if (no_rules a.rules) (p +++ ".rules") "ACL 至少需要一条规则"
      ∷ dup_check (λ (r : AclRule). texts.show r.seq) (p +++ ".rules") "规则" a.rules
      ∷ flat_map (λ (r : AclRule). rule_errors (p +++ ".rules[" +++ texts.show r.seq +++ "]") r)
          a.rules
      ∷ []

  abbrev pub acl_errors : String → Acl → List ValidateError
  acl_errors p a = all_of (acl_blocks p a)

  -- `checkAcls`.
  unfoldable pub check_acls : List ValidateError
  unfolding dup_from
  check_acls =
      dup_check (λ (a : Acl). a.name) "acls" "ACL" c.acls
      ++ flat_map
          (λ (a : Acl).
            let p = "acls" +++ "[" +++ a.name +++ "]" in
            under_name texts p a.name "ACL" (acl_errors p a))
          c.acls
