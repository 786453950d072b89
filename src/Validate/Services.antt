-- ===== src/Validate/Services.antt =====
-- The checks of address translation, mirrors and rate limits (internal/model/validate.go), and the
-- checks of the network together.
use nfvis.Prelude.{
  ℕ, suc, ◌+◌, String, ◌+++◌, Bool, true, false, not, ◌&&◌, Option, none, some, List, [], ◌∷◌, ◌++◌,
  any, ◌==◌, str_eq, if◌then◌else◌, flat_map,
}
use nfvis.Model.{
  Config, L3Interface, NatConfig, NatRule, NatSourcePool, NatStatic, PortMirroring, QosPolicy,
  VirtualSwitch, Vrf, ValidateError,
}
use nfvis.Validate.Tables.{
  Texts, all_of, errf, error_if, mem_str, is_iface, is_name, any_iface, is_vm_vnic, dup_from,
  dup_check, under_name,
}
use nfvis.Validate.Network.{
  check_interfaces, check_bonds, check_virtual_switches, check_vrfs, check_acls,
}

-- `l3vs`.
unfoldable pub is_l3_switch : Config → String → Bool
unfolding any
is_l3_switch c n =
    any (λ (s : VirtualSwitch). str_eq s.name n && str_eq s.type "l3") c.virtual_switches

-- The table that an interface belongs to, and whether it has an address there.
record Outside : Type 0 where
  owner : String
  has_addr : Bool

abbrev is_some_address : List String → Bool
is_some_address [] = false
is_some_address (a ∷ rest) = true

abbrev in_table : String → String → Outside → List L3Interface → Outside
in_table n table o [] = o
in_table n table o (l ∷ ls) =
    in_table n table
      (if str_eq l.interface n
        then record { owner = table; has_addr = is_some_address l.addresses }
        else o)
      ls

abbrev in_tables : String → Outside → List Vrf → Outside
in_tables n o [] = o
in_tables n o (r ∷ rs) = in_tables n (in_table n r.name o r.l3_interfaces) rs

abbrev outside_of : Config → String → Outside
outside_of c n = in_tables n (record { owner = ""; has_addr = false }) c.vrfs

module _ (texts : Texts) (c : Config) where
  abbrev is_range : Option (String × String) → Bool
  is_range none = false
  is_range (some (low, high)) = texts.is_ip low && texts.is_ip high

  abbrev pool_errors : NatSourcePool → List ValidateError
  pool_errors p =
      let pp = "nat.source-pools[" +++ p.name +++ "]" in
      under_name texts pp p.name "NAT 池" (
        error_if (not (is_range (texts.cut_to p.address_range))) (pp +++ ".address_range")
          "地址范围 %q 必须为 \"<ip> to <ip>\"")

  abbrev first_name : String → String → String
  first_name known n = if str_eq known "" then n else known

  abbrev pub inside_errors : String → String → String → List ValidateError
  inside_errors rp inside n =
      error_if (not (str_eq n "") && not (str_eq inside "") && not (str_eq n inside))
        (rp +++ ".virtual_switch")
        "V1 仅支持单一 inside 转发域：%q 与前一条规则的 %q 不一致（VPP NAT44 单实例仅一对 inside/outside VRF）"

  -- What is wrong with the interface that the rule leaves by, and the table it is in.
  abbrev outside_errors : String → String → String → List ValidateError × String
  outside_errors rp outside n =
      let p = rp +++ ".action.interface" in
      let o = outside_of c n in
      if str_eq n ""
      then (errf p "必须指定出接口 interface（VPP NAT44 的 outside 不支持自动推断；source-pool 仅提供外部地址）", outside)
      else if str_eq o.owner ""
      then (errf p "出接口 %q 不在任何 VRF：V1 要求出接口作为某 L3 交换机（Vrf）的 l3-interface 并配置地址", outside)
      else if not o.has_addr
      then (errf p "出接口 %q 未配置地址：NAT 需以该地址（或源池）作外部地址并建立回程路由", outside)
      else if str_eq outside ""
      then ([], o.owner)
      else (
        error_if (not (str_eq outside o.owner)) p
            "出接口 %q 所属 VRF %q 与其它规则的 outside 转发域 %q 不一致：V1 仅支持单一 outside VRF",
        outside,
      )

  abbrev pub nat_rule_blocks :
      List NatSourcePool → String → String → NatRule → List (List ValidateError)
  nat_rule_blocks pools inside outside r =
      let rp = "nat.rules[" +++ texts.show r.seq +++ "]" in
      error_if (not (texts.is_cidr r.match_source)) (rp +++ ".match_source")
        "匹配源 %q 必须是 ip-prefix（CIDR）"
      ∷ error_if (not (is_l3_switch c r.virtual_switch)) (rp +++ ".virtual_switch")
          "virtual-switch %q 不是 L3 交换机"
      ∷ inside_errors rp inside r.virtual_switch
      ∷ (outside_errors rp outside r.action.interface).0
      ∷ error_if
          (not (str_eq r.action.source_pool "")
            && not (is_name (λ (p : NatSourcePool). p.name) pools r.action.source_pool))
          (rp +++ ".action.source_pool") "NAT 池 %q 不存在"
      ∷ []

  -- The loop over the rules, with the inside switch and the outside table so far.
  unfoldable pub nat_rules_errors :
      List NatSourcePool → String → String → List NatRule → List ValidateError
  unfolding is_l3_switch any
  nat_rules_errors pools inside outside [] = []
  nat_rules_errors pools inside outside (r ∷ rs) =
      let rp = "nat.rules[" +++ texts.show r.seq +++ "]" in
      all_of (nat_rule_blocks pools inside outside r)
      ++ nat_rules_errors pools (first_name inside r.virtual_switch)
          (outside_errors rp outside r.action.interface).1 rs

  abbrev static_errors : ℕ → List NatStatic → List ValidateError
  static_errors i [] = []
  static_errors i (s ∷ ss) =
      let p = "nat.static[" +++ texts.show i +++ "]" in
      error_if (not (texts.is_ip s.inside_ip)) (p +++ ".inside_ip") "内部地址 %q 必须是有效 ip"
      ++ error_if (not (texts.is_ip s.outside_ip)) (p +++ ".outside_ip") "外部地址 %q 必须是有效 ip"
      ++ static_errors (suc i) ss

  abbrev pub nat_blocks : NatConfig → List (List ValidateError)
  nat_blocks n =
      dup_check (λ (p : NatSourcePool). p.name) "nat.source-pools" "NAT 池" n.source_pools
      ∷ flat_map pool_errors n.source_pools
      ∷ dup_check (λ (r : NatRule). texts.show r.seq) "nat.rules" "NAT 规则" n.rules
      ∷ nat_rules_errors n.source_pools "" "" n.rules
      ∷ static_errors 0 n.static
      ∷ []

  abbrev pub nat_errors : Option NatConfig → List ValidateError
  nat_errors none = []
  nat_errors (some n) = all_of (nat_blocks n)

  -- `checkNat`.
  unfoldable pub check_nat : List ValidateError
  unfolding nat_rules_errors dup_from
  check_nat = nat_errors c.nat

  abbrev given : String → ℕ
  given s = if str_eq s "" then 0 else 1

  abbrev pub analyzer_errors : String → String → List ValidateError
  analyzer_errors p a =
      if str_eq a ""
      then errf (p +++ ".analyzer") "分析端口缺失"
      else error_if (not (is_iface c a)) (p +++ ".analyzer") "分析端口 %q 不是物理口"

  abbrev pub mirror_blocks : String → PortMirroring → List (List ValidateError)
  mirror_blocks p m =
      let s = m.source in
      error_if (not (str_eq s.interface "") && not (any_iface c s.interface)) (p +++ ".source")
        "源接口 %q 不存在或不是物理口/bond"
      ∷ error_if (not (str_eq s.vnf "") && not (is_vm_vnic c (s.vnf +++ "/" +++ s.vnf_interface)))
          (p +++ ".source") "源 VNF %q 的 vNIC %q 不存在"
      ∷ error_if (not (given s.interface + given s.vnf == 1)) (p +++ ".source")
          "源必须且只能指定 interface 或 vnf 之一"
      ∷ error_if (not (mem_str s.direction ("ingress" ∷ "egress" ∷ "both" ∷ [])))
          (p +++ ".source.direction") "direction 必须为 ingress|egress|both"
      ∷ analyzer_errors p m.analyzer
      ∷ []

  abbrev pub mirror_errors : String → PortMirroring → List ValidateError
  mirror_errors p m = all_of (mirror_blocks p m)

  -- `checkPortMirroring`.
  unfoldable pub check_port_mirroring : List ValidateError
  unfolding is_iface any_iface is_vm_vnic dup_from
  check_port_mirroring =
      dup_check (λ (m : PortMirroring). m.name) "port-mirroring" "镜像会话" c.port_mirroring
      ++ flat_map
          (λ (m : PortMirroring).
            let p = "port-mirroring" +++ "[" +++ m.name +++ "]" in
            under_name texts p m.name "镜像会话" (mirror_errors p m))
          c.port_mirroring

  abbrev pub qos_errors : String → QosPolicy → List ValidateError
  qos_errors p q =
      error_if (q.cir == 0) p "cir 必须大于 0" ++ error_if (q.cbs == 0) (p +++ ".cbs") "cbs 必须大于 0"

  -- `checkQos`.
  unfoldable pub check_qos : List ValidateError
  unfolding dup_from
  check_qos =
      dup_check (λ (q : QosPolicy). q.name) "qos-policies" "限速策略" c.qos_policies
      ++ flat_map
          (λ (q : QosPolicy).
            let p = "qos-policies" +++ "[" +++ q.name +++ "]" in
            under_name texts p q.name "限速策略" (qos_errors p q))
          c.qos_policies

  abbrev pub network_checks : List (List ValidateError)
  network_checks =
      check_interfaces texts c
      ∷ check_bonds texts c
      ∷ check_virtual_switches texts c
      ∷ check_vrfs texts c
      ∷ check_acls texts c
      ∷ check_nat
      ∷ check_port_mirroring
      ∷ check_qos
      ∷ []

  -- This part of `Validate`, in its order.
  unfoldable pub check_network : List ValidateError
  unfolding check_interfaces check_bonds check_virtual_switches check_vrfs check_acls check_nat
      check_port_mirroring check_qos
  check_network = all_of network_checks
