-- ===== src/Validate/Accepted.antt =====
-- What a configuration without errors is like.
use nfvis.Prelude.{String, ◌+++◌, true, List, [], ◌++◌, ◌≡◌, flat_map, All}
use nfvis.Model.{
  Config, Acl, Bond, InterfaceConfig, PortMirroring, QosPolicy, VirtualSwitch, Vrf, ValidateError,
}
use nfvis.Orchestrator.Planned.Names.{IsUnique}
use nfvis.Validate.Tables.{Texts, is_iface, is_qos, dup_check, under_name}
use nfvis.Validate.Network.{
  interface_errors, check_interfaces, bond_errors, check_bonds, switch_errors,
  check_virtual_switches, vrf_errors, acl_errors, check_vrfs, check_acls,
}
use nfvis.Validate.Services.{
  check_nat, mirror_errors, check_port_mirroring, qos_errors, check_qos, network_checks,
  check_network,
}
use nfvis.Validate.Duplicates.{
  append-nil, all_of-nil, flat_map-nil, All-map, under_name-nil, RefersTo, dup_from-IsUnique,
}
use nfvis.Validate.References.{
  pools_of, rules_of, IsPlugged, IsMirrored, IsTranslated, IsRouted, interface-policed, bond-bonded,
  switch-served, switch-IsPlugged, vrf-routed, mirror-IsMirrored, nat-IsTranslated, GatewayServed,
}

module _ (texts : Texts) (c : Config) where
  -- Names are unique, and what is referred to is there.
  pub record IsAccepted : Type 0 where
    pub interfaces : IsUnique (λ (i : InterfaceConfig). i.name) c.interfaces
    pub bonds : IsUnique (λ (b : Bond). b.name) c.bonds
    pub switches : IsUnique (λ (s : VirtualSwitch). s.name) c.virtual_switches
    pub vrfs : IsUnique (λ (r : Vrf). r.name) c.vrfs
    pub acls : IsUnique (λ (a : Acl). a.name) c.acls
    pub policed : All (λ (i : InterfaceConfig). RefersTo (is_qos c) i.ingress_policy) c.interfaces
    pub bonded : All (λ (b : Bond). All (λ m. is_iface c m ≡ true) b.members) c.bonds
    pub plugged : All (λ (s : VirtualSwitch). All (IsPlugged texts c) s.ports) c.virtual_switches
    pub routed : All (λ (r : Vrf). All (IsRouted texts c) r.l3_interfaces) c.vrfs
    pub mirrors : IsUnique (λ (m : PortMirroring). m.name) c.port_mirroring
    pub policies : IsUnique (λ (q : QosPolicy). q.name) c.qos_policies
    pub served : All (λ (s : VirtualSwitch). GatewayServed texts c s.gateway) c.virtual_switches
    pub mirrored : All (IsMirrored texts c) c.port_mirroring
    pub translated : All (IsTranslated texts c (pools_of c.nat)) (rules_of c.nat)

  -- What one check of named objects says of them: `dupCheck`, and the loop over them.
  each :
      {T : Type 0} (name : T → String) (base what : String) (errors : T → List ValidateError)
      (Q : T → Type 0) (xs : List T)
      → ((x : T) → errors x ≡ [] → Q x)
      → dup_check name base what xs
          ++ flat_map
              (λ x. under_name texts (base +++ "[" +++ name x +++ "]") (name x) what (errors x))
              xs
        ≡ []
      → IsUnique name xs × All Q xs
  each name base what errors Q xs f h =
      let (d, e) =
        append-nil (dup_check name base what xs)
          (flat_map
            (λ x. under_name texts (base +++ "[" +++ name x +++ "]") (name x) what (errors x)) xs)
          h in
      (
        dup_from-IsUnique name base what [] xs d,
        All-map
            (λ x. under_name texts (base +++ "[" +++ name x +++ "]") (name x) what (errors x) ≡ [])
            Q xs
            (λ x e.
              f x
                (under_name-nil texts (base +++ "[" +++ name x +++ "]") (name x) what (errors x) e))
            (flat_map-nil _ xs e),
      )

  -- A configuration in which the checks of the network find no error has unique names of interfaces,
  -- bonds, switches, routing tables, access lists, mirrors and rate limits. The rate limit of an
  -- interface exists; the members of a bond are interfaces; a port of a switch names exactly one of an
  -- interface or bond, a vNIC of a machine and one of a container, which exists, and its access lists
  -- exist; so do the routing table and the access lists of a gateway, and each interface of a routing
  -- table and its access list; a mirror copies an interface, bond or vNIC that exists to an interface;
  -- a rule of address translation names an L3 switch and, if any, a pool that exists.
  pub check_network-IsAccepted : check_network texts c ≡ [] → IsAccepted
  unfolding check_network check_nat check_port_mirroring check_qos check_interfaces check_bonds
      check_virtual_switches check_vrfs check_acls
  check_network-IsAccepted h =
      let (hi, (hb, (hs, (hv, (ha, (hn, (hm, (hq, e)))))))) =
        all_of-nil (network_checks texts c) h in
      let (i1, i2) =
        each (λ i. i.name) "interfaces" "接口"
          (λ i. interface_errors texts c ("interfaces" +++ "[" +++ i.name +++ "]") i)
          (λ i. RefersTo (is_qos c) i.ingress_policy) c.interfaces
          (λ i e. interface-policed texts c ("interfaces" +++ "[" +++ i.name +++ "]") i e) hi in
      let (b1, b2) =
        each (λ b. b.name) "bonds" "bond"
          (λ b. bond_errors texts c ("bonds" +++ "[" +++ b.name +++ "]") b)
          (λ b. All (λ m. is_iface c m ≡ true) b.members) c.bonds
          (λ b e. bond-bonded texts c ("bonds" +++ "[" +++ b.name +++ "]") b e) hb in
      let (s1, s2) =
        each (λ s. s.name) "virtual-switches" "虚拟交换机"
          (λ s. switch_errors texts c ("virtual-switches" +++ "[" +++ s.name +++ "]") s)
          (λ s. All (IsPlugged texts c) s.ports × GatewayServed texts c s.gateway)
          c.virtual_switches
          (λ s e. (
            switch-IsPlugged texts c ("virtual-switches" +++ "[" +++ s.name +++ "]") s e,
            switch-served texts c ("virtual-switches" +++ "[" +++ s.name +++ "]") s e,
          ))
          hs in
      let (v1, v2) =
        each (λ r. r.name) "vrfs" "VRF"
          (λ r. vrf_errors texts c ("vrfs" +++ "[" +++ r.name +++ "]") r)
          (λ r. All (IsRouted texts c) r.l3_interfaces) c.vrfs
          (λ r e. vrf-routed texts c ("vrfs" +++ "[" +++ r.name +++ "]") r e) hv in
      let (a1, a2) =
        each (λ a. a.name) "acls" "ACL"
          (λ a. acl_errors texts c ("acls" +++ "[" +++ a.name +++ "]") a) (λ a. Unit) c.acls
          (λ a e. tt) ha in
      let (m1, m2) =
        each (λ m. m.name) "port-mirroring" "镜像会话"
          (λ m. mirror_errors texts c ("port-mirroring" +++ "[" +++ m.name +++ "]") m)
          (IsMirrored texts c) c.port_mirroring
          (λ m e. mirror-IsMirrored texts c ("port-mirroring" +++ "[" +++ m.name +++ "]") m e) hm in
      let (q1, q2) =
        each (λ q. q.name) "qos-policies" "限速策略"
          (λ q. qos_errors texts c ("qos-policies" +++ "[" +++ q.name +++ "]") q) (λ q. Unit)
          c.qos_policies (λ q e. tt) hq in
      record {
        interfaces = i1;
        bonds = b1;
        switches = s1;
        vrfs = v1;
        acls = a1;
        policed = i2;
        bonded = b2;
        plugged = All-map _ _ c.virtual_switches (λ s w. w.0) s2;
        routed = v2;
        mirrors = m1;
        policies = q1;
        mirrored = m2;
        served = All-map _ _ c.virtual_switches (λ s w. w.1) s2;
        translated = nat-IsTranslated texts c c.nat hn;
      }
