-- ===== src/Validate/References.antt =====
-- What the checks of one object say of what it refers to.
use nfvis.Prelude.{
  String, ◌+++◌, Bool, true, false, not, List, [], ◌∷◌, ==_iff, ◌≡◌, All, str_eq, Option, none,
  some, arith,
}
use nfvis.Model.{
  Config, Bond, InterfaceConfig, L3Interface, NatConfig, NatRule, NatSourcePool, PortMirroring,
  VirtualSwitch, VsGateway, VswitchPort, Vrf,
}
use nfvis.Validate.Tables.{
  Texts, all_of, is_iface, is_vrf, is_name, is_vm_vnic, is_ct_vnic, is_qos, is_acl, any_iface,
  check_acl_ref, l3_iface_exists,
}
use nfvis.Validate.Network.{
  interface_blocks, bond_blocks, port_blocks, switch_blocks, l3_blocks, vrf_blocks, gateway_errors,
  address_errors, interface_errors, member_errors, bond_errors, kinds, port_errors, switch_errors,
  l3_errors, vrf_errors,
}
use nfvis.Validate.Services.{
  is_l3_switch, analyzer_errors, nat_rule_blocks, nat_rules_errors, nat_blocks, nat_errors,
  mirror_blocks, mirror_errors,
}
use nfvis.Validate.Duplicates.{
  append-nil, all_of-nil, flat_map-nil, All-map, error_if-nil, RefersTo, refers,
}

abbrev pub pools_of : Option NatConfig → List NatSourcePool
pools_of none = []
pools_of (some n) = n.source_pools

abbrev pub rules_of : Option NatConfig → List NatRule
rules_of none = []
rules_of (some n) = n.rules

module _ (texts : Texts) (c : Config) where
  -- A port of a switch stands for one thing, which exists, and its access lists exist.
  pub record IsPlugged (q : VswitchPort) : Type 0 where
    pub one : kinds texts c q ≡ 1
    pub interface : RefersTo (any_iface c) q.interface
    pub vnf : RefersTo (λ n. is_vm_vnic c (n +++ "/" +++ q.vnf_interface)) q.vnf
    pub container : RefersTo (λ n. is_ct_vnic c (n +++ "/" +++ q.container_interface)) q.container
    pub acl_in : RefersTo (is_acl c) q.acl_in
    pub acl_out : RefersTo (is_acl c) q.acl_out

  pub record IsServed (g : VsGateway) : Type 0 where
    pub vrf : RefersTo (is_vrf c) g.vrf
    pub acl_in : RefersTo (is_acl c) g.acl_in
    pub acl_out : RefersTo (is_acl c) g.acl_out

  abbrev pub GatewayServed : Option VsGateway → Type 0
  GatewayServed none = Unit
  GatewayServed (some g) = IsServed g

  -- A mirror copies what exists to an interface.
  pub record IsMirrored (m : PortMirroring) : Type 0 where
    pub interface : RefersTo (any_iface c) m.source.interface
    pub vnf : RefersTo (λ n. is_vm_vnic c (n +++ "/" +++ m.source.vnf_interface)) m.source.vnf
    pub analyzer : is_iface c m.analyzer ≡ true

  -- A rule stands for an L3 switch, and its pool exists.
  pub record IsTranslated (pools : List NatSourcePool) (r : NatRule) : Type 0 where
    pub switch : is_l3_switch c r.virtual_switch ≡ true
    pub pool : RefersTo (is_name (λ (p : NatSourcePool). p.name) pools) r.action.source_pool

  pub record IsRouted (l : L3Interface) : Type 0 where
    pub exists : l3_iface_exists texts c l.interface ≡ true
    pub acl_in : RefersTo (is_acl c) l.acl_in

  pub not-false : (b : Bool) → not b ≡ false → b ≡ true
  not-false b h = ground arith

  pub acl_refers : (p n : String) → check_acl_ref c p n ≡ [] → RefersTo (is_acl c) n
  unfolding check_acl_ref
  acl_refers p n h = refers (str_eq n "") (is_acl c n) (error_if-nil _ _ _ h)

  pub interface-policed :
      (p : String) (i : InterfaceConfig)
      → interface_errors texts c p i ≡ []
      → RefersTo (is_qos c) i.ingress_policy
  interface-policed p i h =
      refers (str_eq i.ingress_policy "") (is_qos c i.ingress_policy)
        (error_if-nil _ _ _ (all_of-nil (interface_blocks texts c p i) h).1.0)

  pub members-bonded :
      (p : String) (ms : List String)
      → member_errors texts c p ms ≡ []
      → All (λ m. is_iface c m ≡ true) ms
  members-bonded p ms h =
      All-map _ (λ m. is_iface c m ≡ true) ms
        (λ m e. not-false (is_iface c m) (error_if-nil _ _ _ e)) (flat_map-nil _ ms h)

  pub bond-bonded :
      (p : String) (b : Bond)
      → bond_errors texts c p b ≡ []
      → All (λ m. is_iface c m ≡ true) b.members
  bond-bonded p b h = members-bonded p b.members (all_of-nil (bond_blocks texts c p b) h).1.0

  pub port-IsPlugged :
      (p : String) (s : VirtualSwitch) (q : VswitchPort)
      → port_errors texts c p s q ≡ []
      → IsPlugged q
  port-IsPlugged p s q h =
      let (e1, (e2, (e3, (e4, (e5, (e6, (e7, (e8, (e9, (e10, e11)))))))))) =
        all_of-nil (port_blocks texts c p s q) h in
      record {
        one = (==_iff (kinds texts c q) 1).0 (not-false _ (error_if-nil _ _ _ e4));
        interface =
            refers (str_eq q.interface "") (any_iface c q.interface) (error_if-nil _ _ _ e1);
        vnf = refers (str_eq q.vnf "") _ (error_if-nil _ _ _ e2);
        container = refers (str_eq q.container "") _ (error_if-nil _ _ _ e3);
        acl_in = acl_refers _ q.acl_in e9;
        acl_out = acl_refers _ q.acl_out e10;
      }

  pub gateway-served :
      (p : String) (o : Option VsGateway) → gateway_errors texts c p o ≡ [] → GatewayServed o
  gateway-served p none h = tt
  gateway-served p (some g) h =
      let (h1, e4) = append-nil _ (check_acl_ref c (p +++ ".gateway.acl_out") g.acl_out) h in
      let (h2, e3) = append-nil _ (check_acl_ref c (p +++ ".gateway.acl_in") g.acl_in) h1 in
      let (e1, e2) =
        append-nil
          (address_errors texts c (p +++ ".gateway") 0 g.addresses "网关地址 %q 必须是 ip-prefix（CIDR）") _
          h2 in
      record {
        vrf = refers (str_eq g.vrf "") (is_vrf c g.vrf) (error_if-nil _ _ _ e2);
        acl_in = acl_refers _ g.acl_in e3;
        acl_out = acl_refers _ g.acl_out e4;
      }

  pub switch-served :
      (p : String) (s : VirtualSwitch) → switch_errors texts c p s ≡ [] → GatewayServed s.gateway
  switch-served p s h = gateway-served p s.gateway (all_of-nil (switch_blocks texts c p s) h).1.1.0

  pub switch-IsPlugged :
      (p : String) (s : VirtualSwitch) → switch_errors texts c p s ≡ [] → All IsPlugged s.ports
  switch-IsPlugged p s h =
      let (e1, (e2, (e3, (e4, (e5, e6))))) = all_of-nil (switch_blocks texts c p s) h in
      All-map _ IsPlugged s.ports
        (λ q e. port-IsPlugged (p +++ ".ports[" +++ texts.show q.seq +++ "]") s q e)
        (flat_map-nil _ s.ports e5)

  pub l3-routed : (p : String) (l : L3Interface) → l3_errors texts c p l ≡ [] → IsRouted l
  l3-routed p l h =
      let (e1, (e2, (e3, e4))) = all_of-nil (l3_blocks texts c p l) h in
      record { exists = not-false _ (error_if-nil _ _ _ e1); acl_in = acl_refers _ l.acl_in e3 }

  pub vrf-routed :
      (p : String) (r : Vrf) → vrf_errors texts c p r ≡ [] → All IsRouted r.l3_interfaces
  vrf-routed p r h =
      All-map _ IsRouted r.l3_interfaces
        (λ l e. l3-routed (p +++ ".l3_interfaces[" +++ l.interface +++ "]") l e)
        (flat_map-nil _ r.l3_interfaces (all_of-nil (vrf_blocks texts c p r) h).1.0)

  pub analyzer-exists : (p a : String) → analyzer_errors texts c p a ≡ [] → is_iface c a ≡ true
  analyzer-exists p a h = ground arith

  pub mirror-IsMirrored :
      (p : String) (m : PortMirroring) → mirror_errors texts c p m ≡ [] → IsMirrored m
  mirror-IsMirrored p m h =
      let (e1, (e2, (e3, (e4, (e5, e6))))) = all_of-nil (mirror_blocks texts c p m) h in
      record {
        interface =
            refers (str_eq m.source.interface "") (any_iface c m.source.interface)
              (error_if-nil _ _ _ e1);
        vnf = refers (str_eq m.source.vnf "") _ (error_if-nil _ _ _ e2);
        analyzer = analyzer-exists p m.analyzer e5;
      }

  pub nat_rule-IsTranslated :
      (pools : List NatSourcePool) (r : NatRule) (inside outside : String)
      → all_of (nat_rule_blocks texts c pools inside outside r) ≡ []
      → IsTranslated pools r
  nat_rule-IsTranslated pools r inside outside h =
      let (e1, (e2, (e3, (e4, (e5, e6))))) =
        all_of-nil (nat_rule_blocks texts c pools inside outside r) h in
      record {
        switch = not-false _ (error_if-nil _ _ _ e2);
        pool = refers (str_eq r.action.source_pool "") _ (error_if-nil _ _ _ e5);
      }

  pub nat_rules-IsTranslated :
      (pools : List NatSourcePool) (rs : List NatRule) (inside outside : String)
      → nat_rules_errors texts c pools inside outside rs ≡ []
      → All (IsTranslated pools) rs
  unfolding nat_rules_errors
  nat_rules-IsTranslated pools [] inside outside h = tt
  nat_rules-IsTranslated pools (r ∷ rs) inside outside h =
      let (e, es) = append-nil (all_of (nat_rule_blocks texts c pools inside outside r)) _ h in
      (nat_rule-IsTranslated pools r inside outside e, nat_rules-IsTranslated pools rs _ _ es)

  pub nat-IsTranslated :
      (n : Option NatConfig)
      → nat_errors texts c n ≡ []
      → All (IsTranslated (pools_of n)) (rules_of n)
  nat-IsTranslated none h = tt
  nat-IsTranslated (some n) h =
      nat_rules-IsTranslated n.source_pools n.rules "" ""
        (all_of-nil (nat_blocks texts c n) h).1.1.1.0
