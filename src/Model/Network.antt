-- ===== src/Model/Network.antt =====
-- Interfaces, switches, VRFs, ACLs, NAT, mirroring, QoS and protocols (internal/model/model.go).
use nfvis.Prelude.{ℕ, String, Bool, Option, List}

pub record InterfaceSriov : Type 0 where
  pub vf_count : ℕ

pub record InterfaceConfig : Type 0 where
  pub name : String
  pub description : String
  pub mtu : ℕ
  pub enabled : Option Bool
  pub sriov : Option InterfaceSriov
  pub ingress_policy : String

pub record Lacp : Type 0 where
  pub mode : String
  pub interval : String

pub record Bond : Type 0 where
  pub name : String
  pub members : List String
  pub lacp : Option Lacp
  pub mtu : ℕ
  pub description : String

pub record VsGateway : Type 0 where
  pub addresses : List String
  pub vrf : String
  pub acl_in : String
  pub acl_out : String

pub record VswitchPort : Type 0 where
  pub seq : ℕ
  pub interface : String
  pub vnf : String
  pub vnf_interface : String
  pub container : String
  pub container_interface : String
  pub trunk : List ℕ
  pub native : ℕ
  pub acl_in : String
  pub acl_out : String

pub record VirtualSwitch : Type 0 where
  pub name : String
  pub type : String
  pub description : String
  pub vlan_access : ℕ
  pub cross_connect : Bool
  pub gateway : Option VsGateway
  pub ports : List VswitchPort

pub record L3Interface : Type 0 where
  pub interface : String
  pub vlan : ℕ
  pub addresses : List String
  pub acl_in : String

pub record Route : Type 0 where
  pub prefix : String
  pub next_hop : String
  pub distance : ℕ

pub record Vrf : Type 0 where
  pub name : String
  pub description : String
  pub l3_interfaces : List L3Interface
  pub routes : List Route

pub record AclRule : Type 0 where
  pub seq : ℕ
  pub direction : String
  pub source : String
  pub destination : String
  pub protocol : String
  pub source_port : String
  pub destination_port : String
  pub action : String

pub record Acl : Type 0 where
  pub name : String
  pub description : String
  pub rules : List AclRule

pub record NatSourcePool : Type 0 where
  pub name : String
  pub address_range : String

pub record NatAction : Type 0 where
  pub source_pool : String
  pub interface : String

pub record NatRule : Type 0 where
  pub seq : ℕ
  pub match_source : String
  pub virtual_switch : String
  pub action : NatAction

pub record NatStatic : Type 0 where
  pub inside_ip : String
  pub outside_ip : String

pub record NatConfig : Type 0 where
  pub source_pools : List NatSourcePool
  pub rules : List NatRule
  pub static : List NatStatic

pub record PmSource : Type 0 where
  pub interface : String
  pub vnf : String
  pub vnf_interface : String
  pub direction : String

pub record PortMirroring : Type 0 where
  pub name : String
  pub source : PmSource
  pub analyzer : String

pub record QosPolicy : Type 0 where
  pub name : String
  pub cir : ℕ
  pub cbs : ℕ

pub record LldpInterface : Type 0 where
  pub interface : String
  pub enabled : Bool

pub record LldpConfig : Type 0 where
  pub enabled : Bool
  pub advertisement_interval : ℕ
  pub interfaces : List LldpInterface

pub record ProtocolsConfig : Type 0 where
  pub lldp : Option LldpConfig
