-- ===== src/Model/Tree.antt =====
-- The whole configuration tree (internal/model/model.go, `Config`).
use nfvis.Prelude.{String, Option, List}
use nfvis.Model.System.{SystemConfig}
use nfvis.Model.Network.{
  InterfaceConfig, Bond, VirtualSwitch, Vrf, Acl, NatConfig, PortMirroring, QosPolicy,
  ProtocolsConfig,
}
use nfvis.Model.Compute.{ResourcePool, VppConfig, VmFunction, ContainerFunction}

pub record Config : Type 0 where
  pub system : Option SystemConfig
  pub interfaces : List InterfaceConfig
  pub bonds : List Bond
  pub virtual_switches : List VirtualSwitch
  pub vrfs : List Vrf
  pub acls : List Acl
  pub nat : Option NatConfig
  pub port_mirroring : List PortMirroring
  pub qos_policies : List QosPolicy
  pub resource_pools : Option ResourcePool
  pub vpp : Option VppConfig
  pub protocols : Option ProtocolsConfig
  pub virtual_machine_functions : List VmFunction
  pub container_functions : List ContainerFunction
  pub annotations : List (String × String)
