-- ===== src/Model/Equality.antt =====
-- `configEq` (internal/config/engine.go): equality of configuration values by their JSON text,
-- which is equality of the values, a nil pointer (`null`) differing from an empty struct (`{}`).
use nfvis.Prelude.{String_discrete, ℕ_discrete}
use nfvis.Model.System.{MgmtConfig}
use nfvis.Model.Network.{
  Acl, Bond, InterfaceConfig, NatConfig, PortMirroring, ProtocolsConfig, QosPolicy, VirtualSwitch,
  Vrf,
}
use nfvis.Model.Compute.{ContainerFunction, ResourcePool, VmFunction, VppConfig}
use nfvis.Model.Tree.{Config}
use mathlib.Core.Option.{Option}

unfoldable pub MgmtConfig_discrete : Discrete (Option MgmtConfig)
MgmtConfig_discrete = hlevel String_discrete

unfoldable pub VppConfig_discrete : Discrete (Option VppConfig)
VppConfig_discrete = hlevel (String_discrete, ℕ_discrete)

unfoldable pub ResourcePool_discrete : Discrete (Option ResourcePool)
ResourcePool_discrete = hlevel (String_discrete, ℕ_discrete)

unfoldable pub Config_discrete : Discrete Config
Config_discrete = hlevel (String_discrete, ℕ_discrete)

unfoldable pub Acl_discrete : Discrete Acl
Acl_discrete = hlevel (String_discrete, ℕ_discrete)

unfoldable pub Bond_discrete : Discrete Bond
Bond_discrete = hlevel (String_discrete, ℕ_discrete)

unfoldable pub InterfaceConfig_discrete : Discrete InterfaceConfig
InterfaceConfig_discrete = hlevel (String_discrete, ℕ_discrete)

unfoldable pub PortMirroring_discrete : Discrete PortMirroring
PortMirroring_discrete = hlevel (String_discrete, ℕ_discrete)

unfoldable pub QosPolicy_discrete : Discrete QosPolicy
QosPolicy_discrete = hlevel (String_discrete, ℕ_discrete)

unfoldable pub VirtualSwitch_discrete : Discrete VirtualSwitch
VirtualSwitch_discrete = hlevel (String_discrete, ℕ_discrete)

unfoldable pub Vrf_discrete : Discrete Vrf
Vrf_discrete = hlevel (String_discrete, ℕ_discrete)

unfoldable pub VmFunction_discrete : Discrete VmFunction
VmFunction_discrete = hlevel (String_discrete, ℕ_discrete)

unfoldable pub ContainerFunction_discrete : Discrete ContainerFunction
ContainerFunction_discrete = hlevel (String_discrete, ℕ_discrete)

unfoldable pub NatConfig_discrete : Discrete (Option NatConfig)
NatConfig_discrete = hlevel (String_discrete, ℕ_discrete)

unfoldable pub ProtocolsConfig_discrete : Discrete (Option ProtocolsConfig)
ProtocolsConfig_discrete = hlevel (String_discrete, ℕ_discrete)
