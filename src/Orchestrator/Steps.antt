-- ===== src/Orchestrator/Steps.antt =====
-- The operations of a plan, kind by kind (internal/orchestrator/apply.go).
use nfvis.Prelude.{
  String, ◌+++◌, Bool, true, false, not, ◌&&◌, ◌||◌, Option, none, some, List, [], ◌∷◌, ◌++◌, map,
  str_eq, if◌then◌else◌, any, flat_map, find_last, holds,
}
use nfvis.Model.{
  Acl, Bond, ContainerFunction, InterfaceConfig, LldpConfig, NatConfig, PortMirroring,
  ProtocolsConfig, QosPolicy, Route, VirtualSwitch, VppConfig, Vrf, VppDevOverride,
  NatConfig_discrete, ProtocolsConfig_discrete,
}
use nfvis.Orchestrator.Ports.{VnfPort}
use nfvis.Orchestrator.Actions.{
  Action, Step, apply_vnf_interface, delete_vnf_interface, apply_acl, delete_acl, apply_bond,
  delete_bond, apply_bridge_domain, delete_bridge_domain, apply_vrf, delete_vrf, apply_route,
  delete_route, apply_nat, apply_span, delete_span, apply_qos, delete_qos, apply_lldp,
  apply_interface, apply_container, delete_container, nothing,
}

module _ {T : Type 0} (name : T → String) where
  -- The lookup in a `nameMap`: the last object with the name.
  abbrev pub named : String → List T → Option T
  named n = find_last (λ x. str_eq (name x) n)

  abbrev pub has_name : String → List T → Bool
  has_name n = any (λ x. str_eq (name x) n)

  -- The values of a `nameMap`.
  unfoldable pub by_name : List T → List T
  unfolding any
  by_name [] = []
  by_name (x ∷ xs) = let rest = by_name xs in if has_name (name x) xs then rest else x ∷ rest

  abbrev pub step_if_changed : Discrete T → (T → Option T → Step) → Option T → T → List Step
  step_if_changed eq mk none x = mk x none ∷ []
  step_if_changed eq mk (some o) x = if holds (eq o x) then [] else mk x (some o) ∷ []

  -- An operation for each object of `news` that `olds` does not have as it is.
  unfoldable pub applies : Discrete T → (T → Option T → Step) → List T → List T → List Step
  applies eq mk olds [] = []
  applies eq mk olds (x ∷ xs) =
      step_if_changed eq mk (named (name x) olds) x ++ applies eq mk olds xs

  -- An operation for each object of `olds` whose name `taken` does not have.
  unfoldable pub deletes : (T → Step) → List T → (String → Bool) → List Step
  deletes mk [] taken = []
  deletes mk (x ∷ xs) taken = (if taken (name x) then [] else mk x ∷ []) ++ deletes mk xs taken

abbrev pub labelled : String → String → String
labelled what name = what +++ "[" +++ name +++ "]"

abbrev pub undo_of : {T : Type 0} → (T → Action) → Action → Option T → Action
undo_of apply delete none = delete
undo_of apply delete (some o) = apply o

-- `applyOp`: undone by the old object, or by a deletion.
abbrev pub apply_op : {T : Type 0} → String → (T → Action) → Action → T → Option T → Step
apply_op desc apply delete x o = record {
  desc = desc;
  run = apply x;
  undo = undo_of apply delete o;
  compensate_on_fail = false;
}

abbrev pub delete_op : {T : Type 0} → String → (T → Action) → Action → T → Step
delete_op desc apply delete x = record {
  desc = desc;
  run = delete;
  undo = apply x;
  compensate_on_fail = false;
}

abbrev pub compensated : Step → Step
compensated s = record s { compensate_on_fail = true }

-- `portKeyOf`.
abbrev pub port_key : VnfPort → String
port_key p = p.vm +++ "/" +++ p.interface

abbrev pub acl_step : Acl → Option Acl → Step
acl_step x = apply_op (labelled "acl" x.name) apply_acl (delete_acl x.name) x

abbrev pub bond_step : Bond → Option Bond → Step
bond_step x = apply_op (labelled "bond" x.name) apply_bond (delete_bond x.name) x

abbrev pub switch_step : VirtualSwitch → Option VirtualSwitch → Step
switch_step x =
    apply_op (labelled "bridge-domain" x.name) apply_bridge_domain (delete_bridge_domain x.name) x

abbrev pub vrf_step : Vrf → Option Vrf → Step
vrf_step x o = compensated (apply_op (labelled "vrf" x.name) apply_vrf (delete_vrf x.name) x o)

abbrev pub span_step : PortMirroring → Option PortMirroring → Step
span_step x = apply_op (labelled "span" x.name) apply_span (delete_span x.name) x

abbrev pub qos_step : QosPolicy → Option QosPolicy → Step
qos_step x = apply_op (labelled "qos" x.name) apply_qos (delete_qos x.name) x

abbrev pub container_step : ContainerFunction → Option ContainerFunction → Step
container_step x =
    apply_op (labelled "container" x.name) apply_container (delete_container x.name) x

abbrev pub port_step : VnfPort → Option VnfPort → Step
port_step x =
    apply_op (labelled "vnf-if" (port_key x)) apply_vnf_interface
      (delete_vnf_interface x.vm x.interface) x

-- The undo of a new interface does nothing.
abbrev pub interface_step : (String → Bool) → InterfaceConfig → Option InterfaceConfig → Step
interface_step dpdk x o = record {
  desc = labelled "interface" x.name;
  run = apply_interface (dpdk x.name) x;
  undo = undo_of (apply_interface false) nothing o;
  compensate_on_fail = false;
}

abbrev dev_overrides : Option VppConfig → List VppDevOverride
dev_overrides none = []
dev_overrides (some v) = elim v.dpdk [ none ↦ [] | some d ↦ d.per_dev ]

-- `dpdkManagedIfaces`.
unfoldable pub dpdk_managed : Option VppConfig → String → Bool
unfolding any
dpdk_managed vpp i =
    not (str_eq i "") && any (λ (d : VppDevOverride). str_eq d.interface i) (dev_overrides vpp)

abbrev pub nat_or_empty : Option NatConfig → NatConfig
nat_or_empty none = record { source_pools = []; rules = []; static = [] }
nat_or_empty (some n) = n

unfoldable pub nat_steps : Option NatConfig → Option NatConfig → List Step
nat_steps old new =
    if holds (NatConfig_discrete old new)
    then []
    else record {
      desc = "nat";
      run = apply_nat (nat_or_empty new);
      undo = apply_nat (nat_or_empty old);
      compensate_on_fail = false;
    }
      ∷ []

abbrev pub lldp_of : Option ProtocolsConfig → Option LldpConfig
lldp_of none = none
lldp_of (some p) = p.lldp

unfoldable pub lldp_steps : Option ProtocolsConfig → Option ProtocolsConfig → List Step
lldp_steps old new =
    if holds (ProtocolsConfig_discrete old new)
    then []
    else record {
      desc = "lldp";
      run = apply_lldp (lldp_of new);
      undo = apply_lldp (lldp_of old);
      compensate_on_fail = false;
    }
      ∷ []

abbrev pub is_l2 : VirtualSwitch → Bool
is_l2 vs = str_eq vs.type "l2"

-- `routeKeyOf`.
abbrev route_key : Route → String
route_key r = r.prefix +++ "|" +++ r.next_hop

abbrev has_route : Route → List Route → Bool
has_route r = any (λ q. str_eq (route_key q) (route_key r))

abbrev routes_gone : List Route → List Route → List Route → List Route
routes_gone keep seen [] = []
routes_gone keep seen (r ∷ rs) =
    let skip = routes_gone keep seen rs in
    let take = r ∷ routes_gone keep (r ∷ seen) rs in
    if has_route r keep || has_route r seen then skip else take

-- `removedRoutes`.
unfoldable pub removed_routes : Vrf → Vrf → List Route
unfolding any
removed_routes old new = routes_gone new.routes [] old.routes

abbrev gone_in : Option Vrf → Vrf → List Route
gone_in none old = old.routes
gone_in (some new) old = removed_routes old new

abbrev route_label : String → Route → String
route_label vrf r =
    if str_eq r.next_hop ""
    then vrf +++ " " +++ r.prefix
    else vrf +++ " " +++ r.prefix +++ " via " +++ r.next_hop

abbrev pub route_step : String → Route → Step
route_step vrf r = record {
  desc = labelled "del-route" (route_label vrf r);
  run = delete_route vrf r;
  undo = apply_route vrf r;
  compensate_on_fail = false;
}

unfoldable pub route_steps : List Vrf → List Vrf → List Step
unfolding removed_routes
route_steps olds news =
    flat_map
      (λ (o : Vrf). map (route_step o.name) (gone_in (named (λ (v : Vrf). v.name) o.name news) o))
      olds
