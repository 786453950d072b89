-- ===== src/Validate/Ports.antt =====
-- The checks of what a port is used for: `checkPortRoleExclusivity` and `checkManagementIsolation` of
-- internal/model/validate.go.
use nfvis.Prelude.{
  ℕ, suc, String, ◌+++◌, Bool, not, ◌&&◌, Option, none, some, List, [], ◌∷◌, ◌++◌, str_eq,
  if◌then◌else◌, flat_map,
}
use nfvis.Model.{
  Config, Bond, InterfaceConfig, L3Interface, MgmtConfig, PortMirroring, SystemConfig,
  VirtualSwitch, VppConfig, VppDevOverride, VppDpdk, VswitchPort, Vrf, ValidateError,
}
use nfvis.Validate.Tables.{
  Texts, all_of, errf, error_if, mem_str, is_iface, any_iface, l3_iface_exists,
}

-- A call of `claim`: whether the port is there, and the path for the error.
pub record RoleClaim : Type 0 where
  pub name : String
  pub path : String
  pub exists : Bool

abbrev counts : RoleClaim → Bool
counts k = not (str_eq k.name "") && k.exists

-- The claims that `claim` does not pass over.
unfoldable pub counted : List RoleClaim → List RoleClaim
counted [] = []
counted (k ∷ ks) = let rest = counted ks in if counts k then k ∷ rest else rest

abbrev pub conflict : String
conflict = "接口 %q 的角色冲突：已作为%s（%s），不能再作为%s——" +++ "同一网口在 bond 成员/交换机端口/L3 接口/镜像源或分析口 中只能出现一次"

-- `claim` on one after the other, with the names that are taken.
unfoldable pub claim_all : List String → List RoleClaim → List ValidateError
claim_all seen [] = []
claim_all seen (k ∷ ks) =
    let taken_on = claim_all seen ks in
    let taken_now = claim_all (k.name ∷ seen) ks in
    if not (counts k)
    then taken_on
    else if mem_str k.name seen
    then errf k.path conflict ++ taken_on
    else taken_now

-- A loop with an index.
abbrev pub each : {A B : Type 0} → (ℕ → A → List B) → ℕ → List A → List B
each f i [] = []
each f i (x ∷ xs) = f i x ++ each f (suc i) xs

module _ (texts : Texts) (c : Config) where
  abbrev at : String → ℕ → String
  at p i = p +++ "[" +++ texts.show i +++ "]"

  abbrev pub bond_claims : Bond → List RoleClaim
  bond_claims b =
      each
        (λ i m.
          record {
            name = m;
            path = at ("bonds[" +++ b.name +++ "].members") i;
            exists = is_iface c m;
          }
          ∷ [])
        0 b.members

  abbrev pub switch_claims : VirtualSwitch → List RoleClaim
  switch_claims s =
      flat_map
        (λ (q : VswitchPort).
          record {
            name = q.interface;
            path = at ("virtual-switches[" +++ s.name +++ "].ports") q.seq +++ ".interface";
            exists = any_iface c q.interface;
          }
          ∷ [])
        s.ports

  abbrev pub vrf_claims : Vrf → List RoleClaim
  vrf_claims r =
      flat_map
        (λ (l : L3Interface).
          record {
            name = l.interface;
            path = "vrfs[" +++ r.name +++ "].l3_interfaces[" +++ l.interface +++ "].interface";
            exists = l3_iface_exists texts c l.interface;
          }
          ∷ [])
        r.l3_interfaces

  abbrev pub mirror_claims : PortMirroring → List RoleClaim
  mirror_claims m =
      record {
        name = m.source.interface;
        path = "port-mirroring[" +++ m.name +++ "].source.interface";
        exists = any_iface c m.source.interface;
      }
      ∷ record {
        name = m.analyzer;
        path = "port-mirroring[" +++ m.name +++ "].analyzer";
        exists = is_iface c m.analyzer;
      }
      ∷ []

  -- The calls of `claim`, in their order.
  abbrev pub role_claims : List RoleClaim
  role_claims =
      flat_map bond_claims c.bonds
      ++ flat_map switch_claims c.virtual_switches
      ++ flat_map vrf_claims c.vrfs
      ++ flat_map mirror_claims c.port_mirroring

  -- `checkPortRoleExclusivity`.
  unfoldable pub check_port_role_exclusivity : List ValidateError
  unfolding claim_all is_iface any_iface l3_iface_exists
  check_port_role_exclusivity = claim_all [] role_claims

  module _ (mgmt : String) where
    -- `conflict`, where the port is the one of the management.
    abbrev pub conflict_if : String → String → String → List ValidateError
    conflict_if name path what =
        error_if (str_eq name mgmt) path ("管理网卡 %q 不得用于数据面（" +++ what +++ "）：管理面须与业务面隔离")

    abbrev pub interface_conflicts : List ValidateError
    interface_conflicts =
        each
          (λ i (x : InterfaceConfig).
            conflict_if x.name (at "interfaces" i +++ ".name") "interfaces 声明为业务网卡")
          0 c.interfaces

    abbrev pub dev_conflicts : Option VppDpdk → List ValidateError
    dev_conflicts none = []
    dev_conflicts (some d) =
        each
          (λ i (x : VppDevOverride).
            conflict_if x.interface (at "vpp.dpdk.per_dev" i +++ ".interface") "DPDK 设备参数覆盖")
          0 d.per_dev

    abbrev pub vpp_conflicts : Option VppConfig → List ValidateError
    vpp_conflicts none = []
    vpp_conflicts (some v) = dev_conflicts v.dpdk

    abbrev pub bond_conflicts : List ValidateError
    bond_conflicts =
        each
          (λ i (b : Bond).
            each
              (λ j m.
                conflict_if m (at (at "bonds" i +++ ".members") j) ("bond " +++ b.name +++ " 成员"))
              0 b.members)
          0 c.bonds

    abbrev pub port_conflicts : List ValidateError
    port_conflicts =
        each
          (λ i (s : VirtualSwitch).
            each
              (λ j (q : VswitchPort).
                conflict_if q.interface
                  (at (at "virtual-switches" i +++ ".ports") j +++ ".interface")
                  ("交换机 " +++ s.name +++ " 端口"))
              0 s.ports)
          0 c.virtual_switches

    abbrev pub l3_conflicts : List ValidateError
    l3_conflicts =
        each
          (λ i (r : Vrf).
            each
              (λ j (l : L3Interface).
                conflict_if l.interface (at (at "vrfs" i +++ ".l3_interfaces") j +++ ".interface")
                  ("VRF " +++ r.name +++ " 的 L3 接口"))
              0 r.l3_interfaces)
          0 c.vrfs

    abbrev pub mirror_conflicts : List ValidateError
    mirror_conflicts =
        each
          (λ i (m : PortMirroring).
            conflict_if m.source.interface (at "port-mirroring" i +++ ".source.interface") "镜像源端口"
            ++ conflict_if m.analyzer (at "port-mirroring" i +++ ".analyzer") "镜像分析端口")
          0 c.port_mirroring

    abbrev pub conflict_blocks : List (List ValidateError)
    conflict_blocks =
        interface_conflicts
        ∷ vpp_conflicts c.vpp
        ∷ bond_conflicts
        ∷ port_conflicts
        ∷ l3_conflicts
        ∷ mirror_conflicts
        ∷ []

  abbrev isolation_of : Option MgmtConfig → List ValidateError
  isolation_of none = []
  isolation_of (some m) = if str_eq m.interface "" then [] else all_of (conflict_blocks m.interface)

  abbrev system_isolation : Option SystemConfig → List ValidateError
  system_isolation none = []
  system_isolation (some s) = isolation_of s.management

  -- `checkManagementIsolation`.
  unfoldable pub check_management_isolation : List ValidateError
  check_management_isolation = system_isolation c.system
