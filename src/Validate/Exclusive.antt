-- ===== src/Validate/Exclusive.antt =====
-- What a configuration is like in which the checks of Validate/Ports find no error.
use nfvis.Prelude.{
  ℕ, suc, String, false, Option, none, some, List, [], ◌∷◌, All, ◌≡◌, str_eq, refl, sym, ◌∙◌,
}
use nfvis.Model.{
  Config, Bond, InterfaceConfig, L3Interface, MgmtConfig, PortMirroring, SystemConfig,
  VirtualSwitch, VppConfig, VppDevOverride, VppDpdk, VswitchPort, Vrf,
}
use nfvis.Orchestrator.Planned.Names.{IsUnique}
use nfvis.Validate.Tables.{Texts, all_of, error_if}
use nfvis.Validate.Ports.{
  each, check_port_role_exclusivity, conflict_blocks, dev_conflicts, vpp_conflicts,
  check_management_isolation,
}
use nfvis.Validate.Roles.{used_ports, check_port_role_exclusivity-IsUnique}
use nfvis.Validate.Duplicates.{append-nil, all_of-nil, error_if-nil}

pub each-nil :
    {A B : Type 0} (f : ℕ → A → List B) (P : A → Type 0)
    → ((i : ℕ) (x : A) → f i x ≡ [] → P x)
    → (i : ℕ) (xs : List A) → each f i xs ≡ []
    → All P xs
each-nil f P p i [] h = tt
each-nil f P p i (x ∷ xs) h =
    let (e, es) = append-nil (f i x) (each f (suc i) xs) h in
    (p i x e, each-nil f P p (suc i) xs es)

module _ (texts : Texts) (c : Config) (mgmt : String) where
  abbrev IsFree : String → Type 0
  IsFree n = str_eq n mgmt ≡ false

  abbrev overrides_of : Option VppDpdk → List VppDevOverride
  overrides_of none = []
  overrides_of (some d) = d.per_dev

  abbrev devices_of : Option VppConfig → List VppDevOverride
  devices_of none = []
  devices_of (some v) = overrides_of v.dpdk

  -- The data plane does not use the port.
  pub record IsIsolated : Type 0 where
    pub interfaces : All (λ (i : InterfaceConfig). IsFree i.name) c.interfaces
    pub members : All (λ (b : Bond). All IsFree b.members) c.bonds
    pub ports :
        All
          (λ (s : VirtualSwitch). All (λ (q : VswitchPort). IsFree q.interface) s.ports)
          c.virtual_switches
    pub routed :
        All (λ (r : Vrf). All (λ (l : L3Interface). IsFree l.interface) r.l3_interfaces) c.vrfs
    pub mirrored :
        All (λ (m : PortMirroring). IsFree m.source.interface × IsFree m.analyzer) c.port_mirroring
    pub devices : All (λ (d : VppDevOverride). IsFree d.interface) (devices_of c.vpp)

  conflict-free : (n path format : String) → error_if (str_eq n mgmt) path format ≡ [] → IsFree n
  conflict-free n path format h = error_if-nil (str_eq n mgmt) _ _ h

  dpdk-free :
      (d : Option VppDpdk)
      → dev_conflicts texts c mgmt d ≡ []
      → All (λ (x : VppDevOverride). IsFree x.interface) (overrides_of d)
  dpdk-free none h = tt
  dpdk-free (some d) h = each-nil _ _ (λ k x. conflict-free x.interface _ _) 0 d.per_dev h

  vpp-free :
      (v : Option VppConfig)
      → vpp_conflicts texts c mgmt v ≡ []
      → All (λ (x : VppDevOverride). IsFree x.interface) (devices_of v)
  vpp-free none h = tt
  vpp-free (some v) h = dpdk-free v.dpdk h

  conflict_blocks-IsIsolated : all_of (conflict_blocks texts c mgmt) ≡ [] → IsIsolated
  conflict_blocks-IsIsolated h =
      let e = all_of-nil (conflict_blocks texts c mgmt) h in
      record {
        interfaces = each-nil _ _ (λ k x. conflict-free x.name _ _) 0 c.interfaces e.0;
        members =
            each-nil _ _ (λ k x. each-nil _ IsFree (λ j n. conflict-free n _ _) 0 x.members) 0
              c.bonds e.1.1.0;
        ports =
            each-nil _ _ (λ k x. each-nil _ _ (λ j q. conflict-free q.interface _ _) 0 x.ports) 0
              c.virtual_switches e.1.1.1.0;
        routed =
            each-nil _ _
              (λ k x. each-nil _ _ (λ j y. conflict-free y.interface _ _) 0 x.l3_interfaces) 0
              c.vrfs e.1.1.1.1.0;
        mirrored =
            each-nil _ _
              (λ k x h.
                let (s, a) = append-nil _ _ h in
                (conflict-free x.source.interface _ _ s, conflict-free x.analyzer _ _ a))
              0 c.port_mirroring e.1.1.1.1.1.0;
        devices = vpp-free c.vpp e.1.0;
      }

check_management_isolation-given :
    (texts : Texts) (c : Config) (s : SystemConfig) (m : MgmtConfig)
    → c.system ≡ some s
    → s.management ≡ some m
    → str_eq m.interface "" ≡ false
    → check_management_isolation texts c ≡ all_of (conflict_blocks texts c m.interface)
unfolding check_management_isolation
check_management_isolation-given texts c s m is_s is_m given = rw is_s (rw is_m (rw given refl))

-- If a management port is given, and neither the check of roles nor that of the management port finds
-- an error, then no port that is there is used twice, be it as the member of a bond, the port of a switch,
-- an interface of a routing table, or the source or analyzer of a mirror, and no interface, DPDK device, bond, switch, routing table or mirror names the management port.
pub check_ports-IsExclusive :
    (texts : Texts) (c : Config) (s : SystemConfig) (m : MgmtConfig)
    → c.system ≡ some s
    → s.management ≡ some m
    → str_eq m.interface "" ≡ false
    → check_port_role_exclusivity texts c ≡ []
    → check_management_isolation texts c ≡ []
    → IsUnique (λ n. n) (used_ports texts c) × IsIsolated texts c m.interface
check_ports-IsExclusive texts c s m is_s is_m given roles h = (
  check_port_role_exclusivity-IsUnique texts c roles,
  conflict_blocks-IsIsolated texts c m.interface
      (sym (check_management_isolation-given texts c s m is_s is_m given) ∙ h),
)
