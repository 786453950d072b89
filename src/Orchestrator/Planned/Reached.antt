-- ===== src/Orchestrator/Planned/Reached.antt =====
-- A plan leads the data plane from the objects of one configuration to those of another.
use nfvis.Prelude.{String, List, [], ◌++◌, ◌≡◌, refl}
use nfvis.Model.{Config}
use nfvis.Orchestrator.Actions.{Step}
use nfvis.Orchestrator.Ports.{switch_members_of}
use nfvis.Orchestrator.Steps.{named, port_key}
use nfvis.Orchestrator.Plan.{
  Site, plan, joined, additions, removals, ports, acl_name, bond_name, span_name, qos_name, vm_name,
  container_name,
}
use nfvis.Orchestrator.Planned.Views.{run_view}
use nfvis.Orchestrator.Planned.Names.{IsUnique}
use nfvis.Orchestrator.Planned.Objects.{
  port_view, acl_view, bond_view, span_view, qos_view, vm_view, container_view,
}

module _ (site : Site) where
  -- Behind a run of `ss` in which every call succeeds, from a data plane with the objects of `old`,
  -- the data plane has those of `new`, under each name: the ports of machines and containers, the
  -- access lists, bonds, mirrors, policers, machines and containers.
  pub record IsReached (old new : Config) (ss : List Step) : Type 0 where
    pub ports :
        (n : String)
        → run_view port_view ss (λ m. named port_key m (ports site old)) n
          ≡ named port_key n (ports site new)
    pub acls :
        (n : String)
        → run_view acl_view ss (λ m. named acl_name m old.acls) n ≡ named acl_name n new.acls
    pub bonds :
        (n : String)
        → run_view bond_view ss (λ m. named bond_name m old.bonds) n ≡ named bond_name n new.bonds
    pub spans :
        (n : String)
        → run_view span_view ss (λ m. named span_name m old.port_mirroring) n
          ≡ named span_name n new.port_mirroring
    pub qoss :
        (n : String)
        → run_view qos_view ss (λ m. named qos_name m old.qos_policies) n
          ≡ named qos_name n new.qos_policies
    pub vms :
        (n : String)
        → run_view vm_view ss (λ m. named vm_name m old.virtual_machine_functions) n
          ≡ named vm_name n new.virtual_machine_functions
    pub containers :
        (n : String)
        → run_view container_view ss (λ m. named container_name m old.container_functions) n
          ≡ named container_name n new.container_functions

  -- No two objects of one kind have one name.
  pub record HasUniqueNames (c : Config) : Type 0 where
    pub ports : IsUnique port_key (ports site c)
    pub acls : IsUnique acl_name c.acls
    pub bonds : IsUnique bond_name c.bonds
    pub spans : IsUnique span_name c.port_mirroring
    pub qoss : IsUnique qos_name c.qos_policies
    pub vms : IsUnique vm_name c.virtual_machine_functions
    pub containers : IsUnique container_name c.container_functions

  pub plan-blocks :
      (old new : Config)
      → (switch_members_of site.paths new).1 ≡ []
      → plan site old new ≡ joined (additions site old new ++ removals site old new)
  unfolding plan
  plan-blocks old new placed = rw placed refl
