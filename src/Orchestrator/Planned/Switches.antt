-- ===== src/Orchestrator/Planned/Switches.antt =====
-- The bridge domains of a plan.
use nfvis.Prelude.{
  ℕ, String, Bool, true, false, ◌==◌, ◌||◌, Option, none, some, [], ◌++◌, ◌≡◌, refl, ap, ◌∙◌,
  filter,
}
use nfvis.Model.{Config, VirtualSwitch, VirtualSwitch_discrete}
use nfvis.Orchestrator.Actions.{Action, apply_bridge_domain, delete_bridge_domain}
use nfvis.Orchestrator.Ports.{switch_members_of}
use nfvis.Orchestrator.Steps.{applies, deletes, has_name, by_name, is_l2, switch_step}
use nfvis.Orchestrator.Plan.{
  Site, plan, additions, removals, members, switch_name, delete_switch_step,
}
use nfvis.Orchestrator.Planned.Blocks.{rank, blocks-AreRanked}
use nfvis.Orchestrator.Planned.Views.{run_view, run_view-kept, run_view-joined}
use nfvis.Orchestrator.Planned.Named.{applies-other, deletes-spared}
use nfvis.Orchestrator.Planned.Reached.{plan-blocks}

abbrev pub switch_view : Action → Option (String × Option VirtualSwitch)
switch_view (apply_bridge_domain x) = some (x.name, some x)
switch_view (delete_bridge_domain n) = some (n, none)
switch_view a = none

abbrev switch_rank : ℕ → Bool
switch_rank k = k == 3 || k == 14

switch_hidden : (a : Action) → switch_rank (rank a) ≡ false → switch_view a ≡ none
switch_hidden (apply_bridge_domain x) h = cc h
switch_hidden (delete_bridge_domain n) h = cc h
switch_hidden a h = refl

module _ (site : Site) (old new : Config) where
  -- A bridge domain stays as it is when some switch of the new configuration has its name, of
  -- whatever type, and none of type l2 does: a switch that has become l3 leaves its bridge domain
  -- behind.
  pub plan-spares_bridge_domain :
      (placed : (switch_members_of site.paths new).1 ≡ []) (n : String)
      (st : String → Option VirtualSwitch)
      → has_name switch_name n new.virtual_switches ≡ true
      → has_name switch_name n (filter is_l2 (members site new)) ≡ false
      → run_view switch_view (plan site old new) st n ≡ st n
  unfolding additions removals
  plan-spares_bridge_domain placed n st has l2 =
      let olds = by_name switch_name (members site old) in
      ap (λ ss. run_view switch_view ss st n) (plan-blocks site old new placed)
      ∙ ap (λ f. f n)
          (run_view-kept switch_view switch_rank switch_hidden 0
            (additions site old new ++ removals site old new) st (blocks-AreRanked site old new))
      ∙ ap (λ f. f n)
          (run_view-joined switch_view
            (applies switch_name VirtualSwitch_discrete switch_step (members site old)
              (filter is_l2 (members site new)))
            (deletes switch_name (delete_switch_step site) (filter is_l2 olds)
              (λ m. has_name switch_name m new.virtual_switches))
            st)
      ∙ deletes-spared switch_name switch_view (delete_switch_step site) (λ x. refl)
          (filter is_l2 olds) _ n _ has
      ∙ applies-other switch_name switch_view VirtualSwitch_discrete switch_step (λ x o. refl)
          (members site old) _ n st l2
