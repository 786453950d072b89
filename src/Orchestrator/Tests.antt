-- ===== src/Orchestrator/Tests.antt =====
-- A data plane that holds access lists and refuses one of them.
use nfvis.Prelude.{
  String, ◌+++◌, true, none, some, Option, List, [], ◌∷◌, map, any, ◌≡◌, refl, str_eq,
  if◌then◌else◌, subst, sym, ap, ◌∙◌,
}
use nfvis.Model.{
  Config, Acl, Acl_discrete, check_super_user_present, effective_class, MgmtConfig_discrete,
  VppConfig_discrete, ResourcePool_discrete, Config_discrete,
}
use nfvis.Engine.Checks.{sys_mgmt_changed, deleted_nat_ref_vrfs, numa_warnings}
use nfvis.Engine.HighRisk.{high_risk_config_intent, user_change_parts, login_of}
use nfvis.Engine.Db.{append_audit}
use nfvis.Engine.Types.{ok, err, Result, substrate}
use nfvis.Engine.State.{Env, Engine, ◌>>=◌, committed}
use nfvis.Engine.Lifecycle.{sweep}
use nfvis.Engine.Commit.{commit_session, commit_swept, confirm_implicitly}
use nfvis.Engine.Commits.Before.{before}
use nfvis.Engine.Tests.Setup.{
  alice, alice_lock, one_user, no_config, first_row, options, tables, no_fault-IsHealthy,
}
use nfvis.Orchestrator.Executor.{
  Op, Plane, Failure, undo_op, undo_all, compensate, execute, apply_changes,
}
use nfvis.Orchestrator.Actions.{
  Action, apply_acl, delete_acl, ProviderError, other_error, Deferred, carry_out, op_of,
}
use nfvis.Orchestrator.Ports.{
  vrf_for_switch, sort_ports, vnf_ports_of, vnic_port_key, vnic_key_of_port, place_port,
  place_ports, switch_members_of,
}
use nfvis.Orchestrator.Steps.{applies, deletes, by_name}
use nfvis.Orchestrator.Plan.{Site, plan, additions, removals}
use nfvis.Orchestrator.Reversal.{IsReversible, IsAtomic, apply_changes-IsAtomic}
use nfvis.Orchestrator.Report.{IsReported, execute-IsReported}
use nfvis.Orchestrator.Atomic.{with_applier, commit_failure-state}

abbrev acl : String → String → Acl
acl name text = record { name = name; description = text; rules = [] }

abbrev put : Acl → List Acl → List Acl
put a [] = a ∷ []
put a (b ∷ bs) = if str_eq a.name b.name then a ∷ bs else b ∷ put a bs

abbrev remove : String → List Acl → List Acl
remove n [] = []
remove n (b ∷ bs) = if str_eq b.name n then bs else b ∷ remove n bs

-- The data plane refuses the list "bad".
abbrev perform : Action → List Acl → List Acl × Option ProviderError
perform (apply_acl a) p =
    if str_eq a.name "bad" then (p, some (other_error "stuck")) else (put a p, none)
perform (delete_acl n) p = (remove n p, none)
perform a p = (p, none)

abbrev site : Site
site = record {
  paths = record { vhost_dir = "/vhost"; memif_dir = "/memif"; join = λ d f. d +++ "/" +++ f };
  equal_fold = str_eq;
  parse_cores = λ s. none;
}

abbrev ops : Config → Config → List (Op (Deferred (List Acl)))
ops old new = map (op_of perform) (plan site old new)

abbrev bare : Config
bare = record no_config { acls = acl "out" "old" ∷ [] }

abbrev full : Config
full = record one_user { acls = acl "in" "new" ∷ acl "dmz" "new" ∷ acl "bad" "new" ∷ [] }

abbrev plane : Plane (Deferred (List Acl))
plane = record { state = record { plane = bare.acls; notes = [] }; alarms = [] }

ops-IsReversible : IsReversible (ops bare full) plane.state
unfolding any plan additions removals applies deletes by_name carry_out op_of switch_members_of
    Acl_discrete
ops-IsReversible = (refl, (refl, refl))

apply_changes-IsAtomic_example : IsAtomic plane.state (apply_changes ops bare full plane)
apply_changes-IsAtomic_example = apply_changes-IsAtomic ops bare full plane ops-IsReversible

execute-IsReported_example : IsReported (ops bare full) [] plane (execute (ops bare full) [] plane)
execute-IsReported_example = execute-IsReported (ops bare full) [] plane

abbrev text : Failure → String
text f = f.error

abbrev base_env : Env Config (Plane (Deferred (List Acl)))
base_env = record {
  encode = λ c. c;
  decode = λ c. some c;
  apply = λ old new s. (s, none);
  validate = λ c. [];
  merge = λ c patch. some patch;
  images = none;
  topology = none;
  time_synced = none;
  lock_idle_ttl = 100;
}

abbrev env : Env Config (Plane (Deferred (List Acl)))
env = with_applier ops text base_env

abbrev started : Engine Config (Plane (Deferred (List Acl)))
started = record {
  store = record tables {
    lock = some alice_lock;
    revisions = record first_row { config_json = bare } ∷ [];
  };
  candidate = some full;
  holder = "alice@ssh";
  dirty = true;
  timer = none;
  substrate = plane;
  events = [];
  commits = [];
}

abbrev stopped_state : Engine Config (Plane (Deferred (List Acl)))
stopped_state = (commit_session env 10 alice (options 0) started).1

commit_stops :
    commit_session env 10 alice (options 0) started ≡ (err (substrate "stuck"), stopped_state)
unfolding ◌>>=◌ sweep commit_session commit_swept check_super_user_present effective_class
    sys_mgmt_changed MgmtConfig_discrete high_risk_config_intent user_change_parts login_of
    append_audit VppConfig_discrete ResourcePool_discrete deleted_nat_ref_vrfs numa_warnings execute
    undo_all undo_op compensate apply_changes Config_discrete any plan additions removals applies
    deletes by_name carry_out op_of switch_members_of vrf_for_switch sort_ports vnf_ports_of
    vnic_port_key vnic_key_of_port place_port place_ports
commit_stops = refl

some_eq : (x y : Config) → some x ≡ some y → x ≡ y
some_eq x y p = cc p

ok_eq :
    (x y : Config) (e : Engine Config (Plane (Deferred (List Acl))))
    → ◌≡◌ {A = Result Config × Engine Config (Plane (Deferred (List Acl)))} (ok x, e) (ok y, e)
    → x ≡ y
ok_eq x y e p = cc (ap (λ r. r.0) p)

committed-base :
    committed env (before env 10 alice started) ≡ (ok bare, before env 10 alice started)
unfolding ◌>>=◌ sweep confirm_implicitly committed
committed-base = refl

-- What the failing commit applies can be taken back.
ops-IsReversible_there :
    (base c : Config)
    → committed env (before env 10 alice started) ≡ (ok base, before env 10 alice started)
    → (before env 10 alice started).candidate ≡ some c
    → IsReversible (ops base c) (before env 10 alice started).substrate.state
unfolding ◌>>=◌ sweep confirm_implicitly
ops-IsReversible_there base c p q =
    subst (λ k. IsReversible (ops k c) plane.state)
      (ok_eq bare base (before env 10 alice started) (sym committed-base ∙ p))
      (subst (λ k. IsReversible (ops bare k) plane.state) (some_eq full c q) ops-IsReversible)

commit_failure-state_example :
    stopped_state.substrate.state ≡ (before env 10 alice started).substrate.state
commit_failure-state_example =
    commit_failure-state ops text base_env 10 alice (options 0) started (substrate "stuck")
      stopped_state no_fault-IsHealthy ops-IsReversible_there commit_stops
