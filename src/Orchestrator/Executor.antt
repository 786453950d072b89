-- ===== src/Orchestrator/Executor.antt =====
-- `op` and `Apply` (internal/orchestrator/apply.go). `P` is the state of the data plane; the alarms
-- are the calls of the sink, oldest first. The plan of operations is a parameter.
use nfvis.Prelude.{
  String, Bool, true, false, Option, none, some, List, [], ◌∷◌, ◌++◌, if◌then◌else◌, holds,
}
use nfvis.Model.{Config, Config_discrete}

-- `op`: `run` and `undo` answer the state of the data plane and an error.
pub record Op (P : Type 0) : Type 0 where
  pub desc : String
  pub run : P → P × Option String
  pub undo : P → P × Option String
  pub compensate_on_fail : Bool

-- Calls of `CommitAlarmSink` under the code of a compensation that failed.
pub data AlarmCall : Type 0 where
  residue_raised : String → String → AlarmCall
  residue_resolved : String → AlarmCall

pub record Plane (P : Type 0) : Type 0 where
  pub state : P
  pub alarms : List AlarmCall

-- The error of `Apply`: the operation that failed, and the compensations that failed after it.
pub record Failure : Type 0 where
  pub op : String
  pub error : String
  pub residue : List (String × String)

module _ {P : Type 0} where
  abbrev pub undone : Op P → P × Option String → Plane P → Plane P × List (String × String)
  undone o (p, none) s = (record s { state = p }, [])
  undone o (p, some x) s =
      (record { state = p; alarms = s.alarms ++ residue_raised o.desc x ∷ [] }, (o.desc, x) ∷ [])

  -- One compensation; a failure of it is reported, raises an alarm, and stops nothing.
  unfoldable pub undo_op : Op P → Plane P → Plane P × List (String × String)
  undo_op o s = undone o (o.undo s.state) s

  -- The loop of compensations; the list has the last operation first.
  unfoldable pub undo_all : List (Op P) → Plane P → Plane P × List (String × String)
  unfolding undo_op
  undo_all [] s = (s, [])
  undo_all (o ∷ os) s =
      let (s1, first) = undo_op o s in let (s2, rest) = undo_all os s1 in (s2, first ++ rest)

  -- The compensation of the operation that has failed, if the plan asks for it.
  abbrev pub undo_when : Bool → Op P → Plane P → Plane P × List (String × String)
  undo_when true o s = undo_op o s
  undo_when false o s = (s, [])

  -- What follows the failure `x` of the operation `o`.
  unfoldable pub compensate : Op P → String → List (Op P) → Plane P → Plane P × Option Failure
  unfolding undo_op undo_all
  compensate o x executed s =
      let (s1, first) = undo_when o.compensate_on_fail o s in
      let (s2, rest) = undo_all executed s1 in
      (s2, some (record { op = o.desc; error = x; residue = first ++ rest }))

  abbrev pub at_state : P → Plane P → Plane P
  at_state p s = record s { state = p }

  -- The state behind an operation that has succeeded.
  abbrev pub advanced : Op P → Plane P → Plane P
  advanced o s = record {
    state = (o.run s.state).0;
    alarms = s.alarms ++ residue_resolved o.desc ∷ [];
  }

  -- The loop of `Apply`, with the executed operations, the last one first.
  unfoldable pub execute : List (Op P) → List (Op P) → Plane P → Plane P × Option Failure
  unfolding compensate
  execute [] executed s = (s, none)
  execute (o ∷ os) executed s = elim (o.run s.state).1 [
    | none ↦ execute os (o ∷ executed) (advanced o s)
    | some x ↦ compensate o x executed (at_state (o.run s.state).0 s)
  ]

  -- `Apply`; `plan` is the plan of operations.
  unfoldable pub apply_changes :
      (Config → Config → List (Op P)) → Config → Config → Plane P → Plane P × Option Failure
  unfolding execute
  apply_changes plan old new s =
      if holds (Config_discrete old new) then (s, none) else execute (plan old new) [] s
