-- ===== src/Orchestrator/Report.antt =====
-- What `Apply` reports: its alarms, and the compensations that failed.
use mathlib.Core.List.{append_assoc, append-nil}
use nfvis.Prelude.{
  String, Bool, Option, none, some, List, [], ◌∷◌, ◌++◌, true, false, ◌≡◌, refl, sym, ap, ◌∙◌,
  Option-cases, inl, inr,
}
use nfvis.Orchestrator.Executor.{
  Op, Plane, Failure, AlarmCall, residue_raised, residue_resolved, undone, undo_op, undo_all,
  undo_when, compensate, at_state, advanced, execute,
}

abbrev pub raised : List (String × String) → List AlarmCall
raised [] = []
raised (m ∷ ms) = residue_raised m.0 m.1 ∷ raised ms

raised-append : (ms ns : List (String × String)) → raised (ms ++ ns) ≡ raised ms ++ raised ns
raised-append [] ns = refl
raised-append (m ∷ ms) ns = ap (λ l. residue_raised m.0 m.1 ∷ l) (raised-append ms ns)

-- Reports one after the other.
told_twice :
    (a b c : List AlarmCall) (ms ns : List (String × String))
    → b ≡ a ++ raised ms
    → c ≡ b ++ raised ns
    → c ≡ a ++ raised (ms ++ ns)
told_twice a b c ms ns p q =
    q
    ∙ ap (λ l. l ++ raised ns) p
    ∙ append_assoc a (raised ms) (raised ns)
    ∙ ap (λ l. a ++ l) (sym (raised-append ms ns))

module _ {P : Type 0} where
  abbrev pub resolved : List (Op P) → List AlarmCall
  resolved [] = []
  resolved (o ∷ os) = residue_resolved o.desc ∷ resolved os

  -- The operations one after the other.
  abbrev pub run_all : List (Op P) → P → P
  run_all [] p = p
  run_all (o ∷ os) p = run_all os (o.run p).0

  -- Each of them answers without an error.
  abbrev pub Succeed : List (Op P) → P → Type 0
  Succeed [] p = Unit
  Succeed (o ∷ os) p = ((o.run p).1 ≡ none) × Succeed os (o.run p).0

  -- The operations in the reverse order, before `executed`.
  abbrev pub behind : List (Op P) → List (Op P) → List (Op P)
  behind [] executed = executed
  behind (o ∷ os) executed = behind os (o ∷ executed)

  -- What there is to undo where `o` has failed.
  abbrev pub to_undo : Bool → Op P → List (Op P) → List (Op P)
  to_undo true o executed = o ∷ executed
  to_undo false o executed = executed

  abbrev pub state_undone : List (Op P) → P → P
  state_undone [] p = p
  state_undone (o ∷ os) p = state_undone os (o.undo p).0

  abbrev failed_undo : Op P → Option String → List (String × String)
  failed_undo o none = []
  failed_undo o (some x) = (o.desc, x) ∷ []

  -- The operations whose undo answers with an error, with that error.
  abbrev pub failed_undos : List (Op P) → P → List (String × String)
  failed_undos [] p = []
  failed_undos (o ∷ os) p = failed_undo o (o.undo p).1 ++ failed_undos os (o.undo p).0

  -- The states and alarms of undoing `os` from `s`.
  record IsUndone (os : List (Op P)) (s : Plane P) (r : Plane P × List (String × String))
      : Type 0 where
    state : r.0.state ≡ state_undone os s.state
    failures : r.1 ≡ failed_undos os s.state
    alarms : r.0.alarms ≡ s.alarms ++ raised r.1

  undone-state : (o : Op P) (r : P × Option String) (s : Plane P) → (undone o r s).0.state ≡ r.0
  undone-state o (p, none) s = refl
  undone-state o (p, some x) s = refl

  undone-failed :
      (o : Op P) (r : P × Option String) (s : Plane P) → (undone o r s).1 ≡ failed_undo o r.1
  undone-failed o (p, none) s = refl
  undone-failed o (p, some x) s = refl

  undone-alarms :
      (o : Op P) (r : P × Option String) (s : Plane P)
      → (undone o r s).0.alarms ≡ s.alarms ++ raised (undone o r s).1
  undone-alarms o (p, none) s = sym (append-nil s.alarms)
  undone-alarms o (p, some x) s = refl

  undo_all-IsUndone : (os : List (Op P)) (s : Plane P) → IsUndone os s (undo_all os s)
  unfolding undo_all undo_op
  undo_all-IsUndone [] s = record {
    state = refl;
    failures = refl;
    alarms = sym (append-nil s.alarms);
  }
  undo_all-IsUndone (o ∷ os) s =
      let (s1, first) = undone o (o.undo s.state) s in
      let w = undo_all-IsUndone os s1 in
      let q : s1.state ≡ (o.undo s.state).0 = undone-state o (o.undo s.state) s in
      record {
        state = w.state ∙ ap (state_undone os) q;
        failures =
            ap (λ l. first ++ l) (w.failures ∙ ap (failed_undos os) q)
            ∙ ap (λ l. l ++ failed_undos os (o.undo s.state).0)
                (undone-failed o (o.undo s.state) s);
        alarms =
            told_twice s.alarms s1.alarms (undo_all os s1).0.alarms first (undo_all os s1).1
              (undone-alarms o (o.undo s.state) s) w.alarms;
      }

  -- The run has stopped with `f` at `o`, behind `before`; `executed` has been run before.
  pub record IsStopped (before : List (Op P)) (o : Op P) (executed : List (Op P)) (s s' : Plane P)
      (f : Failure) : Type 0 where
    pub ran : Succeed before s.state
    pub op : f.op ≡ o.desc
    pub error : (o.run (run_all before s.state)).1 ≡ some f.error
    pub state :
        s'.state
        ≡ state_undone
            (to_undo o.compensate_on_fail o (behind before executed))
            (o.run (run_all before s.state)).0
    pub residue :
        f.residue
        ≡ failed_undos
            (to_undo o.compensate_on_fail o (behind before executed))
            (o.run (run_all before s.state)).0
    pub alarms : s'.alarms ≡ (s.alarms ++ resolved before) ++ raised f.residue

  -- How a run of `os` from `s` ends, with what it reports.
  abbrev pub IsReported : List (Op P) → List (Op P) → Plane P → Plane P × Option Failure → Type 0
  IsReported os executed s (s', none) =
      Succeed os s.state × (s'.state ≡ run_all os s.state) × (s'.alarms ≡ s.alarms ++ resolved os)
  IsReported os executed s (s', some f) =
      (before : List (Op P)) × (o : Op P) × (rest : List (Op P)) × (os ≡ before ++ o ∷ rest)
      × IsStopped before o executed s s' f

  compensated :
      (b : Bool) (o : Op P) (executed : List (Op P)) (s : Plane P)
      → let (s1, first) = undo_when b o s in
        let (s2, rest) = undo_all executed s1 in
        IsUndone (to_undo b o executed) s (s2, first ++ rest)
  unfolding undo_all
  compensated true o executed s = undo_all-IsUndone (o ∷ executed) s
  compensated false o executed s = undo_all-IsUndone executed s

  compensate-IsReported :
      (o : Op P) (os executed : List (Op P)) (x : String) (s : Plane P)
      → (o.run s.state).1 ≡ some x
      → IsReported (o ∷ os) executed s (compensate o x executed (at_state (o.run s.state).0 s))
  unfolding compensate
  compensate-IsReported o os executed x s e =
      let w = compensated o.compensate_on_fail o executed (at_state (o.run s.state).0 s) in
      (
        [],
        o,
        os,
        refl,
        record {
          ran = tt;
          op = refl;
          error = e;
          state = w.state;
          residue = w.failures;
          alarms = rw (append-nil s.alarms) w.alarms;
        },
      )

  further :
      (o : Op P) (os executed : List (Op P)) (s : Plane P) (r : Plane P × Option Failure)
      → (o.run s.state).1 ≡ none
      → IsReported os (o ∷ executed) (advanced o s) r
      → IsReported (o ∷ os) executed s r
  further o os executed s (s', none) e (w, h, a) =
      ((e, w), h, a ∙ append_assoc s.alarms (residue_resolved o.desc ∷ []) (resolved os))
  further o os executed s (s', some f) e (before, q, rest, p, w) = (
    o ∷ before,
    q,
    rest,
    ap (λ l. o ∷ l) p,
    record {
      ran = (e, w.ran);
      op = w.op;
      error = w.error;
      state = w.state;
      residue = w.residue;
      alarms =
          w.alarms
          ∙ ap (λ a. a ++ raised f.residue)
              (append_assoc s.alarms (residue_resolved o.desc ∷ []) (resolved before));
    },
  )

  -- The loop of `Apply`, whatever the operations do. Where it is done, each operation has answered
  -- without an error, in order, and its old alarm is cleared. Where it fails, the error names the first
  -- operation that has answered with an error; this one, where its step asks for it, and the executed
  -- ones have been undone, the last one first; the alarms of the operations before it are cleared, and
  -- then an alarm is raised for exactly the undos that have answered with an error, which the error
  -- lists in their order.
  pub execute-IsReported :
      (os executed : List (Op P)) (s : Plane P) → IsReported os executed s (execute os executed s)
  unfolding execute
  execute-IsReported [] executed s = (tt, refl, sym (append-nil s.alarms))
  execute-IsReported (o ∷ os) executed s = elim (Option-cases (o.run s.state).1) [
    | inl h ↦
        rw h (further o os executed s _ h (execute-IsReported os (o ∷ executed) (advanced o s)))
    | inr (x, h) ↦ rw h (compensate-IsReported o os executed x s h)
  ]
