-- ===== src/Orchestrator/Reversal.antt =====
-- A failing `Apply` takes back what it has done.
use nfvis.Prelude.{
  String, Bool, Option, none, some, List, [], ◌∷◌, true, false, ◌≡◌, refl, sym, subst, ap,
  Option-cases, Bool-cases, inl, inr, holds,
}
use nfvis.Model.{Config, Config_discrete}
use nfvis.Orchestrator.Executor.{
  Op, Plane, Failure, undo_op, undo_all, undo_when, compensate, at_state, advanced, execute,
  apply_changes,
}

module _ {P : Type 0} where
  abbrev pub reverted : Bool → Op P → P → P × Option String
  reverted true o p = o.undo p
  reverted false o p = (p, none)

  -- What has to hold of `o` behind its answer `r` in the state `p`: undoing it after a success brings
  -- `p` back, and then `rest` holds; after a failure it brings `p` back where the step asks for it, and
  -- else the failure has changed nothing.
  abbrev TakesBack : Op P → P → Type 0 → P × Option String → Type 0
  TakesBack o p rest (q, none) = (o.undo q ≡ (p, none)) × rest
  TakesBack o p rest (q, some x) = reverted o.compensate_on_fail o q ≡ (p, none)

  -- Each operation that a run from `p` comes to can be taken back in the state that it is run in.
  abbrev pub IsReversible : List (Op P) → P → Type 0
  IsReversible [] p = Unit
  IsReversible (o ∷ os) p = TakesBack o p (IsReversible os (o.run p).0) (o.run p)

  -- Undoing the operations one by one leads without an error from `p` to `q`.
  abbrev Undoes : List (Op P) → P → P → Type 0
  Undoes [] p q = p ≡ q
  Undoes (o ∷ os) p q = (r : P) × (o.undo p ≡ (r, none)) × Undoes os r q

  undo_op_clean :
      (o : Op P) (s : Plane P) (r : P)
      → o.undo s.state ≡ (r, none)
      → undo_op o s ≡ (at_state r s, [])
  unfolding undo_op
  undo_op_clean o s r h = rw h

  undo_all_clean :
      (os : List (Op P)) (s : Plane P) (q : P)
      → Undoes os s.state q
      → undo_all os s ≡ (at_state q s, [])
  unfolding undo_all
  undo_all_clean [] s q h = ap (λ p. (at_state p s, [])) h
  undo_all_clean (o ∷ os) s q (r, h, k) =
      rw (undo_op_clean o s r h, undo_all_clean os (at_state r s) q k)

  undo_when_clean :
      (b : Bool) (o : Op P) (s : Plane P) (r : P)
      → reverted b o s.state ≡ (r, none)
      → undo_when b o s ≡ (at_state r s, [])
  undo_when_clean true o s r h = undo_op_clean o s r h
  undo_when_clean false o s r h = ap (λ t. (at_state t.0 s, [])) h

  -- The failure of `o` with nothing left behind.
  abbrev pub clean_failure : Op P → String → Failure
  clean_failure o x = record { op = o.desc; error = x; residue = [] }

  compensate_clean :
      (o : Op P) (x : String) (executed : List (Op P)) (s : Plane P) (r q : P)
      → reverted o.compensate_on_fail o s.state ≡ (r, none)
      → Undoes executed r q
      → compensate o x executed s ≡ (at_state q s, some (clean_failure o x))
  unfolding compensate
  compensate_clean o x executed s r q h k =
      rw (undo_when_clean o.compensate_on_fail o s r h, undo_all_clean executed (at_state r s) q k)

  -- How a run of operations that can be taken back ends.
  abbrev pub IsAtomic : P → Plane P × Option Failure → Type 0
  IsAtomic p (s, none) = Unit
  IsAtomic p (s, some f) = (s.state ≡ p) × (f.residue ≡ [])

  execute-IsAtomic :
      (os executed : List (Op P)) (s : Plane P) (q : P)
      → IsReversible os s.state
      → Undoes executed s.state q
      → IsAtomic q (execute os executed s)
  unfolding execute
  execute-IsAtomic [] executed s q w k = tt
  execute-IsAtomic (o ∷ os) executed s q w k = elim (Option-cases (o.run s.state).1) [
    | inl h ↦
        let (e, ws) =
          subst
            (λ r. TakesBack o s.state (IsReversible os (o.run s.state).0) ((o.run s.state).0, r)) h
            w in
        rw h (execute-IsAtomic os (o ∷ executed) (advanced o s) q ws (s.state, e, k))
    | inr (x, h) ↦
        let e : reverted o.compensate_on_fail o (o.run s.state).0 ≡ (s.state, none) =
          subst
            (λ r. TakesBack o s.state (IsReversible os (o.run s.state).0) ((o.run s.state).0, r)) h
            w in
        rw h (
          subst (IsAtomic q)
            (sym (compensate_clean o x executed (at_state (o.run s.state).0 s) s.state q e k))
            (refl, refl))
  ]

  -- `Apply` is all or nothing: where it fails, the data plane is in the state before it, and no
  -- compensation has failed. Each operation that the run comes to can be taken back where it is run:
  -- undoing it brings the state before it back, after a success, and after a failure where its step
  -- asks for that; any other failure has changed nothing.
  pub apply_changes-IsAtomic :
      (plan : Config → Config → List (Op P)) (old new : Config) (s : Plane P)
      → IsReversible (plan old new) s.state
      → IsAtomic s.state (apply_changes plan old new s)
  unfolding apply_changes
  apply_changes-IsAtomic plan old new s w = elim (Bool-cases (holds (Config_discrete old new))) [
    | inl h ↦ rw h tt
    | inr h ↦ rw h (execute-IsAtomic (plan old new) [] s s.state w refl)
  ]
