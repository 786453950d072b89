-- ===== src/Engine/State.antt =====
-- The engine's state, what it is configured with, and calls on it as a state monad with errors
-- (internal/config/engine.go). `B` is the type of the stored JSON, `S` that of the data plane.
use nfvis.Prelude.{ℕ, String, ◌+++◌, Bool, Option, none, some, List, ◌∷◌, str_eq, if◌then◌else◌}
use nfvis.Model.{Config, ValidateError}
use nfvis.Engine.Types.{
  Error, corrupt, not_editing, Result, ok, err, Detail, Action, Outcome, Event, Session,
  ImageResolver,
}
use nfvis.Engine.Db.{Db, Sql, latest_revision, append_audit}

-- `Options`, the `Applier` and encoding/json. `validate`, `images`, `topology` and `time_synced`
-- are injected by the caller of `NewEngine`; `merge` is `model.Merge`.
pub record Env (B S : Type 0) : Type 0 where
  pub encode : Config → B
  pub decode : B → Option Config
  pub apply : Config → Config → S → S × Option String
  pub validate : Config → List ValidateError
  pub merge : Config → Config → Option Config
  pub images : Option ImageResolver
  pub topology : Option (String → Option ℕ)
  pub time_synced : Option Bool
  pub lock_idle_ttl : ℕ

-- `Engine`. `timer` is the deadline of the armed timer of `confirmStop`; `events` and `commits`
-- are what `onEvent` and `onCommit` have been called with, newest first.
pub record Engine (B S : Type 0) : Type 0 where
  pub store : Db B
  pub candidate : Option Config
  pub holder : String
  pub dirty : Bool
  pub timer : Option ℕ
  pub substrate : S
  pub events : List Event
  pub commits : List (ℕ × String)

-- `Session.holder`.
abbrev pub session_holder : Session → String
session_holder s = s.user +++ "@" +++ s.source

-- A call under the engine's mutex.
abbrev pub M : Type 0 → Type 0 → Type 0 → Type 0
M B S A = Engine B S → Result A × Engine B S

module _ {A : Type 0} where
  abbrev pub value_or_nil : Result (Option A) → Option A
  value_or_nil (ok a) = a
  value_or_nil (err x) = none

module _ {B S A : Type 0} where
  unfoldable pub pure : A → M B S A
  pure a e = (ok a, e)

  unfoldable pub raise : Error → M B S A
  raise x e = (err x, e)

  unfoldable pub gets : (Engine B S → A) → M B S A
  gets f e = (ok (f e), e)

  -- The error as a value.
  unfoldable pub attempt : M B S A → M B S (Result A)
  attempt m e = let (r, e') = m e in (ok r, e')

  -- `_ = …`: the error is dropped.
  unfoldable pub ignore : M B S A → M B S (Unit {0})
  ignore m e = (ok tt, (m e).1)

  -- `x, _ := …` with `x` a pointer, nil on an error.
  unfoldable pub or_nil : M B S (Option A) → M B S (Option A)
  or_nil m e = let (r, e') = m e in (ok (value_or_nil r), e')

  abbrev pub cleaned : Result A → (Error → M B S (Unit {0})) → M B S A
  cleaned (ok a) h e = (ok a, e)
  cleaned (err x) h e = (err x, (h x e).1)

  -- A clean-up that runs where the call fails.
  unfoldable pub on_failure : M B S A → (Error → M B S (Unit {0})) → M B S A
  on_failure m h e = let (r, e') = m e in cleaned r h e'

  -- A call of the store.
  unfoldable pub call : Sql B A → M B S A
  call sql e = let (r, db) = sql e.store in (r, record e { store = db })

module _ {B S : Type 0} where
  unfoldable pub modify : (Engine B S → Engine B S) → M B S (Unit {0})
  modify f e = (ok tt, f e)

  unfoldable pub when : Bool → M B S (Unit {0}) → M B S (Unit {0})
  unfolding pure
  when b m = if b then m else pure tt

module _ {B S A C : Type 0} where
  abbrev pub continue : Result A → (A → M B S C) → M B S C
  continue (ok a) f e = f a e
  continue (err x) f e = (err x, e)

  infixl 5 ◌>>=◌ ◌>>◌
  -- Opening this opens the other ways to build a call too.
  unfoldable pub ◌>>=◌ : M B S A → (A → M B S C) → M B S C
  unfolding pure raise gets modify attempt ignore or_nil on_failure when call
  ◌>>=◌ m f e = let (r, e') = m e in continue r f e'

  abbrev pub ◌>>◌ : M B S A → M B S C → M B S C
  m >> k = m >>= λ _. k

module _ {B S : Type 0} where
  abbrev pub emit : Event → M B S (Unit {0})
  emit v = modify (λ e. record e { events = v ∷ e.events })

  -- `confirmStop()`.
  abbrev pub stop_timer : M B S (Unit {0})
  stop_timer = modify (λ e. record e { timer = none })

  module _ (env : Env B S) where
    -- `appendAudit`: the entry with the clock's state, the store's error dropped.
    unfoldable pub audit : ℕ → String → Action → Detail → Outcome → M B S (Unit {0})
    audit now user action detail result = ignore (
        call (
          append_audit (record {
            time = now;
            user = user;
            action = action;
            detail = detail;
            result = result;
            time_synced = env.time_synced;
          })))

    abbrev pub parse : Option B → M B S Config
    parse none = raise corrupt
    parse (some b) = elim (env.decode b) [ none ↦ raise corrupt | some c ↦ pure c ]

    -- `committedLocked`.
    unfoldable pub committed : M B S Config
    unfolding latest_revision
    committed = do latest ← call latest_revision; parse latest.1

  -- `requireHolderLocked`, with the candidate that the callers go on to read.
  abbrev pub editing_as : String → Option Config → M B S Config
  editing_as h none e = (err not_editing, e)
  editing_as h (some c) e =
      if str_eq e.holder ""
      then (err not_editing, e)
      else if str_eq e.holder h
      then (ok c, e)
      else (err not_editing, e)

  unfoldable pub require_holder : Session → M B S Config
  require_holder sess e = editing_as (session_holder sess) e.candidate e

  -- `requireEditingLocked`.
  unfoldable pub require_editing : M B S Config
  require_editing e = elim e.candidate [ none ↦ (err not_editing, e) | some c ↦ (ok c, e) ]
