-- ===== src/Engine/Candidate.antt =====
-- Changes of the candidate and views of it (internal/config/engine.go): `UpdateCandidate`,
-- `inheritSensitive`, `MergeCandidate`, `Candidate`, `Committed`, `Sessions`, `CommitCheck`,
-- `CompareCandidate`. A copy of a configuration by JSON is the same value.
use nfvis.Prelude.{
  ℕ, String, Bool, true, false, ◌&&◌, not, Option, none, some, List, [], ◌∷◌, map, str_eq,
  if◌then◌else◌, find_last,
}
use nfvis.Model.{Config, SystemConfig, SystemLogin, LoginUserConfig, ValidateError, login_of_system}
use nfvis.Engine.Types.{merge_failed, ok, err, LockInfo, ConfirmedInfo, Session, SessionView}
use nfvis.Engine.Db.{refresh_lock, get_lock, get_confirmed}
use nfvis.Engine.State.{
  Env, Engine, session_holder, M, ◌>>=◌, ◌>>◌, pure, raise, gets, modify, attempt, call, committed,
  require_holder, require_editing,
}
use nfvis.Engine.Lifecycle.{sweep}

-- The password hash that `old` remembers for a name: the last one that is not empty.
abbrev pub remembered_hash : List LoginUserConfig → String → Option LoginUserConfig
remembered_hash users name =
    find_last (λ u. str_eq u.name name && not (str_eq u.password_hash "")) users

abbrev pub inherit_user : List LoginUserConfig → LoginUserConfig → LoginUserConfig
inherit_user old u =
    if str_eq u.password_hash ""
    then elim (remembered_hash old u.name) [
      | none ↦ u
      | some o ↦ record u { password_hash = o.password_hash }
    ]
    else u

abbrev with_users : Config → SystemConfig → SystemLogin → List LoginUserConfig → Config
with_users c s l users = record c {
  system = some (record s { login = some (record l { users = users }) });
}

abbrev pub inherit_login : Config → SystemConfig → Option SystemLogin → Option SystemLogin → Config
inherit_login c s (some l) (some old) = with_users c s l (map (inherit_user old.users) l.users)
inherit_login c s _ _ = c

abbrev pub inherit_system : Config → Option SystemConfig → Option SystemLogin → Config
inherit_system c none old = c
inherit_system c (some s) old = inherit_login c s s.login old

-- `inheritSensitive`: what the candidate holds afterwards.
unfoldable pub inherit_sensitive : Config → Config → Config
inherit_sensitive cand committed =
    inherit_system cand cand.system (login_of_system committed.system)

module _ {B S : Type 0} (env : Env B S) (now : ℕ) where
  abbrev set_candidate : Config → M B S (Unit {0})
  set_candidate c = modify (λ e. record e { candidate = some c; dirty = true })

  -- `UpdateCandidate`; the hashes are inherited only if the committed configuration can be read.
  unfoldable pub update_candidate : Session → Config → M B S (Unit {0})
  unfolding committed refresh_lock inherit_sensitive
  update_candidate sess cfg = do
    sweep env now
    _ ← require_holder sess
    base ← attempt (committed env)
    set_candidate (elim base [ ok c ↦ inherit_sensitive cfg c | err x ↦ cfg ])
    call (refresh_lock (session_holder sess) now)

  -- `MergeCandidate`.
  unfoldable pub merge_candidate : Session → Config → M B S (Unit {0})
  unfolding refresh_lock
  merge_candidate sess patch = do
    sweep env now
    cand ← require_holder sess
    elim (env.merge cand patch) [
      | none ↦ raise merge_failed
      | some merged ↦ (do set_candidate merged; call (refresh_lock (session_holder sess) now))
    ]

  -- `Candidate`.
  unfoldable pub candidate : M B S (Config × Bool)
  unfolding require_editing
  candidate = do sweep env now; cand ← require_editing; gets (λ e. (cand, e.dirty))

  abbrev lock_view : Engine B S → Option LockInfo → Option SessionView
  lock_view e none = none
  lock_view e (some li) = some (record {
    holder = li.holder;
    acquired_at = li.acquired_at;
    last_activity = li.last_activity;
    dirty = e.dirty && str_eq e.holder li.holder;
    confirmed_until = none;
  })

  abbrev blank_view : String → SessionView
  blank_view holder = record {
    holder = holder;
    acquired_at = 0;
    last_activity = 0;
    dirty = false;
    confirmed_until = none;
  }

  abbrev with_confirmed : Option SessionView → Option ConfirmedInfo → List SessionView
  with_confirmed none none = []
  with_confirmed (some v) none = v ∷ []
  with_confirmed none (some cf) =
      record (blank_view cf.holder) { confirmed_until = some cf.deadline } ∷ []
  with_confirmed (some v) (some cf) = record v { confirmed_until = some cf.deadline } ∷ []

  -- `Sessions`.
  unfoldable pub sessions : M B S (List SessionView)
  unfolding get_lock get_confirmed
  sessions = do
    sweep env now
    li ← call get_lock
    view ← gets (λ e. lock_view e li)
    cf ← call get_confirmed
    pure (with_confirmed view cf)

  -- `CommitCheck`.
  unfoldable pub commit_check : Session → M B S (List ValidateError)
  commit_check sess = do sweep env now; cand ← require_holder sess; pure (env.validate cand)

  -- `CompareCandidate`: the two configurations whose difference is printed.
  unfoldable pub compare_candidate : M B S (Config × Config)
  unfolding require_editing committed
  compare_candidate = do
    sweep env now
    cand ← require_editing
    base ← committed env
    pure (base, cand)
