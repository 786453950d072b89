-- ===== src/Aaa/Service.antt =====
-- `Service` (internal/aaa/service.go): logins, tokens, and the lock after repeated failures. A Go map
-- is a function into options; a call reads the clock once, as `now`, in nanoseconds. `VerifyPassword`
-- is `verify`, and the text that `randomToken` draws is `random`, or none when it fails.
use nfvis.Prelude.{
  ℕ, suc, ◌+◌, ◌*◌, String, Bool, true, false, not, ◌&&◌, Option, none, some, List, [], ◌∷◌, ltb,
  leb, ◌==◌, str_eq, if◌then◌else◌,
}
use nfvis.Model.{
  Config, ApiConfig, LoginUserConfig, PasswordPolicy, SystemConfig, SystemLogin, login_of_system,
  login_users,
}

pub record TokenInfo : Type 0 where
  pub token : String
  pub user : String
  pub class : String
  pub expires_at : ℕ

pub record TokenEntry : Type 0 where
  pub user : String
  pub class : String
  pub expires_at : ℕ

-- `locked_until` is 0 where the source has the zero time.
pub record LockoutState : Type 0 where
  pub failures : ℕ
  pub locked_until : ℕ

pub record Service : Type 0 where
  pub tokens : String → Option TokenEntry
  pub lockouts : String → Option LockoutState

pub data Refusal : Type 0 where
  invalid_credentials no_users unauthorized : Refusal
  locked : ℕ → Refusal
  no_password : String → Refusal
  config_unreadable random_failed : Refusal

pub data Answer : Type 0 where
  refused : Refusal → Answer
  granted : TokenInfo → Answer

abbrev pub put {ℓ} : {V : Type ℓ} → String → Option V → (String → Option V) → String → Option V
put k v m j = if str_eq j k then v else m j

abbrev pub minutes : ℕ → ℕ
minutes n = n * 60000000000

abbrev or_default : ℕ → ℕ → ℕ
or_default d n = if ltb 0 n then n else d

abbrev pub policy_of : Option SystemLogin → Option PasswordPolicy
policy_of none = none
policy_of (some l) = l.password_policy

-- `loginPolicy`, none also where the configuration cannot be read.
abbrev pub login_policy : Option Config → Option PasswordPolicy
login_policy none = none
login_policy (some c) = policy_of (login_of_system c.system)

abbrev threshold_in : Option PasswordPolicy → ℕ
threshold_in none = 5
threshold_in (some p) = or_default 5 p.lockout_threshold

abbrev minutes_in : Option PasswordPolicy → ℕ
minutes_in none = 10
minutes_in (some p) = or_default 10 p.lockout_minutes

-- The number of failures that lock a user, and the time for which they do.
unfoldable pub threshold : Option Config → ℕ
threshold src = threshold_in (login_policy src)

unfoldable pub lock_time : Option Config → ℕ
lock_time src = minutes (minutes_in (login_policy src))

abbrev pub lock_of : Option LockoutState → ℕ
lock_of none = 0
lock_of (some st) = st.locked_until

abbrev pub failures_of : Option LockoutState → ℕ
failures_of none = 0
failures_of (some st) = st.failures

abbrev pub failed_again : Option Config → ℕ → Option LockoutState → LockoutState
failed_again src now o =
    if leb (threshold src) (suc (failures_of o))
    then record { failures = 0; locked_until = now + lock_time src }
    else record { failures = suc (failures_of o); locked_until = lock_of o }

unfoldable pub record_failure : Option Config → String → ℕ → Service → Service
unfolding threshold lock_time
record_failure src user now s = record s {
  lockouts = put user (some (failed_again src now (s.lockouts user))) s.lockouts;
}

abbrev pub live : ℕ → Option TokenEntry → Option TokenEntry
live now none = none
live now (some e) = if ltb e.expires_at now then none else some e

abbrev pub held : ℕ → Option LockoutState → Option LockoutState
held now none = none
held now (some st) =
    if not (ltb now st.locked_until) && not (st.locked_until == 0) then none else some st

unfoldable pub sweep_locked : ℕ → Service → Service
sweep_locked now s = record {
  tokens = λ t. live now (s.tokens t);
  lockouts = λ u. held now (s.lockouts u);
}

abbrev ttl_of_api : Option ApiConfig → ℕ
ttl_of_api none = minutes 60
ttl_of_api (some a) = if ltb 0 a.token_ttl_minutes then minutes a.token_ttl_minutes else minutes 60

abbrev ttl_of_system : Option SystemConfig → ℕ
ttl_of_system none = minutes 60
ttl_of_system (some s) = ttl_of_api s.api

unfoldable pub token_ttl : Config → ℕ
token_ttl c = ttl_of_system c.system

abbrev pub find_in : String → List LoginUserConfig → Option LoginUserConfig
find_in name [] = none
find_in name (u ∷ us) = if str_eq u.name name then some u else find_in name us

unfoldable pub find_user : Config → String → Option LoginUserConfig
find_user c name = find_in name (login_users c)

abbrev pub class_of : LoginUserConfig → String
class_of u = if str_eq u.class "" then "read-only" else u.class

abbrev pub has_none : List LoginUserConfig → Bool
has_none [] = true
has_none (u ∷ us) = false

abbrev pub entry_for : Config → LoginUserConfig → ℕ → TokenEntry
entry_for c u now = record { user = u.name; class = class_of u; expires_at = now + token_ttl c }

abbrev pub info_of : String → TokenEntry → TokenInfo
info_of t e = record { token = t; user = e.user; class = e.class; expires_at = e.expires_at }

abbrev pub issue : TokenEntry → Option String → Service → Service × Answer
issue e none s = (s, refused random_failed)
issue e (some t) s = (record s { tokens = put t (some e) s.tokens }, granted (info_of t e))

module _ (verify : String → String → Bool) where
  abbrev pub admit :
      Config
      → ℕ
      → Option String
      → String
      → String
      → Option LoginUserConfig
      → Service
      → Service × Answer
  admit c now random user password none s =
      (record_failure (some c) user now s, refused invalid_credentials)
  admit c now random user password (some u) s =
      if str_eq u.password_hash ""
      then (s, refused (no_password user))
      else if not (verify u.password_hash password)
      then (record_failure (some c) user now s, refused invalid_credentials)
      else issue (entry_for c u now) random (record s { lockouts = put user none s.lockouts })

  abbrev pub login_with :
      Option Config → ℕ → Option String → String → String → Service → Service × Answer
  login_with none now random user password s = (s, refused config_unreadable)
  login_with (some c) now random user password s =
      if has_none (login_users c)
      then (s, refused no_users)
      else admit c now random user password (find_user c user) s

  abbrev pub login_swept :
      Option Config → ℕ → Option String → String → String → Service → Service × Answer
  login_swept src now random user password s =
      if ltb now (lock_of (s.lockouts user))
      then (s, refused (locked (lock_of (s.lockouts user))))
      else login_with src now random user password s

  -- `Login`.
  unfoldable pub login :
      Option Config → ℕ → Option String → String → String → Service → Service × Answer
  unfolding record_failure sweep_locked find_user token_ttl
  login src now random user password s =
      login_swept src now random user password (sweep_locked now s)

-- `Logout`.
unfoldable pub logout : String → Service → Service
logout t s = record s { tokens = put t none s.tokens }

abbrev pub identity : String → Option TokenEntry → Answer
identity t none = refused unauthorized
identity t (some e) = granted (info_of t e)

-- `VerifyToken`.
unfoldable pub verify_token : ℕ → String → Service → Service × Answer
unfolding sweep_locked
verify_token now t s = (sweep_locked now s, identity t (live now (s.tokens t)))

-- `HasUsers`, none where the configuration cannot be read.
unfoldable pub has_users : Option Config → Option Bool
has_users none = none
has_users (some c) = some (not (has_none (login_users c)))
