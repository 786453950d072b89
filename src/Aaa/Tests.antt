-- ===== src/Aaa/Tests.antt =====
-- A service with one user, one class and a policy.
use Prim.Native.Char.{code}
use nfvis.Prelude.{
  ◌≤◌, String, Bool, true, false, none, some, [], ◌∷◌, leb, ◌&&◌, ◌≡◌, ◌≢◌, ◌↔◌, refl, str_eq,
  arith,
}
use nfvis.Model.{Config, ClassDef, PasswordPolicy}
use nfvis.Engine.Tests.Setup.{no_config, system_with, root_user}
use nfvis.Aaa.Service.{
  Service, TokenInfo, refused, granted, locked, login, verify_token, threshold, lock_time,
  find_user, token_ttl, sweep_locked,
}
use nfvis.Aaa.Lockout.{IsBelow, login-IsBelow}
use nfvis.Aaa.Guessing.{guesses, guesses-lock}
use nfvis.Aaa.Classes.{operator, match_prefix, find_class, authorize}
use nfvis.Aaa.Prefixes.{IsCovered, match_prefix_iff}
use nfvis.Aaa.Grants.{IsUnder, authorize_iff}
use nfvis.Aaa.Policy.{Unicode, number, check_policy}
use nfvis.Aaa.Policies.{kinds_in, check_policy_iff}
use nfvis.Aaa.Tokens.{login-verify_token}
use nfvis.Aaa.Authentic.{IsKnown, login-IsKnown}

abbrev policy : PasswordPolicy
policy = record {
  min_length = 4;
  complexity = true;
  expire_days = 0;
  lockout_threshold = 2;
  lockout_minutes = 1;
}

abbrev watch : ClassDef
watch = record { name = "watch"; allow = "show" ∷ []; deny = "show log" ∷ [] }

abbrev config : Config
config = record no_config {
  system = some (record (system_with []) {
    login = some (record {
      users = root_user "secret" ∷ [];
      classes = watch ∷ [];
      password_policy = some policy;
    });
  });
}

abbrev empty : Service
empty = record { tokens = λ t. none; lockouts = λ u. none }

-- Stands for `VerifyPassword`: a hash is the password itself.
abbrev verify : String → String → Bool
verify hash password = str_eq hash password

abbrev root_token : TokenInfo
root_token = record {
  token = "t1";
  user = "root";
  class = "super-user";
  expires_at = 3600000000007;
}

login-verify_token_example :
    (verify_token 8 "t1" (login verify (some config) 7 (some "t1") "root" "secret" empty).0).1
    ≡ granted root_token
unfolding login sweep_locked find_user token_ttl
login-verify_token_example =
    login-verify_token verify (some config) 7 (some "t1") "root" "secret" empty root_token refl 8

login-IsKnown_example : IsKnown verify (some config) 7 "root" "secret" root_token
unfolding login sweep_locked find_user token_ttl
login-IsKnown_example =
    login-IsKnown verify (some config) 7 (some "t1") "root" "secret" empty root_token refl

login-IsBelow_example : IsBelow 2 (login verify (some config) 7 none "root" "guess" empty).0
unfolding threshold
login-IsBelow_example =
    login-IsBelow 2 (omega arith) verify 7 none "root" "guess" (some config) empty (omega arith)
      (λ u. omega arith)

guesses-lock_example :
    (login verify
      (some config)
      60000000008
      (some "t1")
      "root"
      "secret"
      (guesses verify config "root" ((7, "a") ∷ (9, "b") ∷ []) empty)).1
    ≡ refused (locked 60000000009)
unfolding threshold lock_time find_user
guesses-lock_example =
    guesses-lock verify config "root" (root_user "secret") refl refl ((7, "a") ∷ []) (9, "b") empty
      (refl, tt) refl refl refl (some config) 60000000008 (some "t1") "secret" (omega arith)

match_prefix_iff_example :
    (match_prefix "show version" "show" ≡ true)
    ↔ ((◌≢◌ {A = String} "show" "") × IsCovered "show" "show version")
match_prefix_iff_example = match_prefix_iff "show version" "show"

authorize_iff_example :
    (authorize (some config) "watch" operator ("show" ∷ "version" ∷ []) ≡ true) ↔ (
      (d : ClassDef) × (find_class "watch" (watch ∷ []) ≡ some d)
      × IsUnder "show version" d.allow
      × (IsUnder "show version" d.deny → ⊥))
authorize_iff_example =
    authorize_iff (some config) "watch" operator ("show" ∷ "version" ∷ []) refl refl refl

abbrev ascii : Unicode
ascii = record {
  is_upper = λ c. leb 65 (code c) && leb (code c) 90;
  is_lower = λ c. leb 97 (code c) && leb (code c) 122;
  is_digit = λ c. leb 48 (code c) && leb (code c) 57;
  is_punct = λ c. leb (code c) 47;
  is_symbol = λ c. false;
  byte_len = λ s. 4;
}

check_policy_iff_example :
    (check_policy ascii "aB1-" (some policy) ≡ [])
    ↔ ((4 ≤ 4) × (true ≡ true → 3 ≤ number (kinds_in ascii "aB1-")))
check_policy_iff_example = check_policy_iff ascii "aB1-" (some policy)
