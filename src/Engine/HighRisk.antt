-- ===== src/Engine/HighRisk.antt =====
-- The intent line of a high-risk commit (internal/config/audit_highrisk.go): changes of local
-- users, permission classes, the password policy and the certificate files.
use nfvis.Prelude.{
  ℕ, String, Bool, true, false, ◌&&◌, ◌||◌, Option, none, some, List, [], ◌∷◌, ◌++◌, ◌==◌, str_eq,
  if◌then◌else◌, length, flat_map, find_last, sort_strings, all_str_eq,
}
use nfvis.Model.{
  Config, SystemConfig, SystemLogin, LoginUserConfig, ClassDef, PasswordPolicy, ApiConfig,
  login_of_system,
}
use nfvis.Engine.Types.{
  Intent, create_user, reset_password, change_class, delete_user, create_class, adjust_class,
  delete_class, change_policy, install_cert, remove_cert, change_cert,
}

abbrev pub source_zeroize : String
source_zeroize = "system-zeroize"

abbrev pub source_restore : String
source_restore = "system-restore"

abbrev empty_login : SystemLogin
empty_login = record { users = []; classes = []; password_policy = none }

abbrev login_or_empty : Option SystemLogin → SystemLogin
login_or_empty none = empty_login
login_or_empty (some l) = l

unfoldable pub login_of : Config → SystemLogin
login_of c = login_or_empty (login_of_system c.system)

abbrev pub class_label : String → String
class_label class = if str_eq class "" then "read-only（默认）" else class

abbrev user_of : String → List LoginUserConfig → Option LoginUserConfig
user_of name = find_last (λ u. str_eq u.name name)

-- One round of the loop over the users of the candidate.
abbrev user_part : Option LoginUserConfig → LoginUserConfig → List Intent
user_part none u = create_user u.name (class_label u.class) ∷ []
user_part (some old) u =
    (if str_eq old.password_hash u.password_hash then [] else reset_password u.name ∷ [])
    ++ (if str_eq (class_label old.class) (class_label u.class)
        then []
        else change_class u.name (class_label old.class) (class_label u.class) ∷ [])

abbrev deleted_user : Option LoginUserConfig → LoginUserConfig → List Intent
deleted_user none u = delete_user u.name (class_label u.class) ∷ []
deleted_user (some kept) u = []

unfoldable pub user_change_parts : SystemLogin → SystemLogin → List Intent
user_change_parts prev next =
    flat_map (λ u. user_part (user_of u.name prev.users) u) next.users
    ++ flat_map (λ u. deleted_user (user_of u.name next.users) u) prev.users

-- Two lists of texts, the order left aside.
unfoldable pub same_strings : List String → List String → Bool
unfolding sort_strings
same_strings a b = (length a == length b) && all_str_eq (sort_strings a) (sort_strings b)

abbrev class_of : String → List ClassDef → Option ClassDef
class_of name = find_last (λ c. str_eq c.name name)

abbrev class_part : Option ClassDef → ClassDef → List Intent
class_part none c = create_class c.name (length c.allow) (length c.deny) ∷ []
class_part (some old) c =
    if same_strings old.allow c.allow && same_strings old.deny c.deny
    then []
    else adjust_class c.name (length c.allow) (length c.deny) ∷ []

abbrev deleted_class : Option ClassDef → ClassDef → List Intent
deleted_class none c = delete_class c.name ∷ []
deleted_class (some kept) c = []

unfoldable pub class_change_parts : SystemLogin → SystemLogin → List Intent
class_change_parts prev next =
    flat_map (λ c. class_part (class_of c.name prev.classes) c) next.classes
    ++ flat_map (λ c. deleted_class (class_of c.name next.classes) c) prev.classes

-- `policyInt`, `policyBool`: a missing policy reads as 0 and false.
abbrev policy_int : (PasswordPolicy → ℕ) → Option PasswordPolicy → ℕ
policy_int get none = 0
policy_int get (some p) = get p

abbrev bool_num : Bool → ℕ
bool_num true = 1
bool_num false = 0

abbrev policy_field : String → ℕ → ℕ → List (String × ℕ × ℕ)
policy_field name old new = if old == new then [] else (name, old, new) ∷ []

abbrev policy_fields : Option PasswordPolicy → Option PasswordPolicy → List (String × ℕ × ℕ)
policy_fields p n =
    policy_field "min_length" (policy_int (λ x. x.min_length) p) (policy_int (λ x. x.min_length) n)
    ++ (policy_field "complexity" (policy_int (λ x. bool_num x.complexity) p)
          (policy_int (λ x. bool_num x.complexity) n)
        ++ (policy_field "expire_days" (policy_int (λ x. x.expire_days) p)
              (policy_int (λ x. x.expire_days) n)
            ++ (policy_field "lockout_threshold" (policy_int (λ x. x.lockout_threshold) p)
                  (policy_int (λ x. x.lockout_threshold) n)
                ++ policy_field "lockout_minutes" (policy_int (λ x. x.lockout_minutes) p)
                    (policy_int (λ x. x.lockout_minutes) n))))

abbrev policy_part : List (String × ℕ × ℕ) → List Intent
policy_part [] = []
policy_part (f ∷ fs) = change_policy (f ∷ fs) ∷ []

unfoldable pub policy_change_parts : SystemLogin → SystemLogin → List Intent
policy_change_parts prev next =
    policy_part (policy_fields prev.password_policy next.password_policy)

abbrev paths_of_api : Option ApiConfig → String × String
paths_of_api none = ("", "")
paths_of_api (some a) = (a.cert_file, a.key_file)

abbrev api_of_system : Option SystemConfig → Option ApiConfig
api_of_system none = none
api_of_system (some s) = s.api

unfoldable pub cert_paths : Config → String × String
cert_paths c = paths_of_api (api_of_system c.system)

unfoldable pub cert_file_change_parts : Config → Config → List Intent
unfolding cert_paths
cert_file_change_parts prev next =
    let (pc, pk) = cert_paths prev in
    let (nc, nk) = cert_paths next in
    if str_eq pc nc && str_eq pk nk
    then []
    else if str_eq pc "" && str_eq pk ""
    then install_cert nc nk ∷ []
    else if str_eq nc "" && str_eq nk ""
    then remove_cert pc pk ∷ []
    else change_cert nc nk ∷ []

-- `highRiskConfigIntent`: no part is the empty text of the source.
unfoldable pub high_risk_config_intent : Config → Config → String → List Intent
high_risk_config_intent prev next source =
    if str_eq source source_zeroize || str_eq source source_restore
    then []
    else (user_change_parts (login_of prev) (login_of next)
        ++ (class_change_parts (login_of prev) (login_of next)
            ++ (policy_change_parts (login_of prev) (login_of next)
                ++ cert_file_change_parts prev next)))
