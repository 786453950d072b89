-- ===== src/Model/Login.antt =====
-- The super-user check of a whole-document commit (internal/model/validate.go) and the shape of a
-- validation error. A message that the source formats is kept as data.
use nfvis.Prelude.{ℕ, String, Bool, Option, none, some, List, [], ◌∷◌, str_eq, any, if◌then◌else◌}
use nfvis.Model.System.{LoginUserConfig, SystemConfig, SystemLogin}
use nfvis.Model.Tree.{Config}

pub data Issue : Type 0 where
  no_super_user : Issue
  image_missing : String → String → List String → Issue
  image_type : String → String → Issue
  no_huge_pool : String → ℕ → Issue
  pages_short : String → ℕ → ℕ → Issue
  cores_short : Option ℕ → ℕ → ℕ → Issue
  other : String → Issue

pub record ValidateError : Type 0 where
  pub path : String
  pub message : Issue

abbrev pub class_super_user : String
class_super_user = "super-user"

unfoldable pub effective_class : LoginUserConfig → String
effective_class u = if str_eq u.class "" then "read-only" else u.class

abbrev pub is_super_user : LoginUserConfig → Bool
is_super_user u = str_eq (effective_class u) class_super_user

-- `system.login.users`, with a nil pointer on the way read as no users.
abbrev pub users_of_login : Option SystemLogin → List LoginUserConfig
users_of_login none = []
users_of_login (some l) = l.users

abbrev pub login_of_system : Option SystemConfig → Option SystemLogin
login_of_system none = none
login_of_system (some s) = s.login

abbrev pub login_users : Config → List LoginUserConfig
login_users c = users_of_login (login_of_system c.system)

unfoldable pub check_super_user_present : Config → List ValidateError
unfolding any
check_super_user_present c =
    if any is_super_user (login_users c)
    then []
    else record { path = "system.login.users"; message = no_super_user } ∷ []
