-- ===== src/Aaa/Policy.antt =====
-- `CheckPasswordPolicy` and `ChangePassword` (internal/aaa/service.go). The tests of `unicode` and the
-- number of bytes of a text are parameters.
use Prim.Native.Char.{Char}
use nfvis.Prelude.{
  ℕ, ◌+◌, String, Bool, true, false, not, ◌&&◌, ◌||◌, Option, none, some, List, [], ◌∷◌, ◌++◌, ltb,
  str_eq, if◌then◌else◌,
}
use nfvis.Model.{Config, LoginUserConfig, PasswordPolicy}
use nfvis.Aaa.Service.{login_policy, find_user}

pub record Unicode : Type 0 where
  pub is_upper : Char → Bool
  pub is_lower : Char → Bool
  pub is_digit : Char → Bool
  pub is_punct : Char → Bool
  pub is_symbol : Char → Bool
  pub byte_len : String → ℕ

pub data Violation : Type 0 where
  too_short : ℕ → Violation
  too_simple : Violation

pub record Kinds : Type 0 where
  pub upper : Bool
  pub lower : Bool
  pub digit : Bool
  pub special : Bool

abbrev pub min_length : Option PasswordPolicy → ℕ
min_length none = 8
min_length (some p) = if ltb 0 p.min_length then p.min_length else 8

abbrev pub is_complex : Option PasswordPolicy → Bool
is_complex none = false
is_complex (some p) = p.complexity

abbrev pub one : Bool → ℕ
one true = 1
one false = 0

abbrev pub number : Kinds → ℕ
number k = one k.upper + one k.lower + one k.digit + one k.special

abbrev pub no_kinds : Kinds
no_kinds = record { upper = false; lower = false; digit = false; special = false }

-- The `switch` of the loop over the runes: the first case that fits is taken.
abbrev pub marked : Bool → Bool → Bool → Bool → Kinds → Kinds
marked upper lower digit special k =
    if upper
    then record k { upper = true }
    else if lower
    then record k { lower = true }
    else if digit
    then record k { digit = true }
    else if special
    then record k { special = true }
    else k

pub data ChangeError : Type 0 where
  bad_credentials unreadable : ChangeError
  bad_password : List Violation → ChangeError

abbrev pub policy_error : List Violation → Option ChangeError
policy_error [] = none
policy_error (v ∷ vs) = some (bad_password (v ∷ vs))

module _ (uni : Unicode) where
  abbrev pub mark : Char → Kinds → Kinds
  mark c =
      marked (uni.is_upper c) (uni.is_lower c) (uni.is_digit c) (uni.is_punct c || uni.is_symbol c)

  unfoldable pub kinds_of : String → Kinds → Kinds
  kinds_of String.[] k = k
  kinds_of (String.◌∷◌ c s) k = kinds_of s (mark c k)

  -- `CheckPasswordPolicy`.
  unfoldable pub check_policy : String → Option PasswordPolicy → List Violation
  unfolding kinds_of
  check_policy pw p =
      (if ltb (uni.byte_len pw) (min_length p) then too_short (min_length p) ∷ [] else [])
      ++ (if is_complex p && ltb (number (kinds_of pw no_kinds)) 3 then too_simple ∷ [] else [])

  abbrev pub proved : (String → String → Bool) → Option LoginUserConfig → String → Bool
  proved verify none password = false
  proved verify (some u) password =
      not (str_eq u.password_hash "") && verify u.password_hash password

  -- `ChangePassword`: none is success.
  unfoldable pub change_password :
      (String → String → Bool) → Option Config → String → String → String → Option ChangeError
  unfolding check_policy find_user
  change_password verify none user old_password new_password = some unreadable
  change_password verify (some c) user old_password new_password =
      if not (proved verify (find_user c user) old_password)
      then some bad_credentials
      else policy_error (check_policy new_password (login_policy (some c)))
