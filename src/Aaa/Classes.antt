-- ===== src/Aaa/Classes.antt =====
-- `Authorize` and `matchPrefix` (internal/aaa/service.go).
use Prim.Native.Char.{code}
use nfvis.Prelude.{
  ℕ, String, ◌+++◌, Bool, true, false, Option, none, some, List, [], ◌∷◌, leb, ◌==◌, str_eq, any,
  if◌then◌else◌,
}
use nfvis.Model.{Config, ClassDef, SystemLogin, login_of_system}

-- `Class` (internal/schema/node.go), with its order.
pub data Class : Type 0 where
  read_only operator super_user : Class

abbrev pub level : Class → ℕ
level read_only = 0
level operator = 1
level super_user = 2

-- What is left of a path behind a prefix.
abbrev pub drop_prefix : String → String → Option String
drop_prefix String.[] s = some s
drop_prefix (String.◌∷◌ c p) String.[] = none
drop_prefix (String.◌∷◌ c p) (String.◌∷◌ d s) =
    let rest = drop_prefix p s in if code c == code d then rest else none

-- The prefix ends where the path does, or before a space.
abbrev pub ends_word : Option String → Bool
ends_word none = false
ends_word (some String.[]) = true
ends_word (some (String.◌∷◌ c s)) = code c == 32

unfoldable pub match_prefix : String → String → Bool
match_prefix path String.[] = false
match_prefix path (String.◌∷◌ c p) = ends_word (drop_prefix (String.◌∷◌ c p) path)

-- `strings.Join(path, " ")`.
abbrev pub join : List String → String
join [] = ""
join (s ∷ []) = s
join (s ∷ t ∷ ts) = s +++ " " +++ join (t ∷ ts)

abbrev pub find_class : String → List ClassDef → Option ClassDef
find_class name [] = none
find_class name (c ∷ cs) = if str_eq c.name name then some c else find_class name cs

abbrev pub classes_of : Option SystemLogin → List ClassDef
classes_of none = []
classes_of (some l) = l.classes

abbrev pub by_lists : String → Option ClassDef → Bool
by_lists full none = false
by_lists full (some c) =
    if any (match_prefix full) c.deny then false else any (match_prefix full) c.allow

abbrev pub classes_in : Option Config → List ClassDef
classes_in none = []
classes_in (some c) = classes_of (login_of_system c.system)

-- `Authorize`; the configuration is none where it cannot be read.
unfoldable pub authorize : Option Config → String → Class → List String → Bool
unfolding any match_prefix
authorize src class required path =
    if str_eq class "super-user"
    then true
    else if str_eq class "operator"
    then leb (level required) (level operator)
    else if str_eq class "read-only"
    then level required == level read_only
    else by_lists (join path) (find_class class (classes_in src))
