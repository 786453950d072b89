-- ===== src/Prelude/Text.antt =====
-- Equality of texts, as a test and as a decision.
use Prim.Native.String.{String, ◌++◌, compare}
use Prim.Native.Nat.{Ordering}
use mathlib.Core.Path.{◌≡◌}
use mathlib.Core.Logic.{inl, inr}
use mathlib.Core.Bool.{Bool, true, false, ◌&&◌}
use mathlib.Core.List.{List, [], ◌∷◌}
use text.Mathlib.Text.{◌==◌}
use text.Mathlib.TextEquality.{eq_iff}
use nfvis.Prelude.Tests.{Bool-cases}

-- Go's `==` on strings.
abbrev pub str_eq : String → String → Bool
str_eq s t = s == t

pub str_eq_sound : (s t : String) → str_eq s t ≡ true → s ≡ t
str_eq_sound s t h = (eq_iff s t).0 h

pub str_eq_complete : (s t : String) → s ≡ t → str_eq s t ≡ true
str_eq_complete s t h = (eq_iff s t).1 h

unfoldable pub String_discrete : Discrete String
String_discrete s t = elim (Bool-cases (s == t)) [
  | inl e ↦ yes ((eq_iff s t).0 e)
  | inr n ↦ no (λ e. cc ((eq_iff s t).1 e))
]

-- Go's `+` on strings.
infixl 66 ◌+++◌
abbrev pub ◌+++◌ : String → String → String
s +++ t = s ++ t

abbrev pub str_leb : String → String → Bool
str_leb s t = elim (compare s t) [ Ordering.gt ↦ false | _ ↦ true ]

-- `sort.Strings`.
abbrev pub insert_str : String → List String → List String
insert_str s [] = s ∷ []
insert_str s (t ∷ ts) = elim (str_leb s t) [ true ↦ s ∷ t ∷ ts | false ↦ t ∷ insert_str s ts ]

unfoldable pub sort_strings : List String → List String
sort_strings [] = []
sort_strings (s ∷ ts) = insert_str s (sort_strings ts)

abbrev pub all_str_eq : List String → List String → Bool
all_str_eq [] [] = true
all_str_eq (s ∷ ss) (t ∷ ts) = str_eq s t && all_str_eq ss ts
all_str_eq _ _ = false
