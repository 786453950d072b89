-- ===== src/Aaa/Policies.antt =====
-- Which passwords the policy accepts.
use Prim.Native.Char.{Char}
use nfvis.Prelude.{
  ℕ, ◌≤◌, String, Bool, true, false, not, ◌&&◌, ◌||◌, Option, List, [], ◌∷◌, ◌++◌, ltb, ◌≡◌, ◌↔◌,
  refl, ◌∙◌, if◌then◌else◌, arith,
}
use nfvis.Model.{PasswordPolicy}
use nfvis.Aaa.Policy.{
  Unicode, Kinds, Violation, too_short, too_simple, min_length, is_complex, number, mark, marked,
  kinds_of, no_kinds, check_policy,
}

abbrev any_char : (Char → Bool) → String → Bool
any_char p String.[] = false
any_char p (String.◌∷◌ c s) = p c || any_char p s

or_false : (b : Bool) → (b || false) ≡ b
or_false b = ground arith

or_true : (b : Bool) → (b || true) ≡ true
or_true b = ground arith

abbrev both : Kinds → Kinds → Kinds
both j k = record {
  upper = j.upper || k.upper;
  lower = j.lower || k.lower;
  digit = j.digit || k.digit;
  special = j.special || k.special;
}

-- The kinds that one character adds to those of the text behind it.
abbrev with_char : Bool → Bool → Bool → Bool → Kinds → Kinds
with_char u l d y a = record {
  upper = u || a.upper;
  lower = (not u && l) || a.lower;
  digit = (not u && not l && d) || a.digit;
  special = (not u && not l && not d && y) || a.special;
}

marked-both :
    (u l d y : Bool) (a k : Kinds) → both a (marked u l d y k) ≡ both (with_char u l d y a) k
marked-both true l d y a k = rw (or_true a.upper) refl
marked-both false true d y a k = rw (or_true a.lower) refl
marked-both false false true y a k = rw (or_true a.digit) refl
marked-both false false false true a k = rw (or_true a.special) refl
marked-both false false false false a k = refl

abbrev violations : ℕ → ℕ → ℕ → Bool → List Violation
violations least len kinds complex =
    (if ltb len least then too_short least ∷ [] else [])
    ++ (if complex && ltb kinds 3 then too_simple ∷ [] else [])

accepted_iff :
    (least len kinds : ℕ) (complex : Bool)
    → (violations least len kinds complex ≡ []) ↔ ((least ≤ len) × (complex ≡ true → 3 ≤ kinds))
accepted_iff least len kinds complex = ground arith

both-none : (k : Kinds) → both k no_kinds ≡ k
both-none k =
    rw (or_false k.upper)
      (rw (or_false k.lower) (rw (or_false k.digit) (rw (or_false k.special) refl)))

module _ (uni : Unicode) where
  abbrev lower_only : Char → Bool
  lower_only c = not (uni.is_upper c) && uni.is_lower c

  abbrev digit_only : Char → Bool
  digit_only c = not (uni.is_upper c) && not (uni.is_lower c) && uni.is_digit c

  abbrev special_only : Char → Bool
  special_only c =
      not (uni.is_upper c)
      && not (uni.is_lower c)
      && not (uni.is_digit c)
      && (uni.is_punct c || uni.is_symbol c)

  -- The kinds of characters that occur in a text.
  abbrev pub kinds_in : String → Kinds
  kinds_in s = record {
    upper = any_char uni.is_upper s;
    lower = any_char lower_only s;
    digit = any_char digit_only s;
    special = any_char special_only s;
  }

  kinds_of-both : (s : String) (k : Kinds) → kinds_of uni s k ≡ both (kinds_in s) k
  unfolding kinds_of
  kinds_of-both String.[] k = refl
  kinds_of-both (String.◌∷◌ c s) k =
      kinds_of-both s (mark uni c k)
      ∙ marked-both (uni.is_upper c) (uni.is_lower c) (uni.is_digit c)
          (uni.is_punct c || uni.is_symbol c) (kinds_in s) k

  -- The policy accepts exactly the passwords that have the least number of bytes and, where it asks
  -- for complexity, characters of three kinds out of upper case, lower case, digits and the others.
  pub check_policy_iff :
      (pw : String) (p : Option PasswordPolicy)
      → (check_policy uni pw p ≡ [])
        ↔ ((min_length p ≤ uni.byte_len pw) × (is_complex p ≡ true → 3 ≤ number (kinds_in pw)))
  unfolding check_policy
  check_policy_iff pw p =
      rw (kinds_of-both pw no_kinds ∙ both-none (kinds_in pw))
        (accepted_iff (min_length p) (uni.byte_len pw) (number (kinds_in pw)) (is_complex p))
