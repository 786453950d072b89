-- ===== src/Aaa/Prefixes.antt =====
-- The paths that a prefix covers.
use Prim.Native.Char.{Char, char, code}
use text.Mathlib.TextEquality.{Char-path}
use text.Mathlib.TextLemmas.{nil-append, cons-append, append-nil, append_assoc, cons-ne-nil}
use nfvis.Prelude.{
  String, ◌+++◌, true, false, Option, none, some, ◌==◌, ==_iff, ◌≡◌, ◌≢◌, ◌↔◌, refl, sym, ap, ◌∙◌,
  Bool-cases, Option-cases, inl, inr,
}
use nfvis.Aaa.Classes.{drop_prefix, ends_word, match_prefix}

-- A path that a prefix covers: the prefix itself, or the prefix and further words.
pub data IsCovered (prefix path : String) : Type 0 where
  whole : path ≡ prefix → IsCovered prefix path
  below : (rest : String) → path ≡ prefix +++ " " +++ rest → IsCovered prefix path

none≢some : (r : String) → none ≡ some r → ⊥
none≢some r p = cc p

text_or : Option String → String
text_or none = ""
text_or (some s) = s

some-text : {s r : String} → some s ≡ some r → s ≡ r
unfolding text_or
some-text h = ap text_or h

same-head :
    (c d : Char) (p s : String)
    → (code c == code d) ≡ true
    → drop_prefix p s ≡ drop_prefix (String.◌∷◌ c p) (String.◌∷◌ d s)
same-head c d p s e = rw e refl

other-head :
    (c d : Char) (p s : String)
    → (code c == code d) ≡ false
    → drop_prefix (String.◌∷◌ c p) (String.◌∷◌ d s) ≡ none
other-head c d p s e = rw e refl

drop_prefix_sound : (p s r : String) → drop_prefix p s ≡ some r → s ≡ p +++ r
drop_prefix_sound String.[] s r h = some-text h ∙ sym (nil-append r)
drop_prefix_sound (String.◌∷◌ c p) String.[] r h = cc h
drop_prefix_sound (String.◌∷◌ c p) (String.◌∷◌ d s) r h = elim (Bool-cases (code c == code d)) [
  | inl e ↦
      ap (λ x. String.◌∷◌ x s) (sym (Char-path c d ((==_iff (code c) (code d)).0 e)))
      ∙ ap (String.◌∷◌ c) (drop_prefix_sound p s r (same-head c d p s e ∙ h))
      ∙ sym (cons-append c p r)
  | inr e ↦ absurd (none≢some r (sym (other-head c d p s e) ∙ h))
]

drop_prefix_complete : (p r : String) → drop_prefix p (p +++ r) ≡ some r
drop_prefix_complete String.[] r = ap some (nil-append r)
drop_prefix_complete (String.◌∷◌ c p) r =
    ap (drop_prefix (String.◌∷◌ c p)) (cons-append c p r)
    ∙ sym (same-head c c p (p +++ r) ((==_iff (code c) (code c)).1 refl))
    ∙ drop_prefix_complete p r

false≢true : false ≡ true → ⊥
false≢true p = cc p

abbrev blank : Char
blank = char 32 tt

space : (r : String) → " " +++ r ≡ String.◌∷◌ blank r
space r = cons-append blank "" r ∙ ap (String.◌∷◌ blank) (nil-append r)

head : (c : Char) (r : String) → code c ≡ 32 → String.◌∷◌ c r ≡ " " +++ r
head c r e = ap (λ x. String.◌∷◌ x r) (Char-path c blank e) ∙ sym (space r)

matched-IsLong : (path prefix : String) → match_prefix path prefix ≡ true → prefix ≢ ""
unfolding match_prefix
matched-IsLong path String.[] h = cc h
matched-IsLong path (String.◌∷◌ c p) h = cons-ne-nil c p

ends-IsCovered : (p s r : String) → s ≡ p +++ r → ends_word (some r) ≡ true → IsCovered p s
ends-IsCovered p s String.[] h e = whole (h ∙ append-nil p)
ends-IsCovered p s (String.◌∷◌ c r) h e =
    below r
      (h ∙ ap (λ t. p +++ t) (head c r ((==_iff (code c) 32).0 e)) ∙ sym (append_assoc p " " r))

match_prefix-IsCovered :
    (path prefix : String) → match_prefix path prefix ≡ true → IsCovered prefix path
unfolding match_prefix
match_prefix-IsCovered path String.[] h = cc h
match_prefix-IsCovered path (String.◌∷◌ c p) h =
    elim (Option-cases (drop_prefix (String.◌∷◌ c p) path)) [
      | inl e ↦ absurd (false≢true (ap ends_word (sym e) ∙ h))
      | inr (r, e) ↦
          ends-IsCovered (String.◌∷◌ c p) path r (drop_prefix_sound (String.◌∷◌ c p) path r e)
            (ap ends_word (sym e) ∙ h)
    ]

IsCovered-match_prefix :
    (path prefix : String) → prefix ≢ "" → IsCovered prefix path → match_prefix path prefix ≡ true
unfolding match_prefix
IsCovered-match_prefix path String.[] n h = absurd (n refl)
IsCovered-match_prefix path (String.◌∷◌ c p) n (whole e) =
    let q = String.◌∷◌ c p in
    ap (λ s. ends_word (drop_prefix q s)) (e ∙ sym (append-nil q))
    ∙ ap ends_word (drop_prefix_complete q "")
IsCovered-match_prefix path (String.◌∷◌ c p) n (below r e) =
    let q = String.◌∷◌ c p in
    ap (λ s. ends_word (drop_prefix q s)) (e ∙ append_assoc q " " r)
    ∙ ap ends_word (drop_prefix_complete q (" " +++ r))
    ∙ ap (λ t. ends_word (some t)) (space r)

-- A prefix matches the paths that are the prefix itself or go on with further words, and an empty
-- prefix matches nothing.
pub match_prefix_iff :
    (path prefix : String)
    → (match_prefix path prefix ≡ true) ↔ ((prefix ≢ "") × IsCovered prefix path)
match_prefix_iff path prefix = (
  λ h. (matched-IsLong path prefix h, match_prefix-IsCovered path prefix h),
  λ (n, h). IsCovered-match_prefix path prefix n h,
)
