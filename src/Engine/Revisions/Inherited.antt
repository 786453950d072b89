-- ===== src/Engine/Revisions/Inherited.antt =====
-- What a candidate that a client sends without password hashes takes over.
use nfvis.Prelude.{
  String, Option, none, some, List, [], ◌∷◌, true, false, not, ◌&&◌, ◌≡◌, refl, ◌≢◌, arith, ◌⊎◌,
  inl, inr, ap, subst, str_eq, str_eq_sound, str_eq_complete, Bool-cases, Option-cases, map,
}
use nfvis.Model.{
  LoginUserConfig, SystemConfig, SystemLogin, Config, users_of_login, login_of_system, login_users,
}
use nfvis.Engine.Candidate.{
  inherit_login, inherit_system, inherit_user, remembered_hash, inherit_sensitive,
}

-- A user of the list `old`, by the name `name` and with the hash `hash`, which is not empty.
abbrev pub Remembers : List LoginUserConfig → String → String → Type 0
Remembers [] name hash = ⊥
Remembers (u ∷ us) name hash =
    ((u.name ≡ name) × (u.password_hash ≡ hash) × (hash ≢ "")) ⊎ Remembers us name hash

-- No user of the list has the name `name` and a hash.
abbrev pub Forgets : List LoginUserConfig → String → Type 0
Forgets [] name = Unit
Forgets (u ∷ us) name = (u.name ≡ name → u.password_hash ≡ "") × Forgets us name

matches :
    (u : LoginUserConfig) (name : String)
    → (str_eq u.name name && not (str_eq u.password_hash "")) ≡ true
    → u.name ≡ name
matches u name p = ground (arith, str_eq_sound u.name name)

ne : (s : String) → str_eq s "" ≡ false → s ≢ ""
ne s p q = absurd (ground (arith, str_eq_complete s "" q))

hashed :
    (u : LoginUserConfig) (name : String)
    → (str_eq u.name name && not (str_eq u.password_hash "")) ≡ true
    → u.password_hash ≢ ""
hashed u name p = ne u.password_hash (ground arith)

unmatched :
    (u : LoginUserConfig) (name : String)
    → (str_eq u.name name && not (str_eq u.password_hash "")) ≡ false
    → u.name ≡ name
    → u.password_hash ≡ ""
unmatched u name p q =
    str_eq_sound u.password_hash "" (ground (arith, str_eq_complete u.name name q))

found : (u o : LoginUserConfig) → some u ≡ some o → u ≡ o
found u o p = cc p

remembered-Forgets :
    (old : List LoginUserConfig) (name : String)
    → remembered_hash old name ≡ none
    → Forgets old name
remembered-Forgets [] name p = tt
remembered-Forgets (u ∷ us) name p = elim (Option-cases (remembered_hash us name)) [
  | inr (x, q) ↦ absurd (ground arith)
  | inl q ↦ elim (Bool-cases (str_eq u.name name && not (str_eq u.password_hash ""))) [
    | inl t ↦ absurd (ground arith)
    | inr t ↦ (unmatched u name t, remembered-Forgets us name q)
  ]
]

remembered-Remembers :
    (old : List LoginUserConfig) (name : String) (o : LoginUserConfig)
    → remembered_hash old name ≡ some o
    → Remembers old name o.password_hash
remembered-Remembers [] name o p = cc
remembered-Remembers (u ∷ us) name o p = elim (Option-cases (remembered_hash us name)) [
  | inr (x, q) ↦ inr (remembered-Remembers us name o (ground arith))
  | inl q ↦ elim (Bool-cases (str_eq u.name name && not (str_eq u.password_hash ""))) [
    | inl t ↦ inl (
      matches u name t,
      ap (λ (v : LoginUserConfig). v.password_hash) (found u o (ground arith)),
      subst (λ (v : LoginUserConfig). v.password_hash ≢ "") (found u o (ground arith))
          (hashed u name t),
    )
    | inr t ↦ absurd (ground arith)
  ]
]

-- What `new` is made from `u`, over the users `old`: the same name and class, a hash of its own
-- kept, a missing one taken over from a user of that name, and left out where there is none.
pub record Inherits (old : List LoginUserConfig) (u new : LoginUserConfig) : Type 0 where
  pub name : new.name ≡ u.name
  pub class : new.class ≡ u.class
  pub hash :
      ((u.password_hash ≢ "") × (new.password_hash ≡ u.password_hash))
      ⊎ (((u.password_hash ≡ "") × Remembers old u.name new.password_hash)
          ⊎ ((u.password_hash ≡ "") × Forgets old u.name × (new.password_hash ≡ "")))

inherit_user-Inherits :
    (old : List LoginUserConfig) (u : LoginUserConfig) → Inherits old u (inherit_user old u)
inherit_user-Inherits old u = elim (Bool-cases (str_eq u.password_hash "")) [
  | inr p ↦ rw p (record { name = refl; class = refl; hash = inl (ne u.password_hash p, refl) })
  | inl p ↦ elim (Option-cases (remembered_hash old u.name)) [
    | inl q ↦
        rw (p, q)
          (record {
            name = refl;
            class = refl;
            hash = inr (
                inr (
                  str_eq_sound u.password_hash "" p,
                  remembered-Forgets old u.name q,
                  str_eq_sound u.password_hash "" p,
                ));
          })
    | inr (o, q) ↦
        rw (p, q)
          (record {
            name = refl;
            class = refl;
            hash =
                inr (inl (str_eq_sound u.password_hash "" p, remembered-Remembers old u.name o q));
          })
  ]
]

-- The users of two lists, one by one.
abbrev pub AllInherit : List LoginUserConfig → List LoginUserConfig → List LoginUserConfig → Type 0
AllInherit old [] [] = Unit
AllInherit old [] (x ∷ xs) = ⊥
AllInherit old (u ∷ us) [] = ⊥
AllInherit old (u ∷ us) (x ∷ xs) = Inherits old u x × AllInherit old us xs

map-AllInherit : (old us : List LoginUserConfig) → AllInherit old us (map (inherit_user old) us)
map-AllInherit old [] = tt
map-AllInherit old (u ∷ us) = (inherit_user-Inherits old u, map-AllInherit old us)

-- A configuration without remembered users changes nothing.
same-Inherits : (u : LoginUserConfig) → Inherits [] u u
same-Inherits u = elim (Bool-cases (str_eq u.password_hash "")) [
  | inr p ↦ record { name = refl; class = refl; hash = inl (ne u.password_hash p, refl) }
  | inl p ↦ record {
    name = refl;
    class = refl;
    hash = inr (inr (str_eq_sound u.password_hash "" p, tt, str_eq_sound u.password_hash "" p));
  }
]

same-AllInherit : (us : List LoginUserConfig) → AllInherit [] us us
same-AllInherit [] = tt
same-AllInherit (u ∷ us) = (same-Inherits u, same-AllInherit us)

login-AllInherit :
    (c : Config) (s : SystemConfig) (l old : Option SystemLogin)
    → AllInherit (users_of_login old) (users_of_login l) (
        login_users (
          inherit_login
            (record c { system = some (record s { login = l }) })
            (record s { login = l })
            l
            old))
login-AllInherit c s none none = tt
login-AllInherit c s none (some old) = tt
login-AllInherit c s (some l) none = same-AllInherit l.users
login-AllInherit c s (some l) (some old) = map-AllInherit old.users l.users

system-AllInherit :
    (c : Config) (s : Option SystemConfig) (old : Option SystemLogin)
    → AllInherit
        (users_of_login old)
        (users_of_login (login_of_system s))
        (login_users (inherit_system (record c { system = s }) s old))
system-AllInherit c none none = tt
system-AllInherit c none (some old) = tt
system-AllInherit c (some s) old = login-AllInherit c s s.login old

-- Whatever configuration a client sends, each of its users keeps name, class and place; a password
-- hash that it sends is kept; a missing one is taken over from a user of the same name of the
-- committed configuration, and stays missing only where no user of that name has a hash there.
pub inherit_sensitive_users :
    (cand committed : Config)
    → AllInherit
        (login_users committed)
        (login_users cand)
        (login_users (inherit_sensitive cand committed))
unfolding inherit_sensitive
inherit_sensitive_users cand committed =
    system-AllInherit cand cand.system (login_of_system committed.system)
