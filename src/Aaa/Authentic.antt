-- ===== src/Aaa/Authentic.antt =====
-- Whom a login lets in.
use nfvis.Prelude.{
  ℕ, ◌+◌, String, Bool, true, false, Option, none, some, List, [], ◌∷◌, ltb, ◌≡◌, refl, sym, ap,
  ◌∙◌, subst, str_eq, str_eq_sound, Bool-cases, inl, inr,
}
use nfvis.Model.{Config, LoginUserConfig, login_users}
use nfvis.Aaa.Service.{
  TokenInfo, Service, Answer, refused, granted, login, put, issue, admit, entry_for, has_none,
  lock_of, class_of, login_with, sweep_locked, find_in, find_user, token_ttl,
}

-- A user of the configuration has the name and the password, and the token is in this user's name
-- and class, and lasts as long as the configuration says.
pub record IsKnown (verify : String → String → Bool) (src : Option Config) (now : ℕ)
    (user password : String) (i : TokenInfo) : Type 0 where
  pub config : Config
  pub account : LoginUserConfig
  pub read : src ≡ some config
  pub found : find_user config user ≡ some account
  pub has_hash : str_eq account.password_hash "" ≡ false
  pub verified : verify account.password_hash password ≡ true
  pub own_name : i.user ≡ user
  pub own_class : i.class ≡ class_of account
  pub expiry : i.expires_at ≡ now + token_ttl config

abbrev name_or : String → Option LoginUserConfig → String
name_or name none = name
name_or name (some u) = u.name

find_in-name : (name : String) (us : List LoginUserConfig) → name_or name (find_in name us) ≡ name
find_in-name name [] = refl
find_in-name name (v ∷ vs) = elim (Bool-cases (str_eq v.name name)) [
  | inl e ↦ rw e (str_eq_sound v.name name e)
  | inr e ↦ rw e (find_in-name name vs)
]

find_user-name :
    (c : Config) (name : String) (u : LoginUserConfig) → find_user c name ≡ some u → u.name ≡ name
unfolding find_user
find_user-name c name u h = ap (name_or name) (sym h) ∙ find_in-name name (login_users c)

module _ (verify : String → String → Bool) (src : Option Config) (now : ℕ) (random : Option String)
    (user password : String) where
  abbrev IsSound : Service × Answer → Type 0
  IsSound (s, refused x) = Unit
  IsSound (s, granted i) = IsKnown verify src now user password i

  issue-IsSound :
      (c : Config) (u : LoginUserConfig) (r : Option String) (s : Service)
      → src ≡ some c
      → find_user c user ≡ some u
      → str_eq u.password_hash "" ≡ false
      → verify u.password_hash password ≡ true
      → IsSound (issue (entry_for c u now) r s)
  issue-IsSound c u none s read found hash verified = tt
  issue-IsSound c u (some t) s read found hash verified = record {
    config = c;
    account = u;
    read = read;
    found = found;
    has_hash = hash;
    verified = verified;
    own_name = find_user-name c user u found;
    own_class = refl;
    expiry = refl;
  }

  admit-IsSound :
      (c : Config) (o : Option LoginUserConfig) (s : Service)
      → src ≡ some c
      → find_user c user ≡ o
      → IsSound (admit verify c now random user password o s)
  admit-IsSound c none s read found = tt
  admit-IsSound c (some u) s read found = elim (Bool-cases (str_eq u.password_hash "")) [
    | inl e ↦ rw e tt
    | inr e ↦ rw e (elim (Bool-cases (verify u.password_hash password)) [
      | inl v ↦ rw v (
          issue-IsSound c u random (record s { lockouts = put user none s.lockouts }) read found e
            v)
      | inr v ↦ rw v tt
    ])
  ]

  login_with-IsSound :
      (o : Option Config) (s : Service)
      → src ≡ o
      → IsSound (login_with verify o now random user password s)
  login_with-IsSound none s read = tt
  login_with-IsSound (some c) s read = elim (Bool-cases (has_none (login_users c))) [
    | inl e ↦ rw e tt
    | inr e ↦ rw e (admit-IsSound c (find_user c user) s read refl)
  ]

  login-IsSound : (s : Service) → IsSound (login verify src now random user password s)
  unfolding login
  login-IsSound s =
      let swept = sweep_locked now s in
      elim (Bool-cases (ltb now (lock_of (swept.lockouts user)))) [
        | inl e ↦ rw e tt
        | inr e ↦ rw e (login_with-IsSound src swept refl)
      ]

  sound :
      (r : Service × Answer) (i : TokenInfo)
      → IsSound r
      → r.1 ≡ granted i
      → IsKnown verify src now user password i
  sound (s, a) i h e = subst (λ x. IsSound (s, x)) e h

  -- A login that is granted has named a user of the configuration by a password that the stored
  -- hash verifies; the token is in the name and the class of this user, and for the configured time.
  pub login-IsKnown :
      (s : Service) (i : TokenInfo)
      → (login verify src now random user password s).1 ≡ granted i
      → IsKnown verify src now user password i
  login-IsKnown s i e = sound (login verify src now random user password s) i (login-IsSound s) e
