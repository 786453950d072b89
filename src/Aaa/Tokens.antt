-- ===== src/Aaa/Tokens.antt =====
-- Tokens: what a login issues, and until when it counts.
use nfvis.Prelude.{
  ℕ, String, Bool, false, Option, none, some, ltb, ◌≡◌, refl, subst, str_eq, str_eq_complete,
  if◌then◌else◌, Bool-cases, inl, inr,
}
use nfvis.Model.{Config, LoginUserConfig, login_users}
use nfvis.Aaa.Service.{
  TokenInfo, TokenEntry, Service, Answer, refused, granted, unauthorized, login, logout,
  verify_token, put, issue, admit, entry_for, has_none, lock_of, login_with, sweep_locked,
  find_user,
}

-- An answer that grants a token has left the token in the service.
abbrev IsIssued : Service × Answer → Type 0
IsIssued (s, refused x) = Unit
IsIssued (s, granted i) =
    (now : ℕ)
    → (verify_token now i.token s).1
      ≡ (if ltb i.expires_at now then refused unauthorized else granted i)

module _ (verify : String → String → Bool) where
  issue-IsIssued :
      (e : TokenEntry) (random : Option String) (s : Service) → IsIssued (issue e random s)
  unfolding verify_token
  issue-IsIssued e none s = tt
  issue-IsIssued e (some t) s = λ now.
      rw (str_eq_complete t t refl)
        (elim (Bool-cases (ltb e.expires_at now)) [ inl h ↦ rw h refl | inr h ↦ rw h refl ])

  admit-IsIssued :
      (c : Config) (now : ℕ) (random : Option String) (user password : String)
      (u : Option LoginUserConfig) (s : Service)
      → IsIssued (admit verify c now random user password u s)
  admit-IsIssued c now random user password none s = tt
  admit-IsIssued c now random user password (some u) s =
      elim (Bool-cases (str_eq u.password_hash "")) [
        | inl e ↦ rw e tt
        | inr e ↦ rw e (elim (Bool-cases (verify u.password_hash password)) [
          | inl v ↦ rw v (
              issue-IsIssued (entry_for c u now) random
                (record s { lockouts = put user none s.lockouts }))
          | inr v ↦ rw v tt
        ])
      ]

  login_with-IsIssued :
      (src : Option Config) (now : ℕ) (random : Option String) (user password : String)
      (s : Service)
      → IsIssued (login_with verify src now random user password s)
  login_with-IsIssued none now random user password s = tt
  login_with-IsIssued (some c) now random user password s =
      elim (Bool-cases (has_none (login_users c))) [
        | inl e ↦ rw e tt
        | inr e ↦ rw e (admit-IsIssued c now random user password (find_user c user) s)
      ]

  login-IsIssued :
      (src : Option Config) (now : ℕ) (random : Option String) (user password : String)
      (s : Service)
      → IsIssued (login verify src now random user password s)
  unfolding login
  login-IsIssued src now random user password s =
      let swept = sweep_locked now s in
      elim (Bool-cases (ltb now (lock_of (swept.lockouts user)))) [
        | inl e ↦ rw e tt
        | inr e ↦ rw e (login_with-IsIssued src now random user password swept)
      ]

  issued :
      (r : Service × Answer) (i : TokenInfo)
      → IsIssued r
      → r.1 ≡ granted i
      → (t : ℕ)
      → (verify_token t i.token r.0).1
        ≡ (if ltb i.expires_at t then refused unauthorized else granted i)
  issued (s, a) i h e = subst (λ x. IsIssued (s, x)) e h

  -- The token of a login counts until its expiry, for the user and the class of the answer, and is
  -- refused afterwards.
  pub login-verify_token :
      (src : Option Config) (now : ℕ) (random : Option String) (user password : String)
      (s : Service) (i : TokenInfo)
      → (login verify src now random user password s).1 ≡ granted i
      → (t : ℕ)
      → (verify_token t i.token (login verify src now random user password s).0).1
        ≡ (if ltb i.expires_at t then refused unauthorized else granted i)
  login-verify_token src now random user password s i e =
      issued (login verify src now random user password s) i
        (login-IsIssued src now random user password s) e

-- A token that is logged out is refused from then on, whatever it was, and no other token is touched.
pub logout-verify_token :
    (t : String) (s : Service) (now : ℕ)
    → ((verify_token now t (logout t s)).1 ≡ refused unauthorized)
      × ((u : String)
          → str_eq u t ≡ false
          → (verify_token now u (logout t s)).1 ≡ (verify_token now u s).1)
unfolding verify_token logout
logout-verify_token t s now = (rw (str_eq_complete t t refl) refl, λ u h. rw h refl)
