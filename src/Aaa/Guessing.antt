-- ===== src/Aaa/Guessing.antt =====
-- A user whose password is guessed at.
use nfvis.Prelude.{
  ℕ, suc, ◌+◌, ◌<◌, String, Bool, true, false, Option, none, some, List, [], ◌∷◌, ◌++◌, subst, ltb,
  leb, lt→ltb, length, All, ◌≡◌, refl, sym, ap, ◌∙◌, str_eq, str_eq_complete, arith,
}
use nfvis.Model.{Config, LoginUserConfig, login_users}
use nfvis.Aaa.Service.{
  Service, LockoutState, refused, locked, login, admit, has_none, lock_of, failures_of,
  failed_again, login_with, held, sweep_locked, record_failure, find_in, find_user, threshold,
  lock_time,
}

held-unlocked : (now : ℕ) (o : Option LockoutState) → lock_of o ≡ 0 → held now o ≡ o
held-unlocked now none h = refl
held-unlocked now (some st) h = ground arith

held-locked : (now : ℕ) (o : Option LockoutState) → now < lock_of o → held now o ≡ o
held-locked now none h = refl
held-locked now (some st) h = ground arith

not_below_zero : (n : ℕ) → ltb n 0 ≡ false
not_below_zero n = ground arith

leb-above : (a b : ℕ) → b < a → leb a b ≡ false
leb-above a b h = ground arith

leb-same : (a b : ℕ) → b ≡ a → leb a b ≡ true
leb-same a b h = ground arith

found_some :
    (name : String) (us : List LoginUserConfig) (u : LoginUserConfig)
    → find_in name us ≡ some u
    → has_none us ≡ false
found_some name [] u h = cc h
found_some name (v ∷ vs) u h = refl

-- While the lock of a user lasts, every login in this name is refused, with any password and under any
-- configuration.
login-locked :
    (verify : String → String → Bool) (src : Option Config) (now : ℕ) (random : Option String)
    (user password : String) (s : Service)
    → now < lock_of (s.lockouts user)
    → (login verify src now random user password s).1 ≡ refused (locked (lock_of (s.lockouts user)))
unfolding login sweep_locked
login-locked verify src now random user password s h =
    rw (held-locked now (s.lockouts user) h) (rw (lt→ltb now (lock_of (s.lockouts user)) h) refl)

module _ (verify : String → String → Bool) (c : Config) (user : String) where
  -- One login after the other, at the given times and with the given passwords.
  abbrev pub guesses : List (ℕ × String) → Service → Service
  guesses [] s = s
  guesses (g ∷ gs) s = guesses gs (login verify (some c) g.0 none user g.1 s).0

module _ (verify : String → String → Bool) (c : Config) (user : String) (account : LoginUserConfig)
    (found : find_user c user ≡ some account)
    (has_hash : str_eq account.password_hash "" ≡ false) where
  abbrev pub IsWrong : ℕ × String → Type 0
  IsWrong g = verify account.password_hash g.1 ≡ false

  admit-wrong :
      (now : ℕ) (password : String) (s : Service)
      → verify account.password_hash password ≡ false
      → (admit verify c now none user password (some account) s).0.lockouts user
        ≡ some (failed_again (some c) now (s.lockouts user))
  unfolding record_failure
  admit-wrong now password s w = rw has_hash (rw w (rw (str_eq_complete user user refl) refl))

  login_with-wrong :
      (now : ℕ) (password : String) (s : Service)
      → verify account.password_hash password ≡ false
      → (login_with verify (some c) now none user password s).0.lockouts user
        ≡ some (failed_again (some c) now (s.lockouts user))
  unfolding find_user
  login_with-wrong now password s w = rw (found_some user (login_users c) account found) (
      subst
        (λ o.
          (admit verify c now none user password o s).0.lockouts user
          ≡ some (failed_again (some c) now (s.lockouts user)))
        (sym found) (admit-wrong now password s w))

  -- A wrong password counts, when the user is not locked.
  wrong-login :
      (now : ℕ) (password : String) (s : Service)
      → verify account.password_hash password ≡ false
      → lock_of (s.lockouts user) ≡ 0
      → (login verify (some c) now none user password s).0.lockouts user
        ≡ some (failed_again (some c) now (s.lockouts user))
  unfolding login sweep_locked
  wrong-login now password s w u =
      let swept : Service = sweep_locked now s in
      let same : held now (s.lockouts user) ≡ s.lockouts user =
        held-unlocked now (s.lockouts user) u in
      let open_ : ltb now (lock_of (held now (s.lockouts user))) ≡ false =
        rw same (rw u (not_below_zero now)) in
      rw open_
        (login_with-wrong now password swept w ∙ ap (λ o. some (failed_again (some c) now o)) same)

  -- One guess before the last one.
  count :
      (now : ℕ) (n : ℕ) (o : Option LockoutState)
      → failures_of o ≡ n
      → lock_of o ≡ 0
      → suc n < threshold (some c)
      → failed_again (some c) now o ≡ record { failures = suc n; locked_until = 0 }
  count now n o f u h = rw f (rw (leb-above (threshold (some c)) (suc n) h) (rw u refl))

  last :
      (now : ℕ) (n : ℕ) (o : Option LockoutState)
      → failures_of o ≡ n
      → suc n ≡ threshold (some c)
      → failed_again (some c) now o
        ≡ record { failures = 0; locked_until = now + lock_time (some c) }
  last now n o f h = rw f (rw (leb-same (threshold (some c)) (suc n) h) refl)

  run-locked :
      (gs : List (ℕ × String)) (g : ℕ × String) (n : ℕ) (s : Service)
      → All IsWrong gs
      → IsWrong g
      → failures_of (s.lockouts user) ≡ n
      → lock_of (s.lockouts user) ≡ 0
      → suc (n + length gs) ≡ threshold (some c)
      → lock_of ((guesses verify c user (gs ++ g ∷ []) s).lockouts user) ≡ g.0 + lock_time (some c)
  run-locked [] g n s ws w f u h =
      ap lock_of (wrong-login g.0 g.1 s w u)
      ∙ ap (λ st. st.locked_until) (last g.0 n (s.lockouts user) f (omega (arith, h)))
  run-locked (x ∷ xs) g n s (wx, ws) w f u h =
      run-locked xs g (suc n) _ ws w
        (ap failures_of (wrong-login x.0 x.1 s wx u)
          ∙ ap (λ st. st.failures) (count x.0 n (s.lockouts user) f u (omega (arith, h))))
        (ap lock_of (wrong-login x.0 x.1 s wx u)
          ∙ ap (λ st. st.locked_until) (count x.0 n (s.lockouts user) f u (omega (arith, h))))
        (omega (arith, h))

  -- When as many logins in a row as the policy allows give a wrong password, the last of them locks
  -- the user: until the lock time is over, a login is refused, even with the right password.
  pub guesses-lock :
      (gs : List (ℕ × String)) (g : ℕ × String) (s : Service)
      → All IsWrong gs
      → IsWrong g
      → s.lockouts user ≡ none
      → suc (length gs) ≡ threshold (some c)
      → (src : Option Config) (now : ℕ) (random : Option String) (password : String)
      → now < g.0 + lock_time (some c)
      → (login verify src now random user password (guesses verify c user (gs ++ g ∷ []) s)).1
        ≡ refused (locked (g.0 + lock_time (some c)))
  guesses-lock gs g s ws w fresh h src now random password b =
      let until : lock_of ((guesses verify c user (gs ++ g ∷ []) s).lockouts user)
          ≡ g.0 + lock_time (some c) =
        run-locked gs g 0 s ws w (ap failures_of fresh) (ap lock_of fresh) (omega (arith, h)) in
      login-locked verify src now random user password (guesses verify c user (gs ++ g ∷ []) s)
        (omega (arith, b, until))
      ∙ ap (λ n. refused (locked n)) until
