-- ===== src/Aaa/Lockout.antt =====
-- The lock after repeated failures.
use nfvis.Prelude.{
  ℕ, ◌≤◌, ◌<◌, String, Bool, Option, none, some, ltb, str_eq, Bool-cases, inl, inr, arith,
}
use nfvis.Model.{Config, LoginUserConfig, login_users}
use nfvis.Aaa.Service.{
  TokenEntry, Service, LockoutState, login, put, issue, admit, entry_for, has_none, lock_of,
  failures_of, failed_again, login_with, held, sweep_locked, record_failure, find_user, threshold,
}

-- Every user has fewer than `k` failures on record.
abbrev pub IsBelow : ℕ → Service → Type 0
IsBelow k s = (u : String) → failures_of (s.lockouts u) < k

held-failures :
    (k now : ℕ) (o : Option LockoutState) → failures_of o < k → failures_of (held now o) < k
held-failures k now none h = h
held-failures k now (some st) h = ground arith

failed_again-failures :
    (k : ℕ) (src : Option Config) (now : ℕ) (o : Option LockoutState)
    → 0 < k
    → threshold src ≤ k
    → (failed_again src now o).failures < k
failed_again-failures k src now o p h = ground arith

module _ (k : ℕ) (positive : 0 < k) where
  put-IsBelow :
      (s : Service) (user : String) (o : Option LockoutState)
      → IsBelow k s
      → failures_of o < k
      → (u : String) → failures_of (put user o s.lockouts u) < k
  put-IsBelow s user o h p u = elim (Bool-cases (str_eq u user)) [
    | inl e ↦ rw e p
    | inr e ↦ rw e (h u)
  ]

  record_failure-IsBelow :
      (src : Option Config) (user : String) (now : ℕ) (s : Service)
      → threshold src ≤ k
      → IsBelow k s
      → IsBelow k (record_failure src user now s)
  unfolding record_failure
  record_failure-IsBelow src user now s h b =
      put-IsBelow s user (some (failed_again src now (s.lockouts user))) b
        (failed_again-failures k src now (s.lockouts user) positive h)

  issue-IsBelow :
      (e : TokenEntry) (r : Option String) (s : Service) → IsBelow k s → IsBelow k (issue e r s).0
  issue-IsBelow e none s b = b
  issue-IsBelow e (some t) s b = b

  module _ (verify : String → String → Bool) (now : ℕ) (random : Option String)
      (user password : String) where
    admit-IsBelow :
        (c : Config) (o : Option LoginUserConfig) (s : Service)
        → threshold (some c) ≤ k
        → IsBelow k s
        → IsBelow k (admit verify c now random user password o s).0
    admit-IsBelow c none s h b = record_failure-IsBelow (some c) user now s h b
    admit-IsBelow c (some u) s h b = elim (Bool-cases (str_eq u.password_hash "")) [
      | inl e ↦ rw e b
      | inr e ↦ rw e (elim (Bool-cases (verify u.password_hash password)) [
        | inl v ↦
            rw v (issue-IsBelow (entry_for c u now) random _ (put-IsBelow s user none b positive))
        | inr v ↦ rw v (record_failure-IsBelow (some c) user now s h b)
      ])
    ]

    login_with-IsBelow :
        (src : Option Config) (s : Service)
        → threshold src ≤ k
        → IsBelow k s
        → IsBelow k (login_with verify src now random user password s).0
    login_with-IsBelow none s h b = b
    login_with-IsBelow (some c) s h b = elim (Bool-cases (has_none (login_users c))) [
      | inl e ↦ rw e b
      | inr e ↦ rw e (admit-IsBelow c (find_user c user) s h b)
    ]

    -- The failures on record stay below every bound that the configured number of failures does not
    -- exceed, through any login.
    pub login-IsBelow :
        (src : Option Config) (s : Service)
        → threshold src ≤ k
        → IsBelow k s
        → IsBelow k (login verify src now random user password s).0
    unfolding login sweep_locked
    login-IsBelow src s h b =
        let swept = sweep_locked now s in
        let b' : IsBelow k (sweep_locked now s) = λ u. held-failures k now (s.lockouts u) (b u) in
        elim (Bool-cases (ltb now (lock_of (swept.lockouts user)))) [
          | inl e ↦ rw e b'
          | inr e ↦ rw e (login_with-IsBelow src swept h b')
        ]
