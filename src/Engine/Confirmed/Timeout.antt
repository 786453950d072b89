-- ===== src/Engine/Confirmed/Timeout.antt =====
-- The timeout of a confirmed commit.
use nfvis.Prelude.{
  ℕ, suc, ◌≤◌, ◌<◌, Option, none, some, ◌∷◌, true, ◌≡◌, refl, sym, arith, Option-cases, inl, inr,
  subst,
}
use nfvis.Model.{Config}
use nfvis.Engine.Types.{
  ok, ConfirmedInfo, auto_rollback, auto_rolled_back, rollback_auto, success, confirmed_timeout,
}
use nfvis.Engine.Db.{append_audit, find_revision, insert_row}
use nfvis.Engine.State.{Env, Engine, ◌>>=◌, committed}
use nfvis.Engine.Lifecycle.{on_confirmed_timer}
use nfvis.Engine.Healthy.{IsServed, entry}

module _ {B S : Type 0} (env : Env B S) (now : ℕ) where
  -- A candidate that is open is set to the restored configuration.
  abbrev pub resynced : Option Config → Config → Option Config
  resynced none base = none
  resynced (some c) base = some base

  -- The engine after the timeout of `cf` has brought back `b`, which is the text of `base`.
  abbrev restored : ConfirmedInfo → B → Config → Engine B S → Engine B S
  restored cf b base e =
      let db = insert_row b now (auto_rollback cf.base_rev) "system" e.store in
      record e {
        store = record db {
          confirmed = none;
          audit =
              entry env now "system" rollback_auto (auto_rolled_back cf.base_rev) success
              ∷ db.audit;
        };
        timer = none;
        events = confirmed_timeout cf.base_rev ∷ e.events;
        candidate = resynced e.candidate base;
        dirty = elim e.candidate [ none ↦ e.dirty | some c ↦ true ];
      }

  -- The configuration `base` has come back as the newest revision; the data plane is as it was.
  pub record IsRestored (base : Config) (e e' : Engine B S) : Type 0 where
    pub read : committed env e' ≡ (ok base, e')
    pub seq : e'.store.seq ≡ suc e.store.seq
    pub pending : e'.store.confirmed ≡ none
    pub timer : e'.timer ≡ none
    pub candidate : e'.candidate ≡ resynced e.candidate base
    pub holder : e'.holder ≡ e.holder
    pub lock : e'.store.lock ≡ e.store.lock
    pub plane : e'.substrate ≡ e.substrate

  -- A timer that fires before the deadline, or with nothing pending, changes nothing.
  pub timer_waits :
      (e : Engine B S)
      → ((cf : ConfirmedInfo) → e.store.confirmed ≡ some cf → now < cf.deadline)
      → on_confirmed_timer env now e ≡ (ok tt, e)
  unfolding on_confirmed_timer ◌>>=◌
  timer_waits e early = elim (Option-cases e.store.confirmed) [
    | inl p ↦ ground arith
    | inr (cf, p) ↦ ground (arith, early cf p)
  ]

  timer_done :
      (cf : ConfirmedInfo) (b : B) (base : Config) (e : Engine B S)
      → IsServed e
      → e.store.confirmed ≡ some cf
      → cf.deadline ≤ now
      → find_revision cf.base_rev e.store.revisions ≡ ok b
      → env.decode b ≡ some base
      → (on_confirmed_timer env now e).1 ≡ restored cf b base e
  unfolding on_confirmed_timer append_audit ◌>>=◌
  timer_done cf b base e h p le f d = ground arith

  restored-read :
      (cf : ConfirmedInfo) (b : B) (base : Config) (e : Engine B S)
      → IsServed e
      → env.decode b ≡ some base
      → committed env (restored cf b base e) ≡ (ok base, restored cf b base e)
  unfolding committed ◌>>=◌
  restored-read cf b base e h d = ground arith

  -- The timer of a confirmed commit that is still pending, at or behind its deadline: the revision
  -- before that commit is appended as the newest one, so the committed configuration is that of then
  -- again; an open candidate is set to it; nothing is pending and no timer is armed; the session
  -- lock stays. The data plane is not called. The database serves every statement, and the revision
  -- is there and parses.
  pub timer_restores :
      (cf : ConfirmedInfo) (b : B) (base : Config) (e : Engine B S)
      → IsServed e
      → e.store.confirmed ≡ some cf
      → cf.deadline ≤ now
      → find_revision cf.base_rev e.store.revisions ≡ ok b
      → env.decode b ≡ some base
      → IsRestored base e (on_confirmed_timer env now e).1
  timer_restores cf b base e h p le f d =
      subst (IsRestored base e) (sym (timer_done cf b base e h p le f d)) (record {
        read = restored-read cf b base e h d;
        seq = refl;
        pending = refl;
        timer = refl;
        candidate = refl;
        holder = refl;
        lock = refl;
        plane = refl;
      })
