-- ===== src/Engine/Swept.antt =====
-- The sweep ends without an error, and no call changes which statements fail.
use nfvis.Prelude.{ℕ, Bool, ◌≡◌, refl, ap, arith}
use nfvis.Engine.Types.{Stmt, ok, LockInfo, ConfirmedInfo}
use nfvis.Engine.Db.{append_audit, release_lock}
use nfvis.Engine.State.{Env, Engine, M, ◌>>=◌, ◌>>◌}
use nfvis.Engine.Lifecycle.{drop_idle, do_confirmed_rollback, sweep_confirmed, sweep_idle, sweep}
use nfvis.Engine.Keeps.{Keeps, bind_ok, keeps_rules}
use nfvis.Engine.Healthy.{IsServed}

abbrev pub FailsAs : {B S : Type 0} → (Stmt → Bool) → Engine B S → Type 0
FailsAs f e = e.store.fault ≡ f

module _ {B S : Type 0} (env : Env B S) (now : ℕ) where
  do_confirmed_rollback_ok :
      (cf : ConfirmedInfo) (e : Engine B S) → (do_confirmed_rollback env now cf e).0 ≡ ok tt
  unfolding do_confirmed_rollback append_audit ◌>>=◌
  do_confirmed_rollback_ok cf e = ground arith

  drop_idle_ok : (li : LockInfo) (e : Engine B S) → (drop_idle env now li e).0 ≡ ok tt
  unfolding drop_idle append_audit ◌>>=◌
  drop_idle_ok li e = ground arith

  sweep_confirmed_ok : (e : Engine B S) → (sweep_confirmed env now e).0 ≡ ok tt
  unfolding sweep_confirmed ◌>>=◌
  sweep_confirmed_ok e = grind (arith, do_confirmed_rollback_ok)

  sweep_idle_ok : (e : Engine B S) → (sweep_idle env now e).0 ≡ ok tt
  unfolding sweep_idle ◌>>=◌
  sweep_idle_ok e = grind (arith, drop_idle_ok)

  pub sweep_ok : (e : Engine B S) → (sweep env now e).0 ≡ ok tt
  unfolding sweep ◌>>=◌
  sweep_ok e = ground (arith, sweep_confirmed_ok e, sweep_idle_ok (sweep_confirmed env now e).1)

  -- What follows a sweep runs in the state that it leaves.
  pub sweep_then :
      {A : Type 0} (k : M B S A) (e : Engine B S) → (sweep env now >> k) e ≡ k (sweep env now e).1
  sweep_then k e =
      bind_ok (sweep env now) (λ _. k) (ap (λ r. (r, (sweep env now e).1)) (sweep_ok e))

  module _ (f : Stmt → Bool) where
    pub do_confirmed_rollback-FailsAs :
        (cf : ConfirmedInfo) → Keeps (FailsAs f) (do_confirmed_rollback env now cf)
    unfolding do_confirmed_rollback append_audit ◌>>=◌
    do_confirmed_rollback-FailsAs cf = record { at = λ e h. ground arith }

    drop_idle-FailsAs : (li : LockInfo) → Keeps (FailsAs f) (drop_idle env now li)
    unfolding drop_idle append_audit release_lock ◌>>=◌
    drop_idle-FailsAs li = record { at = λ e h. ground arith }

    pub sweep_confirmed-FailsAs : Keeps (FailsAs f) (sweep_confirmed env now)
    unfolding sweep_confirmed ◌>>=◌
    sweep_confirmed-FailsAs = record {
      at = λ e h. grind (arith, λ (cf : ConfirmedInfo). (do_confirmed_rollback-FailsAs cf).at);
    }

    sweep_idle-FailsAs : Keeps (FailsAs f) (sweep_idle env now)
    unfolding sweep_idle ◌>>=◌
    sweep_idle-FailsAs = record {
      at = λ e h. grind (arith, λ (li : LockInfo). (drop_idle-FailsAs li).at);
    }

    pub sweep-FailsAs : Keeps (FailsAs f) (sweep env now)
    unfolding sweep
    sweep-FailsAs = search (keeps_rules, sweep_confirmed-FailsAs, sweep_idle-FailsAs)

  pub sweep-IsServed : (e : Engine B S) → IsServed e → IsServed (sweep env now e).1
  sweep-IsServed e h = rw ((sweep-FailsAs e.store.fault).at e refl) h
