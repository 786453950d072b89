-- ===== src/Engine/Keeps.antt =====
-- Invariants of the engine's calls: one rule for each way to build a call.
use nfvis.Prelude.{Bool, true, false, Option, ◌≡◌, refl, if◌then◌else◌}
use nfvis.Engine.Types.{Error, Result, ok, err}
use nfvis.Engine.Db.{Sql}
use nfvis.Engine.State.{
  Engine, M, ◌>>=◌, continue, pure, raise, gets, modify, attempt, ignore, or_nil, cleaned,
  on_failure, when, call,
}

-- `m` keeps `P`, whether it returns or fails.
pub record Keeps {B S A : Type 0} (P : Engine B S → Type 0) (m : M B S A) : Type 0 where
  pub at : (e : Engine B S) → P e → P (m e).1

module _ {B S A : Type 0} {P : Engine B S → Type 0} where
  pub Keeps-pure : (a : A) → Keeps P (pure a)
  unfolding pure
  Keeps-pure a = record { at = λ e h. h }

  pub Keeps-raise : (x : Error) → Keeps P (raise {A = A} x)
  unfolding raise
  Keeps-raise x = record { at = λ e h. h }

  pub Keeps-gets : (f : Engine B S → A) → Keeps P (gets f)
  unfolding gets
  Keeps-gets f = record { at = λ e h. h }

  pub Keeps-attempt : (m : M B S A) → Keeps P m → Keeps P (attempt m)
  unfolding attempt
  Keeps-attempt m k = record { at = k.at }

  pub Keeps-ignore : (m : M B S A) → Keeps P m → Keeps P (ignore m)
  unfolding ignore
  Keeps-ignore m k = record { at = k.at }

  pub Keeps-or_nil : (m : M B S (Option A)) → Keeps P m → Keeps P (or_nil m)
  unfolding or_nil
  Keeps-or_nil m k = record { at = k.at }

  pub Keeps-call :
      (sql : Sql B A)
      → ((e : Engine B S) → P e → P (record e { store = (sql e.store).1 }))
      → Keeps P (call sql)
  unfolding call
  Keeps-call sql h = record { at = h }

  pub Keeps-if : (b : Bool) (m n : M B S A) → Keeps P m → Keeps P n → Keeps P (if b then m else n)
  Keeps-if true m n km kn = km
  Keeps-if false m n km kn = kn

  Keeps-cleaned :
      (r : Result A) (h : Error → M B S (Unit {0}))
      → ((x : Error) → Keeps P (h x))
      → Keeps P (cleaned r h)
  Keeps-cleaned (ok a) h k = record { at = λ e p. p }
  Keeps-cleaned (err x) h k = record { at = (k x).at }

  pub Keeps-on_failure :
      (m : M B S A) (h : Error → M B S (Unit {0}))
      → Keeps P m
      → ((x : Error) → Keeps P (h x))
      → Keeps P (on_failure m h)
  unfolding on_failure
  Keeps-on_failure m h k kh = record {
    at = λ e p. let (r, e') = m e in (Keeps-cleaned r h kh).at e' (k.at e p);
  }

module _ {B S : Type 0} {P : Engine B S → Type 0} where
  pub Keeps-modify :
      (f : Engine B S → Engine B S) → ((e : Engine B S) → P e → P (f e)) → Keeps P (modify f)
  unfolding modify
  Keeps-modify f h = record { at = h }

  pub Keeps-when : (b : Bool) (m : M B S (Unit {0})) → Keeps P m → Keeps P (when b m)
  unfolding when
  Keeps-when true m k = k
  Keeps-when false m k = Keeps-pure tt

module _ {B S A C : Type 0} {P : Engine B S → Type 0} where
  Keeps-continue :
      (r : Result A) (f : A → M B S C) → ((a : A) → Keeps P (f a)) → Keeps P (continue r f)
  Keeps-continue (ok a) f k = record { at = (k a).at }
  Keeps-continue (err x) f k = record { at = λ e h. h }

  pub Keeps-bind :
      (m : M B S A) (f : A → M B S C) → Keeps P m → ((a : A) → Keeps P (f a)) → Keeps P (m >>= f)
  unfolding ◌>>=◌
  Keeps-bind m f km kf = record {
    at = λ e h. let (r, e') = m e in (Keeps-continue r f kf).at e' (km.at e h);
  }

-- A step of a `do` block whose outcome is known.
module _ {B S A C : Type 0} where
  pub bind_ok :
      (m : M B S A) (f : A → M B S C) {e e' : Engine B S} {a : A}
      → m e ≡ (ok a, e')
      → (m >>= f) e ≡ f a e'
  unfolding ◌>>=◌
  bind_ok m f h = rw h

  pub bind_err :
      (m : M B S A) (f : A → M B S C) {e e' : Engine B S} {x : Error}
      → m e ≡ (err x, e')
      → (m >>= f) e ≡ (err x, e')
  unfolding ◌>>=◌
  bind_err m f h = rw h

module _ {B S A : Type 0} where
  pub pure_eq : (a : A) (e : Engine B S) → pure a e ≡ (ok a, e)
  unfolding pure
  pure_eq a e = refl

  pub on_failure_ok :
      (m : M B S A) (h : Error → M B S (Unit {0})) {e e' : Engine B S} {a : A}
      → m e ≡ (ok a, e')
      → on_failure m h e ≡ (ok a, e')
  unfolding on_failure
  on_failure_ok m h p = rw p

pub ruleset keeps_rules = (
  Keeps-pure, Keeps-raise, Keeps-gets, Keeps-attempt, Keeps-ignore, Keeps-or_nil, Keeps-if,
  Keeps-on_failure, Keeps-when, Keeps-bind,
)
