-- ===== src/Engine/Numbered/Rows.antt =====
-- The numbers of the revisions: without a gap, newest first, the newest being the counter.
use nfvis.Prelude.{
  ℕ, zero, suc, ◌-◌, ◌≤◌, ◌<◌, some, List, [], ◌∷◌, ◌≡◌, refl, arith, take, length, get_elem?,
}
use nfvis.Engine.Types.{ok, err, no_revision, Revision}
use nfvis.Engine.Db.{find_revision}
use nfvis.Engine.State.{Engine}

-- The rows carry the numbers n, n - 1, … down, all above 0.
abbrev pub Numbered : {B : Type 0} → ℕ → List (Revision B) → Type 0
Numbered n [] = Unit
Numbered zero (r ∷ rs) = ⊥
Numbered (suc n) (r ∷ rs) = (r.rev ≡ suc n) × Numbered n rs

abbrev pub IsNumbered : {B S : Type 0} → Engine B S → Type 0
IsNumbered e = Numbered e.store.seq e.store.revisions

module _ {B : Type 0} where
  pub take-Numbered : (k n : ℕ) (rs : List (Revision B)) → Numbered n rs → Numbered n (take k rs)
  take-Numbered zero n rs h = tt
  take-Numbered (suc k) n [] h = tt
  take-Numbered (suc k) zero (r ∷ rs) h = elim h [ ]
  take-Numbered (suc k) (suc n) (r ∷ rs) h = (h.0, take-Numbered k n rs h.1)

  pub Numbered-le : (n : ℕ) (rs : List (Revision B)) → Numbered n rs → length rs ≤ n
  Numbered-le n [] h = omega arith
  Numbered-le zero (r ∷ rs) h = elim h [ ]
  Numbered-le (suc n) (r ∷ rs) h = omega (arith, Numbered-le n rs h.1)

  -- A number above the counter is not there.
  find_above :
      (k n : ℕ) (rs : List (Revision B))
      → Numbered n rs
      → n < k
      → find_revision k rs ≡ err (no_revision k)
  find_above k n [] h lt = refl
  find_above k zero (r ∷ rs) h lt = elim h [ ]
  find_above k (suc n) (r ∷ rs) h lt = ground (arith, find_above k n rs h.1)

  -- The number i below the newest is that of the row at place i.
  pub find-Numbered :
      (i n : ℕ) (rs : List (Revision B)) (x : Revision B)
      → Numbered n rs
      → get_elem? rs i ≡ some x
      → find_revision (n - i) rs ≡ ok x.config_json
  find-Numbered i n [] x h g = cc
  find-Numbered i zero (r ∷ rs) x h g = elim h [ ]
  find-Numbered zero (suc n) (r ∷ rs) x h g = ground arith
  find-Numbered (suc i) (suc n) (r ∷ rs) x h g = ground (arith, find-Numbered i n rs x h.1)

  -- A number below the rows is not there.
  pub find_missing :
      (i n : ℕ) (rs : List (Revision B))
      → Numbered n rs
      → length rs ≤ i
      → find_revision (n - i) rs ≡ err (no_revision (n - i))
  find_missing i n [] h le = refl
  find_missing i zero (r ∷ rs) h le = elim h [ ]
  find_missing zero (suc n) (r ∷ rs) h le = absurd (omega arith)
  find_missing (suc i) (suc n) (r ∷ rs) h le = ground (arith, find_missing i n rs h.1)
