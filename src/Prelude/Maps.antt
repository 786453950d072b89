-- ===== src/Prelude/Maps.antt =====
-- Maps from texts as lists of pairs, as a Go map that is also listed.
use Prim.Native.String.{String}
use mathlib.Core.Path.{◌≡◌, refl}
use mathlib.Core.Option.{Option, none, some}
use mathlib.Core.List.{List, [], ◌∷◌}
use native.Mathlib.Omega.{arith}
use text.Mathlib.TextEquality.{eq_iff}
use nfvis.Prelude.Tests.{if◌then◌else◌}
use nfvis.Prelude.Text.{str_eq}

module _ {ℓ} {V : Type ℓ} where
  unfoldable pub get : String → List (String × V) → Option V
  get k [] = none
  get k ((j, v) ∷ m) = if str_eq j k then some v else get k m

  unfoldable pub put : String → V → List (String × V) → List (String × V)
  put k v [] = (k, v) ∷ []
  put k v ((j, w) ∷ m) = if str_eq j k then (k, v) ∷ m else (j, w) ∷ put k v m

  unfoldable pub erase : String → List (String × V) → List (String × V)
  erase k [] = []
  erase k ((j, w) ∷ m) = let rest = erase k m in if str_eq j k then rest else (j, w) ∷ rest

  pub get-put :
      (k j : String) (v : V) (m : List (String × V))
      → get j (put k v m) ≡ (if str_eq k j then some v else get j m)
  unfolding get put
  get-put k j v [] = refl
  get-put k j v ((i, w) ∷ m) = ground (arith, eq_iff k j, eq_iff i k, eq_iff i j, get-put k j v m)

  pub get-erase :
      (k j : String) (m : List (String × V))
      → get j (erase k m) ≡ (if str_eq k j then none else get j m)
  unfolding get erase
  get-erase k j [] = ground arith
  get-erase k j ((i, w) ∷ m) = ground (arith, eq_iff k j, eq_iff i k, eq_iff i j, get-erase k j m)

  -- Values changed in place.
  abbrev pub map_values {κ} : {W : Type κ} → (V → W) → List (String × V) → List (String × W)
  map_values f [] = []
  map_values f ((k, v) ∷ m) = (k, f v) ∷ map_values f m
