-- ===== src/Images/Settled.antt =====
-- What a start makes of the downloads that were broken off.
use nfvis.Prelude.{
  String, Bool, true, false, Option, none, some, List, [], ◌∷◌, ◌≡◌, refl, sym, ap, ◌∙◌, subst, All,
  str_eq, if◌then◌else◌, Bool-cases, inl, inr, get, map_values,
}
use nfvis.Engine.Types.{ImageInfo}
use nfvis.Images.Store.{
  Meta, ImportState, ready, downloading, failed, settle, fail_stale, any_stale, is_downloading,
  reconcile, open_store, available, lookup,
}

-- Only what was completely there.
abbrev pub ready_info : Option Meta → Option ImageInfo
ready_info none = none
ready_info (some m) = elim m.import_state [
  | ready ↦ some (record { name = m.name; type = m.type })
  | downloading ↦ none
  | failed ↦ none
]

fail_stale-fresh : (st : ImportState) (m : Meta) → is_downloading st ≡ false → fail_stale st m ≡ m
fail_stale-fresh ready m h = refl
fail_stale-fresh failed m h = refl
fail_stale-fresh downloading m h = cc h

any_stale-cons : (b : Bool) (r : Bool) → (if b then true else r) ≡ false → (b ≡ false) × (r ≡ false)
any_stale-cons true r h = cc h
any_stale-cons false r h = (refl, h)

map_values-fresh : (m : List (String × Meta)) → any_stale m ≡ false → map_values settle m ≡ m
map_values-fresh [] h = refl
map_values-fresh ((k, x) ∷ rest) h =
    let (e, es) = any_stale-cons (is_downloading x.import_state) (any_stale rest) h in
    cc (fail_stale-fresh x.import_state x e, map_values-fresh rest es)

open_store-index :
    (can_save : Bool) (saved : List (String × Meta))
    → (open_store can_save saved).0.index ≡ map_values settle saved
unfolding open_store reconcile
open_store-index true saved = elim (Bool-cases (any_stale saved)) [
  | inl e ↦ rw e refl
  | inr e ↦ rw e (sym (map_values-fresh saved e))
]
open_store-index false saved = elim (Bool-cases (any_stale saved)) [
  | inl e ↦ rw e refl
  | inr e ↦ rw e (sym (map_values-fresh saved e))
]

ready-available :
    (st : ImportState) (m : Meta)
    → m.import_state ≡ st
    → available (some (fail_stale st m)) ≡ ready_info (some m)
ready-available ready m h = rw h refl
ready-available failed m h = rw h refl
ready-available downloading m h = rw h refl

get-settled :
    (name : String) (m : List (String × Meta))
    → available (get name (map_values settle m)) ≡ ready_info (get name m)
unfolding get
get-settled name [] = refl
get-settled name ((k, x) ∷ rest) = elim (Bool-cases (str_eq k name)) [
  | inl e ↦ rw e (ready-available x.import_state x refl)
  | inr e ↦ rw e (get-settled name rest)
]

settled-fresh :
    (st : ImportState) (m : Meta)
    → m.import_state ≡ st
    → is_downloading (fail_stale st m).import_state ≡ false
settled-fresh ready m h = rw h refl
settled-fresh failed m h = rw h refl
settled-fresh downloading m h = refl

abbrev pub IsFresh : String × Meta → Type 0
IsFresh p = is_downloading p.1.import_state ≡ false

map_values-IsFresh : (m : List (String × Meta)) → All IsFresh (map_values settle m)
map_values-IsFresh [] = tt
map_values-IsFresh ((k, x) ∷ rest) = (settled-fresh x.import_state x refl, map_values-IsFresh rest)

-- When the store is opened, no image counts as still being downloaded, and exactly the images that
-- were complete are available.
pub open_store-IsSettled :
    (can_save : Bool) (saved : List (String × Meta))
    → All IsFresh (open_store can_save saved).0.index
      × ((name : String) → lookup (open_store can_save saved).0 name ≡ ready_info (get name saved))
unfolding lookup
open_store-IsSettled can_save saved = (
  subst (λ i. All IsFresh i) (sym (open_store-index can_save saved)) (map_values-IsFresh saved),
  λ name.
      ap (λ i. available (get name i)) (open_store-index can_save saved) ∙ get-settled name saved,
)
