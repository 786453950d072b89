-- ===== src/Json/Merge.antt =====
-- `Merge` (internal/model/merge.go). `show` is the decimal text of a number, `encode` and `decode` go
-- between a configuration and its document.
use nfvis.Prelude.{
  ℕ, String, Bool, true, false, not, ◌||◌, Option, none, some, List, [], ◌∷◌, ◌==◌, str_eq,
  if◌then◌else◌,
}
use nfvis.Model.{Config}
use nfvis.Json.Value.{
  Json, null, boolean, number, string, array, object, Elems, nil, cons, Fields, end, field,
  field_of, put_field, append_elem,
}

abbrev pub is_end : Fields → Bool
is_end end = true
is_end (field k v fs) = false

abbrev pub is_nil : Elems → Bool
is_nil nil = true
is_nil (cons x xs) = false

-- `pruneZero`: the value without its zeros, and whether anything is left of it.
unfoldable mutual
  pub prune_zero : Json → Json × Bool
  prune_zero null = (null, false)
  prune_zero (boolean b) = (boolean b, b)
  prune_zero (number n) = (number n, not (n == 0))
  prune_zero (string s) = (string s, not (str_eq s ""))
  prune_zero (array xs) = (array (prune_elems xs), not (is_nil (prune_elems xs)) || is_nil xs)
  prune_zero (object fs) = (object (prune_fields fs), not (is_end (prune_fields fs)) || is_end fs)

  pub prune_elems : Elems → Elems
  prune_elems nil = nil
  prune_elems (cons x xs) =
      let rest = prune_elems xs in let p = prune_zero x in if p.1 then cons p.0 rest else rest

  pub prune_fields : Fields → Fields
  prune_fields end = end
  prune_fields (field k v fs) =
      let rest = prune_fields fs in let p = prune_zero v in if p.1 then field k p.0 rest else rest

abbrev pub identity_keys : List String
identity_keys = "name" ∷ "interface" ∷ "prefix" ∷ "seq" ∷ "node" ∷ "server" ∷ "page_size" ∷ []

module _ (show : ℕ → String) where
  -- `scalarString` of a scalar.
  abbrev scalar : Option Json → Option String
  scalar (some (string s)) = some s
  scalar (some (number n)) = some (show n)
  scalar (some (boolean true)) = some "true"
  scalar (some (boolean false)) = some "false"
  scalar o = none

  abbrev first_scalar : List String → Fields → String
  first_scalar [] fs = ""
  first_scalar (k ∷ ks) fs =
      let rest = first_scalar ks fs in elim (scalar (field_of k fs)) [ some s ↦ s | none ↦ rest ]

  -- The value of `identityOf`.
  unfoldable pub identity_of : Fields → String
  unfolding field_of
  identity_of fs = first_scalar identity_keys fs

  -- The loop over `out`: the first element of the identity is merged, or the element is appended.
  abbrev pub place : String → (Fields → Fields) → Json → Elems → Elems
  place id merged pe nil = cons pe nil
  place id merged pe (cons (object d) xs) =
      let rest = place id merged pe xs in
      if str_eq (identity_of d) id then cons (object (merged d)) xs else cons (object d) rest
  place id merged pe (cons x xs) = cons x (place id merged pe xs)

  abbrev pub place_at : String → (Fields → Fields) → Json → Elems → Elems
  place_at id merged pe out = if str_eq id "" then append_elem out pe else place id merged pe out

  -- What a key holds behind a merge: the merged value, or that of the patch.
  abbrev pub merged_or : (Json → Json) → Option Json → Json → Json
  merged_or merged none p = p
  merged_or merged (some d) p = merged d

  -- `mergeMaps` and `mergeArrays`.
  unfoldable mutual
    unfolding identity_of

    pub merge_value : Json → Json → Json
    merge_value (object d) (object p) = object (merge_maps d p)
    merge_value (array d) (array p) = array (merge_arrays p d p)
    merge_value d p = p

    pub merge_maps : Fields → Fields → Fields
    merge_maps d end = d
    merge_maps d (field k p ps) =
        merge_maps (put_field k (merged_or (λ w. merge_value w p) (field_of k d) p) d) ps

    -- `whole` is the patch, which replaces the list when it has an element that is no object.
    pub merge_arrays : Elems → Elems → Elems → Elems
    merge_arrays whole out nil = out
    merge_arrays whole out (cons (object p) ps) =
        merge_arrays whole (place_at (identity_of p) (λ d. merge_maps d p) (object p) out) ps
    merge_arrays whole out (cons x ps) = whole

  -- `Merge`.
  unfoldable pub merge :
      (Config → Fields) → (Fields → Option Config) → Config → Config → Option Config
  merge encode decode dst patch = decode (merge_maps (encode dst) (prune_fields (encode patch)))
