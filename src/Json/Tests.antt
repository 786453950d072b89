-- ===== src/Json/Tests.antt =====
-- Small documents.
use nfvis.Prelude.{true, false, some, [], ◌∷◌, ◌≡◌, refl}
use nfvis.Json.Value.{
  Json, boolean, number, string, array, object, nil, cons, Fields, end, field, field_of,
}
use nfvis.Json.Redact.{is_sensitive_key, redact_tree, redact_fields}
use nfvis.Json.Merge.{prune_fields, merge_maps, merge_value}
use nfvis.Json.Clean.{IsClean, redact_tree_lem}
use nfvis.Json.Pruned.{IsProper, value_at}
use nfvis.Json.Paths.{merge_maps-set, merge_maps-silent}

abbrev user : Fields
user = field "name" (string "root") (field "password-hash" (string "x") end)

abbrev users : Json
users = object (field "users" (array (cons (object user) nil)) end)

redact_tree_lem_example :
    IsClean (λ s. s) (redact_tree (λ s. s) users)
    × (is_sensitive_key (λ s. s) "name" ≡ false
        → field_of "name" (redact_fields (λ s. s) user) ≡ some (string "root"))
unfolding field_of redact_tree
redact_tree_lem_example = redact_tree_lem (λ s. s) users user "name"

abbrev patch : Fields
patch = field "cpu" (object (field "count" (number 0) (field "pin" (boolean true) end))) end

abbrev machine : Fields
machine = field "cpu" (object (field "count" (number 4) end)) (field "memory" (number 512) end)

merge_maps-set_example :
    value_at ("cpu" ∷ "pin" ∷ []) (object (merge_maps (λ n. "n") machine (prune_fields patch)))
    ≡ some (boolean true)
unfolding field_of IsProper
merge_maps-set_example =
    merge_maps-set (λ n. "n") machine patch "cpu" ("pin" ∷ []) (boolean true)
      (refl, (refl, tt, (refl, tt, tt)), tt) refl refl

-- The object in the patch replaces nothing that it does not name, and its zero nothing at all.
merge_maps-silent_example :
    value_at ("cpu" ∷ "count" ∷ []) (object (merge_maps (λ n. "n") machine (prune_fields patch)))
    ≡ some (number 4)
unfolding field_of IsProper
merge_maps-silent_example =
    merge_maps-silent (λ n. "n") machine patch "cpu" ("count" ∷ [])
      (refl, (refl, tt, (refl, tt, tt)), tt) refl

-- An empty list in a patch clears nothing.
empty_list_stays :
    merge_value (λ n. "n") (array (cons (string "1.1.1.1") nil)) (array nil)
    ≡ array (cons (string "1.1.1.1") nil)
unfolding merge_value
empty_list_stays = refl
