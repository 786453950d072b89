-- ===== src/Json/Redact.antt =====
-- `RedactTree` (internal/model/redact.go) and `IsSensitiveKey` (internal/model/diff.go). `normal` is
-- `strings.ToLower` followed by the replacement of `_` by `-`.
use nfvis.Prelude.{String, Bool, List, [], ◌∷◌, any, str_eq, if◌then◌else◌}
use nfvis.Json.Value.{
  Json, null, boolean, number, string, array, object, Elems, nil, cons, Fields, end, field,
}

abbrev pub sensitive_leaf : List String
sensitive_leaf = "password" ∷ "password-hash" ∷ "token" ∷ "secret" ∷ "private-key" ∷ "psk" ∷ []

module _ (normal : String → String) where
  unfoldable pub is_sensitive_key : String → Bool
  unfolding any
  is_sensitive_key key = any (str_eq (normal key)) sensitive_leaf

  unfoldable mutual
    pub redact_tree : Json → Json
    redact_tree null = null
    redact_tree (boolean b) = boolean b
    redact_tree (number n) = number n
    redact_tree (string s) = string s
    redact_tree (array xs) = array (redact_elems xs)
    redact_tree (object fs) = object (redact_fields fs)

    pub redact_elems : Elems → Elems
    redact_elems nil = nil
    redact_elems (cons x xs) = cons (redact_tree x) (redact_elems xs)

    pub redact_fields : Fields → Fields
    redact_fields end = end
    redact_fields (field k v fs) =
        let rest = redact_fields fs in
        let v' = redact_tree v in if is_sensitive_key k then rest else field k v' rest
