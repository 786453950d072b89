-- ===== src/Json/Value.antt =====
-- What `encoding/json` reads a document into. A number is a natural one, as all of a configuration are.
use nfvis.Prelude.{ℕ, String, Bool, Option, none, some, ◌≡◌, refl, arith, str_eq, if◌then◌else◌}
use text.Mathlib.TextEquality.{eq_iff}

mutual
  pub data Json : Type 0 where
    null : Json
    boolean : Bool → Json
    number : ℕ → Json
    string : String → Json
    array : Elems → Json
    object : Fields → Json

  pub data Elems : Type 0 where
    nil : Elems
    cons : Json → Elems → Elems

  -- The pairs of a map.
  pub data Fields : Type 0 where
    end : Fields
    field : String → Json → Fields → Fields

unfoldable pub field_of : String → Fields → Option Json
field_of k end = none
field_of k (field j v fs) = if str_eq j k then some v else field_of k fs

-- An assignment to a key of the map.
unfoldable pub put_field : String → Json → Fields → Fields
put_field k v end = field k v end
put_field k v (field j w fs) = if str_eq j k then field k v fs else field j w (put_field k v fs)

pub field_of-put :
    (k j : String) (v : Json) (fs : Fields)
    → field_of j (put_field k v fs) ≡ (if str_eq k j then some v else field_of j fs)
unfolding field_of put_field
field_of-put k j v end = refl
field_of-put k j v (field i w fs) =
    ground (arith, eq_iff k j, eq_iff i k, eq_iff i j, field_of-put k j v fs)

abbrev pub append_elem : Elems → Json → Elems
append_elem nil v = cons v nil
append_elem (cons x xs) v = cons x (append_elem xs v)
