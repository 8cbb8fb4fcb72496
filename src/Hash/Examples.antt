-- ===== src/Hash/Examples.antt =====
-- The theorems on the hash at a listpack of two fields.
use red_go.Base.{[], ◌∷◌, none, some, codes, ◌≡◌, refl, eq_bytes, if◌then◌else◌, ◌+◌}
use red_go.GoMap
use red_go.Hash.{Hash, encoding_listpack, get, set_field, delete_field, exists_field, len}
use red_go.Hash.Refine.{IsValid, set_field_lem, delete_field_lem}

abbrev two_fields : Hash
two_fields = record {
  encoding = encoding_listpack;
  listpack = (codes "a", codes "1") ∷ (codes "b", codes "2") ∷ [];
  dict = [];
}

two_fields-IsValid : IsValid two_fields
unfolding eq_bytes GoMap.lookup
two_fields-IsValid = (refl, (refl, tt))

set_field_lem_example :
    (get (set_field two_fields (codes "b") (codes "3")).0 (codes "a")
      ≡ (if eq_bytes (codes "b") (codes "a") then some (codes "3") else get two_fields (codes "a")))
    × ((set_field two_fields (codes "b") (codes "3")).1
        ≡ (if exists_field two_fields (codes "b") then 0 else 1))
    × (len (set_field two_fields (codes "b") (codes "3")).0
        ≡ len two_fields + (set_field two_fields (codes "b") (codes "3")).1)
set_field_lem_example =
    set_field_lem two_fields (codes "b") (codes "3") (codes "a") two_fields-IsValid

delete_field_lem_example :
    (get (delete_field two_fields (codes "a")).0 (codes "b")
      ≡ (if eq_bytes (codes "a") (codes "b") then none else get two_fields (codes "b")))
    × ((delete_field two_fields (codes "a")).1
        ≡ (if exists_field two_fields (codes "a") then 1 else 0))
    × (len two_fields
        ≡ len (delete_field two_fields (codes "a")).0 + (delete_field two_fields (codes "a")).1)
delete_field_lem_example = delete_field_lem two_fields (codes "a") (codes "b") two_fields-IsValid
