-- ===== src/Examples/Document.antt =====
-- JSON documents as data: a `Json` that has its laws, for the examples of restarts.
use sens.Common.{
  ℕ, String, ◌≡◌, refl, ap, Bool, ◌&&◌, Option, none, some, List, [], ◌∷◌, arith, ltb,
  if◌then◌else◌,
}
use sens.Common.Int.{ℤ, pos, negsuc, IsI32, ltb_ℤ}
use sens.Common.Json.{Json, JsonLaws, entry}

mutual
  pub data Document : Type 0 where
    bool : Bool → Document
    number : ℤ → Document
    string : String → Document
    object : Fields → Document

  pub data Fields : Type 0 where
    no_field : Fields
    field : String → Document → Fields → Fields

unfoldable pub of_list : List (String × Document) → Fields
of_list [] = no_field
of_list ((k, v) ∷ m) = field k v (of_list m)

to_list : Fields → List (String × Document)
to_list no_field = []
to_list (field k v m) = (k, v) ∷ to_list m

to_list-of_list : (m : List (String × Document)) → to_list (of_list m) ≡ m
unfolding to_list of_list
to_list-of_list [] = refl
to_list-of_list ((k, v) ∷ m) = ap (λ r. (k, v) ∷ r) (to_list-of_list m)

unfoldable pub as_bool : Document → Option Bool
as_bool (bool b) = some b
as_bool _ = none

unfoldable pub as_u64 : Document → Option ℕ
as_u64 (number (pos n)) = if ltb n 18446744073709551616 then some n else none
as_u64 _ = none

unfoldable pub as_i64 : Document → Option ℤ
as_i64 (number z) =
    if ltb_ℤ z (pos 9223372036854775808) && ltb_ℤ (negsuc 9223372036854775808) z
    then some z
    else none
as_i64 _ = none

unfoldable pub as_str : Document → Option String
as_str (string s) = some s
as_str _ = none

unfoldable pub as_object : Document → Option (String → Option Document)
unfolding to_list
as_object (object m) = some (entry (to_list m))
as_object _ = none

abbrev pub documents : Json Document
documents = record {
  bool = bool;
  number = number;
  string = string;
  object = λ m. object (of_list m);
  as_bool = as_bool;
  as_u64 = as_u64;
  as_i64 = as_i64;
  as_str = as_str;
  as_object = as_object;
}

as_i64-number : (z : ℤ) → IsI32 z → as_i64 (number z) ≡ some z
unfolding as_i64
as_i64-number (pos n) h = ground arith
as_i64-number (negsuc n) h = ground arith

pub documents-laws : JsonLaws documents
documents-laws = record {
  as_bool-bool = λ b. unfold as_bool in refl;
  as_u64-number = λ n h. unfold as_u64 in ground arith;
  as_i64-number = as_i64-number;
  as_str-string = λ s. unfold as_str in refl;
  as_object-object = λ m. unfold as_object in ap (λ r. some (entry r)) (to_list-of_list m);
}
