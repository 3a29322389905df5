-- ===== src/Examples/Schemas.antt =====
-- Runs of the schema compatibility checks.
use avro.Prelude.{
  ℕ, ◌≡◌, refl, String, true, false, ◌↔◌, none, some, List, [], ◌∷◌, All, IsIn, bytes_equal,
  if◌then◌else◌, ◌==◌,
}
use avro.Schema.{
  Schema, Heap, Field, Name, record_schema, int_type, long_type, string_type, primitive, named,
  reference, type_of, dereference, type_number, valid_decimal_logical_schema,
}
use avro.Compatibility.{
  not_compatible, match_record_fields, check_enum_symbols, identical_enum_symbols, match_primitives,
  find_field, match_aliases, match_fields, check_decimal_compatibility, check_schema_name,
}
use avro.Compatibility.Fields.{AllMatch, IsDistinct, match_record_fields-AllMatch}
use avro.Records.{validate_record_fields, add_names, add_aliases, add_all_aliases}
use avro.Records.SelfMatch.{places, match_record_fields-validate_record_fields}
use avro.Prelude.{contains, inr}
use avro.Compatibility.Symbols.{check_enum_symbols_iff, identical_enum_symbols_iff}
use avro.Compatibility.Match.{
  load, match_same, match_definitions, check_record_fields, check_fields, match_writers,
  match_readers, Cache, Outcome, is_active, compatible, compatible_schemas, match,
}
use avro.Compatibility.Match.Promotion.{match-is_promotable, promotion}
use avro.Compatibility.Match.Cache.{compatible-again}

abbrev plain : Schema
plain = primitive int_type none none

abbrev wide : Schema
wide = primitive long_type none none

abbrev text : Schema
text = primitive string_type none none

abbrev ab : List String
ab = "a" ∷ "b" ∷ []

abbrev just_b : List String
just_b = "b" ∷ []

abbrev field : String → List String → Schema → Field
field name aliases t = record {
  name = name;
  aliases = aliases;
  has_default = false;
  set_default = false;
  field_type = t;
}

-- The second field was renamed.
abbrev readers : List Field
readers = field "id" [] wide ∷ field "title" ("name" ∷ []) plain ∷ []

abbrev writers : List Field
writers = field "name" [] plain ∷ field "id" [] plain ∷ []

match_record_fields-AllMatch_example :
    AllMatch writers readers (some 1 ∷ some 0 ∷ []) × IsDistinct (some 1 ∷ some 0 ∷ [])
match_record_fields-AllMatch_example =
    match_record_fields-AllMatch readers writers (some 1 ∷ some 0 ∷ [])
      (unfold match_record_fields find_field match_aliases match_fields in refl)

match_record_fields-validate_record_fields_example :
    match_record_fields readers readers ≡ inr (places 0 readers)
match_record_fields-validate_record_fields_example =
    match_record_fields-validate_record_fields readers ("name" ∷ "title" ∷ "id" ∷ [])
      (unfold validate_record_fields add_names add_all_aliases add_aliases contains in refl)

check_enum_symbols_iff_example : (check_enum_symbols ab just_b ≡ none) ↔ All (λ s. IsIn s ab) just_b
check_enum_symbols_iff_example = check_enum_symbols_iff ab just_b

identical_enum_symbols_iff_example : (identical_enum_symbols ab just_b ≡ true) ↔ (ab ≡ just_b)
identical_enum_symbols_iff_example = identical_enum_symbols_iff ab just_b

abbrev title : String → Name
title n = record { name = n; full_name = n; aliases = [] }

-- Two records that hold each other. At 0 and 1 as the reader has them, at 2 and 3 as the writer: the
-- field "x" of the first differs.
abbrev heap : Heap
heap p =
    if p == 0
    then record_schema (title "A") (field "c" [] (named 1) ∷ field "x" [] plain ∷ [])
    else if p == 1
    then record_schema (title "C") (field "a" [] (reference 0) ∷ [])
    else if p == 2
    then record_schema (title "A") (field "c" [] (named 3) ∷ field "x" [] text ∷ [])
    else record_schema (title "C") (field "a" [] (reference 2) ∷ [])

abbrev no_precision : ℕ → ℕ
no_precision n = 0

abbrev key : Schema → List ℕ
key (named p) = p ∷ []
key (reference p) = p ∷ []
key (primitive t decimal encoded) = 100 ∷ type_number t ∷ []
key _ = []

abbrev asked : Schema → Schema → Cache → Outcome
asked = compatible key no_precision heap 9 []

compatible-again_example :
    compatible key no_precision heap 9 [] wide plain (asked wide plain []).1 ≡ asked wide plain []
compatible-again_example =
    compatible-again key no_precision heap wide plain 8 8 [] [] [] (unfold is_active in refl)

match-is_promotable_example :
    match asked no_precision heap wide plain [] ≡ (promotion long_type int_type, [])
unfolding type_of dereference
match-is_promotable_example =
    match-is_promotable asked heap [] no_precision wide plain (unfold dereference in refl)
      (unfold dereference in refl) (unfold dereference type_of type_number in refl)
      (unfold check_decimal_compatibility dereference valid_decimal_logical_schema in refl)

-- The check of the two "C" inside the check of the two "A" takes the latter for granted and is kept in
-- the cache, although the two "A" are then found not to match: the same question has another answer
-- in a new cache.
abbrev ask : Schema → Schema → Cache → Outcome
ask reader writer cache =
    compatible_schemas key no_precision heap 9 (some reader) (some writer) cache

a_differs : (ask (named 0) (named 2) []).0 ≡ some (not_compatible int_type string_type)
unfolding compatible_schemas compatible match load is_active dereference type_of type_number
    check_decimal_compatibility valid_decimal_logical_schema match_same match_definitions
    check_schema_name check_record_fields match_record_fields match_fields find_field match_aliases
    check_fields match_writers match_readers match_primitives bytes_equal
a_differs = refl

c_differs : (ask (named 1) (named 3) []).0 ≡ some (not_compatible int_type string_type)
unfolding compatible_schemas compatible match load is_active dereference type_of type_number
    check_decimal_compatibility valid_decimal_logical_schema match_same match_definitions
    check_schema_name check_record_fields match_record_fields match_fields find_field match_aliases
    check_fields match_writers match_readers match_primitives bytes_equal
c_differs = refl

c_kept : (ask (named 1) (named 3) (ask (named 0) (named 2) []).1).0 ≡ none
unfolding compatible_schemas compatible match load is_active dereference type_of type_number
    check_decimal_compatibility valid_decimal_logical_schema match_same match_definitions
    check_schema_name check_record_fields match_record_fields match_fields find_field match_aliases
    check_fields match_writers match_readers match_primitives bytes_equal
c_kept = refl
