-- ===== src/Compatibility.antt =====
-- schema_compatibility.go: whether a reader's schema can read what a writer's schema wrote.
pub mod Fingerprint
pub mod Lookup
pub mod Fields
pub mod Match
pub mod Symbols
use avro.Prelude.{
  ℕ, zero, suc, String, str_eq, Bool, true, false, not, ◌&&◌, ◌||◌, ◌==◌, ◌⊎◌, inl, inr, Option,
  none, some, List, [], ◌∷◌, if◌then◌else◌, bytes_equal, contains,
}
use avro.Prelude.Int.{ℤ, pos, negsuc, ltb_ℤ}
use avro.Schema.{
  SchemaType, Schema, Schemas, schemas_list, Name, Field, Definition, Decimal, Heap, type_of,
  type_number, same_type, dereference, valid_decimal_logical_schema, no_schemas, and_schema,
  null_schema, primitive, named, reference, array, map, union, record_schema, enum_schema,
  fixed_schema, record_type, error_type, ref_type, enum_type, array_type, map_type, union_type,
  fixed_type, string_type, bytes_type, int_type, long_type, float_type, double_type, boolean_type,
  null_type,
}

pub data CompatError : Type 0 where
  nil_reader nil_writer decimal_mismatch fixed_sizes : CompatError
  lacking_writer : SchemaType → CompatError
  not_compatible : SchemaType → SchemaType → CompatError
  name_mismatch : String → String → CompatError
  missing_symbol missing_field multiple_writers multiple_readers : String → CompatError
  -- No Go error: the model ran out of fuel.
  diverged : CompatError

-- An error, or nil.
abbrev pub Answer : Type 0
Answer = Option CompatError

-- `isPromotable(writerTyp, readerType)`.
unfoldable pub is_promotable : SchemaType → SchemaType → Bool
unfolding type_number
is_promotable int_type r =
    same_type r long_type || same_type r float_type || same_type r double_type
is_promotable long_type r = same_type r float_type || same_type r double_type
is_promotable float_type r = same_type r double_type
is_promotable string_type r = same_type r bytes_type
is_promotable bytes_type r = same_type r string_type
is_promotable _ r = false

-- `isNative(typ)`.
unfoldable pub is_native : SchemaType → Bool
is_native null_type = true
is_native boolean_type = true
is_native int_type = true
is_native long_type = true
is_native float_type = true
is_native double_type = true
is_native bytes_type = true
is_native string_type = true
is_native _ = false

-- The switch over `writer.Type()` in `match`, where the types differ and none is a union.
unfoldable pub match_primitives : SchemaType → SchemaType → Answer
unfolding type_number
match_primitives r int_type =
    if same_type r long_type || same_type r float_type || same_type r double_type
    then none
    else some (not_compatible r int_type)
match_primitives r long_type =
    if same_type r float_type || same_type r double_type
    then none
    else some (not_compatible r long_type)
match_primitives r float_type =
    if same_type r double_type then none else some (not_compatible r float_type)
match_primitives r string_type =
    if same_type r bytes_type then none else some (not_compatible r string_type)
match_primitives r bytes_type =
    if same_type r string_type then none else some (not_compatible r bytes_type)
match_primitives r w = some (not_compatible r w)

abbrev same_ℤ : ℤ → ℤ → Bool
same_ℤ a b = not (ltb_ℤ a b) && not (ltb_ℤ b a)

abbrev decimals_match : Option Decimal → Option Decimal → Answer
decimals_match none w = none
decimals_match (some r) none = none
decimals_match (some r) (some w) =
    if not (same_ℤ r.precision w.precision) || not (same_ℤ r.scale w.scale)
    then some decimal_mismatch
    else none

unfoldable pub check_decimal_compatibility : (ℕ → ℕ) → Heap → Schema → Schema → Answer
check_decimal_compatibility max_precision heap reader writer =
    decimals_match (valid_decimal_logical_schema max_precision heap reader)
      (valid_decimal_logical_schema max_precision heap writer)

unfoldable pub check_schema_name : Name → Name → Answer
check_schema_name reader writer =
    if not (str_eq reader.name writer.name)
    then if contains reader.aliases writer.full_name
      then none
      else some (name_mismatch reader.full_name writer.full_name)
    else none

unfoldable pub check_fixed_size : ℤ → ℤ → Answer
check_fixed_size reader writer = if not (same_ℤ reader writer) then some fixed_sizes else none

-- The symbols of the reader, and those of the writer that are left to look for.
unfoldable pub check_enum_symbols : List String → List String → Answer
check_enum_symbols reader [] = none
check_enum_symbols reader (symbol ∷ rest) =
    let later = check_enum_symbols reader rest in
    if not (contains reader symbol) then some (missing_symbol symbol) else later

unfoldable pub identical_enum_symbols : List String → List String → Bool
identical_enum_symbols [] [] = true
identical_enum_symbols [] (w ∷ ws) = false
identical_enum_symbols (r ∷ rs) [] = false
identical_enum_symbols (r ∷ rs) (w ∷ ws) = str_eq r w && identical_enum_symbols rs ws

-- `writers[name]`: the position of the last field of that name.
unfoldable pub find_field : ℕ → List Field → String → Option ℕ
find_field i [] name = none
find_field i (w ∷ ws) name = elim (find_field (suc i) ws name) [
  | some j ↦ some j
  | none ↦ if str_eq w.name name then some i else none
]

unfoldable pub match_aliases : List Field → String → Option ℕ → List String → CompatError ⊎ Option ℕ
match_aliases writers name match [] = inr match
match_aliases writers name match (alias ∷ rest) = elim (find_field 0 writers alias) [
  | none ↦ match_aliases writers name match rest
  | some candidate ↦ elim match [
    | some other ↦ inl (multiple_writers name)
    | none ↦ match_aliases writers name (some candidate) rest
  ]
]

abbrev pub is_used : List ℕ → ℕ → Bool
is_used [] i = false
is_used (u ∷ used) i = u == i || is_used used i

abbrev writer_name : List Field → ℕ → String
writer_name [] i = ""
writer_name (w ∷ ws) zero = w.name
writer_name (w ∷ ws) (suc i) = writer_name ws i

abbrev pub and_match : Option ℕ → CompatError ⊎ List (Option ℕ) → CompatError ⊎ List (Option ℕ)
and_match m (inl e) = inl e
and_match m (inr ms) = inr (m ∷ ms)

-- For each field of the reader, in order, the position of the writer's field that it matches.
unfoldable pub match_fields : List Field → List ℕ → List Field → CompatError ⊎ List (Option ℕ)
unfolding match_aliases
match_fields writers used [] = inr []
match_fields writers used (f ∷ fs) =
    elim (match_aliases writers f.name (find_field 0 writers f.name) f.aliases) [
      | inl e ↦ inl e
      | inr found ↦ elim found [
        | none ↦ and_match none (match_fields writers used fs)
        | some i ↦ elim (is_used used i) [
          | true ↦ inl (multiple_readers (writer_name writers i))
          | false ↦ and_match (some i) (match_fields writers (i ∷ used) fs)
        ]
      ]
    ]

unfoldable pub match_record_fields : List Field → List Field → CompatError ⊎ List (Option ℕ)
unfolding match_fields
match_record_fields readers writers = match_fields writers [] readers
