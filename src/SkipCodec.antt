-- ===== src/SkipCodec.antt =====
-- codec_skip.go: skipping a value of a schema. The decoders of the source are functions on a Reader
-- here; a union holds the types that its decodeTypes returns.
pub mod Sized
pub mod Unions
use avro.Prelude.{
  ℕ, zero, suc, String, Bool, true, false, not, ◌&&◌, ◌||◌, Option, none, some, List, [], ◌∷◌,
  get_elem?, length, if◌then◌else◌, ltb, leb, ◌==◌,
}
use avro.Prelude.Int.{ℤ, pos, negsuc, ltb_ℤ}
use avro.Errors.{Error, message}
use avro.Config.{Config, get_max_byte_slice_size, max_alloc_size}
use avro.Reader.State.{Reader, keep_first, report_error, diverge, has_error}
use avro.Reader.Varint.{read_int, read_long, skip_int, skip_long}
use avro.Reader.Values.{read_block_header}
use avro.Reader.Skip.{
  skip_n_bytes, skip_n_bytes_int64, skip_bool, skip_float, skip_double, skip_string, skip_bytes,
}
use avro.Schema.{
  SchemaType, Schema, Schemas, schemas_list, no_schemas, and_schema, Name, Field, Definition, Heap,
  null_schema, primitive, named, reference, array, map, union, record_schema, enum_schema,
  fixed_schema, record_type, error_type, ref_type, enum_type, array_type, map_type, union_type,
  fixed_type, string_type, bytes_type, int_type, long_type, float_type, double_type, boolean_type,
  null_type,
}

-- `checkFixedSize(size)`, with the texts of its errors less the numbers.
unfoldable pub check_fixed_size : Config → ℤ → Option String
check_fixed_size c (negsuc n) = some "avro: fixed size exceeds the platform allocation limit"
check_fixed_size c (pos size) =
    if not (ltb size max_alloc_size)
    then some "avro: fixed size exceeds the platform allocation limit"
    else if ltb_ℤ (pos 0) (get_max_byte_slice_size c)
        && ltb_ℤ (get_max_byte_slice_size c) (pos size)
    then some "avro: fixed size exceeds Config.MaxByteSliceSize"
    else none

unfoldable pub skip_fixed : ℤ → Reader → Reader
skip_fixed size r = elim (check_fixed_size r.cfg size) [
  | some msg ↦ report_error r "skip fixed" msg
  | none ↦ skip_n_bytes size r
]

abbrev in_range : ℤ → ℕ → Bool
in_range (negsuc n) count = false
in_range (pos i) count = ltb i count

unfoldable pub skip_enum : List String → Reader → Reader
skip_enum symbols r =
    let (i, r') = read_int r in
    if has_error r'
    then r'
    else if not (in_range i (length symbols))
    then report_error r' "decode enum symbol" "unknown enum symbol"
    else r'

-- `for range l`, which returns at the first error.
unfoldable pub skip_items : (Reader → Reader) → ℕ → Reader → Reader
skip_items item zero r = r
skip_items item (suc left) r =
    let r' = item r in elim (has_error r') [ true ↦ r' | false ↦ skip_items item left r' ]

abbrev count_of : ℤ → ℕ
count_of (pos n) = n
count_of (negsuc n) = 0

-- The loop over the blocks; the fuel is for its rounds.
unfoldable pub skip_blocks : (Reader → Reader) → ℕ → Reader → Reader
skip_blocks item zero r = diverge r
skip_blocks item (suc fuel) r =
    let ((l, size), r') = read_block_header r in
    elim (count_of l == 0 || has_error r') [
      | true ↦ r'
      | false ↦ elim (ltb_ℤ (pos 0) size) [
        | true ↦ skip_blocks item fuel (skip_n_bytes_int64 size r')
        | false ↦
            let r'' = skip_items item (count_of l) r' in
            elim (has_error r'') [ true ↦ r'' | false ↦ skip_blocks item fuel r'' ]
      ]
    ]

-- A key and its value.
unfoldable pub skip_entry : (Reader → Reader) → Reader → Reader
skip_entry value r = let r' = skip_string r in elim (has_error r') [ true ↦ r' | false ↦ value r' ]

abbrev member : List Schema → ℤ → Option Schema
member types (negsuc n) = none
member types (pos i) = get_elem? types i

-- `getUnionSchema` of codec_union.go.
unfoldable pub get_union_schema : List Schema → Reader → Option (ℤ × Schema) × Reader
get_union_schema types r =
    let (idx, r') = read_long r in
    elim (has_error r') [
      | true ↦ (none, r')
      | false ↦ elim (member types idx) [
        | none ↦ (none, report_error r' "decode union type" "unknown union type")
        | some schema ↦ (some (idx, schema), r')
      ]
    ]

unfoldable pub skip_primitive : SchemaType → Reader → Reader
skip_primitive null_type r = r
skip_primitive boolean_type r = skip_bool r
skip_primitive int_type r = skip_int r
skip_primitive long_type r = skip_long r
skip_primitive float_type r = skip_float r
skip_primitive double_type r = skip_double r
skip_primitive string_type r = skip_string r
skip_primitive bytes_type r = skip_bytes r
skip_primitive _ r = record r {
  error = keep_first r.error (message "avro: schema type is unsupported");
}

abbrev encoded_type : SchemaType → Option SchemaType → SchemaType
encoded_type t none = t
encoded_type t (some encoded) = encoded

abbrev encoded_symbols : List String → Option (List String) → List String
encoded_symbols symbols none = symbols
encoded_symbols symbols (some encoded) = encoded

-- `go` skips what stands below, and `fuel` is for the blocks.
module _ (fuel : ℕ) (go : Schema → Reader → Reader) where
  -- Reader-only defaults occupy no bytes in the writer's record.
  unfoldable pub skip_fields : List Field → Reader → Reader
  skip_fields [] r = r
  skip_fields (f ∷ fs) r = elim f.set_default [
    | true ↦ skip_fields fs r
    | false ↦ skip_fields fs (go f.field_type r)
  ]

  unfoldable pub skip_definition : Definition → Reader → Reader
  unfolding skip_fields skip_enum skip_fixed
  skip_definition (record_schema n fields) r = skip_fields fields r
  skip_definition (enum_schema n symbols encoded default) r =
      skip_enum (encoded_symbols symbols encoded) r
  skip_definition (fixed_schema n size decimal) r = skip_fixed size r

  -- A null case takes no bytes.
  unfoldable pub skip_union : List Schema → Reader → Reader
  unfolding get_union_schema
  skip_union types r =
      let (chosen, r') = get_union_schema types r in
      elim chosen [ none ↦ r' | some (idx, schema) ↦ go schema r' ]

  unfoldable pub skip_one : Heap → Schema → Reader → Reader
  unfolding skip_definition skip_union skip_primitive skip_blocks skip_items skip_entry
  skip_one heap null_schema r = r
  skip_one heap (primitive t decimal encoded) r = skip_primitive (encoded_type t encoded) r
  skip_one heap (named p) r = skip_definition (heap p) r
  skip_one heap (reference p) r = skip_definition (heap p) r
  skip_one heap (array items) r = skip_blocks (go items) fuel r
  skip_one heap (map values) r = skip_blocks (skip_entry (go values)) fuel r
  skip_one heap (union types) r = skip_union (schemas_list types) r

-- The fuel is for the depth, and at each depth for the blocks.
unfoldable pub skip_schema : ℕ → Heap → Schema → Reader → Reader
unfolding skip_one
skip_schema zero heap schema r = diverge r
skip_schema (suc fuel) heap schema r = skip_one fuel (skip_schema fuel heap) heap schema r
