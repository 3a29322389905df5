-- ===== src/Compatibility/Fingerprint.antt =====
-- The compatibilityFingerprintWriter of schema_compatibility.go: the bytes whose hash is the key of a
-- schema in the cache. `bytes_of` gives the bytes of a Go string.
use avro.Prelude.{
  ℕ, zero, suc, ◌+◌, String, Bool, true, false, Option, none, some, List, [], ◌∷◌, ◌++◌,
  if◌then◌else◌, ◌==◌, length,
}
use avro.Words.{to_word}
use avro.Writer.{append_uvarint}
use avro.Schema.{
  SchemaType, Schema, Schemas, Name, Field, Definition, Decimal, Heap, no_schemas, and_schema,
  null_schema, primitive, named, reference, array, map, union, record_schema, enum_schema,
  fixed_schema, record_type, error_type, ref_type, enum_type, array_type, map_type, union_type,
  fixed_type, string_type, bytes_type, int_type, long_type, float_type, double_type, boolean_type,
  null_type,
}

-- `seen` holds the addresses of the definitions that were met, the last first; the number of an
-- address is its place from the end, from 1 on.
pub record FingerprintWriter : Type 0 where
  pub written : List ℕ
  pub seen : List ℕ

abbrev type_text : SchemaType → String
type_text record_type = "record"
type_text error_type = "error"
type_text ref_type = "<ref>"
type_text enum_type = "enum"
type_text array_type = "array"
type_text map_type = "map"
type_text union_type = "union"
type_text fixed_type = "fixed"
type_text string_type = "string"
type_text bytes_type = "bytes"
type_text int_type = "int"
type_text long_type = "long"
type_text float_type = "float"
type_text double_type = "double"
type_text boolean_type = "boolean"
type_text null_type = "null"

abbrev pub schemas_length : Schemas → ℕ
schemas_length no_schemas = 0
schemas_length (and_schema s rest) = suc (schemas_length rest)

unfoldable pub write_uint : FingerprintWriter → ℕ → FingerprintWriter
unfolding append_uvarint
write_uint w value = record w { written = append_uvarint 9 w.written value }

unfoldable pub seen_id : List ℕ → ℕ → Option ℕ
seen_id [] p = none
seen_id (q ∷ qs) p = let older = seen_id qs p in if q == p then some (length qs + 1) else older

module _ (bytes_of : String → List ℕ) where
  unfoldable pub write_text : FingerprintWriter → String → FingerprintWriter
  unfolding write_uint
  write_text w value =
      let w' = write_uint w (length (bytes_of value)) in
      record w' { written = w'.written ++ bytes_of value }

  unfoldable pub each_text : FingerprintWriter → List String → FingerprintWriter
  unfolding write_text
  each_text w [] = w
  each_text w (value ∷ rest) = each_text (write_text w value) rest

  unfoldable pub write_texts : FingerprintWriter → List String → FingerprintWriter
  unfolding each_text write_uint
  write_texts w values = each_text (write_uint w (length values)) values

  unfoldable pub write_definition : FingerprintWriter → ℕ → Bool × FingerprintWriter
  unfolding write_text write_uint seen_id
  write_definition w p = elim (seen_id w.seen p) [
    | some id ↦ (false, write_uint (write_text w "reference") id)
    | none ↦
        let id = length w.seen + 1 in
        (true, write_uint (write_text (record w { seen = p ∷ w.seen }) "definition") id)
  ]

  unfoldable pub write_decimal : FingerprintWriter → Option Decimal → FingerprintWriter
  unfolding write_uint
  write_decimal w none = write_uint w 0
  write_decimal w (some d) =
      write_uint (write_uint (write_uint w 1) (to_word 64 d.precision)) (to_word 64 d.scale)

  abbrev write_flag : FingerprintWriter → Bool → FingerprintWriter
  write_flag w b = if b then write_uint w 1 else write_uint w 0

  abbrev write_name : FingerprintWriter → String → Name → FingerprintWriter
  write_name w kind n = write_texts (write_text (write_text w kind) n.full_name) n.aliases

  module _ (heap : Heap) (write : Schema → FingerprintWriter → Option FingerprintWriter) where
    -- `write` writes the schemas below.
    abbrev each_schema : Schemas → FingerprintWriter → Option FingerprintWriter
    each_schema no_schemas w = some w
    each_schema (and_schema s rest) w = elim (write s w) [
      | none ↦ none
      | some w' ↦ each_schema rest w'
    ]

    abbrev each_field : List Field → FingerprintWriter → Option FingerprintWriter
    each_field [] w = some w
    each_field (f ∷ fs) w =
        elim (write f.field_type
          (write_flag (write_texts (write_text w f.name) f.aliases) f.has_default)) [
            | none ↦ none
            | some w' ↦ each_field fs w'
          ]

    abbrev write_body : Definition → FingerprintWriter → Option FingerprintWriter
    write_body (record_schema n fields) w =
        each_field fields (write_uint (write_name w "record" n) (length fields))
    write_body (enum_schema n symbols encoded default) w =
        some (write_flag (write_texts (write_name w "enum" n) symbols) default)
    write_body (fixed_schema n size decimal) w =
        some (write_decimal (write_uint (write_name w "fixed" n) (to_word 64 size)) decimal)

    abbrev write_named : ℕ → FingerprintWriter → Option FingerprintWriter
    write_named p w =
        let (new, w') = write_definition w p in
        elim new [ false ↦ some w' | true ↦ write_body (heap p) w' ]

    abbrev write_one : Schema → FingerprintWriter → Option FingerprintWriter
    write_one (reference p) w = write_named p w
    write_one (primitive t decimal encoded) w =
        some (write_decimal (write_text (write_text w "primitive") (type_text t)) decimal)
    write_one null_schema w = some (write_text w "null")
    write_one (named p) w = write_named p w
    write_one (array items) w = write items (write_text w "array")
    write_one (map values) w = write values (write_text w "map")
    write_one (union types) w =
        each_schema types (write_uint (write_text w "union") (schemas_length types))

  -- `none` where the nesting is deeper than the fuel.
  unfoldable pub write_schema : ℕ → Heap → Schema → FingerprintWriter → Option FingerprintWriter
  write_schema zero heap schema w = none
  write_schema (suc fuel) heap schema w = write_one heap (write_schema fuel heap) schema w

  -- What `sha256.Sum256` hashes.
  unfoldable pub compatibility_fingerprint : ℕ → Heap → Schema → Option (List ℕ)
  unfolding write_schema
  compatibility_fingerprint fuel heap schema =
      elim (write_schema fuel heap schema (record { written = []; seen = [] })) [
        | none ↦ none
        | some w ↦ some w.written
      ]
