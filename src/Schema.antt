-- ===== src/Schema.antt =====
-- schema.go: the part of the schema types that compatibility and skipping read. A *RecordSchema,
-- *EnumSchema or *FixedSchema is a pointer: a schema holds its address, and the heap what stands
-- there, so that a record may hold itself. Of the logical types the decimal one is kept.
use avro.Prelude.{
  ℕ, String, Bool, true, false, not, ◌&&◌, ◌||◌, ◌==◌, Option, none, some, List, [], ◌∷◌,
  if◌then◌else◌, leb, ltb,
}
use avro.Prelude.Int.{ℤ, pos, negsuc, ltb_ℤ}

pub data SchemaType : Type 0 where
  record_type error_type ref_type enum_type array_type map_type union_type fixed_type : SchemaType
  string_type bytes_type int_type long_type float_type double_type boolean_type null_type :
      SchemaType

-- The place of a constant in the list of the source, to compare two.
unfoldable pub type_number : SchemaType → ℕ
type_number record_type = 0
type_number error_type = 1
type_number ref_type = 2
type_number enum_type = 3
type_number array_type = 4
type_number map_type = 5
type_number union_type = 6
type_number fixed_type = 7
type_number string_type = 8
type_number bytes_type = 9
type_number int_type = 10
type_number long_type = 11
type_number float_type = 12
type_number double_type = 13
type_number boolean_type = 14
type_number null_type = 15

pub record Decimal : Type 0 where
  pub precision : ℤ
  pub scale : ℤ

mutual
  pub data Schema : Type 0 where
    null_schema : Schema
    -- The type, the decimal logical type, and the writer's type in a resolved schema.
    primitive : SchemaType → Option Decimal → Option SchemaType → Schema
    named : ℕ → Schema
    reference : ℕ → Schema
    array : Schema → Schema
    map : Schema → Schema
    union : Schemas → Schema

  pub data Schemas : Type 0 where
    no_schemas : Schemas
    and_schema : Schema → Schemas → Schemas

pub record Name : Type 0 where
  pub name : String
  pub full_name : String
  pub aliases : List String

pub record Field : Type 0 where
  pub name : String
  pub aliases : List String
  pub has_default : Bool
  -- `action == FieldSetDefault`.
  pub set_default : Bool
  pub field_type : Schema

pub data Definition : Type 0 where
  record_schema : Name → List Field → Definition
  -- Symbols, the writer's symbols in a resolved schema, and whether there is a default.
  enum_schema : Name → List String → Option (List String) → Bool → Definition
  fixed_schema : Name → ℤ → Option Decimal → Definition

abbrev pub Heap : Type 0
Heap = ℕ → Definition

abbrev pub definition_type : Definition → SchemaType
definition_type (record_schema n fields) = record_type
definition_type (enum_schema n symbols encoded default) = enum_type
definition_type (fixed_schema n size decimal) = fixed_type

-- `schema.Type()`.
unfoldable pub type_of : Heap → Schema → SchemaType
type_of heap null_schema = null_type
type_of heap (primitive t decimal encoded) = t
type_of heap (named p) = definition_type (heap p)
type_of heap (reference p) = ref_type
type_of heap (array items) = array_type
type_of heap (map values) = map_type
type_of heap (union types) = union_type

-- `if s.Type() == Ref { s = s.(*RefSchema).Schema() }`
unfoldable pub dereference : Schema → Schema
dereference null_schema = null_schema
dereference (primitive t decimal encoded) = primitive t decimal encoded
dereference (named p) = named p
dereference (reference p) = named p
dereference (array items) = array items
dereference (map values) = map values
dereference (union types) = union types

abbrev pub schemas_list : Schemas → List Schema
schemas_list no_schemas = []
schemas_list (and_schema s rest) = s ∷ schemas_list rest

-- `validDecimalLogicalType(size, prec, scale)`; `max_precision size` is
-- `math.Floor(math.Log10(2) * (8*float64(size) - 1))`, by Go's floating point.
unfoldable pub valid_decimal_logical_type : (ℕ → ℕ) → ℤ → ℤ → ℤ → Bool
valid_decimal_logical_type max_precision size (negsuc n) scale = false
valid_decimal_logical_type max_precision size (pos prec) scale =
    if not (ltb 0 prec) || ltb_ℤ scale (pos 0) || ltb_ℤ (pos prec) scale
    then false
    else elim size [ negsuc n ↦ true | pos bytes ↦ ltb 0 bytes && leb prec (max_precision bytes) ]

-- A decimal of a size that is valid, `negsuc 0` where the type is bytes.
abbrev if_valid : (ℕ → ℕ) → ℤ → Option Decimal → Option Decimal
if_valid max_precision size none = none
if_valid max_precision size (some d) =
    if valid_decimal_logical_type max_precision size d.precision d.scale then some d else none

abbrev definition_decimal : (ℕ → ℕ) → Definition → Option Decimal
definition_decimal max_precision (record_schema n fields) = none
definition_decimal max_precision (enum_schema n symbols encoded default) = none
definition_decimal max_precision (fixed_schema n size decimal) = if_valid max_precision size decimal

-- `validDecimalLogicalSchema`.
unfoldable pub valid_decimal_logical_schema : (ℕ → ℕ) → Heap → Schema → Option Decimal
unfolding valid_decimal_logical_type type_number
valid_decimal_logical_schema max_precision heap (primitive t decimal encoded) =
    if type_number t == type_number bytes_type
    then if_valid max_precision (negsuc 0) decimal
    else none
valid_decimal_logical_schema max_precision heap (named p) =
    definition_decimal max_precision (heap p)
valid_decimal_logical_schema max_precision heap null_schema = none
valid_decimal_logical_schema max_precision heap (reference p) = none
valid_decimal_logical_schema max_precision heap (array items) = none
valid_decimal_logical_schema max_precision heap (map values) = none
valid_decimal_logical_schema max_precision heap (union types) = none

-- `a == b` of two Types.
abbrev pub same_type : SchemaType → SchemaType → Bool
same_type a b = type_number a == type_number b
