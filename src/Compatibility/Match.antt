-- ===== src/Compatibility/Match.antt =====
-- `compatible` and `match` of schema_compatibility.go. `key` is compatibilityFingerprint, whose hash
-- is a third-party function; `active` holds the pairs that are being compared, and the cache the
-- answers that were given, the last first.
pub mod Promotion
pub mod Cache
use avro.Prelude.{
  ℕ, zero, suc, Bool, true, false, not, ◌&&◌, ◌||◌, ◌⊎◌, inl, inr, Option, none, some, List, [],
  ◌∷◌, get_elem?, if◌then◌else◌, bytes_equal,
}
use avro.Schema.{
  SchemaType, Schema, Schemas, no_schemas, and_schema, Name, Field, Definition, Heap, type_of,
  same_type, dereference, null_schema, primitive, named, reference, array, map, union,
  record_schema, enum_schema, fixed_schema, union_type,
}
use avro.Compatibility.{
  CompatError, Answer, nil_reader, nil_writer, lacking_writer, missing_field, diverged,
  match_primitives, check_decimal_compatibility, check_schema_name, check_fixed_size,
  check_enum_symbols, match_record_fields,
}

pub record CompatKey : Type 0 where
  pub reader : List ℕ
  pub writer : List ℕ

abbrev pub same_key : CompatKey → CompatKey → Bool
same_key a b = bytes_equal a.reader b.reader && bytes_equal a.writer b.writer

abbrev pub Cache : Type 0
Cache = List (CompatKey × Answer)

-- `c.cache.Load(key)`.
unfoldable pub load : Cache → CompatKey → Option Answer
load [] key = none
load ((k, answer) ∷ rest) key =
    let older = load rest key in if same_key k key then some answer else older

unfoldable pub is_active : List CompatKey → CompatKey → Bool
is_active [] key = false
is_active (k ∷ rest) key = same_key k key || is_active rest key

-- The answer of a call, and the cache after it.
abbrev pub Outcome : Type 0
Outcome = Answer × Cache

module _ (go : Schema → Schema → Cache → Outcome) where
  -- The reader must be compatible with all types in the writer.
  unfoldable pub all_writers : Schema → Schemas → Cache → Outcome
  all_writers reader no_schemas cache = (none, cache)
  all_writers reader (and_schema w rest) cache =
      let (answer, cache') = go reader w cache in
      elim answer [ some e ↦ (some e, cache') | none ↦ all_writers reader rest cache' ]

  -- The writer must be compatible with at least one reader schema.
  unfoldable pub some_reader : SchemaType → Schemas → Schema → Cache → Outcome
  some_reader writer_type no_schemas writer cache = (some (lacking_writer writer_type), cache)
  some_reader writer_type (and_schema r rest) writer cache =
      let (answer, cache') = go r writer cache in
      elim answer [ none ↦ (none, cache') | some e ↦ some_reader writer_type rest writer cache' ]

  -- The fields of the reader with what `matched` says of each; it says something of each, and only
  -- positions of the writer's fields.
  unfoldable pub check_fields : List Field → List Field → List (Option ℕ) → Cache → Outcome
  check_fields writers [] ms cache = (none, cache)
  check_fields writers (f ∷ fs) [] cache = (none, cache)
  check_fields writers (f ∷ fs) (m ∷ ms) cache = elim m [
    | none ↦ elim f.has_default [
      | true ↦ check_fields writers fs ms cache
      | false ↦ (some (missing_field f.name), cache)
    ]
    | some i ↦ elim (get_elem? writers i) [
      | none ↦ (none, cache)
      | some w ↦
          let (answer, cache') = go f.field_type w.field_type cache in
          elim answer [ some e ↦ (some e, cache') | none ↦ check_fields writers fs ms cache' ]
    ]
  ]

  unfoldable pub check_record_fields : List Field → List Field → Cache → Outcome
  unfolding check_fields
  check_record_fields readers writers cache = elim (match_record_fields readers writers) [
    | inl e ↦ (some e, cache)
    | inr ms ↦ check_fields writers readers ms cache
  ]

  abbrev then_check : Answer → Cache → Outcome → Outcome
  then_check (some e) cache rest = (some e, cache)
  then_check none cache rest = rest

  abbrev unless_default : Bool → Answer → Answer
  unless_default true answer = none
  unless_default false answer = answer

  -- Two named schemas of one type.
  unfoldable pub match_definitions : Definition → Definition → Cache → Outcome
  unfolding check_record_fields
  match_definitions (record_schema r readers) (record_schema w writers) cache =
      then_check (check_schema_name r w) cache (check_record_fields readers writers cache)
  match_definitions (enum_schema r symbols re default) (enum_schema w symbols' we default') cache =
      then_check (check_schema_name r w) cache
        (unless_default default (check_enum_symbols symbols symbols'), cache)
  match_definitions (fixed_schema r size rd) (fixed_schema w size' wd) cache =
      then_check (check_schema_name r w) cache (check_fixed_size size size', cache)
  match_definitions r w cache = (none, cache)

  -- Where both have one type.
  unfoldable pub match_same : Heap → Schema → Schema → Cache → Outcome
  unfolding match_definitions all_writers
  match_same heap (array r) (array w) cache = go r w cache
  match_same heap (map r) (map w) cache = go r w cache
  match_same heap (named p) (named q) cache = match_definitions (heap p) (heap q) cache
  match_same heap (union rs) (union ws) cache = all_writers (union rs) ws cache
  match_same heap r w cache = (none, cache)

  unfoldable pub match_readers : Heap → Schema → Schema → Cache → Outcome
  unfolding some_reader
  match_readers heap (union types) writer cache =
      some_reader (type_of heap writer) types writer cache
  match_readers heap r w cache = (match_primitives (type_of heap r) (type_of heap w), cache)

  -- Where the types differ: the writer's union first.
  unfoldable pub match_writers : Heap → Schema → Schema → Cache → Outcome
  unfolding all_writers match_readers
  match_writers heap reader (union types) cache = all_writers reader types cache
  match_writers heap r w cache = match_readers heap r w cache

  unfoldable pub match : (ℕ → ℕ) → Heap → Schema → Schema → Cache → Outcome
  match max_precision heap reader writer cache =
      let r = dereference reader in
      let w = dereference writer in
      elim (check_decimal_compatibility max_precision heap r w) [
        | some e ↦ (some e, cache)
        | none ↦
            if same_type (type_of heap r) (type_of heap w)
            then match_same heap r w cache
            else match_writers heap r w cache
      ]

module _ (key : Schema → List ℕ) (max_precision : ℕ → ℕ) (heap : Heap) where
  -- Fuel for the depth of nested calls.
  unfoldable pub compatible : ℕ → List CompatKey → Schema → Schema → Cache → Outcome
  compatible zero active reader writer cache = (some diverged, cache)
  compatible (suc fuel) active reader writer cache =
      let k : CompatKey = record { reader = key reader; writer = key writer } in
      elim (load cache k) [
        | some answer ↦ (answer, cache)
        | none ↦ elim (is_active active k) [
          | true ↦ (none, cache)
          | false ↦
              let (answer, cache') =
                match (compatible fuel (k ∷ active)) max_precision heap reader writer cache in
              (answer, (k, answer) ∷ cache')
        ]
      ]

  -- `Compatible`, where a nil schema is none.
  unfoldable pub compatible_schemas : ℕ → Option Schema → Option Schema → Cache → Outcome
  unfolding compatible
  compatible_schemas fuel none writer cache = (some nil_reader, cache)
  compatible_schemas fuel (some reader) none cache = (some nil_writer, cache)
  compatible_schemas fuel (some reader) (some writer) cache = compatible fuel [] reader writer cache
