-- ===== src/Compatibility/Match/Promotion.antt =====
-- The two places of schema_compatibility.go that know the promotions of numbers and of strings: the
-- switch in `match`, and isPromotable, by which `resolve` builds the schema to read with.
use avro.Prelude.{ℕ, ◌≡◌, refl, ◌∙◌, ap, Bool, true, false, none, some, if◌then◌else◌}
use avro.Schema.{
  SchemaType, Schema, Heap, type_of, same_type, dereference, null_schema, primitive, named,
  reference, array, map, union, record_type, error_type, ref_type, enum_type, array_type, map_type,
  union_type, fixed_type, string_type, bytes_type, int_type, long_type, float_type, double_type,
  boolean_type, null_type,
}
use avro.Compatibility.{
  Answer, not_compatible, is_promotable, match_primitives, check_decimal_compatibility,
}
use avro.Compatibility.Match.{Cache, Outcome, match, match_writers, match_readers}

-- What the switch must answer.
abbrev pub promotion : SchemaType → SchemaType → Answer
promotion r w = if is_promotable w r then none else some (not_compatible r w)

match_primitives_lem : (r w : SchemaType) → match_primitives r w ≡ promotion r w
unfolding match_primitives is_promotable
match_primitives_lem r record_type = refl
match_primitives_lem r error_type = refl
match_primitives_lem r ref_type = refl
match_primitives_lem r enum_type = refl
match_primitives_lem r array_type = refl
match_primitives_lem r map_type = refl
match_primitives_lem r union_type = refl
match_primitives_lem r fixed_type = refl
match_primitives_lem r string_type = refl
match_primitives_lem r bytes_type = refl
match_primitives_lem r int_type = refl
match_primitives_lem r long_type = refl
match_primitives_lem r float_type = refl
match_primitives_lem r double_type = refl
match_primitives_lem r boolean_type = refl
match_primitives_lem r null_type = refl

abbrev pub is_union : Schema → Bool
is_union null_schema = false
is_union (primitive t decimal encoded) = false
is_union (named p) = false
is_union (reference p) = false
is_union (array items) = false
is_union (map values) = false
is_union (union types) = true

module _ (go : Schema → Schema → Cache → Outcome) (heap : Heap) (cache : Cache) where
  no_reader_union :
      (r w : Schema)
      → is_union r ≡ false
      → match_readers go heap r w cache
        ≡ (match_primitives (type_of heap r) (type_of heap w), cache)
  unfolding match_readers
  no_reader_union null_schema w h = refl
  no_reader_union (primitive t decimal encoded) w h = refl
  no_reader_union (named p) w h = refl
  no_reader_union (reference p) w h = refl
  no_reader_union (array items) w h = refl
  no_reader_union (map values) w h = refl
  no_reader_union (union types) w h = absurd (cc)

  no_writer_union :
      (r w : Schema)
      → is_union w ≡ false
      → match_writers go heap r w cache ≡ match_readers go heap r w cache
  unfolding match_writers
  no_writer_union r null_schema h = refl
  no_writer_union r (primitive t decimal encoded) h = refl
  no_writer_union r (named p) h = refl
  no_writer_union r (reference p) h = refl
  no_writer_union r (array items) h = refl
  no_writer_union r (map values) h = refl
  no_writer_union r (union types) h = absurd (cc)

  differing :
      (max_precision : ℕ → ℕ) (reader writer : Schema)
      → same_type (type_of heap (dereference reader)) (type_of heap (dereference writer)) ≡ false
      → check_decimal_compatibility max_precision heap (dereference reader) (dereference writer)
        ≡ none
      → match go max_precision heap reader writer cache
        ≡ match_writers go heap (dereference reader) (dereference writer) cache
  unfolding match
  differing max_precision reader writer differ decimals = rw (match, decimals, differ) refl

  -- For two schemas that are no unions and have different types, and decimals that do not contradict
  -- each other, the check that a reader's schema can read a writer's accepts them exactly where the
  -- resolution of the two would promote the writer's type to the reader's, and refuses them otherwise.
  pub match-is_promotable :
      (max_precision : ℕ → ℕ) (reader writer : Schema)
      → is_union (dereference reader) ≡ false
      → is_union (dereference writer) ≡ false
      → same_type (type_of heap (dereference reader)) (type_of heap (dereference writer)) ≡ false
      → check_decimal_compatibility max_precision heap (dereference reader) (dereference writer)
        ≡ none
      → match go max_precision heap reader writer cache
        ≡ (promotion (type_of heap (dereference reader)) (type_of heap (dereference writer)), cache)
  match-is_promotable max_precision reader writer hr hw differ decimals =
      let r : Schema = dereference reader in
      let w : Schema = dereference writer in
      differing max_precision reader writer differ decimals
      ∙ no_writer_union r w hw
      ∙ no_reader_union r w hr
      ∙ ap (λ t. (t, cache)) (match_primitives_lem (type_of heap r) (type_of heap w))
