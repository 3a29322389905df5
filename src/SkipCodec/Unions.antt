-- ===== src/SkipCodec/Unions.antt =====
-- getUnionSchema of codec_union.go on the index that an encoder of a union wrote.
use avro.Prelude.{
  ℕ, ◌^◌, ◌<◌, ◌≡◌, refl, sym, ◌∙◌, ap, arith, none, some, List, ◌++◌, append_cancel_left,
  get_elem?,
}
use avro.Prelude.Int.{pos}
use avro.Words.{zigzag_number}
use avro.Reader.State.{Reader}
use avro.Reader.Varint.{read_long}
use avro.Reader.Stream.{stream, IsSteady}
use avro.Writer.{Writer, write_int}
use avro.Writer.Varint.{groups}
use avro.RoundTrip.Numbers.{Returns, read_long-write_long, long_bytes, int_bytes}
use avro.Schema.{Schema}
use avro.SkipCodec.{get_union_schema}

chosen :
    (types : List Schema) (i : ℕ) (schema : Schema) (r : Reader)
    → get_elem? types i ≡ some schema
    → (read_long r).0 ≡ pos i
    → (read_long r).1.error ≡ none
    → get_union_schema types r ≡ (some (pos i, schema), (read_long r).1)
unfolding get_union_schema
chosen types i schema r at index clean = ground (arith, index, clean, at)

-- The encoders of a union write the branch's index as an int, and the decoders read it as a long: the
-- branch that getUnionSchema returns is the one at the index that was written, and it takes what was
-- appended and no more, without an error.
pub get_union_schema-write_int :
    (w : Writer) (types : List Schema) (i : ℕ) (schema : Schema) (sent rest : List ℕ) (r : Reader)
    → get_elem? types i ≡ some schema
    → i < 2 ^ 31
    → (write_int w (pos i)).buf ≡ w.buf ++ sent
    → IsSteady r
    → stream r ≡ sent ++ rest
    → Returns (some (pos i, schema)) rest (get_union_schema types r)
get_union_schema-write_int w types i schema sent rest r at small appended st e =
    let bytes : List ℕ = groups 9 (zigzag_number (pos i)) in
    let same : sent ≡ bytes =
      append_cancel_left w.buf _ _ (sym appended ∙ int_bytes w (pos i) small) in
    let (value, st', left) =
      read_long-write_long w (pos i) bytes rest r (omega arith) (long_bytes w (pos i) (omega arith))
        st (e ∙ ap (λ t. t ++ rest) same) in
    rw (chosen types i schema r at value st'.no_error) (refl, st', left)
