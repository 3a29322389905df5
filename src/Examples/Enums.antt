-- ===== src/Examples/Enums.antt =====
-- A symbol that the reader's schema does not have, read as its default.
use avro.Prelude.{refl, arith, inl, some, [], ◌∷◌, contains}
use avro.Words.{zigzag}
use avro.Reader.State.{Reader}
use avro.Reader.Stream.{IsSteady}
use avro.Writer.{write_int, append_varint}
use avro.RoundTrip.Numbers.{Returns}
use avro.EnumCodec.{EnumSchema, decode_enum, encode_enum, encode_from}
use avro.EnumCodec.RoundTrip.{decode_enum-encode_enum}
use avro.Examples.{some_writer, two_pieces}

abbrev old_enum : EnumSchema
old_enum = record { symbols = "a" ∷ "b" ∷ []; default = ""; encoded_symbols = [] }

abbrev new_enum : EnumSchema
new_enum = record { symbols = "b" ∷ []; default = "b"; encoded_symbols = "a" ∷ "b" ∷ [] }

abbrev one_symbol : Reader
one_symbol = two_pieces (0 ∷ []) (9 ∷ [])

one_symbol-IsSteady : IsSteady one_symbol
one_symbol-IsSteady = record {
  no_error = refl;
  no_pending = refl;
  bytes = ground arith;
  answers = ground arith;
}

decode_enum-encode_enum_example : Returns (some "b") (9 ∷ []) (decode_enum new_enum one_symbol)
decode_enum-encode_enum_example =
    decode_enum-encode_enum old_enum new_enum "a" "b" some_writer (0 ∷ []) (9 ∷ []) one_symbol
      (inl refl) (omega arith) refl (unfold contains in refl)
      (unfold encode_enum encode_from write_int append_varint zigzag in refl) one_symbol-IsSteady
      refl
