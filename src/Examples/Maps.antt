-- ===== src/Examples/Maps.antt =====
-- A map of two longs, which comes in two pieces.
use avro.Prelude.{ℕ, refl, arith, inr, List, [], ◌∷◌, All}
use avro.Prelude.Int.{ℤ, pos, negsuc}
use avro.Words.{zigzag}
use avro.Utf8.{utf8_valid}
use avro.Config.{get_block_length, get_max_map_alloc_size, get_max_byte_slice_size}
use avro.Reader.State.{Reader}
use avro.Reader.Varint.{read_long}
use avro.Reader.Stream.{IsSteady}
use avro.Writer.{append_varint, write_long, write_string, write_block_header, write_block_cb}
use avro.Writer.Varint.{groups}
use avro.RoundTrip.Numbers.{Returns}
use avro.ArrayCodec.Longs.{long_encode, long_laws}
use avro.MapCodec.{
  no_entries, ValueCodec, GoMap, encode_entries, encode_rounds, encode_map, decode_map,
}
use avro.MapCodec.Decoded.{set_all}
use avro.MapCodec.RoundTrip.{ValueLaws, Passes, decode_map-encode_map}
use avro.Examples.{plain_config, some_writer, two_pieces}

abbrev long_value : ValueCodec ℤ
long_value = record { encode = long_encode; decode = read_long }

abbrev value_laws : ValueLaws long_value plain_config
value_laws = record {
  bytes_of = long_laws.bytes_of;
  allowed = long_laws.allowed;
  encodes = long_laws.encodes;
  decodes = λ x rest r ok same. long_laws.decodes x rest r ok;
}

-- "a" is 1 and "b" is -1.
abbrev two_entries : List (List ℕ × ℤ)
two_entries = (97 ∷ [], pos 1) ∷ (98 ∷ [], negsuc 0) ∷ []

abbrev two_map : GoMap ℤ
two_map = set_all two_entries no_entries

abbrev split_map : Reader
split_map = two_pieces (3 ∷ 12 ∷ 2 ∷ 97 ∷ 2 ∷ 2 ∷ []) (98 ∷ 1 ∷ 0 ∷ 9 ∷ [])

split_map-IsSteady : IsSteady split_map
split_map-IsSteady = record {
  no_error = refl;
  no_pending = refl;
  bytes = ground arith;
  answers = ground arith;
}

entries-Passes : All (Passes value_laws.allowed split_map.cfg) two_entries
unfolding utf8_valid get_max_byte_slice_size
entries-Passes = (
  (((refl, omega arith), ground arith), (omega arith, inr (omega arith))),
  ((((refl, omega arith), ground arith), (omega arith, inr (omega arith))), tt),
)

decode_map-encode_map_example :
    Returns two_map
      (9 ∷ [])
      (decode_map long_value "map[string]int64" "int64" 3 split_map no_entries)
decode_map-encode_map_example =
    decode_map-encode_map long_value "map[string]int64" "int64" plain_config some_writer two_map
      two_entries (3 ∷ 12 ∷ 2 ∷ 97 ∷ 2 ∷ 2 ∷ 98 ∷ 1 ∷ 0 ∷ []) (9 ∷ []) split_map value_laws refl
      entries-Passes refl (unfold groups in (omega arith))
      (unfold get_max_map_alloc_size in (omega arith))
      (unfold encode_map encode_rounds encode_entries get_block_length write_block_cb
          write_block_header write_string utf8_valid write_long append_varint zigzag in
        refl)
      split_map-IsSteady refl
