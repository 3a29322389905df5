-- ===== src/Examples/Arrays.antt =====
-- An array of three longs, which comes in two pieces.
use avro.Prelude.{refl, arith, List, [], ◌∷◌}
use avro.Prelude.Int.{ℤ, pos, negsuc}
use avro.Words.{zigzag}
use avro.Config.{get_block_length, get_max_slice_alloc_size}
use avro.Reader.State.{Reader}
use avro.Reader.Stream.{IsSteady}
use avro.Writer.{append_varint, write_long, write_block_header, write_block_cb}
use avro.Writer.Varint.{groups}
use avro.RoundTrip.Numbers.{Returns}
use avro.ArrayCodec.{encode_array, encode_blocks, encode_items, decode_blocks}
use avro.ArrayCodec.Longs.{long_element, long_laws}
use avro.ArrayCodec.Decoded.{decode_blocks-encode_array}
use avro.Examples.{plain_config, some_writer, two_pieces}

abbrev three : List ℤ
three = pos 1 ∷ negsuc 0 ∷ pos 300 ∷ []

-- A block of three items in four bytes, and the end.
abbrev split_array : Reader
split_array = two_pieces (5 ∷ 8 ∷ 2 ∷ 1 ∷ 0xd8 ∷ []) (4 ∷ 0 ∷ 9 ∷ [])

split_array-IsSteady : IsSteady split_array
split_array-IsSteady = record {
  no_error = refl;
  no_pending = refl;
  bytes = ground arith;
  answers = ground arith;
}

decode_blocks-encode_array_example :
    Returns three (9 ∷ []) (decode_blocks long_element "[]int64" 4 0 split_array)
decode_blocks-encode_array_example =
    decode_blocks-encode_array long_element long_laws "[]int64" plain_config some_writer three
      (5 ∷ 8 ∷ 2 ∷ 1 ∷ 0xd8 ∷ 4 ∷ 0 ∷ []) (9 ∷ []) split_array (ground arith) refl
      (unfold groups in (omega arith)) (unfold get_max_slice_alloc_size in (omega arith))
      (omega arith)
      (unfold encode_array encode_blocks encode_items get_block_length write_block_cb
          write_block_header write_long append_varint zigzag in
        refl)
      split_array-IsSteady refl
