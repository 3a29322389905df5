-- ===== src/Examples/Values.antt =====
-- The round trips of Reader and Writer, with an input that is cut in two within a number.
use avro.Prelude.{◌≡◌, refl, arith, [], ◌∷◌, inr}
use avro.Prelude.Int.{pos}
use avro.Reader.State.{Reader}
use avro.Reader.Varint.{read_varint, read_long, long_width, scan}
use avro.Reader.Values.{read, read_bytes, read_block_header}
use avro.Reader.Scan.{long_width-IsWidth}
use avro.Reader.Stream.{IsSteady, stream}
use avro.Reader.Chunks.{read_varint-Decodes}
use avro.Reader.Rounds.{Decodes}
use avro.Reader.Copy.{read-Copies, Copies}
use avro.Prelude.{◌<◌, ◌≤◌}
use avro.Words.{zigzag}
use avro.Config.{
  get_max_byte_slice_size, get_block_length, get_max_slice_alloc_size, get_max_map_alloc_size,
  max_alloc_size, get_max_slice_alloc_size_bounds,
}
use avro.Writer.{
  write_long, write_bytes, write_block_header, append, dummy_header, write_block_cb, append_varint,
  flush,
}
use avro.Writer.Sink.{flush-Flushes, Flushes}
use avro.RoundTrip.Numbers.{Returns, read_long-write_long}
use avro.RoundTrip.Bytes.{read_bytes-write_bytes}
use avro.RoundTrip.Blocks.{read_block_header-write_block_header}
use avro.RoundTrip.Callback.{write_block_cb-appended}
use avro.Examples.{plain_config, some_writer, two_pieces}

-- 300 is 0xd8 0x04, and the reader has the first byte alone.
abbrev split_300 : Reader
split_300 = two_pieces (0xd8 ∷ []) (0x04 ∷ 9 ∷ [])

split_300-IsSteady : IsSteady split_300
split_300-IsSteady = record {
  no_error = refl;
  no_pending = refl;
  bytes = ground arith;
  answers = ground arith;
}

read_long-write_long_example : Returns (pos 300) (9 ∷ []) (read_long split_300)
read_long-write_long_example =
    read_long-write_long some_writer (pos 300) (0xd8 ∷ 0x04 ∷ []) (9 ∷ []) split_300 (omega arith)
      (unfold write_long append_varint zigzag in refl) split_300-IsSteady refl

read_varint-Decodes_example :
    Decodes long_width 0 split_300
      (read_varint long_width split_300)
      (scan long_width 0 0 0 (stream split_300))
read_varint-Decodes_example =
    read_varint-Decodes long_width long_width-IsWidth split_300 split_300-IsSteady

read-Copies_example : Copies 2 split_300 (read 2 split_300)
read-Copies_example = read-Copies 2 split_300 split_300-IsSteady

-- The text "hé", as bytes.
abbrev split_text : Reader
split_text = two_pieces (6 ∷ 0x68 ∷ []) (0xc3 ∷ 0xa9 ∷ 9 ∷ [])

split_text-IsSteady : IsSteady split_text
split_text-IsSteady = record {
  no_error = refl;
  no_pending = refl;
  bytes = ground arith;
  answers = ground arith;
}

read_bytes-write_bytes_example : Returns (0x68 ∷ 0xc3 ∷ 0xa9 ∷ []) (9 ∷ []) (read_bytes split_text)
read_bytes-write_bytes_example =
    read_bytes-write_bytes some_writer (0x68 ∷ 0xc3 ∷ 0xa9 ∷ []) (6 ∷ 0x68 ∷ 0xc3 ∷ 0xa9 ∷ [])
      (9 ∷ []) split_text (omega arith, inr (unfold get_max_byte_slice_size in (omega arith)))
      (unfold write_bytes write_long append_varint zigzag in refl) split_text-IsSteady refl

-- Two items in five bytes: -2 is 3, and 5 is 10.
abbrev split_header : Reader
split_header = two_pieces (3 ∷ []) (10 ∷ 9 ∷ [])

split_header-IsSteady : IsSteady split_header
split_header-IsSteady = record {
  no_error = refl;
  no_pending = refl;
  bytes = ground arith;
  answers = ground arith;
}

read_block_header-write_block_header_example :
    Returns (pos 2, pos 5) (9 ∷ []) (read_block_header split_header)
read_block_header-write_block_header_example =
    read_block_header-write_block_header some_writer 1 5 (3 ∷ 10 ∷ []) (9 ∷ []) split_header
      (omega arith) (omega arith)
      (unfold write_block_header write_long append_varint zigzag in refl) split_header-IsSteady refl

write_block_cb-appended_example :
    write_block_cb some_writer (λ w. (pos 2, append w (1 ∷ 2 ∷ [])))
    ≡ (pos 2, append (write_block_header some_writer (pos 2) (pos 2)) (1 ∷ 2 ∷ []))
write_block_cb-appended_example =
    write_block_cb-appended some_writer (append (append some_writer dummy_header) (1 ∷ 2 ∷ []))
      (λ w. (pos 2, append w (1 ∷ 2 ∷ []))) 2 (1 ∷ 2 ∷ []) (omega arith) (omega arith) refl refl

flush-Flushes_example : Flushes some_writer (flush some_writer)
flush-Flushes_example = flush-Flushes some_writer

get_max_slice_alloc_size_bounds_example :
    (0 < get_block_length plain_config)
    × (0 < get_max_slice_alloc_size plain_config)
    × (get_max_slice_alloc_size plain_config ≤ max_alloc_size)
    × (0 < get_max_map_alloc_size plain_config)
    × (get_max_map_alloc_size plain_config ≤ max_alloc_size)
get_max_slice_alloc_size_bounds_example = get_max_slice_alloc_size_bounds plain_config

abbrev eight_bytes : Reader
eight_bytes = two_pieces (1 ∷ 2 ∷ 3 ∷ []) (4 ∷ 0 ∷ 0 ∷ 0 ∷ 0 ∷ 9 ∷ [])

eight_bytes-IsSteady : IsSteady eight_bytes
eight_bytes-IsSteady = record {
  no_error = refl;
  no_pending = refl;
  bytes = ground arith;
  answers = ground arith;
}
