-- ===== src/Examples/Skips.antt =====
-- Skipping what a writer appended, and blocks of an array.
use avro.Prelude.{refl, arith, [], ◌∷◌}
use avro.Prelude.Int.{pos}
use avro.Words.{zigzag}
use avro.Reader.State.{Reader, report_error}
use avro.Reader.Skip.{skip_n_bytes}
use avro.Reader.Stream.{IsSteady}
use avro.Reader.Passing.{Passes, skip_n_bytes-Passes}
use avro.Writer.{write_long, write_block_header, append_varint}
use avro.RoundTrip.Skipping.{Leaves}
use avro.Prelude.{some}
use avro.Schema.{null_schema, named}
use avro.RoundTrip.Numbers.{Returns}
use avro.Writer.{write_int}
use avro.SkipCodec.Unions.{get_union_schema-write_int}
use avro.SkipCodec.{skip_blocks, get_union_schema}
use avro.SkipCodec.Sized.{skip_blocks-wire, wire}
use avro.Examples.{some_writer, two_pieces}

abbrev split_text : Reader
split_text = two_pieces (6 ∷ 0x68 ∷ []) (0xc3 ∷ 0xa9 ∷ 9 ∷ [])

split_text-IsSteady : IsSteady split_text
split_text-IsSteady = record {
  no_error = refl;
  no_pending = refl;
  bytes = ground arith;
  answers = ground arith;
}

skip_n_bytes-Passes_example : Passes 3 split_text (skip_n_bytes (pos 3) split_text)
skip_n_bytes-Passes_example = skip_n_bytes-Passes 3 split_text split_text-IsSteady

-- A block of two items in three bytes, cut in two, and the end.
abbrev split_blocks : Reader
split_blocks = two_pieces (3 ∷ 6 ∷ 1 ∷ []) (2 ∷ 3 ∷ 0 ∷ 9 ∷ [])

split_blocks-IsSteady : IsSteady split_blocks
split_blocks-IsSteady = record {
  no_error = refl;
  no_pending = refl;
  bytes = ground arith;
  answers = ground arith;
}

skip_blocks-wire_example :
    Leaves (9 ∷ []) (skip_blocks (λ r. report_error r "item" "decoded") 2 split_blocks)
skip_blocks-wire_example =
    skip_blocks-wire (λ r. report_error r "item" "decoded") some_writer ((1, 1 ∷ 2 ∷ 3 ∷ []) ∷ [])
      (9 ∷ []) split_blocks refl (ground arith) split_blocks-IsSteady
      (unfold wire write_block_header write_long append_varint zigzag in refl)

abbrev branch_one : Reader
branch_one = two_pieces [] (2 ∷ 9 ∷ [])

branch_one-IsSteady : IsSteady branch_one
branch_one-IsSteady = record {
  no_error = refl;
  no_pending = refl;
  bytes = ground arith;
  answers = ground arith;
}

get_union_schema-write_int_example :
    Returns
      (some (pos 1, named 4))
      (9 ∷ [])
      (get_union_schema (null_schema ∷ named 4 ∷ []) branch_one)
get_union_schema-write_int_example =
    get_union_schema-write_int some_writer (null_schema ∷ named 4 ∷ []) 1 (named 4) (2 ∷ [])
      (9 ∷ []) branch_one refl (omega arith) (unfold write_int append_varint zigzag in refl)
      branch_one-IsSteady refl
