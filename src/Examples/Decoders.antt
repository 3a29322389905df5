-- ===== src/Examples/Decoders.antt =====
-- Decoders over a file of two blocks, and the codecs of a file.
use avro.Prelude.{
  Bool, true, append-nil, drop, ℕ, ◌≡◌, refl, sym, ap, ◌∙◌, arith, inl, inr, false, none, some,
  List, [], ◌∷◌, ◌++◌, All, bytes_equal,
}
use avro.Prelude.Int.{pos}
use avro.Errors.{eof}
use avro.Reader.State.{Reader}
use avro.Reader.Stream.{stream, IsSteady}
use avro.Writer.Varint.{groups}
use avro.Writer.Sink.{delivered}
use avro.Writer.{flush, write_long, append_varint, write_out}
use avro.Words.{zigzag}
use avro.MapCodec.{no_entries}
use avro.Ocf.{Codec}
use avro.Ocf.Codecs.{
  CodecOptions, resolve_codec, null_decode, snappy_name, snappy_encode, snappy_decode,
}
use avro.Ocf.Codecs.Lossless.{resolve_codec-Undoes}
use avro.Ocf.Encoder.{Encoder, buffer, writer_block, block_written}
use avro.Ocf.Decoder.{Decoder, has_next, read_block_data, decode}
use avro.Ocf.BlockData.{Loads, read_block_data-Loads}
use avro.Ocf.Blocks.{Opens, read_block-writer_block, writer_block-delivers}
use avro.Ocf.Settles.{Answers, has_next-Answers}
use avro.Ocf.Runs.{
  Reach, call_has_next, call_decode, here, next, IsBounded, SameFile, Reach-IsBounded, Reach-same,
}
use avro.Ocf.Opening.{skip_to_end}
use avro.Ocf.Appending.{
  skip_to_end-blocks, Ending, at_end, other_marker, ending_bytes, IsEnding, Ends,
}
use avro.Ocf.Files.{blocks, file_bytes, encodings, encode_all, decode_all}
use avro.Ocf.Files.Flushed.{encode_all-Keeps}
use avro.Ocf.Files.Whole.{Yields, IsFresh, Accepted, decode_all-encode_all}
use avro.Examples.{plain_config}
use avro.Examples.Files.{
  values, two_blocks, the_encoder, value_bytes, encoder-Holds, blocks-IsWritable,
}
use avro.Examples.Containers.{
  bools, bool_bytes, bools-IsLawful, packages, packages-IsSound, marker, sent_header, options,
  plain_codec, plain_encoder,
}

abbrev file_reader : Reader
file_reader = record {
  cfg = plain_config;
  config_err = none;
  source = some (record { bytes = two_blocks; err = none } ∷ []);
  unread = [];
  pending_err = none;
  error = none;
}

file_reader-IsSteady : IsSteady file_reader
file_reader-IsSteady = record {
  no_error = refl;
  no_pending = refl;
  bytes = tt;
  answers = ground arith;
}

abbrev no_reader : Reader
no_reader = record file_reader { source = some [] }

abbrev file_decoder : Decoder
file_decoder = record {
  reader = file_reader;
  decoder = no_reader;
  meta = no_entries;
  sync = marker;
  codec = plain_codec;
  count = pos 0;
  max_block_bytes = pos 100;
  max_block_records = pos 2;
}

read_block_data-Loads_example : Loads [] 3 file_reader (read_block_data file_reader 3)
read_block_data-Loads_example = read_block_data-Loads file_reader 3 file_reader-IsSteady

has_next-Answers_example : Answers (has_next file_decoder)
has_next-Answers_example = has_next-Answers file_decoder file_reader-IsSteady

abbrev after_two : Decoder
after_two = (decode bools (has_next file_decoder).1 false).2

two_calls : Reach bools file_decoder after_two
two_calls =
    next (next here (call_has_next file_decoder)) (call_decode (has_next file_decoder).1 false)

Reach-IsBounded_example : IsBounded after_two × SameFile file_decoder after_two
Reach-IsBounded_example = Reach-IsBounded bools (omega arith, inr (omega arith)) two_calls

abbrev stopped_decoder : Decoder
stopped_decoder = record file_decoder { reader = record file_reader { error = some eof } }

Reach_stopped_example : (decode bools (has_next stopped_decoder).1 false).2 ≡ stopped_decoder
Reach_stopped_example = Reach-same bools refl (
    next (next here (call_has_next stopped_decoder))
      (call_decode (has_next stopped_decoder).1 false))

abbrev full_encoder : Encoder
full_encoder = record the_encoder {
  writer = record {
    cfg = plain_config;
    config_err = none;
    out = some (buffer []);
    buf = [];
    error = none;
  };
  buf = 1 ∷ 0 ∷ [];
  count = 2;
}

abbrev first_block : List ℕ
first_block = (4 ∷ 4 ∷ 1 ∷ 0 ∷ []) ++ marker

block_added : (writer_block full_encoder).0 ≡ none
unfolding writer_block block_written flush write_long append_varint zigzag write_out bytes_equal
block_added = refl

same_marker : file_decoder.sync ≡ full_encoder.sync
unfolding bytes_equal
same_marker = refl

block_delivered :
    delivered (writer_block full_encoder).1.writer ≡ delivered full_encoder.writer ++ first_block
unfolding groups bytes_equal
block_delivered = (writer_block-delivers full_encoder block_added (omega arith) (omega arith)).0

read_block-writer_block_example : Opens file_decoder 2 (1 ∷ 0 ∷ []) ((2 ∷ 2 ∷ 1 ∷ []) ++ marker)
read_block-writer_block_example =
    read_block-writer_block full_encoder file_decoder first_block ((2 ∷ 2 ∷ 1 ∷ []) ++ marker)
      block_added block_delivered (omega arith) (omega arith) (unfold null_decode in refl)
      (inl (omega arith)) same_marker refl (inr (omega arith)) (inr (omega arith))
      file_reader-IsSteady refl

-- The two blocks, a block with another marker, and a byte.
abbrev other_mark : List ℕ
other_mark = 1 ∷ drop 1 marker

abbrev spoiled : Ending Bool
spoiled = other_marker (true ∷ false ∷ []) other_mark (99 ∷ [])

abbrev spoiled_bytes : List ℕ
spoiled_bytes = (4 ∷ 4 ∷ 1 ∷ 0 ∷ []) ++ (other_mark ++ (99 ∷ []))

abbrev spoiled_reader : Reader
spoiled_reader = record file_reader {
  source = some (record { bytes = two_blocks ++ spoiled_bytes; err = none } ∷ []);
}

spoiled_reader-IsSteady : IsSteady spoiled_reader
spoiled_reader-IsSteady = record {
  no_error = refl;
  no_pending = refl;
  bytes = tt;
  answers = ground arith;
}

spoiled_same : spoiled_bytes ≡ ending_bytes bool_bytes plain_encoder marker refl spoiled
unfolding encodings groups
spoiled_same = refl

spoiled-IsEnding : IsEnding bool_bytes plain_encoder marker refl spoiled
unfolding encodings bytes_equal
spoiled-IsEnding = ((omega arith, omega arith), refl, refl)

skip_to_end-blocks_example :
    Ends bool_bytes plain_encoder marker refl spoiled (skip_to_end 100 spoiled_reader marker)
skip_to_end-blocks_example =
    skip_to_end-blocks bool_bytes plain_encoder marker refl 100
      (blocks bool_bytes (pos 2) (pos 0) [] values) spoiled spoiled_reader (omega arith)
      spoiled_reader-IsSteady
      (ap (λ t. t ++ spoiled_bytes) (sym value_bytes)
        ∙ ap
            (λ t.
              file_bytes bool_bytes plain_encoder marker
                (blocks bool_bytes (pos 2) (pos 0) [] values)
              ++ t)
            spoiled_same)
      blocks-IsWritable spoiled-IsEnding

all_passed : Ends bool_bytes plain_encoder marker refl at_end (skip_to_end 100 file_reader marker)
all_passed =
    skip_to_end-blocks bool_bytes plain_encoder marker refl 100
      (blocks bool_bytes (pos 2) (pos 0) [] values) at_end file_reader (omega arith)
      file_reader-IsSteady (sym value_bytes ∙ sym (append-nil _)) blocks-IsWritable tt

abbrev limited : CodecOptions
limited = record options { max_decompressed_bytes = pos 3 }

abbrev snappy : Codec
snappy = record {
  decode_block = snappy_decode packages (pos 3);
  encode_block = snappy_encode packages;
  closer = none;
}

snappy_found : resolve_codec packages snappy_name limited ≡ inr snappy
unfolding resolve_codec bytes_equal
snappy_found = refl

resolve_codec-Undoes_example :
    snappy_decode packages (pos 3) (snappy_encode packages (5 ∷ 6 ∷ 7 ∷ [])) ≡ inr (5 ∷ 6 ∷ 7 ∷ [])
resolve_codec-Undoes_example =
    resolve_codec-Undoes packages snappy_name (5 ∷ 6 ∷ 7 ∷ []) limited limited snappy snappy
      packages-IsSound refl refl refl refl snappy_found snappy_found (inr (omega arith))

abbrev AcceptedBlocks : Type 0
AcceptedBlocks =
    All
      (Accepted bools bool_bytes bools-IsLawful plain_encoder plain_codec marker (pos 2) (pos 100)
        refl)
      (blocks bool_bytes (pos 2) (pos 0) [] values)

blocks_accepted : AcceptedBlocks
unfolding blocks encodings null_decode
blocks_accepted = (
  (omega arith, omega arith, omega arith, (inr (omega arith), inr (omega arith)), refl),
  ((omega arith, omega arith, omega arith, (inr (omega arith), inr (omega arith)), refl), tt),
)

file_decoder-IsFresh :
    IsFresh bools bool_bytes bools-IsLawful plain_encoder plain_codec marker
      (pos 2)
      (pos 100)
      refl
      file_decoder
file_decoder-IsFresh = record {
  steady = file_reader-IsSteady;
  count = refl;
  values = record { no_error = refl; no_pending = refl; bytes = tt; answers = tt };
  block = refl;
  sync = refl;
  codec = refl;
  records = refl;
  bytes = refl;
}

written :
    (encode_all bools the_encoder values).1.writer.out
    ≡ some (buffer (sent_header ++ stream file_decoder.reader))
written =
    (encode_all-Keeps bools bool_bytes bools-IsLawful plain_encoder marker (pos 2) (pos 0) values
      the_encoder sent_header [] encoder-Holds blocks-IsWritable).1.out
    ∙ ap (λ (t : List ℕ). some (buffer (sent_header ++ t))) value_bytes

decode_all-encode_all_example :
    ((encode_all bools the_encoder values).0 ≡ none)
    × Yields bools bool_bytes bools-IsLawful plain_encoder plain_codec marker
        (pos 2)
        (pos 100)
        refl
        values
        (decode_all bools 4 file_decoder false)
decode_all-encode_all_example =
    decode_all-encode_all bools bool_bytes bools-IsLawful plain_encoder plain_codec marker (pos 2)
      (pos 100) refl (pos 2) (pos 0) values the_encoder file_decoder false sent_header encoder-Holds
      blocks_accepted written file_decoder-IsFresh
