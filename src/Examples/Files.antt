-- ===== src/Examples/Files.antt =====
-- A container file of three Booleans in two blocks, written and read back in two pieces.
use avro.Prelude.{
  ℕ, ◌≡◌, refl, ap, ◌∙◌, arith, Bool, true, false, none, some, List, [], ◌∷◌, ◌++◌, All,
  bytes_equal,
}
use avro.Prelude.Int.{pos}
use avro.Reader.State.{ReadResult}
use avro.Reader.Stream.{chunks}
use avro.Writer.Varint.{groups}
use avro.Ocf.Encoder.{Encoder, buffer}
use avro.Ocf.Decoder.{Decoder}
use avro.Ocf.Headers.{first_encoder, first_encoder-Holds}
use avro.Ocf.Files.{blocks, file_bytes, encodings, encode_all}
use avro.Ocf.Files.Flushed.{encode_all-Keeps}
use avro.Ocf.Files.Written.{Holds, IsWritable}
use avro.Examples.{plain_config}
use avro.Examples.Containers.{
  bools, bool_bytes, bools-IsLawful, packages, marker, sent_header, file_header, sent-file_header,
  the_api, encoder_config, headers, headers-IsLawful, plain_encoder,
}

abbrev pub values : List Bool
values = true ∷ false ∷ true ∷ []

abbrev pub two_blocks : List ℕ
two_blocks = (4 ∷ 4 ∷ 1 ∷ 0 ∷ []) ++ (marker ++ ((2 ∷ 2 ∷ 1 ∷ []) ++ marker))

abbrev answers : List ReadResult
answers =
    record { bytes = file_header ++ 4 ∷ 4 ∷ []; err = none }
    ∷ record { bytes = (1 ∷ 0 ∷ []) ++ (marker ++ ((2 ∷ 2 ∷ 1 ∷ []) ++ marker)); err = none }
    ∷ []

value_blocks : blocks bool_bytes (pos 2) (pos 0) [] values ≡ (true ∷ false ∷ []) ∷ (true ∷ []) ∷ []
unfolding blocks encodings
value_blocks = refl

pub value_bytes :
    file_bytes bool_bytes plain_encoder marker (blocks bool_bytes (pos 2) (pos 0) [] values)
    ≡ two_blocks
unfolding file_bytes blocks encodings groups
value_bytes = refl

abbrev pub the_encoder : Encoder
the_encoder =
    first_encoder headers packages [] plain_config encoder_config the_api (7 ∷ []) sent_header
      plain_config headers-IsLawful plain_encoder

pub encoder-Holds :
    Holds bools bool_bytes bools-IsLawful plain_encoder marker
      (pos 2)
      (pos 0)
      the_encoder
      sent_header
      []
unfolding bytes_equal
encoder-Holds =
    first_encoder-Holds headers packages [] plain_config encoder_config the_api (7 ∷ []) sent_header
      plain_config headers-IsLawful bools bool_bytes bools-IsLawful plain_encoder refl

pub blocks-IsWritable :
    All
      (IsWritable bools bool_bytes bools-IsLawful plain_encoder marker (pos 2) (pos 0))
      (blocks bool_bytes (pos 2) (pos 0) [] values)
unfolding blocks encodings
blocks-IsWritable = ((omega arith, omega arith), ((omega arith, omega arith), tt))

written : (encode_all bools the_encoder values).1.writer.out ≡ some (buffer (chunks answers))
written =
    (encode_all-Keeps bools bool_bytes bools-IsLawful plain_encoder marker (pos 2) (pos 0) values
      the_encoder sent_header [] encoder-Holds blocks-IsWritable).1.out
    ∙ ap (λ (t : List ℕ). some (buffer (sent_header ++ t))) value_bytes
    ∙ ap (λ (t : List ℕ). some (buffer (t ++ two_blocks))) sent-file_header
