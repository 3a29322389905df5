-- ===== src/Examples/Containers.antt =====
-- Container files of Booleans, a byte each.
use avro.Prelude.{
  ℕ, ◌-◌, drop, subst, ◌≡◌, ◌⊎◌, refl, sym, ap, ◌∙◌, arith, inl, inr, Bool, true, false, none, some,
  List, [], ◌∷◌, ◌++◌, length, All, bytes_equal,
}
use avro.Prelude.Int.{pos}
use avro.Errors.{Error, message}
use avro.Reader.State.{Reader}
use avro.Reader.Values.{read}
use avro.Reader.Scan.{IsByte}
use avro.Reader.Stream.{stream, IsSteady}
use avro.RoundTrip.Bytes.{by_copy}
use avro.RoundTrip.Numbers.{Returns}
use avro.Writer.{append}
use avro.Ocf.{Codec, Header, ValueCodec}
use avro.Ocf.Codecs.{Packages, ZstdDecoder, ZstdEncoder, CodecOptions, resolve_codec}
use avro.Ocf.Codecs.Lossless.{IsSound}
use avro.Ocf.{magic_bytes, resolve_limit}
use avro.Ocf.Opening.{HeaderCodec, Api, DecoderConfig, schema_key, codec_key, resolved_options}
use avro.Ocf.Creating.{EncoderConfig, new_header, codec_of}
use avro.Ocf.Codecs.{null_name, null_decode}
use avro.Ocf.Headers.{IsHeaderLawful}
use avro.Ocf.HeaderFields.{header_codec}
use avro.Ocf.HeaderMeta.{Accepts, AllowsFixed, header_bytes, header_codec-IsHeaderLawful}
use avro.MapCodec.{no_entries}
use avro.MapCodec.Decoded.{set_all}
use avro.MapCodec.RoundTrip.{Iterates}
use avro.ArrayCodec.Encoded.{blocks_of}
use avro.SkipCodec.{check_fixed_size}
use avro.Utf8.{utf8_valid}
use avro.Config.{get_block_length, get_max_byte_slice_size, get_max_map_alloc_size}
use avro.Writer.Varint.{groups}
use avro.Ocf.Files.{IsLawful}
use avro.Examples.{plain_config}

abbrev pub bool_bytes : Bool → List ℕ
bool_bytes true = 1 ∷ []
bool_bytes false = 0 ∷ []

abbrev pub bools : ValueCodec Bool
bools = record {
  read_val = λ target r. (bytes_equal (read 1 r).0 (1 ∷ []), (read 1 r).1);
  write_val = λ v w. append w (bool_bytes v);
}

bool_back : (v : Bool) → bytes_equal (bool_bytes v) (1 ∷ []) ≡ v
unfolding bytes_equal
bool_back true = refl
bool_back false = refl

length-bool_bytes : (v : Bool) → length (bool_bytes v) ≡ 1
length-bool_bytes true = refl
length-bool_bytes false = refl

bool-IsByte : (v : Bool) → All IsByte (bool_bytes v)
bool-IsByte true = (omega arith, tt)
bool-IsByte false = (omega arith, tt)

bool_reads :
    (v target : Bool) (rest : List ℕ) (r : Reader)
    → IsSteady r
    → stream r ≡ bool_bytes v ++ rest
    → Returns v rest (bools.read_val target r)
bool_reads v target rest r st e =
    let (bytes, st', left) = by_one v r rest st e in
    (ap (λ t. bytes_equal t (1 ∷ [])) bytes ∙ bool_back v, st', left)
  where
    by_one :
        (v : Bool) (r : Reader) (rest : List ℕ)
        → IsSteady r
        → stream r ≡ bool_bytes v ++ rest
        → Returns (bool_bytes v) rest (read 1 r)
    by_one true r rest st e = by_copy (1 ∷ []) rest r st e
    by_one false r rest st e = by_copy (0 ∷ []) rest r st e

pub bools-IsLawful : IsLawful bools bool_bytes
bools-IsLawful = record { writes = λ v w clean. refl; reads = bool_reads; bytes = bool-IsByte }

abbrev pub packages : Packages
packages = record {
  inflate = λ b. (b, none);
  inflate_close = λ b. none;
  deflate = λ level b. b;
  snappy_decoded_len = λ b. inr (length b - 1);
  snappy_decode = λ b. inr (drop 1 b);
  snappy_encode = λ b. 0 ∷ b;
  zstd_reader = λ cap. inr (record { decode_all = λ b. inr b });
  zstd_writer = inr (record { encode_all = λ b. b; close = none });
}

identity_zstd :
    (d : ZstdDecoder) (e : ZstdEncoder) (b : List ℕ)
    → packages.zstd_reader none ≡ inr d
    → packages.zstd_writer ≡ inr e
    → d.decode_all (e.encode_all b) ≡ inr b
identity_zstd d e b made made' =
    let same : record { decode_all = λ b. inr b } ≡ d = ground (arith, made) in
    let same' : record { encode_all = λ b. b; close = none } ≡ e = ground (arith, made') in
    subst (λ (t : ZstdDecoder). t.decode_all (e.encode_all b) ≡ inr b) same
      (ap (λ (t : ZstdEncoder). inr (t.encode_all b)) (sym same'))

pub packages-IsSound : IsSound packages
packages-IsSound = record {
  flate = λ level b good. refl;
  flate_close = λ level b good. refl;
  snappy = λ b. refl;
  snappy_length = λ b. ap inr (omega arith);
  snappy_some = λ b. omega arith;
  zstd = λ cap d e b made made' fits. identity_zstd d e b made made';
}

abbrev pub marker : List ℕ
marker = 9 ∷ 8 ∷ 7 ∷ 6 ∷ 5 ∷ 4 ∷ 3 ∷ 2 ∷ 1 ∷ 2 ∷ 3 ∷ 4 ∷ 5 ∷ 6 ∷ 7 ∷ 8 ∷ []

abbrev pub options : CodecOptions
options = record {
  deflate_compression_level = pos 6;
  max_decompressed_bytes = pos 0;
  shared_decoder = none;
  shared_encoder = none;
}

abbrev pub the_api : Api
the_api = record { cfg = plain_config; config_err = none }

abbrev pub encoder_config : EncoderConfig ℕ
encoder_config = record {
  block_length = pos 2;
  block_size = pos 0;
  codec_name = [];
  codec_options = options;
  metadata = no_entries;
  sync = marker;
  encoding_config = some the_api;
  schema_marshaler = some (λ schema. inr (schema ∷ []));
}

abbrev pub decoder_config : DecoderConfig
decoder_config = record {
  decoder_config = some the_api;
  codec_options = options;
  max_block_bytes = pos 0;
  max_decompressed_block_bytes = pos 0;
  max_block_records = pos 0;
}

abbrev pub parse_first : List ℕ → Error ⊎ ℕ
parse_first [] = inl (message "no schema")
parse_first (x ∷ xs) = inr x

-- The metadata in the order in which they are visited: the schema, and the name of the codec.
abbrev pub metadata : List (List ℕ × List ℕ)
metadata = (schema_key, 7 ∷ []) ∷ (codec_key, null_name) ∷ []

abbrev pub headers : HeaderCodec ℕ
headers = header_codec metadata parse_first

abbrev pub the_header : Header
the_header = new_header encoder_config the_api headers packages [] (7 ∷ [])

pub metadata-iterate : Iterates the_header.meta metadata
unfolding set_all bytes_equal
metadata-iterate = refl

abbrev pub sent_header : List ℕ
sent_header = header_bytes plain_config metadata the_header

-- A block of two entries in 30 bytes, and the end, between the magic and the marker.
abbrev pub file_header : List ℕ
file_header =
    magic_bytes
    ++ ((3 ∷ 60 ∷ 22 ∷ [])
        ++ (schema_key ++ ((2 ∷ 7 ∷ 20 ∷ []) ++ (codec_key ++ ((8 ∷ null_name) ++ (0 ∷ marker))))))

pub sent-file_header : sent_header ≡ file_header
unfolding blocks_of groups bytes_equal get_block_length
sent-file_header = refl

pub metadata-Accepts : Accepts plain_config metadata
unfolding utf8_valid get_max_byte_slice_size get_max_map_alloc_size groups
metadata-Accepts = record {
  entries = (
    (
      ((refl, omega arith), (omega arith, (omega arith, inr (omega arith)))),
      (omega arith, inr (omega arith)),
    ),
    (
      (
        ((refl, omega arith), (omega arith, (omega arith, inr (omega arith)))),
        (omega arith, inr (omega arith)),
      ),
      tt,
    ),
  );
  few = omega arith;
  short = omega arith;
}

pub plain_config-AllowsFixed : AllowsFixed plain_config
unfolding check_fixed_size get_max_byte_slice_size
plain_config-AllowsFixed = record { four = ground arith; sixteen = ground arith }

pub headers-IsLawful : IsHeaderLawful headers the_header sent_header plain_config plain_config
unfolding bytes_equal
headers-IsLawful =
    header_codec-IsHeaderLawful parse_first plain_config plain_config metadata the_header
      metadata-Accepts plain_config-AllowsFixed plain_config-AllowsFixed refl refl metadata-iterate

abbrev pub plain_codec : Codec
plain_codec = record {
  decode_block = null_decode (pos 67_108_864);
  encode_block = λ b. b;
  closer = none;
}

abbrev pub plain_encoder : Codec
plain_encoder = record { decode_block = null_decode (pos 0); encode_block = λ b. b; closer = none }

pub encoder_codec :
    resolve_codec packages (codec_of encoder_config the_api) options ≡ inr plain_encoder
unfolding resolve_codec bytes_equal
encoder_codec = refl

pub decoder_codec :
    resolve_codec packages (codec_of encoder_config the_api) (resolved_options decoder_config)
    ≡ inr plain_codec
unfolding resolve_codec bytes_equal resolve_limit
decoder_codec = refl
