-- ===== src/Ocf/Options.antt =====
-- ocf/ocf.go: the options of the constructors, each a change of the configuration.
use avro.Prelude.{ℕ, Option, none, some, List, [], ◌∷◌, ◌⊎◌}
use avro.Prelude.Int.{ℤ, pos, negsuc}
use avro.Errors.{Error}
use avro.MapCodec.{GoMap, no_entries, set_index}
use avro.Ocf.Codecs.{CodecOptions, ZstdDecoder, ZstdEncoder, null_name, deflate_name}
use avro.Ocf.Opening.{Api, DecoderConfig}
use avro.Ocf.Creating.{EncoderConfig, no_sync}

-- `for _, opt := range opts { if opt != nil { opt(&cfg) } }`
unfoldable pub apply_options {ℓ} : {A : Type ℓ} → List (Option (A → A)) → A → A
apply_options [] cfg = cfg
apply_options (none ∷ opts) cfg = apply_options opts cfg
apply_options (some opt ∷ opts) cfg = apply_options opts (opt cfg)

-- `flate.DefaultCompression` is -1.
abbrev pub default_options : CodecOptions
default_options = record {
  deflate_compression_level = negsuc 0;
  max_decompressed_bytes = pos 0;
  shared_decoder = none;
  shared_encoder = none;
}

abbrev pub with_decoder_config : Option Api → DecoderConfig → DecoderConfig
with_decoder_config api cfg = record cfg { decoder_config = api }

abbrev pub with_max_block_bytes : ℤ → DecoderConfig → DecoderConfig
with_max_block_bytes size cfg = record cfg { max_block_bytes = size }

abbrev pub with_max_decompressed_block_bytes : ℤ → DecoderConfig → DecoderConfig
with_max_decompressed_block_bytes size cfg = record cfg { max_decompressed_block_bytes = size }

abbrev pub with_max_block_records : ℤ → DecoderConfig → DecoderConfig
with_max_block_records count cfg = record cfg { max_block_records = count }

abbrev pub with_zstandard_decoder : Option ZstdDecoder → DecoderConfig → DecoderConfig
with_zstandard_decoder dec cfg = record cfg {
  codec_options = record cfg.codec_options { shared_decoder = dec };
}

module _ {S : Type 0} where
  abbrev pub with_block_length : ℤ → EncoderConfig S → EncoderConfig S
  with_block_length length cfg = record cfg { block_length = length }

  abbrev pub with_block_size : ℤ → EncoderConfig S → EncoderConfig S
  with_block_size size cfg = record cfg { block_size = size }

  abbrev pub with_codec : List ℕ → EncoderConfig S → EncoderConfig S
  with_codec codec cfg = record cfg { codec_name = codec }

  abbrev pub with_compression_level : ℤ → EncoderConfig S → EncoderConfig S
  with_compression_level level cfg = record cfg {
    codec_name = deflate_name;
    codec_options = record cfg.codec_options { deflate_compression_level = level };
  }

  abbrev pub with_zstandard_encoder : Option ZstdEncoder → EncoderConfig S → EncoderConfig S
  with_zstandard_encoder enc cfg = record cfg {
    codec_options = record cfg.codec_options { shared_encoder = enc };
  }

  abbrev pub with_metadata : GoMap (List ℕ) → EncoderConfig S → EncoderConfig S
  with_metadata meta cfg = record cfg { metadata = meta }

  abbrev pub with_metadata_key_val : List ℕ → List ℕ → EncoderConfig S → EncoderConfig S
  with_metadata_key_val key val cfg = record cfg { metadata = set_index key val cfg.metadata }

  abbrev pub with_schema_marshaler : Option (S → Error ⊎ List ℕ) → EncoderConfig S → EncoderConfig S
  with_schema_marshaler m cfg = record cfg { schema_marshaler = m }

  abbrev pub with_sync_block : List ℕ → EncoderConfig S → EncoderConfig S
  with_sync_block sync cfg = record cfg { sync = sync }

  abbrev pub with_encoding_config : Option Api → EncoderConfig S → EncoderConfig S
  with_encoding_config api cfg = record cfg { encoding_config = api }

  -- The default API and the default marshaler are those of the package.
  unfoldable pub compute_encoder_config :
      Api
      → (S → Error ⊎ List ℕ)
      → List (Option (EncoderConfig S → EncoderConfig S))
      → EncoderConfig S
  unfolding apply_options
  compute_encoder_config default_config default_marshaler opts = apply_options opts (record {
    block_length = pos 100;
    block_size = pos 0;
    codec_name = null_name;
    codec_options = default_options;
    metadata = no_entries;
    sync = no_sync;
    encoding_config = some default_config;
    schema_marshaler = some default_marshaler;
  })
