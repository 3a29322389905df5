-- ===== src/Ocf/Creating.antt =====
-- ocf/ocf.go: newEncoderFrom. `load_schema` answers a schema or nil, `fresh` is what the random source
-- gives, and the answers of a file are those of the operating system.
use avro.Prelude.{
  ℕ, suc, false, ◌⊎◌, inl, inr, Option, none, some, List, [], ◌∷◌, if◌then◌else◌, ◌==◌, length,
  bytes_equal,
}
use avro.Prelude.Int.{ℤ}
use avro.Config.{Config}
use avro.Errors.{Error, message, wrap, join}
use avro.Reader.State.{ReadResult, Reader, new_reader}
use avro.Reader.Stream.{stream}
use avro.Writer.{Output, Writer, new_writer, flush}
use avro.MapCodec.{GoMap, set_index}
use avro.Ocf.{Codec, Header, magic_bytes}
use avro.Ocf.Codecs.{Packages, CodecOptions, resolve_codec, null_name}
use avro.Ocf.Encoder.{Encoder, buffer}
use avro.Ocf.Opening.{HeaderCodec, OcfHeader, Api, read_header, skip_to_end, schema_key, codec_key}

pub record EncoderConfig (S : Type 0) : Type 0 where
  pub block_length : ℤ
  pub block_size : ℤ
  pub codec_name : List ℕ
  pub codec_options : CodecOptions
  pub metadata : GoMap (List ℕ)
  pub sync : List ℕ
  pub encoding_config : Option Api
  pub schema_marshaler : Option (S → Error ⊎ List ℕ)

-- An os.File: the size that Stat gives, the error of Seek, and what reading it answers.
pub record File : Type 0 where
  pub stat : Error ⊎ ℕ
  pub seek_err : Option Error
  pub answers : List ReadResult

-- The io.Writer: nil, or one with its output, which may be a file.
pub data Sink : Type 0 where
  nil : Sink
  plain : Output → Sink
  file : File → Output → Sink

abbrev pub no_sync : List ℕ
no_sync = 0 ∷ 0 ∷ 0 ∷ 0 ∷ 0 ∷ 0 ∷ 0 ∷ 0 ∷ 0 ∷ 0 ∷ 0 ∷ 0 ∷ 0 ∷ 0 ∷ 0 ∷ 0 ∷ []

-- The deferred Close of the codec where no encoder is returned.
unfoldable pub give_up : Codec → Error → Error
give_up codec err = elim codec.closer [
  | none ↦ err
  | some answer ↦ elim answer [
    | none ↦ err
    | some close_err ↦ join err (wrap "ocf: close codec" close_err)
  ]
]

module _ {S : Type 0} (cfg : EncoderConfig S) (api : Api) where
  abbrev pub encoder_over : Writer → Codec → Header → Encoder
  encoder_over w codec header = record {
    writer = w;
    buf = [];
    encoder = new_writer api.cfg api.config_err (some (buffer []));
    sync = header.sync;
    codec = codec;
    block_length = cfg.block_length;
    count = 0;
    block_size = cfg.block_size;
    failed = false;
    closed = false;
    header = header;
  }

  abbrev pub header_sync : List ℕ → List ℕ
  header_sync fresh = if bytes_equal cfg.sync no_sync then fresh else cfg.sync

  abbrev pub codec_of : List ℕ
  codec_of = if bytes_equal cfg.codec_name [] then null_name else cfg.codec_name

  module _ (k : HeaderCodec S) (p : Packages) (fresh : List ℕ) where
    abbrev pub new_header : List ℕ → Header
    new_header schema_json = record {
      magic = magic_bytes;
      meta = set_index codec_key codec_of (set_index schema_key schema_json cfg.metadata);
      sync = header_sync fresh;
    }

    abbrev pub header_written : Output → List ℕ → Option Error × Writer
    header_written out schema_json =
        flush (
          k.write_header_val (new_header schema_json)
            (new_writer api.cfg api.config_err (some out)))

    unfoldable pub start_encoder : Output → List ℕ → Error ⊎ Encoder
    start_encoder out schema_json = elim (resolve_codec p codec_of cfg.codec_options) [
      | inl e ↦ inl e
      | inr codec ↦
          let (err, w) = header_written out schema_json in
          elim err [
            | some e ↦ inl (give_up codec e)
            | none ↦ inr (encoder_over w codec (new_header schema_json))
          ]
    ]

    unfoldable pub create_file : Error ⊎ Option S → Output → Error ⊎ Encoder
    create_file (inl e) out = inl e
    create_file (inr none) out = inl (message "schema cannot be nil")
    create_file (inr (some schema)) out = elim cfg.schema_marshaler [
      | none ↦ inl (message "schema marshaler cannot be nil")
      | some marshal ↦ elim (marshal schema) [
        | inl e ↦ inl e
        | inr schema_json ↦ start_encoder out schema_json
      ]
    ]

    -- The reader of the file has the default configuration.
    abbrev append_after : Output → Option Error → OcfHeader S → Error ⊎ Encoder
    append_after out (some e) h = inl (give_up h.codec e)
    append_after out none h = inr (
        encoder_over (new_writer api.cfg api.config_err (some out)) h.codec
          (record { magic = magic_bytes; meta = h.meta; sync = h.sync }))

    abbrev append_to : Output → (Error ⊎ OcfHeader S) × Reader → Error ⊎ Encoder
    append_to out (inl e, r) = inl e
    append_to out (inr h, r) = append_after out (skip_to_end (suc (length (stream r))) r h.sync).0 h

    unfoldable pub append_file : Config → File → Output → Error ⊎ Encoder
    append_file default_config f out = elim f.seek_err [
      | some e ↦ inl e
      | none ↦
          append_to out
            (read_header k p (new_reader default_config none (some f.answers)) cfg.codec_options)
    ]

module _ {S : Type 0} (k : HeaderCodec S) (p : Packages) (fresh : List ℕ)
    (default_config : Config) where
  unfoldable pub new_encoder_from : Error ⊎ Option S → Sink → EncoderConfig S → Error ⊎ Encoder
  new_encoder_from load_schema nil cfg = inl (message "writer cannot be nil")
  new_encoder_from load_schema (plain out) cfg = elim cfg.encoding_config [
    | none ↦ inl (message "encoding config cannot be nil")
    | some api ↦ create_file cfg api k p fresh load_schema out
  ]
  new_encoder_from load_schema (file f out) cfg = elim cfg.encoding_config [
    | none ↦ inl (message "encoding config cannot be nil")
    | some api ↦ elim f.stat [
      | inl e ↦ inl e
      | inr size ↦
          if size == 0
          then create_file cfg api k p fresh load_schema out
          else append_file cfg api k p fresh default_config f out
    ]
  ]
