-- ===== src/Ocf/Headers.antt =====
-- ocf/ocf.go: the header that newEncoder writes, and NewDecoder over it.
use avro.Prelude.{
  ℕ, ◌≡◌, ◌⊎◌, refl, ap, ◌∙◌, arith, inr, true, Option, none, some, List, [], ◌++◌, length,
  bytes_equal, bytes_equal_refl,
}
use avro.Config.{Config}
use avro.Errors.{Error}
use avro.Reader.State.{Reader}
use avro.Reader.Stream.{stream, IsSteady}
use avro.Writer.{Writer, append, flush, new_writer}
use avro.MapCodec.{set_index}
use avro.Ocf.{Codec, Header, ValueCodec, magic_bytes}
use avro.Ocf.Codecs.{Packages, CodecOptions, resolve_codec}
use avro.Ocf.Encoder.{Encoder, buffer}
use avro.Ocf.Opening.{HeaderCodec, Api, meta_value, schema_key, codec_key, check_header}
use avro.Ocf.Creating.{
  EncoderConfig, plain, new_encoder_from, create_file, start_encoder, encoder_over, new_header,
  codec_of, header_sync, header_written,
}
use avro.Ocf.Files.{IsLawful, encodings}
use avro.Ocf.Files.Written.{Holds, flush_all}

-- The header that is read has the magic, the marker and the metadata that were written.
abbrev pub Like : Header → Header → Type 0
Like h h' = (h'.magic ≡ h.magic) × (h'.sync ≡ h.sync) × (h'.meta ≡ h.meta)

-- For writers and readers of these two configurations: to write the header appends these bytes, and to
-- read them returns it.
pub record IsHeaderLawful {S : Type 0} (k : HeaderCodec S) (h : Header) (encoding : List ℕ)
    (written_under read_under : Config) : Type 0 where
  pub writes :
      (w : Writer)
      → w.cfg ≡ written_under
      → w.error ≡ none
      → k.write_header_val h w ≡ append w encoding
  pub reads :
      (rest : List ℕ) (r : Reader)
      → r.cfg ≡ read_under
      → IsSteady r
      → length h.magic ≡ 4
      → length h.sync ≡ 16
      → stream r ≡ encoding ++ rest
      → Like h (k.read_header_val r).0
        × IsSteady (k.read_header_val r).1
        × (stream (k.read_header_val r).1 ≡ rest)

module _ {S : Type 0} (k : HeaderCodec S) (p : Packages) (fresh : List ℕ) (default_config : Config)
    (cfg : EncoderConfig S) (api : Api) (json encoding : List ℕ) (read_under : Config)
    (ok : IsHeaderLawful k (new_header cfg api k p fresh json) encoding api.cfg read_under) where
  abbrev pub header_of : Header
  header_of = new_header cfg api k p fresh json

  written :
      api.config_err ≡ none
      → header_written cfg api k p fresh (buffer []) json ≡ (
        none,
        record (new_writer api.cfg api.config_err (some (buffer []))) {
          out = some (buffer encoding);
        },
      )
  unfolding new_writer
  written clean =
      let w : Writer = new_writer api.cfg api.config_err (some (buffer [])) in
      ap (λ t. flush t) (ok.writes w refl clean) ∙ flush_all (append w encoding) [] clean refl

  started :
      (codec : Codec)
      → api.config_err ≡ none
      → resolve_codec p (codec_of cfg api) cfg.codec_options ≡ inr codec
      → start_encoder cfg api k p fresh (buffer []) json
        ≡ inr (
            encoder_over cfg api
              (record (new_writer api.cfg api.config_err (some (buffer []))) {
                out = some (buffer encoding);
              })
              codec
              header_of)
  unfolding start_encoder
  started codec clean found =
      let first : (header_written cfg api k p fresh (buffer []) json).0 ≡ none =
        ap (λ (t : Option Error × Writer). t.0) (written clean) in
      rw (found, start_encoder, first)
        (ap (λ (t : Option Error × Writer). inr (encoder_over cfg api t.1 codec header_of))
          (written clean))

  -- The encoder that newEncoder makes over an empty output: it has handed on the header.
  abbrev pub first_encoder : Codec → Encoder
  first_encoder codec =
      encoder_over cfg api
        (record (new_writer api.cfg api.config_err (some (buffer []))) {
          out = some (buffer encoding);
        })
        codec header_of

  create_steps :
      (schema : S) (marshal : S → Error ⊎ List ℕ)
      → cfg.schema_marshaler ≡ some marshal
      → marshal schema ≡ inr json
      → create_file cfg api k p fresh (inr (some schema)) (buffer [])
        ≡ start_encoder cfg api k p fresh (buffer []) json
  unfolding create_file
  create_steps schema marshal marshaled printed = ground (arith, marshaled, printed)

  plain_steps :
      (schema : S)
      → cfg.encoding_config ≡ some api
      → new_encoder_from k p fresh default_config (inr (some schema)) (plain (buffer [])) cfg
        ≡ create_file cfg api k p fresh (inr (some schema)) (buffer [])
  unfolding new_encoder_from
  plain_steps schema over = ground (arith, over)

  pub encoder_made :
      (schema : S) (marshal : S → Error ⊎ List ℕ) (codec : Codec)
      → api.config_err ≡ none
      → cfg.encoding_config ≡ some api
      → cfg.schema_marshaler ≡ some marshal
      → marshal schema ≡ inr json
      → resolve_codec p (codec_of cfg api) cfg.codec_options ≡ inr codec
      → new_encoder_from k p fresh default_config (inr (some schema)) (plain (buffer [])) cfg
        ≡ inr (first_encoder codec)
  encoder_made schema marshal codec clean over marshaled printed found =
      plain_steps schema over
      ∙ create_steps schema marshal marshaled printed
      ∙ started codec clean found

  pub first_encoder-Holds :
      {V : Type 0} (c : ValueCodec V) (values : V → List ℕ) (lawful : IsLawful c values)
      (codec : Codec)
      → api.config_err ≡ none
      → Holds c values lawful codec
          (header_sync cfg api fresh)
          cfg.block_length
          cfg.block_size
          (first_encoder codec)
          encoding
          []
  unfolding new_writer encodings
  first_encoder-Holds c values lawful codec clean = record {
    not_closed = refl;
    working = refl;
    clean = clean;
    out = refl;
    empty = refl;
    buf = refl;
    count = refl;
    value_clean = clean;
    value_empty = refl;
    codec = refl;
    sync = refl;
    length = refl;
    size = refl;
  }

  magic_same : bytes_equal magic_bytes magic_bytes ≡ true
  magic_same = bytes_equal_refl magic_bytes

  json_value : meta_value header_of.meta schema_key ≡ json
  unfolding meta_value set_index bytes_equal
  json_value = refl

  codec_value : meta_value header_of.meta codec_key ≡ codec_of cfg api
  unfolding meta_value set_index bytes_equal
  codec_value = refl

  -- The header that newEncoder wrote is one that NewDecoder accepts.
  pub header_accepted :
      {S' : Type 0} (k' : HeaderCodec S') (h : Header) (schema : S') (codec : Codec)
      (opts : CodecOptions)
      → Like header_of h
      → k'.parse json ≡ inr schema
      → resolve_codec p (codec_of cfg api) opts ≡ inr codec
      → check_header k' p h opts
        ≡ inr (record { schema = schema; codec = codec; meta = h.meta; sync = h.sync })
  unfolding check_header
  header_accepted k' h schema codec opts (magic, sync, meta) parsed found =
      let is_magic : bytes_equal h.magic magic_bytes ≡ true =
        ap (λ t. bytes_equal t magic_bytes) magic ∙ magic_same in
      let its_json : k'.parse (meta_value h.meta schema_key) ≡ inr schema =
        ap (λ t. k'.parse t) (ap (λ t. meta_value t schema_key) meta ∙ json_value) ∙ parsed in
      let its_codec : resolve_codec p (meta_value h.meta codec_key) opts ≡ inr codec =
        ap (λ t. resolve_codec p t opts) (ap (λ t. meta_value t codec_key) meta ∙ codec_value)
        ∙ found in
      ground (arith, is_magic, its_json, its_codec)
