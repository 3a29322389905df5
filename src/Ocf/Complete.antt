-- ===== src/Ocf/Complete.antt =====
-- ocf/ocf.go: a container file from newEncoder to NewDecoder, header and blocks.
use avro.Prelude.{
  ℕ, suc, ◌<◌, ◌≡◌, ◌⊎◌, refl, sym, ap, ◌∙◌, arith, inr, none, some, List, [], ◌∷◌, ◌++◌, length,
  All,
}
use avro.Prelude.Int.{ℤ}
use avro.Config.{Config}
use avro.Errors.{Error}
use avro.Reader.State.{ReadResult, Reader, new_reader}
use avro.Reader.Stream.{stream, chunks, IsSteady, IsSteadyAnswer}
use avro.Ocf.{
  Codec, Header, ValueCodec, resolve_limit, default_max_block_bytes, default_max_block_records,
}
use avro.Ocf.Codecs.{Packages, CodecOptions, resolve_codec}
use avro.Ocf.Codecs.Lossless.{IsSound, IsUnder, resolve_codec-Undoes}
use avro.Ocf.Decoder.{Decoder}
use avro.Ocf.Encoder.{Encoder, buffer}
use avro.Ocf.Opening.{
  HeaderCodec, OcfHeader, Api, DecoderConfig, check_header, read_header, new_decoder,
  resolved_options, opened,
}
use avro.Ocf.Creating.{EncoderConfig, plain, new_encoder_from, new_header, codec_of, header_sync}
use avro.Ocf.Headers.{
  IsHeaderLawful, first_encoder, encoder_made, first_encoder-Holds, header_accepted,
}
use avro.Ocf.Blocks.{IsLong, IsWithin}
use avro.Ocf.Files.{IsLawful, encodings, blocks, encode_all, decode_all}
use avro.Ocf.Files.Flushed.{encode_all-Keeps, blocks_some}
use avro.Ocf.Files.{file_bytes}
use avro.Ocf.Files.Whole.{IsFresh, Accepted, Yields, decode_all-encode_all, writable, taken}

-- A reader that NewReader makes over pieces without an error.
new_reader-IsSteady :
    (api : Api) (answers : List ReadResult)
    → api.config_err ≡ none
    → All IsSteadyAnswer answers
    → IsSteady (new_reader api.cfg api.config_err (some answers))
unfolding new_reader
new_reader-IsSteady api answers clean h = record {
  no_error = clean;
  no_pending = refl;
  bytes = tt;
  answers = h;
}

new_reader-cfg :
    (api : Api) (answers : List ReadResult)
    → (new_reader api.cfg api.config_err (some answers)).cfg ≡ api.cfg
unfolding new_reader
new_reader-cfg api answers = refl

stream-new_reader :
    (api : Api) (answers : List ReadResult)
    → stream (new_reader api.cfg api.config_err (some answers)) ≡ chunks answers
unfolding new_reader
stream-new_reader api answers = refl

module _ {S : Type 0} (k : HeaderCodec S) (p : Packages) where
  read_header_ok :
      (r : Reader) (opts : CodecOptions) (h : OcfHeader S)
      → (k.read_header_val r).1.error ≡ none
      → check_header k p (k.read_header_val r).0 opts ≡ inr h
      → read_header k p r opts ≡ (inr h, (k.read_header_val r).1)
  unfolding read_header
  read_header_ok r opts h clean accepted = ground (arith, clean, accepted)

  new_decoder_ok :
      (answers : List ReadResult) (cfg : DecoderConfig) (api : Api) (h : OcfHeader S) (r : Reader)
      → cfg.decoder_config ≡ some api
      → read_header k p (new_reader api.cfg api.config_err (some answers)) (resolved_options cfg)
        ≡ (inr h, r)
      → new_decoder k p (some answers) cfg ≡ opened k p cfg api (inr h, r)
  unfolding new_decoder
  new_decoder_ok answers cfg api h r over done = ground (arith, over, done)

module _ {S V : Type 0} (k : HeaderCodec S) (c : ValueCodec V) (values : V → List ℕ)
    (c_ok : IsLawful c values) (p : Packages) (fresh : List ℕ) (default_config : Config)
    (cfg : EncoderConfig S) (api : Api) (json sent : List ℕ) (dapi : Api)
    (k_ok : IsHeaderLawful k (new_header cfg api k p fresh json) sent api.cfg dapi.cfg)
    (sixteen : length (header_sync cfg api fresh) ≡ 16) (dcfg : DecoderConfig) where
  abbrev pub marker : List ℕ
  marker = header_sync cfg api fresh

  abbrev pub first : Codec → Encoder
  first codec = first_encoder k p fresh default_config cfg api json sent dapi.cfg k_ok codec

  abbrev pub max_records : ℤ
  max_records = resolve_limit dcfg.max_block_records default_max_block_records

  abbrev pub max_bytes : ℤ
  max_bytes = resolve_limit dcfg.max_block_bytes default_max_block_bytes

  -- NewDecoder over the header that newEncoder wrote, and what follows it.
  decoder_made :
      (body : List ℕ) (schema : S) (codec codec' : Codec) (answers : List ReadResult)
      → dapi.config_err ≡ none
      → dcfg.decoder_config ≡ some dapi
      → All IsSteadyAnswer answers
      → chunks answers ≡ sent ++ body
      → k.parse json ≡ inr schema
      → resolve_codec p (codec_of cfg api) (resolved_options dcfg) ≡ inr codec'
      → (d : Decoder) × (new_decoder k p (some answers) dcfg ≡ inr (schema, d))
        × IsFresh c values c_ok codec codec' marker max_records max_bytes sixteen d
        × (stream d.reader ≡ body)
  decoder_made body schema codec codec' answers clean over steady e parsed found =
      let r : Reader = new_reader dapi.cfg dapi.config_err (some answers) in
      let r' : Reader = (k.read_header_val r).1 in
      let read : Header = (k.read_header_val r).0 in
      let (like, st, left) =
        k_ok.reads body r (new_reader-cfg dapi answers)
          (new_reader-IsSteady dapi answers clean steady) refl sixteen
          (stream-new_reader dapi answers ∙ e) in
      let h : OcfHeader S = record {
        schema = schema;
        codec = codec';
        meta = read.meta;
        sync = read.sync;
      } in
      let accepted : check_header k p read (resolved_options dcfg) ≡ inr h =
        header_accepted k p fresh default_config cfg api json sent dapi.cfg k_ok k read schema
          codec' (resolved_options dcfg) like parsed found in
      let made =
        new_decoder_ok k p answers dcfg dapi h r' over
          (read_header_ok k p r (resolved_options dcfg) h st.no_error accepted) in
      (
        _,
        made,
        record {
          steady = st;
          count = refl;
          values = new_reader-IsSteady dapi [] clean tt;
          block = stream-new_reader dapi [];
          sync = like.1;
          codec = refl;
          records = refl;
          bytes = refl;
        },
        left,
      )

  -- A block within the limits of the decoder, compressed and decompressed.
  abbrev pub IsStorable : Codec → List V → Type 0
  IsStorable codec b =
      let records = encodings values b in
      let packed = codec.encode_block records in
      IsLong (length b)
      × IsLong (length packed)
      × (IsWithin max_records (length b) × IsWithin max_bytes (length packed))
      × IsUnder (resolved_options dcfg).max_decompressed_bytes (length records)

  abbrev Accepts : Codec → Codec → List V → Type 0
  Accepts codec codec' = Accepted c values c_ok codec codec' marker max_records max_bytes sixteen

  module _ (codec codec' : Codec) (sound : IsSound p)
      (own_d : cfg.codec_options.shared_decoder ≡ none)
      (own_e : cfg.codec_options.shared_encoder ≡ none)
      (own_d' : dcfg.codec_options.shared_decoder ≡ none)
      (own_e' : dcfg.codec_options.shared_encoder ≡ none)
      (found : resolve_codec p (codec_of cfg api) cfg.codec_options ≡ inr codec)
      (found' : resolve_codec p (codec_of cfg api) (resolved_options dcfg) ≡ inr codec') where
    storable :
        (bs : List (List V))
        → All (λ b. 0 < length b) bs
        → All (IsStorable codec) bs
        → All (Accepts codec codec') bs
    storable [] h h' = tt
    storable (b ∷ bs) (some_values, h) ((few, short, limits, under), h') = (
      (
        some_values,
        few,
        short,
        limits,
        resolve_codec-Undoes p (codec_of cfg api) (encodings values b) cfg.codec_options
            (resolved_options dcfg) codec codec' sound own_d own_e own_d' own_e' found found' under,
      ),
      storable bs h h',
    )

    -- A container file over any lawful codec of its header.
    pub opens_file :
        (schema schema' : S) (marshal : S → Error ⊎ List ℕ) (vs : List V) (target : V)
        (answers : List ReadResult)
        → api.config_err ≡ none
        → cfg.encoding_config ≡ some api
        → cfg.schema_marshaler ≡ some marshal
        → marshal schema ≡ inr json
        → dapi.config_err ≡ none
        → dcfg.decoder_config ≡ some dapi
        → k.parse json ≡ inr schema'
        → All (IsStorable codec) (blocks values cfg.block_length cfg.block_size [] vs)
        → All IsSteadyAnswer answers
        → (encode_all c (first codec) vs).1.writer.out ≡ some (buffer (chunks answers))
        → (new_encoder_from k p fresh default_config (inr (some schema)) (plain (buffer [])) cfg
            ≡ inr (first codec))
          × ((encode_all c (first codec) vs).0 ≡ none)
          × ((d : Decoder) × (new_decoder k p (some answers) dcfg ≡ inr (schema', d))
              × Yields c values c_ok codec codec' marker max_records max_bytes sixteen vs
                  (decode_all c (suc (length vs)) d target))
    opens_file schema schema' marshal vs target answers clean over marshaled printed clean' over'
          parsed fits steady out =
        let bs : List (List V) = blocks values cfg.block_length cfg.block_size [] vs in
        let accepted =
          storable bs (blocks_some values cfg.block_length cfg.block_size [] vs) fits in
        let holds =
          first_encoder-Holds k p fresh default_config cfg api json sent dapi.cfg k_ok c values c_ok
            codec clean in
        let (done, h) =
          encode_all-Keeps c values c_ok codec marker cfg.block_length cfg.block_size vs
            (first codec) sent [] holds
            (writable c values c_ok codec codec' marker max_records max_bytes sixteen
              cfg.block_length cfg.block_size bs accepted) in
        let file : chunks answers ≡ sent ++ file_bytes values codec marker bs =
          taken (sym out ∙ h.out) in
        let (d, made, fresh_d, left) =
          decoder_made (file_bytes values codec marker bs) schema' codec codec' answers clean' over'
            steady file parsed found' in
        let same : (encode_all c (first codec) vs).1.writer.out
            ≡ some (buffer (sent ++ stream d.reader)) =
          h.out ∙ ap (λ t. some (buffer (sent ++ t))) (sym left) in
        let (_, read) =
          decode_all-encode_all c values c_ok codec codec' marker max_records max_bytes sixteen
            cfg.block_length cfg.block_size vs (first codec) d target sent holds accepted same
            fresh_d in
        (
          encoder_made k p fresh default_config cfg api json sent dapi.cfg k_ok schema marshal codec
              clean over marshaled printed found,
          done,
          (d, made, read),
        )
