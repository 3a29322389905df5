-- ===== src/Ocf/Opening.antt =====
-- ocf/ocf.go: the constructors, and the header of a file, over any codec of it; HeaderFields has the one of
-- HeaderSchema. The parsing and printing of schemas, the random source and the operating system's files are
-- parameters.
use avro.Prelude.{
  ℕ, zero, suc, not, ◌&&◌, ◌⊎◌, inl, inr, Option, none, some, List, [], ◌∷◌, if◌then◌else◌, length,
  drop, ◌++◌, bytes_equal,
}
use avro.Prelude.Int.{ℤ, pos, ltb_ℤ}
use avro.Config.{Config}
use avro.Errors.{Error, message, wrap}
use avro.Reader.State.{ReadResult, Reader, new_reader, peek, has_error}
use avro.Reader.Varint.{read_long}
use avro.Reader.Values.{read}
use avro.Reader.Skip.{skip_n_bytes_int64}
use avro.Writer.{Writer}
use avro.MapCodec.{GoMap}
use avro.Ocf.{
  Codec, Header, magic_bytes, resolve_limit, default_max_block_bytes,
  default_max_decompressed_block_bytes, default_max_block_records,
}
use avro.Ocf.Codecs.{Packages, CodecOptions, resolve_codec}
use avro.Ocf.Decoder.{Decoder, at_eof}

-- "avro.schema" and "avro.codec".
abbrev pub schema_key : List ℕ
schema_key = 97 ∷ 118 ∷ 114 ∷ 111 ∷ 46 ∷ 115 ∷ 99 ∷ 104 ∷ 101 ∷ 109 ∷ 97 ∷ []

abbrev pub codec_key : List ℕ
codec_key = 97 ∷ 118 ∷ 114 ∷ 111 ∷ 46 ∷ 99 ∷ 111 ∷ 100 ∷ 101 ∷ 99 ∷ []

-- `h.Meta[key]`: no bytes for a key that is missing.
abbrev pub value_or_nil : Option (List ℕ) → List ℕ
value_or_nil none = []
value_or_nil (some value) = value

unfoldable pub meta_value : GoMap (List ℕ) → List ℕ → List ℕ
meta_value meta key = value_or_nil (meta key)

-- ReadVal and WriteVal under HeaderSchema, and the parsing of a schema.
pub record HeaderCodec (S : Type 0) : Type 0 where
  pub read_header_val : Reader → Header × Reader
  pub write_header_val : Header → Writer → Writer
  pub parse : List ℕ → Error ⊎ S

pub record OcfHeader (S : Type 0) : Type 0 where
  pub schema : S
  pub codec : Codec
  pub meta : GoMap (List ℕ)
  pub sync : List ℕ

module _ {S : Type 0} (k : HeaderCodec S) (p : Packages) where
  unfoldable pub check_header : Header → CodecOptions → Error ⊎ OcfHeader S
  check_header h opts =
      if not (bytes_equal h.magic magic_bytes)
      then inl (message "invalid avro file")
      else elim (k.parse (meta_value h.meta schema_key)) [
        | inl e ↦ inl e
        | inr schema ↦ elim (resolve_codec p (meta_value h.meta codec_key) opts) [
          | inl e ↦ inl e
          | inr codec ↦
              inr (record { schema = schema; codec = codec; meta = h.meta; sync = h.sync })
        ]
      ]

  unfoldable pub read_header : Reader → CodecOptions → (Error ⊎ OcfHeader S) × Reader
  read_header r opts =
      let (h, r') = k.read_header_val r in
      elim r'.error [
        | some e ↦ (inl (wrap "unexpected error" e), r')
        | none ↦ (check_header h opts, r')
      ]

-- An API, with the error of a reader or writer over it.
pub record Api : Type 0 where
  pub cfg : Config
  pub config_err : Option Error

pub record DecoderConfig : Type 0 where
  pub decoder_config : Option Api
  pub codec_options : CodecOptions
  pub max_block_bytes : ℤ
  pub max_decompressed_block_bytes : ℤ
  pub max_block_records : ℤ

abbrev pub resolved_options : DecoderConfig → CodecOptions
resolved_options cfg = record cfg.codec_options {
  max_decompressed_bytes =
      resolve_limit cfg.max_decompressed_block_bytes default_max_decompressed_block_bytes;
}

module _ {S : Type 0} (k : HeaderCodec S) (p : Packages) where
  abbrev pub opened : DecoderConfig → Api → (Error ⊎ OcfHeader S) × Reader → Error ⊎ (S × Decoder)
  opened cfg api (inl e, r) = inl (wrap "decoder" e)
  opened cfg api (inr h, r) = inr (
    h.schema,
    record {
      reader = r;
      decoder = new_reader api.cfg api.config_err (some []);
      meta = h.meta;
      sync = h.sync;
      codec = h.codec;
      count = pos 0;
      max_block_bytes = resolve_limit cfg.max_block_bytes default_max_block_bytes;
      max_block_records = resolve_limit cfg.max_block_records default_max_block_records;
    },
  )

  unfoldable pub new_decoder : Option (List ReadResult) → DecoderConfig → Error ⊎ (S × Decoder)
  new_decoder none cfg = inl (message "reader cannot be nil")
  new_decoder (some answers) cfg = elim cfg.decoder_config [
    | none ↦ inl (message "decoder config cannot be nil")
    | some api ↦
        opened cfg api (
          read_header k p (new_reader api.cfg api.config_err (some answers)) (resolved_options cfg))
  ]

-- `var synMark [16]byte`, and its bytes once it is filled as far as `mark` goes.
abbrev pub zero_mark : List ℕ
zero_mark = 0 ∷ 0 ∷ 0 ∷ 0 ∷ 0 ∷ 0 ∷ 0 ∷ 0 ∷ 0 ∷ 0 ∷ 0 ∷ 0 ∷ 0 ∷ 0 ∷ 0 ∷ 0 ∷ []

abbrev pub filled : List ℕ → List ℕ
filled mark = mark ++ drop (length mark) zero_mark

-- The loop of skipToEnd. Each round takes a byte at least, or ends.
unfoldable pub skip_mark : Reader → List ℕ → Reader
skip_mark r sync =
    let (mark, r') = read 16 r in
    if not (bytes_equal sync (filled mark)) && not (at_eof r'.error)
    then record r' { error = some (message "invalid block") }
    else r'

unfoldable pub skip_to_end : ℕ → Reader → List ℕ → Option Error × Reader
skip_to_end zero r sync = (some Error.diverged, r)
skip_to_end (suc fuel) r₀ sync =
    let r = (peek r₀).1 in
    let (count, r₁) = read_long r in
    let (size, r₂) = read_long r₁ in
    let r₃ = skip_n_bytes_int64 size r₂ in
    let rest = skip_to_end fuel (skip_mark r₃ sync) sync in
    if at_eof r.error
    then (none, r)
    else if has_error r
    then (r.error, r)
    else if has_error r₁
    then (r₁.error, r₁)
    else if ltb_ℤ count (pos 0)
    then (some (message "ocf decoder: negative record count"), r₁)
    else if ltb_ℤ size (pos 0)
    then (some (message "ocf decoder: negative block size"), r₂)
    else if has_error r₃
    then (r₃.error, r₃)
    else rest
