-- ===== src/Ocf/Container.antt =====
-- ocf/ocf.go: a container file from newEncoder to NewDecoder, with the program's own codec of the header.
use avro.Prelude.{ℕ, ◌≡◌, refl, ◌⊎◌, List, length}
use avro.Prelude.Int.{ℤ}
use avro.Config.{Config}
use avro.Errors.{Error}
use avro.MapCodec.RoundTrip.{Iterates}
use avro.Ocf.{Codec, Header, ValueCodec}
use avro.Ocf.Codecs.{Packages}
use avro.Ocf.Decoder.{Decoder}
use avro.Ocf.Encoder.{Encoder}
use avro.Ocf.Opening.{HeaderCodec, Api, DecoderConfig}
use avro.Ocf.Creating.{EncoderConfig, new_header, header_sync}
use avro.Ocf.Headers.{IsHeaderLawful}
use avro.Ocf.HeaderFields.{header_codec}
use avro.Ocf.HeaderMeta.{Accepts, AllowsFixed, header_bytes, header_codec-IsHeaderLawful}
use avro.Ocf.Files.{IsLawful}
use avro.Ocf.Complete.{first, max_records, max_bytes, IsStorable}

module _ {S V : Type 0} (c : ValueCodec V) (values : V → List ℕ) (c_ok : IsLawful c values)
    (p : Packages) (fresh : List ℕ) (default_config : Config) (cfg : EncoderConfig S) (api : Api)
    (dapi : Api) (dcfg : DecoderConfig) (json : List ℕ) (parse : List ℕ → Error ⊎ S)
    (order : List (List ℕ × List ℕ)) (accepts : Accepts dapi.cfg order)
    (write_fixed : AllowsFixed api.cfg) (read_fixed : AllowsFixed dapi.cfg)
    (sixteen : length (header_sync cfg api fresh) ≡ 16) where
  -- ReadVal and WriteVal under HeaderSchema.
  abbrev pub codec_of_header : HeaderCodec S
  codec_of_header = header_codec order parse

  abbrev pub its_header : Header
  its_header = new_header cfg api codec_of_header p fresh json

  module _ (iterates : Iterates its_header.meta order) where
    abbrev pub lawful :
        IsHeaderLawful codec_of_header its_header
          (header_bytes api.cfg order its_header)
          api.cfg
          dapi.cfg
    lawful =
        header_codec-IsHeaderLawful parse api.cfg dapi.cfg order its_header accepts write_fixed
          read_fixed refl sixteen iterates

    abbrev pub first_one : Codec → Encoder
    first_one codec =
        first codec_of_header c values c_ok p fresh default_config cfg api json
          (header_bytes api.cfg order its_header) dapi lawful sixteen dcfg codec

    abbrev pub record_limit : ℤ
    record_limit =
        max_records codec_of_header c values c_ok p fresh default_config cfg api json
          (header_bytes api.cfg order its_header) dapi lawful sixteen dcfg

    abbrev pub byte_limit : ℤ
    byte_limit =
        max_bytes codec_of_header c values c_ok p fresh default_config cfg api json
          (header_bytes api.cfg order its_header) dapi lawful sixteen dcfg

    abbrev pub Storable : Codec → List V → Type 0
    Storable codec b =
        IsStorable codec_of_header c values c_ok p fresh default_config cfg api json
          (header_bytes api.cfg order its_header) dapi lawful sixteen dcfg codec b
