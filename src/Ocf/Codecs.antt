-- ===== src/Ocf/Codecs.antt =====
-- ocf/codec.go: the compression codecs. The packages flate, snappy and zstd are not part of the
-- repository: what the codecs call of them is the record Packages. A string is the list of its bytes.
pub mod Lossless
use avro.Prelude.{
  ℕ, zero, suc, ◌+◌, ◌-◌, ◌*◌, ◌/◌, ◌%◌, ◌^◌, bit_and, bit_xor, String, Bool, true, false, not,
  ◌&&◌, ◌||◌, ◌⊎◌, inl, inr, Option, none, some, List, [], ◌∷◌, ◌++◌, if◌then◌else◌, ltb, ◌==◌,
  length, map, take, drop, bytes_equal,
}
use avro.Prelude.Int.{ℤ, pos, negsuc, ltb_ℤ, pos_part}
use avro.Config.{max_int}
use avro.Errors.{Error, message, formatted, wrap}
use avro.Ocf.{Codec}

pub record ZstdDecoder : Type 0 where
  pub decode_all : List ℕ → Error ⊎ List ℕ

pub record ZstdEncoder : Type 0 where
  pub encode_all : List ℕ → List ℕ
  pub close : Option Error

pub record Packages : Type 0 where
  -- All that a reader of flate gives, and the error after it, if any; and its Close.
  pub inflate : List ℕ → List ℕ × Option Error
  pub inflate_close : List ℕ → Option Error
  -- What a writer of flate makes at a level.
  pub deflate : ℤ → List ℕ → List ℕ
  pub snappy_decoded_len : List ℕ → Error ⊎ ℕ
  pub snappy_decode : List ℕ → Error ⊎ List ℕ
  pub snappy_encode : List ℕ → List ℕ
  -- A new decoder under a limit, where there is one, and a new encoder, with the options of the client.
  pub zstd_reader : Option ℕ → Error ⊎ ZstdDecoder
  pub zstd_writer : Error ⊎ ZstdEncoder

pub record CodecOptions : Type 0 where
  pub deflate_compression_level : ℤ
  pub max_decompressed_bytes : ℤ
  -- The pre-created instances of a client.
  pub shared_decoder : Option ZstdDecoder
  pub shared_encoder : Option ZstdEncoder

-- "null", "deflate", "snappy" and "zstandard".
abbrev pub null_name : List ℕ
null_name = 110 ∷ 117 ∷ 108 ∷ 108 ∷ []

abbrev pub deflate_name : List ℕ
deflate_name = 100 ∷ 101 ∷ 102 ∷ 108 ∷ 97 ∷ 116 ∷ 101 ∷ []

abbrev pub snappy_name : List ℕ
snappy_name = 115 ∷ 110 ∷ 97 ∷ 112 ∷ 112 ∷ 121 ∷ []

abbrev pub zstandard_name : List ℕ
zstandard_name = 122 ∷ 115 ∷ 116 ∷ 97 ∷ 110 ∷ 100 ∷ 97 ∷ 114 ∷ 100 ∷ []

-- `max > 0 && n > max`
abbrev pub exceeds : ℕ → ℤ → Bool
exceeds n max = ltb_ℤ (pos 0) max && ltb_ℤ max (pos n)

unfoldable pub null_decode : ℤ → List ℕ → Error ⊎ List ℕ
null_decode max b =
    if exceeds (length b) max
    then inl (formatted "null: decompressed size %d exceeds %d bytes" (pos (length b) ∷ max ∷ []))
    else inr b

abbrev null_codec : ℤ → Codec
null_codec max = record { decode_block = null_decode max; encode_block = λ b. b; closer = none }

-- `io.ReadAll` of the reader, which a limit of `max` bytes and one more may cut.
unfoldable pub read_all : ℤ → List ℕ × Option Error → List ℕ × Option Error
read_all max (data_read, err) =
    if ltb_ℤ (pos 0) max && ltb_ℤ max (pos max_int) && ltb (pos_part max) (length data_read)
    then (take (suc (pos_part max)) data_read, none)
    else (data_read, err)

unfoldable pub deflate_decode : Packages → ℤ → List ℕ → Error ⊎ List ℕ
deflate_decode p max b =
    let (data_read, read_err) = read_all max (p.inflate b) in
    elim read_err [
      | some e ↦ inl e
      | none ↦
          if exceeds (length data_read) max
          then inl (formatted "deflate: decompressed size exceeds %d bytes" (max ∷ []))
          else elim (p.inflate_close b) [ some e ↦ inl e | none ↦ inr data_read ]
    ]

abbrev deflate_codec : Packages → ℤ → ℤ → Codec
deflate_codec p level max = record {
  decode_block = deflate_decode p max;
  encode_block = p.deflate level;
  closer = none;
}

-- `crc32.ChecksumIEEE` of Go's standard library, a bit at a time; 0xedb88320 is its polynomial.
unfoldable pub crc_bits : ℕ → ℕ → ℕ
crc_bits zero crc = crc
crc_bits (suc n) crc =
    crc_bits n (if bit_and crc 1 == 1 then bit_xor (crc / 2) 0xedb8_8320 else crc / 2)

unfoldable pub crc_update : ℕ → List ℕ → ℕ
crc_update crc [] = crc
crc_update crc (b ∷ bs) = crc_update (crc_bits 8 (bit_xor crc b)) bs

unfoldable pub checksum_ieee : List ℕ → ℕ
checksum_ieee bytes = bit_xor (crc_update 0xffff_ffff bytes) 0xffff_ffff % 2 ^ 32

-- `binary.BigEndian.PutUint32` and `Uint32`.
unfoldable pub put_uint32 : ℕ → List ℕ
put_uint32 v = v / 2 ^ 24 % 256 ∷ v / 2 ^ 16 % 256 ∷ v / 2 ^ 8 % 256 ∷ v % 256 ∷ []

unfoldable pub big_endian : ℕ → List ℕ → ℕ
big_endian v [] = v
big_endian v (b ∷ bs) = big_endian (v * 256 + b) bs

unfoldable pub snappy_limit : Packages → ℤ → List ℕ → Option Error
snappy_limit p max block =
    if not (ltb_ℤ (pos 0) max) then none else elim (p.snappy_decoded_len block) [
      | inl e ↦ some e
      | inr decoded_length ↦
          if ltb_ℤ max (pos decoded_length)
          then some
              (formatted "snappy: decoded size %d exceeds %d bytes" (pos decoded_length ∷ max ∷ []))
          else none
    ]

unfoldable pub snappy_check : List ℕ → Error ⊎ List ℕ → Error ⊎ List ℕ
snappy_check crc (inl e) = inl e
snappy_check crc (inr dst) =
    if not (checksum_ieee dst == big_endian 0 crc)
    then inl (message "snappy checksum mismatch")
    else inr dst

unfoldable pub snappy_unpack : Packages → ℤ → List ℕ → List ℕ → Error ⊎ List ℕ
snappy_unpack p max block crc = elim (snappy_limit p max block) [
  | some e ↦ inl e
  | none ↦ snappy_check crc (p.snappy_decode block)
]

unfoldable pub snappy_decode : Packages → ℤ → List ℕ → Error ⊎ List ℕ
snappy_decode p max b =
    let l = length b in
    if ltb l 5
    then inl (message "block does not contain snappy checksum")
    else snappy_unpack p max (take (l - 4) b) (drop (l - 4) b)

unfoldable pub snappy_encode : Packages → List ℕ → List ℕ
snappy_encode p b = p.snappy_encode b ++ put_uint32 (checksum_ieee b)

abbrev snappy_codec : Packages → ℤ → Codec
snappy_codec p max = record {
  decode_block = snappy_decode p max;
  encode_block = snappy_encode p;
  closer = none;
}

unfoldable pub zstd_decode : ZstdDecoder → ℤ → List ℕ → Error ⊎ List ℕ
zstd_decode decoder max b = elim (decoder.decode_all b) [
  | inl e ↦ inl e
  | inr bytes ↦
      if exceeds (length bytes) max
      then inl
          (formatted "zstd: decompressed size %d exceeds %d bytes" (pos (length bytes) ∷ max ∷ []))
      else inr bytes
]

-- Close ends the encoder that was not given by the client; ending a decoder gives no error.
abbrev zstd_codec : ZstdDecoder → ZstdEncoder → Bool → ℤ → Codec
zstd_codec decoder encoder shared_encoder max = record {
  decode_block = zstd_decode decoder max;
  encode_block = encoder.encode_all;
  closer = some (if shared_encoder then none else encoder.close);
}

unfoldable pub zstd_with : Packages → CodecOptions → ZstdDecoder → Error ⊎ Codec
zstd_with p opts decoder = elim opts.shared_encoder [
  | some encoder ↦ inr (zstd_codec decoder encoder true opts.max_decompressed_bytes)
  | none ↦ elim p.zstd_writer [
    | inl e ↦ inl (wrap "zstd: create encoder" e)
    | inr encoder ↦ inr (zstd_codec decoder encoder false opts.max_decompressed_bytes)
  ]
]

unfoldable pub new_zstandard_codec : Packages → CodecOptions → Error ⊎ Codec
new_zstandard_codec p opts =
    let max = opts.max_decompressed_bytes in
    elim opts.shared_decoder [
      | some decoder ↦
          if ltb_ℤ (pos 0) max
          then inl (
              message
                "zstd: a shared decoder cannot guarantee the decompressed block limit; disable the limit explicitly or use decoder options")
          else zstd_with p opts decoder
      | none ↦
          let cap = if ltb_ℤ (pos 0) max then some (pos_part max) else none in
          elim (p.zstd_reader cap) [
            | inl e ↦ inl (wrap "zstd: create decoder" e)
            | inr decoder ↦ zstd_with p opts decoder
          ]
    ]

-- `flate.HuffmanOnly` is -2, and `flate.BestCompression` 9.
unfoldable pub resolve_codec : Packages → List ℕ → CodecOptions → Error ⊎ Codec
resolve_codec p name opts =
    let max = opts.max_decompressed_bytes in
    let level = opts.deflate_compression_level in
    if bytes_equal name null_name || bytes_equal name []
    then inr (null_codec max)
    else if bytes_equal name deflate_name
    then (if ltb_ℤ level (negsuc 1) || ltb_ℤ (pos 9) level
        then inl (formatted "deflate: invalid compression level %d" (level ∷ []))
        else inr (deflate_codec p level max))
    else if bytes_equal name snappy_name
    then inr (snappy_codec p max)
    else if bytes_equal name zstandard_name
    then new_zstandard_codec p opts
    else inl (formatted "unknown codec %s" (map pos name))
