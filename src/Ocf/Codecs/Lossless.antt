-- ===== src/Ocf/Codecs/Lossless.antt =====
-- ocf/codec.go: decompression undoes compression.
use avro.Prelude.{
  ℕ, zero, suc, ◌-◌, ◌^◌, ◌≤◌, ◌<◌, ◌≡◌, ◌⊎◌, refl, sym, ap, ◌∙◌, subst, arith, inl, inr, Option,
  none, some, Bool, true, false, ◌||◌, List, [], ◌++◌, length, length-append, Bool-cases, Sum-cases,
  bytes_equal, if◌then◌else◌, ltb,
}
use avro.Prelude.Int.{ℤ, pos, negsuc, ◌≤ℤ◌, ltb_ℤ, pos_part}
use avro.Errors.{Error}
use avro.RoundTrip.Bytes.{front, back}
use avro.Ocf.{Codec}
use avro.Ocf.Codecs.{
  Packages, CodecOptions, ZstdDecoder, ZstdEncoder, exceeds, null_decode, read_all, deflate_decode,
  checksum_ieee, put_uint32, big_endian, snappy_limit, snappy_check, snappy_unpack, snappy_decode,
  snappy_encode, zstd_decode, zstd_with, new_zstandard_codec, resolve_codec, null_codec,
  deflate_codec, snappy_codec, zstd_codec, null_name, deflate_name, snappy_name, zstandard_name,
}

abbrev pub IsUnder : ℤ → ℕ → Type 0
IsUnder max n = (max ≤ℤ pos 0) ⊎ (pos n ≤ℤ max)

abbrev pub bad_level : ℤ → Bool
bad_level level = ltb_ℤ level (negsuc 1) || ltb_ℤ (pos 9) level

-- What the documentation of the packages promises.
pub record IsSound (p : Packages) : Type 0 where
  pub flate :
      (level : ℤ) (b : List ℕ) → bad_level level ≡ false → p.inflate (p.deflate level b) ≡ (b, none)
  pub flate_close :
      (level : ℤ) (b : List ℕ)
      → bad_level level ≡ false
      → p.inflate_close (p.deflate level b) ≡ none
  pub snappy : (b : List ℕ) → p.snappy_decode (p.snappy_encode b) ≡ inr b
  pub snappy_length : (b : List ℕ) → p.snappy_decoded_len (p.snappy_encode b) ≡ inr (length b)
  pub snappy_some : (b : List ℕ) → 0 < length (p.snappy_encode b)
  pub zstd :
      (cap : Option ℕ) (d : ZstdDecoder) (e : ZstdEncoder) (b : List ℕ)
      → p.zstd_reader cap ≡ inr d
      → p.zstd_writer ≡ inr e
      → (cap ≡ none) ⊎ ((n : ℕ) × (cap ≡ some n) × (length b ≤ n))
      → d.decode_all (e.encode_all b) ≡ inr b

under : (max : ℤ) (n : ℕ) → IsUnder max n → exceeds n max ≡ false
under max n h = ground (arith, h)

null_lossless : (max : ℤ) (b : List ℕ) → IsUnder max (length b) → null_decode max b ≡ inr b
unfolding null_decode
null_lossless max b h = rw (under max (length b) h) refl

read_all_lem : (max : ℤ) (b : List ℕ) → IsUnder max (length b) → read_all max (b, none) ≡ (b, none)
unfolding read_all
read_all_lem (pos max) b h = ground (arith, h)
read_all_lem (negsuc max) b h = ground (arith, h)

deflate_steps :
    (p : Packages) (max : ℤ) (b packed : List ℕ)
    → read_all max (p.inflate packed) ≡ (b, none)
    → exceeds (length b) max ≡ false
    → p.inflate_close packed ≡ none
    → deflate_decode p max packed ≡ inr b
unfolding deflate_decode
deflate_steps p max b packed whole fits close = ground (arith, whole, fits, close)

pub put_uint32_lem : (v : ℕ) → v < 2 ^ 32 → big_endian 0 (put_uint32 v) ≡ v
unfolding put_uint32 big_endian
put_uint32_lem v h = omega arith

checksum_ieee-lt : (b : List ℕ) → checksum_ieee b < 2 ^ 32
unfolding checksum_ieee
checksum_ieee-lt b = omega arith

length-put_uint32 : (v : ℕ) → length (put_uint32 v) ≡ 4
unfolding put_uint32
length-put_uint32 v = refl

snappy_fits :
    (p : Packages) (max : ℤ) (block : List ℕ) (n : ℕ)
    → p.snappy_decoded_len block ≡ inr n
    → IsUnder max n
    → snappy_limit p max block ≡ none
unfolding snappy_limit
snappy_fits p max block n h fits = ground (arith, h, fits)

snappy_check_lem :
    (b crc : List ℕ) → big_endian 0 crc ≡ checksum_ieee b → snappy_check crc (inr b) ≡ inr b
unfolding snappy_check
snappy_check_lem b crc h = ground (arith, h)

module _ (p : Packages) (ok : IsSound p) (max : ℤ) (b : List ℕ)
    (fits : IsUnder max (length b)) where
  deflate_lossless :
      (level : ℤ) → bad_level level ≡ false → deflate_decode p max (p.deflate level b) ≡ inr b
  deflate_lossless level good =
      deflate_steps p max b (p.deflate level b)
        (ap (λ t. read_all max t) (ok.flate level b good) ∙ read_all_lem max b fits)
        (under max (length b) fits) (ok.flate_close level b good)

  unpack_lossless : snappy_unpack p max (p.snappy_encode b) (put_uint32 (checksum_ieee b)) ≡ inr b
  unfolding snappy_unpack
  unpack_lossless =
      rw
        (
          snappy_fits p max (p.snappy_encode b) (length b) (ok.snappy_length b) fits,
          snappy_unpack,
          ok.snappy b,
        )
        (snappy_check_lem b (put_uint32 (checksum_ieee b))
          (put_uint32_lem (checksum_ieee b) (checksum_ieee-lt b)))

  snappy_lossless : snappy_decode p max (snappy_encode p b) ≡ inr b
  unfolding snappy_decode snappy_encode
  snappy_lossless =
      let block : List ℕ = p.snappy_encode b in
      let crc : List ℕ = put_uint32 (checksum_ieee b) in
      let total : length (block ++ crc) - 4 ≡ length block =
        omega (arith, length-append block crc, length-put_uint32 (checksum_ieee b)) in
      let enough : ltb (length (block ++ crc)) 5 ≡ false =
        ground
          (arith, length-append block crc, length-put_uint32 (checksum_ieee b), ok.snappy_some b) in
      rw (enough, total, front block crc, back block crc) unpack_lossless

zstd_steps :
    (d : ZstdDecoder) (max : ℤ) (b packed : List ℕ)
    → d.decode_all packed ≡ inr b
    → exceeds (length b) max ≡ false
    → zstd_decode d max packed ≡ inr b
unfolding zstd_decode
zstd_steps d max b packed whole fits = ground (arith, whole, fits)

abbrev cap_of : ℤ → Option ℕ
cap_of max = if ltb_ℤ (pos 0) max then some (pos_part max) else none

cap_fits :
    (max : ℤ) (n : ℕ)
    → IsUnder max n
    → (cap_of max ≡ none) ⊎ ((m : ℕ) × (cap_of max ≡ some m) × (n ≤ m))
cap_fits (negsuc max) n h = inl (ground arith)
cap_fits (pos zero) n h = inl (ground arith)
cap_fits (pos (suc max)) n (inl off) = absurd (omega arith)
cap_fits (pos (suc max)) n (inr fits) = inr (suc max, ground arith, omega arith)

-- The parts of a ZStandardCodec without instances of the client.
zstd_parts :
    (p : Packages) (o : CodecOptions) (c : Codec)
    → o.shared_decoder ≡ none
    → o.shared_encoder ≡ none
    → new_zstandard_codec p o ≡ inr c
    → (d : ZstdDecoder) × (e : ZstdEncoder) × (p.zstd_reader (cap_of o.max_decompressed_bytes)
        ≡ inr d)
      × (p.zstd_writer ≡ inr e)
      × (c ≡ zstd_codec d e false o.max_decompressed_bytes)
unfolding new_zstandard_codec zstd_with
zstd_parts p o c own_d own_e h =
    elim (Sum-cases (p.zstd_reader (cap_of o.max_decompressed_bytes))) [
      | inl (x, failed) ↦ absurd (ground (arith, failed, own_d, own_e, h))
      | inr (d, made) ↦ elim (Sum-cases p.zstd_writer) [
        | inl (x, failed) ↦ absurd (ground (arith, made, failed, own_d, own_e, h))
        | inr (e, made') ↦ (d, e, made, made', ground (arith, made, made', own_d, own_e, h))
      ]
    ]

abbrev Undoes : Codec → Codec → List ℕ → Type 0
Undoes c c' b = c'.decode_block (c.encode_block b) ≡ inr b

module _ (p : Packages) (ok : IsSound p) (o o' : CodecOptions) (b : List ℕ)
    (fits : IsUnder o'.max_decompressed_bytes (length b)) (c c' : Codec) where
  zstd_lossless :
      o.shared_decoder ≡ none
      → o.shared_encoder ≡ none
      → o'.shared_decoder ≡ none
      → o'.shared_encoder ≡ none
      → new_zstandard_codec p o ≡ inr c
      → new_zstandard_codec p o' ≡ inr c'
      → Undoes c c' b
  zstd_lossless own_d own_e own_d' own_e' h h' =
      let (d, e, made_d, made_e, same) = zstd_parts p o c own_d own_e h in
      let (d', e', made_d', made_e', same') = zstd_parts p o' c' own_d' own_e' h' in
      let max : ℤ = o'.max_decompressed_bytes in
      rw (same, same')
        (zstd_steps d' max b (e.encode_all b)
          (ok.zstd (cap_of max) d' e b made_d' made_e (cap_fits max (length b) fits))
          (under max (length b) fits))

  by_codec :
      (k k' : Codec)
      → ◌≡◌ {A = Error ⊎ Codec} (inr k) (inr c)
      → ◌≡◌ {A = Error ⊎ Codec} (inr k') (inr c')
      → Undoes k k' b
      → Undoes c c' b
  by_codec k k' h h' undoes =
      let same : k ≡ c = ground (arith, h) in
      let same' : k' ≡ c' = ground (arith, h') in
      subst (λ t. t.decode_block (c.encode_block b) ≡ inr b) same'
        (subst (λ (t : Codec). k'.decode_block (t.encode_block b) ≡ inr b) same undoes)

abbrev is_null : List ℕ → Bool
is_null name = bytes_equal name null_name || bytes_equal name []

module _ (p : Packages) (name : List ℕ) (o : CodecOptions) where
  resolve_null :
      is_null name ≡ true → resolve_codec p name o ≡ inr (null_codec o.max_decompressed_bytes)
  unfolding resolve_codec
  resolve_null h = rw h refl

  resolve_deflate :
      (c : Codec)
      → is_null name ≡ false
      → bytes_equal name deflate_name ≡ true
      → resolve_codec p name o ≡ inr c
      → (◌≡◌ {A = Error ⊎ Codec}
          (inr (deflate_codec p o.deflate_compression_level o.max_decompressed_bytes))
          (inr c))
        × (bad_level o.deflate_compression_level ≡ false)
  unfolding resolve_codec
  resolve_deflate c h h' r = elim (Bool-cases (bad_level o.deflate_compression_level)) [
    | inl bad ↦ absurd (ground (arith, bad, rw (h, h') at r))
    | inr good ↦ (rw (h, h', good) at r, good)
  ]

  resolve_snappy :
      is_null name ≡ false
      → bytes_equal name deflate_name ≡ false
      → bytes_equal name snappy_name ≡ true
      → resolve_codec p name o ≡ inr (snappy_codec p o.max_decompressed_bytes)
  unfolding resolve_codec
  resolve_snappy h h' h'' = rw (h, h', h'') refl

  resolve_zstandard :
      (c : Codec)
      → is_null name ≡ false
      → bytes_equal name deflate_name ≡ false
      → bytes_equal name snappy_name ≡ false
      → resolve_codec p name o ≡ inr c
      → new_zstandard_codec p o ≡ inr c
  unfolding resolve_codec
  resolve_zstandard c h h' h'' r = elim (Bool-cases (bytes_equal name zstandard_name)) [
    | inl zstd ↦ rw (h, h', h'', zstd) at r
    | inr other ↦ absurd (ground (arith, rw (h, h', h'', other) at r))
  ]

-- Codecs that resolveCodec finds under one name undo each other, whichever of the four they are and
-- whatever their levels and options: Decode of the one returns the bytes that Encode of the other was
-- given, where these are within the limit of the one that decodes. A ZStandardCodec must have no
-- instances of the client.
pub resolve_codec-Undoes :
    (p : Packages) (name b : List ℕ) (o o' : CodecOptions) (c c' : Codec)
    → IsSound p
    → o.shared_decoder ≡ none
    → o.shared_encoder ≡ none
    → o'.shared_decoder ≡ none
    → o'.shared_encoder ≡ none
    → resolve_codec p name o ≡ inr c
    → resolve_codec p name o' ≡ inr c'
    → IsUnder o'.max_decompressed_bytes (length b)
    → c'.decode_block (c.encode_block b) ≡ inr b
resolve_codec-Undoes p name b o o' c c' ok own_d own_e own_d' own_e' r r' fits =
    let max : ℤ = o'.max_decompressed_bytes in
    elim (Bool-cases (is_null name)) [
      | inl null ↦
          by_codec p ok o o' b fits c c' _ _ (sym (resolve_null p name o null) ∙ r)
            (sym (resolve_null p name o' null) ∙ r') (null_lossless max b fits)
      | inr n ↦ elim (Bool-cases (bytes_equal name deflate_name)) [
        | inl d ↦
            let (found, good) = resolve_deflate p name o c n d r in
            by_codec p ok o o' b fits c c' _ _ found (resolve_deflate p name o' c' n d r').0
              (deflate_lossless p ok max b fits o.deflate_compression_level good)
        | inr d ↦ elim (Bool-cases (bytes_equal name snappy_name)) [
          | inl s ↦
              by_codec p ok o o' b fits c c' _ _ (sym (resolve_snappy p name o n d s) ∙ r)
                (sym (resolve_snappy p name o' n d s) ∙ r') (snappy_lossless p ok max b fits)
          | inr s ↦
              zstd_lossless p ok o o' b fits c c' own_d own_e own_d' own_e'
                (resolve_zstandard p name o c n d s r) (resolve_zstandard p name o' c' n d s r')
        ]
      ]
    ]
