-- ===== src/Soe/Frames.antt =====
-- soe/basic.go: the frames of a codec.
use avro.Prelude.{
  ℕ, ◌≡◌, refl, ◌∙◌, ap, arith, inl, inr, Option, some, List, ◌++◌, append_assoc, length,
  bytes_equal, bytes_equal→≡, bytes_equal_refl, Sum-cases, Bool-cases, if◌then◌else◌, false, not,
}
use avro.Soe.{
  bad_fingerprint, SchemaMethods, Api, Codec, magic, parse_header, build_header,
  build_header_for_fingerprint, compute_fingerprint, new_codec_with_api, encode, decode,
  decode_unverified, decode_exact,
}
use avro.Soe.Header.{built, parse_framed}

-- What a header consists of, and a codec of NewCodecWithAPI.
header_of :
    {S : Type 0} (m : SchemaMethods S) (schema : Option S) (header : List ℕ)
    → build_header m schema ≡ inr header
    → (fp : List ℕ) × (compute_fingerprint m schema ≡ inr fp)
      × (header ≡ magic ++ fp)
      × (length fp ≡ 8)
unfolding build_header
header_of m schema header h = elim (Sum-cases (compute_fingerprint m schema)) [
  | inl (e, failed) ↦ absurd (ground (arith, failed))
  | inr (fp, done) ↦
      let b : build_header_for_fingerprint fp ≡ inr header = ground (arith, done) in
      let (same, eight) = built fp header b in (fp, done, same, eight)
]

module _ {S V : Type 0} (schema : Option S) (a : Api S V) (bytes fp payload own : List ℕ)
    (target : V) (p : parse_header bytes ≡ inr (fp, payload)) where
  decode_steps :
      decode (record { api = some a; schema = schema; header = magic ++ own }) bytes target ≡ (
        if not (bytes_equal fp own)
        then (some (bad_fingerprint fp own), target)
        else decode_exact (some a) schema payload target)
  unfolding decode
  decode_steps = rw (decode, p) refl

  decode_unverified_steps :
      decode_unverified
        (record { api = some a; schema = schema; header = magic ++ own })
        bytes
        target
      ≡ decode_exact (some a) schema payload target
  unfolding decode_unverified
  decode_unverified_steps = rw (decode_unverified, p) refl

module _ {S V : Type 0} (m : SchemaMethods S) (schema : Option S) (a : Api S V) (c : Codec S V)
    (made : new_codec_with_api m schema (some a) ≡ inr c) where
  pub made_of :
      (fp : List ℕ) × (compute_fingerprint m schema ≡ inr fp)
      × (length fp ≡ 8)
      × (c ≡ record { api = some a; schema = schema; header = magic ++ fp })
  made_of = elim (Sum-cases (build_header m schema)) [
    | inl (e, failed) ↦ absurd (unfold new_codec_with_api in (ground (arith, failed, made)))
    | inr (header, done) ↦
        let (fp, its, same, eight) = header_of m schema header done in
        (fp, its, eight, unfold new_codec_with_api in (ground (arith, done, same, made)))
  ]

  -- What Encode of it makes: the header, and what Marshal makes.
  pub encoded :
      (v : V) (bytes : List ℕ)
      → encode c v ≡ inr bytes
      → (fp payload : List ℕ) × (compute_fingerprint m schema ≡ inr fp)
        × (length fp ≡ 8)
        × (a.marshal schema v ≡ inr payload)
        × (bytes ≡ magic ++ (fp ++ payload))
        × (parse_header bytes ≡ inr (fp, payload))
  encoded v bytes h =
      let (fp, its, eight, same) = made_of in
      let run = rw same at h in
      elim (Sum-cases (a.marshal schema v)) [
        | inl (e, failed) ↦ absurd (unfold encode in (ground (arith, failed, run)))
        | inr (payload, done) ↦
            let split : bytes ≡ magic ++ (fp ++ payload) =
              unfold encode in (ground (arith, done, run, append_assoc magic fp payload)) in
            (fp, payload, its, eight, done, split, rw split (parse_framed fp payload eight))
      ]

  -- A frame that Encode of a codec made passes the fingerprint check of the same codec: Decode does what
  -- UnmarshalExact does under the codec's schema with the payload that Marshal made, and so does
  -- DecodeUnverified.
  pub decode-encode :
      (v target : V) (bytes : List ℕ)
      → encode c v ≡ inr bytes
      → (payload : List ℕ) × (a.marshal schema v ≡ inr payload)
        × (decode c bytes target ≡ decode_exact (some a) schema payload target)
        × (decode_unverified c bytes target ≡ decode_exact (some a) schema payload target)
  decode-encode v target bytes h =
      let (fp, payload, its, eight, done, split, p) = encoded v bytes h in
      let (own, its', eight', same) = made_of in
      let e : own ≡ fp = ground (arith, its, its') in
      (
        payload,
        done,
        ap (λ t. decode t bytes target) same
            ∙ decode_steps schema a bytes fp payload own target p
            ∙ rw (e, bytes_equal_refl fp) refl,
        ap (λ t. decode_unverified t bytes target) same
            ∙ decode_unverified_steps schema a bytes fp payload own target p,
      )

-- A codec refuses the frames of a codec of another schema fingerprint: Decode returns the error with
-- both fingerprints, and leaves its target alone.
pub decode-foreign :
    {S V : Type 0} (m : SchemaMethods S) (schema schema' : Option S) (a a' : Api S V)
    (c c' : Codec S V) (v target : V) (bytes fp fp' : List ℕ)
    → new_codec_with_api m schema (some a) ≡ inr c
    → new_codec_with_api m schema' (some a') ≡ inr c'
    → compute_fingerprint m schema ≡ inr fp
    → compute_fingerprint m schema' ≡ inr fp'
    → ¬ (fp ≡ fp')
    → encode c v ≡ inr bytes
    → decode c' bytes target ≡ (some (bad_fingerprint fp fp'), target)
decode-foreign m schema schema' a a' c c' v target bytes fp fp' made made' its its' differ h =
    let (first, payload, is_first, eight, done, split, p) = encoded m schema a c made v bytes h in
    let (own, is_own, eight', same) = made_of m schema' a' c' made' in
    let e : first ≡ fp = ground (arith, its, is_first) in
    let e' : own ≡ fp' = ground (arith, its', is_own) in
    let apart : bytes_equal fp fp' ≡ false = elim (Bool-cases (bytes_equal fp fp')) [
      | inl equal ↦ absurd (differ (bytes_equal→≡ fp fp' equal))
      | inr other ↦ other
    ] in
    ap (λ t. decode t bytes target) same
    ∙ decode_steps schema' a' bytes first payload own target p
    ∙ rw (e, e', apart) refl
