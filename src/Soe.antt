-- ===== src/Soe.antt =====
-- soe/: single-object encoding, a payload behind the fingerprint of its schema. Schemas, the API of
-- the codecs and a resolver are interfaces of Go, so their methods are fields and parameters here; a
-- value of such an interface that may be nil is an Option.
pub mod Header
pub mod Frames
pub mod Store
use avro.Prelude.{
  ℕ, Bool, true, false, not, ◌⊎◌, inl, inr, Option, none, some, List, [], ◌∷◌, ◌++◌, if◌then◌else◌,
  ltb, ◌==◌, length, take, drop, bytes_equal,
}
use avro.Reader.Values.{little_endian}

pub data SoeError : Type 0 where
  too_short : List ℕ → SoeError
  invalid_magic : List ℕ → SoeError
  bad_fingerprint_length : ℕ → SoeError
  bad_fingerprint : List ℕ → List ℕ → SoeError
  invalid_length unknown_schema nil_schema nil_api nil_resolver exact_api : SoeError
  -- An error that a method of an interface returned.
  external : ℕ → SoeError
  -- `fmt.Errorf("resolver: %w", err)`.
  resolver : SoeError → SoeError

abbrev pub Result {ℓ} : Type ℓ → Type ℓ
Result A = SoeError ⊎ A

-- The methods of a Schema that the package calls: FingerprintUsing(CRC64AvroLE).
pub record SchemaMethods (S : Type 0) : Type 0 where
  pub fingerprint_using : S → Result (List ℕ)

-- The methods of avro.API that the package calls. UnmarshalExact writes to its target, and exists
-- where `is_exact` holds.
pub record Api (S V : Type 0) : Type 0 where
  pub marshal : Option S → V → Result (List ℕ)
  pub is_exact : Bool
  pub unmarshal_exact : Option S → List ℕ → V → Option SoeError × V

abbrev pub magic : List ℕ
magic = 0xc3 ∷ 0x01 ∷ []

unfoldable pub parse_header : List ℕ → Result (List ℕ × List ℕ)
parse_header bytes =
    if ltb (length bytes) 10
    then inl (too_short bytes)
    else if not (bytes_equal (take 2 bytes) magic)
    then inl (invalid_magic (take 2 bytes))
    else inr (take 8 (drop 2 bytes), drop 10 bytes)

unfoldable pub build_header_for_fingerprint : List ℕ → Result (List ℕ)
build_header_for_fingerprint fingerprint =
    if not (length fingerprint == 8)
    then inl (bad_fingerprint_length (length fingerprint))
    else inr (magic ++ fingerprint)

module _ {S V : Type 0} where
  unfoldable pub decode_exact : Option (Api S V) → Option S → List ℕ → V → Option SoeError × V
  decode_exact none schema bytes v = (some exact_api, v)
  decode_exact (some api) schema bytes v =
      if api.is_exact then api.unmarshal_exact schema bytes v else (some exact_api, v)

module _ {S : Type 0} where
  unfoldable pub compute_fingerprint : SchemaMethods S → Option S → Result (List ℕ)
  compute_fingerprint m none = inl nil_schema
  compute_fingerprint m (some schema) = m.fingerprint_using schema

  unfoldable pub build_header : SchemaMethods S → Option S → Result (List ℕ)
  unfolding compute_fingerprint build_header_for_fingerprint
  build_header m schema = elim (compute_fingerprint m schema) [
    | inl e ↦ inl e
    | inr fingerprint ↦ build_header_for_fingerprint fingerprint
  ]

pub record Codec (S V : Type 0) : Type 0 where
  pub api : Option (Api S V)
  pub schema : Option S
  pub header : List ℕ

module _ {S V : Type 0} where
  unfoldable pub new_codec_with_api :
      SchemaMethods S → Option S → Option (Api S V) → Result (Codec S V)
  unfolding build_header
  new_codec_with_api m schema api = elim (build_header m schema) [
    | inl e ↦ inl e
    | inr header ↦ elim api [
      | none ↦ inl nil_api
      | some a ↦ inr (record { api = some a; schema = schema; header = header })
    ]
  ]

  -- A nil API cannot be called; NewCodecWithAPI refuses it.
  unfoldable pub encode : Codec S V → V → Result (List ℕ)
  encode c v = elim c.api [
    | none ↦ inl nil_api
    | some api ↦ elim (api.marshal c.schema v) [
      | inl e ↦ inl e
      | inr bytes ↦ inr (c.header ++ bytes)
    ]
  ]

  abbrev pub get_fingerprint : Codec S V → List ℕ
  get_fingerprint c = drop 2 c.header

  unfoldable pub decode : Codec S V → List ℕ → V → Option SoeError × V
  decode c bytes v = elim (parse_header bytes) [
    | inl e ↦ (some e, v)
    | inr (fingerprint, payload) ↦
        if not (bytes_equal fingerprint (get_fingerprint c))
        then (some (bad_fingerprint fingerprint (get_fingerprint c)), v)
        else decode_exact c.api c.schema payload v
  ]

  unfoldable pub decode_unverified : Codec S V → List ℕ → V → Option SoeError × V
  decode_unverified c bytes v = elim (parse_header bytes) [
    | inl e ↦ (some e, v)
    | inr (fingerprint, payload) ↦ decode_exact c.api c.schema payload v
  ]

-- GetSchema of a SchemaResolver, at one context.
abbrev pub Resolver : Type 0 → Type 0
Resolver S = List ℕ → Result (Option S)

pub record DynamicDecoder (S V : Type 0) : Type 0 where
  pub api : Option (Api S V)
  pub resolver : Option (Resolver S)

unfoldable pub decode_dynamic :
    {S V : Type 0} → DynamicDecoder S V → List ℕ → V → Option SoeError × V
decode_dynamic d bytes v = elim (parse_header bytes) [
  | inl e ↦ (some e, v)
  | inr (fingerprint, payload) ↦ elim d.resolver [
    | none ↦ (some nil_resolver, v)
    | some get_schema ↦ elim (get_schema fingerprint) [
      | inl e ↦ (some (resolver e), v)
      | inr schema ↦ elim d.api [
        | none ↦ (some nil_api, v)
        | some api ↦ decode_exact (some api) schema payload v
      ]
    ]
  ]
]

-- MemorySchemaStore: the map by the number that the fingerprint's bytes stand for, the last entry first.
abbrev pub MemorySchemaStore : Type 0 → Type 0
MemorySchemaStore S = List (ℕ × S)

unfoldable pub load : {S : Type 0} → MemorySchemaStore S → ℕ → Option S
load [] key = none
load ((k, schema) ∷ rest) key = let older = load rest key in if k == key then some schema else older

unfoldable pub key_from_fingerprint : List ℕ → ℕ
unfolding little_endian
key_from_fingerprint fingerprint = little_endian fingerprint

module _ {S : Type 0} where
  unfoldable pub add_schema :
      SchemaMethods S → MemorySchemaStore S → Option S → Result (MemorySchemaStore S)
  unfolding key_from_fingerprint
  add_schema m store none = inl nil_schema
  add_schema m store (some schema) = elim (m.fingerprint_using schema) [
    | inl e ↦ inl e
    | inr fp ↦
        if not (length fp == 8)
        then inl (bad_fingerprint_length (length fp))
        else inr ((key_from_fingerprint fp, schema) ∷ store)
  ]

  unfoldable pub get_schema : MemorySchemaStore S → Resolver S
  unfolding key_from_fingerprint load
  get_schema store fingerprint =
      if not (length fingerprint == 8)
      then inl invalid_length
      else elim (load store (key_from_fingerprint fingerprint)) [
        | none ↦ inl unknown_schema
        | some schema ↦ inr (some schema)
      ]
