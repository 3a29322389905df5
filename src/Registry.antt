-- ===== src/Registry.antt =====
-- registry/decoder.go, and the lookups of registry/client.go: payloads behind the number of a schema or
-- a GUID in a header. A schema, a client and an API are parameters; a string is the list of its bytes.
pub mod Guid
pub mod Prefix
pub mod Headers
pub mod Requests
pub mod Client
pub mod Operations
pub mod Cached
pub mod Subjects
pub mod Numbers
use avro.Prelude.{
  ℕ, zero, suc, ◌+◌, ◌-◌, ◌*◌, ◌/◌, ◌%◌, String, Bool, true, false, not, ◌&&◌, ◌||◌, ◌⊎◌, inl, inr,
  Option, none, some, List, [], ◌∷◌, ◌++◌, if◌then◌else◌, ltb, leb, ◌==◌, length, map, take, drop,
  reverse, bytes_equal,
}
use avro.Prelude.Int.{pos}
use avro.Errors.{Error, message, formatted, wrap}
use avro.Reader.State.{ReadResult}
use avro.Writer.{append_uvarint}
use avro.Ocf.Codecs.{big_endian}
use avro.Ocf.Decoder.{pieces}

pub record Header : Type 0 where
  pub key : List ℕ
  pub value : List ℕ

-- "__key_schema_id" and "__value_schema_id".
abbrev pub key_schema_id_header : List ℕ
key_schema_id_header =
    95 ∷ 95 ∷ 107 ∷ 101 ∷ 121 ∷ 95 ∷ 115 ∷ 99 ∷ 104 ∷ 101 ∷ 109 ∷ 97 ∷ 95 ∷ 105 ∷ 100 ∷ []

abbrev pub value_schema_id_header : List ℕ
value_schema_id_header =
    95 ∷ 95 ∷ 118 ∷ 97 ∷ 108 ∷ 117 ∷ 101 ∷ 95 ∷ 115 ∷ 99 ∷ 104 ∷ 101 ∷ 109 ∷ 97 ∷ 95 ∷ 105 ∷ 100
    ∷ []

-- What the decoder calls of its client: GetSchema and GetSchemaByGUID. What it calls of its API:
-- Unmarshal, and Decode of a new decoder.
pub record Lookups (S : Type 0) : Type 0 where
  pub get_schema : ℕ → Error ⊎ S
  pub get_schema_by_guid : List ℕ → Error ⊎ S

pub record Api (S V : Type 0) : Type 0 where
  pub is_bytes : S → Bool
  pub unmarshal : S → List ℕ → V → Option Error × V
  pub decode_from : S → List ReadResult → V → Option Error × V

pub record Decoder (S V : Type 0) : Type 0 where
  pub client : Option (Lookups S)
  pub api : Option (Api S V)

-- `%x` of bytes, in lower case.
abbrev pub hex_digit : ℕ → ℕ
hex_digit n = if ltb n 10 then 48 + n else 87 + n

unfoldable pub hex_bytes : List ℕ → List ℕ
hex_bytes [] = []
hex_bytes (b ∷ bs) = hex_digit (b / 16) ∷ hex_digit (b % 16) ∷ hex_bytes bs

-- `fmt.Sprintf("%x-%x-%x-%x-%x", …)` over the parts of 16 bytes.
unfoldable pub format_guid : List ℕ → List ℕ
format_guid bytes =
    hex_bytes (take 4 bytes)
    ++ (45 ∷ hex_bytes (take 2 (drop 4 bytes))
        ++ (45 ∷ hex_bytes (take 2 (drop 6 bytes))
            ++ (45 ∷ hex_bytes (take 2 (drop 8 bytes)) ++ (45 ∷ hex_bytes (drop 10 bytes)))))

unfoldable pub extract_schema_id : List ℕ → Error ⊎ ℕ
extract_schema_id [] = inl (message "data too short")
extract_schema_id (b ∷ rest) =
    if ltb (length (b ∷ rest)) 5
    then inl (message "data too short")
    else if not (b == 0)
    then inl (formatted "invalid magic byte: %x" (pos b ∷ []))
    else inr (big_endian 0 (take 4 rest))

-- io.MultiReader over the prefix and the data: the one in one piece, the other in pieces of the
-- buffer of a decoder.
unfoldable pub prefixed : List ℕ → List ReadResult
prefixed data_read =
    record { bytes = append_uvarint 9 [] (length data_read * 2); err = none }
    ∷ pieces (length data_read) data_read

abbrev bad_header : List ℕ → Error
bad_header name = formatted "invalid %s header: expected version 1 and 16 GUID bytes" (map pos name)

abbrev pub header_name : Bool → List ℕ
header_name key = if key then key_schema_id_header else value_schema_id_header

module _ {S V : Type 0} where
  unfoldable pub decode_datum : Api S V → S → List ℕ → V → Option Error × V
  unfolding prefixed
  decode_datum api schema data_read v =
      if not (api.is_bytes schema)
      then api.unmarshal schema data_read v
      else api.decode_from schema (prefixed data_read) v

  abbrev pub decode_with : Option (Api S V) → String → Error ⊎ S → List ℕ → V → Option Error × V
  decode_with api context (inl e) data_read v = (some (wrap context e), v)
  decode_with none context (inr schema) data_read v = (some (message "avro API cannot be nil"), v)
  decode_with (some api) context (inr schema) data_read v = decode_datum api schema data_read v

  abbrev pub decode_id : Decoder S V → Error ⊎ ℕ → List ℕ → V → Option Error × V
  decode_id d (inl e) data_read v = (some (wrap "extracting schema id" e), v)
  decode_id d (inr id) data_read v = elim d.client [
    | none ↦ (some (message "registry client cannot be nil"), v)
    | some client ↦ decode_with d.api "getting schema" (client.get_schema id) (drop 5 data_read) v
  ]

  unfoldable pub decode : Decoder S V → List ℕ → V → Option Error × V
  unfolding extract_schema_id
  decode d data_read v =
      if ltb (length data_read) 5
      then (some (message "data too short"), v)
      else decode_id d (extract_schema_id data_read) data_read v

  -- A header that was found: version 1, and 16 bytes.
  abbrev by_guid : Decoder S V → List ℕ → List ℕ → V → Option Error × V
  by_guid d bytes data_read v = elim d.client [
    | none ↦ (some (message "registry client cannot be nil"), v)
    | some client ↦ elim d.api [
      | none ↦ (some (message "avro API cannot be nil"), v)
      | some api ↦
          decode_with (some api) "getting GUID schema"
            (client.get_schema_by_guid (format_guid bytes)) data_read v
    ]
  ]

  unfoldable pub use_header : Decoder S V → List ℕ → List ℕ → List ℕ → V → Option Error × V
  use_header d name [] data_read v = (some (bad_header name), v)
  use_header d name (version ∷ bytes) data_read v =
      if not (length bytes == 16) || not (version == 1)
      then (some (bad_header name), v)
      else by_guid d bytes data_read v

  -- The loop over the headers, from the last to the first.
  unfoldable pub decode_from_last :
      Decoder S V → List ℕ → List Header → List ℕ → V → Option Error × V
  decode_from_last d name [] data_read v = decode d data_read v
  decode_from_last d name (h ∷ hs) data_read v =
      if not (bytes_equal h.key name)
      then decode_from_last d name hs data_read v
      else use_header d name h.value data_read v

  unfoldable pub decode_headers : Decoder S V → List ℕ → List Header → Bool → V → Option Error × V
  decode_headers d data_read headers key v =
      decode_from_last d (header_name key) (reverse headers) data_read v

-- registry/client.go: the check of a GUID at GetSchemaByGUID.
abbrev pub from_hex : ℕ → Option ℕ
from_hex c =
    if leb 48 c && leb c 57
    then some (c - 48)
    else if leb 97 c && leb c 102
    then some (c - 87)
    else if leb 65 c && leb c 70
    then some (c - 55)
    else none

abbrev byte_of : Option ℕ → Option ℕ → Option (List ℕ) → Option (List ℕ)
byte_of (some a) (some b) (some rest) = some ((16 * a + b) ∷ rest)
byte_of _ _ _ = none

-- `hex.DecodeString` of Go's standard library.
unfoldable pub hex_decode : List ℕ → Option (List ℕ)
hex_decode [] = some []
hex_decode (c ∷ []) = none
hex_decode (c ∷ c' ∷ cs) = byte_of (from_hex c) (from_hex c') (hex_decode cs)

-- `strings.ReplaceAll(guid, "-", "")`
unfoldable pub without_dashes : List ℕ → List ℕ
without_dashes [] = []
without_dashes (c ∷ cs) = let rest = without_dashes cs in if c == 45 then rest else c ∷ rest

abbrev pub byte_at : ℕ → List ℕ → ℕ
byte_at n text = elim (drop n text) [ [] ↦ 0 | c ∷ cs ↦ c ]

abbrev checked : Option (List ℕ) → Error ⊎ List ℕ
checked none = inl (message "invalid schema GUID: expected 16 hexadecimal bytes")
checked (some raw) =
    if not (length raw == 16)
    then inl (message "invalid schema GUID: expected 16 hexadecimal bytes")
    else inr raw

-- The bytes of a GUID that GetSchemaByGUID accepts.
unfoldable pub check_guid : List ℕ → Error ⊎ List ℕ
check_guid guid =
    if not (length guid == 36)
      || not (byte_at 8 guid == 45)
      || not (byte_at 13 guid == 45)
      || not (byte_at 18 guid == 45)
      || not (byte_at 23 guid == 45)
    then inl (message "invalid schema GUID: expected hexadecimal UUID")
    else checked (hex_decode (without_dashes guid))
