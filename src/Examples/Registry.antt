-- ===== src/Examples/Registry.antt =====
-- A decoder of the registry's frames over a schema of bytes.
use avro.Prelude.{
  ℕ, ◌≡◌, refl, arith, inl, inr, true, false, none, some, List, [], ◌∷◌, ◌++◌, ◌==◌, All,
  bytes_equal, if◌then◌else◌,
}
use avro.Prelude.Int.{pos}
use avro.Errors.{message}
use avro.Reader.State.{new_reader}
use avro.Reader.Values.{read_bytes}
use avro.RoundTrip.Numbers.{Returns}
use avro.Config.{get_max_byte_slice_size}
use avro.Registry.{
  Header, Lookups, Api, Decoder, key_schema_id_header, value_schema_id_header, header_name,
  prefixed, format_guid, hex_bytes, decode_datum, decode_from_last, check_guid, use_header, decode,
  decode_headers,
}
use avro.Registry.Numbers.{decode-id_bytes}
use avro.Registry.Operations.{id_bytes}
use avro.Registry.Guid.{check_guid-format_guid}
use avro.Registry.Prefix.{read_bytes-prefixed}
use avro.Registry.Headers.{decode_headers-last}
use avro.Examples.{plain_config}

abbrev guid_bytes : List ℕ
guid_bytes =
    0 ∷ 17 ∷ 34 ∷ 51 ∷ 68 ∷ 85 ∷ 102 ∷ 119 ∷ 136 ∷ 153 ∷ 170 ∷ 187 ∷ 204 ∷ 221 ∷ 238 ∷ 255 ∷ []

-- Schemas are numbers, of which 3 is the one of bytes, and values are the bytes that were read.
abbrev lookups : Lookups ℕ
lookups = record {
  get_schema = λ id. if id == 7 then inr 3 else inl (message "not found");
  get_schema_by_guid = λ guid.
      if bytes_equal guid (format_guid guid_bytes) then inr 4 else inl (message "not found");
}

abbrev the_api : Api ℕ (List ℕ)
the_api = record {
  is_bytes = λ s. s == 3;
  unmarshal = λ s bytes v. (none, s ∷ bytes);
  decode_from = λ s answers v. (none, (read_bytes (new_reader plain_config none (some answers))).0);
}

abbrev the_decoder : Decoder ℕ (List ℕ)
the_decoder = record { client = some lookups; api = some the_api }

abbrev bad : Header
bad = record { key = key_schema_id_header; value = 2 ∷ guid_bytes }

abbrev key_header : Header
key_header = record { key = key_schema_id_header; value = 1 ∷ guid_bytes }

abbrev other_header : Header
other_header = record { key = value_schema_id_header; value = 1 ∷ [] }

check_guid-format_guid_example : check_guid (format_guid guid_bytes) ≡ inr guid_bytes
check_guid-format_guid_example = check_guid-format_guid guid_bytes refl (ground arith)

read_bytes-prefixed_example :
    Returns
      (5 ∷ 6 ∷ [])
      []
      (read_bytes (new_reader plain_config none (some (prefixed (5 ∷ 6 ∷ [])))))
read_bytes-prefixed_example =
    read_bytes-prefixed plain_config (5 ∷ 6 ∷ []) (omega arith) (ground arith)
      (omega arith, inr (unfold get_max_byte_slice_size in (omega arith)))

other-key : All (λ h. bytes_equal h.key (header_name true) ≡ false) (other_header ∷ [])
unfolding bytes_equal
other-key = (refl, tt)

own-key : bytes_equal key_header.key (header_name true) ≡ true
unfolding bytes_equal
own-key = refl

decode_headers-last_example :
    (decode_headers the_decoder (9 ∷ []) (bad ∷ key_header ∷ other_header ∷ []) true []
      ≡ use_header the_decoder key_schema_id_header (1 ∷ guid_bytes) (9 ∷ []) [])
    × (decode_headers the_decoder (9 ∷ []) (other_header ∷ []) true []
        ≡ decode the_decoder (9 ∷ []) [])
decode_headers-last_example =
    decode_headers-last the_decoder (9 ∷ []) true [] (bad ∷ []) (other_header ∷ []) key_header
      own-key other-key

by_guid_run :
    decode_headers the_decoder (9 ∷ []) (bad ∷ key_header ∷ other_header ∷ []) true []
    ≡ (none, 4 ∷ 9 ∷ [])
unfolding decode_headers decode_from_last use_header bytes_equal format_guid hex_bytes decode_datum
by_guid_run = refl

decode-id_bytes_example :
    decode the_decoder (0 ∷ id_bytes (pos 7) ++ (5 ∷ 6 ∷ [])) []
    ≡ decode_datum the_api 3 (5 ∷ 6 ∷ []) []
decode-id_bytes_example = decode-id_bytes lookups the_api 7 3 (5 ∷ 6 ∷ []) [] (omega arith) refl
