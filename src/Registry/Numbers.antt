-- ===== src/Registry/Numbers.antt =====
-- registry/decoder.go and registry/client.go: a frame that stands behind the number of its schema.
use avro.Prelude.{
  ℕ, ◌%◌, ◌^◌, ◌<◌, ◌≡◌, refl, ap, ◌∙◌, arith, false, inr, some, List, [], ◌∷◌, ◌++◌, ltb, length,
}
use avro.Prelude.Int.{pos}
use avro.Ocf.Codecs.{put_uint32, big_endian}
use avro.Ocf.Codecs.Lossless.{put_uint32_lem}
use avro.Registry.{
  Lookups, Api, Decoder, extract_schema_id, decode, decode_id, decode_with, decode_datum,
}
use avro.Registry.Operations.{id_bytes}

four_bytes : (n : ℕ) → n < 2 ^ 32 → big_endian 0 (id_bytes (pos n)) ≡ n
unfolding id_bytes
four_bytes n h =
    let same : n % 2 ^ 32 ≡ n = omega arith in
    ap (λ t. big_endian 0 (put_uint32 t)) same ∙ put_uint32_lem n h

long_enough :
    (n : ℕ) (data_read : List ℕ) → ltb (length (0 ∷ id_bytes (pos n) ++ data_read)) 5 ≡ false
unfolding id_bytes put_uint32
long_enough n data_read = ground arith

extract_step :
    (a b c e : ℕ) (rest : List ℕ)
    → extract_schema_id (0 ∷ a ∷ b ∷ c ∷ e ∷ rest) ≡ inr (big_endian 0 (a ∷ b ∷ c ∷ e ∷ []))
unfolding extract_schema_id
extract_step a b c e rest = ground arith

extracts :
    (n : ℕ) (data_read : List ℕ)
    → n < 2 ^ 32
    → extract_schema_id (0 ∷ id_bytes (pos n) ++ data_read) ≡ inr n
unfolding id_bytes put_uint32
extracts n data_read h = extract_step _ _ _ _ data_read ∙ ap (λ t. inr t) (four_bytes n h)

decode_long :
    {S V : Type 0} (d : Decoder S V) (frame : List ℕ) (v : V)
    → ltb (length frame) 5 ≡ false
    → decode d frame v ≡ decode_id d (extract_schema_id frame) frame v
unfolding decode
decode_long d frame v long = rw long refl

after_lookup :
    {S V : Type 0} (client : Lookups S) (api : Api S V) (n : ℕ) (schema : S) (data_read : List ℕ)
    (v : V)
    → client.get_schema n ≡ inr schema
    → decode_id
        (record { client = some client; api = some api })
        (inr n)
        (0 ∷ id_bytes (pos n) ++ data_read)
        v
      ≡ decode_datum api schema data_read v
unfolding id_bytes put_uint32
after_lookup client api n schema data_read v found =
    ap (λ t. decode_with (some api) "getting schema" t data_read v) found

-- A frame that starts with a zero and with the bytes that IDBytes makes of a number below 2^32 is decoded
-- with the schema that the client has for that number, from what follows.
pub decode-id_bytes :
    {S V : Type 0} (client : Lookups S) (api : Api S V) (n : ℕ) (schema : S) (data_read : List ℕ)
    (v : V)
    → n < 2 ^ 32
    → client.get_schema n ≡ inr schema
    → decode (record { client = some client; api = some api }) (0 ∷ id_bytes (pos n) ++ data_read) v
      ≡ decode_datum api schema data_read v
decode-id_bytes client api n schema data_read v h found =
    let frame : List ℕ = 0 ∷ id_bytes (pos n) ++ data_read in
    let d : Decoder _ _ = record { client = some client; api = some api } in
    decode_long d frame v (long_enough n data_read)
    ∙ ap (λ t. decode_id d t frame v) (extracts n data_read h)
    ∙ after_lookup client api n schema data_read v found
