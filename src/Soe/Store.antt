-- ===== src/Soe/Store.antt =====
-- soe/resolvers/memoryschemastore.go and soe/dynamic.go: the store as a map by fingerprints, and
-- decoding by the schema that a frame names.
use avro.Prelude.{
  ℕ, ◌≡◌, refl, arith, inl, inr, some, List, [], ◌∷◌, length, All, bytes_equal, bytes_equal→≡,
  bytes_equal_refl, Bool-cases, if◌then◌else◌, false, ◌==◌,
}
use avro.Reader.Scan.{IsByte}
use avro.Reader.Values.{little_endian}
use avro.Soe.{
  SchemaMethods, Api, Codec, MemorySchemaStore, add_schema, get_schema, load, key_from_fingerprint,
  parse_header, new_codec_with_api, encode, decode_exact, decode_dynamic, compute_fingerprint,
}
use avro.Soe.Frames.{encoded}

key_injective :
    (xs ys : List ℕ)
    → length xs ≡ length ys
    → All IsByte xs
    → All IsByte ys
    → key_from_fingerprint xs ≡ key_from_fingerprint ys
    → xs ≡ ys
unfolding key_from_fingerprint little_endian
key_injective [] [] h bx by e = refl
key_injective [] (y ∷ ys) h bx by e = absurd (omega arith)
key_injective (x ∷ xs) [] h bx by e = absurd (omega arith)
key_injective (x ∷ xs) (y ∷ ys) h (bx, bxs) (by, bys) e =
    let head : x ≡ y = omega arith in
    let tail : xs ≡ ys = key_injective xs ys (omega arith) bxs bys (omega arith) in rw (head, tail)

module _ {S : Type 0} (m : SchemaMethods S) (store store' : MemorySchemaStore S) (schema : S)
    (fp : List ℕ) (its : m.fingerprint_using schema ≡ inr fp) where
  added :
      add_schema m store (some schema) ≡ inr store'
      → (length fp ≡ 8) × (store' ≡ (key_from_fingerprint fp, schema) ∷ store)
  unfolding add_schema
  added h = ground (arith, its)

  same_key :
      length fp ≡ 8 → get_schema ((key_from_fingerprint fp, schema) ∷ store) fp ≡ inr (some schema)
  unfolding get_schema load
  same_key eight = ground arith

  other_key :
      (other : List ℕ)
      → length fp ≡ 8
      → All IsByte fp
      → All IsByte other
      → bytes_equal fp other ≡ false
      → get_schema ((key_from_fingerprint fp, schema) ∷ store) other ≡ get_schema store other
  unfolding get_schema load
  other_key other eight bytes bytes' apart = elim (Bool-cases (length other == 8)) [
    | inr size ↦ ground (arith, size)
    | inl size ↦ elim (Bool-cases (key_from_fingerprint fp == key_from_fingerprint other)) [
      | inr keys ↦ ground (arith, size, keys)
      | inl keys ↦
          let same : fp ≡ other =
            key_injective fp other (ground (arith, size)) bytes bytes' (ground (arith, keys)) in
          absurd (ground (arith, apart, bytes_equal_refl fp, same))
    ]
  ]

  -- After AddSchema of a schema, whatever was stored, GetSchema returns that schema for its fingerprint;
  -- for any other fingerprint it answers what it answered before, since two fingerprints of bytes never
  -- meet at one key.
  pub get_schema-add_schema :
      (other : List ℕ)
      → All IsByte fp
      → All IsByte other
      → add_schema m store (some schema) ≡ inr store'
      → get_schema store' other
        ≡ (if bytes_equal fp other then inr (some schema) else get_schema store other)
  get_schema-add_schema other bytes bytes' h =
      let (eight, e) = added h in
      elim (Bool-cases (bytes_equal fp other)) [
        | inl same ↦
            let same' : fp ≡ other = bytes_equal→≡ fp other same in
            rw (same, e, ← same') (same_key eight)
        | inr apart ↦ rw (apart, e) (other_key other eight bytes bytes' apart)
      ]

dynamic_steps :
    {S V : Type 0} (store : MemorySchemaStore S) (b : Api S V) (schema : S)
    (bytes fp payload : List ℕ) (target : V)
    → parse_header bytes ≡ inr (fp, payload)
    → get_schema store fp ≡ inr (some schema)
    → decode_dynamic (record { api = some b; resolver = some (get_schema store) }) bytes target
      ≡ decode_exact (some b) (some schema) payload target
unfolding decode_dynamic
dynamic_steps store b schema bytes fp payload target p found = rw (decode_dynamic, p, found) refl

-- A frame that a codec of a schema made is decoded by a DynamicDecoder over a store to which that schema
-- was added last, whatever the store held before: the decoder does what UnmarshalExact of its API does
-- under that schema with the payload that Marshal made.
pub decode_dynamic-encode :
    {S V : Type 0} (m : SchemaMethods S) (store store' : MemorySchemaStore S) (schema : S)
    (a b : Api S V) (c : Codec S V) (v target : V) (bytes : List ℕ)
    → new_codec_with_api m (some schema) (some a) ≡ inr c
    → add_schema m store (some schema) ≡ inr store'
    → encode c v ≡ inr bytes
    → (payload : List ℕ) × (a.marshal (some schema) v ≡ inr payload)
      × (decode_dynamic (record { api = some b; resolver = some (get_schema store') }) bytes target
          ≡ decode_exact (some b) (some schema) payload target)
decode_dynamic-encode m store store' schema a b c v target bytes made stored h =
    let (fp, payload, its, eight, done, split, p) = encoded m (some schema) a c made v bytes h in
    let its' : m.fingerprint_using schema ≡ inr fp = unfold compute_fingerprint in its in
    let (size, e) = added m store store' schema fp its' stored in
    let found : get_schema store' fp ≡ inr (some schema) =
      rw e (same_key m store store' schema fp its' size) in
    (payload, done, dynamic_steps store' b schema bytes fp payload target p found)
