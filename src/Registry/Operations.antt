-- ===== src/Registry/Operations.antt =====
-- registry/client.go: what the client asks of a subject, and of the compatibility levels.
use avro.Prelude.{
  ℕ, String, Bool, ◌||◌, ◌⊎◌, inl, inr, Option, none, some, List, [], ◌∷◌, if◌then◌else◌, ◌%◌, ◌^◌,
  ◌-◌, str_eq,
}
use avro.Prelude.Int.{ℤ, pos, negsuc}
use avro.Errors.{Error, about}
use avro.Ocf.Codecs.{put_uint32}
use avro.Registry.Requests.{
  Segment, word, number, text, RequestPath, join_path, resolved_schema_path, escape_subject, get,
  delete, put, post, SchemaReference, schema_payload, compat_payload, Settings,
}
use avro.Registry.Client.{
  SchemaPayload, SchemaInfoPayload, SchemaInfo, Packages, Action, and_then, in_context, done, kept,
  outside, ask, required, subject_path, get_schema,
}

-- The four bytes of a number, whose two's complement has its low 32 bits.
abbrev pub low_word : ℤ → ℕ
low_word (pos n) = n % 2 ^ 32
low_word (negsuc n) = 2 ^ 32 - 1 - n % 2 ^ 32

unfoldable pub id_bytes : ℤ → List ℕ
id_bytes id = put_uint32 (low_word id)

unfoldable pub validate_compatibility_level : String → Option Error
validate_compatibility_level lvl =
    if str_eq lvl "BACKWARD"
      || str_eq lvl "BACKWARD_TRANSITIVE"
      || str_eq lvl "FORWARD"
      || str_eq lvl "FORWARD_TRANSITIVE"
      || str_eq lvl "FULL"
      || str_eq lvl "FULL_TRANSITIVE"
      || str_eq lvl "NONE"
    then none
    else some (about "invalid compatibility level" lvl)

module _ {S W : Type 0} (p : Packages S W) (c : Settings) where
  abbrev parse_schema : SchemaPayload → Action S W S
  parse_schema resp = outside (p.parse resp.schema)

  -- schemaInfoPayload.Parse
  unfoldable pub parse_info : SchemaInfoPayload → Action S W (SchemaInfo S)
  parse_info resp = and_then (done (required resp.id "schema id")) (λ id.
      and_then (done (required resp.version "schema version")) (λ version.
        and_then (kept (outside (p.parse resp.schema))) (λ schema. done (
          inr (record {
            schema = schema;
            id = id;
            version = version;
            properties = resp.properties;
          })))))

  unfoldable pub get_subjects : Action S W (List (List ℕ))
  get_subjects = ask p c get (join_path (word "subjects" ∷ [])) none p.strings_answer

  unfoldable pub delete_subject : List ℕ → Action S W (List ℤ)
  delete_subject subject = ask p c delete (subject_path subject []) none p.numbers_answer

  unfoldable pub get_versions : List ℕ → Action S W (List ℤ)
  get_versions subject =
      ask p c get (subject_path subject (word "versions" ∷ [])) none p.numbers_answer

  abbrev at_version : List ℕ → Segment → RequestPath
  at_version subject version =
      resolved_schema_path (subject_path subject (word "versions" ∷ version ∷ []))

  unfoldable pub get_schema_by_version : List ℕ → ℤ → Action S W S
  get_schema_by_version subject version =
      and_then (ask p c get (at_version subject (number version)) none p.schema_answer) parse_schema

  unfoldable pub get_latest_schema : List ℕ → Action S W S
  get_latest_schema subject =
      and_then (ask p c get (at_version subject (word "latest")) none p.schema_answer) parse_schema

  unfoldable pub get_schema_info : List ℕ → ℤ → Action S W (SchemaInfo S)
  get_schema_info subject version =
      and_then (ask p c get (at_version subject (number version)) none p.info_answer) parse_info

  unfoldable pub get_latest_schema_info : List ℕ → Action S W (SchemaInfo S)
  get_latest_schema_info subject =
      and_then (ask p c get (at_version subject (word "latest")) none p.info_answer) parse_info

  -- With references, the registry's own resolution of the schema.
  unfoldable pub parse_registered_schema : ℤ → List ℕ → List SchemaReference → Action S W S
  parse_registered_schema id schema [] = outside (p.parse schema)
  parse_registered_schema id schema (ref ∷ refs) =
      in_context "retrieving registered schema with resolved references" (get_schema p c id)

  -- The number comes with the schema, or with the error of the last step.
  abbrev registered : RequestPath → List ℕ → List SchemaReference → Action S W (ℤ × (Error ⊎ S))
  registered path schema references =
      and_then (ask p c post path (some (schema_payload schema references)) p.id_answer) (λ resp.
        and_then (done (required resp "schema id")) (λ id.
          and_then (kept (parse_registered_schema id schema references))
            (λ sch. done (inr (id, sch)))))

  unfoldable pub create_schema :
      List ℕ → List ℕ → List SchemaReference → Action S W (ℤ × (Error ⊎ S))
  unfolding parse_registered_schema
  create_schema subject schema references =
      registered (subject_path subject (word "versions" ∷ [])) schema references

  unfoldable pub is_registered_with_refs :
      List ℕ → List ℕ → List SchemaReference → Action S W (ℤ × (Error ⊎ S))
  unfolding parse_registered_schema
  is_registered_with_refs subject schema references =
      registered (subject_path subject []) schema references

  unfoldable pub is_compatible_with_refs : List ℕ → List ℕ → List SchemaReference → Action S W Bool
  is_compatible_with_refs subject schema references =
      and_then
        (ask p c post
          (join_path (
            word "compatibility"
            ∷ word "subjects"
            ∷ text (escape_subject subject)
            ∷ word "versions"
            ∷ []))
          (some (schema_payload schema references)) p.compatible_answer)
        (λ resp. done (required resp "compatibility result"))

  -- Without an answer to decode, a body that is not blank must still be JSON.
  abbrev ignored : List ℕ → Error ⊎ Unit {0}
  ignored data_read = if p.http.is_blank data_read then inr tt else p.raw_answer data_read

  abbrev set_level : RequestPath → String → Action S W (Unit {0})
  set_level path lvl = elim (validate_compatibility_level lvl) [
    | some e ↦ done (inl e)
    | none ↦ ask p c put path (some (compat_payload lvl)) ignored
  ]

  unfoldable pub set_global_compatibility_level : String → Action S W (Unit {0})
  unfolding validate_compatibility_level
  set_global_compatibility_level lvl = set_level (join_path (word "config" ∷ [])) lvl

  unfoldable pub set_compatibility_level : List ℕ → String → Action S W (Unit {0})
  unfolding validate_compatibility_level
  set_compatibility_level subject lvl =
      set_level (join_path (word "config" ∷ text (escape_subject subject) ∷ [])) lvl

  abbrev level_at : RequestPath → Action S W String
  level_at path =
      and_then (ask p c get path none p.level_answer)
        (λ resp. done (required resp "compatibility level"))

  unfoldable pub get_global_compatibility_level : Action S W String
  get_global_compatibility_level = level_at (join_path (word "config" ∷ []))

  unfoldable pub get_compatibility_level : List ℕ → Action S W String
  get_compatibility_level subject =
      level_at (join_path (word "config" ∷ text (escape_subject subject) ∷ []))
