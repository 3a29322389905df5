-- ===== src/Examples/Frames.antt =====
-- Single-object frames of two schemas, over an API that copies bytes.
use avro.Prelude.{
  ℕ, ◌≡◌, refl, arith, inr, true, none, some, List, [], ◌∷◌, ◌++◌, bytes_equal, if◌then◌else◌, ◌↔◌,
}
use avro.Soe.{
  bad_fingerprint, SchemaMethods, Api, Codec, magic, parse_header, build_header_for_fingerprint,
  compute_fingerprint, new_codec_with_api, encode, decode, decode_unverified, decode_exact,
  add_schema, get_schema, key_from_fingerprint, decode_dynamic, build_header,
}
use avro.Soe.Header.{parse_header-build_header}
use avro.Soe.Frames.{decode-encode, decode-foreign}
use avro.Soe.Store.{get_schema-add_schema, decode_dynamic-encode}

-- A schema is a number, and its fingerprint begins with it.
abbrev print : ℕ → List ℕ
print n = n ∷ 0 ∷ 0 ∷ 0 ∷ 0 ∷ 0 ∷ 0 ∷ 1 ∷ []

abbrev methods : SchemaMethods ℕ
methods = record { fingerprint_using = λ n. inr (print n) }

abbrev copying : Api ℕ (List ℕ)
copying = record {
  marshal = λ schema v. inr v;
  is_exact = true;
  unmarshal_exact = λ schema bytes v. (none, bytes);
}

abbrev codec : ℕ → Codec ℕ (List ℕ)
codec n = record { api = some copying; schema = some n; header = magic ++ print n }

codec_made : (n : ℕ) → new_codec_with_api methods (some n) (some copying) ≡ inr (codec n)
unfolding new_codec_with_api build_header compute_fingerprint build_header_for_fingerprint
codec_made n = refl

abbrev frame : List ℕ
frame = 0xc3 ∷ 0x01 ∷ 5 ∷ 0 ∷ 0 ∷ 0 ∷ 0 ∷ 0 ∷ 0 ∷ 1 ∷ 42 ∷ []

parse_header-build_header_example : (parse_header frame ≡ inr (print 5, 42 ∷ [])) ↔ (
    (header : List ℕ) × (build_header_for_fingerprint (print 5) ≡ inr header)
    × (frame ≡ header ++ 42 ∷ []))
parse_header-build_header_example = parse_header-build_header frame (print 5) (42 ∷ [])

decode-encode_example :
    (payload : List ℕ) × (copying.marshal (some 5) (42 ∷ []) ≡ inr payload)
    × (decode (codec 5) frame [] ≡ decode_exact (some copying) (some 5) payload [])
    × (decode_unverified (codec 5) frame [] ≡ decode_exact (some copying) (some 5) payload [])
decode-encode_example =
    decode-encode methods (some 5) copying (codec 5) (codec_made 5) (42 ∷ []) [] frame
      (unfold encode in refl)

decode-foreign_example :
    decode (codec 6) frame [] ≡ (some (bad_fingerprint (print 5) (print 6)), [])
decode-foreign_example =
    decode-foreign methods (some 5) (some 6) copying copying (codec 5) (codec 6) (42 ∷ []) [] frame
      (print 5) (print 6) (codec_made 5) (codec_made 6) (unfold compute_fingerprint in refl)
      (unfold compute_fingerprint in refl) (λ e. absurd (ground (arith, e))) (unfold encode in refl)

get_schema-add_schema_example :
    get_schema ((key_from_fingerprint (print 5), 5) ∷ []) (print 6)
    ≡ (if bytes_equal (print 5) (print 6) then inr (some 5) else get_schema {S = ℕ} [] (print 6))
get_schema-add_schema_example =
    get_schema-add_schema methods [] ((key_from_fingerprint (print 5), 5) ∷ []) 5 (print 5) refl
      (print 6) (ground arith) (ground arith) (unfold add_schema in refl)

decode_dynamic-encode_example :
    (payload : List ℕ) × (copying.marshal (some 5) (42 ∷ []) ≡ inr payload)
    × (decode_dynamic
          (record {
            api = some copying;
            resolver = some (get_schema ((key_from_fingerprint (print 5), 5) ∷ []));
          })
          frame
          []
        ≡ decode_exact (some copying) (some 5) payload [])
decode_dynamic-encode_example =
    decode_dynamic-encode methods [] ((key_from_fingerprint (print 5), 5) ∷ []) 5 copying copying
      (codec 5) (42 ∷ []) [] frame (codec_made 5) (unfold add_schema in refl)
      (unfold encode in refl)
