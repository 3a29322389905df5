-- ===== src/Examples/Clients.antt =====
-- A client of a registry that answers with a list of responses.
use avro.Prelude.{
  ℕ, ◌≡◌, refl, arith, inl, inr, true, none, List, [], ◌∷◌, ◌⊎◌, bytes_equal, map, if◌then◌else◌,
  leb, ◌&&◌, ◌-◌,
}
use avro.Prelude.Int.{pos}
use avro.Errors.{Error, eof}
use avro.Registry.{check_guid, format_guid, hex_bytes, hex_decode, without_dashes}
use avro.Registry.Guid.{check_guid-format_guid}
use avro.Registry.Requests.{
  HttpResponse, Http, Settings, request, validate, read_response, escape_subject, path_escape,
  stays,
}
use avro.Registry.Client.{
  Packages, State, load, and_then, in_context, outside, to_lower, fetch_schema, get_schema,
  fetch_by_guid, add_references, get_schema_by_guid,
}
use avro.Registry.Cached.{get_schema-again, get_schema_by_guid-again}
use avro.Registry.Subjects.{IsElement, escape_subject-IsElement}

abbrev World : Type 0
World = List (Error ⊎ HttpResponse)

abbrev respond : World → (Error ⊎ HttpResponse) × World
respond [] = (inl eof, [])
respond (r ∷ rs) = (r, rs)

abbrev the_http : Http World
the_http = record {
  perform = λ r w. respond w;
  is_blank = λ b. bytes_equal b [];
  unmarshal_error = λ b. (none, (pos 0, b));
}

abbrev parsed : List ℕ → Error ⊎ ℕ
parsed [] = inl eof
parsed (b ∷ bs) = inr b

-- A schema is a number, and a payload is its schema.
abbrev the_packages : Packages ℕ World
the_packages = record {
  http = the_http;
  schema_answer = λ b. inr (record { schema = b; references = []; schema_type = [] });
  info_answer = λ b. inl eof;
  id_answer = λ b. inr none;
  compatible_answer = λ b. inr none;
  level_answer = λ b. inr none;
  strings_answer = λ b. inr [];
  numbers_answer = λ b. inr [];
  raw_answer = λ b. inr tt;
  parse = λ b w. (parsed b, w);
  parse_with = λ names b w. (parsed b, w);
  full_name = λ s. none;
}

abbrev the_settings : Settings
the_settings = record {
  has_client = true;
  response_limit = pos 100;
  creds = record { username = []; password = [] };
}

abbrev answer : List ℕ → Error ⊎ HttpResponse
answer b = inr (record { status_code = pos 200; bytes = b; read_err = none })

abbrev before : State ℕ World
before = record { cache = []; guid_cache = []; world = answer (5 ∷ []) ∷ [] }

abbrev with_five : State ℕ World
with_five = record { cache = (pos 7, 5) ∷ []; guid_cache = []; world = [] }

fetched : get_schema the_packages the_settings (pos 7) before ≡ (inr 5, with_five)
unfolding get_schema fetch_schema and_then in_context outside request validate read_response load
fetched = refl

get_schema-again_example :
    (get_schema the_packages the_settings
        (pos 7)
        (record with_five { world = answer (6 ∷ []) ∷ [] })
      ≡ (inr 5, record with_five { world = answer (6 ∷ []) ∷ [] }))
    × (with_five.guid_cache ≡ before.guid_cache)
get_schema-again_example =
    get_schema-again the_packages the_settings (pos 7) before with_five 5 (answer (6 ∷ []) ∷ [])
      fetched

abbrev raw_guid : List ℕ
raw_guid =
    0 ∷ 17 ∷ 34 ∷ 51 ∷ 68 ∷ 85 ∷ 102 ∷ 119 ∷ 136 ∷ 153 ∷ 170 ∷ 187 ∷ 204 ∷ 221 ∷ 238 ∷ 255 ∷ []

abbrev guid : List ℕ
guid = format_guid raw_guid

abbrev with_guid : State ℕ World
with_guid = record { cache = []; guid_cache = (to_lower guid, 5) ∷ []; world = [] }

guid-accepted : check_guid guid ≡ inr raw_guid
guid-accepted = check_guid-format_guid raw_guid refl (ground arith)

fetched_by_guid : get_schema_by_guid the_packages the_settings guid before ≡ (inr 5, with_guid)
unfolding get_schema_by_guid fetch_by_guid and_then in_context outside request validate
    read_response load add_references check_guid format_guid hex_bytes hex_decode without_dashes
    bytes_equal
fetched_by_guid = refl

abbrev upper : ℕ → ℕ
upper c = if leb 97 c && leb c 122 then c - 32 else c

abbrev loud : List ℕ
loud = map upper guid

loud-accepted : check_guid loud ≡ inr raw_guid
unfolding check_guid format_guid hex_bytes hex_decode without_dashes
loud-accepted = refl

loud-alike : to_lower loud ≡ to_lower guid
unfolding format_guid hex_bytes
loud-alike = refl

get_schema_by_guid-again_example :
    (get_schema_by_guid the_packages the_settings loud with_guid ≡ (inr 5, with_guid))
    × (with_guid.cache ≡ before.cache)
get_schema_by_guid-again_example =
    get_schema_by_guid-again the_packages the_settings guid loud raw_guid raw_guid before with_guid
      5 [] guid-accepted loud-accepted loud-alike fetched_by_guid

-- "../a"
escape_subject-IsElement_example :
    IsElement (46 ∷ 46 ∷ 47 ∷ 97 ∷ []) (escape_subject (46 ∷ 46 ∷ 47 ∷ 97 ∷ []))
escape_subject-IsElement_example =
    escape_subject-IsElement (46 ∷ 46 ∷ 47 ∷ 97 ∷ []) (omega arith) (ground arith)

escaped_run : escape_subject (46 ∷ 46 ∷ 47 ∷ 97 ∷ []) ≡ 46 ∷ 46 ∷ 37 ∷ 50 ∷ 70 ∷ 97 ∷ []
unfolding escape_subject path_escape stays bytes_equal
escaped_run = refl
