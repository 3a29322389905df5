-- ===== src/Registry/Client.antt =====
-- registry/client.go: the client, with its caches, and its operations. avro.Parse has a cache of its
-- own, which is a part of the world that the client acts on.
use avro.Prelude.{
  ℕ, ◌+◌, String, Bool, true, false, not, ◌&&◌, ◌||◌, ◌⊎◌, inl, inr, Option, none, some, List, [],
  ◌∷◌, if◌then◌else◌, ltb, leb, ◌==◌, length, map, bytes_equal,
}
use avro.Prelude.Int.{ℤ, pos, ltb_ℤ}
use avro.Errors.{Error, message, formatted, about, wrap}
use avro.Registry.{check_guid}
use avro.Registry.Requests.{
  Segment, word, number, text, RequestPath, join_path, resolved_schema_path, escape_subject, Method,
  get, SchemaReference, Payload, Settings, Http, request,
}

pub record SchemaPayload : Type 0 where
  pub schema : List ℕ
  pub references : List SchemaReference
  pub schema_type : List ℕ

pub record SchemaInfoPayload : Type 0 where
  pub schema : List ℕ
  pub id : Option ℤ
  pub version : Option ℤ
  pub properties : List (List ℕ × List ℕ)

-- A schema that did not parse leaves its error, which comes with the rest.
pub record SchemaInfo (S : Type 0) : Type 0 where
  pub schema : Error ⊎ S
  pub id : ℤ
  pub version : ℤ
  pub properties : List (List ℕ × List ℕ)

-- The payloads that JSON decodes to; Parse, ParseWithCache with a cache that it may fill but that is
-- left when it returns, and FullName of a NamedSchema.
pub record Packages (S W : Type 0) : Type 0 where
  pub http : Http W
  pub schema_answer : List ℕ → Error ⊎ SchemaPayload
  pub info_answer : List ℕ → Error ⊎ SchemaInfoPayload
  pub id_answer : List ℕ → Error ⊎ Option ℤ
  pub compatible_answer : List ℕ → Error ⊎ Option Bool
  pub level_answer : List ℕ → Error ⊎ Option String
  pub strings_answer : List ℕ → Error ⊎ List (List ℕ)
  pub numbers_answer : List ℕ → Error ⊎ List ℤ
  pub raw_answer : List ℕ → Error ⊎ Unit {0}
  pub parse : List ℕ → W → (Error ⊎ S) × W
  pub parse_with : List (List ℕ × S) → List ℕ → W → (Error ⊎ S) × W
  pub full_name : S → Option (List ℕ)

-- The caches by number and by GUID, and the world outside.
pub record State (S W : Type 0) : Type 0 where
  pub cache : List (ℤ × S)
  pub guid_cache : List (List ℕ × S)
  pub world : W

abbrev pub same_id : ℤ → ℤ → Bool
same_id a b = not (ltb_ℤ a b) && not (ltb_ℤ b a)

unfoldable pub load : {K S : Type 0} → (K → K → Bool) → K → List (K × S) → Option S
load same k [] = none
load same k ((k', s) ∷ rest) = if same k' k then some s else load same k rest

abbrev lower : ℕ → ℕ
lower c = if leb 65 c && leb c 90 then c + 32 else c

-- `strings.ToLower` of ASCII.
abbrev pub to_lower : List ℕ → List ℕ
to_lower guid = map lower guid

unfoldable pub required : {A : Type 0} → Option A → String → Error ⊎ A
required (some value) name = inr value
required none name = inl (about "registry response missing" name)

abbrev pub subject_path : List ℕ → List Segment → RequestPath
subject_path subject rest = join_path (word "subjects" ∷ text (escape_subject subject) ∷ rest)

abbrev pub Action : Type 0 → Type 0 → Type 0 → Type 0
Action S W A = State S W → (Error ⊎ A) × State S W

module _ {S W : Type 0} where
  abbrev pub next :
      {A B : Type 0} → (Error ⊎ A) × State S W → (A → Action S W B) → (Error ⊎ B) × State S W
  next (inl e, st) f = (inl e, st)
  next (inr a, st) f = f a st

  abbrev pub wrapped : {A : Type 0} → String → (Error ⊎ A) × State S W → (Error ⊎ A) × State S W
  wrapped context (inl e, st) = (inl (wrap context e), st)
  wrapped context (inr a, st) = (inr a, st)

  unfoldable pub and_then : {A B : Type 0} → Action S W A → (A → Action S W B) → Action S W B
  and_then m f st = next (m st) f

  -- What a cache holds, or else what an action returns.
  abbrev pub or_else : {A : Type 0} → Option A → Action S W A → Action S W A
  or_else (some a) m st = (inr a, st)
  or_else none m st = m st

  -- An action after a check.
  abbrev pub after_check : {A B : Type 0} → Error ⊎ B → Action S W A → Action S W A
  after_check (inl e) m st = (inl e, st)
  after_check (inr b) m st = m st

  unfoldable pub in_context : {A : Type 0} → String → Action S W A → Action S W A
  in_context context m st = wrapped context (m st)

  abbrev pub done : {A : Type 0} → Error ⊎ A → Action S W A
  done r st = (r, st)

  -- An action whose error is kept as a value.
  abbrev pub kept : {A : Type 0} → Action S W A → Action S W (Error ⊎ A)
  kept m st = let (r, st') = m st in (inr r, st')

  -- What acts on the world alone.
  unfoldable pub outside : {A : Type 0} → (W → (Error ⊎ A) × W) → Action S W A
  outside f st = let (r, world) = f st.world in (r, record st { world = world })

module _ {S W : Type 0} (p : Packages S W) (c : Settings) where
  abbrev pub ask :
      {A : Type 0} → Method → RequestPath → Option Payload → (List ℕ → Error ⊎ A) → Action S W A
  ask method path body out = outside (request p.http c method path body out)

  abbrev pub store : ℤ → S → Action S W S
  store id schema st = (inr schema, record st { cache = (id, schema) ∷ st.cache })

  unfoldable pub fetch_schema : ℤ → Action S W S
  fetch_schema id =
      and_then
        (in_context "getting resolved schema" (
          ask get (resolved_schema_path (join_path (word "schemas" ∷ word "ids" ∷ number id ∷ [])))
            none p.schema_answer))
        (λ resp.
          and_then (in_context "parsing resolved schema" (outside (p.parse resp.schema)))
            (store id))

  unfoldable pub get_schema : ℤ → Action S W S
  unfolding fetch_schema
  get_schema id st = or_else (load same_id id st.cache) (fetch_schema id) st

  -- A reference whose schema was parsed: it must have the name of the reference.
  abbrev pub named_as : List ℕ → S → Error ⊎ S
  named_as name child = elim (p.full_name child) [
    | none ↦ inl (message "GUID reference does not match its named schema")
    | some full_name ↦
        if not (bytes_equal full_name name)
        then inl (message "GUID reference does not match its named schema")
        else inr child
  ]

  abbrev pub bad_reference : SchemaReference → Option S → Bool
  bad_reference ref cached =
      (length ref.name == 0)
      || (length ref.subject == 0)
      || not (ltb_ℤ (pos 0) ref.version)
      || elim cached [ none ↦ false | some s ↦ true ]

  abbrev pub fetch_reference : SchemaReference → Action S W S
  fetch_reference ref =
      and_then
        (in_context "getting GUID reference" (
          ask get
            (resolved_schema_path
              (subject_path ref.subject (word "versions" ∷ number ref.version ∷ [])))
            none p.schema_answer))
        (λ resp.
          and_then (in_context "parsing GUID reference" (outside (p.parse_with [] resp.schema)))
            (λ child. done (named_as ref.name child)))

  unfoldable pub add_references :
      List SchemaReference → List (List ℕ × S) → Action S W (List (List ℕ × S))
  add_references [] cache = done (inr cache)
  add_references (ref ∷ refs) cache =
      if bad_reference ref (load bytes_equal ref.name cache)
      then done (inl (message "invalid or duplicate GUID schema reference"))
      else and_then (fetch_reference ref) (λ child. add_references refs ((ref.name, child) ∷ cache))

  -- "AVRO".
  abbrev pub is_avro : List ℕ → Bool
  is_avro schema_type =
      (length schema_type == 0) || bytes_equal schema_type (65 ∷ 86 ∷ 82 ∷ 79 ∷ [])

  abbrev pub store_guid : List ℕ → S → Action S W S
  store_guid guid schema st =
      (inr schema, record st { guid_cache = (guid, schema) ∷ st.guid_cache })

  abbrev pub use_answer : List ℕ → SchemaPayload → Action S W S
  use_answer guid resp =
      if not (is_avro resp.schema_type)
      then done (inl (message "GUID schema type is not AVRO"))
      else if ltb 1024 (length resp.references)
      then done (inl (formatted "GUID schema exceeds %d references" (pos 1024 ∷ [])))
      else and_then (add_references resp.references []) (λ cache.
        and_then (in_context "parsing GUID schema" (outside (p.parse_with cache resp.schema)))
          (store_guid guid))

  unfoldable pub fetch_by_guid : List ℕ → Action S W S
  fetch_by_guid guid =
      and_then
        (in_context "getting GUID schema" (
          ask get (join_path (word "schemas" ∷ word "guids" ∷ text guid ∷ [])) none
            p.schema_answer))
        (use_answer guid)

  abbrev pub load_or_fetch : List ℕ → Action S W S
  load_or_fetch guid st = or_else (load bytes_equal guid st.guid_cache) (fetch_by_guid guid) st

  unfoldable pub get_schema_by_guid : List ℕ → Action S W S
  unfolding fetch_by_guid
  get_schema_by_guid guid = after_check (check_guid guid) (load_or_fetch (to_lower guid))
