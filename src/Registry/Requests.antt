-- ===== src/Registry/Requests.antt =====
-- registry/client.go: the paths and the requests of the client, and how it reads the answers. The
-- HTTP client with everything behind it, and the decoding of JSON, are parameters.
use avro.Prelude.{
  ℕ, ◌+◌, ◌-◌, ◌/◌, ◌%◌, ◌^◌, String, Bool, true, false, not, ◌&&◌, ◌||◌, ◌⊎◌, inl, inr, Option,
  none, some, List, [], ◌∷◌, if◌then◌else◌, ltb, leb, ◌==◌, length, take, bytes_equal,
}
use avro.Prelude.Int.{ℤ, pos, ltb_ℤ, pos_part}
use avro.Errors.{Error, message, registry, wrap}

-- An element of the path that path.Join puts together: a word, a number as strconv.Itoa prints it, or
-- a text.
pub data Segment : Type 0 where
  word : String → Segment
  number : ℤ → Segment
  text : List ℕ → Segment

pub record RequestPath : Type 0 where
  pub segments : List Segment
  -- Whether "?format=resolved" follows.
  pub resolved : Bool

-- `path.Join` of elements without a slash, none of which is "." or "..": it leaves out the empty ones.
unfoldable pub join_path : List Segment → RequestPath
join_path [] = record { segments = []; resolved = false }
join_path (text [] ∷ ss) = join_path ss
join_path (s ∷ ss) = record { segments = s ∷ (join_path ss).segments; resolved = false }

unfoldable pub resolved_schema_path : RequestPath → RequestPath
resolved_schema_path p = record p { resolved = true }

-- `url.PathEscape`: letters, digits, and "-_.~$&+=:@" stay.
unfoldable pub stays : ℕ → Bool
stays c =
    (leb 97 c && leb c 122)
    || (leb 65 c && leb c 90)
    || (leb 48 c && leb c 57)
    || c == 45
    || c == 95
    || c == 46
    || c == 126
    || c == 36
    || c == 38
    || c == 43
    || c == 61
    || c == 58
    || c == 64

abbrev pub upper_digit : ℕ → ℕ
upper_digit n = if ltb n 10 then 48 + n else 55 + n

unfoldable pub path_escape : List ℕ → List ℕ
path_escape [] = []
path_escape (c ∷ cs) =
    let rest = path_escape cs in
    if stays c then c ∷ rest else 37 ∷ upper_digit (c / 16) ∷ upper_digit (c % 16) ∷ rest

-- "." and ".." would lead out of the path.
unfoldable pub escape_subject : List ℕ → List ℕ
escape_subject subject =
    let escaped = path_escape subject in
    if bytes_equal escaped (46 ∷ [])
    then 37 ∷ 50 ∷ 69 ∷ []
    else if bytes_equal escaped (46 ∷ 46 ∷ [])
    then 37 ∷ 50 ∷ 69 ∷ 37 ∷ 50 ∷ 69 ∷ []
    else escaped

pub data Method : Type 0 where
  get delete put post : Method

pub record SchemaReference : Type 0 where
  pub name : List ℕ
  pub subject : List ℕ
  pub version : ℤ

pub data Payload : Type 0 where
  schema_payload : List ℕ → List SchemaReference → Payload
  compat_payload : String → Payload

pub record Credentials : Type 0 where
  pub username : List ℕ
  pub password : List ℕ

pub record HttpRequest : Type 0 where
  pub method : Method
  pub path : RequestPath
  pub body : Option Payload
  pub basic_auth : Option Credentials

-- A response whose body gives `bytes`, and then the error or the end.
pub record HttpResponse : Type 0 where
  pub status_code : ℤ
  pub bytes : List ℕ
  pub read_err : Option Error

-- The client without its caches.
pub record Settings : Type 0 where
  pub has_client : Bool
  pub response_limit : ℤ
  pub creds : Credentials

-- The world that the HTTP client acts on; bytes.TrimSpace that leaves nothing; json.Unmarshal into an
-- Error, which may fail after it set the code and the message.
pub record Http (W : Type 0) : Type 0 where
  pub perform : HttpRequest → W → (Error ⊎ HttpResponse) × W
  pub is_blank : List ℕ → Bool
  pub unmarshal_error : List ℕ → Option Error × (ℤ × List ℕ)

abbrev eq_ℤ : ℤ → ℤ → Bool
eq_ℤ a b = not (ltb_ℤ a b) && not (ltb_ℤ b a)

unfoldable pub validate : Settings → Option Error
validate c =
    if not c.has_client
    then some (message "http client cannot be nil")
    else if not (ltb_ℤ (pos 0) c.response_limit) || eq_ℤ c.response_limit (pos (2 ^ 63 - 1))
    then some (message "response byte limit must be positive and less than math.MaxInt64")
    else none

abbrev limit_error : Error
limit_error = message "registry response exceeds byte limit"

-- A body that does not decode gives the text of that error too.
abbrev status_error : ℤ → Option Error × (ℤ × List ℕ) → Error
status_error status (none, (code, msg)) = registry status code msg
status_error status (some e, (code, msg)) =
    wrap "invalid registry error response" (registry status code msg)

abbrev pub auth_of : Credentials → Option Credentials
auth_of creds =
    if ltb 0 (length creds.username) || ltb 0 (length creds.password) then some creds else none

module _ {W : Type 0} (http : Http W) where
  abbrev failed : HttpResponse → List ℕ → Error
  failed resp data_read =
      if http.is_blank data_read
      then registry resp.status_code (pos 0) []
      else status_error resp.status_code (http.unmarshal_error data_read)

module _ {W R : Type 0} (http : Http W) where
  -- `io.ReadAll(io.LimitReader(resp.Body, c.responseLimit+1))`, and what follows.
  unfoldable pub read_response : ℤ → (List ℕ → Error ⊎ R) → HttpResponse → Error ⊎ R
  read_response limit out resp =
      let data_read = take (pos_part limit + 1) resp.bytes in
      if ltb (pos_part limit) (length data_read) then inl limit_error else elim resp.read_err [
        | some e ↦ inl (wrap "could not read registry response" e)
        | none ↦
            if ltb_ℤ resp.status_code (pos 200) || not (ltb_ℤ resp.status_code (pos 300))
            then inl (failed http resp data_read)
            else out data_read
      ]

  abbrev after_do : ℤ → (List ℕ → Error ⊎ R) → (Error ⊎ HttpResponse) × W → (Error ⊎ R) × W
  after_do limit out (inl e, world) = (inl (wrap "could not perform request" e), world)
  after_do limit out (inr resp, world) = (read_response limit out resp, world)

  unfoldable pub request :
      Settings → Method → RequestPath → Option Payload → (List ℕ → Error ⊎ R) → W → (Error ⊎ R) × W
  unfolding validate
  request c method path body out world = elim (validate c) [
    | some e ↦ (inl e, world)
    | none ↦ after_do c.response_limit out (
        http.perform
          (record { method = method; path = path; body = body; basic_auth = auth_of c.creds })
          world)
  ]
