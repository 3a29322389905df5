-- ===== src/Errors.antt =====
-- The `error` values of the package: sentinels of Go's io package, reports, and wrapped errors.
use avro.Prelude.{ℕ, String, Bool, true, false, Option, none, some, ◌||◌, List}
use avro.Prelude.Int.{ℤ}

pub data Error : Type 0 where
  -- io.EOF, io.ErrUnexpectedEOF, io.ErrNoProgress and io.ErrShortWrite.
  eof unexpected_eof no_progress short_write : Error
  -- Any other error of an io.Reader or io.Writer.
  external : ℕ → Error
  -- `fmt.Errorf("avro: %s: %s", operation, msg)` of ReportError.
  report : String → String → Error
  -- `errors.New(msg)`.
  message : String → Error
  -- `fmt.Errorf(format, …)` over numbers, or over the bytes of a string.
  formatted : String → List ℤ → Error
  -- `fmt.Errorf("context: %w", err)`.
  wrap : String → Error → Error
  -- The Error of the registry package: a status, a code and a message.
  registry : ℤ → ℤ → List ℕ → Error
  -- `fmt.Errorf(text + " %s", value)`.
  about : String → String → Error
  -- `errors.Join(err, other)`.
  join : Error → Error → Error
  -- No Go error: a loop of the model ran out of fuel.
  diverged : Error

-- `errors.Is(err, io.EOF)`.
unfoldable pub is_eof : Error → Bool
is_eof eof = true
is_eof (wrap context e) = is_eof e
is_eof (join e e') = is_eof e || is_eof e'
is_eof _ = false

abbrev pub is_set : Option Error → Bool
is_set none = false
is_set (some e) = true
