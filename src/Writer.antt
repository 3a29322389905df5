-- ===== src/Writer.antt =====
-- writer.go: the state of a Writer and its operations. `w.out` is the list of the answers that its
-- Write will give, since the code behind an io.Writer is not part of the package, with the bytes that
-- it has taken; a list that has run out takes all.
pub mod Varint
pub mod Sink
use avro.Prelude.{
  ℕ, zero, suc, ◌+◌, ◌-◌, ◌*◌, ◌/◌, ◌%◌, ◌^◌, bit_or, String, Bool, true, false, not, ◌&&◌, Option,
  none, some, List, [], ◌∷◌, ◌++◌, if◌then◌else◌, ltb, length, take, drop,
}
use avro.Prelude.Int.{ℤ, pos, negsuc, ltb_ℤ}
use avro.Words.{zigzag, to_word, to_signed}
use avro.Utf8.{utf8_valid}
use avro.Errors.{Error, message, short_write}
use avro.Config.{Config}

-- One answer of `Write(p)`: how many bytes it took, and the error.
pub record WriteResult : Type 0 where
  pub count : ℕ
  pub err : Option Error

pub record Output : Type 0 where
  pub taken : List ℕ
  pub answers : List WriteResult

pub record Writer : Type 0 where
  pub cfg : Config
  pub config_err : Option Error
  pub out : Option Output
  pub buf : List ℕ
  pub error : Option Error

-- `NewWriter` with the configuration of an API, and its error where the API is not one of the package.
unfoldable pub new_writer : Config → Option Error → Option Output → Writer
new_writer cfg config_err out = record {
  cfg = cfg;
  config_err = config_err;
  out = out;
  buf = [];
  error = config_err;
}

-- `Reset(out)` of a writer that has a configuration.
unfoldable pub reset : Writer → Option Output → Writer
reset w out = record w { out = out; buf = []; error = w.config_err }

abbrev take_all : Output → List ℕ → WriteResult × Output
take_all out bytes = (
  record { count = length bytes; err = none },
  record { taken = out.taken ++ bytes; answers = [] },
)

-- `w.out.Write(bytes)`.
unfoldable pub write_out : Output → List ℕ → WriteResult × Output
write_out out bytes = elim out.answers [
  | [] ↦ take_all out bytes
  | answer ∷ rest ↦
      (answer, record { taken = out.taken ++ take answer.count bytes; answers = rest })
]

abbrev flush_error : ℕ → WriteResult → Option Error
flush_error size answer = elim answer.err [
  | some e ↦ some e
  | none ↦ if ltb answer.count size then some short_write else none
]

abbrev flushed : Writer → Option Error → Option Error × Writer
flushed w (some e) = (some e, record w { error = some e })
flushed w none = (none, record w { buf = [] })

abbrev flush_to : Option Output → Writer → Option Error × Writer
flush_to none w = (none, w)
flush_to (some out) w =
    let (answer, out') = write_out out w.buf in
    flushed (record w { out = some out' }) (flush_error (length w.buf) answer)

unfoldable pub flush : Writer → Option Error × Writer
unfolding write_out
flush w = elim w.error [ some e ↦ (some e, w) | none ↦ flush_to w.out w ]

abbrev pub append : Writer → List ℕ → Writer
append w bytes = record w { buf = w.buf ++ bytes }

unfoldable pub write_bool : Writer → Bool → Writer
write_bool w b = if b then append w (0x01 ∷ []) else append w (0x00 ∷ [])

-- `binary.AppendUvarint` of Go's standard library, in at most `suc n` bytes.
unfoldable pub append_uvarint : ℕ → List ℕ → ℕ → List ℕ
append_uvarint zero buffer value = buffer ++ value % 256 ∷ []
append_uvarint (suc n) buffer value =
    let more = append_uvarint n (buffer ++ bit_or (value % 256) 0x80 ∷ []) (value / 2 ^ 7) in
    if ltb value 0x80 then buffer ++ value % 256 ∷ [] else more

-- Ten bytes are enough for 64 bits.
unfoldable pub append_varint : List ℕ → ℕ → List ℕ
append_varint buffer value =
    if ltb value 0x80
    then buffer ++ value % 256 ∷ []
    else if ltb value 0x4000
    then buffer ++ bit_or (value % 256) 0x80 ∷ value / 2 ^ 7 % 256 ∷ []
    else append_uvarint 9 buffer value

abbrev encode_int : Writer → ℕ → Writer
encode_int w i = record w { buf = append_varint w.buf i }

unfoldable pub write_int : Writer → ℤ → Writer
write_int w i = encode_int w (zigzag 32 i)

unfoldable pub write_long : Writer → ℤ → Writer
write_long w i = encode_int w (zigzag 64 i)

-- `binary.LittleEndian.AppendUint32` and `AppendUint64`: `n` bytes, the lowest first.
unfoldable pub little_bytes : ℕ → ℕ → List ℕ
little_bytes zero v = []
little_bytes (suc n) v = v % 256 ∷ little_bytes n (v / 256)

-- A float is its bit pattern.
unfoldable pub write_float : Writer → ℕ → Writer
unfolding little_bytes
write_float w bits = append w (little_bytes 4 bits)

unfoldable pub write_double : Writer → ℕ → Writer
unfolding little_bytes
write_double w bits = append w (little_bytes 8 bits)

unfoldable pub write_bytes : Writer → List ℕ → Writer
write_bytes w b = append (write_long w (pos (length b))) b

unfoldable pub write_string : Writer → List ℕ → Writer
write_string w s = elim w.error [
  | some e ↦ w
  | none ↦
      if utf8_valid s
      then append (write_long w (pos (length s))) s
      else record w { error = some (message "avro: WriteString: invalid UTF-8") }
]

-- `-l` on an int64.
abbrev pub negate_long : ℤ → ℤ
negate_long i = to_signed 64 ((2 ^ 64 - to_word 64 i) % 2 ^ 64)

unfoldable pub write_block_header : Writer → ℤ → ℤ → Writer
write_block_header w l s =
    if ltb_ℤ (pos 0) s && not w.cfg.disable_block_size_header
    then write_long (write_long w (negate_long l)) s
    else write_long w l

abbrev pub dummy_header : List ℕ
dummy_header = 0 ∷ 0 ∷ 0 ∷ 0 ∷ 0 ∷ 0 ∷ 0 ∷ 0 ∷ 0 ∷ 0 ∷ 0 ∷ 0 ∷ 0 ∷ 0 ∷ 0 ∷ 0 ∷ 0 ∷ 0 ∷ []

-- `captured` shares its memory with the buffer: the new header is written from the header's place on
-- over what is there, and `captured` is read after that.
abbrev pub overwrite : List ℕ → List ℕ → List ℕ
overwrite memory written = written ++ drop (length written) memory

unfoldable pub write_block_cb : Writer → (Writer → ℤ × Writer) → ℤ × Writer
write_block_cb w callback =
    let header_start = length w.buf in
    let w₁ = append w dummy_header in
    let captured_at = length w₁.buf in
    let (l, w₂) = callback w₁ in
    let size = length w₂.buf - captured_at in
    let w₃ = write_block_header (record w₂ { buf = take header_start w₂.buf }) l (pos size) in
    let captured = take size (drop captured_at (overwrite w₂.buf w₃.buf)) in (l, append w₃ captured)
