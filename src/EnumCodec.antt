-- ===== src/EnumCodec.antt =====
-- enumCodec of codec_enum.go, and Symbol of an EnumSchema in schema.go.
pub mod RoundTrip
use avro.Prelude.{
  ℕ, zero, suc, String, str_eq, Bool, true, false, not, ◌&&◌, Option, none, some, List, [], ◌∷◌,
  get_elem?, contains, length, if◌then◌else◌,
}
use avro.Prelude.Int.{ℤ, pos, negsuc}
use avro.Errors.{message}
use avro.Reader.State.{Reader, report_error}
use avro.Reader.Varint.{read_int}
use avro.Words.{to_signed}
use avro.Writer.{Writer, write_int}

-- The default is "" where there is none, and the writer's symbols are empty where they are not other.
pub record EnumSchema : Type 0 where
  pub symbols : List String
  pub default : String
  pub encoded_symbols : List String

abbrev pub resolves : List String → Bool
resolves [] = false
resolves (s ∷ rest) = true

abbrev pub wire_symbols : EnumSchema → List String
wire_symbols s = if resolves s.encoded_symbols then s.encoded_symbols else s.symbols

abbrev pub default_symbol : EnumSchema → Option String
default_symbol s = if str_eq s.default "" then none else some s.default

abbrev at_index : List String → ℤ → Option String
at_index symbols (negsuc n) = none
at_index symbols (pos i) = get_elem? symbols i

unfoldable pub symbol : EnumSchema → ℤ → Option String
symbol s i = elim (at_index (wire_symbols s) i) [
  | none ↦ none
  | some name ↦
      if resolves s.encoded_symbols && not (contains s.symbols name)
      then default_symbol s
      else some name
]

-- The string that is decoded, where there is one. An error that ReadInt met leaves the index 0.
unfoldable pub decode_enum : EnumSchema → Reader → Option String × Reader
decode_enum s r =
    let (i, r') = read_int r in
    elim (symbol s i) [
      | none ↦ (none, report_error r' "decode enum symbol" "unknown enum symbol")
      | some name ↦ (some name, r')
    ]

-- The loop over the symbols, from index `i` on; `int32(i)` wraps.
unfoldable pub encode_from : ℕ → List String → String → Writer → Writer
encode_from i [] name w = record w { error = some (message "avro: unknown enum symbol") }
encode_from i (s ∷ rest) name w =
    let later = encode_from (suc i) rest name w in
    if not (str_eq name s) then later else write_int w (to_signed 32 i)

unfoldable pub encode_enum : EnumSchema → String → Writer → Writer
unfolding encode_from
encode_enum s name w = encode_from 0 s.symbols name w
