-- ===== src/EnumCodec/RoundTrip.antt =====
-- enumCodec of codec_enum.go: its encoder and its decoder together.
use avro.Prelude.{
  ℕ, suc, ◌+◌, ◌^◌, ◌<◌, ◌≡◌, refl, sym, ◌∙◌, ap, arith, String, str_eq, str_eq_iff, not, ◌&&◌,
  Option, some, List, [], ◌∷◌, ◌++◌, get_elem?, length, IsIn, contains, Bool-cases, inl, inr,
  if◌then◌else◌,
}
use avro.Prelude.Int.{pos}
use avro.Reader.State.{Reader}
use avro.Reader.Varint.{read_int}
use avro.Reader.Stream.{stream, IsSteady}
use avro.Writer.{Writer, write_int}
use avro.RoundTrip.Numbers.{Returns, read_int-write_int}
use avro.EnumCodec.{
  EnumSchema, symbol, decode_enum, encode_enum, encode_from, wire_symbols, resolves, default_symbol,
}

-- The symbol that the reader's schema has for a symbol of the writer: itself, or the default.
abbrev pub seen_symbol : EnumSchema → String → Option String
seen_symbol s name =
    if resolves s.encoded_symbols && not (contains s.symbols name)
    then default_symbol s
    else some name

-- Encoding a symbol writes one of its places.
encoded :
    (start : ℕ) (symbols : List String) (name : String) (w : Writer)
    → IsIn name symbols
    → start + length symbols < 2 ^ 31
    → (i : ℕ) × (get_elem? symbols i ≡ some name)
      × (i < length symbols)
      × (encode_from start symbols name w ≡ write_int w (pos (start + i)))
unfolding encode_from
encoded start [] name w h small = absurd h
encoded start (s ∷ rest) name w h small = elim (Bool-cases (str_eq name s)) [
  | inl same ↦
      let e : name ≡ s = (str_eq_iff name s).0 same in
      let place : start + 0 ≡ start = omega arith in
      (0, ap some (sym e), omega arith, rw (place) (ground (arith, same)))
  | inr other ↦
      let later : IsIn name rest = elim h [
        | inl same ↦ absurd (ground (arith, other, (str_eq_iff name s).1 (sym same)))
        | inr later ↦ later
      ] in
      let (i, at, inside, e) = encoded (suc start) rest name w later (omega arith) in
      let place : start + suc i ≡ suc start + i = omega arith in
      (suc i, at, omega arith, rw (place, ← e) (ground (arith, other)))
]

symbol_step :
    (s : EnumSchema) (name shown : String) (i : ℕ)
    → get_elem? (wire_symbols s) i ≡ some name
    → seen_symbol s name ≡ some shown
    → symbol s (pos i) ≡ some shown
unfolding symbol
symbol_step s name shown i at seen = rw (symbol, at, seen) refl

decode_step :
    (s : EnumSchema) (name shown : String) (i : ℕ) (r : Reader)
    → (read_int r).0 ≡ pos i
    → get_elem? (wire_symbols s) i ≡ some name
    → seen_symbol s name ≡ some shown
    → decode_enum s r ≡ (some shown, (read_int r).1)
unfolding decode_enum
decode_step s name shown i r index at seen =
    ground (arith, index, symbol_step s name shown i at seen)

-- A symbol that the writer's schema has is decoded, from a reader whose bytes to come begin with the
-- encoded ones, under any reader's schema whose wire symbols are the writer's: as itself, where the
-- reader has it, and else as the reader's default, if there is one. The decoder takes what was
-- appended and no more, and reports no error.
pub decode_enum-encode_enum :
    (writer reader : EnumSchema) (name shown : String) (w : Writer) (sent rest : List ℕ)
    (r : Reader)
    → IsIn name writer.symbols
    → length writer.symbols < 2 ^ 31
    → wire_symbols reader ≡ writer.symbols
    → seen_symbol reader name ≡ some shown
    → (encode_enum writer name w).buf ≡ w.buf ++ sent
    → IsSteady r
    → stream r ≡ sent ++ rest
    → Returns (some shown) rest (decode_enum reader r)
unfolding encode_enum
decode_enum-encode_enum writer reader name shown w sent rest r h small wire seen appended st e =
    let (i, at, inside, written) = encoded 0 writer.symbols name w h (omega arith) in
    let place : 0 + i ≡ i = omega arith in
    let sent' : (write_int w (pos i)).buf ≡ w.buf ++ sent =
      ap (λ t. (write_int w (pos t)).buf) (sym place)
      ∙ ap (λ (t : Writer). t.buf) (sym written)
      ∙ appended in
    let (value, st', left) = read_int-write_int w (pos i) sent rest r (omega arith) sent' st e in
    rw (decode_step reader name shown i r value (rw wire at) seen) (refl, st', left)
