-- ===== src/Ocf/HeaderFields.antt =====
-- The codec of HeaderSchema in ocf/ocf.go, as codec.go and codec_record.go make it for the struct Header:
-- fixedCodec of codec_fixed.go without a decimal, the map codec of codec_map.go, and bytesCodec of
-- codec_native.go without a decimal. `order` is what an iteration over the metadata gives.
use avro.Prelude.{ℕ, zero, suc, String, ◌⊎◌, Option, none, some, List, [], ◌∷◌, length}
use avro.Prelude.Int.{pos}
use avro.Errors.{Error, message}
use avro.Config.{get_block_length}
use avro.Reader.State.{Reader, read_byte}
use avro.Reader.Stream.{stream}
use avro.Reader.Values.{read_bytes}
use avro.Writer.{Writer, append, write_bytes}
use avro.SkipCodec.{check_fixed_size}
use avro.ArrayCodec.{wrap_unless_eof}
use avro.MapCodec.{ValueCodec, GoMap, no_entries, encode_map, decode_map}
use avro.Ocf.{Header}
use avro.Ocf.Opening.{HeaderCodec}

-- An errorEncoder or errorDecoder sets its error where there is none.
abbrev or_error : String → Option Error → Option Error
or_error msg none = some (message msg)
or_error msg (some e) = some e

abbrev pub append_clean : List ℕ → Writer → Option Error → Writer
append_clean b w none = append w b
append_clean b w (some e) = w

-- The encoder is made under the configuration of the writer, which may refuse the size.
abbrev pub checked_encode : List ℕ → Writer → Option String → Writer
checked_encode b w none = append_clean b w w.error
checked_encode b w (some msg) = record w { error = or_error msg w.error }

unfoldable pub encode_fixed : List ℕ → Writer → Writer
encode_fixed b w = checked_encode b w (check_fixed_size w.cfg (pos (length b)))

unfoldable pub read_each : ℕ → Reader → List ℕ × Reader
read_each zero r = ([], r)
read_each (suc n) r = let (b, r') = read_byte r in let (bs, r'') = read_each n r' in (b ∷ bs, r'')

abbrev pub checked_decode : ℕ → Reader → Option String → List ℕ × Reader
checked_decode n r none = read_each n r
checked_decode n r (some msg) = ([], record r { error = or_error msg r.error })

unfoldable pub decode_fixed : ℕ → Reader → List ℕ × Reader
unfolding read_each
decode_fixed n r = checked_decode n r (check_fixed_size r.cfg (pos n))

abbrev pub write_clean : List ℕ → Writer → Option Error → Writer
write_clean b w none = write_bytes w b
write_clean b w (some e) = w

abbrev pub bytes_value : ValueCodec (List ℕ)
bytes_value = record { encode = λ b w. write_clean b w w.error; decode = read_bytes }

abbrev pub encode_clean : String → (Writer → Writer) → Writer → Option Error → Writer
encode_clean name encode w none =
    let w' = encode w in record w' { error = wrap_unless_eof name w'.error }
encode_clean name encode w (some e) = w

-- A field of structEncoder; the fields behind one that failed are left out.
abbrev pub encode_field : String → (Writer → Writer) → Writer → Writer
encode_field name encode w = encode_clean name encode w w.error

abbrev pub decode_clean :
    {A : Type 0} → String → A → (Reader → A × Reader) → Reader → Option Error → A × Reader
decode_clean name zero_value decode r none =
    let (x, r') = decode r in (x, record r' { error = wrap_unless_eof name r'.error })
decode_clean name zero_value decode r (some e) = (zero_value, r)

-- A field of structDecoder, over the zero value of a new Header.
abbrev pub decode_field : {A : Type 0} → String → A → (Reader → A × Reader) → Reader → A × Reader
decode_field name zero_value decode r = decode_clean name zero_value decode r r.error

abbrev pub map_type : String
map_type = "map[string][]uint8"

abbrev pub elem_type : String
elem_type = "[]uint8"

abbrev pub write_meta : List (List ℕ × List ℕ) → Writer → Writer
write_meta order w = encode_map bytes_value map_type elem_type (get_block_length w.cfg) order w

unfoldable pub encode_header : List (List ℕ × List ℕ) → Header → Writer → Writer
unfolding encode_fixed
encode_header order h w =
    encode_field "Sync" (encode_fixed h.sync)
      (encode_field "Meta" (write_meta order) (encode_field "Magic" (encode_fixed h.magic) w))

-- Each block of the map but the last takes a byte at least.
abbrev pub decode_meta : Reader → GoMap (List ℕ) × Reader
decode_meta r = decode_map bytes_value map_type elem_type (suc (length (stream r))) r no_entries

unfoldable pub decode_header : Reader → Header × Reader
unfolding decode_fixed
decode_header r =
    let (magic, r1) = decode_field "Magic" [] (decode_fixed 4) r in
    let (meta, r2) = decode_field "Meta" no_entries decode_meta r1 in
    let (sync, r3) = decode_field "Sync" [] (decode_fixed 16) r2 in
    (record { magic = magic; meta = meta; sync = sync }, r3)

abbrev pub header_codec :
    {S : Type 0} → List (List ℕ × List ℕ) → (List ℕ → Error ⊎ S) → HeaderCodec S
header_codec order parse = record {
  read_header_val = decode_header;
  write_header_val = encode_header order;
  parse = parse;
}
