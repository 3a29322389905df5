-- ===== src/MapCodec.antt =====
-- codec_map.go: maps with string keys, in blocks, over the codec of the values, which reflection
-- chooses. `typ` and `elem_typ` are the texts of the types; a Go map is a function of the key, and what
-- an iteration gives of it is a list.
pub mod Encoded
pub mod Decoded
pub mod RoundTrip
use avro.Prelude.{
  ℕ, zero, suc, ◌+◌, ◌-◌, String, Bool, true, false, ◌||◌, Option, none, some, List, [], ◌∷◌,
  length, take, drop, if◌then◌else◌, ltb, ◌==◌, bytes_equal,
}
use avro.Prelude.Int.{ℤ, pos, negsuc}
use avro.Errors.{Error, wrap, is_set}
use avro.Config.{get_max_map_alloc_size}
use avro.Reader.State.{Reader, report_error, diverge, has_error}
use avro.Reader.Values.{read_block_header, read_string}
use avro.Writer.{Writer, write_block_cb, write_string}
use avro.ArrayCodec.{wrap_unless_eof}

-- The encoder and the decoder of the values.
pub record ValueCodec (V : Type 0) : Type 0 where
  pub encode : V → Writer → Writer
  pub decode : Reader → V × Reader

abbrev pub GoMap : Type 0 → Type 0
GoMap V = List ℕ → Option V

-- A map without entries, nil or made.
abbrev pub no_entries : {V : Type 0} → GoMap V
no_entries key = none

unfoldable pub set_index : {V : Type 0} → List ℕ → V → GoMap V → GoMap V
set_index key x m = λ key'. if bytes_equal key key' then some x else m key'

abbrev pub is_zero : ℤ → Bool
is_zero (pos n) = n == 0
is_zero (negsuc n) = false

abbrev pub block_count : ℤ → ℕ
block_count (pos n) = n
block_count (negsuc n) = 0

module _ {V : Type 0} (value : ValueCodec V) (typ elem_typ : String) where
  -- The callback of one block.
  unfoldable pub encode_entries : List (List ℕ × V) → ℕ → Writer → ℤ × Writer
  encode_entries [] count w = (pos count, w)
  encode_entries ((key, x) ∷ entries) count w =
      let w' = value.encode x (write_string w key) in
      elim w'.error [ some e ↦ (pos count, w') | none ↦ encode_entries entries (suc count) w' ]

  -- A round but the last takes an entry at least, so a round for each and one more are enough.
  unfoldable pub encode_rounds : ℕ → ℕ → List (List ℕ × V) → Writer → Writer
  encode_rounds zero block_length entries w = w
  encode_rounds (suc fuel) block_length entries w =
      let (wrote, w') = write_block_cb w (encode_entries (take block_length entries) 0) in
      elim (is_set w'.error || is_zero wrote) [
        | true ↦ w'
        | false ↦ encode_rounds fuel block_length (drop block_length entries) w'
      ]

  -- `blockLength` is `getBlockLength()` of the configuration that made the encoder.
  unfoldable pub encode_map : ℕ → List (List ℕ × V) → Writer → Writer
  encode_map block_length entries w =
      let w' = encode_rounds (suc (length entries)) block_length entries w in
      record w' { error = wrap_unless_eof typ w'.error }

  -- The entries of one block, and whether all were read.
  unfoldable pub decode_entries : ℕ → Reader → GoMap V → (Bool × GoMap V) × Reader
  decode_entries zero r m = ((true, m), r)
  decode_entries (suc left) r m =
      let (key, r1) = read_string r in
      let (x, r2) = value.decode r1 in
      elim r2.error [
        | some e ↦ ((false, m), record r2 { error = some (wrap elem_typ e) })
        | none ↦ decode_entries left r2 (set_index key x m)
      ]

  -- `size` entries were read by the rounds before.
  unfoldable pub decode_rounds : ℕ → ℕ → Reader → GoMap V → GoMap V × Reader
  decode_rounds zero size r m = (m, diverge r)
  decode_rounds (suc fuel) size r m =
      let ((l, block_bytes), r') = read_block_header r in
      elim (block_count l == 0 || has_error r') [
        | true ↦ (m, record r' { error = wrap_unless_eof typ r'.error })
        | false ↦ elim (ltb (get_max_map_alloc_size r.cfg - size) (block_count l)) [
          | true ↦ (m, report_error r' "decode map" "size is greater than `Config.MaxMapAllocSize`")
          | false ↦
              let ((ok, m'), r'') = decode_entries (block_count l) r' m in
              elim ok [
                | false ↦ (m', r'')
                | true ↦ decode_rounds fuel (size + block_count l) r'' m'
              ]
        ]
      ]

  -- A nil map is made empty, which is the same function of the key.
  unfoldable pub decode_map : ℕ → Reader → GoMap V → GoMap V × Reader
  unfolding decode_entries decode_rounds
  decode_map fuel r m = decode_rounds fuel 0 r m
