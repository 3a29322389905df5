-- ===== src/ArrayCodec.antt =====
-- codec_array.go: arrays in blocks, over the codec of the elements, which reflection chooses. The
-- slice is a list; `typ` is the text of its type.
pub mod Encoded
pub mod Decoded
pub mod Longs
use avro.Prelude.{
  ℕ, zero, suc, ◌-◌, ◌/◌, ◌+◌, String, Bool, true, false, ◌||◌, Option, none, some, List, [], ◌∷◌,
  ◌++◌, length, take, drop, if◌then◌else◌, ltb, ◌==◌,
}
use avro.Prelude.Int.{ℤ, pos, negsuc}
use avro.Errors.{Error, wrap, is_eof}
use avro.Config.{Config, get_block_length, get_max_slice_alloc_size, max_alloc_size}
use avro.Reader.State.{Reader, report_error, diverge, has_error}
use avro.Reader.Values.{read_block_header}
use avro.Writer.{Writer, write_block_header, write_block_cb}

-- The decoder and the encoder of the elements, and the size of one in memory.
pub record Element (A : Type 0) : Type 0 where
  pub encode : A → Writer → Writer
  pub decode : Reader → A × Reader
  pub elem_size : ℕ

-- `if !errors.Is(err, io.EOF) { err = fmt.Errorf("typ: %w", err) }`
abbrev pub wrap_unless_eof : String → Option Error → Option Error
wrap_unless_eof typ none = none
wrap_unless_eof typ (some e) = if is_eof e then some e else some (wrap typ e)

module _ {A : Type 0} (element : Element A) (typ : String) where
  -- The callback of one block.
  unfoldable pub encode_items : List A → ℕ → Writer → ℤ × Writer
  encode_items [] count w = (pos count, w)
  encode_items (x ∷ xs) count w =
      let w' = element.encode x w in
      elim w'.error [
        | some e ↦ (pos count, record w' { error = wrap_unless_eof typ (some e) })
        | none ↦ encode_items xs (suc count) w'
      ]

  -- A block holds an element at least, so a round for each element is enough.
  unfoldable pub encode_blocks : ℕ → ℕ → List A → Writer → Writer
  encode_blocks fuel block_length [] w = w
  encode_blocks zero block_length (x ∷ xs) w = w
  encode_blocks (suc fuel) block_length (x ∷ xs) w =
      let (count, w') = write_block_cb w (encode_items (take block_length (x ∷ xs)) 0) in
      elim w'.error [
        | some e ↦ w'
        | none ↦ encode_blocks fuel block_length (drop block_length (x ∷ xs)) w'
      ]

  -- `blockLength` is `getBlockLength()` of the configuration that made the encoder.
  unfoldable pub encode_array : ℕ → List A → Writer → Writer
  encode_array block_length xs w =
      let w' = write_block_header (encode_blocks (length xs) block_length xs w) (pos 0) (pos 0) in
      record w' { error = wrap_unless_eof typ w'.error }

  -- The elements of one block, and whether all were read. Elements behind one that failed are zero
  -- values in the slice; they are left out.
  unfoldable pub decode_items : ℕ → Reader → (Bool × List A) × Reader
  decode_items zero r = ((true, []), r)
  decode_items (suc left) r =
      let (x, r') = element.decode r in
      elim r'.error [
        | some e ↦ ((false, x ∷ []), record r' { error = some (wrap typ e) })
        | none ↦ let ((ok, xs), r'') = decode_items left r' in ((ok, x ∷ xs), r'')
      ]

  abbrev pub max_runtime_size : ℕ
  max_runtime_size =
      if ltb 0 element.elem_size then max_alloc_size / element.elem_size else max_alloc_size

  abbrev pub count_of : ℤ → ℕ
  count_of (pos n) = n
  count_of (negsuc n) = 0

  abbrev pub too_large : ℕ → ℕ → ℕ → Bool
  too_large limit size l = ltb limit size || ltb (limit - size) l

  -- `size` elements were read by the rounds before.
  unfoldable pub decode_blocks : ℕ → ℕ → Reader → List A × Reader
  decode_blocks zero size r = ([], diverge r)
  decode_blocks (suc fuel) size r =
      let ((l, block_bytes), r') = read_block_header r in
      elim (count_of l == 0 || has_error r') [
        | true ↦ ([], record r' { error = wrap_unless_eof typ r'.error })
        | false ↦ elim (too_large (get_max_slice_alloc_size r.cfg) size (count_of l)) [
          | true ↦
              ([], report_error r' "decode array" "size is greater than `Config.MaxSliceAllocSize`")
          | false ↦ elim (too_large max_runtime_size size (count_of l)) [
            | true ↦ (
              [],
              report_error r' "decode array" "size is greater than the runtime allocation limit",
            )
            | false ↦
                let ((ok, xs), r'') = decode_items (count_of l) r' in
                elim ok [
                  | false ↦ (xs, r'')
                  | true ↦
                      let (ys, r''') = decode_blocks fuel (size + count_of l) r'' in
                      (xs ++ ys, r''')
                ]
          ]
        ]
      ]
