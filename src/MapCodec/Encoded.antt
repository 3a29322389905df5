-- ===== src/MapCodec/Encoded.antt =====
-- The bytes that the map encoder of codec_map.go appends.
use avro.Prelude.{
  ℕ, zero, suc, ◌+◌, ◌^◌, ◌≤◌, ◌<◌, ◌≡◌, refl, sym, ◌∙◌, ap, arith, String, Bool, true, false, ◌||◌,
  Option, none, some, List, [], ◌∷◌, ◌++◌, append_assoc, append-nil, length, take, drop,
  length-take, length-drop, All, All-take, All-drop,
}
use avro.Prelude.Int.{ℤ, pos}
use avro.Words.{zigzag_number}
use avro.Utf8.{utf8_valid}
use avro.Errors.{Error, is_set}
use avro.Writer.{Writer, append, write_long, write_string, write_block_cb, dummy_header}
use avro.Writer.Varint.{groups}
use avro.RoundTrip.Callback.{write_block_cb-appended}
use avro.ArrayCodec.{wrap_unless_eof}
use avro.ArrayCodec.Encoded.{
  long_appended, header_of, header_appended, body, block_of, blocks_of, body-parts,
}
use avro.MapCodec.{ValueCodec, encode_entries, encode_rounds, encode_map, is_zero}

nonzero : (n : ℕ) → is_zero (pos (suc n)) ≡ false
nonzero n = ground arith

abbrev pub IsKey : List ℕ → Type 0
IsKey key = (utf8_valid key ≡ true) × (length key < 2 ^ 63)

abbrev pub key_bytes : List ℕ → List ℕ
key_bytes key = groups 9 (zigzag_number (pos (length key))) ++ key

string_step :
    (key : List ℕ) (w : Writer)
    → utf8_valid key ≡ true
    → w.error ≡ none
    → write_string w key ≡ append (write_long w (pos (length key))) key
unfolding write_string
string_step key w valid clean = ground arith

pub write_string-append :
    (key : List ℕ) (w : Writer)
    → IsKey key
    → w.error ≡ none
    → write_string w key ≡ append w (key_bytes key)
write_string-append key w (valid, short) clean =
    string_step key w valid clean
    ∙ ap (λ (t : Writer). append t key) (long_appended w (pos (length key)) (omega arith))
    ∙ ap (λ t. record w { buf = t })
        (append_assoc w.buf (groups 9 (zigzag_number (pos (length key)))) key)

module _ {V : Type 0} (value : ValueCodec V) (typ elem_typ : String) (bytes_of : V → List ℕ)
    (allowed : V → Type 0)
    (encodes : (x : V) (w : Writer)
      → allowed x
      → w.error ≡ none
      → value.encode x w ≡ append w (bytes_of x)) where
  abbrev pub entry_bytes : List ℕ × V → List ℕ
  entry_bytes (key, x) = key_bytes key ++ bytes_of x

  abbrev pub IsEntry : List ℕ × V → Type 0
  IsEntry (key, x) = IsKey key × allowed x

  after_entry : List (List ℕ × V) → ℕ → Writer → Option Error → ℤ × Writer
  after_entry entries count w none = encode_entries value typ elem_typ entries (suc count) w
  after_entry entries count w (some e) = (pos count, w)

  entry_appended :
      (key : List ℕ) (x : V) (w : Writer)
      → IsEntry (key, x)
      → w.error ≡ none
      → value.encode x (write_string w key) ≡ append w (entry_bytes (key, x))
  entry_appended key x w (ok, ok') clean =
      ap (λ t. value.encode x t) (write_string-append key w ok clean)
      ∙ encodes x (append w (key_bytes key)) ok' clean
      ∙ ap (λ t. record w { buf = t }) (append_assoc w.buf (key_bytes key) (bytes_of x))

  entry_step :
      (key : List ℕ) (x : V) (entries : List (List ℕ × V)) (count : ℕ) (w : Writer)
      → IsEntry (key, x)
      → w.error ≡ none
      → encode_entries value typ elem_typ ((key, x) ∷ entries) count w
        ≡ encode_entries value typ elem_typ entries (suc count) (append w (entry_bytes (key, x)))
  unfolding after_entry
  entry_step key x entries count w ok clean =
      let w' : Writer = value.encode x (write_string w key) in
      let open_step : encode_entries value typ elem_typ ((key, x) ∷ entries) count w
          ≡ after_entry entries count w' w'.error =
        unfold encode_entries in (ground arith) in
      open_step
      ∙ ap (λ (t : Writer). after_entry entries count t t.error) (entry_appended key x w ok clean)
      ∙ ap (λ t. after_entry entries count (append w (entry_bytes (key, x))) t) clean

  entries_appended :
      (entries : List (List ℕ × V)) (count : ℕ) (w : Writer)
      → All IsEntry entries
      → w.error ≡ none
      → encode_entries value typ elem_typ entries count w
        ≡ (pos (count + length entries), append w (body entry_bytes entries))
  unfolding encode_entries
  entries_appended [] count w oks clean =
      let e : count + 0 ≡ count = omega arith in rw (e, append-nil w.buf) refl
  entries_appended ((key, x) ∷ entries) count w (ok, oks) clean =
      let e : count + suc (length entries) ≡ suc count + length entries = omega arith in
      let bytes : List ℕ = entry_bytes (key, x) in
      entry_step key x entries count w ok clean
      ∙ entries_appended entries (suc count) (append w bytes) oks clean
      ∙ ap (λ t. (pos t, append (append w bytes) (body entry_bytes entries))) (sym e)
      ∙ ap (λ t. (pos (count + suc (length entries)), record w { buf = t }))
          (append_assoc w.buf bytes (body entry_bytes entries))

  block_appended :
      (entries : List (List ℕ × V)) (w : Writer)
      → All IsEntry entries
      → w.error ≡ none
      → length entries < 2 ^ 63
      → length (body entry_bytes entries) < 2 ^ 55
      → write_block_cb w (encode_entries value typ elem_typ entries 0)
        ≡ (pos (length entries), append w (block_of entry_bytes w.cfg entries))
  block_appended entries w oks clean hn hs =
      let held : Writer = append w dummy_header in
      let bytes : List ℕ = body entry_bytes entries in
      let called : encode_entries value typ elem_typ entries 0 held
          ≡ (pos (length entries), append held bytes) =
        entries_appended entries 0 held oks clean
        ∙ ap (λ t. (pos t, append held bytes)) (omega arith) in
      write_block_cb-appended w (append held bytes) (encode_entries value typ elem_typ entries 0)
        (length entries) bytes hn hs called refl
      ∙ ap (λ (t : Writer). (pos (length entries), append t bytes))
          (header_appended w (length entries) (length bytes) hn (omega arith))
      ∙ ap (λ t. (pos (length entries), record w { buf = t }))
          (append_assoc w.buf (header_of w.cfg (length entries) (length bytes)) bytes)

  after_block : ℕ → ℕ → List (List ℕ × V) → Bool → Writer → Writer
  after_block fuel block_length rest true w = w
  after_block fuel block_length rest false w =
      encode_rounds value typ elem_typ fuel block_length rest w

  open_round :
      (fuel block_length : ℕ) (entries : List (List ℕ × V)) (w : Writer) (out : ℤ × Writer)
      → write_block_cb w (encode_entries value typ elem_typ (take block_length entries) 0) ≡ out
      → encode_rounds value typ elem_typ (suc fuel) block_length entries w
        ≡ after_block fuel block_length
            (drop block_length entries)
            (is_set out.1.error || is_zero out.0)
            out.1
  unfolding after_block encode_rounds
  open_round fuel block_length entries w out e =
      (ground arith)
      ∙ ap
          (λ (t : ℤ × Writer).
            after_block fuel block_length (drop block_length entries)
              (is_set t.1.error || is_zero t.0) t.1)
          e

  rounds_appended :
      (fuel block_length : ℕ) (entries : List (List ℕ × V)) (w : Writer)
      → All IsEntry entries
      → w.error ≡ none
      → 0 < block_length
      → length entries ≤ fuel
      → length entries < 2 ^ 63
      → length (body entry_bytes entries) < 2 ^ 55
      → encode_rounds value typ elem_typ (suc fuel) block_length entries w
        ≡ append w (blocks_of entry_bytes w.cfg fuel block_length entries ++ header_of w.cfg 0 0)
  unfolding blocks_of after_block
  rounds_appended fuel zero entries w oks clean hb hf hn hs = absurd (omega arith)
  rounds_appended fuel (suc l) [] w oks clean hb hf hn hs =
      open_round fuel (suc l) [] w _ (block_appended [] w tt clean (omega arith) (omega arith))
      ∙ ap
          (λ t.
            after_block fuel (suc l) [] (is_set t || true)
              (append w (block_of entry_bytes w.cfg [])))
          clean
      ∙ ap (λ t. append w t) (append-nil (header_of w.cfg 0 0))
  rounds_appended zero (suc l) (x ∷ xs) w oks clean hb hf hn hs = absurd (omega arith)
  rounds_appended (suc fuel) (suc l) (x ∷ xs) w oks clean hb hf hn hs =
      let ys : List (List ℕ × V) = take (suc l) (x ∷ xs) in
      let zs : List (List ℕ × V) = drop (suc l) (x ∷ xs) in
      let parts = body-parts entry_bytes (suc l) (x ∷ xs) in
      let w' : Writer = append w (block_of entry_bytes w.cfg ys) in
      let later = blocks_of entry_bytes w.cfg fuel (suc l) zs in
      let end = header_of w.cfg 0 0 in
      let done =
        block_appended ys w (All-take IsEntry (suc l) (x ∷ xs) oks) clean
          (omega (arith, length-take (suc l) (x ∷ xs))) (omega arith) in
      open_round (suc fuel) (suc l) (x ∷ xs) w (pos (length ys), w') done
      ∙ ap (λ t. after_block (suc fuel) (suc l) zs (is_set t || is_zero (pos (length ys))) w') clean
      ∙ ap (λ t. after_block (suc fuel) (suc l) zs t w') (nonzero (length (take l xs)))
      ∙ rounds_appended fuel (suc l) zs w' (All-drop IsEntry (suc l) (x ∷ xs) oks) clean hb
          (omega (arith, length-drop (suc l) (x ∷ xs)))
          (omega (arith, length-drop (suc l) (x ∷ xs))) (omega arith)
      ∙ ap (λ t. record w { buf = t })
          (append_assoc w.buf (block_of entry_bytes w.cfg ys) (later ++ end)
            ∙ ap (λ t. w.buf ++ t) (sym (append_assoc (block_of entry_bytes w.cfg ys) later end)))

  map_step :
      (block_length : ℕ) (entries : List (List ℕ × V)) (w w' : Writer)
      → encode_rounds value typ elem_typ (suc (length entries)) block_length entries w ≡ w'
      → w'.error ≡ none
      → encode_map value typ elem_typ block_length entries w ≡ w'
  unfolding encode_map
  map_step block_length entries w w' e clean =
      ap (λ (t : Writer). record t { error = wrap_unless_eof typ t.error }) e
      ∙ ap (λ t. record w' { error = wrap_unless_eof typ t }) clean
      ∙ ap (λ t. record w' { error = t }) (sym clean)

  pub map_appended :
      (block_length : ℕ) (entries : List (List ℕ × V)) (w : Writer)
      → All IsEntry entries
      → w.error ≡ none
      → 0 < block_length
      → length entries < 2 ^ 63
      → length (body entry_bytes entries) < 2 ^ 55
      → encode_map value typ elem_typ block_length entries w
        ≡ append w (
            blocks_of entry_bytes w.cfg (length entries) block_length entries
            ++ header_of w.cfg 0 0)
  map_appended block_length entries w oks clean hb hn hs =
      map_step block_length entries w _
        (rounds_appended (length entries) block_length entries w oks clean hb (omega arith) hn hs)
        clean
