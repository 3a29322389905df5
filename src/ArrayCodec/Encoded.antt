-- ===== src/ArrayCodec/Encoded.antt =====
-- The bytes that the array encoder of codec_array.go appends.
use avro.Prelude.{
  ℕ, zero, suc, ◌+◌, ◌^◌, ◌≤◌, ◌<◌, ◌≡◌, refl, sym, ◌∙◌, ap, arith, String, not, ◌&&◌, Option, none,
  some, List, [], ◌∷◌, ◌++◌, append_assoc, append-nil, length, length-append, take, drop,
  length-take, length-drop, take-append-drop, All, All-take, All-drop, if◌then◌else◌, Bool-cases,
  inl, inr,
}
use avro.Prelude.Int.{ℤ, pos, ltb_ℤ}
use avro.Words.{zigzag_number, InRange}
use avro.Config.{Config}
use avro.Errors.{Error}
use avro.Writer.{
  Writer, append, write_long, write_block_header, write_block_cb, negate_long, dummy_header,
}
use avro.Writer.Varint.{groups}
use avro.RoundTrip.Numbers.{long_bytes}
use avro.RoundTrip.Callback.{negate-InRange, write_block_cb-appended}
use avro.ArrayCodec.{Element, encode_items, encode_blocks, encode_array, wrap_unless_eof}

pub long_appended :
    (w : Writer) (i : ℤ) → InRange 64 i → write_long w i ≡ append w (groups 9 (zigzag_number i))
long_appended w i h =
    unfold write_long in (ap (λ t. record w { buf = t }) (unfold write_long in (long_bytes w i h)))

-- The header of a block, by the configuration alone.
abbrev pub header_of : Config → ℕ → ℕ → List ℕ
header_of c n s =
    if ltb_ℤ (pos 0) (pos s) && not c.disable_block_size_header
    then groups 9 (zigzag_number (negate_long (pos n))) ++ groups 9 (zigzag_number (pos s))
    else groups 9 (zigzag_number (pos n))

pub header_appended :
    (w : Writer) (n s : ℕ)
    → n < 2 ^ 63
    → s < 2 ^ 63
    → write_block_header w (pos n) (pos s) ≡ append w (header_of w.cfg n s)
unfolding write_block_header
header_appended w n s hn hs =
    elim (Bool-cases (ltb_ℤ (pos 0) (pos s) && not w.cfg.disable_block_size_header)) [
      | inr plain ↦ rw plain (long_appended w (pos n) hn)
      | inl sized ↦
          let head : List ℕ = groups 9 (zigzag_number (negate_long (pos n))) in
          let tail : List ℕ = groups 9 (zigzag_number (pos s)) in
          rw sized (
            ap (λ t. write_long t (pos s))
              (long_appended w (negate_long (pos n)) (negate-InRange n hn))
            ∙ long_appended (append w head) (pos s) hs
            ∙ ap (λ t. record w { buf = t }) (append_assoc w.buf head tail))
    ]

module _ {A : Type 0} (bytes_of : A → List ℕ) where
  abbrev pub body : List A → List ℕ
  body [] = []
  body (x ∷ xs) = bytes_of x ++ body xs

  -- A block with its header.
  abbrev pub block_of : Config → List A → List ℕ
  block_of c xs = header_of c (length xs) (length (body xs)) ++ body xs

  -- The blocks of the elements, `block_length` in each but the last.
  unfoldable pub blocks_of : Config → ℕ → ℕ → List A → List ℕ
  blocks_of c fuel block_length [] = []
  blocks_of c zero block_length (x ∷ xs) = []
  blocks_of c (suc fuel) block_length (x ∷ xs) =
      block_of c (take block_length (x ∷ xs))
      ++ blocks_of c fuel block_length (drop block_length (x ∷ xs))

  -- The header of an empty block, at the end.
  abbrev pub array_bytes : Config → ℕ → List A → List ℕ
  array_bytes c block_length xs = blocks_of c (length xs) block_length xs ++ header_of c 0 0

  body-append : (xs ys : List A) → body (xs ++ ys) ≡ body xs ++ body ys
  body-append [] ys = refl
  body-append (x ∷ xs) ys =
      ap (λ t. bytes_of x ++ t) (body-append xs ys)
      ∙ sym (append_assoc (bytes_of x) (body xs) (body ys))

  -- The parts of a body are no longer than it.
  pub body-parts :
      (n : ℕ) (xs : List A)
      → length (body xs) ≡ length (body (take n xs)) + length (body (drop n xs))
  body-parts n xs =
      ap (λ (t : List A). length (body t)) (sym (take-append-drop n xs))
      ∙ ap (λ (t : List ℕ). length t) (body-append (take n xs) (drop n xs))
      ∙ length-append (body (take n xs)) (body (drop n xs))

module _ {A : Type 0} (element : Element A) (typ : String) (bytes_of : A → List ℕ)
    (allowed : A → Type 0)
    (encodes : (x : A) (w : Writer)
      → allowed x
      → w.error ≡ none
      → element.encode x w ≡ append w (bytes_of x)) where
  after_item : List A → ℕ → Writer → Option Error → ℤ × Writer
  after_item xs count w none = encode_items element typ xs (suc count) w
  after_item xs count w (some e) = (pos count, record w { error = wrap_unless_eof typ (some e) })

  item_step :
      (x : A) (xs : List A) (count : ℕ) (w : Writer)
      → allowed x
      → w.error ≡ none
      → encode_items element typ (x ∷ xs) count w
        ≡ encode_items element typ xs (suc count) (append w (bytes_of x))
  unfolding after_item
  item_step x xs count w ok clean =
      let open_step : encode_items element typ (x ∷ xs) count w
          ≡ after_item xs count (element.encode x w) (element.encode x w).error =
        unfold encode_items in (ground arith) in
      open_step
      ∙ ap (λ (t : Writer). after_item xs count t t.error) (encodes x w ok clean)
      ∙ ap (λ t. after_item xs count (append w (bytes_of x)) t) clean

  items_appended :
      (xs : List A) (count : ℕ) (w : Writer)
      → All allowed xs
      → w.error ≡ none
      → encode_items element typ xs count w ≡ (pos (count + length xs), append w (body bytes_of xs))
  unfolding encode_items
  items_appended [] count w ok clean =
      let e : count + 0 ≡ count = omega arith in rw (e, append-nil w.buf) refl
  items_appended (x ∷ xs) count w (ok, oks) clean =
      let e : count + suc (length xs) ≡ suc count + length xs = omega arith in
      item_step x xs count w ok clean
      ∙ items_appended xs (suc count) (append w (bytes_of x)) oks clean
      ∙ ap (λ t. (pos t, append (append w (bytes_of x)) (body bytes_of xs))) (sym e)
      ∙ ap (λ t. (pos (count + suc (length xs)), record w { buf = t }))
          (append_assoc w.buf (bytes_of x) (body bytes_of xs))

  block_appended :
      (xs : List A) (w : Writer)
      → All allowed xs
      → w.error ≡ none
      → length xs < 2 ^ 63
      → length (body bytes_of xs) < 2 ^ 55
      → write_block_cb w (encode_items element typ xs 0)
        ≡ (pos (length xs), append w (block_of bytes_of w.cfg xs))
  block_appended xs w oks clean hn hs =
      let held : Writer = append w dummy_header in
      let called : encode_items element typ xs 0 held
          ≡ (pos (length xs), append held (body bytes_of xs)) =
        items_appended xs 0 held oks clean
        ∙ ap (λ t. (pos t, append held (body bytes_of xs))) (omega arith) in
      write_block_cb-appended w (append held (body bytes_of xs)) (encode_items element typ xs 0)
        (length xs) (body bytes_of xs) hn hs called refl
      ∙ ap (λ (t : Writer). (pos (length xs), append t (body bytes_of xs)))
          (header_appended w (length xs) (length (body bytes_of xs)) hn (omega arith))
      ∙ ap (λ t. (pos (length xs), record w { buf = t }))
          (append_assoc w.buf (header_of w.cfg (length xs) (length (body bytes_of xs)))
            (body bytes_of xs))

  after_block : ℕ → ℕ → List A → Writer → Option Error → Writer
  after_block fuel block_length rest w none = encode_blocks element typ fuel block_length rest w
  after_block fuel block_length rest w (some e) = w

  block_step :
      (fuel block_length : ℕ) (x : A) (xs : List A) (w w' : Writer) (l : ℤ)
      → write_block_cb w (encode_items element typ (take block_length (x ∷ xs)) 0) ≡ (l, w')
      → w'.error ≡ none
      → encode_blocks element typ (suc fuel) block_length (x ∷ xs) w
        ≡ encode_blocks element typ fuel block_length (drop block_length (x ∷ xs)) w'
  unfolding after_block
  block_step fuel block_length x xs w w' l e clean =
      let rest : List A = drop block_length (x ∷ xs) in
      let written : ℤ × Writer =
        write_block_cb w (encode_items element typ (take block_length (x ∷ xs)) 0) in
      let open_step : encode_blocks element typ (suc fuel) block_length (x ∷ xs) w
          ≡ after_block fuel block_length rest written.1 written.1.error =
        unfold encode_blocks in (ground arith) in
      open_step
      ∙ ap (λ (t : ℤ × Writer). after_block fuel block_length rest t.1 t.1.error) e
      ∙ ap (after_block fuel block_length rest w') clean

  blocks_appended :
      (fuel block_length : ℕ) (xs : List A) (w : Writer)
      → All allowed xs
      → w.error ≡ none
      → 0 < block_length
      → length xs ≤ fuel
      → length xs < 2 ^ 63
      → length (body bytes_of xs) < 2 ^ 55
      → encode_blocks element typ fuel block_length xs w
        ≡ append w (blocks_of bytes_of w.cfg fuel block_length xs)
  unfolding blocks_of
  blocks_appended fuel block_length [] w oks clean hb hf hn hs =
      unfold encode_blocks in (ap (λ t. record w { buf = t }) (sym (append-nil w.buf)))
  blocks_appended zero block_length (x ∷ xs) w oks clean hb hf hn hs = absurd (omega arith)
  blocks_appended (suc fuel) block_length (x ∷ xs) w oks clean hb hf hn hs =
      let ys : List A = take block_length (x ∷ xs) in
      let zs : List A = drop block_length (x ∷ xs) in
      let parts = body-parts bytes_of block_length (x ∷ xs) in
      let w' : Writer = append w (block_of bytes_of w.cfg ys) in
      let done =
        block_appended ys w (All-take allowed block_length (x ∷ xs) oks) clean
          (omega (arith, length-take block_length (x ∷ xs))) (omega arith) in
      block_step fuel block_length x xs w w' (pos (length ys)) done clean
      ∙ blocks_appended fuel block_length zs w' (All-drop allowed block_length (x ∷ xs) oks) clean
          hb (omega (arith, length-drop block_length (x ∷ xs)))
          (omega (arith, length-drop block_length (x ∷ xs))) (omega arith)
      ∙ ap (λ t. record w { buf = t })
          (append_assoc w.buf (block_of bytes_of w.cfg ys)
            (blocks_of bytes_of w.cfg fuel block_length zs))

  array_step :
      (block_length : ℕ) (xs : List A) (w w' : Writer)
      → write_block_header (encode_blocks element typ (length xs) block_length xs w) (pos 0) (pos 0)
        ≡ w'
      → w'.error ≡ none
      → encode_array element typ block_length xs w ≡ w'
  unfolding encode_array
  array_step block_length xs w w' e clean =
      ap (λ (t : Writer). record t { error = wrap_unless_eof typ t.error }) e
      ∙ ap (λ t. record w' { error = wrap_unless_eof typ t }) clean
      ∙ ap (λ t. record w' { error = t }) (sym clean)

  pub array_appended :
      (block_length : ℕ) (xs : List A) (w : Writer)
      → All allowed xs
      → w.error ≡ none
      → 0 < block_length
      → length xs < 2 ^ 63
      → length (body bytes_of xs) < 2 ^ 55
      → encode_array element typ block_length xs w
        ≡ append w (array_bytes bytes_of w.cfg block_length xs)
  array_appended block_length xs w oks clean hb hn hs =
      let bytes : List ℕ = blocks_of bytes_of w.cfg (length xs) block_length xs in
      array_step block_length xs w _
        (ap (λ t. write_block_header t (pos 0) (pos 0))
            (blocks_appended (length xs) block_length xs w oks clean hb (omega arith) hn hs)
          ∙ header_appended (append w bytes) 0 0 (omega arith) (omega arith)
          ∙ ap (λ t. record w { buf = t }) (append_assoc w.buf bytes (header_of w.cfg 0 0)))
        clean
