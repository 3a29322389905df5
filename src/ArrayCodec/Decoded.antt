-- ===== src/ArrayCodec/Decoded.antt =====
-- The array decoder of codec_array.go on the bytes that the encoder appends.
use avro.Prelude.{
  ℕ, zero, suc, ◌+◌, ◌^◌, ◌≤◌, ◌<◌, ◌≡◌, refl, sym, ◌∙◌, ap, arith, String, true, none, List, [],
  ◌∷◌, ◌++◌, append_assoc, append_cancel_left, length, take, drop, length-take, length-drop,
  take-append-drop, All, All-take, All-drop,
}
use avro.Prelude.Int.{ℤ, pos, negsuc}
use avro.Words.{zigzag_number}
use avro.Config.{Config, get_max_slice_alloc_size, get_block_length, get_block_length_positive}
use avro.Reader.State.{Reader, report_error}
use avro.Reader.Varint.{read_long, long_width}
use avro.Reader.Values.{read_block_header, block_header, block_size}
use avro.Reader.Stream.{stream, IsSteady}
use avro.Reader.Settings.{cfg-read_varint}
use avro.Writer.{Writer, append}
use avro.Writer.Varint.{groups}
use avro.RoundTrip.Numbers.{Returns, long_bytes}
use avro.RoundTrip.Blocks.{read_block_header-write_block_header, plain_header, seen_size}
use avro.ArrayCodec.{Element, encode_array, decode_items, decode_blocks, max_runtime_size}
use avro.ArrayCodec.Encoded.{
  header_of, header_appended, body, block_of, blocks_of, array_bytes, body-parts, array_appended,
}

pub cfg-read_long : (r : Reader) → (read_long r).1.cfg ≡ r.cfg
unfolding read_long
cfg-read_long r = cfg-read_varint long_width r

cfg-block_size : (n : ℕ) (i : ℤ) (r : Reader) → (block_size n (i, r)).1.cfg ≡ r.cfg
unfolding block_size report_error
cfg-block_size n i r = ground arith

cfg-block_header : (i : ℤ) (r : Reader) → (block_header (i, r)).1.cfg ≡ r.cfg
unfolding block_header report_error
cfg-block_header (pos n) r = ground arith
cfg-block_header (negsuc n) r =
    ground (arith, cfg-block_size n (read_long r).0 (read_long r).1, cfg-read_long r)

pub cfg-read_block_header : (r : Reader) → (read_block_header r).1.cfg ≡ r.cfg
unfolding read_block_header
cfg-read_block_header r = cfg-block_header (read_long r).0 (read_long r).1 ∙ cfg-read_long r

-- The call returned `a` without an error, left `rest` to come, and kept the configuration.
abbrev pub Decodes {ℓ} : {A : Type ℓ} → A → List ℕ → Reader → A × Reader → Type ℓ
Decodes a rest r out = Returns a rest out × (out.1.cfg ≡ r.cfg)

pub header_read :
    (w : Writer) (n s : ℕ) (rest : List ℕ) (r : Reader)
    → 0 < n
    → n < 2 ^ 63
    → s < 2 ^ 63
    → IsSteady r
    → stream r ≡ header_of w.cfg n s ++ rest
    → Returns (pos n, pos (seen_size w s)) rest (read_block_header r)
header_read w zero s rest r some_items hn hs st e = absurd (omega arith)
header_read w (suc l) s rest r some_items hn hs st e =
    read_block_header-write_block_header w l s (header_of w.cfg (suc l) s) rest r hn hs
      (ap (λ (t : Writer). t.buf) (header_appended w (suc l) s hn hs)) st e

pub end_read :
    (w : Writer) (rest : List ℕ) (r : Reader)
    → IsSteady r
    → stream r ≡ header_of w.cfg 0 0 ++ rest
    → Returns (pos 0, pos 0) rest (read_block_header r)
end_read w rest r st e =
    plain_header 0 (groups 9 (zigzag_number (pos 0))) rest w r (omega arith)
      (long_bytes w (pos 0) (omega arith)) st e

module _ {A : Type 0} (element : Element A) (typ : String) (bytes_of : A → List ℕ)
    (allowed : A → Type 0)
    (decodes : (x : A) (rest : List ℕ) (r : Reader)
      → allowed x
      → IsSteady r
      → stream r ≡ bytes_of x ++ rest
      → Decodes x rest r (element.decode r)) where
  item_step :
      (left : ℕ) (x : A) (xs : List A) (r : Reader)
      → (element.decode r).0 ≡ x
      → (element.decode r).1.error ≡ none
      → (decode_items element typ left (element.decode r).1).0 ≡ (true, xs)
      → decode_items element typ (suc left) r
        ≡ ((true, x ∷ xs), (decode_items element typ left (element.decode r).1).1)
  unfolding decode_items
  item_step left x xs r value clean later = ground (arith, value, clean, later)

  items_decoded :
      (xs : List A) (rest : List ℕ) (r : Reader)
      → All allowed xs
      → IsSteady r
      → stream r ≡ body bytes_of xs ++ rest
      → Decodes (true, xs) rest r (decode_items element typ (length xs) r)
  items_decoded [] rest r oks st e = unfold decode_items in ((refl, st, e), refl)
  items_decoded (x ∷ xs) rest r (ok, oks) st e =
      let ((value, st', left), cfg) =
        decodes x (body bytes_of xs ++ rest) r ok st
          (e ∙ append_assoc (bytes_of x) (body bytes_of xs) rest) in
      let ((values, st'', left'), cfg') = items_decoded xs rest (element.decode r).1 oks st' left in
      rw (item_step (length xs) x xs r value st'.no_error values) ((refl, st'', left'), cfg' ∙ cfg)

  end_round :
      (fuel size : ℕ) (r : Reader)
      → (read_block_header r).0.0 ≡ pos 0
      → (read_block_header r).1.error ≡ none
      → decode_blocks element typ (suc fuel) size r ≡ ([], (read_block_header r).1)
  unfolding decode_blocks
  end_round fuel size r count clean = ground (arith, count, clean)

  block_round :
      (fuel size l : ℕ) (xs : List A) (r : Reader)
      → 0 < l
      → (read_block_header r).0.0 ≡ pos l
      → (read_block_header r).1.error ≡ none
      → size + l ≤ get_max_slice_alloc_size r.cfg
      → size + l ≤ max_runtime_size element typ
      → (decode_items element typ l (read_block_header r).1).0 ≡ (true, xs)
      → decode_blocks element typ (suc fuel) size r ≡ (
        xs
            ++ (decode_blocks element typ fuel
                (size + l)
                (decode_items element typ l (read_block_header r).1).1).0,
        (decode_blocks element typ fuel
            (size + l)
            (decode_items element typ l (read_block_header r).1).1).1,
      )
  unfolding decode_blocks
  block_round fuel size l xs r some_items count clean limit runtime items =
      ground (arith, count, clean, limit, runtime, items)

  blocks_decoded :
      (w : Writer) (fuel block_length : ℕ) (xs : List A) (size : ℕ) (rest : List ℕ) (r : Reader)
      → All allowed xs
      → 0 < block_length
      → length xs ≤ fuel
      → length (body bytes_of xs) < 2 ^ 55
      → size + length xs ≤ get_max_slice_alloc_size r.cfg
      → size + length xs ≤ max_runtime_size element typ
      → max_runtime_size element typ < 2 ^ 63
      → IsSteady r
      → stream r ≡ blocks_of bytes_of w.cfg fuel block_length xs ++ (header_of w.cfg 0 0 ++ rest)
      → Decodes xs rest r (decode_blocks element typ (suc fuel) size r)
  unfolding blocks_of
  blocks_decoded w fuel block_length [] size rest r oks hb hf hs limit runtime small st e =
      let (header, st', left) = end_read w rest r st e in
      rw (end_round fuel size r (ap (λ t. t.0) header) st'.no_error)
        ((refl, st', left), cfg-read_block_header r)
  blocks_decoded w zero block_length (x ∷ xs) size rest r oks hb hf hs limit runtime small st e =
      absurd (omega arith)
  blocks_decoded w (suc fuel) block_length (x ∷ xs) size rest r oks hb hf hs limit runtime small st
        e =
      let ys : List A = take block_length (x ∷ xs) in
      let zs : List A = drop block_length (x ∷ xs) in
      let ny = length-take block_length (x ∷ xs) in
      let nz = length-drop block_length (x ∷ xs) in
      let parts = body-parts bytes_of block_length (x ∷ xs) in
      let after : List ℕ =
        blocks_of bytes_of w.cfg fuel block_length zs ++ (header_of w.cfg 0 0 ++ rest) in
      let head : List ℕ = header_of w.cfg (length ys) (length (body bytes_of ys)) in
      let split : stream r ≡ head ++ (body bytes_of ys ++ after) =
        e
        ∙ append_assoc (block_of bytes_of w.cfg ys) (blocks_of bytes_of w.cfg fuel block_length zs)
            _
        ∙ append_assoc head (body bytes_of ys) after in
      let some_items : 0 < length ys = omega arith in
      let (header, st', left) =
        header_read w (length ys) (length (body bytes_of ys)) (body bytes_of ys ++ after) r
          some_items (omega arith) (omega arith) st split in
      let ((items, st'', left'), cfg) =
        items_decoded ys after (read_block_header r).1 (All-take allowed block_length (x ∷ xs) oks)
          st' left in
      let r'' : Reader = (decode_items element typ (length ys) (read_block_header r).1).1 in
      let same : r''.cfg ≡ r.cfg = cfg ∙ cfg-read_block_header r in
      let limit' : size + length ys + length zs ≤ get_max_slice_alloc_size r''.cfg =
        rw same (omega arith) in
      let ((more, st3, left3), cfg') =
        blocks_decoded w fuel block_length zs (size + length ys) rest r''
          (All-drop allowed block_length (x ∷ xs) oks) hb (omega arith) (omega arith) limit'
          (omega arith) small st'' left' in
      rw
        (block_round (suc fuel) size (length ys) ys r some_items (ap (λ t. t.0) header) st'.no_error
          (omega arith) (omega arith) items)
        ((ap (λ t. ys ++ t) more ∙ take-append-drop block_length (x ∷ xs), st3, left3), cfg' ∙ same)

-- What an array needs of the codec of its elements, for the elements that `allowed` holds of: to encode
-- one appends bytes that do not depend on the writer, and to decode these returns it.
pub record ElementLaws {A : Type 0} (element : Element A) : Type 1 where
  pub bytes_of : A → List ℕ
  pub allowed : A → Type 0
  pub encodes :
      (x : A) (w : Writer) → allowed x → w.error ≡ none → element.encode x w ≡ append w (bytes_of x)
  pub decodes :
      (x : A) (rest : List ℕ) (r : Reader)
      → allowed x
      → IsSteady r
      → stream r ≡ bytes_of x ++ rest
      → Decodes x rest r (element.decode r)

runtime_small :
    {A : Type 0} (element : Element A) (typ : String) → max_runtime_size element typ < 2 ^ 63
runtime_small element typ = ground arith

-- An array that a writer without an error encoded, in blocks of any configured length and with or
-- without their sizes, is what the array decoder returns: the same elements in the same order, without an
-- error, and it takes what was appended and no more. The codec of the elements must do the same for
-- each element; the array must be within the limit of the reader's configuration and of the runtime, and
-- its elements within 2 ^ 55 bytes. A round for each element and one for the end are enough.
pub decode_blocks-encode_array :
    {A : Type 0} (element : Element A) (laws : ElementLaws element) (typ : String) (c : Config)
    (w : Writer) (xs : List A) (sent rest : List ℕ) (r : Reader)
    → All laws.allowed xs
    → w.error ≡ none
    → length (body laws.bytes_of xs) < 2 ^ 55
    → length xs ≤ get_max_slice_alloc_size r.cfg
    → length xs ≤ max_runtime_size element typ
    → (encode_array element typ (get_block_length c) xs w).buf ≡ w.buf ++ sent
    → IsSteady r
    → stream r ≡ sent ++ rest
    → Returns xs rest (decode_blocks element typ (suc (length xs)) 0 r)
decode_blocks-encode_array element laws typ c w xs sent rest r oks clean hs limit runtime appended
      st e =
    let small = runtime_small element typ in
    let hb : 0 < get_block_length c = get_block_length_positive c in
    let bytes : List ℕ = array_bytes laws.bytes_of w.cfg (get_block_length c) xs in
    let encoded =
      array_appended element typ laws.bytes_of laws.allowed laws.encodes (get_block_length c) xs w
        oks clean hb (omega arith) hs in
    let same : sent ≡ bytes =
      append_cancel_left w.buf _ _ (sym appended ∙ ap (λ (t : Writer). t.buf) encoded) in
    let split =
      e
      ∙ ap (λ t. t ++ rest) same
      ∙ append_assoc (blocks_of laws.bytes_of w.cfg (length xs) (get_block_length c) xs)
          (header_of w.cfg 0 0) rest in
    (blocks_decoded element typ laws.bytes_of laws.allowed laws.decodes w (length xs)
      (get_block_length c) xs 0 rest r oks hb (omega arith) hs (omega arith) (omega arith) small st
      split).0
