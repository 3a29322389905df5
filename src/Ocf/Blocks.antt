-- ===== src/Ocf/Blocks.antt =====
-- ocf/ocf.go: readBlock on what writerBlock writes.
use avro.Prelude.{
  ℕ, ◌^◌, ◌<◌, ◌≡◌, ◌⊎◌, refl, sym, ap, ◌∙◌, subst, arith, inl, inr, Option, none, some, false,
  List, [], ◌++◌, append_assoc, length, length-append, bytes_equal_refl,
}
use avro.Prelude.Int.{ℤ, pos, ◌≤ℤ◌}
use avro.Errors.{Error}
use avro.Reader.State.{Reader, peek}
use avro.Reader.Varint.{read_long}
use avro.Reader.Values.{read}
use avro.Reader.Stream.{stream, IsSteady}
use avro.Reader.Copy.{load_if_empty-cases}
use avro.Writer.{Writer, write_long, flush}
use avro.Writer.Sink.{delivered, taken_by, Flushes, flush-Flushes}
use avro.Writer.Varint.{groups, length-groups}
use avro.Words.{zigzag_number}
use avro.RoundTrip.Numbers.{read_long-groups, long_bytes}
use avro.RoundTrip.Bytes.{by_copy, front, back}
use avro.Ocf.Decoder.{
  Decoder, at_eof, reset_reader, read_block, after_count, after_size, after_data, check_sync,
  open_block, read_block_data,
}
use avro.Ocf.Encoder.{Encoder, block_written, writer_block}
use avro.Prelude.{append_cancel_left}
use avro.Ocf.BlockData.{read_block_data-Loads}

-- The bytes of a block: its number of records, and its encoded data between their length and the
-- synchronisation marker.
abbrev pub block_bytes : ℕ → List ℕ → List ℕ → List ℕ
block_bytes count encoded sync =
    groups 9 (zigzag_number (pos count))
    ++ (groups 9 (zigzag_number (pos (length encoded))) ++ (encoded ++ sync))

abbrev pub IsLong : ℕ → Type 0
IsLong n = n < 2 ^ 63

pub block_written-bytes :
    (e : Encoder)
    → IsLong e.count
    → IsLong (length (e.codec.encode_block e.buf))
    → (block_written e).buf
      ≡ e.writer.buf ++ block_bytes e.count (e.codec.encode_block e.buf) e.sync
unfolding block_written
block_written-bytes e few short =
    let b = e.codec.encode_block e.buf in
    let w = write_long e.writer (pos e.count) in
    let n = groups 9 (zigzag_number (pos e.count)) in
    let size = groups 9 (zigzag_number (pos (length b))) in
    rw (long_bytes w (pos (length b)) short, long_bytes e.writer (pos e.count) few)
      (append_assoc ((e.writer.buf ++ n) ++ size) b e.sync
        ∙ append_assoc (e.writer.buf ++ n) size (b ++ e.sync)
        ∙ append_assoc e.writer.buf n (size ++ (b ++ e.sync)))

block_written-same :
    (e : Encoder)
    → (taken_by (block_written e).out ≡ taken_by e.writer.out)
      × ((block_written e).error ≡ e.writer.error)
unfolding block_written write_long
block_written-same e = (refl, refl)

-- The limit is off, or `n` is within it.
abbrev pub IsWithin : ℤ → ℕ → Type 0
IsWithin limit n = (limit ≤ℤ pos 0) ⊎ (pos n ≤ℤ limit)

-- readBlock hands on the records of the block to the decoder of values, and leaves what follows.
abbrev pub Opens : Decoder → ℕ → List ℕ → List ℕ → Type 0
Opens d count records rest =
    (r : Reader) × (read_block d
      ≡ (pos count, record d { reader = r; decoder = reset_reader d.decoder records }))
    × IsSteady r
    × (stream r ≡ rest)

module _ (d : Decoder) where
  block_there :
      at_eof (peek d.reader).1.error ≡ false
      → read_block d ≡ after_count d (read_long (peek d.reader).1)
  unfolding read_block
  block_there e = rw (e, read_block) refl

  count_ok :
      (n : ℕ) (i : ℤ) (r : Reader)
      → i ≡ pos n
      → r.error ≡ none
      → IsWithin d.max_block_records n
      → after_count d (i, r) ≡ after_size (pos n) d (read_long r)
  unfolding after_count
  count_ok n i r e clean ok = ground arith

  size_ok :
      (n : ℕ) (i count : ℤ) (r : Reader)
      → i ≡ pos n
      → r.error ≡ none
      → IsLong n
      → IsWithin d.max_block_bytes n
      → after_size count d (i, r) ≡ after_data count d (read_block_data r n)
  unfolding after_size
  size_ok n i count r e clean short ok = ground arith

  data_ok :
      (count : ℤ) (bytes : List ℕ) (err : Option Error) (r : Reader)
      → err ≡ none
      → after_data count d ((bytes, err), r) ≡ check_sync count bytes d (read 16 r)
  unfolding after_data
  data_ok count bytes err r e = rw e refl

  sync_ok :
      (count : ℤ) (bytes sync : List ℕ) (r : Reader)
      → r.error ≡ none
      → sync ≡ d.sync
      → check_sync count bytes d (sync, r)
        ≡ open_block count (d.codec.decode_block bytes) (record d { reader = r })
  unfolding check_sync
  sync_ok count bytes sync r clean e = ground (arith, bytes_equal_refl d.sync)

  open_ok :
      (n : ℕ) (result : Error ⊎ List ℕ) (records : List ℕ)
      → result ≡ inr records
      → (0 < n) ⊎ (records ≡ [])
      → open_block (pos n) result d ≡ (pos n, record d { decoder = reset_reader d.decoder records })
  unfolding open_block
  open_ok n result records e full = ground arith

-- After Peek the bytes to come are the same, and the end is not reported where there are some.
pub peek-steady :
    (r : Reader)
    → IsSteady r
    → 0 < length (stream r)
    → IsSteady (peek r).1 × (stream (peek r).1 ≡ stream r)
unfolding peek
peek-steady r st h = elim (load_if_empty-cases r st) [
  | inl (stop, at_end, gone) ↦ absurd (omega (arith, ap (λ (t : List ℕ). length t) gone))
  | inr (more, st', same, some_bytes) ↦ (st', same)
]

pub clean_at_eof : (r : Reader) → r.error ≡ none → at_eof r.error ≡ false
clean_at_eof r e = rw e refl

module _ (d : Decoder) (count : ℕ) (encoded records rest : List ℕ) where
  pub block_split :
      block_bytes count encoded d.sync ++ rest
      ≡ groups 9 (zigzag_number (pos count))
        ++ (groups 9 (zigzag_number (pos (length encoded))) ++ (encoded ++ (d.sync ++ rest)))
  block_split =
      let head : List ℕ = groups 9 (zigzag_number (pos count)) in
      let size : List ℕ = groups 9 (zigzag_number (pos (length encoded))) in
      append_assoc head (size ++ (encoded ++ d.sync)) rest
      ∙ ap (λ t. head ++ t)
          (append_assoc size (encoded ++ d.sync) rest
            ∙ ap (λ t. size ++ t) (append_assoc encoded d.sync rest))

  pub starts :
      (after : List ℕ)
      → stream d.reader ≡ groups 9 (zigzag_number (pos count)) ++ after
      → 0 < length (stream d.reader)
  starts after e =
      let head : List ℕ = groups 9 (zigzag_number (pos count)) in
      omega (
        arith,
        ap (λ (t : List ℕ). length t) e,
        length-append head after,
        length-groups 9 (zigzag_number (pos count)),
      )

  data_whole :
      (r : Reader) (after : List ℕ)
      → IsSteady r
      → stream r ≡ encoded ++ after
      → ((read_block_data r (length encoded)).0.0 ≡ encoded)
        × ((read_block_data r (length encoded)).0.1 ≡ none)
        × IsSteady (read_block_data r (length encoded)).1
        × (stream (read_block_data r (length encoded)).1 ≡ after)
  data_whole r after st e =
      let size = ap (λ (t : List ℕ). length t) e ∙ length-append encoded after in
      let (bytes, clean, st', left) =
        (read_block_data-Loads r (length encoded) st).0 (omega arith) in
      (bytes ∙ rw e (front encoded after), clean, st', left ∙ rw e (back encoded after))

  pub block-Opens :
      IsSteady d.reader
      → stream d.reader ≡ block_bytes count encoded d.sync ++ rest
      → length d.sync ≡ 16
      → IsLong count
      → IsLong (length encoded)
      → IsWithin d.max_block_records count
      → IsWithin d.max_block_bytes (length encoded)
      → d.codec.decode_block encoded ≡ inr records
      → (0 < count) ⊎ (records ≡ [])
      → Opens d count records rest
  block-Opens st e sixteen few short few' short' decoded full =
      let head : List ℕ = groups 9 (zigzag_number (pos count)) in
      let size : List ℕ = groups 9 (zigzag_number (pos (length encoded))) in
      let tail₂ : List ℕ = encoded ++ (d.sync ++ rest) in
      let r₀ : Reader = (peek d.reader).1 in
      let split : stream d.reader ≡ head ++ (size ++ tail₂) = e ∙ block_split in
      let (st₀, same) = peek-steady d.reader st (starts (size ++ tail₂) split) in
      let (counted, st₁, left₁) =
        read_long-groups (pos count) (size ++ tail₂) r₀ few st₀ (same ∙ split) in
      let r₁ : Reader = (read_long r₀).1 in
      let (sized, st₂, left₂) = read_long-groups (pos (length encoded)) tail₂ r₁ short st₁ left₁ in
      let r₂ : Reader = (read_long r₁).1 in
      let (bytes, clean, st₃, left₃) = data_whole r₂ (d.sync ++ rest) st₂ left₂ in
      let r₃ : Reader = (read_block_data r₂ (length encoded)).1 in
      let (marker, st₄, left₄) = by_copy d.sync rest r₃ st₃ left₃ in
      let marker' : (read 16 r₃).0 ≡ d.sync =
        subst (λ (n : ℕ). (read n r₃).0 ≡ d.sync) sixteen marker in
      let st₅ : IsSteady (read 16 r₃).1 = subst (λ (n : ℕ). IsSteady (read n r₃).1) sixteen st₄ in
      let left₅ : stream (read 16 r₃).1 ≡ rest =
        subst (λ (n : ℕ). stream (read n r₃).1 ≡ rest) sixteen left₄ in
      let r₄ : Reader = (read 16 r₃).1 in
      let decoded' : d.codec.decode_block (read_block_data r₂ (length encoded)).0.0 ≡ inr records =
        ap (λ t. d.codec.decode_block t) bytes ∙ decoded in
      (
        r₄,
        block_there d (clean_at_eof r₀ st₀.no_error)
            ∙ count_ok d count (read_long r₀).0 r₁ counted st₁.no_error few'
            ∙ size_ok d (length encoded) (read_long r₁).0 (pos count) r₂ sized st₂.no_error short
                short'
            ∙ data_ok d (pos count) _ _ r₃ clean
            ∙ sync_ok d (pos count) _ _ r₄ st₅.no_error marker'
            ∙ open_ok (record d { reader = r₄ }) count _ records decoded' full,
        st₅,
        left₅,
      )

writer_block-flush :
    (e : Encoder)
    → ((writer_block e).0 ≡ (flush (block_written e)).0)
      × ((writer_block e).1.writer ≡ (flush (block_written e)).1)
unfolding writer_block
writer_block-flush e = (refl, refl)

by_result :
    (w : Writer) (result : Option Error × Writer)
    → result.0 ≡ none
    → Flushes w result
    → (delivered result.1 ≡ delivered w)
      × (result.1.error ≡ none)
      × ((w.out ≡ none) ⊎ (result.1.buf ≡ []))
by_result w (none, w') h f = f
by_result w (some e, w') h f = absurd (ground arith)

flushed_whole :
    (w : Writer)
    → (flush w).0 ≡ none
    → (delivered (flush w).1 ≡ delivered w)
      × ((flush w).1.error ≡ none)
      × ((w.out ≡ none) ⊎ ((flush w).1.buf ≡ []))
flushed_whole w h = by_result w (flush w) h (flush-Flushes w)

-- What a block without an error adds to the file.
pub writer_block-delivers :
    (e : Encoder)
    → (writer_block e).0 ≡ none
    → IsLong e.count
    → IsLong (length (e.codec.encode_block e.buf))
    → (delivered (writer_block e).1.writer
        ≡ delivered e.writer ++ block_bytes e.count (e.codec.encode_block e.buf) e.sync)
      × ((writer_block e).1.writer.error ≡ none)
writer_block-delivers e h few short =
    let w = block_written e in
    let (first, second) = writer_block-flush e in
    let (all, clean, left) = flushed_whole w (sym first ∙ h) in
    let (same, _) = block_written-same e in
    let b : List ℕ = block_bytes e.count (e.codec.encode_block e.buf) e.sync in
    (
      ap (λ t. delivered t) second
          ∙ all
          ∙ ap (λ t. t ++ w.buf) same
          ∙ ap (λ t. taken_by e.writer.out ++ t) (block_written-bytes e few short)
          ∙ sym (append_assoc (taken_by e.writer.out) e.writer.buf b),
      ap (λ (t : Writer). t.error) second ∙ clean,
    )

-- A block that writerBlock added to its output without an error is read back by readBlock of a decoder
-- of the same file, in whatever pieces the bytes come, where the limits of the decoder let it pass and its
-- codec decodes what the encoder's codec encoded: it returns the number of records, sets the decoder of
-- values to their bytes, and leaves what follows the block. A block of no records must hold no bytes.
pub read_block-writer_block :
    (e : Encoder) (d : Decoder) (sent rest : List ℕ)
    → (writer_block e).0 ≡ none
    → delivered (writer_block e).1.writer ≡ delivered e.writer ++ sent
    → IsLong e.count
    → IsLong (length (e.codec.encode_block e.buf))
    → d.codec.decode_block (e.codec.encode_block e.buf) ≡ inr e.buf
    → (0 < e.count) ⊎ (e.buf ≡ [])
    → d.sync ≡ e.sync
    → length d.sync ≡ 16
    → IsWithin d.max_block_records e.count
    → IsWithin d.max_block_bytes (length (e.codec.encode_block e.buf))
    → IsSteady d.reader
    → stream d.reader ≡ sent ++ rest
    → Opens d e.count e.buf rest
read_block-writer_block e d sent rest h added few short law full same sixteen few' short' st s =
    let b : List ℕ = e.codec.encode_block e.buf in
    let (all, clean) = writer_block-delivers e h few short in
    let whole : sent ≡ block_bytes e.count b d.sync =
      append_cancel_left (delivered e.writer) _ _ (sym added ∙ all)
      ∙ ap (λ t. block_bytes e.count b t) (sym same) in
    block-Opens d e.count b e.buf rest st (s ∙ ap (λ t. t ++ rest) whole) sixteen few short few'
      short' law full
