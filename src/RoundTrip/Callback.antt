-- ===== src/RoundTrip/Callback.antt =====
-- WriteBlockCB of writer.go: the header is written over the place that was held for it.
use avro.Prelude.{
  ℕ, ◌-◌, ◌*◌, ◌^◌, ◌≤◌, ◌<◌, ◌≡◌, ◌∙◌, ap, arith, not, ◌&&◌, List, ◌++◌, append_assoc, length,
  length-append, length-drop, take, drop, drop-append_add, drop-append_le, take-append_le,
  take-length, Bool-cases, inl, inr,
}
use avro.Prelude.Int.{ℤ, pos, ltb_ℤ}
use avro.Words.{InRange, zigzag_number}
use avro.Writer.{
  Writer, append, write_long, write_block_header, write_block_cb, negate_long, dummy_header,
  overwrite,
}
use avro.Writer.Varint.{groups, length-groups, length-groups_small}
use avro.RoundTrip.Numbers.{long_bytes, drop_front}

pub negate-InRange : (n : ℕ) → n < 2 ^ 63 → InRange 64 (negate_long (pos n))
negate-InRange n h = ground arith

-- Written in place, the header leaves what was captured behind the held place as it was.
overwrite-keeps :
    (base header held data_bytes : List ℕ)
    → length header ≤ length held
    → take
        (length data_bytes)
        (drop (length (base ++ held)) (overwrite ((base ++ held) ++ data_bytes) (base ++ header)))
      ≡ data_bytes
overwrite-keeps base header held data_bytes h =
    let left = drop (length header) held in
    let memory : drop (length (base ++ header)) ((base ++ held) ++ data_bytes)
        ≡ left ++ data_bytes =
      rw (length-append base header, append_assoc base held data_bytes)
        (drop-append_add (length header) base (held ++ data_bytes)
          ∙ drop-append_le (length header) held data_bytes h) in
    let size : length ((base ++ header) ++ left) ≡ length (base ++ held) = omega (
      arith,
      length-append (base ++ header) left,
      length-append base header,
      length-append base held,
      length-drop (length header) held,
    ) in
    rw
      (
        memory,
        ← append_assoc (base ++ header) left data_bytes,
        ← size,
        drop_front ((base ++ header) ++ left) data_bytes,
      )
      (take-length data_bytes)

module _ (w : Writer) (n size : ℕ) (hn : n < 2 ^ 63) (hs : size < 2 ^ 55) where
  header_short :
      (header : List ℕ) × ((write_block_header w (pos n) (pos size)).buf ≡ w.buf ++ header)
      × (length header ≤ 18)
  unfolding write_block_header
  header_short =
      elim (Bool-cases (ltb_ℤ (pos 0) (pos size) && not w.cfg.disable_block_size_header)) [
        | inl sized ↦
            let first = long_bytes w (negate_long (pos n)) (negate-InRange n hn) in
            let second = long_bytes (write_long w (negate_long (pos n))) (pos size) (omega arith) in
            let head = groups 9 (zigzag_number (negate_long (pos n))) in
            let tail = groups 9 (zigzag_number (pos size)) in
            (
              head ++ tail,
              rw sized (second ∙ ap (λ t. t ++ tail) first ∙ append_assoc w.buf head tail),
              omega (
                arith,
                length-append head tail,
                length-groups 9 (zigzag_number (negate_long (pos n))),
                length-groups_small 9 7 (2 * size) (omega arith),
              ),
            )
        | inr plain ↦ (
          groups 9 (zigzag_number (pos n)),
          rw plain (long_bytes w (pos n) hn),
          omega (arith, length-groups 9 (zigzag_number (pos n))),
        )
      ]

-- The steps of WriteBlockCB, once the parts of the buffer are known.
closed :
    (w w₂ : Writer) (callback : Writer → ℤ × Writer) (l : ℤ) (block : List ℕ)
    → callback (append w dummy_header) ≡ (l, w₂)
    → length w₂.buf - length (w.buf ++ dummy_header) ≡ length block
    → take (length w.buf) w₂.buf ≡ w.buf
    → take (length block) (
        drop (length (w.buf ++ dummy_header)) (
          overwrite w₂.buf
            (write_block_header (record w₂ { buf = w.buf }) l (pos (length block))).buf))
      ≡ block
    → write_block_cb w callback
      ≡ (l, append (write_block_header (record w₂ { buf = w.buf }) l (pos (length block))) block)
unfolding write_block_cb
closed w w₂ callback l block called size start kept = rw (called, size, start, kept)

-- A callback that returned the count of a block and only appended the block's bytes to the buffer: the
-- buffer that WriteBlockCB leaves holds what it held before, the header of WriteBlockHeader for this
-- count and for the number of the block's bytes, and the block's bytes as the callback wrote them. The
-- place that was held for the header is gone, and the header, written in that place while the block
-- still stands behind it, does not reach the block. The result is the count.
pub write_block_cb-appended :
    (w w₂ : Writer) (callback : Writer → ℤ × Writer) (n : ℕ) (block : List ℕ)
    → n < 2 ^ 63
    → length block < 2 ^ 55
    → callback (append w dummy_header) ≡ (pos n, w₂)
    → w₂.buf ≡ (append w dummy_header).buf ++ block
    → write_block_cb w callback ≡ (
      pos n,
      append (write_block_header (record w₂ { buf = w.buf }) (pos n) (pos (length block))) block,
    )
write_block_cb-appended w w₂ callback n block hn hs called appended =
    let base = record w₂ { buf = w.buf } in
    let (header, written, short) = header_short base n (length block) hn hs in
    let total = length-append (w.buf ++ dummy_header) block in
    let size : length w₂.buf - length (w.buf ++ dummy_header) ≡ length block =
      rw (appended, total) (omega arith) in
    let start : take (length w.buf) w₂.buf ≡ w.buf =
      rw (appended, append_assoc w.buf dummy_header block)
        (take-append_le (length w.buf) w.buf (dummy_header ++ block) (omega arith)
          ∙ take-length w.buf) in
    closed w w₂ callback (pos n) block called size start
      (rw (written, appended) (overwrite-keeps w.buf header dummy_header block short))
