-- ===== src/RoundTrip/Blocks.antt =====
-- ReadBlockHeader after WriteBlockHeader, and the blocks of WriteBlockCB.
use avro.Prelude.{
  ℕ, zero, suc, ◌^◌, ◌<◌, ◌≡◌, refl, sym, ◌∙◌, ap, arith, false, List, ◌++◌, append_assoc,
  append_cancel_left, if◌then◌else◌, none, Bool-cases, inl, inr,
}
use avro.Prelude.Int.{ℤ, pos, negsuc}
use avro.Words.{zigzag_number}
use avro.Reader.State.{Reader}
use avro.Reader.Varint.{read_long}
use avro.Reader.Values.{block_header, block_size, read_block_header}
use avro.Reader.Stream.{stream, IsSteady}
use avro.Writer.{Writer, write_long, write_block_header, negate_long}
use avro.Writer.Varint.{groups}
use avro.RoundTrip.Numbers.{Returns, read_long-write_long, long_bytes}

-- The size that a reader sees: none where the header leaves it out.
abbrev pub seen_size : Writer → ℕ → ℕ
seen_size w s = if w.cfg.disable_block_size_header then 0 else s

negate-suc : (n : ℕ) → suc n < 2 ^ 63 → negate_long (pos (suc n)) ≡ negsuc n
negate-suc n h = ground arith

plain_step :
    (i : ℤ) (r : Reader) (l : ℕ)
    → i ≡ pos l
    → r.error ≡ none
    → block_header (i, r) ≡ ((pos l, pos 0), r)
unfolding block_header
plain_step i r l e clean = rw e (ground arith)

sized_step :
    (i : ℤ) (r : Reader) (l s : ℕ)
    → i ≡ negsuc l
    → suc l < 2 ^ 63
    → r.error ≡ none
    → (read_long r).0 ≡ pos s
    → (read_long r).1.error ≡ none
    → block_header (i, r) ≡ ((pos (suc l), pos s), (read_long r).1)
unfolding block_header block_size
sized_step i r l s e h clean size clean' = rw e (ground arith)

-- A count alone.
pub plain_header :
    (l : ℕ) (sent rest : List ℕ) (w : Writer) (r : Reader)
    → l < 2 ^ 63
    → (write_long w (pos l)).buf ≡ w.buf ++ sent
    → IsSteady r
    → stream r ≡ sent ++ rest
    → Returns (pos l, pos 0) rest (read_block_header r)
unfolding read_block_header
plain_header l sent rest w r h appended st e =
    let (value, st', left) = read_long-write_long w (pos l) sent rest r h appended st e in
    rw (plain_step (read_long r).0 (read_long r).1 l value st'.no_error) (refl, st', left)

-- A negated count, and the size in bytes.
sized_header :
    (l s : ℕ) (head tail rest : List ℕ) (w : Writer) (r : Reader)
    → suc l < 2 ^ 63
    → s < 2 ^ 63
    → (write_long w (negsuc l)).buf ≡ w.buf ++ head
    → (write_long (write_long w (negsuc l)) (pos s)).buf ≡ (write_long w (negsuc l)).buf ++ tail
    → IsSteady r
    → stream r ≡ head ++ (tail ++ rest)
    → Returns (pos (suc l), pos s) rest (read_block_header r)
unfolding read_block_header
sized_header l s head tail rest w r hl hs first second st e =
    let (value, st', left) =
      read_long-write_long w (negsuc l) head (tail ++ rest) r (omega arith) first st e in
    let (size, st'', left') =
      read_long-write_long (write_long w (negsuc l)) (pos s) tail rest (read_long r).1 hs second st'
        left in
    rw (sized_step (read_long r).0 (read_long r).1 l s value hl st'.no_error size st''.no_error)
      (refl, st'', left')

-- The header as the one or the other.
pub header_plain :
    (w : Writer) (l s : ℕ)
    → seen_size w s ≡ 0
    → write_block_header w (pos l) (pos s) ≡ write_long w (pos l)
unfolding write_block_header
header_plain w l s h = ground arith

header_sized :
    (w : Writer) (l s : ℕ)
    → suc l < 2 ^ 63
    → w.cfg.disable_block_size_header ≡ false
    → write_block_header w (pos (suc l)) (pos (suc s))
      ≡ write_long (write_long w (negsuc l)) (pos (suc s))
unfolding write_block_header
header_sized w l s h on = ground (arith, negate-suc l h)

both_parts :
    (w : Writer) (l s : ℕ) (sent : List ℕ)
    → suc l < 2 ^ 63
    → s < 2 ^ 63
    → (write_long (write_long w (negsuc l)) (pos s)).buf ≡ w.buf ++ sent
    → sent ≡ groups 9 (zigzag_number (negsuc l)) ++ groups 9 (zigzag_number (pos s))
both_parts w l s sent hl hs appended =
    let first = long_bytes w (negsuc l) (omega arith) in
    let second = long_bytes (write_long w (negsuc l)) (pos s) hs in
    append_cancel_left w.buf _ _ (
      sym appended
      ∙ second
      ∙ ap (λ t. t ++ groups 9 (zigzag_number (pos s))) first
      ∙ append_assoc w.buf _ _)

-- A block header that WriteBlockHeader appended is what ReadBlockHeader returns: the count, and the
-- size where the header holds one, which is where it is positive and the configuration of the writer
-- does not leave it out, and the count is not 0.
pub read_block_header-write_block_header :
    (w : Writer) (l s : ℕ) (sent rest : List ℕ) (r : Reader)
    → suc l < 2 ^ 63
    → s < 2 ^ 63
    → (write_block_header w (pos (suc l)) (pos s)).buf ≡ w.buf ++ sent
    → IsSteady r
    → stream r ≡ sent ++ rest
    → Returns (pos (suc l), pos (seen_size w s)) rest (read_block_header r)
read_block_header-write_block_header w l zero sent rest r hl hs appended st e =
    let none_seen : seen_size w 0 ≡ 0 = ground arith in
    let plain = rw (header_plain w (suc l) 0 none_seen) at appended in
    rw none_seen (plain_header (suc l) sent rest w r hl plain st e)
read_block_header-write_block_header w l (suc s) sent rest r hl hs appended st e =
    elim (Bool-cases w.cfg.disable_block_size_header) [
      | inl off ↦
          let none_seen : seen_size w (suc s) ≡ 0 = rw off in
          let plain = rw (header_plain w (suc l) (suc s) none_seen) at appended in
          rw none_seen (plain_header (suc l) sent rest w r hl plain st e)
      | inr on ↦
          let seen : seen_size w (suc s) ≡ suc s = rw on in
          let sized = rw (header_sized w l s hl on) at appended in
          let head : List ℕ = groups 9 (zigzag_number (negsuc l)) in
          let tail : List ℕ = groups 9 (zigzag_number (pos (suc s))) in
          let split =
            e
            ∙ ap (λ t. t ++ rest) (both_parts w l (suc s) sent hl hs sized)
            ∙ append_assoc head tail rest in
          rw seen (
            sized_header l (suc s) head tail rest w r hl hs (long_bytes w (negsuc l) (omega arith))
              (long_bytes (write_long w (negsuc l)) (pos (suc s)) hs) st split)
    ]
