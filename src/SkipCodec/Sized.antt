-- ===== src/SkipCodec/Sized.antt =====
-- The block loops of codec_skip.go over blocks that tell their size.
use avro.Prelude.{
  ℕ, suc, ◌^◌, ◌<◌, ◌≡◌, refl, sym, ◌∙◌, ap, arith, false, List, [], ◌∷◌, ◌++◌, append_assoc,
  length, none, All,
}
use avro.Prelude.Int.{ℤ, pos}
use avro.Reader.State.{Reader}
use avro.Reader.Values.{read_block_header}
use avro.Reader.Skip.{skip_n_bytes_int64}
use avro.Reader.Stream.{stream, IsSteady}
use avro.Writer.{Writer, write_block_header, write_long}
use avro.RoundTrip.Blocks.{
  read_block_header-write_block_header, seen_size, plain_header, header_plain,
}
use avro.RoundTrip.Skipping.{Leaves, skip_n_bytes_int64-Leaves}
use avro.SkipCodec.{skip_blocks}

-- A block: one less than its count of items, and its bytes.
abbrev pub Block : Type 0
Block = ℕ × List ℕ

abbrev pub IsSized : Block → Type 0
IsSized (l, b) = (suc l < 2 ^ 63) × (0 < length b) × (length b < 2 ^ 63)

-- The bytes of a block header that the writer appends.
abbrev pub header_bytes : Writer → ℤ → ℤ → List ℕ
header_bytes w l s = (write_block_header (record w { buf = [] }) l s).buf

-- The blocks with their headers, and the header of the empty block at the end.
unfoldable pub wire : Writer → List Block → List ℕ
wire w [] = header_bytes w (pos 0) (pos 0)
wire w ((l, b) ∷ rest) = header_bytes w (pos (suc l)) (pos (length b)) ++ (b ++ wire w rest)

module _ (item : Reader → Reader) (fuel : ℕ) (r : Reader) where
  end_round :
      (read_block_header r).0.0 ≡ pos 0 → skip_blocks item (suc fuel) r ≡ (read_block_header r).1
  unfolding skip_blocks
  end_round e = rw (skip_blocks, e) refl

  sized_round :
      (l s : ℕ)
      → (read_block_header r).0.0 ≡ pos (suc l)
      → (read_block_header r).0.1 ≡ pos s
      → 0 < s
      → (read_block_header r).1.error ≡ none
      → skip_blocks item (suc fuel) r
        ≡ skip_blocks item fuel (skip_n_bytes_int64 (pos s) (read_block_header r).1)
  unfolding skip_blocks
  sized_round l s count size some_bytes clean = ground (arith, count, size, clean)

-- Where the writer's configuration keeps block sizes, skipping an array or a map that is written as
-- blocks that are not empty takes exactly their bytes and the end's, without an error, whatever the
-- decoder of the items would do; one round for each block and one for the end are enough.
pub skip_blocks-wire :
    (item : Reader → Reader) (w : Writer) (blocks : List Block) (rest : List ℕ) (r : Reader)
    → w.cfg.disable_block_size_header ≡ false
    → All IsSized blocks
    → IsSteady r
    → stream r ≡ wire w blocks ++ rest
    → Leaves rest (skip_blocks item (suc (length blocks)) r)
unfolding wire
skip_blocks-wire item w [] rest r on sized st e =
    let base : Writer = record w { buf = [] } in
    let none_seen : seen_size base 0 ≡ 0 = rw on in
    let plain : (write_long base (pos 0)).buf ≡ base.buf ++ header_bytes w (pos 0) (pos 0) =
      ap (λ (t : Writer). t.buf) (sym (header_plain base 0 0 none_seen)) in
    let (header, st', left) =
      plain_header 0 (header_bytes w (pos 0) (pos 0)) rest base r (omega arith) plain st e in
    rw (end_round item 0 r (ap (λ t. t.0) header)) (st', left)
skip_blocks-wire item w ((l, b) ∷ blocks) rest r on ((count, some_bytes, size), later) st e =
    let base : Writer = record w { buf = [] } in
    let head : List ℕ = header_bytes w (pos (suc l)) (pos (length b)) in
    let seen : seen_size base (length b) ≡ length b = rw on in
    let split : stream r ≡ head ++ (b ++ (wire w blocks ++ rest)) =
      e
      ∙ append_assoc head (b ++ wire w blocks) rest
      ∙ ap (λ t. head ++ t) (append_assoc b (wire w blocks) rest) in
    let (header, st', left) =
      read_block_header-write_block_header base l (length b) head (b ++ (wire w blocks ++ rest)) r
        count size refl st split in
    let (st'', left') =
      skip_n_bytes_int64-Leaves b (wire w blocks ++ rest) (read_block_header r).1 size st' left in
    rw
      (sized_round item (suc (length blocks)) r l (length b) (ap (λ t. t.0) header)
        (ap (λ t. t.1) header ∙ ap pos seen) some_bytes st'.no_error)
      (skip_blocks-wire item w blocks rest _ on later st'' left')
