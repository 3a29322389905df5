-- ===== src/Reader/Values.antt =====
-- reader.go: the primitive values above the varints. A string is the list of its bytes, and a float
-- its bit pattern.
use avro.Prelude.{
  ℕ, zero, suc, ◌+◌, ◌-◌, ◌*◌, String, Bool, true, false, not, ◌&&◌, List, [], ◌∷◌, ◌++◌,
  if◌then◌else◌, leb, ltb, ◌==◌, length, take,
}
use avro.Prelude.Int.{ℤ, pos, negsuc, ltb_ℤ}
use avro.Config.{get_max_byte_slice_size, max_alloc_size}
use avro.Utf8.{utf8_valid}
use avro.Reader.State.{
  Reader, report_error, report_unexpected_eof, load_if_empty, read_byte, diverge, has_error,
}
use avro.Reader.Varint.{read_long, advance}

-- `Read(b)` with `left` bytes of `b` to fill: the bytes that it copies, in order. Each round copies a
-- byte at least.
unfoldable pub read_loop : ℕ → ℕ → Reader → List ℕ × Reader
read_loop fuel zero r = ([], r)
read_loop zero (suc left) r = ([], diverge r)
read_loop (suc fuel) (suc left) r =
    let (more, r') = load_if_empty r in
    elim more [
      | false ↦ ([], report_unexpected_eof r')
      | true ↦
          let chunk = take (suc left) r'.unread in
          let (rest, r'') = read_loop fuel (suc left - length chunk) (advance r' (length chunk)) in
          (chunk ++ rest, r'')
    ]

unfoldable pub read : ℕ → Reader → List ℕ × Reader
unfolding read_loop
read size r = read_loop size size r

unfoldable pub read_bool : Reader → Bool × Reader
read_bool r =
    let (b, r') = read_byte r in
    (b == 1, if not (b == 0) && not (b == 1) then report_error r' "ReadBool" "invalid bool" else r')

-- `binary.LittleEndian` over a buffer of zeros that was filled as far as `bytes` goes.
unfoldable pub little_endian : List ℕ → ℕ
little_endian [] = 0
little_endian (b ∷ bs) = b + 256 * little_endian bs

unfoldable pub read_float : Reader → ℕ × Reader
unfolding read little_endian
read_float r = let (bytes, r') = read 4 r in (little_endian bytes, r')

unfoldable pub read_double : Reader → ℕ × Reader
unfolding read little_endian
read_double r = let (bytes, r') = read 8 r in (little_endian bytes, r')

-- The message texts of readBytes at its two operations, `strings.ToTitle` applied.
pub record ByteOp : Type 0 where
  pub operation : String
  pub invalid_length : String
  pub beyond_platform : String

abbrev pub bytes_op : ByteOp
bytes_op = record {
  operation = "ReadBYTES";
  invalid_length = "invalid bytes length";
  beyond_platform = "bytes length exceeds the platform allocation limit";
}

abbrev pub string_op : ByteOp
string_op = record {
  operation = "ReadSTRING";
  invalid_length = "invalid string length";
  beyond_platform = "string length exceeds the platform allocation limit";
}

abbrev pub too_large : String
too_large = "size is greater than `Config.MaxByteSliceSize`"

-- The bytes are in the buffer and at most 1024, or are read through it.
unfoldable pub take_bytes : ℕ → Reader → List ℕ × Reader
take_bytes size r =
    if leb size (length r.unread) && leb size 1024
    then (take size r.unread, advance r size)
    else read size r

unfoldable pub read_sized : ByteOp → ℤ → Reader → List ℕ × Reader
unfolding take_bytes
read_sized op (negsuc n) r = ([], report_error r op.operation op.invalid_length)
read_sized op (pos size) r =
    let max_size = get_max_byte_slice_size r.cfg in
    if size == 0
    then ([], r)
    else if ltb_ℤ (pos 0) max_size && ltb_ℤ max_size (pos size)
    then ([], report_error r op.operation too_large)
    else if ltb max_alloc_size size
    then ([], report_error r op.operation op.beyond_platform)
    else take_bytes size r

unfoldable pub read_bytes_as : ByteOp → Reader → List ℕ × Reader
unfolding read_sized
read_bytes_as op r = let (size, r') = read_long r in read_sized op size r'

unfoldable pub read_bytes : Reader → List ℕ × Reader
unfolding read_bytes_as
read_bytes r = read_bytes_as bytes_op r

unfoldable pub read_string : Reader → List ℕ × Reader
unfolding read_bytes_as
read_string r =
    let (b, r') = read_bytes_as string_op r in
    if utf8_valid b then (b, r') else ([], report_error r' "ReadString" "invalid UTF-8")

-- `-math.MinInt64` does not fit, and `length == math.MinInt64` is `negsuc (2 ^ 63 - 1)`.
unfoldable pub block_size : ℕ → ℤ × Reader → (ℤ × ℤ) × Reader
block_size n (size, r) =
    if has_error r
    then ((pos 0, pos 0), r)
    else if ltb_ℤ size (pos 0)
    then ((pos 0, pos 0), report_error r "ReadBlockHeader" "invalid negative block size")
    else ((pos (suc n), size), r)

unfoldable pub block_header : ℤ × Reader → (ℤ × ℤ) × Reader
unfolding block_size
block_header (pos n, r) = if has_error r then ((pos 0, pos 0), r) else ((pos n, pos 0), r)
block_header (negsuc n, r) =
    if has_error r
    then ((pos 0, pos 0), r)
    else if n == 0x7fff_ffff_ffff_ffff
    then ((pos 0, pos 0), report_error r "ReadBlockHeader" "block count cannot be math.MinInt64")
    else block_size n (read_long r)

-- The count of the block, and its size in bytes or 0.
unfoldable pub read_block_header : Reader → (ℤ × ℤ) × Reader
unfolding block_header
read_block_header r = block_header (read_long r)
