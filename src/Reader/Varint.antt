-- ===== src/Reader/Varint.antt =====
-- ReadInt and ReadLong of reader.go, which are one text at two widths, and skipVarint of
-- reader_skip.go.
use avro.Prelude.{
  ℕ, zero, suc, ◌+◌, ◌-◌, ◌*◌, ◌%◌, ◌^◌, bit_and, bit_or, String, true, false, ◌&&◌, Option, none,
  some, List, [], ◌∷◌, if◌then◌else◌, leb, ltb, ◌==◌, length, take, drop,
}
use avro.Prelude.Int.{ℤ, pos}
use avro.Words.{unzigzag}
use avro.Errors.{Error, message, wrap}
use avro.Reader.State.{Reader, report_error, load_more, read_byte, diverge, has_error}

-- What differs between ReadInt and ReadLong.
pub record Width : Type 0 where
  pub bits : ℕ
  pub max_buf_size : ℕ
  pub max_last_byte : ℕ
  pub operation : String
  pub skip_operation : String
  pub reading : String

-- maxIntBufSize and maxLongBufSize.
abbrev pub int_width : Width
int_width = record {
  bits = 32;
  max_buf_size = 5;
  max_last_byte = 0x0f;
  operation = "ReadInt";
  skip_operation = "SkipInt";
  reading = "reading int";
}

abbrev pub long_width : Width
long_width = record {
  bits = 64;
  max_buf_size = 10;
  max_last_byte = 0x01;
  operation = "ReadLong";
  skip_operation = "SkipLong";
  reading = "reading long";
}

-- How the loop over the bytes at hand ends: at a last byte, with the number and how many bytes it
-- took from its first on; at a byte that does not fit; or at the end of the bytes.
pub data Scan : Type 0 where
  found : ℕ → ℕ → Scan
  overflow : Scan
  ran_out : ℕ → ℕ → Scan

-- `value |= uint64(currentByte&0x7f) << shift`
abbrev pub add_group : Width → ℕ → ℕ → ℕ → ℕ
add_group w value shift b = bit_or value (bit_and b 0x7f * 2 ^ shift % 2 ^ w.bits)

-- `index` is `consumed + index` of the source.
unfoldable pub scan : Width → ℕ → ℕ → ℕ → List ℕ → Scan
scan w index value shift [] = ran_out value shift
scan w index value shift (b ∷ bs) =
    let value' = add_group w value shift b in
    let more = scan w (index + 1) value' (shift + 7) bs in
    if index == w.max_buf_size - 1 && ltb w.max_last_byte b
    then overflow
    else if bit_and b 0x80 == 0
    then found value' (index + 1)
    else more

abbrev int_overflow : Width → Reader → ℤ × Reader
int_overflow w r = (pos 0, report_error r w.operation "int overflow")

abbrev pub advance : Reader → ℕ → Reader
advance r n = record r { unread = drop n r.unread }

-- The fast path, over `r.buf[r.head : r.head+maxLongBufSize]`.
abbrev fast_result : Width → Reader → Scan → ℤ × Reader
fast_result w r (found value end) = (unzigzag w.bits value, advance r end)
fast_result w r overflow = int_overflow w r
fast_result w r (ran_out value shift) = int_overflow w r

unfoldable pub read_fast : Width → Reader → ℤ × Reader
read_fast w r = fast_result w r (scan w 0 0 0 (take w.max_buf_size r.unread))

-- `r.buf[r.head:tail]`
abbrev pub slice : Width → ℕ → Reader → List ℕ
slice w consumed r =
    if ltb w.max_buf_size (length r.unread + consumed)
    then take (w.max_buf_size - consumed) r.unread
    else r.unread

abbrev pub wrap_error : String → Option Error → Error
wrap_error context none = message context
wrap_error context (some e) = wrap context e

-- `consumed` bytes have been taken by the rounds before.
unfoldable pub read_slow : ℕ → Width → ℕ → ℕ → ℕ → Reader → ℤ × Reader
read_slow zero w consumed value shift r = (pos 0, diverge r)
read_slow (suc fuel) w consumed value shift r =
    elim (scan w consumed value shift (slice w consumed r)) [
      | found value' end ↦ (unzigzag w.bits value', advance r (end - consumed))
      | overflow ↦ int_overflow w r
      | ran_out value' shift' ↦ elim (leb w.max_buf_size consumed) [
        | true ↦ int_overflow w r
        | false ↦
            let n = length (slice w consumed r) in
            let (more, r') = load_more (advance r n) in
            elim more [
              | true ↦ read_slow fuel w (consumed + n) value' shift' r'
              | false ↦ (pos 0, record r' { error = some (wrap_error w.reading r'.error) })
            ]
      ]
    ]

unfoldable pub read_varint : Width → Reader → ℤ × Reader
unfolding read_fast read_slow scan
read_varint w r =
    if has_error r
    then (pos 0, r)
    else if leb w.max_buf_size (length r.unread)
    then read_fast w r
    else read_slow (suc w.max_buf_size) w 0 0 0 r

unfoldable pub read_int : Reader → ℤ × Reader
unfolding read_varint
read_int r = read_varint int_width r

unfoldable pub read_long : Reader → ℤ × Reader
unfolding read_varint
read_long r = read_varint long_width r

-- `left` is `maxSize - i`.
unfoldable pub skip_loop : ℕ → Width → Reader → Reader
skip_loop zero w r = r
skip_loop (suc left) w r = elim (has_error r) [
  | true ↦ r
  | false ↦
      let (b, r') = read_byte r in
      let rest = skip_loop left w r' in
      if left == 0 && ltb w.max_last_byte b
      then report_error r' w.skip_operation "int overflow"
      else if bit_and b 0x80 == 0
      then r'
      else rest
]

unfoldable pub skip_varint : Width → Reader → Reader
unfolding skip_loop
skip_varint w r = skip_loop w.max_buf_size w r

unfoldable pub skip_int : Reader → Reader
unfolding skip_varint
skip_int r = skip_varint int_width r

unfoldable pub skip_long : Reader → Reader
unfolding skip_varint
skip_long r = skip_varint long_width r
