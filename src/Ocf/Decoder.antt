-- ===== src/Ocf/Decoder.antt =====
-- ocf/ocf.go: the Decoder, and decoder.go under it. The Decoder of values reads the block from a
-- bytes.Reader, which is the source of the Reader in the field `decoder`.
use avro.Prelude.{
  ℕ, zero, suc, ◌-◌, min, String, Bool, false, not, ◌&&◌, ◌⊎◌, inl, inr, Option, none, some, List,
  [], ◌∷◌, ◌++◌, if◌then◌else◌, ◌==◌, length, take, drop, bytes_equal,
}
use avro.Prelude.Int.{ℤ, pos, negsuc, ltb_ℤ}
use avro.Config.{max_int}
use avro.Errors.{Error, eof, message, wrap, is_eof}
use avro.Reader.State.{ReadResult, Reader, peek, report_error, has_error, diverge}
use avro.Reader.Varint.{read_long}
use avro.Reader.Values.{read}
use avro.Reader.Stream.{stream, future}
use avro.MapCodec.{GoMap}
use avro.Ocf.{Codec, ValueCodec}

pub record Decoder : Type 0 where
  pub reader : Reader
  pub decoder : Reader
  pub meta : GoMap (List ℕ)
  pub sync : List ℕ
  pub codec : Codec
  pub count : ℤ
  pub max_block_bytes : ℤ
  pub max_block_records : ℤ

-- `d.reader.Error = err`
abbrev pub with_error : Decoder → Error → Decoder
with_error d e = record d { reader = record d.reader { error = some e } }

-- What a bytes.Reader answers to a Read of 512 bytes, the buffer of a Decoder, again and again.
unfoldable pub pieces : ℕ → List ℕ → List ReadResult
pieces zero bytes = []
pieces (suc fuel) [] = []
pieces (suc fuel) (b ∷ bs) =
    record { bytes = take 512 (b ∷ bs); err = none } ∷ pieces fuel (drop 512 (b ∷ bs))

-- `d.resetReader.Reset(decoded)`
abbrev pub reset_reader : Reader → List ℕ → Reader
reset_reader r decoded = record r { source = some (pieces (length decoded) decoded) }

abbrev pub block_read_chunk_size : ℕ
block_read_chunk_size = 65536

-- The loop of readBlockData over `remaining`. Each round reads a byte at least.
unfoldable pub read_chunks : ℕ → ℕ → List ℕ → Reader → (List ℕ × Option Error) × Reader
read_chunks fuel zero data_read r = ((data_read, none), r)
read_chunks zero (suc remaining) data_read r = ((data_read, none), diverge r)
read_chunks (suc fuel) (suc remaining) data_read r =
    let read_size = min (suc remaining) block_read_chunk_size in
    let (chunk, r') = read read_size r in
    let rest = read_chunks fuel (suc remaining - read_size) (data_read ++ chunk) r' in
    elim r'.error [ some e ↦ (([], some e), r') | none ↦ rest ]

unfoldable pub read_block_data : Reader → ℕ → (List ℕ × Option Error) × Reader
read_block_data r size =
    if size == 0
    then (([], none), r)
    else if not (ltb_ℤ (pos block_read_chunk_size) (pos size))
    then (let (bytes, r') = read size r in ((bytes, r'.error), r'))
    else read_chunks size size [] r

abbrev pub invalid_block : Error
invalid_block = message "decoder: invalid block"

-- `return 0` after ReportError, and after an assignment of the error.
abbrev pub refuse : Decoder → Reader → String → ℤ × Decoder
refuse d r msg = (pos 0, record d { reader = report_error r "OCF read block" msg })

abbrev pub fail : Decoder → Reader → Error → ℤ × Decoder
fail d r e = (pos 0, with_error (record d { reader = r }) e)

-- readBlock from the end on: each helper goes on where a step of it has succeeded.
unfoldable pub open_block : ℤ → Error ⊎ List ℕ → Decoder → ℤ × Decoder
open_block count (inl e) d = (pos 0, with_error d (wrap "decoder: decompress block" e))
open_block count (inr decoded) d =
    if not (ltb_ℤ (pos 0) count) && not (length decoded == 0)
    then (pos 0, with_error d (message "decoder: unread bytes in empty block"))
    else (count, record d { decoder = reset_reader d.decoder decoded })

unfoldable pub check_sync : ℤ → List ℕ → Decoder → List ℕ × Reader → ℤ × Decoder
check_sync count bytes d (sync, r) =
    if has_error r
    then fail d r invalid_block
    else if not (bytes_equal d.sync sync)
    then fail d r invalid_block
    else open_block count (d.codec.decode_block bytes) (record d { reader = r })

unfoldable pub after_data : ℤ → Decoder → (List ℕ × Option Error) × Reader → ℤ × Decoder
after_data count d ((bytes, some e), r) = fail d r e
after_data count d ((bytes, none), r) = check_sync count bytes d (read 16 r)

unfoldable pub after_size : ℤ → Decoder → ℤ × Reader → ℤ × Decoder
after_size count d (negsuc n, r) =
    if has_error r then fail d r invalid_block else refuse d r "negative block size"
after_size count d (pos size, r) =
    if has_error r
    then fail d r invalid_block
    else if ltb_ℤ (pos max_int) (pos size)
    then refuse d r "block size exceeds the platform allocation limit"
    else if ltb_ℤ (pos 0) d.max_block_bytes && ltb_ℤ d.max_block_bytes (pos size)
    then refuse d r "block size exceeds WithMaxBlockBytes"
    else after_data count d (read_block_data r size)

unfoldable pub after_count : Decoder → ℤ × Reader → ℤ × Decoder
after_count d (negsuc n, r) =
    if has_error r then fail d r invalid_block else refuse d r "negative record count"
after_count d (pos count, r) =
    if has_error r
    then fail d r invalid_block
    else if ltb_ℤ (pos 0) d.max_block_records && ltb_ℤ d.max_block_records (pos count)
    then refuse d r "record count exceeds WithMaxBlockRecords"
    else after_size (pos count) d (read_long r)

abbrev pub at_eof : Option Error → Bool
at_eof none = false
at_eof (some e) = is_eof e

unfoldable pub read_block : Decoder → ℤ × Decoder
unfolding is_eof
read_block d =
    let r = (peek d.reader).1 in
    if at_eof r.error then (pos 0, record d { reader = r }) else after_count d (read_long r)

-- `d.count = d.readBlock()`
unfoldable pub next_block : Decoder → Decoder
next_block d = let (count, d') = read_block d in record d' { count = count }

unfoldable pub needs_block : Decoder → Bool
needs_block d = not (ltb_ℤ (pos 0) d.count) && not (has_error d.reader)

unfoldable pub block_loop : ℕ → Decoder → Decoder
block_loop zero d = if needs_block d then record d { reader = diverge d.reader } else d
block_loop (suc fuel) d =
    let rest = block_loop fuel (next_block d) in if needs_block d then rest else d

-- Each block takes a byte of the file at least.
unfoldable pub has_next : Decoder → Bool × Decoder
has_next d =
    let d' = block_loop (suc (length (stream d.reader))) d in
    (if has_error d'.reader then false else ltb_ℤ (pos 0) d'.count, d')

-- decoder.go: `Decoder.DecodeDatum`.
abbrev drop_eof : Option Error → Option Error
drop_eof (some eof) = none
drop_eof e = e

abbrev pub decrement : ℤ → ℤ
decrement (pos zero) = negsuc 0
decrement (pos (suc n)) = pos n
decrement (negsuc n) = negsuc (suc n)

-- Buffered and Len are what the decoder of values and its bytes.Reader still hold.
unfoldable pub after_datum : Decoder → Option Error → Decoder
after_datum d (some e) = with_error d (wrap "decoder: read record" e)
after_datum d none =
    if not (ltb_ℤ (pos 0) d.count)
      && not (length d.decoder.unread == 0 && length (future d.decoder.source) == 0)
    then with_error d (message "decoder: unread bytes after final block record")
    else d

module _ {V : Type 0} (c : ValueCodec V) where
  unfoldable pub decode_datum : Reader → V → Option Error × V × Reader
  decode_datum r v = elim r.error [
    | some e ↦ (some e, v, r)
    | none ↦ let (v', r') = c.read_val v r in (drop_eof r'.error, v', r')
  ]

  unfoldable pub decode : Decoder → V → Option Error × V × Decoder
  decode d v = elim d.reader.error [
    | some e ↦ (some e, v, d)
    | none ↦
        if not (ltb_ℤ (pos 0) d.count)
        then (some (message "decoder: no data found, call HasNext first"), v, d)
        else (let (err, v', r) = decode_datum d.decoder v in
            let d' = after_datum (record d { count = decrement d.count; decoder = r }) err in
            (d'.reader.error, v', d'))
  ]

-- `Decoder.Error`: the clean end of the stream is no error.
unfoldable pub error_of : Decoder → Option Error
error_of d = drop_eof d.reader.error

-- `Decoder.Close`
unfoldable pub close : Decoder → Option Error
close d = elim d.codec.closer [ none ↦ none | some answer ↦ answer ]
