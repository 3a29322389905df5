-- ===== src/Ocf/Encoder.antt =====
-- ocf/ocf.go: the Encoder, and encoder.go under it. `e.buf` is the list of the bytes of its
-- bytes.Buffer. The number of records of a block stays far below the limit of int.
use avro.Prelude.{
  ℕ, suc, Bool, true, false, not, ◌&&◌, ◌||◌, Option, none, some, List, [], ◌++◌, if◌then◌else◌,
  ◌==◌, length, take,
}
use avro.Prelude.Int.{ℤ, pos, negsuc, ltb_ℤ}
use avro.Errors.{Error, message, join, is_set}
use avro.Writer.{Output, Writer, reset, write_long, append, flush}
use avro.Ocf.{Codec, Header, ValueCodec}

pub record Encoder : Type 0 where
  pub writer : Writer
  pub buf : List ℕ
  pub encoder : Writer
  pub sync : List ℕ
  pub codec : Codec
  pub block_length : ℤ
  pub count : ℕ
  pub block_size : ℤ
  pub failed : Bool
  pub closed : Bool
  pub header : Header

abbrev pub closed_pipe : Error
closed_pipe = message "io: read/write on closed pipe"

-- `limit != 0 && n >= limit`
abbrev pub reached : ℕ → ℤ → Bool
reached n (pos limit) = not (limit == 0) && not (ltb_ℤ (pos n) (pos limit))
reached n (negsuc limit) = true

unfoldable pub should_write_data_block : Encoder → Bool
should_write_data_block e = reached e.count e.block_length || reached (length e.buf) e.block_size

-- What writerBlock has appended to the writer before it flushes.
unfoldable pub block_written : Encoder → Writer
block_written e =
    let w = write_long e.writer (pos e.count) in
    let b = e.codec.encode_block e.buf in append (append (write_long w (pos (length b))) b) e.sync

unfoldable pub writer_block : Encoder → Option Error × Encoder
writer_block e =
    let (err, w) = flush (block_written e) in (err, record e { writer = w; count = 0; buf = [] })

-- `e.failed = e.writer.Error != nil; return e.writer.Error`
abbrev pub settle : Encoder → Option Error × Encoder
settle e = (e.writer.error, record e { failed = is_set e.writer.error })

unfoldable pub write_then_settle : Encoder → Option Error × Encoder
write_then_settle e =
    let (err, e') = writer_block e in
    elim err [ some x ↦ (some x, record e' { failed = true }) | none ↦ settle e' ]

-- `e.count++`, and the block where it is full.
unfoldable pub count_record : Encoder → Option Error × Encoder
count_record e =
    let e' = record e { count = suc e.count } in
    if should_write_data_block e' then write_then_settle e' else settle e'

-- `Write(p)`, whose buffer takes all of `p`.
unfoldable pub write : Encoder → List ℕ → (ℕ × Option Error) × Encoder
write e p =
    if e.closed
    then ((0, some closed_pipe), e)
    else if e.failed
    then ((0, e.writer.error), e)
    else (let (err, e') = count_record (record e { buf = e.buf ++ p }) in ((length p, err), e'))

-- `e.buf` as the io.Writer of the encoder of values: a bytes.Buffer takes all that it is given.
abbrev pub buffer : List ℕ → Output
buffer buf = record { taken = buf; answers = [] }

abbrev pub buffered : Option Output → List ℕ
buffered none = []
buffered (some out) = out.taken

module _ {V : Type 0} (c : ValueCodec V) where
  -- encoder.go: `Encoder.Encode`.
  unfoldable pub encode_to : Writer → V → Option Error × Writer
  encode_to w v = let w' = (flush (c.write_val v w)).1 in (w'.error, w')

  unfoldable pub encode_open : Encoder → V → Option Error × Encoder
  encode_open e v =
      let (err, w) = encode_to (record e.encoder { out = some (buffer e.buf) }) v in
      elim err [
        | some x ↦
            let kept = take (length e.buf) (buffered w.out) in
            (some x, record e { buf = kept; encoder = reset w (some (buffer kept)) })
        | none ↦ count_record (record e { buf = buffered w.out; encoder = w })
      ]

  unfoldable pub encode : Encoder → V → Option Error × Encoder
  encode e v =
      if e.closed
      then (some closed_pipe, e)
      else if e.failed
      then (e.writer.error, e)
      else encode_open e v

-- `Encoder.Flush`
unfoldable pub flush_block : Encoder → Option Error × Encoder
flush_block e =
    if e.failed then (none, e) else if e.count == 0 then settle e else write_then_settle e

abbrev pub joined : Option Error → Option Error → Option Error
joined err none = err
joined none (some e) = some e
joined (some err) (some e) = some (join err e)

abbrev close_codec : Codec → Option Error
close_codec codec = elim codec.closer [ none ↦ none | some answer ↦ answer ]

unfoldable pub close : Encoder → Option Error × Encoder
close e =
    if e.closed
    then (none, e)
    else (let (err, e') = flush_block (record e { closed = true }) in
        (joined err (close_codec e'.codec), e'))

-- `WriteVal(HeaderSchema, header)` is `write_header`, and `fresh` what the random source gives.
module _ (write_header : Header → Writer → Writer) (fresh : List ℕ) where
  unfoldable pub start_file : Encoder → Option Output → Option Error × Encoder
  start_file e out =
      let header = record e.header { sync = fresh } in
      let (err, w) = flush (write_header header (reset e.writer out)) in
      let e' = record e { header = header; sync = fresh; writer = w } in
      elim err [
        | some x ↦ (some x, record e' { failed = true })
        | none ↦ (
          none,
          record e' {
            buf = [];
            encoder = reset e'.encoder (some (buffer []));
            count = 0;
            failed = false;
            closed = false;
          },
        )
      ]

  unfoldable pub reset_encoder : Encoder → Option Output → Option Error × Encoder
  reset_encoder e none = (some (message "writer cannot be nil"), e)
  reset_encoder e (some out) =
      let (err, e') = if e.count == 0 then (none, e) else flush_block e in
      elim err [ some x ↦ (some x, e') | none ↦ start_file e' (some out) ]
