-- ===== src/ArrayCodec/Longs.antt =====
-- longCodec of codec_native.go on an int64, with no time of day, as the codec of the elements.
use avro.Prelude.{arith, some, ℕ, ◌≡◌, List, [], ◌++◌, none}
use avro.Prelude.Int.{ℤ}
use avro.Words.{InRange, zigzag_number}
use avro.Reader.State.{Reader}
use avro.Reader.Varint.{read_long}
use avro.Reader.Stream.{stream, IsSteady}
use avro.Writer.{Writer, append, write_long}
use avro.Writer.Varint.{groups}
use avro.RoundTrip.Numbers.{read_long-write_long, long_bytes}
use avro.ArrayCodec.{Element}
use avro.ArrayCodec.Encoded.{long_appended}
use avro.ArrayCodec.Decoded.{ElementLaws, Decodes, cfg-read_long}

abbrev pub long_encode : ℤ → Writer → Writer
long_encode i w = elim w.error [ some e ↦ w | none ↦ write_long w i ]

abbrev pub long_element : Element ℤ
long_element = record { encode = long_encode; decode = read_long; elem_size = 8 }

abbrev any_writer : Reader → Writer
any_writer r = record { cfg = r.cfg; config_err = none; out = none; buf = []; error = none }

pub long_encode-append :
    (i : ℤ) (w : Writer)
    → InRange 64 i
    → w.error ≡ none
    → long_encode i w ≡ append w (groups 9 (zigzag_number i))
long_encode-append i w h clean = ground (arith, clean, long_appended w i h)

pub read_long-Decodes :
    (i : ℤ) (rest : List ℕ) (r : Reader)
    → InRange 64 i
    → IsSteady r
    → stream r ≡ groups 9 (zigzag_number i) ++ rest
    → Decodes i rest r (read_long r)
read_long-Decodes i rest r h st e = (
  read_long-write_long (any_writer r) i (groups 9 (zigzag_number i)) rest r h
      (long_bytes (any_writer r) i h) st e,
  cfg-read_long r,
)

abbrev pub long_laws : ElementLaws long_element
long_laws = record {
  bytes_of = λ i. groups 9 (zigzag_number i);
  allowed = InRange 64;
  encodes = long_encode-append;
  decodes = read_long-Decodes;
}
