-- ===== src/Registry/Prefix.antt =====
-- registry/decoder.go: the prefix that decodeDatum adds to bytes without a length.
use avro.Prelude.{
  ℕ, ◌*◌, ◌^◌, ◌<◌, ◌≡◌, refl, sym, ap, ◌∙◌, arith, none, some, List, [], ◌++◌, append-nil, length,
  All,
}
use avro.Prelude.Int.{pos}
use avro.Config.{Config}
use avro.Words.{zigzag_number}
use avro.Reader.State.{new_reader}
use avro.Reader.Scan.{IsByte}
use avro.Reader.Stream.{stream, chunks, IsSteady, IsSteadyAnswer}
use avro.Reader.Values.{read_bytes}
use avro.Writer.{Writer, append_uvarint, write_bytes}
use avro.Writer.Varint.{
  groups, append_varint-groups, append_varint-append_uvarint, groups-IsByte, length-groups,
}
use avro.RoundTrip.Numbers.{Returns, long_bytes}
use avro.RoundTrip.Bytes.{IsAllowed, read_bytes-write_bytes}
use avro.Ocf.Files.Opened.{chunks-pieces, pieces-IsSteady}
use avro.Registry.{prefixed}

prefix_bytes : (n : ℕ) → n < 2 ^ 63 → append_uvarint 9 [] (n * 2) ≡ groups 9 (zigzag_number (pos n))
prefix_bytes n h =
    let double : n * 2 ≡ 2 * n = omega arith in
    sym (append_varint-append_uvarint [] (n * 2) (omega arith))
    ∙ append_varint-groups [] (n * 2) (omega arith)
    ∙ ap (λ t. groups 9 t) double

abbrev empty_writer : Config → Writer
empty_writer cfg = record { cfg = cfg; config_err = none; out = none; buf = []; error = none }

written :
    (cfg : Config) (b : List ℕ)
    → length b < 2 ^ 63
    → (write_bytes (empty_writer cfg) b).buf ≡ groups 9 (zigzag_number (pos (length b))) ++ b
unfolding write_bytes
written cfg b h = ap (λ t. t ++ b) (long_bytes (empty_writer cfg) (pos (length b)) h)

module _ (cfg : Config) (b : List ℕ) (short : length b < 2 ^ 63) (bytes : All IsByte b) where
  chunks-prefixed : chunks (prefixed b) ≡ groups 9 (zigzag_number (pos (length b))) ++ b
  unfolding prefixed
  chunks-prefixed =
      rw (prefix_bytes (length b) short, chunks-pieces (length b) b (omega arith)) refl

  prefixed-IsSteady : All IsSteadyAnswer (prefixed b)
  unfolding prefixed
  prefixed-IsSteady =
      let n : ℕ = zigzag_number (pos (length b)) in
      let same = prefix_bytes (length b) short in
      (
        (rw same (length-groups 9 n).0, refl, rw same (groups-IsByte 9 n (omega arith))),
        pieces-IsSteady (length b) b bytes,
      )

  reader_steady : IsSteady (new_reader cfg none (some (prefixed b)))
  unfolding new_reader
  reader_steady = record {
    no_error = refl;
    no_pending = refl;
    bytes = tt;
    answers = prefixed-IsSteady;
  }

  reader_stream :
      stream (new_reader cfg none (some (prefixed b)))
      ≡ (groups 9 (zigzag_number (pos (length b))) ++ b) ++ []
  unfolding new_reader
  reader_stream = chunks-prefixed ∙ sym (append-nil _)

  reader_cfg : (new_reader cfg none (some (prefixed b))).cfg ≡ cfg
  unfolding new_reader
  reader_cfg = refl

  -- Bytes that came without their length are what ReadBytes returns of the reader that decodeDatum puts
  -- before them, where the limits of the configuration let that many pass: all of them, with nothing left
  -- and no error.
  pub read_bytes-prefixed :
      IsAllowed cfg (length b) → Returns b [] (read_bytes (new_reader cfg none (some (prefixed b))))
  read_bytes-prefixed ok =
      read_bytes-write_bytes (empty_writer cfg) b (groups 9 (zigzag_number (pos (length b))) ++ b)
        [] (new_reader cfg none (some (prefixed b))) (rw reader_cfg ok) (written cfg b short)
        reader_steady reader_stream
