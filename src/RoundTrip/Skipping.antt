-- ===== src/RoundTrip/Skipping.antt =====
-- The Skip operations of reader_skip.go over what the Writer appended.
use avro.Prelude.{
  ℕ, suc, ◌-◌, ◌^◌, ◌<◌, ◌≡◌, sym, ◌∙◌, ap, arith, List, [], ◌∷◌, ◌++◌, append_assoc,
  append_cancel_left, length, length-append, min,
}
use avro.Prelude.Int.{pos}
use avro.Words.{zigzag_number}
use avro.Config.{max_int}
use avro.Reader.State.{Reader}
use avro.Reader.Varint.{read_long}
use avro.Reader.Skip.{chunk_loop, skip_n_bytes, skip_n_bytes_int64, skip_bytes, skip_string}
use avro.Reader.Stream.{stream, IsSteady}
use avro.Reader.Passing.{skip_n_bytes-Passes}
use avro.Writer.{Writer, write_bytes}
use avro.Writer.Varint.{groups}
use avro.RoundTrip.Numbers.{read_long-write_long, long_bytes, drop_front}

-- The reader goes on without an error, with `rest` to come.
abbrev pub Leaves : List ℕ → Reader → Type 0
Leaves rest r = IsSteady r × (stream r ≡ rest)

passes_front :
    (b rest : List ℕ) (r : Reader)
    → IsSteady r
    → stream r ≡ b ++ rest
    → Leaves rest (skip_n_bytes (pos (length b)) r)
passes_front b rest r st e =
    let total = ap (λ (t : List ℕ). length t) e ∙ length-append b rest in
    let (st', left) = (skip_n_bytes-Passes (length b) r st).0 (omega arith) in
    (st', left ∙ rw e (drop_front b rest))

one_chunk :
    (n : ℕ) (r : Reader)
    → suc n < 2 ^ 63
    → skip_n_bytes_int64 (pos (suc n)) r ≡ skip_n_bytes (pos (suc n)) r
unfolding skip_n_bytes_int64 chunk_loop
one_chunk n r h =
    let chunk : min (suc n) max_int ≡ suc n = omega arith in
    let rest : suc n - suc n ≡ 0 = omega arith in rw (chunk, rest) (ground arith)

pub skip_n_bytes_int64-Leaves :
    (b rest : List ℕ) (r : Reader)
    → length b < 2 ^ 63
    → IsSteady r
    → stream r ≡ b ++ rest
    → Leaves rest (skip_n_bytes_int64 (pos (length b)) r)
skip_n_bytes_int64-Leaves [] rest r h st e = unfold skip_n_bytes_int64 chunk_loop in (st, e)
skip_n_bytes_int64-Leaves (x ∷ xs) rest r h st e =
    rw (one_chunk (length xs) r h) (passes_front (x ∷ xs) rest r st e)

-- SkipBytes and SkipString pass over exactly what WriteBytes appended, whatever the limits of the
-- reader's configuration, and report no error.
pub skip_bytes-write_bytes :
    (w : Writer) (b sent rest : List ℕ) (r : Reader)
    → length b < 2 ^ 63
    → (write_bytes w b).buf ≡ w.buf ++ sent
    → IsSteady r
    → stream r ≡ sent ++ rest
    → Leaves rest (skip_bytes r) × Leaves rest (skip_string r)
unfolding skip_bytes skip_string write_bytes
skip_bytes-write_bytes w b sent rest r h appended st e =
    let head : List ℕ = groups 9 (zigzag_number (pos (length b))) in
    let written = long_bytes w (pos (length b)) h in
    let whole : sent ≡ head ++ b =
      append_cancel_left w.buf _ _
        (sym appended ∙ ap (λ t. t ++ b) written ∙ append_assoc w.buf head b) in
    let split : stream r ≡ head ++ (b ++ rest) =
      e ∙ ap (λ t. t ++ rest) whole ∙ append_assoc head b rest in
    let (size, st', left) =
      read_long-write_long w (pos (length b)) head (b ++ rest) r h written st split in
    let done = skip_n_bytes_int64-Leaves b rest (read_long r).1 h st' left in
    (rw size done, rw size done)
