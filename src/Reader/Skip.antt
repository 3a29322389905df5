-- ===== src/Reader/Skip.antt =====
-- reader_skip.go.
use avro.Prelude.{ℕ, zero, suc, ◌-◌, true, false, [], if◌then◌else◌, ltb, length, min}
use avro.Prelude.Int.{ℤ, pos, negsuc}
use avro.Config.{max_int}
use avro.Reader.State.{
  Reader, report_error, report_unexpected_eof, load_if_empty, diverge, has_error,
}
use avro.Reader.Varint.{read_long, advance}
use avro.Reader.Values.{read_bool}

-- `left` is `n - read`. Each round passes over a byte at least.
unfoldable pub skip_loop : ℕ → ℕ → Reader → Reader
skip_loop fuel zero r = r
skip_loop zero (suc left) r = diverge r
skip_loop (suc fuel) (suc left) r =
    let (more, r') = load_if_empty r in
    elim more [
      | false ↦ report_unexpected_eof r'
      | true ↦
          let rest = skip_loop fuel (suc left - length r'.unread) (record r' { unread = [] }) in
          if ltb (length r'.unread) (suc left) then rest else advance r' (suc left)
    ]

unfoldable pub skip_n_bytes : ℤ → Reader → Reader
unfolding skip_loop
skip_n_bytes (negsuc n) r = report_error r "SkipNBytes" "negative byte count"
skip_n_bytes (pos n) r = skip_loop n n r

-- In chunks of `math.MaxInt` bytes at most.
unfoldable pub chunk_loop : ℕ → ℕ → Reader → Reader
chunk_loop fuel zero r = r
chunk_loop zero (suc n) r = diverge r
chunk_loop (suc fuel) (suc n) r =
    let chunk = min (suc n) max_int in
    let r' = skip_n_bytes (pos chunk) r in
    let rest = chunk_loop fuel (suc n - chunk) r' in if has_error r' then r' else rest

-- An int64 is one chunk where int has 64 bits, so one round is enough.
unfoldable pub skip_n_bytes_int64 : ℤ → Reader → Reader
unfolding chunk_loop skip_n_bytes
skip_n_bytes_int64 (negsuc n) r = report_error r "SkipNBytesInt64" "negative byte count"
skip_n_bytes_int64 (pos n) r = chunk_loop 1 n r

unfoldable pub skip_bool : Reader → Reader
unfolding read_bool
skip_bool r = (read_bool r).1

unfoldable pub skip_float : Reader → Reader
unfolding skip_n_bytes
skip_float r = skip_n_bytes (pos 4) r

unfoldable pub skip_double : Reader → Reader
unfolding skip_n_bytes
skip_double r = skip_n_bytes (pos 8) r

unfoldable pub skip_string : Reader → Reader
unfolding skip_n_bytes_int64
skip_string r = let (size, r') = read_long r in skip_n_bytes_int64 size r'

unfoldable pub skip_bytes : Reader → Reader
unfolding skip_n_bytes_int64
skip_bytes r = let (size, r') = read_long r in skip_n_bytes_int64 size r'
