-- ===== src/Ocf/Progress.antt =====
-- ocf/ocf.go: how far readBlock takes its reader, on each of its ways out.
use avro.Prelude.{
  ℕ, ◌-◌, ◌<◌, ◌≡◌, ◌≢◌, ◌⊎◌, refl, ap, ◌∙◌, arith, inl, inr, Option, none, some, String, Bool,
  true, false, not, ◌&&◌, List, length, length-drop, if◌then◌else◌, Bool-cases, leb, bytes_equal,
  ◌==◌,
}
use avro.Prelude.Int.{ℤ, pos, negsuc, ltb_ℤ}
use avro.Config.{max_int}
use avro.Errors.{Error, unexpected_eof, message, wrap, report, diverged}
use avro.Reader.State.{Reader, has_error}
use avro.Reader.Varint.{read_long, long_width, Scan, found, overflow, ran_out, scan}
use avro.Reader.Values.{read}
use avro.Reader.Scan.{scan-found, long_width-IsWidth}
use avro.Reader.Rounds.{Decodes, reported}
use avro.Reader.Chunks.{read_varint-Decodes}
use avro.Reader.Stream.{stream, IsSteady}
use avro.Reader.Copy.{read-Copies}
use avro.Ocf.Decoder.{
  Decoder, after_count, after_size, after_data, check_sync, open_block, read_block_data, fail,
  refuse, reset_reader,
}
use avro.Ocf.BlockData.{read_block_data-Loads}

-- The reader goes on with less than `n` bytes to come, or has an error that is not the model's own.
abbrev pub Ends : ℕ → Reader → Type 0
Ends n r = IsSteady r × (length (stream r) < n)

abbrev pub Stops : Reader → Type 0
Stops r = (e : Error) × (r.error ≡ some e) × (e ≢ diverged)

abbrev pub Advances : ℕ → Reader → Type 0
Advances n r = Ends n r ⊎ Stops r

by_scan :
    (r : Reader) (p : ℤ × Reader) (result : Scan)
    → scan long_width 0 0 0 (stream r) ≡ result
    → Decodes long_width 0 r p result
    → Advances (length (stream r)) p.1
by_scan r p (found value end) e (i, st, left) =
    let (some_bytes, within) = scan-found long_width (stream r) 0 0 0 value end e in
    let size = ap (λ (t : List ℕ). length t) left ∙ length-drop (end - 0) (stream r) in
    inl (st, omega arith)
by_scan r p overflow e (i, failed) = inr (_, failed, λ bad. absurd (ground arith))
by_scan r p (ran_out value shift) e (i, failed) = inr (_, failed, λ bad. absurd (ground arith))

-- Reading a long takes a byte at least, or reports an error.
pub read_long-Advances : (r : Reader) → IsSteady r → Advances (length (stream r)) (read_long r).1
unfolding read_long
read_long-Advances r st =
    by_scan r _ (scan long_width 0 0 0 (stream r)) refl
      (read_varint-Decodes long_width long_width-IsWidth r st)

read-Advances : (n size : ℕ) (r : Reader) → Ends n r → Advances n (read size r).1
read-Advances n size r (st, less) = elim (Bool-cases (leb size (length (stream r)))) [
  | inl here ↦
      let (bytes, st', left) = (read-Copies size r st).0 (ground (arith, here)) in
      let total = ap (λ (t : List ℕ). length t) left ∙ length-drop size (stream r) in
      inl (st', omega arith)
  | inr beyond ↦
      let (bytes, failed) = (read-Copies size r st).1 (ground (arith, beyond)) in
      inr (unexpected_eof, failed, λ bad. absurd (ground arith))
]

-- What readBlock answers, where its reader had `n` bytes to come.
pub record Moves (n : ℕ) (p : ℤ × Decoder) : Type 0 where
  pub reaches : Advances n p.1.reader

either :
    (n : ℕ) (b : Bool) (x y : ℤ × Decoder) → Moves n x → Moves n y → Moves n (if b then x else y)
either n true x y hx hy = hx
either n false x y hx hy = hy

-- A message is an error of the program.
said : (n : ℕ) (d : Decoder) (r : Reader) (msg : String) → Moves n (fail d r (message msg))
said n d r msg = record { reaches = inr (message msg, refl, λ bad. absurd (ground arith)) }

refused :
    (n : ℕ) (d : Decoder) (r : Reader) (msg : String) → r.error ≡ none → Moves n (refuse d r msg)
refused n d r msg e = record {
  reaches = inr (
    report "OCF read block" msg,
    reported r "OCF read block" msg e,
    λ bad. absurd (ground arith),
  );
}

pub steady_clean : (r : Reader) → IsSteady r → has_error r ≡ false
steady_clean r st = rw st.no_error refl

pub Stops-set : (r : Reader) → Stops r → has_error r ≡ true
Stops-set r (e, failed, real) = rw failed refl

module _ (n : ℕ) where
  open-Moves :
      (count : ℤ) (result : Error ⊎ List ℕ) (d : Decoder)
      → Ends n d.reader
      → Moves n (open_block count result d)
  unfolding open_block
  open-Moves count (inl e) d less = record {
    reaches = inr (wrap "decoder: decompress block" e, refl, λ bad. absurd (ground arith));
  }
  open-Moves count (inr decoded) d less =
      either n (not (ltb_ℤ (pos 0) count) && not (length decoded == 0))
        (fail d d.reader (message "decoder: unread bytes in empty block"))
        (count, record d { decoder = reset_reader d.decoder decoded })
        (said n d d.reader "decoder: unread bytes in empty block") (record { reaches = inl less })

  check-Moves :
      (count : ℤ) (bytes sync : List ℕ) (d : Decoder) (r : Reader)
      → Advances n r
      → Moves n (check_sync count bytes d (sync, r))
  unfolding check_sync
  check-Moves count bytes sync d r (inl less) =
      let invalid = said n d r "decoder: invalid block" in
      either n (has_error r) _ _ invalid (
        either n (not (bytes_equal d.sync sync)) _ _ invalid
          (open-Moves count (d.codec.decode_block bytes) (record d { reader = r }) less))
  check-Moves count bytes sync d r (inr stop) =
      rw (Stops-set r stop) (said n d r "decoder: invalid block")

  data-Moves :
      (count : ℤ) (d : Decoder) (bytes : List ℕ) (err : Option Error) (r : Reader)
      → (err ≡ none × Ends n r) ⊎ (err ≡ some unexpected_eof)
      → Moves n (after_data count d ((bytes, err), r))
  unfolding after_data
  data-Moves count d bytes err r (inl (clean, less)) =
      rw clean (check-Moves count bytes (read 16 r).0 d (read 16 r).1 (read-Advances n 16 r less))
  data-Moves count d bytes err r (inr failed) =
      rw failed (record { reaches = inr (unexpected_eof, refl, λ bad. absurd (ground arith)) })

  loads-Moves :
      (count : ℤ) (d : Decoder) (size : ℕ) (r : Reader)
      → Ends n r
      → Moves n (after_data count d (read_block_data r size))
  loads-Moves count d size r (st, less) = elim (Bool-cases (leb size (length (stream r)))) [
    | inl here ↦
        let (bytes, clean, st', left) =
          (read_block_data-Loads r size st).0 (ground (arith, here)) in
        let total = ap (λ (t : List ℕ). length t) left ∙ length-drop size (stream r) in
        data-Moves count d _ _ (read_block_data r size).1 (inl (clean, (st', omega arith)))
    | inr beyond ↦
        let (failed, _) = (read_block_data-Loads r size st).1 (ground (arith, beyond)) in
        data-Moves count d _ _ (read_block_data r size).1 (inr failed)
  ]

  size-Moves :
      (count i : ℤ) (d : Decoder) (r : Reader) → Advances n r → Moves n (after_size count d (i, r))
  unfolding after_size
  size-Moves count (pos size) d r (inl less) =
      let no : (msg : String) → Moves n (refuse d r msg) =
        λ msg. refused n d r msg less.0.no_error in
      either n (has_error r) _ _ (said n d r "decoder: invalid block") (
        either n (ltb_ℤ (pos max_int) (pos size)) _ _
          (no "block size exceeds the platform allocation limit")
          (either n (ltb_ℤ (pos 0) d.max_block_bytes && ltb_ℤ d.max_block_bytes (pos size)) _ _
            (no "block size exceeds WithMaxBlockBytes") (loads-Moves count d size r less)))
  size-Moves count (negsuc size) d r (inl less) =
      either n (has_error r) _ _ (said n d r "decoder: invalid block")
        (refused n d r "negative block size" less.0.no_error)
  size-Moves count (pos size) d r (inr stop) =
      rw (Stops-set r stop) (said n d r "decoder: invalid block")
  size-Moves count (negsuc size) d r (inr stop) =
      rw (Stops-set r stop) (said n d r "decoder: invalid block")

  long-Advances : (r : Reader) → Ends n r → Advances n (read_long r).1
  long-Advances r (st, less) = elim (read_long-Advances r st) [
    | inl (st', less') ↦ inl (st', omega arith)
    | inr stop ↦ inr stop
  ]

  pub count-Moves :
      (i : ℤ) (d : Decoder) (r : Reader) → Advances n r → Moves n (after_count d (i, r))
  unfolding after_count
  count-Moves (pos count) d r (inl less) =
      either n (has_error r) _ _ (said n d r "decoder: invalid block") (
        either n (ltb_ℤ (pos 0) d.max_block_records && ltb_ℤ d.max_block_records (pos count)) _ _
          (refused n d r "record count exceeds WithMaxBlockRecords" less.0.no_error)
          (size-Moves (pos count) (read_long r).0 d (read_long r).1 (long-Advances r less)))
  count-Moves (negsuc count) d r (inl less) =
      either n (has_error r) _ _ (said n d r "decoder: invalid block")
        (refused n d r "negative record count" less.0.no_error)
  count-Moves (pos count) d r (inr stop) =
      rw (Stops-set r stop) (said n d r "decoder: invalid block")
  count-Moves (negsuc count) d r (inr stop) =
      rw (Stops-set r stop) (said n d r "decoder: invalid block")
