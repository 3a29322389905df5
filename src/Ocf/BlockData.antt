-- ===== src/Ocf/BlockData.antt =====
-- ocf/ocf.go: readBlockData, in one piece or in chunks.
use avro.Prelude.{
  ℕ, zero, suc, ◌+◌, ◌-◌, ◌≤◌, ◌<◌, ◌≡◌, refl, sym, ap, ◌∙◌, arith, inl, inr, Option, none, some,
  List, [], ◌++◌, append_assoc, append-nil, length, length-drop, take, drop, take-add, drop-add,
  min, leb, Bool-cases, true, false,
}
use avro.Prelude.Int.{pos, ltb_ℤ}
use avro.Errors.{Error, unexpected_eof}
use avro.Reader.State.{Reader}
use avro.Reader.Values.{read}
use avro.Reader.Stream.{stream, IsSteady}
use avro.Reader.Copy.{read-Copies}
use avro.Ocf.Decoder.{read_chunks, read_block_data, block_read_chunk_size}

-- The next `size` bytes of the input, behind those of `before`; or an unexpected end.
abbrev pub Loads : List ℕ → ℕ → Reader → (List ℕ × Option Error) × Reader → Type 0
Loads before size r ((bytes, err), r') =
    (size ≤ length (stream r)
      → (bytes ≡ before ++ take size (stream r))
        × (err ≡ none)
        × IsSteady r'
        × (stream r' ≡ drop size (stream r)))
    × (length (stream r) < size → (err ≡ some unexpected_eof) × (r'.error ≡ some unexpected_eof))

abbrev chunk_size : ℕ → ℕ
chunk_size remaining = min (suc remaining) block_read_chunk_size

module _ (fuel remaining : ℕ) (before : List ℕ) (r : Reader) where
  chunk_read :
      (read (chunk_size remaining) r).1.error ≡ none
      → read_chunks (suc fuel) (suc remaining) before r
        ≡ read_chunks fuel
            (suc remaining - chunk_size remaining)
            (before ++ (read (chunk_size remaining) r).0)
            (read (chunk_size remaining) r).1
  unfolding read_chunks
  chunk_read e = rw (e, read_chunks) refl

  chunk_failed :
      (e : Error)
      → (read (chunk_size remaining) r).1.error ≡ some e
      → read_chunks (suc fuel) (suc remaining) before r
        ≡ (([], some e), (read (chunk_size remaining) r).1)
  unfolding read_chunks
  chunk_failed e h = rw (h, read_chunks) refl

chunk_size-bounds : (k : ℕ) → (0 < chunk_size k) × (chunk_size k ≤ suc k)
chunk_size-bounds k = ground arith

-- A chunk of `n` bytes, and then what remains of `size`.
go_on :
    (n size : ℕ) (before bytes : List ℕ) (r r' : Reader) (result : (List ℕ × Option Error) × Reader)
    → n ≤ size
    → n ≤ length (stream r)
    → bytes ≡ take n (stream r)
    → stream r' ≡ drop n (stream r)
    → Loads (before ++ bytes) (size - n) r' result
    → Loads before size r result
go_on n size before bytes r r' result within here e e' (enough, short) =
    let count : n + (size - n) ≡ size = omega arith in
    let left : length (stream r') ≡ length (stream r) - n =
      ap (λ (t : List ℕ). length t) e' ∙ length-drop n (stream r) in
    (
      λ h.
          let (b, err, st, s) = enough (omega arith) in
          (
            b
                ∙ append_assoc before bytes (take (size - n) (stream r'))
                ∙ rw (e, e')
                    (ap (λ t. before ++ t)
                      (sym (take-add n (size - n) (stream r)) ∙ ap (λ t. take t (stream r)) count)),
            err,
            st,
            s ∙ rw e' (sym (drop-add n (size - n) (stream r)) ∙ ap (λ t. drop t (stream r)) count),
          ),
      λ h. short (omega arith),
    )

read_chunks-Loads :
    (fuel remaining : ℕ) (before : List ℕ) (r : Reader)
    → remaining ≤ fuel
    → IsSteady r
    → Loads before remaining r (read_chunks fuel remaining before r)
read_chunks-Loads fuel zero before r h st =
    unfold read_chunks in
    (λ _. (sym (append-nil before), refl, st, refl), λ bad. absurd (omega arith))
read_chunks-Loads zero (suc remaining) before r h st = absurd (omega arith)
read_chunks-Loads (suc fuel) (suc remaining) before r h st =
    let n : ℕ = chunk_size remaining in
    let (some_bytes, within) = chunk_size-bounds remaining in
    let (enough, short) = read-Copies n r st in
    elim (Bool-cases (leb n (length (stream r)))) [
      | inl here ↦
          let here' : n ≤ length (stream r) = ground (arith, here) in
          let (bytes, st', s) = enough here' in
          rw (chunk_read fuel remaining before r st'.no_error) (
            go_on n (suc remaining) before (read n r).0 r (read n r).1 _ within here' bytes s (
              read_chunks-Loads fuel (suc remaining - n) (before ++ (read n r).0) (read n r).1
                (omega arith) st'))
      | inr beyond ↦
          let beyond' : length (stream r) < n = ground (arith, beyond) in
          let (bytes, failed) = short beyond' in
          rw (chunk_failed fuel remaining before r unexpected_eof failed)
            (λ h. absurd (omega arith), λ _. (refl, failed))
    ]

by_read :
    (size : ℕ) (r : Reader)
    → IsSteady r
    → Loads [] size r (((read size r).0, (read size r).1.error), (read size r).1)
by_read size r st =
    let (enough, short) = read-Copies size r st in
    (
      λ h. let (bytes, st', s) = enough h in (bytes, st'.no_error, st', s),
      λ h. let (bytes, failed) = short h in (failed, failed),
    )

module _ (r : Reader) (size : ℕ) where
  data_small :
      ltb_ℤ (pos block_read_chunk_size) (pos (suc size)) ≡ false
      → read_block_data r (suc size)
        ≡ (((read (suc size) r).0, (read (suc size) r).1.error), (read (suc size) r).1)
  unfolding read_block_data
  data_small h = ground (arith, h)

  data_large :
      ltb_ℤ (pos block_read_chunk_size) (pos (suc size)) ≡ true
      → read_block_data r (suc size) ≡ read_chunks (suc size) (suc size) [] r
  unfolding read_block_data
  data_large h = ground (arith, h)

-- Whether it reads a block in one piece or in chunks of 64 KiB, readBlockData returns the next `size`
-- bytes of the input, whatever the pieces in which it comes, and leaves what follows; where the input is
-- too short it returns an unexpected end.
pub read_block_data-Loads :
    (r : Reader) (size : ℕ) → IsSteady r → Loads [] size r (read_block_data r size)
read_block_data-Loads r zero st =
    unfold read_block_data in (λ _. (refl, refl, st, refl), λ bad. absurd (omega arith))
read_block_data-Loads r (suc size) st =
    elim (Bool-cases (ltb_ℤ (pos block_read_chunk_size) (pos (suc size)))) [
      | inr small ↦ rw (data_small r size small) (by_read (suc size) r st)
      | inl large ↦
          rw (data_large r size large)
            (read_chunks-Loads (suc size) (suc size) [] r (omega arith) st)
    ]
