-- ===== src/Reader/Slices.antt =====
-- The slice `r.buf[r.head:tail]` that a round of ReadInt or ReadLong looks at.
use avro.Prelude.{
  ℕ, zero, suc, ◌+◌, ◌-◌, ◌≤◌, ◌<◌, ◌≡◌, refl, sym, ap, ◌∙◌, arith, inl, inr, List, [], ◌∷◌, ◌++◌,
  length, All, take, drop, length-take, drop-length, append_assoc, append-nil,
  take-append-drop-length, Bool-cases, ltb,
}
use avro.Reader.State.{Reader}
use avro.Reader.Varint.{Width, ran_out, scan, slice}
use avro.Reader.Scan.{IsByte, IsWidth, resume, scan-append, scan-ran_out}
use avro.Reader.Stream.{stream, future}

pub All-take : (n : ℕ) (xs : List ℕ) → All IsByte xs → All IsByte (take n xs)
All-take zero xs h = tt
All-take (suc n) [] h = tt
All-take (suc n) (x ∷ xs) h = (h.0, All-take n xs h.1)

module _ (w : Width) where
  pub slice-append-drop :
      (c : ℕ) (r : Reader) → slice w c r ++ drop (length (slice w c r)) r.unread ≡ r.unread
  slice-append-drop c r = elim (Bool-cases (ltb w.max_buf_size (length r.unread + c))) [
    | inl cut ↦ rw cut (take-append-drop-length (w.max_buf_size - c) r.unread)
    | inr whole ↦ rw (whole, drop-length r.unread) (append-nil r.unread)
  ]

  -- A slice that does not reach the largest size was not cut.
  pub slice_whole :
      (c : ℕ) (r : Reader)
      → c < w.max_buf_size
      → c + length (slice w c r) < w.max_buf_size
      → slice w c r ≡ r.unread
  slice_whole c r h short = elim (Bool-cases (ltb w.max_buf_size (length r.unread + c))) [
    | inl cut ↦
        let short' : c + length (take (w.max_buf_size - c) r.unread) < w.max_buf_size =
          rw cut at short in
        absurd (ground (arith, length-take (w.max_buf_size - c) r.unread))
    | inr whole ↦ rw whole refl
  ]

  -- The scan of all that is to come, by the scan of the slice.
  pub scan-slice :
      (c v s : ℕ) (r : Reader)
      → scan w c v s (stream r)
        ≡ resume w
            (c + length (slice w c r))
            (drop (length (slice w c r)) r.unread ++ future r.source)
            (scan w c v s (slice w c r))
  scan-slice c v s r =
      let sl = slice w c r in
      let rest = drop (length sl) r.unread ++ future r.source in
      let whole : sl ++ rest ≡ stream r =
        sym (append_assoc sl (drop (length sl) r.unread) (future r.source))
        ∙ ap (λ t. t ++ future r.source) (slice-append-drop c r) in
      rw (← whole) (scan-append w sl rest c v s)

  pub slice-bytes : (c : ℕ) (r : Reader) → All IsByte r.unread → All IsByte (slice w c r)
  slice-bytes c r h = elim (Bool-cases (ltb w.max_buf_size (length r.unread + c))) [
    | inl cut ↦ rw cut (All-take (w.max_buf_size - c) r.unread h)
    | inr whole ↦ rw whole h
  ]

  pub length-slice : (c : ℕ) (r : Reader) → length (slice w c r) ≤ length r.unread
  length-slice c r = elim (Bool-cases (ltb w.max_buf_size (length r.unread + c))) [
    | inl cut ↦ rw cut (omega (arith, length-take (w.max_buf_size - c) r.unread))
    | inr whole ↦ rw whole (omega arith)
  ]

  -- A slice that ran out was all of the buffer.
  pub ran_out-empties :
      IsWidth w
      → (c v s v' s' : ℕ) (r : Reader) → All IsByte r.unread
      → c < w.max_buf_size
      → scan w c v s (slice w c r) ≡ ran_out v' s'
      → (length (slice w c r) ≡ length r.unread)
        × (drop (length (slice w c r)) r.unread ≡ [])
        × (c + length r.unread < w.max_buf_size)
  ran_out-empties ok c v s v' s' r bytes lt e =
      let short = scan-ran_out w ok (slice w c r) c v s v' s' (slice-bytes c r bytes) lt e in
      let whole = slice_whole c r lt short in
      rw whole (refl, drop-length r.unread, rw whole at short)
