-- ===== src/Reader/Chunks.antt =====
-- ReadInt and ReadLong over any pieces of the input agree with the byte loop over the whole of it.
use avro.Prelude.{
  ℕ, zero, suc, ◌+◌, ◌-◌, ◌≤◌, ◌<◌, ◌≡◌, refl, sym, ap, ◌∙◌, arith, true, false, none, inl, inr,
  ◌++◌, length, take, drop, take-append-drop, length-take, append_assoc, Bool-cases, leb, min,
  leb→le,
}
use avro.Reader.State.{Reader}
use avro.Reader.Varint.{
  Width, Scan, found, overflow, ran_out, scan, slice, advance, read_slow, read_fast, read_varint,
}
use avro.Reader.Scan.{IsWidth, resume, scan-append, scan-ran_out, scan-found}
use avro.Reader.Stream.{stream, future, IsSteady, load_more-cases, advance-IsSteady, stream-advance}
use avro.Reader.Slices.{All-take, scan-slice, length-slice, ran_out-empties}
use avro.Reader.Rounds.{Decodes, reported, slow_found, slow_overflow, at_end, at_next}

module _ (w : Width) (ok : IsWidth w) where
  round-Decodes :
      (fuel c v s : ℕ) (r : Reader)
      → IsSteady r
      → c < w.max_buf_size
      → w.max_buf_size < c + suc fuel + min 1 (length r.unread)
      → ((c' v' s' : ℕ) (r' : Reader)
          → IsSteady r'
          → c' < w.max_buf_size
          → w.max_buf_size < c' + fuel + min 1 (length r'.unread)
          → Decodes w c' r' (read_slow fuel w c' v' s' r') (scan w c' v' s' (stream r')))
      → (result : Scan) → scan w c v s (slice w c r) ≡ result
      → Decodes w c r (read_slow (suc fuel) w c v s r) (
          resume w
            (c + length (slice w c r))
            (drop (length (slice w c r)) r.unread ++ future r.source)
            result)
  round-Decodes fuel c v s r st lt enough ih (found x end) e =
      let (lo, hi) = scan-found w (slice w c r) c v s x end e in
      let fits : end - c ≤ length r.unread = omega (arith, length-slice w c r) in
      rw (slow_found w fuel c v s r x end e)
        (refl, advance-IsSteady r (end - c) st, stream-advance r (end - c) fits)
  round-Decodes fuel c v s r st lt enough ih overflow e =
      rw (slow_overflow w fuel c v s r e) (refl, reported r w.operation "int overflow" st.no_error)
  round-Decodes fuel c v s r st lt enough ih (ran_out v' s') e =
      elim (load_more-cases (advance r (length (slice w c r))) (advance-IsSteady r _ st)) [
        | inl h ↦ at_end w ok fuel c v s v' s' r st lt e h
        | inr h ↦
            let (len, gone, short) = ran_out-empties w ok c v s v' s' r st.bytes lt e in
            at_next w ok fuel c v s v' s' r st lt e h (λ r' st' some_bytes.
              ih (c + length (slice w c r)) v' s' r' st' (omega arith) (omega arith))
      ]

  slow-Decodes :
      (fuel c v s : ℕ) (r : Reader)
      → IsSteady r
      → c < w.max_buf_size
      → w.max_buf_size < c + fuel + min 1 (length r.unread)
      → Decodes w c r (read_slow fuel w c v s r) (scan w c v s (stream r))
  slow-Decodes zero c v s r st lt enough = absurd (omega arith)
  slow-Decodes (suc fuel) c v s r st lt enough = rw (scan-slice w c v s r) (
      round-Decodes fuel c v s r st lt enough (slow-Decodes fuel) (scan w c v s (slice w c r)) refl)

  fast_step :
      (r : Reader)
      → IsSteady r
      → w.max_buf_size ≤ length r.unread
      → (result : Scan) → scan w 0 0 0 (take w.max_buf_size r.unread) ≡ result
      → Decodes w 0 r (read_fast w r) (
          resume w
            (length (take w.max_buf_size r.unread))
            (drop w.max_buf_size r.unread ++ future r.source)
            result)
  unfolding read_fast
  fast_step r st long (found x end) e =
      let (lo, hi) = scan-found w (take w.max_buf_size r.unread) 0 0 0 x end e in
      let fits : end ≤ length r.unread = omega (arith, length-take w.max_buf_size r.unread) in
      let none_before : end - 0 ≡ end = omega arith in
      rw (e, none_before) (refl, advance-IsSteady r end st, stream-advance r end fits)
  fast_step r st long overflow e = rw e (refl, reported r w.operation "int overflow" st.no_error)
  fast_step r st long (ran_out v' s') e =
      let short = scan-ran_out w ok _ 0 0 0 v' s' (All-take _ r.unread st.bytes) ok.some_bytes e in
      absurd (omega (arith, length-take w.max_buf_size r.unread))

  fast-Decodes :
      (r : Reader)
      → IsSteady r
      → w.max_buf_size ≤ length r.unread
      → Decodes w 0 r (read_fast w r) (scan w 0 0 0 (stream r))
  fast-Decodes r st long =
      let head = take w.max_buf_size r.unread in
      let rest = drop w.max_buf_size r.unread ++ future r.source in
      let whole : head ++ rest ≡ stream r =
        sym (append_assoc head (drop w.max_buf_size r.unread) (future r.source))
        ∙ ap (λ t. t ++ future r.source) (take-append-drop w.max_buf_size r.unread) in
      let from_zero : 0 + length head ≡ length head = omega arith in
      rw (← whole, scan-append w head rest 0 0 0, from_zero)
        (fast_step r st long (scan w 0 0 0 head) refl)

  goes_fast :
      (r : Reader)
      → r.error ≡ none
      → leb w.max_buf_size (length r.unread) ≡ true
      → read_varint w r ≡ read_fast w r
  unfolding read_varint
  goes_fast r e long = ground arith

  goes_slow :
      (r : Reader)
      → r.error ≡ none
      → leb w.max_buf_size (length r.unread) ≡ false
      → read_varint w r ≡ read_slow (suc w.max_buf_size) w 0 0 0 r
  unfolding read_varint
  goes_slow r e short = ground arith

  -- ReadInt and ReadLong, by the fast path or over refills, on a reader without an error whose io.Reader
  -- brings bytes until its end: the call does what one loop over all the bytes to come does. It returns
  -- the decoded number and leaves exactly what follows it; or reports an overflow, where the number has
  -- too many bytes or bits; or the end of the input, where that comes first.
  pub read_varint-Decodes :
      (r : Reader) → IsSteady r → Decodes w 0 r (read_varint w r) (scan w 0 0 0 (stream r))
  read_varint-Decodes r st = elim (Bool-cases (leb w.max_buf_size (length r.unread))) [
    | inl long ↦ rw (goes_fast r st.no_error long) (fast-Decodes r st (leb→le _ _ long))
    | inr short ↦
        rw (goes_slow r st.no_error short)
          (slow-Decodes (suc w.max_buf_size) 0 0 0 r st ok.some_bytes (omega arith))
  ]
