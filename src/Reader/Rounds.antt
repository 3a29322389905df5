-- ===== src/Reader/Rounds.antt =====
-- One round of the slow loop of ReadInt and ReadLong: what it returns, or at which state it goes on.
use avro.Prelude.{
  ℕ, suc, ◌+◌, ◌-◌, ◌≤◌, ◌<◌, ◌≡◌, refl, sym, ap, ◌∙◌, arith, true, false, none, some, String, List,
  ◌++◌, length, drop, drop-append_add, leb,
}
use avro.Prelude.Int.{ℤ, pos}
use avro.Words.{unzigzag}
use avro.Errors.{eof, report, wrap}
use avro.Reader.State.{Reader, load_more, report_error}
use avro.Reader.Varint.{
  Width, Scan, found, overflow, ran_out, scan, slice, advance, read_slow, wrap_error,
}
use avro.Reader.Scan.{IsWidth, scan-found}
use avro.Reader.Stream.{stream, future, IsSteady, AtEnd, Refilled}
use avro.Reader.Slices.{ran_out-empties}

-- What a call must return, by the scan of the bytes that are to come from position `consumed` on.
abbrev pub Decodes : Width → ℕ → Reader → ℤ × Reader → Scan → Type 0
Decodes w consumed r (i, r') (found value end) =
    (i ≡ unzigzag w.bits value) × IsSteady r' × (stream r' ≡ drop (end - consumed) (stream r))
Decodes w consumed r (i, r') overflow =
    (i ≡ pos 0) × (r'.error ≡ some (report w.operation "int overflow"))
Decodes w consumed r (i, r') (ran_out value shift) =
    (i ≡ pos 0) × (r'.error ≡ some (wrap w.reading eof))

below : {c m : ℕ} → c < m → leb m c ≡ false
below h = ground arith

pub reported :
    (r : Reader) (op msg : String)
    → r.error ≡ none
    → (report_error r op msg).error ≡ some (report op msg)
unfolding report_error
reported r op msg h = rw h

module _ (w : Width) where
  module _ (fuel c v s : ℕ) (r : Reader) where
    pub slow_found :
        (x end : ℕ)
        → scan w c v s (slice w c r) ≡ found x end
        → read_slow (suc fuel) w c v s r ≡ (unzigzag w.bits x, advance r (end - c))
    unfolding read_slow
    slow_found x end e = rw (e, read_slow)

    pub slow_overflow :
        scan w c v s (slice w c r) ≡ overflow
        → read_slow (suc fuel) w c v s r ≡ (pos 0, report_error r w.operation "int overflow")
    unfolding read_slow
    slow_overflow e = rw (e, read_slow)

    pub slow_more :
        (v' s' : ℕ) (r' : Reader)
        → scan w c v s (slice w c r) ≡ ran_out v' s'
        → c < w.max_buf_size
        → load_more (advance r (length (slice w c r))) ≡ (true, r')
        → read_slow (suc fuel) w c v s r ≡ read_slow fuel w (c + length (slice w c r)) v' s' r'
    unfolding read_slow
    slow_more v' s' r' e lt more = ground (arith, below lt)

    pub slow_end :
        (v' s' : ℕ) (r' : Reader)
        → scan w c v s (slice w c r) ≡ ran_out v' s'
        → c < w.max_buf_size
        → load_more (advance r (length (slice w c r))) ≡ (false, r')
        → read_slow (suc fuel) w c v s r
          ≡ (pos 0, record r' { error = some (wrap_error w.reading r'.error) })
    unfolding read_slow
    slow_end v' s' r' e lt more = ground (arith, below lt)

  -- A result for what follows `front` is a result for the whole.
  pub Decodes-shift :
      (c n : ℕ) (r r' : Reader) (front : List ℕ) (out : ℤ × Reader) (result : Scan)
      → length front ≡ n
      → stream r ≡ front ++ stream r'
      → ((x end : ℕ) → result ≡ found x end → c + n ≤ end)
      → Decodes w (c + n) r' out result
      → Decodes w c r out result
  Decodes-shift c n r r' front (i, out) (found x end) len split late (value, st, left) =
      let far = late x end refl in
      let count : end - c ≡ length front + (end - (c + n)) = omega arith in
      (
        value,
        st,
        left ∙ rw (split, count) (sym (drop-append_add (end - (c + n)) front (stream r'))),
      )
  Decodes-shift c n r r' front (i, out) overflow len split late d = d
  Decodes-shift c n r r' front (i, out) (ran_out x y) len split late d = d

  module _ (ok : IsWidth w) (fuel c v s v' s' : ℕ) (r : Reader) (st : IsSteady r)
      (lt : c < w.max_buf_size) (e : scan w c v s (slice w c r) ≡ ran_out v' s') where
    pub at_end :
        AtEnd (advance r (length (slice w c r))) (load_more (advance r (length (slice w c r))))
        → Decodes w c r (read_slow (suc fuel) w c v s r) (
            scan w
              (c + length (slice w c r))
              v'
              s'
              (drop (length (slice w c r)) r.unread ++ future r.source))
    unfolding scan
    at_end (stop, eof_set, none_left) =
        let (len, gone, short) = ran_out-empties w ok c v s v' s' r st.bytes lt e in
        rw
          (
            gone,
            none_left,
            slow_end fuel c v s r v' s' _ e lt
                (ap (λ b. (b, (load_more (advance r (length (slice w c r)))).1)) stop),
            eof_set,
          )
          (refl, refl)

    pub at_next :
        Refilled (advance r (length (slice w c r))) (load_more (advance r (length (slice w c r))))
        → ((r' : Reader)
            → IsSteady r'
            → 0 < length r'.unread
            → Decodes w
                (c + length (slice w c r))
                r'
                (read_slow fuel w (c + length (slice w c r)) v' s' r')
                (scan w (c + length (slice w c r)) v' s' (stream r')))
        → Decodes w c r (read_slow (suc fuel) w c v s r) (
            scan w
              (c + length (slice w c r))
              v'
              s'
              (drop (length (slice w c r)) r.unread ++ future r.source))
    at_next (more, st', same, some_bytes) ih =
        let (len, gone, short) = ran_out-empties w ok c v s v' s' r st.bytes lt e in
        let r' : Reader = (load_more (advance r (length (slice w c r)))).1 in
        let n : ℕ = length (slice w c r) in
        let step = slow_more fuel c v s r v' s' r' e lt (ap (λ b. (b, r')) more) in
        let result : Scan = scan w (c + n) v' s' (stream r') in
        let late : (x end : ℕ) → result ≡ found x end → c + n ≤ end =
          λ x end q. omega (arith, (scan-found w (stream r') (c + n) v' s' x end q).0) in
        rw (gone, ← same, step)
          (Decodes-shift c n r r' r.unread _ result (sym len) (ap (λ t. r.unread ++ t) (sym same))
            late (ih r' st' some_bytes))
