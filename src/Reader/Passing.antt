-- ===== src/Reader/Passing.antt =====
-- SkipNBytes of reader_skip.go over any pieces of the input, and the Skip operations above it.
use avro.Prelude.{
  ℕ, zero, suc, ◌+◌, ◌-◌, ◌≤◌, ◌<◌, ◌≡◌, refl, sym, ap, ◌∙◌, arith, true, false, some, inl, inr,
  List, [], ◌++◌, length, drop, length-append, drop-add, drop-append_le, drop-length, Bool-cases,
  ltb,
}
use avro.Prelude.Int.{pos}
use avro.Errors.{unexpected_eof}
use avro.Reader.State.{Reader, load_if_empty, report_unexpected_eof}
use avro.Reader.Varint.{advance}
use avro.Reader.Skip.{skip_loop, skip_n_bytes}
use avro.Reader.Stream.{stream, future, IsSteady, advance-IsSteady, stream-advance}
use avro.Reader.Copy.{load_if_empty-cases, eof_reported}

-- What skipping `left` bytes must do: pass over the next bytes of the input, or report its end.
abbrev pub Passes : ℕ → Reader → Reader → Type 0
Passes left r r' =
    (left ≤ length (stream r) → IsSteady r' × (stream r' ≡ drop left (stream r)))
    × (length (stream r) < left → r'.error ≡ some unexpected_eof)

abbrev emptied : Reader → Reader
emptied r = record r { unread = [] }

emptied-IsSteady : (r : Reader) → IsSteady r → IsSteady (emptied r)
emptied-IsSteady r st = record {
  no_error = st.no_error;
  no_pending = st.no_pending;
  bytes = tt;
  answers = st.answers;
}

stream-emptied : (r : Reader) → stream (emptied r) ≡ drop (length r.unread) (stream r)
stream-emptied r =
    ap (λ t. t ++ future r.source) (sym (drop-length r.unread))
    ∙ sym (drop-append_le (length r.unread) r.unread (future r.source) (omega arith))

module _ (fuel left : ℕ) (r : Reader) where
  skip_end :
      (load_if_empty r).0 ≡ false
      → skip_loop (suc fuel) (suc left) r ≡ report_unexpected_eof (load_if_empty r).1
  unfolding skip_loop
  skip_end e = rw (e, skip_loop)

  skip_all :
      (load_if_empty r).0 ≡ true
      → ltb (length (load_if_empty r).1.unread) (suc left) ≡ true
      → skip_loop (suc fuel) (suc left) r
        ≡ skip_loop fuel
            (suc left - length (load_if_empty r).1.unread)
            (emptied (load_if_empty r).1)
  unfolding skip_loop
  skip_all e short = rw (e, skip_loop, short)

  skip_some :
      (load_if_empty r).0 ≡ true
      → ltb (length (load_if_empty r).1.unread) (suc left) ≡ false
      → skip_loop (suc fuel) (suc left) r ≡ advance (load_if_empty r).1 (suc left)
  unfolding skip_loop
  skip_some e long = rw (e, skip_loop, long)

-- Passing over the whole buffer and then the rest.
pass_on :
    (left : ℕ) (r r' r'' : Reader)
    → stream r' ≡ stream r
    → length r'.unread ≤ left
    → Passes (left - length r'.unread) (emptied r') r''
    → Passes left r r''
pass_on left r r' r'' same within (enough, short) =
    let n : ℕ = length r'.unread in
    let after : stream (emptied r') ≡ drop n (stream r) =
      stream-emptied r' ∙ ap (λ t. drop n t) same in
    let total : length (stream r) ≡ n + length (future r'.source) =
      ap (λ (t : List ℕ). length t) (sym same) ∙ length-append r'.unread (future r'.source) in
    let count : n + (left - n) ≡ left = omega arith in
    (
      λ h.
          let (st, e) = enough (omega arith) in
          (
            st,
            e
                ∙ ap (λ t. drop (left - n) t) after
                ∙ sym (drop-add n (left - n) (stream r))
                ∙ ap (λ t. drop t (stream r)) count,
          ),
      λ h. short (omega arith),
    )

skip_loop-Passes :
    (fuel left : ℕ) (r : Reader) → left ≤ fuel → IsSteady r → Passes left r (skip_loop fuel left r)
skip_loop-Passes fuel zero r h st =
    unfold skip_loop in (λ _. (st, refl), λ bad. absurd (omega arith))
skip_loop-Passes zero (suc left) r h st = absurd (omega arith)
skip_loop-Passes (suc fuel) (suc left) r h st = elim (load_if_empty-cases r st) [
  | inl (stop, at_eof, gone) ↦
      rw (skip_end fuel left r stop, gone) (λ bad. absurd (omega arith), λ _. eof_reported _ at_eof)
  | inr (more, st', same, some_bytes) ↦
      let r' : Reader = (load_if_empty r).1 in
      elim (Bool-cases (ltb (length r'.unread) (suc left))) [
        | inl short ↦
            let within : length r'.unread ≤ suc left = ground arith in
            rw (skip_all fuel left r more short) (
              pass_on (suc left) r r' _ same within (
                skip_loop-Passes fuel (suc left - length r'.unread) (emptied r') (omega arith)
                  (emptied-IsSteady r' st')))
        | inr long ↦
            let fits : suc left ≤ length r'.unread = ground arith in
            let total : length (stream r) ≡ length r'.unread + length (future r'.source) =
              ap (λ (t : List ℕ). length t) (sym same)
              ∙ length-append r'.unread (future r'.source) in
            rw (skip_some fuel left r more long) (
              λ _. (
                advance-IsSteady r' (suc left) st',
                stream-advance r' (suc left) fits ∙ ap (λ t. drop (suc left) t) same,
              ),
              λ bad. absurd (omega arith),
            )
      ]
]

-- SkipNBytes passes over its number of bytes, in whatever pieces they come, and leaves what follows;
-- where the input is too short it reports an unexpected end.
pub skip_n_bytes-Passes : (n : ℕ) (r : Reader) → IsSteady r → Passes n r (skip_n_bytes (pos n) r)
unfolding skip_n_bytes
skip_n_bytes-Passes n r st = skip_loop-Passes n n r (omega arith) st
