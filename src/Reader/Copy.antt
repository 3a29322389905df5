-- ===== src/Reader/Copy.antt =====
-- Read and SkipNBytes over any pieces of the input.
use avro.Prelude.{
  ℕ, zero, suc, ◌+◌, ◌-◌, ◌≤◌, ◌<◌, ◌≡◌, refl, sym, ap, ◌∙◌, subst, arith, Bool, true, false, some,
  ◌⊎◌, inl, inr, List, [], ◌∷◌, ◌++◌, length, take, drop, length-take, length-drop, length-append,
  take-add, drop-add, take-length-take, take-append-drop, take-append_le,
}
use avro.Errors.{eof, unexpected_eof}
use avro.Reader.State.{Reader, load_if_empty, load_unless, report_unexpected_eof}
use avro.Reader.Varint.{advance}
use avro.Reader.Values.{read_loop, read}
use avro.Reader.Stream.{stream, future, IsSteady, load_more-cases, advance-IsSteady, stream-advance}

-- After `load_if_empty` the buffer holds a byte, and nothing is lost; or the input is at its end.
abbrev pub Ready : Reader → Bool × Reader → Type 0
Ready r (more, r') = (more ≡ true) × IsSteady r' × (stream r' ≡ stream r) × (0 < length r'.unread)

abbrev pub Empty : Reader → Bool × Reader → Type 0
Empty r (more, r') = (more ≡ false) × (r'.error ≡ some eof) × (stream r ≡ [])

by_buffer : (r : Reader) (bs : List ℕ) → r.unread ≡ bs → load_if_empty r ≡ load_unless bs r
unfolding load_if_empty
by_buffer r bs e = ap (λ t. load_unless t r) e

Ready-cases :
    (r : Reader) (bs : List ℕ)
    → r.unread ≡ bs
    → IsSteady r
    → Empty r (load_if_empty r) ⊎ Ready r (load_if_empty r)
Ready-cases r [] e st = elim (load_more-cases r st) [
  | inl (stop, at_eof, gone) ↦
      inl (rw (by_buffer r [] e) (stop, at_eof, ap (λ t. t ++ future r.source) e ∙ gone))
  | inr (more, st', same, some_bytes) ↦
      inr (
        rw (by_buffer r [] e)
          (more, st', same ∙ sym (ap (λ t. t ++ future r.source) e), some_bytes))
]
Ready-cases r (b ∷ bs) e st =
    inr (
      rw (by_buffer r (b ∷ bs) e) (refl, st, refl, subst (λ t. 0 < length t) (sym e) (omega arith)))

pub load_if_empty-cases :
    (r : Reader) → IsSteady r → Empty r (load_if_empty r) ⊎ Ready r (load_if_empty r)
load_if_empty-cases r st = Ready-cases r r.unread refl st

module _ (fuel left : ℕ) (r : Reader) where
  loop_end :
      (load_if_empty r).0 ≡ false
      → read_loop (suc fuel) (suc left) r ≡ ([], report_unexpected_eof (load_if_empty r).1)
  unfolding read_loop
  loop_end e = rw (e, read_loop)

  loop_more :
      (load_if_empty r).0 ≡ true
      → read_loop (suc fuel) (suc left) r ≡ (
          let r' = (load_if_empty r).1 in
          let chunk = take (suc left) r'.unread in
          let rest = read_loop fuel (suc left - length chunk) (advance r' (length chunk)) in
          (chunk ++ rest.0, rest.1))
  unfolding read_loop
  loop_more e = rw (e, read_loop)

-- What `Read` of `left` bytes must return: the next bytes of the input, or an error at its end.
abbrev pub Copies : ℕ → Reader → List ℕ × Reader → Type 0
Copies left r (bytes, r') =
    (left ≤ length (stream r)
      → (bytes ≡ take left (stream r)) × IsSteady r' × (stream r' ≡ drop left (stream r)))
    × (length (stream r) < left → (bytes ≡ stream r) × (r'.error ≡ some unexpected_eof))

pub eof_reported :
    (r : Reader) → r.error ≡ some eof → (report_unexpected_eof r).error ≡ some unexpected_eof
unfolding report_unexpected_eof
eof_reported r h = rw h

-- A piece of `left` bytes from the buffer, and the rest from what follows.
copy_step :
    (left : ℕ) (r r' : Reader) (rest : List ℕ × Reader)
    → stream r' ≡ stream r
    → Copies (left - length (take left r'.unread)) (advance r' (length (take left r'.unread))) rest
    → Copies left r (take left r'.unread ++ rest.0, rest.1)
copy_step left r r' rest same (enough, short) =
    let n : ℕ = length (take left r'.unread) in
    let fits : n ≤ length r'.unread = omega (arith, length-take left r'.unread) in
    let within : n ≤ left = omega (arith, length-take left r'.unread) in
    let after : stream (advance r' n) ≡ drop n (stream r) =
      stream-advance r' n fits ∙ ap (λ t. drop n t) same in
    let front : take left r'.unread ≡ take n (stream r) =
      sym (take-length-take left r'.unread)
      ∙ sym (take-append_le n r'.unread (future r'.source) fits)
      ∙ ap (λ t. take n t) same in
    let count : n + (left - n) ≡ left = omega arith in
    let size : length (stream (advance r' n)) ≡ length (stream r) - n =
      ap (λ (t : List ℕ). length t) after ∙ length-drop n (stream r) in
    let total : length (stream r) ≡ length r'.unread + length (future r'.source) =
      ap (λ (t : List ℕ). length t) (sym same) ∙ length-append r'.unread (future r'.source) in
    (
      λ h.
          let (bytes, st, left_over) = enough (omega arith) in
          (
            rw (front, bytes, after)
                (sym (take-add n (left - n) (stream r)) ∙ ap (λ t. take t (stream r)) count),
            st,
            left_over
                ∙ rw after
                    (sym (drop-add n (left - n) (stream r)) ∙ ap (λ t. drop t (stream r)) count),
          ),
      λ h.
          let (bytes, failed) = short (omega arith) in
          (rw (front, bytes, after) (take-append-drop n (stream r)), failed),
    )

pub read_loop-Copies :
    (fuel left : ℕ) (r : Reader) → left ≤ fuel → IsSteady r → Copies left r (read_loop fuel left r)
read_loop-Copies fuel zero r h st =
    unfold read_loop in (λ _. (refl, st, refl), λ bad. absurd (omega arith))
read_loop-Copies zero (suc left) r h st = absurd (omega arith)
read_loop-Copies (suc fuel) (suc left) r h st = elim (load_if_empty-cases r st) [
  | inl (stop, at_eof, gone) ↦
      rw (loop_end fuel left r stop, gone)
        (λ bad. absurd (omega arith), λ _. (refl, eof_reported _ at_eof))
  | inr (more, st', same, some_bytes) ↦
      let r' : Reader = (load_if_empty r).1 in
      let n : ℕ = length (take (suc left) r'.unread) in
      let taken : 0 < n = omega (arith, length-take (suc left) r'.unread) in
      rw (loop_more fuel left r more) (
        copy_step (suc left) r r' _ same (
          read_loop-Copies fuel (suc left - n) (advance r' n) (omega arith)
            (advance-IsSteady r' n st')))
]

-- `Read` fills its bytes with the next of the input, in whatever pieces that comes, and leaves what
-- follows; where the input is too short it copies what there is and reports an unexpected end.
pub read-Copies : (size : ℕ) (r : Reader) → IsSteady r → Copies size r (read size r)
unfolding read
read-Copies size r st = read_loop-Copies size size r (omega arith) st
