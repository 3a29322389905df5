-- ===== src/Ocf/Settles.antt =====
-- ocf/ocf.go: the end of the loop of HasNext.
use avro.Prelude.{
  ℕ, zero, suc, ◌<◌, ◌≡◌, ◌⊎◌, refl, sym, ap, ◌∙◌, subst, arith, inl, inr, none, some, Bool, true,
  false, length, if◌then◌else◌, Bool-cases,
}
use avro.Prelude.Int.{ℤ, pos, ltb_ℤ}
use avro.Errors.{eof}
use avro.Reader.State.{Reader, peek, has_error}
use avro.Reader.Varint.{read_long}
use avro.Reader.Stream.{stream, IsSteady}
use avro.Reader.Copy.{load_if_empty-cases}
use avro.Ocf.Decoder.{
  Decoder, read_block, after_count, next_block, needs_block, block_loop, has_next,
}
use avro.Ocf.Progress.{steady_clean, Stops, Advances, read_long-Advances, Stops-set, count-Moves}

pub block_end :
    (d : Decoder)
    → (peek d.reader).1.error ≡ some eof
    → read_block d ≡ (pos 0, record d { reader = (peek d.reader).1 })
unfolding read_block
block_end d e = rw (e, read_block) refl

block_start :
    (d : Decoder)
    → (peek d.reader).1.error ≡ none
    → read_block d ≡ after_count d (read_long (peek d.reader).1)
unfolding read_block
block_start d e = rw (e, read_block) refl

Peeked-cases :
    (r : Reader)
    → IsSteady r
    → ((peek r).1.error ≡ some eof) ⊎ (IsSteady (peek r).1 × (stream (peek r).1 ≡ stream r))
unfolding peek
Peeked-cases r st = elim (load_if_empty-cases r st) [
  | inl (stop, at_end, gone) ↦ inl at_end
  | inr (more, st', same, some_bytes) ↦ inr (st', same)
]

-- readBlock over a reader without an error takes a byte of the file at least, or leaves an error.
pub read_block-Advances :
    (d : Decoder) → IsSteady d.reader → Advances (length (stream d.reader)) (read_block d).1.reader
read_block-Advances d st = elim (Peeked-cases d.reader st) [
  | inl at_end ↦ inr (
    eof,
    ap (λ (p : ℤ × Decoder). p.1.reader.error) (block_end d at_end) ∙ at_end,
    λ bad. absurd (ground arith),
  )
  | inr (st', same) ↦
      let r : Reader = (peek d.reader).1 in
      let moved : Advances (length (stream d.reader)) (read_long r).1 =
        subst (λ t. Advances (length t) (read_long r).1) same (read_long-Advances r st') in
      rw (block_start d st'.no_error)
        ((count-Moves (length (stream d.reader)) (read_long r).0 d (read_long r).1 moved).reaches)
]

next_block-reader : (d : Decoder) → (next_block d).reader ≡ (read_block d).1.reader
unfolding next_block
next_block-reader d = refl

next_block-Advances :
    (d : Decoder) → IsSteady d.reader → Advances (length (stream d.reader)) (next_block d).reader
next_block-Advances d st =
    subst (λ t. Advances (length (stream d.reader)) t) (sym (next_block-reader d))
      (read_block-Advances d st)

-- A record waits, or an error of the program has been kept.
abbrev pub Settled : Decoder → Type 0
Settled d = (IsSteady d.reader × (ltb_ℤ (pos 0) d.count ≡ true)) ⊎ Stops d.reader

pub needs_no_block : (d : Decoder) → has_error d.reader ≡ true → needs_block d ≡ false
unfolding needs_block
needs_no_block d h = ground (arith, h)

pub loop_rests : (fuel : ℕ) (d : Decoder) → needs_block d ≡ false → block_loop fuel d ≡ d
unfolding block_loop
loop_rests zero d h = rw h refl
loop_rests (suc fuel) d h = rw h refl

pub loop_goes :
    (fuel : ℕ) (d : Decoder)
    → needs_block d ≡ true
    → block_loop (suc fuel) d ≡ block_loop fuel (next_block d)
unfolding block_loop
loop_goes fuel d h = rw (h, block_loop) refl

waits : (d : Decoder) → IsSteady d.reader → needs_block d ≡ false → ltb_ℤ (pos 0) d.count ≡ true
unfolding needs_block
waits d st h = ground (arith, st.no_error, h)

pub loop_stopped : (fuel : ℕ) (d : Decoder) → Stops d.reader → block_loop fuel d ≡ d
loop_stopped fuel d stop = loop_rests fuel d (needs_no_block d (Stops-set d.reader stop))

block_loop-Settled :
    (fuel : ℕ) (d : Decoder)
    → IsSteady d.reader
    → length (stream d.reader) < fuel
    → Settled (block_loop fuel d)
block_loop-Settled zero d st h = absurd (omega arith)
block_loop-Settled (suc fuel) d st h = elim (Bool-cases (needs_block d)) [
  | inr rests ↦ rw (loop_rests (suc fuel) d rests) (inl (st, waits d st rests))
  | inl goes ↦ rw (loop_goes fuel d goes) (elim (next_block-Advances d st) [
    | inl (st', less) ↦ block_loop-Settled fuel (next_block d) st' (omega arith)
    | inr stop ↦ rw (loop_stopped fuel (next_block d) stop) (inr stop)
  ])
]

-- What HasNext must answer, and where it must leave the decoder.
abbrev pub Answers : Bool × Decoder → Type 0
Answers (more, d) =
    ((more ≡ true) × IsSteady d.reader × (ltb_ℤ (pos 0) d.count ≡ true))
    ⊎ ((more ≡ false) × Stops d.reader)

Answers-of :
    (d d' : Decoder)
    → has_next d ≡ (if has_error d'.reader then false else ltb_ℤ (pos 0) d'.count, d')
    → Settled d'
    → Answers (has_next d)
Answers-of d d' e (inl (st, more)) =
    let there = ap (λ t. if t then false else ltb_ℤ (pos 0) d'.count) (steady_clean d'.reader st) in
    rw e (inl (there ∙ more, st, more))
Answers-of d d' e (inr stop) =
    rw e
      (inr (ap (λ t. if t then false else ltb_ℤ (pos 0) d'.count) (Stops-set d'.reader stop), stop))

-- HasNext comes to an end over any file, whole or cut short or corrupt, in whatever pieces its bytes
-- come: it answers that there is a value, with a positive count and no error, or that there is none,
-- with an error of the reader.
pub has_next-Answers : (d : Decoder) → IsSteady d.reader → Answers (has_next d)
unfolding has_next
has_next-Answers d st =
    let fuel : ℕ = suc (length (stream d.reader)) in
    Answers-of d (block_loop fuel d) refl (block_loop-Settled fuel d st (omega arith))
