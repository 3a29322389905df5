-- ===== src/Ocf/Files/Opened.antt =====
-- ocf/ocf.go: HasNext at a value that waits, at the next block, and at the end of the file.
use avro.Prelude.{
  ℕ, zero, suc, ◌≤◌, ◌≡◌, refl, ap, ◌∙◌, arith, inl, inr, true, false, none, some, List, [], ◌∷◌,
  ◌++◌, length, length-append, length-drop, length-take, take, drop, take-append-drop, All,
  All-drop, if◌then◌else◌,
}
use avro.Prelude.Int.{ℤ, pos, ltb_ℤ}
use avro.Errors.{Error, eof}
use avro.Reader.State.{Reader, has_error, peek, load_if_empty}
use avro.Reader.Scan.{IsByte}
use avro.Reader.Slices.{All-take}
use avro.Reader.Stream.{stream, future, chunks, IsSteady, IsSteadyAnswer}
use avro.Ocf.Decoder.{
  Decoder, pieces, reset_reader, has_next, block_loop, next_block, needs_block, read_block,
  error_of,
}
use avro.Reader.Copy.{load_if_empty-cases}
use avro.Ocf.Blocks.{Opens}
use avro.Ocf.Settles.{loop_rests, loop_goes, needs_no_block, block_end}

-- A bytes.Reader hands out its bytes, in pieces that are not empty.
pub chunks-pieces :
    (fuel : ℕ) (bytes : List ℕ) → length bytes ≤ fuel → chunks (pieces fuel bytes) ≡ bytes
unfolding pieces
chunks-pieces zero [] h = refl
chunks-pieces zero (b ∷ bs) h = absurd (omega arith)
chunks-pieces (suc fuel) [] h = refl
chunks-pieces (suc fuel) (b ∷ bs) h =
    ap (λ t. take 512 (b ∷ bs) ++ t)
      (chunks-pieces fuel (drop 512 (b ∷ bs)) (omega (arith, length-drop 512 (b ∷ bs))))
    ∙ take-append-drop 512 (b ∷ bs)

pub pieces-IsSteady :
    (fuel : ℕ) (bytes : List ℕ) → All IsByte bytes → All IsSteadyAnswer (pieces fuel bytes)
unfolding pieces
pieces-IsSteady zero bytes h = tt
pieces-IsSteady (suc fuel) [] h = tt
pieces-IsSteady (suc fuel) (b ∷ bs) h = (
  (omega (arith, length-take 512 (b ∷ bs)), refl, All-take 512 (b ∷ bs) h),
  pieces-IsSteady fuel (drop 512 (b ∷ bs)) (All-drop IsByte 512 (b ∷ bs) h),
)

nothing_unread : (xs ys : List ℕ) → xs ++ ys ≡ [] → xs ≡ []
nothing_unread [] ys h = refl
nothing_unread (x ∷ xs) ys h = absurd (omega (arith, ap (λ (t : List ℕ). length t) h))

-- The decoder of values over a new block.
pub reset_reader-IsSteady :
    (r : Reader) (bytes : List ℕ) → IsSteady r → All IsByte bytes → IsSteady (reset_reader r bytes)
reset_reader-IsSteady r bytes st h = record {
  no_error = st.no_error;
  no_pending = st.no_pending;
  bytes = st.bytes;
  answers = pieces-IsSteady (length bytes) bytes h;
}

pub stream-reset_reader :
    (r : Reader) (bytes : List ℕ) → stream r ≡ [] → stream (reset_reader r bytes) ≡ bytes
stream-reset_reader r bytes h =
    ap (λ t. t ++ chunks (pieces (length bytes) bytes))
      (nothing_unread r.unread (future r.source) h)
    ∙ chunks-pieces (length bytes) bytes (omega arith)

waiting :
    (d : Decoder) (n : ℕ) → d.reader.error ≡ none → d.count ≡ pos (suc n) → needs_block d ≡ false
unfolding needs_block
waiting d n clean h = ground (arith, clean, h)

wanting : (d : Decoder) → d.reader.error ≡ none → d.count ≡ pos 0 → needs_block d ≡ true
unfolding needs_block
wanting d clean h = ground (arith, clean, h)

answer :
    (d d' : Decoder) (n : ℕ)
    → block_loop (suc (length (stream d.reader))) d ≡ d'
    → d'.reader.error ≡ none
    → d'.count ≡ pos (suc n)
    → has_next d ≡ (true, d')
unfolding has_next
answer d d' n h clean count =
    let more : (if has_error d'.reader then false else ltb_ℤ (pos 0) d'.count) ≡ true =
      ground (arith, clean, count) in
    ap (λ (t : Decoder). (if has_error t.reader then false else ltb_ℤ (pos 0) t.count, t)) h
    ∙ ap (λ b. (b, d')) more

no_answer :
    (d d' : Decoder) (e : Error)
    → block_loop (suc (length (stream d.reader))) d ≡ d'
    → d'.reader.error ≡ some e
    → has_next d ≡ (false, d')
unfolding has_next
no_answer d d' e h failed =
    let none_left : (if has_error d'.reader then false else ltb_ℤ (pos 0) d'.count) ≡ false =
      ground (arith, failed) in
    ap (λ (t : Decoder). (if has_error t.reader then false else ltb_ℤ (pos 0) t.count, t)) h
    ∙ ap (λ b. (b, d')) none_left

pub peek_end : (r : Reader) → IsSteady r → stream r ≡ [] → (peek r).1.error ≡ some eof
unfolding peek
peek_end r st gone = elim (load_if_empty-cases r st) [
  | inl (stop, at_end, nothing) ↦ at_end
  | inr (more, st', same, some_bytes) ↦ absurd (
      omega (
        arith,
        ap (λ (t : List ℕ). length t) (same ∙ gone),
        length-append (load_if_empty r).1.unread (future (load_if_empty r).1.source),
      ))
]

-- A value waits: HasNext changes nothing.
pub has_next_waiting :
    (d : Decoder) (n : ℕ) → d.reader.error ≡ none → d.count ≡ pos (suc n) → has_next d ≡ (true, d)
has_next_waiting d n clean h =
    answer d d n (loop_rests (suc (length (stream d.reader))) d (waiting d n clean h)) clean h

next_block_of :
    (d d' : Decoder) (count : ℤ)
    → read_block d ≡ (count, d')
    → next_block d ≡ record d' { count = count }
unfolding next_block
next_block_of d d' count h = ap (λ (p : ℤ × Decoder). record p.1 { count = p.0 }) h

-- No value waits, and a block follows: HasNext opens it.
pub has_next-Opens :
    (d : Decoder) (n : ℕ) (records rest : List ℕ)
    → d.reader.error ≡ none
    → d.count ≡ pos 0
    → Opens d (suc n) records rest
    → (r : Reader) × (has_next d ≡ (
      true,
      record d { reader = r; decoder = reset_reader d.decoder records; count = pos (suc n) },
    ))
      × IsSteady r
      × (stream r ≡ rest)
has_next-Opens d n records rest clean count (r, read, st, left) =
    let d' : Decoder = record d {
      reader = r;
      decoder = reset_reader d.decoder records;
      count = pos (suc n);
    } in
    let fuel : ℕ = length (stream d.reader) in
    let looped : block_loop (suc fuel) d ≡ d' =
      loop_goes fuel d (wanting d clean count)
      ∙ ap (λ t. block_loop fuel t) (next_block_of d _ (pos (suc n)) read)
      ∙ loop_rests fuel d' (waiting d' n st.no_error refl) in
    (r, answer d d' n looped st.no_error refl, st, left)

-- No value waits, and the file is at its end.
pub has_next_ends :
    (d : Decoder)
    → IsSteady d.reader
    → d.count ≡ pos 0
    → stream d.reader ≡ []
    → (d' : Decoder) × (has_next d ≡ (false, d')) × (error_of d' ≡ none)
has_next_ends d st count gone =
    let fuel : ℕ = length (stream d.reader) in
    let at_end : (peek d.reader).1.error ≡ some eof = peek_end d.reader st gone in
    let d' : Decoder = record d { reader = (peek d.reader).1; count = pos 0 } in
    let looped : block_loop (suc fuel) d ≡ d' =
      loop_goes fuel d (wanting d st.no_error count)
      ∙ ap (λ t. block_loop fuel t) (next_block_of d _ (pos 0) (block_end d at_end))
      ∙ loop_rests fuel d' (needs_no_block d' (rw at_end refl)) in
    (d', no_answer d d' eof looped at_end, unfold error_of in (rw at_end refl))
