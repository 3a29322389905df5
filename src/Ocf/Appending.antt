-- ===== src/Ocf/Appending.antt =====
-- ocf/ocf.go: skipToEnd over the blocks of a file, before a file is appended to.
use avro.Prelude.{
  ◌+◌, ◌≤◌, ℕ, zero, suc, ◌<◌, ◌≡◌, refl, ap, ◌∙◌, subst, arith, String, Option, true, false, none,
  some, List, [], ◌∷◌, ◌++◌, append_assoc, append-nil, length, length-append, All, bytes_equal,
  bytes_equal_refl,
}
use avro.Prelude.Int.{pos}
use avro.Errors.{Error, message, eof, is_eof}
use avro.Reader.State.{ReadResult, Reader, peek, load_if_empty, load_more, read_source}
use avro.Reader.Varint.{read_long}
use avro.Reader.Values.{read}
use avro.Reader.Skip.{skip_n_bytes_int64}
use avro.Reader.Stream.{stream, future, chunks, IsSteady, IsSteadySource}
use avro.Writer.Varint.{groups, length-groups}
use avro.Words.{zigzag_number}
use avro.RoundTrip.Numbers.{Returns, read_long-groups}
use avro.RoundTrip.Bytes.{by_copy}
use avro.RoundTrip.Skipping.{skip_n_bytes_int64-Leaves}
use avro.Ocf.{Codec}
use avro.Ocf.Decoder.{at_eof}
use avro.Ocf.Blocks.{IsLong, peek-steady}
use avro.Ocf.Files.{encodings, file_bytes}
use avro.Ocf.Files.Opened.{peek_end}
use avro.Ocf.Opening.{skip_mark, skip_to_end, filled}

module _ (fuel : ℕ) (r₀ : Reader) (sync : List ℕ) where
  skip_end : (peek r₀).1.error ≡ some eof → skip_to_end (suc fuel) r₀ sync ≡ (none, (peek r₀).1)
  unfolding skip_to_end is_eof
  skip_end h =
      let at_end : at_eof (peek r₀).1.error ≡ true = rw h refl in rw (at_end, skip_to_end) refl

  skip_on :
      (count size : ℕ)
      → (peek r₀).1.error ≡ none
      → (read_long (peek r₀).1).0 ≡ pos count
      → (read_long (peek r₀).1).1.error ≡ none
      → (read_long (read_long (peek r₀).1).1).0 ≡ pos size
      → (skip_n_bytes_int64 (pos size) (read_long (read_long (peek r₀).1).1).1).error ≡ none
      → skip_to_end (suc fuel) r₀ sync
        ≡ skip_to_end fuel
            (skip_mark (skip_n_bytes_int64 (pos size) (read_long (read_long (peek r₀).1).1).1) sync)
            sync
  unfolding skip_to_end
  skip_on count size clean n clean₁ m clean₃ = ground (arith, clean, n, clean₁, m, clean₃)

end_cases :
    (us : List ℕ) (source : Option (List ReadResult)) (r : Reader)
    → r.unread ≡ us
    → r.source ≡ source
    → IsSteadySource source
    → r.pending_err ≡ none
    → r.error ≡ none
    → us ++ future source ≡ []
    → ((peek r).1.unread ≡ []) × (future (peek r).1.source ≡ [])
unfolding peek load_if_empty load_more read_source
end_cases (u ∷ us) source r same same' st pending clean e =
    absurd (omega (arith, ap (λ (t : List ℕ). length t) e))
end_cases [] none r same same' st pending clean e = ground (arith, same, same', pending, clean)
end_cases [] (some []) r same same' st pending clean e = ground (arith, same, same', pending, clean)
end_cases [] (some (a ∷ rest)) r same same' (good, good') pending clean e =
    absurd
      (omega (arith, ap (λ (t : List ℕ). length t) e, length-append a.bytes (chunks rest), good.0))

peeked_end :
    (r : Reader)
    → IsSteady r
    → stream r ≡ []
    → ((peek r).1.error ≡ some eof) × (stream (peek r).1 ≡ [])
peeked_end r st gone =
    let (unread, source) =
      end_cases r.unread r.source r refl refl st.answers st.no_pending st.no_error gone in
    (peek_end r st gone, ap (λ t. t ++ future (peek r).1.source) unread ∙ source)

skip_ends :
    (fuel : ℕ) (r : Reader) (sync : List ℕ)
    → IsSteady r
    → stream r ≡ []
    → ((skip_to_end (suc fuel) r sync).0 ≡ none)
      × ((skip_to_end (suc fuel) r sync).1.error ≡ some eof)
      × (stream (skip_to_end (suc fuel) r sync).1 ≡ [])
skip_ends fuel r sync st gone =
    let (at_eof, empty) = peeked_end r st gone in
    rw (skip_end fuel r sync at_eof) (refl, at_eof, empty)

-- An error stays, and ends the loop.
peek_failed : (r : Reader) (e : Error) → r.error ≡ some e → (peek r).1.error ≡ some e
unfolding peek load_if_empty load_more
peek_failed r e h = ground (arith, h)

skip_failed :
    (fuel : ℕ) (r : Reader) (sync : List ℕ) (msg : String)
    → r.error ≡ some (message msg)
    → (skip_to_end (suc fuel) r sync).0 ≡ some (message msg)
unfolding skip_to_end is_eof
skip_failed fuel r sync msg h = ground (arith, peek_failed r (message msg) h)

mark_filled : (mark : List ℕ) → length mark ≡ 16 → filled mark ≡ mark
mark_filled mark h = rw h (append-nil mark)

mark_ok :
    (r : Reader) (sync : List ℕ)
    → length sync ≡ 16
    → (read 16 r).0 ≡ sync
    → skip_mark r sync ≡ (read 16 r).1
unfolding skip_mark
mark_ok r sync sixteen h =
    let same : bytes_equal sync (filled (read 16 r).0) ≡ true =
      rw (h, mark_filled sync sixteen) (bytes_equal_refl sync) in
    ground (arith, same)

mark_bad :
    (r : Reader) (sync mark : List ℕ)
    → length mark ≡ 16
    → bytes_equal sync mark ≡ false
    → (read 16 r).0 ≡ mark
    → (read 16 r).1.error ≡ none
    → (skip_mark r sync).error ≡ some (message "invalid block")
unfolding skip_mark
mark_bad r sync mark sixteen other h clean =
    let differs : bytes_equal sync (filled (read 16 r).0) ≡ false =
      rw (h, mark_filled mark sixteen) other in
    ground (arith, differs, clean)

-- What stands behind the last whole block: nothing, or a block with another marker, and anything.
pub data Ending (V : Type 0) : Type 0 where
  at_end : Ending V
  other_marker : List V → List ℕ → List ℕ → Ending V

module _ {V : Type 0} (encoding : V → List ℕ) (codec : Codec) (sync : List ℕ)
    (sixteen : length sync ≡ 16) where
  abbrev pub packed : List V → List ℕ
  packed b = codec.encode_block (encodings encoding b)

  abbrev pub IsLongBlock : List V → Type 0
  IsLongBlock b = IsLong (length b) × IsLong (length (packed b))

  no_blocks : file_bytes encoding codec sync [] ≡ []
  unfolding file_bytes
  no_blocks = refl

  -- A block with the marker `mark`, and what follows it.
  abbrev block_with : List V → List ℕ → List ℕ → List ℕ
  block_with b mark rest =
      groups 9 (zigzag_number (pos (length b)))
      ++ (groups 9 (zigzag_number (pos (length (packed b)))) ++ (packed b ++ (mark ++ rest)))

  abbrev pub ending_bytes : Ending V → List ℕ
  ending_bytes at_end = []
  ending_bytes (other_marker b mark rest) = block_with b mark rest

  abbrev pub IsEnding : Ending V → Type 0
  IsEnding at_end = Unit {0}
  IsEnding (other_marker b mark rest) =
      IsLongBlock b × (length mark ≡ 16) × (bytes_equal sync mark ≡ false)

  -- All bytes are passed over; or the marker that is not the file's is reported.
  abbrev pub Ends : Ending V → Option Error × Reader → Type 0
  Ends at_end (err, r) = (err ≡ none) × (r.error ≡ some eof) × (stream r ≡ [])
  Ends (other_marker b mark rest) (err, r) = err ≡ some (message "invalid block")

  one_block :
      (b : List V) (bs : List (List V)) (tail : List ℕ)
      → file_bytes encoding codec sync (b ∷ bs) ++ tail
        ≡ block_with b sync (file_bytes encoding codec sync bs ++ tail)
  unfolding file_bytes
  one_block b bs tail =
      let rest : List ℕ = file_bytes encoding codec sync bs in
      let head : List ℕ = groups 9 (zigzag_number (pos (length b))) in
      let size : List ℕ = groups 9 (zigzag_number (pos (length (packed b)))) in
      append_assoc (head ++ (size ++ (packed b ++ sync))) rest tail
      ∙ append_assoc head (size ++ (packed b ++ sync)) (rest ++ tail)
      ∙ ap (λ t. head ++ t)
          (append_assoc size (packed b ++ sync) (rest ++ tail)
            ∙ ap (λ t. size ++ t) (append_assoc (packed b) sync (rest ++ tail)))

  by_sixteen :
      (mark rest : List ℕ) (r : Reader)
      → length mark ≡ 16
      → IsSteady r
      → stream r ≡ mark ++ rest
      → Returns mark rest (read 16 r)
  by_sixteen mark rest r long st e =
      subst (λ (n : ℕ). Returns mark rest (read n r)) long (by_copy mark rest r st e)

  block_with-length :
      (b : List V) (mark rest : List ℕ) → length rest + 2 ≤ length (block_with b mark rest)
  block_with-length b mark rest =
      let head : List ℕ = groups 9 (zigzag_number (pos (length b))) in
      let size : List ℕ = groups 9 (zigzag_number (pos (length (packed b)))) in
      omega (
        arith,
        length-append head (size ++ (packed b ++ (mark ++ rest))),
        length-append size (packed b ++ (mark ++ rest)),
        length-append (packed b) (mark ++ rest),
        length-append mark rest,
        (length-groups 9 (zigzag_number (pos (length b)))).0,
        (length-groups 9 (zigzag_number (pos (length (packed b))))).0,
      )

  -- A round of the loop over a block, up to its marker.
  block_passed :
      (fuel : ℕ) (b : List V) (mark rest : List ℕ) (r₀ : Reader)
      → length mark ≡ 16
      → IsLongBlock b
      → IsSteady r₀
      → stream r₀ ≡ block_with b mark rest
      → (r₃ : Reader) × (skip_to_end (suc fuel) r₀ sync ≡ skip_to_end fuel (skip_mark r₃ sync) sync)
        × Returns mark rest (read 16 r₃)
  block_passed fuel b mark rest r₀ long (few, short) st e =
      let head : List ℕ = groups 9 (zigzag_number (pos (length b))) in
      let size : List ℕ = groups 9 (zigzag_number (pos (length (packed b)))) in
      let some_bytes : 0 < length (stream r₀) =
        omega (arith, ap (λ (t : List ℕ). length t) e, block_with-length b mark rest) in
      let (st₀, same) = peek-steady r₀ st some_bytes in
      let r : Reader = (peek r₀).1 in
      let (n, st₁, left₁) =
        read_long-groups (pos (length b)) (size ++ (packed b ++ (mark ++ rest))) r few st₀
          (same ∙ e) in
      let (m, st₂, left₂) =
        read_long-groups (pos (length (packed b))) (packed b ++ (mark ++ rest)) (read_long r).1
          short st₁ left₁ in
      let r₂ : Reader = (read_long (read_long r).1).1 in
      let (st₃, left₃) = skip_n_bytes_int64-Leaves (packed b) (mark ++ rest) r₂ short st₂ left₂ in
      (
        skip_n_bytes_int64 (pos (length (packed b))) r₂,
        rw
            (skip_on fuel r₀ sync (length b) (length (packed b)) st₀.no_error n st₁.no_error m
              st₃.no_error)
            refl,
        by_sixteen mark rest (skip_n_bytes_int64 (pos (length (packed b))) r₂) long st₃ left₃,
      )

  -- skipToEnd over the blocks of a file, whatever their codec and in whatever pieces they come: it passes
  -- over all of them and returns no error, with nothing left to come; but where a block with another marker
  -- follows them, it passes over the blocks before and returns that this one is invalid, whatever comes
  -- after. As many rounds as there are bytes to come, and one, are enough.
  pub skip_to_end-blocks :
      (fuel : ℕ) (bs : List (List V)) (ending : Ending V) (r : Reader)
      → length (stream r) < fuel
      → IsSteady r
      → stream r ≡ file_bytes encoding codec sync bs ++ ending_bytes ending
      → All IsLongBlock bs
      → IsEnding ending
      → Ends ending (skip_to_end fuel r sync)
  unfolding file_bytes
  skip_to_end-blocks zero bs ending r h st e long ok = absurd (omega arith)
  skip_to_end-blocks (suc fuel) [] at_end r h st e long ok = skip_ends fuel r sync st e
  skip_to_end-blocks (suc zero) [] (other_marker b mark rest) r h st e long ok =
      absurd (omega (arith, ap (λ (t : List ℕ). length t) e, block_with-length b mark rest))
  skip_to_end-blocks (suc (suc fuel)) [] (other_marker b mark rest) r h st e long
        (fits, sixteen', other) =
      let (r₃, passed, (marker, st', left)) =
        block_passed (suc fuel) b mark rest r sixteen' fits st e in
      rw passed (
        skip_failed fuel (skip_mark r₃ sync) sync "invalid block"
          (mark_bad r₃ sync mark sixteen' other marker st'.no_error))
  skip_to_end-blocks (suc fuel) (b ∷ bs) ending r h st e (fits, long) ok =
      let rest : List ℕ = file_bytes encoding codec sync bs ++ ending_bytes ending in
      let split = e ∙ one_block b bs (ending_bytes ending) in
      let (r₃, passed, (marker, st', left)) =
        block_passed fuel b sync rest r sixteen fits st split in
      rw (passed, mark_ok r₃ sync sixteen marker)
        (skip_to_end-blocks fuel bs ending (read 16 r₃).1
          (omega (
            arith,
            ap (λ (t : List ℕ). length t) left,
            ap (λ (t : List ℕ). length t) split,
            block_with-length b sync rest,
          ))
          st' left long ok)
