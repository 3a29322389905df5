-- ===== src/Writer/Sink.antt =====
-- Flush of writer.go: where the buffered bytes go.
use avro.Prelude.{
  ℕ, zero, suc, ◌⊎◌, ap, ◌≤◌, ◌≡◌, refl, arith, Option, none, some, List, [], ◌∷◌, ◌++◌, append-nil,
  length, take,
}
use avro.Errors.{Error}
use avro.Writer.{WriteResult, Output, Writer, write_out, flush}

abbrev pub taken_by : Option Output → List ℕ
taken_by none = []
taken_by (some out) = out.taken

-- What went out, and what still waits.
abbrev pub delivered : Writer → List ℕ
delivered w = taken_by w.out ++ w.buf

-- Success loses and repeats no byte and, where there is an output, leaves none behind; an error is kept
-- in the writer, and the bytes that were not known to be taken stay in the buffer.
abbrev pub Flushes : Writer → Option Error × Writer → Type 0
Flushes w (none, w') =
    (delivered w' ≡ delivered w) × (w'.error ≡ none) × ((w.out ≡ none) ⊎ (w'.buf ≡ []))
Flushes w (some e, w') = (w'.buf ≡ w.buf) × (w'.error ≡ some e)

take_all : (n : ℕ) (xs : List ℕ) → length xs ≤ n → take n xs ≡ xs
take_all zero [] h = refl
take_all zero (x ∷ xs) h = absurd (omega arith)
take_all (suc n) [] h = refl
take_all (suc n) (x ∷ xs) h = ap (λ t. x ∷ t) (take_all n xs (omega arith))

sent :
    (w : Writer) (out : Output) (answers : List WriteResult)
    → w.error ≡ none
    → w.out ≡ some out
    → out.answers ≡ answers
    → Flushes w (flush w)
unfolding flush write_out
sent w out [] clean to e = ground (arith, append-nil (out.taken ++ w.buf))
sent w out (answer ∷ rest) clean to e =
    ground (arith, append-nil (out.taken ++ w.buf), take_all answer.count w.buf)

flush_cases :
    (w : Writer) (e : Option Error) (o : Option Output)
    → w.error ≡ e
    → w.out ≡ o
    → Flushes w (flush w)
flush_cases w (some e) o he ho = unfold flush in (ground arith)
flush_cases w none none he ho = unfold flush in (ground arith)
flush_cases w none (some out) he ho = sent w out out.answers he ho refl

-- Flush that returns no error has handed on every byte that waited, in order and once, and leaves none
-- in the buffer where there is an io.Writer. Otherwise its error is the writer's, and the buffer is as
-- it was.
pub flush-Flushes : (w : Writer) → Flushes w (flush w)
flush-Flushes w = flush_cases w w.error w.out refl refl
