-- ===== src/Reader/Stream.antt =====
-- What a Reader is for: the bytes that are still to come, whatever the pieces in which its io.Reader
-- hands them out.
use avro.Prelude.{
  ℕ, ◌≤◌, ◌<◌, ◌≡◌, refl, sym, subst, arith, Bool, true, false, Option, none, some, ◌⊎◌, inl, inr,
  List, [], ◌∷◌, ◌++◌, length, All, All-drop, drop, drop-append_le,
}
use avro.Errors.{Error, eof}
use avro.Reader.State.{ReadResult, Reader, load_more, read_source, filled}
use avro.Reader.Varint.{advance}
use avro.Reader.Scan.{IsByte}

abbrev pub chunks : List ReadResult → List ℕ
chunks [] = []
chunks (a ∷ rest) = a.bytes ++ chunks rest

abbrev pub future : Option (List ReadResult) → List ℕ
future none = []
future (some answers) = chunks answers

-- The bytes that the reader has not handed on yet.
abbrev pub stream : Reader → List ℕ
stream r = r.unread ++ future r.source

-- An answer that brings bytes and no error.
abbrev pub IsSteadyAnswer : ReadResult → Type 0
IsSteadyAnswer a = (0 < length a.bytes) × (a.err ≡ none) × All IsByte a.bytes

abbrev pub IsSteadySource : Option (List ReadResult) → Type 0
IsSteadySource none = Unit {0}
IsSteadySource (some answers) = All IsSteadyAnswer answers

-- A reader without an error, over a source that fails only by its end.
pub record IsSteady (r : Reader) : Type 0 where
  pub no_error : r.error ≡ none
  pub no_pending : r.pending_err ≡ none
  pub bytes : All IsByte r.unread
  pub answers : IsSteadySource r.source

-- The reader is at its end: nothing was added, and the error says so.
abbrev pub AtEnd : Reader → Bool × Reader → Type 0
AtEnd r (more, r') = (more ≡ false) × (r'.error ≡ some eof) × (future r.source ≡ [])

-- The buffer holds the next piece.
abbrev pub Refilled : Reader → Bool × Reader → Type 0
Refilled r (more, r') =
    (more ≡ true) × IsSteady r' × (stream r' ≡ future r.source) × (0 < length r'.unread)

steady_source :
    (bs : List ℕ) (e : Option Error) (rest : List ReadResult)
    → 0 < length bs
    → read_source 0 (record { bytes = bs; err = e } ∷ rest)
      ≡ filled (record { bytes = bs; err = e }) rest
unfolding read_source
steady_source [] e rest h = absurd (omega arith)
steady_source (b ∷ bs) e rest h = refl

-- What `loadMore` makes of each answer of the source.
load_next :
    (r : Reader) (a : ReadResult) (rest : List ReadResult)
    → r.pending_err ≡ none
    → r.source ≡ some (a ∷ rest)
    → 0 < length a.bytes
    → load_more r ≡ (true, record r { source = some rest; unread = a.bytes; pending_err = a.err })
unfolding load_more
load_next r a rest p s h = ground (arith, steady_source a.bytes a.err rest)

load_end :
    (r : Reader)
    → r.pending_err ≡ none
    → r.source ≡ some []
    → r.error ≡ none
    → load_more r ≡ (false, record r { source = some []; error = some eof })
unfolding load_more read_source
load_end r p s h = ground arith

load_cases :
    (r : Reader) (source : Option (List ReadResult))
    → r.source ≡ source
    → IsSteady r
    → AtEnd r (load_more r) ⊎ Refilled r (load_more r)
load_cases r none e st = inl (unfold load_more in (ground (arith, st.no_error)))
load_cases r (some []) e st =
    inl (rw (load_end r st.no_pending e st.no_error) (refl, refl, rw e refl))
load_cases r (some (a ∷ rest)) e st =
    let answers : IsSteadySource (some (a ∷ rest)) = subst IsSteadySource e st.answers in
    inr (
      rw (load_next r a rest st.no_pending e answers.0.0) (
        refl,
        record {
          no_error = st.no_error;
          no_pending = answers.0.1;
          bytes = answers.0.2;
          answers = answers.1;
        },
        rw e refl,
        answers.0.0,
      ))

pub load_more-cases : (r : Reader) → IsSteady r → AtEnd r (load_more r) ⊎ Refilled r (load_more r)
load_more-cases r st = load_cases r r.source refl st

pub advance-IsSteady : (r : Reader) (n : ℕ) → IsSteady r → IsSteady (advance r n)
advance-IsSteady r n st = record {
  no_error = st.no_error;
  no_pending = st.no_pending;
  bytes = All-drop IsByte n r.unread st.bytes;
  answers = st.answers;
}

pub stream-advance :
    (r : Reader) (n : ℕ) → n ≤ length r.unread → stream (advance r n) ≡ drop n (stream r)
stream-advance r n h = sym (drop-append_le n r.unread (future r.source) h)
