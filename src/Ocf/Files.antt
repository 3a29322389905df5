-- ===== src/Ocf/Files.antt =====
-- ocf/ocf.go: whole files. What a client that encodes values and flushes has written, and what a client
-- that calls HasNext and Decode in turn reads.
pub mod Written
pub mod Flushed
pub mod Opened
pub mod Drained
pub mod Whole
use avro.Prelude.{
  ℕ, zero, suc, ◌≡◌, ap, sym, ◌∙◌, refl, Bool, true, false, ◌||◌, Option, none, some, List, [], ◌∷◌,
  ◌++◌, append_assoc, append-nil, length, if◌then◌else◌, All, Bool-cases, inl, inr,
}
use avro.Prelude.Int.{ℤ}
use avro.Errors.{Error}
use avro.Reader.State.{Reader}
use avro.Reader.Stream.{stream, IsSteady}
use avro.Reader.Scan.{IsByte}
use avro.RoundTrip.Numbers.{Returns}
use avro.Writer.{Writer, append}
use avro.Ocf.{Codec, ValueCodec}
use avro.Ocf.Encoder.{Encoder, reached, encode, flush_block}
use avro.Ocf.Decoder.{Decoder, has_next, decode}
use avro.Ocf.Blocks.{block_bytes}

-- The codec of values: WriteVal appends the bytes of the value to a writer without an error, and ReadVal
-- returns the value whose bytes come next, in whatever pieces.
pub record IsLawful {V : Type 0} (c : ValueCodec V) (encoding : V → List ℕ) : Type 0 where
  pub writes : (v : V) (w : Writer) → w.error ≡ none → c.write_val v w ≡ append w (encoding v)
  pub reads :
      (v target : V) (rest : List ℕ) (r : Reader)
      → IsSteady r
      → stream r ≡ encoding v ++ rest
      → Returns v rest (c.read_val target r)
  pub bytes : (v : V) → All IsByte (encoding v)

module _ {V : Type 0} (encoding : V → List ℕ) where
  unfoldable pub encodings : List V → List ℕ
  encodings [] = []
  encodings (v ∷ vs) = encoding v ++ encodings vs

  pub encodings-append : (us vs : List V) → encodings (us ++ vs) ≡ encodings us ++ encodings vs
  unfolding encodings
  encodings-append [] vs = refl
  encodings-append (u ∷ us) vs =
      ap (λ t. encoding u ++ t) (encodings-append us vs)
      ∙ sym (append_assoc (encoding u) (encodings us) (encodings vs))

  -- The blocks of a file: a block ends with the value that makes it reach the length or the size.
  abbrev pub is_full : ℤ → ℤ → List V → Bool
  is_full block_length block_size vs =
      reached (length vs) block_length || reached (length (encodings vs)) block_size

  unfoldable pub blocks : ℤ → ℤ → List V → List V → List (List V)
  blocks block_length block_size [] [] = []
  blocks block_length block_size (p ∷ pending) [] = (p ∷ pending) ∷ []
  blocks block_length block_size pending (v ∷ vs) =
      let pending' = pending ++ v ∷ [] in
      let rest = blocks block_length block_size [] vs in
      let more = blocks block_length block_size pending' vs in
      if is_full block_length block_size pending' then pending' ∷ rest else more

  unfoldable pub file_bytes : Codec → List ℕ → List (List V) → List ℕ
  file_bytes codec sync [] = []
  file_bytes codec sync (b ∷ bs) =
      block_bytes (length b) (codec.encode_block (encodings b)) sync ++ file_bytes codec sync bs

abbrev pub concat {ℓ} : {A : Type ℓ} → List (List A) → List A
concat [] = []
concat (xs ∷ rest) = xs ++ concat rest

module _ {V : Type 0} (c : ValueCodec V) where
  -- Encode of each value in turn, and Flush; an error ends it.
  unfoldable pub encode_all : Encoder → List V → Option Error × Encoder
  encode_all e [] = flush_block e
  encode_all e (v ∷ vs) =
      let (err, e') = encode c e v in
      let rest = encode_all e' vs in elim err [ some x ↦ (some x, e') | none ↦ rest ]

  -- `for d.HasNext() { d.Decode(&v) }` in `fuel` rounds: the values that it reads.
  unfoldable pub decode_all : ℕ → Decoder → V → List V × Decoder
  decode_all zero d target = ([], d)
  decode_all (suc fuel) d target =
      let (more, d') = has_next d in
      let (err, v, d'') = decode c d' target in
      let (rest, last) = decode_all fuel d'' v in
      if more then elim err [ some x ↦ ([], d'') | none ↦ (v ∷ rest, last) ] else ([], d')
