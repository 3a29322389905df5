-- ===== src/Ocf/Files/Whole.antt =====
-- ocf/ocf.go: a file, written and read back.
use avro.Prelude.{
  ℕ, zero, suc, ◌+◌, ◌<◌, ◌≡◌, refl, sym, ap, ◌∙◌, arith, true, Option, none, some, List, [], ◌∷◌,
  ◌++◌, append_cancel_left, length, length-append, All,
}
use avro.Prelude.Int.{ℤ, pos}
use avro.Reader.State.{Reader}
use avro.Reader.Stream.{stream, IsSteady}
use avro.Writer.{Output}
use avro.Ocf.{Codec, ValueCodec}
use avro.Ocf.Decoder.{Decoder, reset_reader, has_next, error_of}
use avro.Ocf.Encoder.{Encoder, buffer}
use avro.Ocf.Files.{IsLawful, encodings, file_bytes, blocks, encode_all, decode_all, concat}
use avro.Ocf.Files.Opened.{
  reset_reader-IsSteady, stream-reset_reader, has_next_waiting, has_next-Opens, has_next_ends,
}
use avro.Ocf.Files.Drained.{
  IsAccepted, Offers, encodings_bytes, after, decode_next, Offers-next, Opens-next, round_more,
  round_end,
}
use avro.Ocf.Files.Written.{Holds, IsWritable}
use avro.Ocf.Files.Flushed.{encode_all-Keeps, concat-blocks}

bytes_taken : Option Output → List ℕ
bytes_taken none = []
bytes_taken (some out) = out.taken

pub taken : {xs ys : List ℕ} → some (buffer xs) ≡ some (buffer ys) → xs ≡ ys
unfolding bytes_taken
taken h = ap bytes_taken h

module _ {V : Type 0} (c : ValueCodec V) (encoding : V → List ℕ) (ok : IsLawful c encoding)
    (method unpack : Codec) (marker : List ℕ) (max_records max_bytes : ℤ)
    (sixteen : length marker ≡ 16) where
  abbrev Offered : Decoder → List V → List (List V) → Type 0
  Offered = Offers c encoding ok method unpack marker max_records max_bytes sixteen

  abbrev pub Accepted : List V → Type 0
  Accepted = IsAccepted c encoding ok method unpack marker max_records max_bytes sixteen

  -- The values that HasNext and Decode read, and that they end without an error.
  abbrev pub Yields : List V → List V × Decoder → Type 0
  Yields vs (read, d) = (read ≡ vs) × (error_of d ≡ none)

  no_blocks : file_bytes encoding method marker [] ≡ []
  unfolding file_bytes
  no_blocks = refl

  no_values : encodings encoding [] ≡ []
  unfolding encodings
  no_values = refl

  -- A round that reads `v`, and the rounds after it.
  one_more :
      (fuel : ℕ) (d d' : Decoder) (target v : V) (vs : List V) (later : List (List V))
      (o : Offered d' (v ∷ vs) later)
      → has_next d ≡ (true, d')
      → Yields (vs ++ concat later) (
          decode_all c fuel
            (record d' {
              count = pos (length vs);
              decoder =
                  after c encoding ok method unpack marker max_records max_bytes sixteen d' v target
                    vs later o;
            })
            v)
      → Yields (v ∷ (vs ++ concat later)) (decode_all c (suc fuel) d target)
  one_more fuel d d' target v vs later o more (same, clean) =
      rw
        (round_more c encoding ok method unpack marker max_records max_bytes sixteen fuel d target
          d' _ v more
          (decode_next c encoding ok method unpack marker max_records max_bytes sixteen d' v target
            vs later o))
        (ap (λ t. v ∷ t) same, clean)

  begun :
      (d : Decoder) (r : Reader) (b : List V) (later : List (List V))
      → Offered d [] (b ∷ later)
      → IsSteady r
      → stream r ≡ file_bytes encoding method marker later
      → Offered
          (record d {
            reader = r;
            decoder = reset_reader d.decoder (encodings encoding b);
            count = pos (length b);
          })
          b
          later
  begun d r b later o st left = record {
    steady = st;
    file = left;
    count = refl;
    values =
        reset_reader-IsSteady d.decoder (encodings encoding b) o.values
          (encodings_bytes c encoding ok method unpack marker max_records max_bytes sixteen b);
    block = stream-reset_reader d.decoder (encodings encoding b) (o.block ∙ no_values);
    sync = o.sync;
    codec = o.codec;
    records = o.records;
    bytes = o.bytes;
  }

  decode_all-Yields :
      (fuel : ℕ) (d : Decoder) (target : V) (waiting : List V) (later : List (List V))
      → length waiting + length (concat later) < fuel
      → Offered d waiting later
      → All Accepted later
      → Yields (waiting ++ concat later) (decode_all c fuel d target)
  decode_all-Yields zero d target waiting later h o fits = absurd (omega arith)
  decode_all-Yields (suc fuel) d target (v ∷ vs) later h o fits =
      one_more fuel d d target v vs later o
        (has_next_waiting d (length vs) o.steady.no_error o.count)
        (decode_all-Yields fuel _ v vs later (omega arith)
          (Offers-next c encoding ok method unpack marker max_records max_bytes sixteen d v target
            vs later o)
          fits)
  decode_all-Yields (suc fuel) d target [] [] h o fits =
      let (d', e, clean) = has_next_ends d o.steady o.count (o.file ∙ no_blocks) in
      rw
        (round_end c encoding ok method unpack marker max_records max_bytes sixteen fuel d target d'
          e)
        (refl, clean)
  decode_all-Yields (suc fuel) d target [] ([] ∷ later) h o fits = absurd (omega (arith, fits.0.0))
  decode_all-Yields (suc fuel) d target [] ((v ∷ vs) ∷ later) h o fits =
      let opens =
        Opens-next c encoding ok method unpack marker max_records max_bytes sixteen d (v ∷ vs) later
          o fits.0 in
      let (r, e, st, left) =
        has_next-Opens d (length vs) (encodings encoding (v ∷ vs)) _ o.steady.no_error o.count
          opens in
      let o' = begun d r (v ∷ vs) later o st left in
      one_more fuel d _ target v vs later o' e (
        decode_all-Yields fuel _ v vs later (omega (arith, length-append vs (concat later)))
          (Offers-next c encoding ok method unpack marker max_records max_bytes sixteen _ v target
            vs later o')
          fits.1)

  -- A decoder of the file that has read its header and no block.
  pub record IsFresh (d : Decoder) : Type 0 where
    pub steady : IsSteady d.reader
    pub count : d.count ≡ pos 0
    pub values : IsSteady d.decoder
    pub block : stream d.decoder ≡ []
    pub sync : d.sync ≡ marker
    pub codec : d.codec ≡ unpack
    pub records : d.max_block_records ≡ max_records
    pub bytes : d.max_block_bytes ≡ max_bytes

  begins :
      (d : Decoder) (later : List (List V))
      → IsFresh d
      → stream d.reader ≡ file_bytes encoding method marker later
      → Offered d [] later
  begins d later f e = record {
    steady = f.steady;
    file = e;
    count = f.count;
    values = f.values;
    block = f.block ∙ sym no_values;
    sync = f.sync;
    codec = f.codec;
    records = f.records;
    bytes = f.bytes;
  }

  module _ (block_length block_size : ℤ) where
    pub writable :
        (bs : List (List V))
        → All Accepted bs
        → All (IsWritable c encoding ok method marker block_length block_size) bs
    writable [] h = tt
    writable (b ∷ bs) ((some_values, few, short, limits, law), h) = ((few, short), writable bs h)

    -- A client that encodes values and flushes, over an io.Writer that takes all, gets no error; and a
    -- client that calls HasNext and Decode in turn over what was written, in whatever pieces it comes, reads
    -- the same values in the same order and ends without an error. It needs the codec of values to be lawful
    -- and each block to be one that the decoder accepts: within its limits, and with the encoder's
    -- compression undone by the decoder's.
    pub decode_all-encode_all :
        (vs : List V) (e : Encoder) (d : Decoder) (target : V) (sent : List ℕ)
        → Holds c encoding ok method marker block_length block_size e sent []
        → All Accepted (blocks encoding block_length block_size [] vs)
        → (encode_all c e vs).1.writer.out ≡ some (buffer (sent ++ stream d.reader))
        → IsFresh d
        → ((encode_all c e vs).0 ≡ none) × Yields vs (decode_all c (suc (length vs)) d target)
    decode_all-encode_all vs e d target sent holds fits out fresh =
        let bs : List (List V) = blocks encoding block_length block_size [] vs in
        let (done, h) =
          encode_all-Keeps c encoding ok method marker block_length block_size vs e sent [] holds
            (writable bs fits) in
        let body : stream d.reader ≡ file_bytes encoding method marker bs =
          append_cancel_left sent _ _ (taken (sym out ∙ h.out)) in
        let all : concat bs ≡ vs = concat-blocks encoding block_length block_size [] vs in
        let size : length (concat bs) ≡ length vs = ap (λ (t : List V). length t) all in
        let (same, clean) =
          decode_all-Yields (suc (length vs)) d target [] bs (omega arith) (begins d bs fresh body)
            fits in
        (done, (same ∙ all, clean))
