-- ===== src/Ocf/Files/Drained.antt =====
-- ocf/ocf.go: HasNext and Decode over the blocks of a file.
use avro.Prelude.{
  ℕ, suc, ◌<◌, ◌≡◌, ◌⊎◌, refl, ap, ◌∙◌, arith, inl, inr, true, false, none, List, [], ◌∷◌, length,
  length-append, All, All-append,
}
use avro.Prelude.Int.{ℤ, pos}
use avro.Reader.State.{Reader}
use avro.Reader.Scan.{IsByte}
use avro.Reader.Stream.{stream, future, IsSteady}
use avro.Ocf.{Codec, ValueCodec}
use avro.Ocf.Decoder.{Decoder, has_next, decode, decode_datum, after_datum}
use avro.Ocf.Blocks.{IsLong, IsWithin, Opens, block-Opens}
use avro.Ocf.Files.{IsLawful, encodings, file_bytes, decode_all}

module _ {V : Type 0} (c : ValueCodec V) (target : V) where
  datum_ok :
      (r : Reader)
      → r.error ≡ none
      → (c.read_val target r).1.error ≡ none
      → decode_datum c r target ≡ (none, (c.read_val target r).0, (c.read_val target r).1)
  unfolding decode_datum
  datum_ok r clean clean' = ground (arith, clean, clean')

  after_ok :
      (d : Decoder) (n : ℕ)
      → d.count ≡ pos n
      → (0 < n) ⊎ (length (stream d.decoder) ≡ 0)
      → after_datum d none ≡ d
  unfolding after_datum
  after_ok d n count rest =
      ground (arith, count, length-append d.decoder.unread (future d.decoder.source))

  decode_ok :
      (d : Decoder) (n : ℕ) (v : V) (r : Reader)
      → d.reader.error ≡ none
      → d.count ≡ pos (suc n)
      → decode_datum c d.decoder target ≡ (none, v, r)
      → decode c d target ≡ (
          let d' = after_datum (record d { count = pos n; decoder = r }) none in
          (d'.reader.error, v, d'))
  unfolding decode
  decode_ok d n v r clean count datum = ground (arith, clean, count, datum)

module _ {V : Type 0} (c : ValueCodec V) (encoding : V → List ℕ) (ok : IsLawful c encoding)
    (method unpack : Codec) (marker : List ℕ) (max_records max_bytes : ℤ)
    (sixteen : length marker ≡ 16) where
  -- A block that a decoder of the file accepts.
  abbrev pub IsAccepted : List V → Type 0
  IsAccepted b =
      let records = encodings encoding b in
      let packed = method.encode_block records in
      (0 < length b)
      × IsLong (length b)
      × IsLong (length packed)
      × (IsWithin max_records (length b) × IsWithin max_bytes (length packed))
      × (unpack.decode_block packed ≡ inr records)

  -- A decoder at which the values `waiting` of the open block and the blocks `later` are to come.
  pub record Offers (d : Decoder) (waiting : List V) (later : List (List V)) : Type 0 where
    pub steady : IsSteady d.reader
    pub file : stream d.reader ≡ file_bytes encoding method marker later
    pub count : d.count ≡ pos (length waiting)
    pub values : IsSteady d.decoder
    pub block : stream d.decoder ≡ encodings encoding waiting
    pub sync : d.sync ≡ marker
    pub codec : d.codec ≡ unpack
    pub records : d.max_block_records ≡ max_records
    pub bytes : d.max_block_bytes ≡ max_bytes

  pub encodings_bytes : (vs : List V) → All IsByte (encodings encoding vs)
  unfolding encodings
  encodings_bytes [] = tt
  encodings_bytes (v ∷ vs) =
      All-append IsByte (encoding v) (encodings encoding vs) (ok.bytes v) (encodings_bytes vs)

  used_up :
      (vs : List V) (r : Reader)
      → stream r ≡ encodings encoding vs
      → (0 < length vs) ⊎ (length (stream r) ≡ 0)
  unfolding encodings
  used_up [] r e = inr (ap (λ (t : List ℕ). length t) e)
  used_up (u ∷ us) r e = inl (omega arith)

  module _ (d : Decoder) (v target : V) (vs : List V) (later : List (List V))
      (o : Offers d (v ∷ vs) later) where
    abbrev pub after : Reader
    after = (c.read_val target d.decoder).1

    value_read :
        ((c.read_val target d.decoder).0 ≡ v)
        × IsSteady after
        × (stream after ≡ encodings encoding vs)
    unfolding encodings
    value_read = ok.reads v target (encodings encoding vs) d.decoder o.values o.block

    pub decode_next :
        decode c d target ≡ (none, v, record d { count = pos (length vs); decoder = after })
    decode_next =
        let (value, st, left) = value_read in
        let d' : Decoder = record d { count = pos (length vs); decoder = after } in
        let datum : decode_datum c d.decoder target ≡ (none, v, after) =
          datum_ok c target d.decoder o.values.no_error st.no_error
          ∙ ap (λ t. (none, t, after)) value in
        decode_ok c target d (length vs) v after o.steady.no_error o.count datum
        ∙ ap (λ (t : Decoder). (t.reader.error, v, t))
            (after_ok c target d' (length vs) refl (used_up vs after left))
        ∙ ap (λ t. (t, v, d')) o.steady.no_error

    pub Offers-next : Offers (record d { count = pos (length vs); decoder = after }) vs later
    Offers-next =
        let (value, st, left) = value_read in
        record {
          steady = o.steady;
          file = o.file;
          count = refl;
          values = st;
          block = left;
          sync = o.sync;
          codec = o.codec;
          records = o.records;
          bytes = o.bytes;
        }

  pub Opens-next :
      (d : Decoder) (b : List V) (later : List (List V))
      → Offers d [] (b ∷ later)
      → IsAccepted b
      → Opens d (length b) (encodings encoding b) (file_bytes encoding method marker later)
  unfolding file_bytes
  Opens-next d b later o (some_values, few, short, (few', short'), law) =
      let packed : List ℕ = method.encode_block (encodings encoding b) in
      block-Opens d (length b) packed (encodings encoding b)
        (file_bytes encoding method marker later) o.steady (o.file ∙ rw o.sync refl)
        (rw o.sync sixteen) few short (rw o.records few') (rw o.bytes short') (rw o.codec law)
        (inl some_values)

  module _ (fuel : ℕ) (d : Decoder) (target : V) where
    pub round_more :
        (d' d'' : Decoder) (v : V)
        → has_next d ≡ (true, d')
        → decode c d' target ≡ (none, v, d'')
        → decode_all c (suc fuel) d target
          ≡ (v ∷ (decode_all c fuel d'' v).0, (decode_all c fuel d'' v).1)
    unfolding decode_all
    round_more d' d'' v more decoded = ground (arith, more, decoded)

    pub round_end :
        (d' : Decoder) → has_next d ≡ (false, d') → decode_all c (suc fuel) d target ≡ ([], d')
    unfolding decode_all
    round_end d' h = ground (arith, h)
