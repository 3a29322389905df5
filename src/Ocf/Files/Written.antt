-- ===== src/Ocf/Files/Written.antt =====
-- ocf/ocf.go: the blocks that Encode and Flush write, over an io.Writer that takes all.
use avro.Prelude.{
  ℕ, suc, ◌≡◌, refl, sym, ap, ◌∙◌, arith, true, false, Option, none, some, List, [], ◌∷◌, ◌++◌,
  append-nil, length, length-append,
}
use avro.Prelude.Int.{ℤ}
use avro.Errors.{Error}
use avro.Writer.{Writer, flush, write_out, write_long, append}
use avro.Ocf.{Codec, ValueCodec}
use avro.Ocf.Encoder.{
  Encoder, buffer, buffered, encode, encode_open, encode_to, count_record, write_then_settle,
  writer_block, block_written, should_write_data_block, settle,
}
use avro.Ocf.Blocks.{block_bytes, block_written-bytes, IsLong}
use avro.Ocf.Files.{IsLawful, encodings, encodings-append, is_full}

pub flush_all :
    (w : Writer) (sent : List ℕ)
    → w.error ≡ none
    → w.out ≡ some (buffer sent)
    → flush w ≡ (none, record w { out = some (buffer (sent ++ w.buf)); buf = [] })
unfolding flush write_out
flush_all w sent clean out = ground (arith, out)

module _ {V : Type 0} (c : ValueCodec V) (encoding : V → List ℕ) (ok : IsLawful c encoding)
    (method : Codec) (marker : List ℕ) (block_length block_size : ℤ) where
  -- An encoder that has handed `sent` to its io.Writer, and holds the values `pending`.
  pub record Holds (e : Encoder) (sent : List ℕ) (pending : List V) : Type 0 where
    pub not_closed : e.closed ≡ false
    pub working : e.failed ≡ false
    pub clean : e.writer.error ≡ none
    pub out : e.writer.out ≡ some (buffer sent)
    pub empty : e.writer.buf ≡ []
    pub buf : e.buf ≡ encodings encoding pending
    pub count : e.count ≡ length pending
    pub value_clean : e.encoder.error ≡ none
    pub value_empty : e.encoder.buf ≡ []
    pub codec : e.codec ≡ method
    pub sync : e.sync ≡ marker
    pub length : e.block_length ≡ block_length
    pub size : e.block_size ≡ block_size

  abbrev pub block_of : List V → List ℕ
  block_of vs = block_bytes (length vs) (method.encode_block (encodings encoding vs)) marker

  abbrev pub IsWritable : List V → Type 0
  IsWritable vs = IsLong (length vs) × IsLong (length (method.encode_block (encodings encoding vs)))

  -- The call made no error, and the encoder holds what it should.
  abbrev pub Keeps : List ℕ → List V → Option Error × Encoder → Type 0
  Keeps sent pending (err, e) = (err ≡ none) × Holds e sent pending

  pub settled :
      (e : Encoder) (sent : List ℕ) (pending : List V)
      → Holds e sent pending
      → Keeps sent pending (settle e)
  settled e sent pending h = (
    h.clean,
    record {
      not_closed = h.not_closed;
      working = rw h.clean refl;
      clean = h.clean;
      out = h.out;
      empty = h.empty;
      buf = h.buf;
      count = h.count;
      value_clean = h.value_clean;
      value_empty = h.value_empty;
      codec = h.codec;
      sync = h.sync;
      length = h.length;
      size = h.size;
    },
  )

  writer_block_all :
      (e : Encoder) (sent written : List ℕ)
      → e.writer.error ≡ none
      → e.writer.out ≡ some (buffer sent)
      → (block_written e).buf ≡ written
      → writer_block e ≡ (
        none,
        record e {
          writer = record e.writer { out = some (buffer (sent ++ written)); buf = [] };
          count = 0;
          buf = [];
        },
      )
  unfolding writer_block block_written write_long
  writer_block_all e sent written clean out same =
      let w : Writer = block_written e in
      ap (λ (p : Option Error × Writer). (p.0, record e { writer = p.1; count = 0; buf = [] }))
        (flush_all w sent clean out)
      ∙ ap
          (λ (t : List ℕ). (
            none,
            record e {
              writer = record e.writer { out = some (buffer (sent ++ t)); buf = [] };
              count = 0;
              buf = [];
            },
          ))
          same

  write_then_settle_ok :
      (e e' : Encoder) → writer_block e ≡ (none, e') → write_then_settle e ≡ settle e'
  unfolding write_then_settle
  write_then_settle_ok e e' h =
      let first : (writer_block e).0 ≡ none = ap (λ (p : Option Error × Encoder). p.0) h in
      rw (first, write_then_settle) (ap (λ (p : Option Error × Encoder). settle p.1) h)

  pub block_added :
      (e : Encoder) (sent : List ℕ) (pending : List V)
      → IsWritable pending
      → Holds e sent pending
      → Keeps (sent ++ block_of pending) [] (write_then_settle e)
  block_added e sent pending (few, short) h =
      let written : (block_written e).buf ≡ block_of pending =
        block_written-bytes e (rw h.count few) (rw (h.codec, h.buf) short)
        ∙ rw (h.empty, h.count, h.codec, h.buf, h.sync) refl in
      rw
        (write_then_settle_ok e _
          (writer_block_all e sent (block_of pending) h.clean h.out written))
        (settled _ (sent ++ block_of pending) [] (record {
          not_closed = h.not_closed;
          working = h.working;
          clean = h.clean;
          out = refl;
          empty = refl;
          buf = unfold encodings in refl;
          count = refl;
          value_clean = h.value_clean;
          value_empty = h.value_empty;
          codec = h.codec;
          sync = h.sync;
          length = h.length;
          size = h.size;
        }))

  -- The encoder with a value more in its buffer.
  abbrev with_value : Encoder → V → Encoder
  with_value e v =
      let buf = e.buf ++ encoding v in
      record e { buf = buf; encoder = record e.encoder { out = some (buffer buf); buf = [] } }

  encode_to_all :
      (w : Writer) (taken : List ℕ) (v : V)
      → w.error ≡ none
      → w.buf ≡ []
      → w.out ≡ some (buffer taken)
      → (flush (c.write_val v w)).1
        ≡ record w { out = some (buffer (taken ++ encoding v)); buf = [] }
  encode_to_all w taken v clean empty out =
      ap (λ t. (flush t).1) (ok.writes v w clean)
      ∙ ap (λ (p : Option Error × Writer). p.1) (flush_all (append w (encoding v)) taken clean out)
      ∙ ap (λ t. record w { out = some (buffer (taken ++ (t ++ encoding v))); buf = [] }) empty

  encode_open_all :
      (e : Encoder) (v : V)
      → e.encoder.error ≡ none
      → e.encoder.buf ≡ []
      → encode_open c e v ≡ count_record (with_value e v)
  unfolding encode_open encode_to
  encode_open_all e v clean empty =
      let w : Writer = record e.encoder { out = some (buffer e.buf) } in
      let done = encode_to_all w e.buf v clean empty refl in
      let error : (flush (c.write_val v w)).1.error ≡ none =
        ap (λ (t : Writer). t.error) done ∙ clean in
      rw (error, encode_open)
        (ap (λ (t : Writer). count_record (record e { buf = buffered t.out; encoder = t })) done)

  encode_goes :
      (e : Encoder) (v : V) → e.closed ≡ false → e.failed ≡ false → encode c e v ≡ encode_open c e v
  unfolding encode
  encode_goes e v opened working = rw (opened, working, encode) refl

  counted :
      (e : Encoder) (sent : List ℕ) (pending : List V) (v : V)
      → Holds e sent pending
      → Holds (record (with_value e v) { count = suc e.count }) sent (pending ++ v ∷ [])
  counted e sent pending v h = record {
    not_closed = h.not_closed;
    working = h.working;
    clean = h.clean;
    out = h.out;
    empty = h.empty;
    buf =
        ap (λ t. t ++ encoding v) h.buf
        ∙ sym (
            encodings-append encoding pending (v ∷ [])
            ∙ unfold encodings in
              (ap (λ t. encodings encoding pending ++ t) (append-nil (encoding v))));
    count = omega (arith, h.count, length-append pending (v ∷ []));
    value_clean = h.value_clean;
    value_empty = refl;
    codec = h.codec;
    sync = h.sync;
    length = h.length;
    size = h.size;
  }

  full_same :
      (e : Encoder) (sent : List ℕ) (pending : List V)
      → Holds e sent pending
      → should_write_data_block e ≡ is_full encoding block_length block_size pending
  unfolding should_write_data_block
  full_same e sent pending h = rw (h.count, h.buf, h.length, h.size) refl

  module _ (e : Encoder) (sent : List ℕ) (pending : List V) (v : V) (h : Holds e sent pending) where
    abbrev next : Encoder
    next = record (with_value e v) { count = suc e.count }

    encode_counts : encode c e v ≡ count_record (with_value e v)
    encode_counts =
        encode_goes e v h.not_closed h.working ∙ encode_open_all e v h.value_clean h.value_empty

    count_full :
        should_write_data_block next ≡ true → count_record (with_value e v) ≡ write_then_settle next
    unfolding count_record
    count_full full = rw (full, count_record) refl

    count_more : should_write_data_block next ≡ false → count_record (with_value e v) ≡ settle next
    unfolding count_record
    count_more more = rw (more, count_record) refl

    pub encode_full :
        is_full encoding block_length block_size (pending ++ v ∷ []) ≡ true
        → IsWritable (pending ++ v ∷ [])
        → Keeps (sent ++ block_of (pending ++ v ∷ [])) [] (encode c e v)
    encode_full full writable =
        let h' = counted e sent pending v h in
        rw (encode_counts ∙ count_full (full_same next sent (pending ++ v ∷ []) h' ∙ full))
          (block_added next sent (pending ++ v ∷ []) writable h')

    pub encode_more :
        is_full encoding block_length block_size (pending ++ v ∷ []) ≡ false
        → Keeps sent (pending ++ v ∷ []) (encode c e v)
    encode_more more =
        let h' = counted e sent pending v h in
        rw (encode_counts ∙ count_more (full_same next sent (pending ++ v ∷ []) h' ∙ more))
          (settled next sent (pending ++ v ∷ []) h')
