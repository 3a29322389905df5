-- ===== src/Ocf/Runs.antt =====
-- ocf/ocf.go: runs of HasNext and Decode, in any order and over any source.
use avro.Prelude.{
  ℕ, zero, suc, ◌≡◌, ◌⊎◌, refl, sym, ap, ◌∙◌, arith, inl, inr, Option, none, some, Bool, true,
  false, not, ◌&&◌, List, length, if◌then◌else◌, Bool-cases, bytes_equal, ◌==◌, subst,
}
use avro.Prelude.Int.{ℤ, pos, negsuc, ltb_ℤ, ◌≤ℤ◌}
use avro.Config.{max_int}
use avro.Errors.{Error}
use avro.Reader.State.{Reader, peek, has_error, diverge}
use avro.Reader.Varint.{read_long}
use avro.Reader.Values.{read}
use avro.Reader.Stream.{stream}
use avro.Ocf.{ValueCodec}
use avro.Ocf.Decoder.{
  Decoder, at_eof, read_block, after_count, after_size, after_data, check_sync, open_block,
  read_block_data, next_block, needs_block, block_loop, has_next, decode, after_datum, decrement,
  decode_datum,
}
use avro.Ocf.Settles.{needs_no_block, loop_rests, loop_goes}

-- One call of a client.
pub data Step {V : Type 0} (c : ValueCodec V) : Decoder → Decoder → Type 0 where
  call_has_next : (d : Decoder) → Step c d (has_next d).1
  call_decode : (d : Decoder) (v : V) → Step c d (decode c d v).2

pub data Reach {V : Type 0} (c : ValueCodec V) (d : Decoder) : Decoder → Type 0 where
  here : Reach c d d
  next : {d' d'' : Decoder} → Reach c d d' → Step c d' d'' → Reach c d d''

-- The settings of a decoder.
abbrev pub SameFile : Decoder → Decoder → Type 0
SameFile d d' =
    (d'.sync ≡ d.sync)
    × (d'.max_block_records ≡ d.max_block_records)
    × (d'.max_block_bytes ≡ d.max_block_bytes)

-- What readBlock answers: no records, or the number that the block declared.
record Gives (d : Decoder) (n : ℤ) (p : ℤ × Decoder) : Type 0 where
  gives : (p.0 ≡ pos 0) ⊎ (p.0 ≡ n)
  file : SameFile d p.1

either :
    (d : Decoder) (n : ℤ) (b : Bool) (x y : ℤ × Decoder)
    → Gives d n x
    → Gives d n y
    → Gives d n (if b then x else y)
either d n true x y hx hy = hx
either d n false x y hx hy = hy

nothing : (d d' : Decoder) (n : ℤ) → SameFile d d' → Gives d n (pos 0, d')
nothing d d' n same = record { gives = inl refl; file = same }

module _ (d : Decoder) (n : ℤ) where
  open-Gives :
      (result : Error ⊎ List ℕ) (d' : Decoder) → SameFile d d' → Gives d n (open_block n result d')
  unfolding open_block
  open-Gives (inl e) d' same = nothing d _ n same
  open-Gives (inr decoded) d' same =
      either d n (not (ltb_ℤ (pos 0) n) && not (length decoded == 0)) _ _ (nothing d _ n same)
        (record { gives = inr refl; file = same })

  check-Gives : (bytes sync : List ℕ) (r : Reader) → Gives d n (check_sync n bytes d (sync, r))
  unfolding check_sync
  check-Gives bytes sync r = either d n (has_error r) _ _ (nothing d _ n (refl, refl, refl)) (
      either d n (not (bytes_equal d.sync sync)) _ _ (nothing d _ n (refl, refl, refl))
        (open-Gives (d.codec.decode_block bytes) (record d { reader = r }) (refl, refl, refl)))

  data-Gives :
      (bytes : List ℕ) (err : Option Error) (r : Reader)
      → Gives d n (after_data n d ((bytes, err), r))
  unfolding after_data
  data-Gives bytes (some e) r = nothing d _ n (refl, refl, refl)
  data-Gives bytes none r = check-Gives bytes (read 16 r).0 (read 16 r).1

  size-Gives : (i : ℤ) (r : Reader) → Gives d n (after_size n d (i, r))
  unfolding after_size
  size-Gives (pos size) r = either d n (has_error r) _ _ (nothing d _ n (refl, refl, refl)) (
      either d n (ltb_ℤ (pos max_int) (pos size)) _ _ (nothing d _ n (refl, refl, refl)) (
        either d n (ltb_ℤ (pos 0) d.max_block_bytes && ltb_ℤ d.max_block_bytes (pos size)) _ _
          (nothing d _ n (refl, refl, refl))
          (data-Gives (read_block_data r size).0.0 (read_block_data r size).0.1
            (read_block_data r size).1)))
  size-Gives (negsuc size) r =
      either d n (has_error r) _ _ (nothing d _ n (refl, refl, refl))
        (nothing d _ n (refl, refl, refl))

-- A number of records that is not negative and within the limit.
abbrev IsCount : ℤ → ℤ → Type 0
IsCount limit count = (pos 0 ≤ℤ count) × ((limit ≤ℤ pos 0) ⊎ (count ≤ℤ limit))

record Counts (d : Decoder) (p : ℤ × Decoder) : Type 0 where
  counts : IsCount d.max_block_records p.0
  file : SameFile d p.1

zero_counts : (limit : ℤ) → IsCount limit (pos 0)
zero_counts (pos n) = (omega arith, inr (omega arith))
zero_counts (negsuc n) = (omega arith, inl (omega arith))

no_records : (d d' : Decoder) → SameFile d d' → Counts d (pos 0, d')
no_records d d' same = record { counts = zero_counts d.max_block_records; file = same }

given : (limit i n : ℤ) → IsCount limit n → (i ≡ pos 0) ⊎ (i ≡ n) → IsCount limit i
given limit i n ok (inl e) = rw e (zero_counts limit)
given limit i n ok (inr e) = rw e ok

within :
    (limit : ℤ) (n : ℕ)
    → (ltb_ℤ (pos 0) limit && ltb_ℤ limit (pos n)) ≡ false
    → IsCount limit (pos n)
within (pos m) n h = ground (arith, h)
within (negsuc m) n h = (omega arith, inl (omega arith))

module _ (d : Decoder) where
  kept :
      (n : ℕ) (p : ℤ × Decoder)
      → IsCount d.max_block_records (pos n)
      → Gives d (pos n) p
      → Counts d p
  kept n p ok g = record {
    counts = given d.max_block_records p.0 (pos n) ok g.gives;
    file = g.file;
  }

  limited :
      (n : ℕ) (b : Bool) (x y : ℤ × Decoder)
      → (ltb_ℤ (pos 0) d.max_block_records && ltb_ℤ d.max_block_records (pos n)) ≡ b
      → Counts d x
      → Gives d (pos n) y
      → Counts d (if b then x else y)
  limited n true x y e hx hy = hx
  limited n false x y e hx hy = kept n y (within d.max_block_records n e) hy

  whole : (b : Bool) (x y : ℤ × Decoder) → Counts d x → Counts d y → Counts d (if b then x else y)
  whole true x y hx hy = hx
  whole false x y hx hy = hy

  count-Counts : (i : ℤ) (r : Reader) → Counts d (after_count d (i, r))
  unfolding after_count
  count-Counts (pos n) r = whole (has_error r) _ _ (no_records d _ (refl, refl, refl)) (
      limited n (ltb_ℤ (pos 0) d.max_block_records && ltb_ℤ d.max_block_records (pos n)) _ _ refl
        (no_records d _ (refl, refl, refl)) (size-Gives d (pos n) (read_long r).0 (read_long r).1))
  count-Counts (negsuc n) r =
      whole (has_error r) _ _ (no_records d _ (refl, refl, refl))
        (no_records d _ (refl, refl, refl))

  read_block-Counts : Counts d (read_block d)
  unfolding read_block
  read_block-Counts =
      let r : Reader = (peek d.reader).1 in
      whole (at_eof r.error) (pos 0, record d { reader = r }) _ (no_records d _ (refl, refl, refl))
        (count-Counts (read_long r).0 (read_long r).1)

-- The number of records that are left is not negative and within the limit.
abbrev pub IsBounded : Decoder → Type 0
IsBounded d = IsCount d.max_block_records d.count

next_block-IsBounded : (d : Decoder) → IsBounded (next_block d) × SameFile d (next_block d)
unfolding next_block
next_block-IsBounded d =
    let read = read_block-Counts d in
    (subst (λ t. IsCount t (read_block d).0) (sym read.file.1) read.counts, read.file)

same_file : (d d' d'' : Decoder) → SameFile d d' → SameFile d' d'' → SameFile d d''
same_file d d' d'' (a, b, e) (a', b', e') = (a' ∙ a, b' ∙ b, e' ∙ e)

loop_out :
    (d : Decoder)
    → needs_block d ≡ true
    → block_loop zero d ≡ record d { reader = diverge d.reader }
unfolding block_loop
loop_out d h = rw h refl

loop-IsBounded :
    (fuel : ℕ) (d : Decoder)
    → IsBounded d
    → IsBounded (block_loop fuel d) × SameFile d (block_loop fuel d)
loop-IsBounded zero d ok = elim (Bool-cases (needs_block d)) [
  | inr rests ↦ rw (loop_rests zero d rests) (ok, (refl, refl, refl))
  | inl goes ↦ rw (loop_out d goes) (ok, (refl, refl, refl))
]
loop-IsBounded (suc fuel) d ok = elim (Bool-cases (needs_block d)) [
  | inr rests ↦ rw (loop_rests (suc fuel) d rests) (ok, (refl, refl, refl))
  | inl goes ↦
      let (ok', same) = next_block-IsBounded d in
      let (ok'', same') = loop-IsBounded fuel (next_block d) ok' in
      rw (loop_goes fuel d goes)
        (ok'', same_file d (next_block d) (block_loop fuel (next_block d)) same same')
]

has_next-IsBounded :
    (d : Decoder) → IsBounded d → IsBounded (has_next d).1 × SameFile d (has_next d).1
unfolding has_next
has_next-IsBounded d ok = loop-IsBounded (suc (length (stream d.reader))) d ok

has_next_stopped : (d : Decoder) → has_error d.reader ≡ true → (has_next d).1 ≡ d
unfolding has_next
has_next_stopped d h = loop_rests (suc (length (stream d.reader))) d (needs_no_block d h)

decrement-IsCount :
    (limit count : ℤ)
    → IsCount limit count
    → ltb_ℤ (pos 0) count ≡ true
    → IsCount limit (decrement count)
decrement-IsCount limit (pos zero) ok more = absurd (ground (arith, more))
decrement-IsCount limit (pos (suc n)) (least, inl off) more = (omega arith, inl off)
decrement-IsCount limit (pos (suc n)) (least, inr most) more = (omega arith, inr (omega arith))
decrement-IsCount limit (negsuc n) ok more = absurd (ground (arith, more))

after_datum_keeps :
    (d : Decoder) (err : Option Error)
    → ((after_datum d err).count ≡ d.count) × SameFile d (after_datum d err)
unfolding after_datum
after_datum_keeps d (some e) = (refl, (refl, refl, refl))
after_datum_keeps d none = ground arith

module _ {V : Type 0} (c : ValueCodec V) (d : Decoder) (v : V) where
  decode_stopped : has_error d.reader ≡ true → decode c d v ≡ (d.reader.error, v, d)
  unfolding decode
  decode_stopped h = ground (arith, h)

  decode_empty : has_error d.reader ≡ false → ltb_ℤ (pos 0) d.count ≡ false → (decode c d v).2 ≡ d
  unfolding decode
  decode_empty h e = ground (arith, h, e)

  decode_goes :
      has_error d.reader ≡ false
      → ltb_ℤ (pos 0) d.count ≡ true
      → (decode c d v).2
        ≡ after_datum
            (record d { count = decrement d.count; decoder = (decode_datum c d.decoder v).2 })
            (decode_datum c d.decoder v).0
  unfolding decode
  decode_goes h e = ground (arith, h, e)

module _ {V : Type 0} (c : ValueCodec V) where
  decode-IsBounded :
      (d : Decoder) (v : V) → IsBounded d → IsBounded (decode c d v).2 × SameFile d (decode c d v).2
  decode-IsBounded d v ok = elim (Bool-cases (has_error d.reader)) [
    | inl failed ↦ rw (decode_stopped c d v failed) (ok, (refl, refl, refl))
    | inr clean ↦ elim (Bool-cases (ltb_ℤ (pos 0) d.count)) [
      | inr empty ↦ rw (decode_empty c d v clean empty) (ok, (refl, refl, refl))
      | inl more ↦
          let d' : Decoder = record d {
            count = decrement d.count;
            decoder = (decode_datum c d.decoder v).2;
          } in
          let (same, file) = after_datum_keeps d' (decode_datum c d.decoder v).0 in
          rw (decode_goes c d v clean more)
            (rw (same, file.1) (decrement-IsCount d.max_block_records d.count ok more), file)
    ]
  ]

  Step-IsBounded : {d d' : Decoder} → Step c d d' → IsBounded d → IsBounded d' × SameFile d d'
  Step-IsBounded (call_has_next d) ok = has_next-IsBounded d ok
  Step-IsBounded (call_decode d v) ok = decode-IsBounded d v ok

  -- Whatever HasNext and Decode are called, and whatever the source answers, the number of records that
  -- are left is never negative nor above the limit of the decoder, where it has one; the limits and the
  -- marker of the file stay as they are.
  pub Reach-IsBounded : {d d' : Decoder} → IsBounded d → Reach c d d' → IsBounded d' × SameFile d d'
  Reach-IsBounded ok here = (ok, (refl, refl, refl))
  Reach-IsBounded {d} ok (next {d'} {d''} run step) =
      let (ok', same) = Reach-IsBounded ok run in
      let (ok'', same') = Step-IsBounded step ok' in (ok'', same_file d d' d'' same same')

  Step-same : {d d' : Decoder} → Step c d d' → has_error d.reader ≡ true → d' ≡ d
  Step-same (call_has_next d) failed = has_next_stopped d failed
  Step-same (call_decode d v) failed =
      ap (λ (t : Option Error × V × Decoder). t.2) (decode_stopped c d v failed)

  -- Once the reader of a decoder has an error, no call of HasNext or Decode changes the decoder: the
  -- first error stays.
  pub Reach-same : {d d' : Decoder} → has_error d.reader ≡ true → Reach c d d' → d' ≡ d
  Reach-same failed here = refl
  Reach-same failed (next run step) =
      let same = Reach-same failed run in Step-same step (rw same failed) ∙ same
