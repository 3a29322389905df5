-- ===== src/Ocf/HeaderMeta.antt =====
-- ocf/ocf.go: the metadata of a header under HeaderSchema, and the whole header.
use avro.Prelude.{
  ℕ, zero, suc, ◌^◌, ◌≤◌, ◌<◌, ◌≡◌, ◌⊎◌, refl, ◌∙◌, ap, arith, subst, none, List, [], ◌∷◌, ◌++◌,
  append_assoc, length, length-append, take, drop, length-take, length-drop, All,
}
use avro.Prelude.Int.{pos}
use avro.Words.{zigzag_number}
use avro.Errors.{Error}
use avro.Config.{
  Config, get_block_length, get_block_length_positive, get_max_map_alloc_size,
  get_max_slice_alloc_size_bounds,
}
use avro.Reader.State.{Reader}
use avro.Reader.Stream.{stream, IsSteady}
use avro.Writer.{Writer, append}
use avro.Writer.Varint.{groups, length-groups}
use avro.SkipCodec.{check_fixed_size}
use avro.ArrayCodec.Encoded.{header_of, body, block_of, blocks_of}
use avro.ArrayCodec.Decoded.{Decodes}
use avro.MapCodec.{GoMap, no_entries, encode_map, decode_map}
use avro.MapCodec.Encoded.{key_bytes, map_appended}
use avro.MapCodec.Decoded.{rounds_decoded}
use avro.MapCodec.RoundTrip.{Passes, Iterates, entry_of, known, fitting}
use avro.Ocf.{Header}
use avro.Ocf.Headers.{Like, IsHeaderLawful}
use avro.Ocf.HeaderBytes.{
  field_appended, fixed_appended, field_decoded, fixed_decoded, value_appended, value_decoded,
  any_writer, IsValue,
}
use avro.Ocf.HeaderFields.{
  encode_fixed, decode_fixed, bytes_value, encode_field, decode_field, map_type, elem_type,
  encode_header, write_meta, decode_meta, decode_header, header_codec,
}

module _ (wc : Config) (block_length : ℕ) (hb : 0 < block_length) where
  -- Rounds enough are as good as more.
  blocks_of-fuel :
      (fuel fuel' : ℕ) (order : List (List ℕ × List ℕ))
      → length order ≤ fuel
      → length order ≤ fuel'
      → blocks_of (entry_of key_bytes) wc fuel block_length order
        ≡ blocks_of (entry_of key_bytes) wc fuel' block_length order
  unfolding blocks_of
  blocks_of-fuel fuel fuel' [] h h' = refl
  blocks_of-fuel zero fuel' (x ∷ xs) h h' = absurd (omega arith)
  blocks_of-fuel (suc fuel) zero (x ∷ xs) h h' = absurd (omega arith)
  blocks_of-fuel (suc fuel) (suc fuel') (x ∷ xs) h h' =
      let rest = length-drop block_length (x ∷ xs) in
      ap (λ t. block_of (entry_of key_bytes) wc (take block_length (x ∷ xs)) ++ t)
        (blocks_of-fuel fuel fuel' (drop block_length (x ∷ xs)) (omega arith) (omega arith))

  some_bytes : (e : List ℕ × List ℕ) → 0 < length (entry_of key_bytes e)
  some_bytes (key, x) =
      let head : List ℕ = groups 9 (zigzag_number (pos (length key))) in
      omega (
        arith,
        length-append (head ++ key) (key_bytes x),
        length-append head key,
        (length-groups 9 (zigzag_number (pos (length key)))).0,
      )

  body-length :
      (order : List (List ℕ × List ℕ)) → length order ≤ length (body (entry_of key_bytes) order)
  body-length [] = omega arith
  body-length (e ∷ order) = omega (
    arith,
    length-append (entry_of key_bytes e) (body (entry_of key_bytes) order),
    some_bytes e,
    body-length order,
  )

  blocks_of-length :
      (fuel : ℕ) (order : List (List ℕ × List ℕ))
      → length order ≤ fuel
      → length order ≤ length (blocks_of (entry_of key_bytes) wc fuel block_length order)
  unfolding blocks_of
  blocks_of-length fuel [] h = omega arith
  blocks_of-length zero (x ∷ xs) h = absurd (omega arith)
  blocks_of-length (suc fuel) (x ∷ xs) h =
      let ys = take block_length (x ∷ xs) in
      let zs = drop block_length (x ∷ xs) in
      let head = header_of wc (length ys) (length (body (entry_of key_bytes) ys)) in
      let ny = length-take block_length (x ∷ xs) in
      let nz = length-drop block_length (x ∷ xs) in
      let later = blocks_of-length fuel zs (omega arith) in
      omega (
        arith,
        length-append (head ++ body (entry_of key_bytes) ys)
            (blocks_of (entry_of key_bytes) wc fuel block_length zs),
        length-append head (body (entry_of key_bytes) ys),
        body-length ys,
      )

abbrev pub meta_bytes : Config → List (List ℕ × List ℕ) → List ℕ
meta_bytes c order =
    blocks_of (entry_of key_bytes) c (length order) (get_block_length c) order ++ header_of c 0 0

abbrev pub header_bytes : Config → List (List ℕ × List ℕ) → Header → List ℕ
header_bytes c order h = (h.magic ++ meta_bytes c order) ++ h.sync

-- What the limits of a reader with this configuration let pass: metadata of valid keys and not too many,
-- with bytes not too long, and fixed values of 4 and 16 bytes.
pub record Accepts (rc : Config) (order : List (List ℕ × List ℕ)) : Type 0 where
  pub entries : All (Passes (IsValue rc) rc) order
  pub few : length order ≤ get_max_map_alloc_size rc
  pub short : length (body (entry_of key_bytes) order) < 2 ^ 55

-- The configuration allows fixed values of these sizes.
pub record AllowsFixed (c : Config) : Type 0 where
  pub four : check_fixed_size c (pos 4) ≡ none
  pub sixteen : check_fixed_size c (pos 16) ≡ none

module _ (wc rc : Config) (order : List (List ℕ × List ℕ)) (ok : Accepts rc order) where
  meta_appended :
      (w : Writer)
      → w.cfg ≡ wc
      → w.error ≡ none
      → encode_map bytes_value map_type elem_type (get_block_length w.cfg) order w
        ≡ append w (meta_bytes wc order)
  meta_appended w same clean =
      let small = get_max_slice_alloc_size_bounds rc in
      map_appended bytes_value map_type elem_type key_bytes (IsValue rc) (value_appended rc)
        (get_block_length w.cfg) order w (known (IsValue rc) rc order ok.entries) clean
        (get_block_length_positive w.cfg) (omega (arith, ok.few)) ok.short
      ∙ ap (λ (t : Config). append w (meta_bytes t order)) same

  meta_decoded :
      (rest : List ℕ) (r : Reader) (m : GoMap (List ℕ))
      → Iterates m order
      → r.cfg ≡ rc
      → IsSteady r
      → stream r ≡ meta_bytes wc order ++ rest
      → Decodes m rest r (decode_meta r)
  unfolding decode_map
  meta_decoded rest r m iterates same st e =
      let small = get_max_slice_alloc_size_bounds rc in
      let hb : 0 < get_block_length wc = get_block_length_positive wc in
      let n : ℕ = length (stream r) in
      let blocks = blocks_of (entry_of key_bytes) wc (length order) (get_block_length wc) order in
      let enough : length order ≤ n = omega (
        arith,
        ap (λ (t : List ℕ). length t) e,
        length-append (blocks ++ header_of wc 0 0) rest,
        length-append blocks (header_of wc 0 0),
        blocks_of-length wc (get_block_length wc) hb (length order) order (omega arith),
      ) in
      let split =
        e
        ∙ append_assoc blocks (header_of wc 0 0) rest
        ∙ ap (λ t. t ++ (header_of wc 0 0 ++ rest))
            (blocks_of-fuel wc (get_block_length wc) hb (length order) n order (omega arith)
              enough) in
      subst (λ t. Decodes t rest r (decode_meta r)) iterates
        (rounds_decoded bytes_value map_type elem_type key_bytes (IsValue rc) (value_appended rc) rc
          (value_decoded rc) (any_writer wc) n (get_block_length wc) order 0 rest r no_entries
          (known (IsValue rc) rc order ok.entries) (fitting (IsValue rc) rc order ok.entries) same
          hb enough ok.short (omega (arith, ok.few)) (omega (arith, ok.few)) st split)

allowed_size :
    (c : Config) (b : List ℕ) (n : ℕ) (w : Writer)
    → w.cfg ≡ c
    → length b ≡ n
    → check_fixed_size c (pos n) ≡ none
    → check_fixed_size w.cfg (pos (length b)) ≡ none
allowed_size c b n w same size fits =
    ap (λ t. check_fixed_size t (pos (length b))) same
    ∙ ap (λ t. check_fixed_size c (pos t)) size
    ∙ fits

module _ {S : Type 0} (parse : List ℕ → Error ⊎ S) (wc rc : Config) (order : List (List ℕ × List ℕ))
    (h : Header) (ok : Accepts rc order) (write_fixed : AllowsFixed wc)
    (read_fixed : AllowsFixed rc) (four : length h.magic ≡ 4) (sixteen : length h.sync ≡ 16)
    (iterates : Iterates h.meta order) where
  header_appended :
      (w : Writer)
      → w.cfg ≡ wc
      → w.error ≡ none
      → encode_header order h w ≡ append w (header_bytes wc order h)
  unfolding encode_header
  header_appended w same clean =
      let meta : List ℕ = meta_bytes wc order in
      let w1 : Writer = append w h.magic in
      let w2 : Writer = append w1 meta in
      let first : encode_field "Magic" (encode_fixed h.magic) w ≡ w1 =
        field_appended "Magic" (encode_fixed h.magic) w h.magic clean (
          fixed_appended h.magic w (allowed_size wc h.magic 4 w same four write_fixed.four)
            clean) in
      let second : encode_field "Meta" (write_meta order) w1 ≡ w2 =
        field_appended "Meta" (write_meta order) w1 meta clean
          (meta_appended wc rc order ok w1 same clean) in
      let third : encode_field "Sync" (encode_fixed h.sync) w2 ≡ append w2 h.sync =
        field_appended "Sync" (encode_fixed h.sync) w2 h.sync clean (
          fixed_appended h.sync w2 (allowed_size wc h.sync 16 w2 same sixteen write_fixed.sixteen)
            clean) in
      ap (λ t. encode_field "Sync" (encode_fixed h.sync) (encode_field "Meta" (write_meta order) t))
        first
      ∙ ap (λ t. encode_field "Sync" (encode_fixed h.sync) t) second
      ∙ third
      ∙ ap (λ t. record w { buf = t })
          (ap (λ t. t ++ h.sync) (append_assoc w.buf h.magic meta)
            ∙ append_assoc w.buf (h.magic ++ meta) h.sync)

  header_decoded :
      (rest : List ℕ) (r : Reader)
      → r.cfg ≡ rc
      → IsSteady r
      → stream r ≡ header_bytes wc order h ++ rest
      → Like h (decode_header r).0
        × IsSteady (decode_header r).1
        × (stream (decode_header r).1 ≡ rest)
  unfolding decode_header
  header_decoded rest r same st e =
      let meta : List ℕ = meta_bytes wc order in
      let split : stream r ≡ h.magic ++ (meta ++ (h.sync ++ rest)) =
        e
        ∙ append_assoc (h.magic ++ meta) h.sync rest
        ∙ append_assoc h.magic meta (h.sync ++ rest) in
      let ((magic, st1, left1), cfg1) =
        field_decoded "Magic" [] h.magic (decode_fixed 4) (meta ++ (h.sync ++ rest)) r st.no_error (
          fixed_decoded 4 h.magic (meta ++ (h.sync ++ rest)) r four
            (ap (λ t. check_fixed_size t (pos 4)) same ∙ read_fixed.four) st split) in
      let r1 : Reader = (decode_field "Magic" [] (decode_fixed 4) r).1 in
      let ((metadata, st2, left2), cfg2) =
        field_decoded "Meta" no_entries h.meta decode_meta (h.sync ++ rest) r1 st1.no_error (
          meta_decoded wc rc order ok (h.sync ++ rest) r1 h.meta iterates (cfg1 ∙ same) st1
            left1) in
      let r2 : Reader = (decode_field "Meta" no_entries decode_meta r1).1 in
      let ((sync, st3, left3), cfg3) =
        field_decoded "Sync" [] h.sync (decode_fixed 16) rest r2 st2.no_error (
          fixed_decoded 16 h.sync rest r2 sixteen
            (ap (λ t. check_fixed_size t (pos 16)) (cfg2 ∙ cfg1 ∙ same) ∙ read_fixed.sixteen) st2
            left2) in
      ((magic, sync, metadata), st3, left3)

  -- The codec of HeaderSchema writes a header, and reads it again, in whatever order the metadata come.
  pub header_codec-IsHeaderLawful :
      IsHeaderLawful (header_codec order parse) h (header_bytes wc order h) wc rc
  header_codec-IsHeaderLawful = record {
    writes = header_appended;
    reads = λ rest r same st four sixteen e. header_decoded rest r same st e;
  }
