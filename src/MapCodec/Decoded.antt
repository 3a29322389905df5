-- ===== src/MapCodec/Decoded.antt =====
-- The map decoder of codec_map.go on the bytes that the encoder appends.
use avro.Prelude.{
  ℕ, zero, suc, ◌+◌, ◌^◌, ◌≤◌, ◌<◌, ◌≡◌, refl, sym, ◌∙◌, ap, arith, subst, String, Bool, true,
  false, Option, none, some, List, [], ◌∷◌, ◌++◌, append_assoc, length, take, drop, length-take,
  length-drop, take-append-drop, All, All-take, All-drop,
}
use avro.Prelude.Int.{pos}
use avro.Errors.{Error, wrap}
use avro.Config.{Config, get_max_map_alloc_size}
use avro.Reader.State.{Reader}
use avro.Reader.Values.{read_block_header, read_string}
use avro.Reader.Stream.{stream, IsSteady}
use avro.Reader.Strings.{cfg-read_string}
use avro.Writer.{Writer, append}
use avro.RoundTrip.Bytes.{IsAllowed, read_string-write_string}
use avro.ArrayCodec.Encoded.{header_of, body, block_of, blocks_of, body-parts}
use avro.ArrayCodec.Decoded.{Decodes, header_read, end_read, cfg-read_block_header}
use avro.MapCodec.{ValueCodec, GoMap, set_index, decode_entries, decode_rounds}
use avro.MapCodec.Encoded.{IsKey, key_bytes, write_string-append, entry_bytes, IsEntry}

-- The map after its entries are set, one after the other.
unfoldable pub set_all : {V : Type 0} → List (List ℕ × V) → GoMap V → GoMap V
set_all [] m = m
set_all ((key, x) ∷ entries) m = set_all entries (set_index key x m)

set_all-append :
    {V : Type 0} (xs ys : List (List ℕ × V)) (m : GoMap V)
    → set_all (xs ++ ys) m ≡ set_all ys (set_all xs m)
unfolding set_all
set_all-append [] ys m = refl
set_all-append ((key, x) ∷ xs) ys m = set_all-append xs ys (set_index key x m)

set_all-parts :
    {V : Type 0} (n : ℕ) (entries : List (List ℕ × V)) (m : GoMap V)
    → set_all (drop n entries) (set_all (take n entries) m) ≡ set_all entries m
set_all-parts n entries m =
    sym (set_all-append (take n entries) (drop n entries) m)
    ∙ ap (λ t. set_all t m) (take-append-drop n entries)

abbrev any_writer : Config → Writer
any_writer c = record { cfg = c; config_err = none; out = none; buf = []; error = none }

key_read :
    (key rest : List ℕ) (r : Reader)
    → IsKey key
    → IsAllowed r.cfg (length key)
    → IsSteady r
    → stream r ≡ key_bytes key ++ rest
    → Decodes key rest r (read_string r)
key_read key rest r (valid, short) ok st e = (
  read_string-write_string (any_writer r.cfg) key (key_bytes key) rest r refl valid ok
      (ap (λ (t : Writer). t.buf) (write_string-append key (any_writer r.cfg) (valid, short) refl))
      st e,
  cfg-read_string r,
)

-- The limits let the key of an entry pass.
abbrev pub Fits : {V : Type 0} → Config → List ℕ × V → Type 0
Fits c (key, x) = IsAllowed c (length key)

module _ {V : Type 0} (value : ValueCodec V) (typ elem_typ : String) (bytes_of : V → List ℕ)
    (allowed : V → Type 0)
    (encodes : (x : V) (w : Writer)
      → allowed x
      → w.error ≡ none
      → value.encode x w ≡ append w (bytes_of x))
    (c : Config)
    (decodes : (x : V) (rest : List ℕ) (r : Reader)
      → allowed x
      → r.cfg ≡ c
      → IsSteady r
      → stream r ≡ bytes_of x ++ rest
      → Decodes x rest r (value.decode r)) where
  abbrev pub bytes_in : List ℕ × V → List ℕ
  bytes_in e = entry_bytes value typ elem_typ bytes_of allowed encodes e

  abbrev pub IsIn : List ℕ × V → Type 0
  IsIn e = IsEntry value typ elem_typ bytes_of allowed encodes e

  after_value : ℕ → GoMap V → List ℕ → V → Reader → Option Error → (Bool × GoMap V) × Reader
  after_value left m key x r none = decode_entries value typ elem_typ left r (set_index key x m)
  after_value left m key x r (some e) = ((false, m), record r { error = some (wrap elem_typ e) })

  entry_step :
      (left : ℕ) (key : List ℕ) (x : V) (m : GoMap V) (r : Reader)
      → (read_string r).0 ≡ key
      → (value.decode (read_string r).1).0 ≡ x
      → (value.decode (read_string r).1).1.error ≡ none
      → decode_entries value typ elem_typ (suc left) r m
        ≡ decode_entries value typ elem_typ left
            (value.decode (read_string r).1).1
            (set_index key x m)
  unfolding after_value
  entry_step left key x m r named valued clean =
      let r2 : Reader = (value.decode (read_string r).1).1 in
      let open_step : decode_entries value typ elem_typ (suc left) r m
          ≡ after_value left m (read_string r).0 (value.decode (read_string r).1).0 r2 r2.error =
        unfold decode_entries in refl in
      open_step
      ∙ ap (λ t. after_value left m t (value.decode (read_string r).1).0 r2 r2.error) named
      ∙ ap (λ t. after_value left m key t r2 r2.error) valued
      ∙ ap (λ t. after_value left m key x r2 t) clean

  entries_decoded :
      (entries : List (List ℕ × V)) (rest : List ℕ) (r : Reader) (m : GoMap V)
      → All IsIn entries
      → All (Fits c) entries
      → r.cfg ≡ c
      → IsSteady r
      → stream r ≡ body bytes_in entries ++ rest
      → Decodes
          (true, set_all entries m)
          rest
          r
          (decode_entries value typ elem_typ (length entries) r m)
  unfolding set_all
  entries_decoded [] rest r m oks fits same st e = unfold decode_entries in ((refl, st, e), refl)
  entries_decoded ((key, x) ∷ entries) rest r m ((ok, ok'), oks) (fit, fits) same st e =
      let after : List ℕ = body bytes_in entries ++ rest in
      let split : stream r ≡ key_bytes key ++ (bytes_of x ++ after) =
        e
        ∙ append_assoc (key_bytes key ++ bytes_of x) (body bytes_in entries) rest
        ∙ append_assoc (key_bytes key) (bytes_of x) after in
      let ((named, st1, left1), cfg1) =
        key_read key (bytes_of x ++ after) r ok
          (subst (λ t. IsAllowed t (length key)) (sym same) fit) st split in
      let ((valued, st2, left2), cfg2) =
        decodes x after (read_string r).1 ok' (cfg1 ∙ same) st1 left1 in
      let kept = cfg2 ∙ cfg1 in
      let ((values, st3, left3), cfg3) =
        entries_decoded entries rest (value.decode (read_string r).1).1 (set_index key x m) oks fits
          (kept ∙ same) st2 left2 in
      subst (λ t. Decodes (true, set_all entries (set_index key x m)) rest r t)
        (sym (entry_step (length entries) key x m r named valued st2.no_error))
        ((values, st3, left3), cfg3 ∙ kept)

  end_round :
      (fuel size : ℕ) (r : Reader) (m : GoMap V)
      → (read_block_header r).0.0 ≡ pos 0
      → (read_block_header r).1.error ≡ none
      → decode_rounds value typ elem_typ (suc fuel) size r m ≡ (m, (read_block_header r).1)
  unfolding decode_rounds
  end_round fuel size r m count clean = ground (arith, count, clean)

  after_entries : ℕ → ℕ → (Bool × GoMap V) × Reader → GoMap V × Reader
  after_entries fuel size ((true, m), r) = decode_rounds value typ elem_typ fuel size r m
  after_entries fuel size ((false, m), r) = (m, r)

  block_round :
      (fuel size l : ℕ) (r : Reader) (m : GoMap V)
      → 0 < l
      → (read_block_header r).0.0 ≡ pos l
      → (read_block_header r).1.error ≡ none
      → size + l ≤ get_max_map_alloc_size r.cfg
      → decode_rounds value typ elem_typ (suc fuel) size r m
        ≡ after_entries fuel
            (size + l)
            (decode_entries value typ elem_typ l (read_block_header r).1 m)
  unfolding decode_rounds after_entries
  block_round fuel size l r m some_entries count clean limit = ground (arith, count, clean, limit)

  next_round :
      (fuel size : ℕ) (m : GoMap V) (out : (Bool × GoMap V) × Reader)
      → out.0 ≡ (true, m)
      → after_entries fuel size out ≡ decode_rounds value typ elem_typ fuel size out.1 m
  unfolding after_entries
  next_round fuel size m out e = ap (λ t. after_entries fuel size (t, out.1)) e

  pub rounds_decoded :
      (w : Writer) (fuel block_length : ℕ) (entries : List (List ℕ × V)) (size : ℕ) (rest : List ℕ)
      (r : Reader) (m : GoMap V)
      → All IsIn entries
      → All (Fits c) entries
      → r.cfg ≡ c
      → 0 < block_length
      → length entries ≤ fuel
      → length (body bytes_in entries) < 2 ^ 55
      → length entries < 2 ^ 63
      → size + length entries ≤ get_max_map_alloc_size c
      → IsSteady r
      → stream r
        ≡ blocks_of bytes_in w.cfg fuel block_length entries ++ (header_of w.cfg 0 0 ++ rest)
      → Decodes (set_all entries m) rest r (decode_rounds value typ elem_typ (suc fuel) size r m)
  unfolding blocks_of
  rounds_decoded w fuel block_length [] size rest r m oks fits same hb hf hs hn limit st e =
      let (header, st', left) = end_read w rest r st e in
      subst (λ t. Decodes (set_all [] m) rest r t)
        (sym (end_round fuel size r m (ap (λ t. t.0) header) st'.no_error))
        (unfold set_all in ((refl, st', left), cfg-read_block_header r))
  rounds_decoded w zero block_length (x ∷ xs) size rest r m oks fits same hb hf hs hn limit st e =
      absurd (omega arith)
  rounds_decoded w (suc fuel) block_length (x ∷ xs) size rest r m oks fits same hb hf hs hn limit st
        e =
      let entries : List (List ℕ × V) = x ∷ xs in
      let ys : List (List ℕ × V) = take block_length entries in
      let zs : List (List ℕ × V) = drop block_length entries in
      let ny = length-take block_length entries in
      let nz = length-drop block_length entries in
      let parts = body-parts bytes_in block_length entries in
      let after : List ℕ =
        blocks_of bytes_in w.cfg fuel block_length zs ++ (header_of w.cfg 0 0 ++ rest) in
      let head : List ℕ = header_of w.cfg (length ys) (length (body bytes_in ys)) in
      let split : stream r ≡ head ++ (body bytes_in ys ++ after) =
        e
        ∙ append_assoc (block_of bytes_in w.cfg ys) (blocks_of bytes_in w.cfg fuel block_length zs)
            _
        ∙ append_assoc head (body bytes_in ys) after in
      let (header, st', left) =
        header_read w (length ys) (length (body bytes_in ys)) (body bytes_in ys ++ after) r
          (omega arith) (omega arith) (omega arith) st split in
      let r' : Reader = (read_block_header r).1 in
      let same' : r'.cfg ≡ c = cfg-read_block_header r ∙ same in
      let ((read_all_of, st2, left2), cfg2) =
        entries_decoded ys after r' m (All-take IsIn block_length entries oks)
          (All-take (Fits c) block_length entries fits) same' st' left in
      let out : (Bool × GoMap V) × Reader = decode_entries value typ elem_typ (length ys) r' m in
      let (later, cfg3) =
        rounds_decoded w fuel block_length zs (size + length ys) rest out.1 (set_all ys m)
          (All-drop IsIn block_length entries oks) (All-drop (Fits c) block_length entries fits)
          (cfg2 ∙ same') hb (omega arith) (omega arith) (omega arith) (omega arith) st2 left2 in
      let limit' : size + length ys ≤ get_max_map_alloc_size r.cfg =
        subst (λ t. size + length ys ≤ get_max_map_alloc_size t) (sym same) (omega arith) in
      let first =
        block_round (suc fuel) size (length ys) r m (omega arith) (ap (λ t. t.0) header)
          st'.no_error limit' in
      let then_next = next_round (suc fuel) (size + length ys) (set_all ys m) out read_all_of in
      subst (λ t. Decodes t rest r (decode_rounds value typ elem_typ (suc (suc fuel)) size r m))
        (set_all-parts block_length entries m)
        (subst (λ t. Decodes (set_all zs (set_all ys m)) rest r t) (sym (first ∙ then_next))
          (later, cfg3 ∙ cfg2 ∙ cfg-read_block_header r))
