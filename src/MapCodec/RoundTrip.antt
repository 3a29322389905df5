-- ===== src/MapCodec/RoundTrip.antt =====
-- Maps of codec_map.go, encoded and decoded again.
use avro.Prelude.{
  ℕ, suc, ◌^◌, ◌≤◌, ◌<◌, ◌≡◌, refl, sym, ◌∙◌, ap, arith, subst, String, none, List, [], ◌∷◌, ◌++◌,
  append_assoc, append_cancel_left, length, All,
}
use avro.Config.{
  Config, get_max_map_alloc_size, get_block_length, get_block_length_positive,
  get_max_slice_alloc_size_bounds,
}
use avro.Reader.State.{Reader}
use avro.Reader.Stream.{stream, IsSteady}
use avro.Writer.{Writer, append}
use avro.RoundTrip.Numbers.{Returns}
use avro.RoundTrip.Bytes.{IsAllowed}
use avro.ArrayCodec.Encoded.{header_of, body, blocks_of}
use avro.ArrayCodec.Decoded.{Decodes}
use avro.MapCodec.{no_entries, ValueCodec, GoMap, encode_map, decode_rounds, decode_map}
use avro.MapCodec.Encoded.{IsKey, key_bytes, map_appended}
use avro.MapCodec.Decoded.{set_all, rounds_decoded}

-- What a map needs of the codec of its values, for the values that `allowed` holds of: to encode one
-- appends bytes that do not depend on the writer, and to decode these under the configuration of the
-- reader returns it.
pub record ValueLaws {V : Type 0} (value : ValueCodec V) (read_under : Config) : Type 1 where
  pub bytes_of : V → List ℕ
  pub allowed : V → Type 0
  pub encodes :
      (x : V) (w : Writer) → allowed x → w.error ≡ none → value.encode x w ≡ append w (bytes_of x)
  pub decodes :
      (x : V) (rest : List ℕ) (r : Reader)
      → allowed x
      → r.cfg ≡ read_under
      → IsSteady r
      → stream r ≡ bytes_of x ++ rest
      → Decodes x rest r (value.decode r)

abbrev pub entry_of : {V : Type 0} → (V → List ℕ) → List ℕ × V → List ℕ
entry_of bytes_of (key, x) = key_bytes key ++ bytes_of x

-- A key of valid UTF-8 that the limits let pass, and a value that the codec of values knows.
abbrev pub Passes : {V : Type 0} → (V → Type 0) → Config → List ℕ × V → Type 0
Passes allowed c (key, x) = (IsKey key × allowed x) × IsAllowed c (length key)

-- The map is what a Go map of these entries is.
abbrev pub Iterates : {V : Type 0} → GoMap V → List (List ℕ × V) → Type 0
Iterates m entries = set_all entries no_entries ≡ m

pub known :
    {V : Type 0} (allowed : V → Type 0) (c : Config) (entries : List (List ℕ × V))
    → All (Passes allowed c) entries
    → All (λ e. IsKey e.0 × allowed e.1) entries
known allowed c [] oks = tt
known allowed c ((key, x) ∷ entries) (ok, oks) = (ok.0, known allowed c entries oks)

pub fitting :
    {V : Type 0} (allowed : V → Type 0) (c : Config) (entries : List (List ℕ × V))
    → All (Passes allowed c) entries
    → All (λ e. IsAllowed c (length e.0)) entries
fitting allowed c [] oks = tt
fitting allowed c ((key, x) ∷ entries) (ok, oks) = (ok.1, fitting allowed c entries oks)

-- A map that a writer without an error encoded, in whatever order its entries came, in blocks of any
-- configured length and with or without their sizes, is what the map decoder makes of an empty map,
-- without an error, and it takes what was appended and no more. The codec of the values must do the same
-- for each value, the keys must be valid UTF-8 within the limits of the reader's configuration, the number
-- of entries within its limit, and the entries within 2 ^ 55 bytes. A round for each entry and one for the
-- end are enough.
pub decode_map-encode_map :
    {V : Type 0} (value : ValueCodec V) (typ elem_typ : String) (c : Config) (w : Writer)
    (m : GoMap V) (entries : List (List ℕ × V)) (sent rest : List ℕ) (r : Reader)
    (laws : ValueLaws value r.cfg)
    → Iterates m entries
    → All (Passes laws.allowed r.cfg) entries
    → w.error ≡ none
    → length (body (entry_of laws.bytes_of) entries) < 2 ^ 55
    → length entries ≤ get_max_map_alloc_size r.cfg
    → (encode_map value typ elem_typ (get_block_length c) entries w).buf ≡ w.buf ++ sent
    → IsSteady r
    → stream r ≡ sent ++ rest
    → Returns m rest (decode_map value typ elem_typ (suc (length entries)) r no_entries)
unfolding decode_map
decode_map-encode_map value typ elem_typ c w m entries sent rest r laws iterates oks clean hs limit
      appended st e =
    let hb : 0 < get_block_length c = get_block_length_positive c in
    let small = get_max_slice_alloc_size_bounds r.cfg in
    let keys = known laws.allowed r.cfg entries oks in
    let fits = fitting laws.allowed r.cfg entries oks in
    let encoded =
      map_appended value typ elem_typ laws.bytes_of laws.allowed laws.encodes (get_block_length c)
        entries w keys clean hb (omega arith) hs in
    let same = append_cancel_left w.buf _ _ (sym appended ∙ ap (λ (t : Writer). t.buf) encoded) in
    let split =
      e
      ∙ ap (λ t. t ++ rest) same
      ∙ append_assoc
          (blocks_of (entry_of laws.bytes_of) w.cfg (length entries) (get_block_length c) entries)
          (header_of w.cfg 0 0) rest in
    subst
      (λ t. Returns t rest (decode_rounds value typ elem_typ (suc (length entries)) 0 r no_entries))
      iterates
      (rounds_decoded value typ elem_typ laws.bytes_of laws.allowed laws.encodes r.cfg laws.decodes
        w (length entries) (get_block_length c) entries 0 rest r no_entries keys fits refl hb
        (omega arith) hs (omega arith) (omega arith) st split).0
