-- ===== src/Ocf/HeaderBytes.antt =====
-- ocf/ocf.go: the bytes of the fields of a header under HeaderSchema, and what is read of them.
use avro.Prelude.{
  ℕ, ◌^◌, ◌<◌, ◌≡◌, refl, sym, ◌∙◌, ap, arith, subst, String, true, none, List, [], ◌∷◌, ◌++◌,
  append_assoc, length, drop, All, inl, inr, if◌then◌else◌,
}
use avro.Prelude.Int.{pos}
use avro.Words.{zigzag_number}
use avro.Config.{Config}
use avro.Reader.State.{Reader, read_byte, load_if_empty, pop, report_unexpected_eof}
use avro.Reader.Stream.{stream, future, IsSteady}
use avro.Reader.Scan.{IsByte}
use avro.Reader.Copy.{load_if_empty-cases}
use avro.Reader.Strings.{cfg-load_if_empty, cfg-read_bytes}
use avro.Reader.Values.{read_bytes}
use avro.Writer.{Writer, append, write_bytes}
use avro.Writer.Varint.{groups}
use avro.RoundTrip.Numbers.{Returns}
use avro.RoundTrip.Bytes.{IsAllowed, read_bytes-write_bytes}
use avro.SkipCodec.{check_fixed_size}
use avro.ArrayCodec.{wrap_unless_eof}
use avro.ArrayCodec.Encoded.{long_appended}
use avro.ArrayCodec.Decoded.{Decodes}
use avro.MapCodec.Encoded.{key_bytes}
use avro.Ocf.HeaderFields.{
  append_clean, checked_encode, encode_fixed, read_each, checked_decode, decode_fixed, write_clean,
  bytes_value, encode_clean, encode_field, decode_clean, decode_field,
}

pub field_appended :
    (name : String) (encode : Writer → Writer) (w : Writer) (bs : List ℕ)
    → w.error ≡ none
    → encode w ≡ append w bs
    → encode_field name encode w ≡ append w bs
field_appended name encode w bs clean e =
    ap (λ t. encode_clean name encode w t) clean
    ∙ ap (λ (t : Writer). record t { error = wrap_unless_eof name t.error }) e
    ∙ ap (λ t. record (append w bs) { error = wrap_unless_eof name t }) clean
    ∙ ap (λ t. record (append w bs) { error = t }) (sym clean)

pub fixed_appended :
    (b : List ℕ) (w : Writer)
    → check_fixed_size w.cfg (pos (length b)) ≡ none
    → w.error ≡ none
    → encode_fixed b w ≡ append w b
unfolding encode_fixed
fixed_appended b w fits clean =
    ap (λ t. checked_encode b w t) fits ∙ ap (λ t. append_clean b w t) clean

pub field_decoded :
    {A : Type 0} (name : String) (zero_value x : A) (decode : Reader → A × Reader) (rest : List ℕ)
    (r : Reader)
    → r.error ≡ none
    → Decodes x rest r (decode r)
    → Decodes x rest r (decode_field name zero_value decode r)
field_decoded name zero_value x decode rest r clean ((value, st, left), cfg) =
    let r' : Reader = (decode r).1 in
    let whole : record r' { error = wrap_unless_eof name r'.error } ≡ r' =
      ap (λ t. record r' { error = wrap_unless_eof name t }) st.no_error
      ∙ ap (λ t. record r' { error = t }) (sym st.no_error) in
    subst (λ t. Decodes x rest r t)
      (sym (
        ap (λ t. decode_clean name zero_value decode r t) clean
        ∙ ap (λ t. ((decode r).0, t)) whole))
      ((value, st, left), cfg)

abbrev head_of : List ℕ → ℕ
head_of [] = 0
head_of (b ∷ bs) = b

pop-Returns :
    (us : List ℕ) (b : ℕ) (rest : List ℕ) (r : Reader)
    → r.unread ≡ us
    → IsSteady r
    → 0 < length us
    → us ++ future r.source ≡ b ∷ rest
    → Returns b rest (pop us r)
pop-Returns [] b rest r same st some_bytes e = absurd (omega arith)
pop-Returns (u ∷ us) b rest r same st some_bytes e = (
  ap head_of e,
  record {
    no_error = st.no_error;
    no_pending = st.no_pending;
    bytes = (subst (λ t. All IsByte t) same st.bytes).1;
    answers = st.answers;
  },
  ap (λ (t : List ℕ). drop 1 t) e,
)

loaded_byte :
    (r : Reader)
    → (load_if_empty r).0 ≡ true
    → read_byte r ≡ pop (load_if_empty r).1.unread (load_if_empty r).1
unfolding read_byte
loaded_byte r more =
    ap
      (λ t.
        if t
        then pop (load_if_empty r).1.unread (load_if_empty r).1
        else (0, report_unexpected_eof (load_if_empty r).1))
      more

cfg-pop : (us : List ℕ) (r : Reader) → (pop us r).1.cfg ≡ r.cfg
cfg-pop [] r = refl
cfg-pop (u ∷ us) r = refl

byte_read :
    (b : ℕ) (rest : List ℕ) (r : Reader)
    → IsSteady r
    → stream r ≡ b ∷ rest
    → Decodes b rest r (read_byte r)
byte_read b rest r st e = elim (load_if_empty-cases r st) [
  | inl (stop, at_end, gone) ↦ absurd (omega (arith, ap (λ (t : List ℕ). length t) (sym gone ∙ e)))
  | inr (more, st', same, some_bytes) ↦
      let r' : Reader = (load_if_empty r).1 in
      subst (λ t. Decodes b rest r t) (sym (loaded_byte r more))
        (
          pop-Returns r'.unread b rest r' refl st' some_bytes (same ∙ e),
          cfg-pop r'.unread r' ∙ cfg-load_if_empty r,
        )
]

each_read :
    (bs rest : List ℕ) (r : Reader)
    → IsSteady r
    → stream r ≡ bs ++ rest
    → Decodes bs rest r (read_each (length bs) r)
unfolding read_each
each_read [] rest r st e = ((refl, st, e), refl)
each_read (b ∷ bs) rest r st e =
    let ((value, st', left), cfg) = byte_read b (bs ++ rest) r st e in
    let ((values, st'', left'), cfg') = each_read bs rest (read_byte r).1 st' left in
    (
      (
        ap (λ t. t ∷ (read_each (length bs) (read_byte r).1).0) value ∙ ap (λ t. b ∷ t) values,
        st'',
        left',
      ),
      cfg' ∙ cfg,
    )

pub fixed_decoded :
    (n : ℕ) (bs rest : List ℕ) (r : Reader)
    → length bs ≡ n
    → check_fixed_size r.cfg (pos n) ≡ none
    → IsSteady r
    → stream r ≡ bs ++ rest
    → Decodes bs rest r (decode_fixed n r)
unfolding decode_fixed
fixed_decoded n bs rest r size fits st e =
    subst (λ t. Decodes bs rest r t)
      (ap (λ t. read_each t r) size ∙ sym (ap (λ t. checked_decode n r t) fits))
      (each_read bs rest r st e)

-- A value of the metadata that the limits let pass.
abbrev pub IsValue : Config → List ℕ → Type 0
IsValue c x = (length x < 2 ^ 63) × IsAllowed c (length x)

pub value_appended :
    (c : Config) (x : List ℕ) (w : Writer)
    → IsValue c x
    → w.error ≡ none
    → bytes_value.encode x w ≡ append w (key_bytes x)
unfolding write_bytes
value_appended c x w (short, ok) clean =
    ap (λ t. write_clean x w t) clean
    ∙ ap (λ (t : Writer). append t x) (long_appended w (pos (length x)) (omega arith))
    ∙ ap (λ t. record w { buf = t })
        (append_assoc w.buf (groups 9 (zigzag_number (pos (length x)))) x)

abbrev pub any_writer : Config → Writer
any_writer c = record { cfg = c; config_err = none; out = none; buf = []; error = none }

pub value_decoded :
    (c : Config) (x rest : List ℕ) (r : Reader)
    → IsValue c x
    → r.cfg ≡ c
    → IsSteady r
    → stream r ≡ key_bytes x ++ rest
    → Decodes x rest r (read_bytes r)
value_decoded c x rest r (short, ok) same st e = (
  read_bytes-write_bytes (any_writer c) x (key_bytes x) rest r
      (subst (λ t. IsAllowed t (length x)) (sym same) ok)
      (ap (λ (t : Writer). t.buf) (value_appended c x (any_writer c) (short, ok) refl)) st e,
  cfg-read_bytes r,
)
