-- ===== src/Registry/Headers.antt =====
-- registry/decoder.go: which header DecodeHeaders uses.
use avro.Prelude.{
  ℕ, ◌≡◌, refl, sym, ap, ◌∙◌, Bool, true, false, List, [], ◌∷◌, ◌++◌, reverse, All, bytes_equal,
  append_assoc,
}
use mathlib.Core.List.{reverse-append, reverse-cons}
use avro.Prelude.{All-append, append-nil}
use avro.Registry.{
  Header, Decoder, header_name, decode, use_header, decode_from_last, decode_headers,
}

abbrev pub IsOther : List ℕ → Header → Type 0
IsOther name h = bytes_equal h.key name ≡ false

All-reverse :
    (name : List ℕ) (hs : List Header) → All (IsOther name) hs → All (IsOther name) (reverse hs)
All-reverse name [] other = tt
All-reverse name (h ∷ hs) (other, others) =
    rw (reverse-cons h hs)
      (All-append (IsOther name) (reverse hs) (h ∷ []) (All-reverse name hs others) (other, tt))

module _ {S V : Type 0} (d : Decoder S V) (name data_read : List ℕ) (v : V) where
  pass_others :
      (hs rest : List Header)
      → All (IsOther name) hs
      → decode_from_last d name (hs ++ rest) data_read v ≡ decode_from_last d name rest data_read v
  unfolding decode_from_last
  pass_others [] rest others = refl
  pass_others (h ∷ hs) rest (other, others) = rw other (pass_others hs rest others)

  take_header :
      (h : Header) (rest : List Header)
      → bytes_equal h.key name ≡ true
      → decode_from_last d name (h ∷ rest) data_read v ≡ use_header d name h.value data_read v
  unfolding decode_from_last
  take_header h rest own = rw own refl

  no_header : decode_from_last d name [] data_read v ≡ decode d data_read v
  unfolding decode_from_last
  no_header = refl

-- DecodeHeaders uses the last of the headers with the name for a key or a value, whatever stands before
-- it, so that a bad one fails and never gives way to an earlier one. Of the headers after it alone, none
-- of which has the name, it uses none: it decodes the data with the number of a schema before it.
pub decode_headers-last :
    {S V : Type 0} (d : Decoder S V) (data_read : List ℕ) (key : Bool) (v : V)
    (before after : List Header) (h : Header)
    → bytes_equal h.key (header_name key) ≡ true
    → All (IsOther (header_name key)) after
    → (decode_headers d data_read (before ++ h ∷ after) key v
        ≡ use_header d (header_name key) h.value data_read v)
      × (decode_headers d data_read after key v ≡ decode d data_read v)
unfolding decode_headers
decode_headers-last d data_read key v before after h own others =
    let name : List ℕ = header_name key in
    let others' = All-reverse name after others in
    let turned : reverse (before ++ h ∷ after) ≡ reverse after ++ (h ∷ reverse before) =
      reverse-append before (h ∷ after)
      ∙ ap (λ t. t ++ reverse before) (reverse-cons h after)
      ∙ append_assoc (reverse after) (h ∷ []) (reverse before) in
    (
      ap (λ t. decode_from_last d name t data_read v) turned
          ∙ pass_others d name data_read v (reverse after) (h ∷ reverse before) others'
          ∙ take_header d name data_read v h (reverse before) own,
      ap (λ t. decode_from_last d name t data_read v) (sym (append-nil (reverse after)))
          ∙ pass_others d name data_read v (reverse after) [] others'
          ∙ no_header d name data_read v,
    )
