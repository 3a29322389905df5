-- ===== src/Utf8.antt =====
-- `utf8.Valid` and `utf8.ValidString` of Go's standard library: the bytes are well-formed UTF-8.
use avro.Prelude.{
  ℕ, zero, suc, Bool, true, false, ◌&&◌, List, [], ◌∷◌, if◌then◌else◌, leb, ltb, ◌==◌,
}

-- What may follow a leading byte: how many continuation bytes, and the range of the first of them.
pub data Lead : Type 0 where
  follow : ℕ → ℕ → ℕ → Lead
  invalid : Lead

lead : ℕ → Lead
lead b =
    if ltb b 0x80
    then follow 0 0x80 0xbf
    else if ltb b 0xc2
    then invalid
    else if ltb b 0xe0
    then follow 1 0x80 0xbf
    else if b == 0xe0
    then follow 2 0xa0 0xbf
    else if b == 0xed
    then follow 2 0x80 0x9f
    else if ltb b 0xf0
    then follow 2 0x80 0xbf
    else if b == 0xf0
    then follow 3 0x90 0xbf
    else if ltb b 0xf4
    then follow 3 0x80 0xbf
    else if b == 0xf4
    then follow 3 0x80 0x8f
    else invalid

-- Where `n` continuation bytes are to come, the first of them in `lo..hi`.
utf8_from : ℕ → ℕ → ℕ → List ℕ → Bool
utf8_from zero lo hi [] = true
utf8_from (suc n) lo hi [] = false
utf8_from zero lo hi (b ∷ bs) = elim (lead b) [
  | follow n lo' hi' ↦ utf8_from n lo' hi' bs
  | invalid ↦ false
]
utf8_from (suc n) lo hi (b ∷ bs) = leb lo b && leb b hi && utf8_from n 0x80 0xbf bs

unfoldable pub utf8_valid : List ℕ → Bool
unfolding utf8_from lead
utf8_valid bs = utf8_from 0 0x80 0xbf bs
