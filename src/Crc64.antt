-- ===== src/Crc64.antt =====
-- pkg/crc64/crc64.go: the CRC-64 of Avro, byte by byte over a table.
pub mod Linear
pub mod Checksum
use avro.Prelude.{
  ℕ, zero, suc, ◌+◌, ◌-◌, ◌*◌, ◌/◌, ◌%◌, ◌^◌, bit_and, bit_xor, List, [], ◌∷◌, ◌++◌, length,
}
use avro.Words.{negate}

pub data ByteOrder : Type 0 where
  little_endian big_endian : ByteOrder

-- The empty checksum.
abbrev pub empty : ℕ
empty = 0xc15d_213a_a4d7_a795

-- `fp = (fp >> 1) ^ (Empty & -(fp & 1))`
unfoldable pub round : ℕ → ℕ
round fp = bit_xor (fp / 2) (bit_and empty (negate 64 (bit_and fp 1)))

unfoldable pub rounds : ℕ → ℕ → ℕ
rounds zero fp = fp
rounds (suc n) fp = rounds n (round fp)

-- `count` entries of the table, from index `i` on.
unfoldable pub entries : ℕ → ℕ → List ℕ
entries zero i = []
entries (suc count) i = rounds 8 i ∷ entries count (suc i)

unfoldable pub make_table : List ℕ
unfolding entries
make_table = entries 256 0

pub record Digest : Type 0 where
  pub crc : ℕ
  pub tab : List ℕ
  pub byte_order : ByteOrder

unfoldable pub new_digest : ByteOrder → Digest
unfolding make_table
new_digest byte_order = record { crc = empty; tab = make_table; byte_order = byte_order }

unfoldable pub reset : Digest → Digest
reset d = record d { crc = empty }

-- `d.tab[i]`, where the index is below 256.
unfoldable pub at : List ℕ → ℕ → ℕ
at [] i = 0
at (t ∷ ts) zero = t
at (t ∷ ts) (suc i) = at ts i

-- `(d.crc >> 8) ^ d.tab[(int)(byte(d.crc)^p[i])&0xff]`
unfoldable pub update : List ℕ → ℕ → ℕ → ℕ
unfolding at
update tab crc b = bit_xor (crc / 256) (at tab (bit_and (bit_xor (crc % 256) b) 0xff))

unfoldable pub update_all : List ℕ → ℕ → List ℕ → ℕ
unfolding update
update_all tab crc [] = crc
update_all tab crc (b ∷ bs) = update_all tab (update tab crc b) bs

unfoldable pub write : Digest → List ℕ → Digest
write d p = record d { crc = update_all d.tab d.crc p }

abbrev byte : ℕ → ℕ → ℕ
byte s k = s / 2 ^ k % 256

unfoldable pub sum_bytes : Digest → List ℕ
sum_bytes d = elim d.byte_order [
  | little_endian ↦
      byte d.crc 0
      ∷ byte d.crc 8
      ∷ byte d.crc 16
      ∷ byte d.crc 24
      ∷ byte d.crc 32
      ∷ byte d.crc 40
      ∷ byte d.crc 48
      ∷ byte d.crc 56
      ∷ []
  | big_endian ↦
      byte d.crc 56
      ∷ byte d.crc 48
      ∷ byte d.crc 40
      ∷ byte d.crc 32
      ∷ byte d.crc 24
      ∷ byte d.crc 16
      ∷ byte d.crc 8
      ∷ byte d.crc 0
      ∷ []
]

-- `Sum(in)` of a digest.
unfoldable pub sum : Digest → List ℕ → List ℕ
unfolding sum_bytes
sum d input = input ++ sum_bytes d

unfoldable pub sum_with_byte_order : List ℕ → ByteOrder → List ℕ
sum_with_byte_order bytes order = sum_bytes (write (new_digest order) bytes)
