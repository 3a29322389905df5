-- ===== src/Crc64/Checksum.antt =====
-- pkg/crc64/crc64.go: the checksum, and its bytes in each order.
use avro.Prelude.{
  ℕ, zero, suc, ◌+◌, ◌*◌, ◌/◌, ◌%◌, ◌^◌, ◌<◌, bit_and, bit_xor, ◌≡◌, refl, sym, ◌∙◌, ap, arith,
  List, [], ◌∷◌, ◌++◌, length, All, reverse,
}
use avro.Bits.Xor.{bit_xor-lt, bit_xor_comm, bit_xor_assoc, bit_xor_shifted, bit_and_byte}
use avro.Reader.Scan.{IsByte}
use avro.Crc64.{
  Digest, rounds, entries, make_table, at, update, update_all, write, new_digest, sum_bytes, sum,
  empty, ByteOrder, little_endian, big_endian,
}
use avro.Crc64.Linear.{rounds-bit_xor, rounds_shifted, rounds-lt}

at-entries : (count i j : ℕ) → j < count → at (entries count i) j ≡ rounds 8 (i + j)
unfolding at entries
at-entries zero i j h = absurd (omega arith)
at-entries (suc count) i zero h = let e : i + 0 ≡ i = omega arith in rw e
at-entries (suc count) i (suc j) h =
    let e : i + suc j ≡ suc i + j = omega arith in rw e (at-entries count (suc i) j (omega arith))

at-make_table : (j : ℕ) → j < 256 → at make_table j ≡ rounds 8 j
unfolding make_table
at-make_table j h = at-entries 256 0 j h ∙ ap (rounds 8) (omega arith)

-- A byte at a time, bit by bit: the definition of a CRC.
unfoldable pub bitwise_crc : ℕ → List ℕ → ℕ
bitwise_crc crc [] = crc
bitwise_crc crc (b ∷ bs) = bitwise_crc (rounds 8 (bit_xor crc b)) bs

-- `crc ^ b` keeps the high bytes of `crc`.
split_bytes :
    (crc b : ℕ) → b < 256 → bit_xor crc b ≡ bit_xor (bit_xor (crc % 256) b) (crc / 256 * 2 ^ 8)
split_bytes crc b h =
    let parts : bit_xor (crc % 256) (crc / 256 * 2 ^ 8) ≡ crc =
      bit_xor_shifted 8 (crc % 256) (crc / 256) (omega arith) ∙ omega arith in
    ap (λ t. bit_xor t b) (sym parts)
    ∙ bit_xor_assoc (crc % 256) (crc / 256 * 2 ^ 8) b
    ∙ ap (λ t. bit_xor (crc % 256) t) (bit_xor_comm (crc / 256 * 2 ^ 8) b)
    ∙ sym (bit_xor_assoc (crc % 256) b (crc / 256 * 2 ^ 8))

update_lem : (crc b : ℕ) → b < 256 → update make_table crc b ≡ rounds 8 (bit_xor crc b)
unfolding update
update_lem crc b h =
    let low : ℕ = bit_xor (crc % 256) b in
    let small : low < 256 = bit_xor-lt 8 (crc % 256) b (omega arith) h in
    let index : bit_and low 0xff ≡ low = bit_and_byte low ∙ omega arith in
    rw (index, at-make_table low small)
      (bit_xor_comm (crc / 256) (rounds 8 low)
        ∙ ap (λ t. bit_xor (rounds 8 low) t) (sym (rounds_shifted 8 (crc / 256)))
        ∙ sym (rounds-bit_xor 8 low (crc / 256 * 2 ^ 8))
        ∙ ap (rounds 8) (sym (split_bytes crc b h)))

update_all-bitwise :
    (bs : List ℕ) (crc : ℕ) → All IsByte bs → update_all make_table crc bs ≡ bitwise_crc crc bs
unfolding update_all bitwise_crc
update_all-bitwise [] crc h = refl
update_all-bitwise (b ∷ bs) crc (hb, hbs) =
    rw (update_lem crc b hb) (update_all-bitwise bs (rounds 8 (bit_xor crc b)) hbs)

-- On a digest with the package's table, whatever it has seen, Write of bytes computes the bitwise CRC
-- from the checksum so far, and changes nothing else.
pub write-bitwise_crc :
    (d : Digest) (p : List ℕ)
    → d.tab ≡ make_table
    → All IsByte p
    → write d p ≡ record d { crc = bitwise_crc d.crc p }
unfolding write
write-bitwise_crc d p table bytes =
    ap (λ t. record d { crc = t })
      (ap (λ t. update_all t d.crc p) table ∙ update_all-bitwise p d.crc bytes)

update_all-append :
    (tab : List ℕ) (p q : List ℕ) (crc : ℕ)
    → update_all tab crc (p ++ q) ≡ update_all tab (update_all tab crc p) q
unfolding update_all
update_all-append tab [] q crc = refl
update_all-append tab (b ∷ p) q crc = update_all-append tab p q (update tab crc b)

-- The number that bytes stand for, the lowest first.
abbrev pub from_little : List ℕ → ℕ
from_little [] = 0
from_little (b ∷ bs) = b + 256 * from_little bs

bitwise_crc-lt :
    (bs : List ℕ) (crc : ℕ) → crc < 2 ^ 64 → All IsByte bs → bitwise_crc crc bs < 2 ^ 64
unfolding bitwise_crc
bitwise_crc-lt [] crc h bytes = h
bitwise_crc-lt (b ∷ bs) crc h (hb, hbs) =
    bitwise_crc-lt bs _ (rounds-lt 8 (bit_xor crc b) (bit_xor-lt 64 crc b h (omega arith))) hbs

written : (order : ByteOrder) (p q : List ℕ) → Digest
written order p q = write (write (new_digest order) p) q

written_lem :
    (order : ByteOrder) (p q : List ℕ)
    → All IsByte (p ++ q)
    → written order p q
      ≡ record { crc = bitwise_crc empty (p ++ q); tab = make_table; byte_order = order }
unfolding written write new_digest
written_lem order p q bytes =
    ap (λ t. record { crc = t; tab = make_table; byte_order = order })
      (sym (update_all-append make_table p q empty) ∙ update_all-bitwise (p ++ q) empty bytes)

eight_bytes :
    (d : Digest) → d.byte_order ≡ little_endian → d.crc < 2 ^ 64 → from_little (sum_bytes d) ≡ d.crc
unfolding sum_bytes
eight_bytes d e h = rw e (omega arith)

-- A digest that was written to in two parts holds the bitwise CRC of the whole, from the empty
-- checksum on: Sum appends to its input eight bytes that read as that number, the lowest first in
-- little-endian order, and reversed in big-endian order.
pub sum-bitwise_crc :
    (input p q : List ℕ)
    → All IsByte (p ++ q)
    → (bytes : List ℕ) × (sum (write (write (new_digest little_endian) p) q) input ≡ input ++ bytes)
      × (sum (write (write (new_digest big_endian) p) q) input ≡ input ++ reverse bytes)
      × (from_little bytes ≡ bitwise_crc empty (p ++ q))
      × (length bytes ≡ 8)
unfolding written
sum-bitwise_crc input p q bytes =
    let d : Digest = record {
      crc = bitwise_crc empty (p ++ q);
      tab = make_table;
      byte_order = little_endian;
    } in
    (
      sum_bytes d,
      rw (written_lem little_endian p q bytes) (unfold sum in refl),
      rw (written_lem big_endian p q bytes) (unfold sum in refl),
      eight_bytes d refl (bitwise_crc-lt (p ++ q) empty (omega arith) bytes),
      unfold sum_bytes in refl,
    )
