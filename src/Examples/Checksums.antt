-- ===== src/Examples/Checksums.antt =====
-- The CRC-64 on two bytes.
use avro.Prelude.{ℕ, ◌≡◌, ◌++◌, arith, List, [], ◌∷◌, length, reverse}
use avro.Crc64.{write, new_digest, sum, empty, little_endian, big_endian}
use avro.Crc64.Checksum.{bitwise_crc, sum-bitwise_crc, from_little}

sum-bitwise_crc_example :
    (bytes : List ℕ) × (sum
        (write (write (new_digest little_endian) (0x41 ∷ [])) (0x42 ∷ []))
        (1 ∷ [])
      ≡ (1 ∷ []) ++ bytes)
    × (sum (write (write (new_digest big_endian) (0x41 ∷ [])) (0x42 ∷ [])) (1 ∷ [])
        ≡ (1 ∷ []) ++ reverse bytes)
    × (from_little bytes ≡ bitwise_crc empty (0x41 ∷ 0x42 ∷ []))
    × (length bytes ≡ 8)
sum-bitwise_crc_example = sum-bitwise_crc (1 ∷ []) (0x41 ∷ []) (0x42 ∷ []) (ground arith)
