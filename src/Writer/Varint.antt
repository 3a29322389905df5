-- ===== src/Writer/Varint.antt =====
-- The bytes that WriteInt and WriteLong of writer.go append, in plain arithmetic.
use avro.Prelude.{
  ℕ, zero, suc, ◌+◌, ◌/◌, ◌%◌, ◌^◌, ◌≤◌, ◌<◌, bit_or, ◌≡◌, sym, ◌∙◌, arith, List, [], ◌∷◌, ◌++◌,
  append_assoc, if◌then◌else◌, ltb, length, All,
}
use native.Mathlib.Nat.{pow-suc}
use avro.Bits.{set_top_bit}
use avro.Writer.{append_uvarint, append_varint}
use avro.Reader.Scan.{IsByte}

-- The groups of seven bits of `u`, the lowest first, each but the last with its top bit set.
unfoldable pub groups : ℕ → ℕ → List ℕ
groups zero u = u ∷ []
groups (suc n) u =
    let rest = groups n (u / 128) in if ltb u 128 then u ∷ [] else (u % 128 + 128) ∷ rest

low_byte : (u : ℕ) → bit_or (u % 256) 0x80 ≡ u % 128 + 128
low_byte u = set_top_bit (u % 256) (omega arith) ∙ omega arith

append_uvarint-groups :
    (n : ℕ) (buffer : List ℕ) (u : ℕ)
    → u < 128 ^ suc n
    → append_uvarint n buffer u ≡ buffer ++ groups n u
unfolding append_uvarint groups
append_uvarint-groups zero buffer u h = let e : u % 256 ≡ u = omega arith in rw e
append_uvarint-groups (suc n) buffer u h = ground (
  arith,
  low_byte u,
  append_uvarint-groups n (buffer ++ (u % 128 + 128) ∷ []) (u / 128)
      (omega (arith, pow-suc 128 (suc n))),
  append_assoc buffer ((u % 128 + 128) ∷ []) (groups n (u / 128)),
)

pub groups_one : (n u : ℕ) → u < 128 → groups (suc n) u ≡ u ∷ []
unfolding groups
groups_one n u h = ground arith

pub groups_more : (n u : ℕ) → 128 ≤ u → groups (suc n) u ≡ (u % 128 + 128) ∷ groups n (u / 128)
unfolding groups
groups_more n u h = ground arith

-- The one and two byte shortcuts of appendVarint write what the loop writes.
pub append_varint-groups :
    (buffer : List ℕ) (u : ℕ) → u < 2 ^ 64 → append_varint buffer u ≡ buffer ++ groups 9 u
unfolding append_varint
append_varint-groups buffer u h = ground (
  arith,
  append_uvarint-groups 9 buffer u,
  groups_one 8 u,
  groups_more 8 u,
  groups_one 7 (u / 128),
  low_byte u,
)

-- On 64-bit numbers the one and two byte shortcuts of the writer append what the standard library's
-- AppendUvarint appends.
pub append_varint-append_uvarint :
    (buffer : List ℕ) (u : ℕ) → u < 2 ^ 64 → append_varint buffer u ≡ append_uvarint 9 buffer u
append_varint-append_uvarint buffer u h =
    append_varint-groups buffer u h ∙ sym (append_uvarint-groups 9 buffer u (omega arith))

pub groups-IsByte : (n u : ℕ) → u < 128 ^ suc n → All IsByte (groups n u)
unfolding groups
groups-IsByte zero u h = omega arith
groups-IsByte (suc n) u h =
    ground (arith, groups-IsByte n (u / 128) (omega (arith, pow-suc 128 (suc n))))

pub length-groups : (n u : ℕ) → (1 ≤ length (groups n u)) × (length (groups n u) ≤ n + 1)
unfolding groups
length-groups zero u = omega arith
length-groups (suc n) u = ground (arith, length-groups n (u / 128))

pub length-groups_small : (n k u : ℕ) → u < 128 ^ suc k → length (groups n u) ≤ k + 1
unfolding groups
length-groups_small zero k u h = omega arith
length-groups_small (suc n) zero u h = ground arith
length-groups_small (suc n) (suc k) u h =
    ground (arith, length-groups_small n k (u / 128) (omega (arith, pow-suc 128 (suc k))))
