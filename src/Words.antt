-- ===== src/Words.antt =====
-- Go's fixed-width integers. A `uint32` or `uint64` is a number below 2 ^ 32 or 2 ^ 64; an `int32` or
-- `int64` is the integer that it stands for. `w` is the width.
use avro.Prelude.{
  ℕ, suc, ◌+◌, ◌-◌, ◌*◌, ◌/◌, ◌%◌, ◌^◌, ◌<◌, bit_and, bit_xor, ◌≡◌, arith, ltb, if◌then◌else◌, ◌∙◌,
}
use avro.Prelude.Int.{ℤ, pos, negsuc}
use avro.Bits.Xor.{bit_xor_ones, bit_xor-zero, bit_and-one}
use native.Mathlib.Nat.{pow-suc, one-le-pow, mod-eq_of_lt, div-eq_of_lt}

-- `uint32(i)`, `uint64(i)`: two's complement.
abbrev pub to_word : ℕ → ℤ → ℕ
to_word w (pos n) = n % 2 ^ w
to_word w (negsuc n) = 2 ^ w - 1 - n % 2 ^ w

-- `int32(v)`, `int64(v)`.
abbrev pub to_signed : ℕ → ℕ → ℤ
to_signed w v = if ltb v (2 ^ (w - 1)) then pos v else negsuc (2 ^ w - 1 - v)

-- `i >> k` on a signed word.
abbrev pub shift_right : ℤ → ℕ → ℤ
shift_right (pos n) k = pos (n / 2 ^ k)
shift_right (negsuc n) k = negsuc (n / 2 ^ k)

-- `-v` on an unsigned word.
abbrev pub negate : ℕ → ℕ → ℕ
negate w v = (2 ^ w - v) % 2 ^ w

-- The values of a signed type of `w` bits.
abbrev pub InRange : ℕ → ℤ → Type 0
InRange w (pos n) = n < 2 ^ (w - 1)
InRange w (negsuc n) = n < 2 ^ (w - 1)

-- `(uint32(i) << 1) ^ uint32(i>>31)` of WriteInt, `(uint64(i) << 1) ^ uint64(i>>63)` of WriteLong.
unfoldable pub zigzag : ℕ → ℤ → ℕ
zigzag w i = bit_xor (to_word w i * 2 % 2 ^ w) (to_word w (shift_right i (w - 1)))

-- `int32((value >> 1) ^ -(value & 1))` of ReadInt, and its 64-bit form in ReadLong.
unfoldable pub unzigzag : ℕ → ℕ → ℤ
unzigzag w v = to_signed w (bit_xor (v / 2) (negate w (bit_and v 1)))

-- What zig-zag coding is: 0, -1, 1, -2, 2, … are numbered in this order.
abbrev pub zigzag_number : ℤ → ℕ
zigzag_number (pos n) = 2 * n
zigzag_number (negsuc n) = 2 * n + 1

half_range : (k : ℕ) → 2 ^ (suc k - 1) ≡ 2 ^ k
half_range k = let e : suc k - 1 ≡ k = omega arith in rw e

double_range : (k : ℕ) → 2 ^ suc k ≡ 2 ^ k + 2 ^ k
double_range k = omega (arith, pow-suc 2 k)

mod_wrap : (x m : ℕ) → x < m → (x + m) % m ≡ x
mod_wrap x m h = grind arith

mod_self : (m : ℕ) → m % m ≡ 0
mod_self m = grind arith

pub zigzag_lem : (k : ℕ) (i : ℤ) → InRange (suc k) i → zigzag (suc k) i ≡ zigzag_number i
unfolding zigzag
zigzag_lem k (pos n) h =
    let small : n < 2 ^ k = rw (half_range k) at h in
    let fits : n % 2 ^ suc k ≡ n = mod-eq_of_lt (omega (arith, double_range k)) in
    let left : n * 2 % 2 ^ suc k ≡ n * 2 = mod-eq_of_lt (omega (arith, double_range k)) in
    let right : 0 % 2 ^ suc k ≡ 0 = mod-eq_of_lt (one-le-pow (suc k) 2 (omega arith)) in
    rw (fits, left, half_range k, div-eq_of_lt small, right) (bit_xor-zero (n * 2) ∙ omega arith)
zigzag_lem k (negsuc n) h =
    let small : n < 2 ^ k = rw (half_range k) at h in
    let fits : n % 2 ^ suc k ≡ n = mod-eq_of_lt (omega (arith, double_range k)) in
    let x : ℕ = 2 ^ suc k - 2 - 2 * n in
    let below : x < 2 ^ suc k = omega (arith, double_range k) in
    let twice : (2 ^ suc k - 1 - n) * 2 ≡ x + 2 ^ suc k = omega (arith, double_range k) in
    let right : 0 % 2 ^ suc k ≡ 0 = mod-eq_of_lt (one-le-pow (suc k) 2 (omega arith)) in
    let ones : 2 ^ suc k - 1 - 0 ≡ 2 ^ suc k - 1 = omega arith in
    rw
      (
        fits,
        twice,
        mod_wrap x (2 ^ suc k) below,
        half_range k,
        div-eq_of_lt small,
        right,
        ones,
        bit_xor_ones (suc k) x below,
      )
      (omega (arith, double_range k))

pub unzigzag_lem : (k : ℕ) (i : ℤ) → InRange (suc k) i → unzigzag (suc k) (zigzag_number i) ≡ i
unfolding unzigzag
unzigzag_lem k (pos n) h =
    let small : n < 2 ^ k = rw (half_range k) at h in
    let even : 2 * n % 2 ≡ 0 = omega arith in
    let none : 2 ^ suc k - 0 ≡ 2 ^ suc k = omega arith in
    let wrap : 2 ^ suc k % 2 ^ suc k ≡ 0 = mod_self (2 ^ suc k) in
    let half : 2 * n / 2 ≡ n = omega arith in
    rw (bit_and-one (2 * n), even, none, wrap, half, bit_xor-zero n, half_range k) (ground arith)
unzigzag_lem k (negsuc n) h =
    let small : n < 2 ^ k = rw (half_range k) at h in
    let wide : n < 2 ^ suc k = omega (arith, double_range k) in
    let odd : (2 * n + 1) % 2 ≡ 1 = omega arith in
    let ones : (2 ^ suc k - 1) % 2 ^ suc k ≡ 2 ^ suc k - 1 = mod-eq_of_lt (omega arith) in
    let half : (2 * n + 1) / 2 ≡ n = omega arith in
    rw (bit_and-one (2 * n + 1), odd, ones, half, bit_xor_ones (suc k) n wide, half_range k)
      (ground (arith, double_range k))
