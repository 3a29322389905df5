-- ===== src/Bits.antt =====
-- Go's `&`, `|` and `^` on unsigned words, as arithmetic: fields that do not overlap, masks on one
-- byte, the complement by all ones, and the laws of `^`.
mod Step
pub mod Xor
use Step.{bit_or_step}
use Prim.Native.Nat.{bit_or-bitwise}
use native.Mathlib.Nat.{pow-suc}
use avro.Prelude.{
  ℕ, zero, suc, ◌+◌, ◌*◌, ◌/◌, ◌%◌, ◌^◌, ◌<◌, bit_and, bit_or, Bool, true, false, ◌≡◌, refl, arith,
  ap, ◌==◌, ==_iff, if◌then◌else◌, Bool-cases, inl, inr,
}

-- Whether a test passes on every number below a bound.
passes : (ℕ → Bool) → ℕ → Bool
passes test zero = true
passes test (suc bound) = if test bound then passes test bound else false

passes-at : (test : ℕ → Bool) (bound b : ℕ) → b < bound → passes test bound ≡ true → test b ≡ true
unfolding passes
passes-at test zero b lt all = absurd (omega arith)
passes-at test (suc bound) b lt all = elim (Bool-cases (b == bound)) [
  | inl last ↦ ground (arith, last)
  | inr before ↦ ground (arith, before, passes-at test bound b)
]

low_table : passes (λ x. bit_and x 0x7f == x % 128) 256 ≡ true
unfolding passes
low_table = refl

-- `b & 0x7f` on a byte.
pub low_seven : (b : ℕ) → b < 256 → bit_and b 0x7f ≡ b % 128
low_seven b h = (==_iff _ _).0 (passes-at _ 256 b h low_table)

top_table : passes (λ x. bit_and x 0x80 == x / 128 * 128) 256 ≡ true
unfolding passes
top_table = refl

-- `b & 0x80` on a byte.
pub top_bit : (b : ℕ) → b < 256 → bit_and b 0x80 ≡ b / 128 * 128
top_bit b h = (==_iff _ _).0 (passes-at _ 256 b h top_table)

set_table : passes (λ x. bit_or x 0x80 == x % 128 + 128) 256 ≡ true
unfolding passes
set_table = refl

-- `b | 0x80` on a byte.
pub set_top_bit : (b : ℕ) → b < 256 → bit_or b 0x80 ≡ b % 128 + 128
set_top_bit b h = (==_iff _ _).0 (passes-at _ 256 b h set_table)

pub mul-pow-suc : (g s : ℕ) → g * 2 ^ suc s ≡ 2 * (g * 2 ^ s)
mul-pow-suc g s = omega (arith, ap (λ (t : ℕ). g * t) (pow-suc 2 s))

zero-bit_or : (g : ℕ) → bit_or 0 g ≡ g
zero-bit_or g = bit_or-bitwise 0 g

-- `a | g << s` is a sum where `a` fits `s` bits.
pub bit_or_shifted : (s a g : ℕ) → a < 2 ^ s → bit_or a (g * 2 ^ s) ≡ a + g * 2 ^ s
bit_or_shifted zero zero g h = omega (arith, zero-bit_or (g * 2 ^ 0))
bit_or_shifted zero (suc a) g h = absurd (omega arith)
bit_or_shifted (suc s) a g h =
    ground (
      arith,
      bit_or_step a (g * 2 ^ suc s),
      mul-pow-suc g s,
      pow-suc 2 s,
      bit_or_shifted s (a / 2) g,
    )
