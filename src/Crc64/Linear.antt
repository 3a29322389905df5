-- ===== src/Crc64/Linear.antt =====
-- The rounds of the table are linear over `^`, and take eight bits off the low end.
use Prim.Native.Nat.{differ}
use avro.Prelude.{
  ℕ, zero, suc, ◌*◌, ◌/◌, ◌%◌, ◌^◌, ◌<◌, bit_and, bit_xor, ◌≡◌, refl, sym, ◌∙◌, ap, arith,
}
use avro.Words.{negate}
use avro.Bits.{mul-pow-suc}
use avro.Bits.Xor.{
  bit_xor-half, bit_xor-parity, bit_xor_comm, bit_xor_assoc, bit_xor-zero, zero-bit_xor,
  bit_and-one, bit_xor-lt,
}
use avro.Crc64.{empty, round, rounds}

-- What a round adds, by the bit that it shifts out.
taps : ℕ → ℕ
taps zero = 0
taps (suc n) = empty

taps_lem : (fp : ℕ) → bit_and empty (negate 64 (bit_and fp 1)) ≡ taps (fp % 2)
unfolding taps
taps_lem fp = rw (bit_and-one fp) (go (fp % 2) (omega arith))
  where
    go : (b : ℕ) → b < 2 → bit_and empty (negate 64 b) ≡ taps b
    go zero h = refl
    go (suc zero) h = refl
    go (suc (suc b)) h = absurd (omega arith)

taps-differ : (x y : ℕ) → x < 2 → y < 2 → taps (differ x y) ≡ bit_xor (taps x) (taps y)
unfolding taps
taps-differ zero y hx hy = sym (zero-bit_xor (taps y))
taps-differ (suc zero) zero hx hy = refl
taps-differ (suc zero) (suc zero) hx hy = refl
taps-differ (suc zero) (suc (suc y)) hx hy = absurd (omega arith)
taps-differ (suc (suc x)) y hx hy = absurd (omega arith)

swap_middle :
    (a b c d : ℕ) → bit_xor (bit_xor a b) (bit_xor c d) ≡ bit_xor (bit_xor a c) (bit_xor b d)
swap_middle a b c d =
    bit_xor_assoc a b (bit_xor c d)
    ∙ ap (λ t. bit_xor a t)
        (sym (bit_xor_assoc b c d) ∙ ap (λ t. bit_xor t d) (bit_xor_comm b c) ∙ bit_xor_assoc c b d)
    ∙ sym (bit_xor_assoc a c (bit_xor b d))

round-taps : (fp : ℕ) → round fp ≡ bit_xor (fp / 2) (taps (fp % 2))
unfolding round
round-taps fp = ap (λ t. bit_xor (fp / 2) t) (taps_lem fp)

round-bit_xor : (a b : ℕ) → round (bit_xor a b) ≡ bit_xor (round a) (round b)
round-bit_xor a b =
    rw
      (
        round-taps (bit_xor a b),
        round-taps a,
        round-taps b,
        bit_xor-half a b,
        bit_xor-parity a b,
        taps-differ (a % 2) (b % 2) (omega arith) (omega arith),
      )
      (swap_middle (a / 2) (b / 2) (taps (a % 2)) (taps (b % 2)))

pub rounds-bit_xor : (n a b : ℕ) → rounds n (bit_xor a b) ≡ bit_xor (rounds n a) (rounds n b)
unfolding rounds
rounds-bit_xor zero a b = refl
rounds-bit_xor (suc n) a b =
    ap (rounds n) (round-bit_xor a b) ∙ rounds-bit_xor n (round a) (round b)

round_even : (x : ℕ) → round (2 * x) ≡ x
round_even x =
    let half : 2 * x / 2 ≡ x = omega arith in
    let even : 2 * x % 2 ≡ 0 = omega arith in
    rw (round-taps (2 * x), half, even) (unfold taps in bit_xor-zero x)

pub rounds_shifted : (n q : ℕ) → rounds n (q * 2 ^ n) ≡ q
unfolding rounds
rounds_shifted zero q = omega arith
rounds_shifted (suc n) q =
    ap (λ t. rounds n (round t)) (mul-pow-suc q n)
    ∙ ap (rounds n) (round_even (q * 2 ^ n))
    ∙ rounds_shifted n q

taps-lt : (b : ℕ) → taps b < 2 ^ 64
unfolding taps
taps-lt zero = omega arith
taps-lt (suc b) = omega arith

round-lt : (fp : ℕ) → fp < 2 ^ 64 → round fp < 2 ^ 64
round-lt fp h =
    rw (round-taps fp) (bit_xor-lt 64 (fp / 2) (taps (fp % 2)) (omega arith) (taps-lt (fp % 2)))

-- The rounds stay within 64 bits.
pub rounds-lt : (n fp : ℕ) → fp < 2 ^ 64 → rounds n fp < 2 ^ 64
unfolding rounds
rounds-lt zero fp h = h
rounds-lt (suc n) fp h = rounds-lt n (round fp) (round-lt fp h)
