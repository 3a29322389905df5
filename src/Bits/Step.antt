-- ===== src/Bits/Step.antt =====
-- One equation for the lowest binary digit of `&`, `|` and `^`. The libraries state the native
-- operations as a loop over the digits that counts down; the count is dropped here.
use Prim.Native.Nat.{max, digits, bitwise, differ, bit_and-bitwise, bit_or-bitwise, bit_xor-bitwise}
use avro.Prelude.{
  ℕ, zero, suc, ◌+◌, ◌-◌, ◌*◌, ◌/◌, ◌%◌, ◌≤◌, min, bit_and, bit_or, bit_xor, ◌≡◌, refl, sym, ◌∙◌,
  ap, arith,
}

module _ (z : ℕ → ℕ) (f : ℕ → ℕ → ℕ) where
  one_more : (count x y : ℕ) → x ≤ count → digits z f (suc count) x y ≡ digits z f count x y
  one_more zero zero y h = refl
  one_more (suc count) zero y h = refl
  one_more zero (suc x) y h = absurd (omega arith)
  one_more (suc count) (suc x) y h =
      ap (λ t. t * 2 + f (suc x % 2) (y % 2)) (one_more count (suc x / 2) (y / 2) (omega arith))

  any_more : (extra x y : ℕ) → digits z f (extra + x) x y ≡ digits z f x x y
  any_more zero x y = let e : 0 + x ≡ x = omega arith in ap (λ t. digits z f t x y) e
  any_more (suc extra) x y =
      let e : suc extra + x ≡ suc (extra + x) = omega arith in
      ap (λ t. digits z f t x y) e ∙ one_more (extra + x) x y (omega arith) ∙ any_more extra x y

  halved :
      (x y : ℕ)
      → bitwise z f (suc x) y ≡ bitwise z f (suc x / 2) (y / 2) * 2 + f (suc x % 2) (y % 2)
  halved x y =
      let half : ℕ = suc x / 2 in
      let count : x - half + half ≡ x = omega arith in
      let same : digits z f x half (y / 2) ≡ digits z f half half (y / 2) =
        ap (λ t. digits z f t half (y / 2)) (sym count) ∙ any_more (x - half) half (y / 2) in
      ap (λ t. t * 2 + f (suc x % 2) (y % 2)) same

  -- For an operation that is such a loop.
  lowest_digit :
      (op : ℕ → ℕ → ℕ)
      → ((x y : ℕ) → op x y ≡ bitwise z f x y)
      → ((y : ℕ) → z y ≡ z (y / 2) * 2 + f 0 (y % 2))
      → (x y : ℕ) → op x y ≡ op (x / 2) (y / 2) * 2 + f (x % 2) (y % 2)
  lowest_digit op loop ends zero y =
      loop 0 y ∙ ends y ∙ ap (λ t. t * 2 + f 0 (y % 2)) (sym (loop 0 (y / 2)))
  lowest_digit op loop ends (suc x) y =
      loop (suc x) y
      ∙ halved x y
      ∙ ap (λ t. t * 2 + f (suc x % 2) (y % 2)) (sym (loop (suc x / 2) (y / 2)))

pub bit_or_step : (x y : ℕ) → bit_or x y ≡ bit_or (x / 2) (y / 2) * 2 + max (x % 2) (y % 2)
bit_or_step x y = lowest_digit (λ y. y) max bit_or bit_or-bitwise (λ y. omega arith) x y

pub bit_and_step : (x y : ℕ) → bit_and x y ≡ bit_and (x / 2) (y / 2) * 2 + min (x % 2) (y % 2)
bit_and_step x y = lowest_digit (λ y. 0) min bit_and bit_and-bitwise (λ y. omega arith) x y

pub bit_xor_step : (x y : ℕ) → bit_xor x y ≡ bit_xor (x / 2) (y / 2) * 2 + differ (x % 2) (y % 2)
bit_xor_step x y = lowest_digit (λ y. y) differ bit_xor bit_xor-bitwise (λ y. omega arith) x y
