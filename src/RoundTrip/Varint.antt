-- ===== src/RoundTrip/Varint.antt =====
-- ReadInt and ReadLong of reader.go on the bytes of WriteInt and WriteLong of writer.go.
use avro.Prelude.{
  ℕ, zero, suc, ◌+◌, ◌-◌, ◌*◌, ◌/◌, ◌%◌, ◌^◌, ◌≤◌, ◌<◌, ◌≡◌, ◌∙◌, ap, arith, List, ◌∷◌, ◌++◌,
  length, ltb, Bool-cases, inl, inr, ltb→lt, ◌≢◌,
}
use native.Mathlib.Nat.{pow-suc, mod-eq_of_lt, div-add-mod}
use native.Mathlib.Numerals.{towards_suc}
use avro.Bits.{low_seven, top_bit, bit_or_shifted}
use avro.Reader.Varint.{Width, found, scan, add_group}
use avro.Reader.Scan.{IsWidth}
use avro.Writer.Varint.{groups, groups_one, groups_more}

shift_seven : (s : ℕ) → 2 ^ (s + 7) ≡ 128 * 2 ^ s
shift_seven s = simp towards_suc (omega arith)

-- The lowest group of `u` and the rest, both shifted by `s`.
split_group : (u s : ℕ) → u * 2 ^ s ≡ u % 128 * 2 ^ s + u / 128 * 2 ^ (s + 7)
split_group u s = omega (
  arith,
  ap (λ (t : ℕ). t * 2 ^ s) (div-add-mod u 128),
  ap (λ (t : ℕ). u / 128 * t) (shift_seven s),
)

group-lt : (u s : ℕ) → u % 128 * 2 ^ s ≤ 127 * 2 ^ s
group-lt u s = grind arith

cancel : (a b p : ℕ) → a * p < b * p → a < b
cancel a b p h = grind arith

module _ (w : Width) (ok : IsWidth w) where
  group-value :
      (v s b : ℕ)
      → b < 256
      → v < 2 ^ s
      → b % 128 * 2 ^ s < 2 ^ w.bits
      → add_group w v s b ≡ v + b % 128 * 2 ^ s
  group-value v s b byte low fits =
      rw (low_seven b byte, mod-eq_of_lt fits) (bit_or_shifted s v (b % 128) low)

  -- At the last byte that a number can have, what is left of it fits that byte.
  last_group :
      (v s u c : ℕ)
      → s ≡ 7 * c
      → c ≡ w.max_buf_size - 1
      → v + u * 2 ^ s < 2 ^ w.bits
      → u ≤ w.max_last_byte
  last_group v s u c hs hc fits =
      let same : s ≡ 7 * (w.max_buf_size - 1) = hs ∙ ap (λ t. 7 * t) hc in
      let whole : (w.max_last_byte + 1) * 2 ^ s ≡ 2 ^ w.bits = rw same ok.exact in
      let less : u < w.max_last_byte + 1 = cancel u (w.max_last_byte + 1) (2 ^ s) (omega arith) in
      omega arith

  last_scan :
      (c v s u : ℕ) (rest : List ℕ)
      → s ≡ 7 * c
      → u < 128
      → v < 2 ^ s
      → v + u * 2 ^ s < 2 ^ w.bits
      → scan w c v s (u ∷ rest) ≡ found (v + u * 2 ^ s) (c + 1)
  unfolding scan
  last_scan c v s u rest hs small low fits =
      let whole : u % 128 ≡ u = omega arith in
      let value : add_group w v s u ≡ v + u * 2 ^ s =
        group-value v s u (omega arith) low (rw whole (omega arith))
        ∙ ap (λ t. v + t * 2 ^ s) whole in
      rw value (ground (arith, top_bit u, last_group v s u c hs))

  inner_scan :
      (c v s g : ℕ) (rest : List ℕ)
      → c ≢ w.max_buf_size - 1
      → g < 128
      → v < 2 ^ s
      → v + g * 2 ^ s < 2 ^ w.bits
      → scan w c v s ((g + 128) ∷ rest) ≡ scan w (c + 1) (v + g * 2 ^ s) (s + 7) rest
  unfolding scan
  inner_scan c v s g rest ne small low fits =
      let whole : (g + 128) % 128 ≡ g = omega arith in
      let value : add_group w v s (g + 128) ≡ v + g * 2 ^ s =
        group-value v s (g + 128) (omega arith) low (rw whole (omega arith))
        ∙ ap (λ t. v + t * 2 ^ s) whole in
      rw value (ground (arith, top_bit (g + 128)))

  pub scan-groups :
      (n c v s u : ℕ) (rest : List ℕ)
      → s ≡ 7 * c
      → c < w.max_buf_size
      → u < 128 ^ suc n
      → v < 2 ^ s
      → v + u * 2 ^ s < 2 ^ w.bits
      → scan w c v s (groups n u ++ rest) ≡ found (v + u * 2 ^ s) (c + length (groups n u))
  scan-groups zero c v s u rest hs lt small low fits =
      unfold groups in last_scan c v s u rest hs small low fits
  scan-groups (suc n) c v s u rest hs lt small low fits = elim (Bool-cases (ltb u 128)) [
    | inl short ↦
        rw (groups_one n u (ltb→lt u 128 short))
          (last_scan c v s u rest hs (ltb→lt u 128 short) low fits)
    | inr long ↦
        let big : 128 ≤ u = ground arith in
        let inner : c ≢ w.max_buf_size - 1 =
          λ q. omega (arith, last_group v s u c hs q fits, ok.ends) in
        let split = split_group u s in
        let v' : ℕ = v + u % 128 * 2 ^ s in
        let low' : v' < 2 ^ (s + 7) = omega (arith, shift_seven s, group-lt u s) in
        let count : c + 1 + length (groups n (u / 128)) ≡ c + suc (length (groups n (u / 128))) =
          omega arith in
        let value : v' + u / 128 * 2 ^ (s + 7) ≡ v + u * 2 ^ s = omega arith in
        rw (groups_more n u big, ← count, ← value)
          (inner_scan c v s (u % 128) (groups n (u / 128) ++ rest) inner (omega arith) low
              (omega arith)
            ∙ scan-groups n (c + 1) v' (s + 7) (u / 128) rest (omega arith) (omega arith)
                (omega (arith, pow-suc 128 (suc n))) low' (omega arith))
  ]
