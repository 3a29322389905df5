-- ===== src/Reader/Scan.antt =====
-- The byte loop of ReadInt and ReadLong: how it splits at a refill, where it stops, and what it makes
-- of an encoded number.
use avro.Prelude.{
  ℕ, ◌+◌, ◌-◌, ◌*◌, ◌^◌, ◌≤◌, ◌<◌, ◌≡◌, refl, arith, List, [], ◌∷◌, ◌++◌, length, suc, All,
}
use avro.Bits.{top_bit}
use avro.Reader.Varint.{
  Width, Scan, found, overflow, ran_out, scan, add_group, int_width, long_width,
}

abbrev pub IsByte : ℕ → Type 0
IsByte b = b < 256

-- The last byte that a width allows ends a number, and the width is that many bits in all.
pub record IsWidth (w : Width) : Type 0 where
  pub ends : w.max_last_byte < 128
  pub some_bytes : 0 < w.max_buf_size
  pub exact : (w.max_last_byte + 1) * 2 ^ (7 * (w.max_buf_size - 1)) ≡ 2 ^ w.bits

pub int_width-IsWidth : IsWidth int_width
int_width-IsWidth = record { ends = omega arith; some_bytes = omega arith; exact = refl }

pub long_width-IsWidth : IsWidth long_width
long_width-IsWidth = record { ends = omega arith; some_bytes = omega arith; exact = refl }

abbrev pub resume : Width → ℕ → List ℕ → Scan → Scan
resume w index ys (found value end) = found value end
resume w index ys overflow = overflow
resume w index ys (ran_out value shift) = scan w index value shift ys

module _ (w : Width) where
  -- Scanning two pieces is scanning the second from where the first ended.
  pub scan-append :
      (xs ys : List ℕ) (index value shift : ℕ)
      → scan w index value shift (xs ++ ys)
        ≡ resume w (index + length xs) ys (scan w index value shift xs)
  unfolding scan
  scan-append [] ys index value shift = let e : index + 0 ≡ index = omega arith in rw e
  scan-append (x ∷ xs) ys index value shift =
      let e : index + suc (length xs) ≡ index + 1 + length xs = omega arith in
      rw e (ground (arith, scan-append xs ys (index + 1) (add_group w value shift x) (shift + 7)))

  -- A loop that runs out of bytes has not reached the largest size of a number.
  pub scan-ran_out :
      IsWidth w
      → (xs : List ℕ) (index value shift value' shift' : ℕ) → All IsByte xs
      → index < w.max_buf_size
      → scan w index value shift xs ≡ ran_out value' shift'
      → index + length xs < w.max_buf_size
  unfolding scan
  scan-ran_out ok [] index value shift value' shift' bytes lt e = omega arith
  scan-ran_out ok (x ∷ xs) index value shift value' shift' (hx, hxs) lt e = ground (
    arith,
    ok.ends,
    top_bit x,
    scan-ran_out ok xs (index + 1) (add_group w value shift x) (shift + 7) value' shift' hxs,
  )

  -- A number that is found took some of the bytes, and no more than there are.
  pub scan-found :
      (xs : List ℕ) (index value shift value' end : ℕ)
      → scan w index value shift xs ≡ found value' end
      → (index < end) × (end ≤ index + length xs)
  unfolding scan
  scan-found [] index value shift value' end e = cc
  scan-found (x ∷ xs) index value shift value' end e =
      ground (arith, scan-found xs (index + 1) (add_group w value shift x) (shift + 7) value' end)
