-- ===== src/Registry/Guid.antt =====
-- registry/decoder.go and registry/client.go: the GUID that a header holds, as a text and back.
use avro.Prelude.{
  ℕ, ◌+◌, ◌*◌, ◌/◌, ◌%◌, ◌<◌, ◌≤◌, ◌≡◌, refl, sym, ap, ◌∙◌, arith, inr, false, some, List, [], ◌∷◌,
  ◌++◌, length, length-append, length-take, length-drop, take, drop, All, take-append-drop,
  drop-add, drop-append_add, ◌==◌,
}
use avro.Reader.Scan.{IsByte}
use avro.Registry.{
  hex_digit, hex_bytes, format_guid, from_hex, hex_decode, without_dashes, byte_at, check_guid,
}

from_hex-hex_digit : (n : ℕ) → n < 16 → from_hex (hex_digit n) ≡ some n
from_hex-hex_digit n h = ground arith

hex_decode-hex_bytes : (bs : List ℕ) → All IsByte bs → hex_decode (hex_bytes bs) ≡ some bs
unfolding hex_decode hex_bytes
hex_decode-hex_bytes [] h = refl
hex_decode-hex_bytes (b ∷ bs) (byte, h) =
    let high : from_hex (hex_digit (b / 16)) ≡ some (b / 16) =
      from_hex-hex_digit (b / 16) (omega arith) in
    let low : from_hex (hex_digit (b % 16)) ≡ some (b % 16) =
      from_hex-hex_digit (b % 16) (omega arith) in
    let whole : 16 * (b / 16) + b % 16 ≡ b = omega arith in
    rw (high, low, hex_decode-hex_bytes bs h) (ap (λ t. some (t ∷ bs)) whole)

length-hex_bytes : (bs : List ℕ) → length (hex_bytes bs) ≡ 2 * length bs
unfolding hex_bytes
length-hex_bytes [] = refl
length-hex_bytes (b ∷ bs) = omega (arith, length-hex_bytes bs)

digit_no_dash : (n : ℕ) → (hex_digit n == 45) ≡ false
digit_no_dash n = ground arith

without_dashes-hex_bytes : (bs : List ℕ) → without_dashes (hex_bytes bs) ≡ hex_bytes bs
unfolding without_dashes hex_bytes
without_dashes-hex_bytes [] = refl
without_dashes-hex_bytes (b ∷ bs) =
    rw (digit_no_dash (b / 16), digit_no_dash (b % 16), without_dashes-hex_bytes bs) refl

without_dashes-append :
    (xs ys : List ℕ) → without_dashes (xs ++ ys) ≡ without_dashes xs ++ without_dashes ys
unfolding without_dashes
without_dashes-append [] ys = refl
without_dashes-append (x ∷ xs) ys = ground (arith, without_dashes-append xs ys)

hex_bytes-append : (xs ys : List ℕ) → hex_bytes (xs ++ ys) ≡ hex_bytes xs ++ hex_bytes ys
unfolding hex_bytes
hex_bytes-append [] ys = refl
hex_bytes-append (x ∷ xs) ys =
    ap (λ t. hex_digit (x / 16) ∷ hex_digit (x % 16) ∷ t) (hex_bytes-append xs ys)

skip_part : (xs ys : List ℕ) (n k : ℕ) → length xs ≡ n → byte_at (n + k) (xs ++ ys) ≡ byte_at k ys
skip_part xs ys n k h =
    let past : drop (length xs + k) (xs ++ ys) ≡ drop k ys = drop-append_add k xs ys in
    ap (λ t. byte_at 0 t) (ap (λ t. drop (t + k) (xs ++ ys)) (sym h) ∙ past)

-- A text of five parts with dashes between them.
abbrev dashed : List ℕ → List ℕ → List ℕ → List ℕ → List ℕ → List ℕ
dashed a b c d e = a ++ (45 ∷ b ++ (45 ∷ c ++ (45 ∷ d ++ (45 ∷ e))))

module _ (a b c d e : List ℕ) (ha : length a ≡ 8) (hb : length b ≡ 4) (hc : length c ≡ 4)
    (hd : length d ≡ 4) (he : length e ≡ 12) where
  length-dashed : length (dashed a b c d e) ≡ 36
  length-dashed = omega (
    arith,
    length-append a (45 ∷ b ++ (45 ∷ c ++ (45 ∷ d ++ (45 ∷ e)))),
    length-append b (45 ∷ c ++ (45 ∷ d ++ (45 ∷ e))),
    length-append c (45 ∷ d ++ (45 ∷ e)),
    length-append d (45 ∷ e),
  )

  dash_8 : byte_at 8 (dashed a b c d e) ≡ 45
  dash_8 = skip_part a _ 8 0 ha

  dash_13 : byte_at 13 (dashed a b c d e) ≡ 45
  dash_13 = skip_part a _ 8 5 ha ∙ skip_part b _ 4 0 hb

  dash_18 : byte_at 18 (dashed a b c d e) ≡ 45
  dash_18 = skip_part a _ 8 10 ha ∙ skip_part b _ 4 5 hb ∙ skip_part c _ 4 0 hc

  dash_23 : byte_at 23 (dashed a b c d e) ≡ 45
  dash_23 =
      skip_part a _ 8 15 ha ∙ skip_part b _ 4 10 hb ∙ skip_part c _ 4 5 hc ∙ skip_part d _ 4 0 hd

check_steps :
    (text raw : List ℕ)
    → length text ≡ 36
    → byte_at 8 text ≡ 45
    → byte_at 13 text ≡ 45
    → byte_at 18 text ≡ 45
    → byte_at 23 text ≡ 45
    → hex_decode (without_dashes text) ≡ some raw
    → length raw ≡ 16
    → check_guid text ≡ inr raw
unfolding check_guid
check_steps text raw l h8 h13 h18 h23 decoded sixteen =
    rw (l, h8, h13, h18, h23, decoded, sixteen) refl

dashed_parts :
    (p q r s t : List ℕ)
    → without_dashes (dashed (hex_bytes p) (hex_bytes q) (hex_bytes r) (hex_bytes s) (hex_bytes t))
      ≡ hex_bytes (p ++ (q ++ (r ++ (s ++ t))))
unfolding without_dashes
dashed_parts p q r s t =
    rw
      (
        without_dashes-append (hex_bytes p)
            (45 ∷ hex_bytes q ++ (45 ∷ hex_bytes r ++ (45 ∷ hex_bytes s ++ (45 ∷ hex_bytes t)))),
        without_dashes-append (hex_bytes q)
            (45 ∷ hex_bytes r ++ (45 ∷ hex_bytes s ++ (45 ∷ hex_bytes t))),
        without_dashes-append (hex_bytes r) (45 ∷ hex_bytes s ++ (45 ∷ hex_bytes t)),
        without_dashes-append (hex_bytes s) (45 ∷ hex_bytes t),
        without_dashes-hex_bytes p,
        without_dashes-hex_bytes q,
        without_dashes-hex_bytes r,
        without_dashes-hex_bytes s,
        without_dashes-hex_bytes t,
        hex_bytes-append p (q ++ (r ++ (s ++ t))),
        hex_bytes-append q (r ++ (s ++ t)),
        hex_bytes-append r (s ++ t),
        hex_bytes-append s t,
      )
      refl

parts_whole :
    (bs : List ℕ)
    → take 4 bs
        ++ (take 2 (drop 4 bs) ++ (take 2 (drop 6 bs) ++ (take 2 (drop 8 bs) ++ drop 10 bs)))
      ≡ bs
parts_whole bs =
    rw
      (
        drop-add 8 2 bs,
        take-append-drop 2 (drop 8 bs),
        drop-add 6 2 bs,
        take-append-drop 2 (drop 6 bs),
        drop-add 4 2 bs,
        take-append-drop 2 (drop 4 bs),
        take-append-drop 4 bs,
      )
      refl

part_length :
    (n k : ℕ) (bs : List ℕ)
    → length bs ≡ 16
    → k + n ≤ 16
    → length (hex_bytes (take n (drop k bs))) ≡ 2 * n
part_length n k bs h fits =
    omega
      (arith, length-hex_bytes (take n (drop k bs)), length-take n (drop k bs), length-drop k bs)

-- The text that DecodeHeaders makes of the 16 bytes of a header is a GUID that GetSchemaByGUID accepts,
-- and stands for these bytes.
pub check_guid-format_guid :
    (bs : List ℕ) → length bs ≡ 16 → All IsByte bs → check_guid (format_guid bs) ≡ inr bs
unfolding format_guid
check_guid-format_guid bs sixteen bytes =
    let a : List ℕ = hex_bytes (take 4 bs) in
    let b : List ℕ = hex_bytes (take 2 (drop 4 bs)) in
    let c : List ℕ = hex_bytes (take 2 (drop 6 bs)) in
    let d : List ℕ = hex_bytes (take 2 (drop 8 bs)) in
    let e : List ℕ = hex_bytes (drop 10 bs) in
    let ha : length a ≡ 8 = part_length 4 0 bs sixteen (omega arith) in
    let hb : length b ≡ 4 = part_length 2 4 bs sixteen (omega arith) in
    let hc : length c ≡ 4 = part_length 2 6 bs sixteen (omega arith) in
    let hd : length d ≡ 4 = part_length 2 8 bs sixteen (omega arith) in
    let he : length e ≡ 12 =
      omega (arith, length-hex_bytes (drop 10 bs), length-drop 10 bs, sixteen) in
    let parts =
      dashed_parts (take 4 bs) (take 2 (drop 4 bs)) (take 2 (drop 6 bs)) (take 2 (drop 8 bs))
        (drop 10 bs) in
    check_steps (dashed a b c d e) bs (length-dashed a b c d e ha hb hc hd he)
      (dash_8 a b c d e ha hb hc hd he) (dash_13 a b c d e ha hb hc hd he)
      (dash_18 a b c d e ha hb hc hd he) (dash_23 a b c d e ha hb hc hd he)
      (ap (λ t. hex_decode t) (parts ∙ ap (λ t. hex_bytes t) (parts_whole bs))
        ∙ hex_decode-hex_bytes bs bytes)
      sixteen
