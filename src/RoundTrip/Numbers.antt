-- ===== src/RoundTrip/Numbers.antt =====
-- ReadInt after WriteInt, and ReadLong after WriteLong.
use avro.Prelude.{
  ℕ, suc, ◌+◌, ◌-◌, ◌*◌, ◌^◌, ◌<◌, ◌≡◌, refl, sym, ◌∙◌, ap, arith, List, ◌++◌, length, drop,
  drop-append_add, append_cancel_left, subst,
}
use native.Mathlib.Nat.{pow-suc}
use avro.Prelude.Int.{ℤ, pos, negsuc}
use avro.Words.{InRange, unzigzag, zigzag_number, zigzag_lem, unzigzag_lem}
use avro.Reader.State.{Reader}
use avro.Reader.Varint.{Width, found, scan, int_width, long_width, read_varint, read_int, read_long}
use avro.Reader.Scan.{IsWidth, int_width-IsWidth, long_width-IsWidth}
use avro.Reader.Stream.{stream, IsSteady}
use avro.Reader.Chunks.{read_varint-Decodes}
use avro.Reader.Rounds.{Decodes}
use avro.Writer.{Writer, write_int, write_long}
use avro.Writer.Varint.{groups, append_varint-groups}
use avro.RoundTrip.Varint.{scan-groups}

-- The call returned `a`, without an error, and left `rest` to come.
abbrev pub Returns {ℓ} : {A : Type ℓ} → A → List ℕ → A × Reader → Type ℓ
Returns a rest (b, r) = (b ≡ a) × IsSteady r × (stream r ≡ rest)

zigzag_number-lt : (k : ℕ) (i : ℤ) → InRange (suc k) i → zigzag_number i < 2 ^ suc k
zigzag_number-lt k (pos n) h =
    let e : suc k - 1 ≡ k = omega arith in
    let small : n < 2 ^ k = rw e at h in omega (arith, pow-suc 2 k)
zigzag_number-lt k (negsuc n) h =
    let e : suc k - 1 ≡ k = omega arith in
    let small : n < 2 ^ k = rw e at h in omega (arith, pow-suc 2 k)

pub drop_front : (xs ys : List ℕ) → drop (length xs) (xs ++ ys) ≡ ys
drop_front xs ys =
    let e : length xs + 0 ≡ length xs = omega arith in rw e at (drop-append_add 0 xs ys)

module _ (w : Width) (ok : IsWidth w) where
  read-groups :
      (r : Reader) (u : ℕ) (rest : List ℕ)
      → IsSteady r
      → u < 2 ^ w.bits
      → u < 128 ^ 10
      → stream r ≡ groups 9 u ++ rest
      → Returns (unzigzag w.bits u) rest (read_varint w r)
  read-groups r u rest st fits small e =
      let one : 0 + u * 2 ^ 0 ≡ u = omega arith in
      let from_zero : 0 + length (groups 9 u) ≡ length (groups 9 u) = omega arith in
      let scanned : scan w 0 0 0 (stream r) ≡ found u (length (groups 9 u)) =
        rw
          (
            e,
            scan-groups w ok 9 0 0 0 u rest (omega arith) ok.some_bytes small (omega arith)
                (omega arith),
            one,
            from_zero,
          )
          refl in
      let none_before : length (groups 9 u) - 0 ≡ length (groups 9 u) = omega arith in
      let (value, st', left) =
        subst (Decodes w 0 r (read_varint w r)) scanned (read_varint-Decodes w ok r st) in
      (value, st', left ∙ rw (e, none_before) (drop_front (groups 9 u) rest))

pub long_bytes :
    (w : Writer) (i : ℤ) → InRange 64 i → (write_long w i).buf ≡ w.buf ++ groups 9 (zigzag_number i)
unfolding write_long
long_bytes w i h =
    rw (zigzag_lem 63 i h) (append_varint-groups w.buf (zigzag_number i) (zigzag_number-lt 63 i h))

pub int_bytes :
    (w : Writer) (i : ℤ) → InRange 32 i → (write_int w i).buf ≡ w.buf ++ groups 9 (zigzag_number i)
unfolding write_int
int_bytes w i h =
    rw (zigzag_lem 31 i h)
      (append_varint-groups w.buf (zigzag_number i) (omega (arith, zigzag_number-lt 31 i h)))

-- The groups of an int64 are what ReadLong takes for it.
pub read_long-groups :
    (i : ℤ) (rest : List ℕ) (r : Reader)
    → InRange 64 i
    → IsSteady r
    → stream r ≡ groups 9 (zigzag_number i) ++ rest
    → Returns i rest (read_long r)
unfolding read_long
read_long-groups i rest r h st e =
    let small = zigzag_number-lt 63 i h in
    rw (← unzigzag_lem 63 i h)
      (read-groups long_width long_width-IsWidth r (zigzag_number i) rest st small (omega arith) e)

-- An int64 that WriteLong appended is what ReadLong returns, from a reader whose bytes to come begin
-- with the appended ones, in whatever pieces they come. ReadLong takes these bytes and no more, and
-- reports no error.
pub read_long-write_long :
    (w : Writer) (i : ℤ) (sent rest : List ℕ) (r : Reader)
    → InRange 64 i
    → (write_long w i).buf ≡ w.buf ++ sent
    → IsSteady r
    → stream r ≡ sent ++ rest
    → Returns i rest (read_long r)
read_long-write_long w i sent rest r h appended st e =
    let same : sent ≡ groups 9 (zigzag_number i) =
      append_cancel_left w.buf _ _ (sym appended ∙ long_bytes w i h) in
    read_long-groups i rest r h st (e ∙ ap (λ t. t ++ rest) same)

-- An int32 that WriteInt appended is what ReadInt returns, from a reader whose bytes to come begin with the
-- appended ones, in whatever pieces they come. ReadInt takes these bytes and no more, and reports no
-- error.
pub read_int-write_int :
    (w : Writer) (i : ℤ) (sent rest : List ℕ) (r : Reader)
    → InRange 32 i
    → (write_int w i).buf ≡ w.buf ++ sent
    → IsSteady r
    → stream r ≡ sent ++ rest
    → Returns i rest (read_int r)
unfolding read_int
read_int-write_int w i sent rest r h appended st e =
    let small = zigzag_number-lt 31 i h in
    let same : sent ≡ groups 9 (zigzag_number i) =
      append_cancel_left w.buf _ _ (sym appended ∙ int_bytes w i h) in
    rw (← unzigzag_lem 31 i h) (
      read-groups int_width int_width-IsWidth r (zigzag_number i) rest st small (omega arith)
        (e ∙ ap (λ t. t ++ rest) same))
