-- ===== src/RoundTrip/Bytes.antt =====
-- ReadBytes after WriteBytes, and ReadString after WriteString.
use avro.Prelude.{
  ℕ, suc, ◌≤◌, ◌≡◌, ◌⊎◌, refl, sym, ◌∙◌, ap, arith, true, none, List, [], ◌∷◌, ◌++◌, append_assoc,
  append_cancel_left, length, length-append, take, drop, drop-length, take-length, take-append_le,
  drop-append_le, leb, ◌&&◌, Bool-cases, inl, inr,
}
use avro.Prelude.Int.{pos, ◌≤ℤ◌}
use avro.Words.{InRange}
use avro.Config.{Config, get_max_byte_slice_size, max_alloc_size}
use avro.Utf8.{utf8_valid}
use avro.Reader.State.{Reader}
use avro.Reader.Varint.{read_long, advance, long_width}
use avro.Reader.Values.{
  read, ByteOp, bytes_op, string_op, take_bytes, read_sized, read_bytes_as, read_bytes, read_string,
}
use avro.Reader.Stream.{stream, future, IsSteady, advance-IsSteady, stream-advance}
use avro.Reader.Copy.{read-Copies}
use avro.Reader.Settings.{cfg-read_varint}
use avro.Writer.{Writer, write_long, write_bytes, write_string}
use avro.RoundTrip.Numbers.{Returns, read_long-write_long, long_bytes}
use avro.Writer.Varint.{groups}
use avro.Words.{zigzag_number}

-- The limits of the configuration and of the platform let `n` bytes pass.
abbrev pub IsAllowed : Config → ℕ → Type 0
IsAllowed c n =
    (n ≤ max_alloc_size)
    × ((get_max_byte_slice_size c ≤ℤ pos 0) ⊎ (pos n ≤ℤ get_max_byte_slice_size c))

pub front : (xs ys : List ℕ) → take (length xs) (xs ++ ys) ≡ xs
front xs ys = take-append_le (length xs) xs ys (omega arith) ∙ take-length xs

pub back : (xs ys : List ℕ) → drop (length xs) (xs ++ ys) ≡ ys
back xs ys = drop-append_le (length xs) xs ys (omega arith) ∙ ap (λ t. t ++ ys) (drop-length xs)

pub by_copy :
    (b rest : List ℕ) (r : Reader)
    → IsSteady r
    → stream r ≡ b ++ rest
    → Returns b rest (read (length b) r)
by_copy b rest r st e =
    let total = ap (λ (t : List ℕ). length t) e ∙ length-append b rest in
    let (bytes, st', left) = (read-Copies (length b) r st).0 (omega arith) in
    (bytes ∙ rw e (front b rest), st', left ∙ rw e (back b rest))

by_slab :
    (b rest : List ℕ) (r : Reader)
    → IsSteady r
    → stream r ≡ b ++ rest
    → length b ≤ length r.unread
    → Returns b rest (take (length b) r.unread, advance r (length b))
by_slab b rest r st e h = (
  sym (take-append_le (length b) r.unread (future r.source) h)
      ∙ ap (λ t. take (length b) t) e
      ∙ front b rest,
  advance-IsSteady r (length b) st,
  stream-advance r (length b) h ∙ rw e (back b rest),
)

-- The bytes come whole, from the buffer or through it.
take_bytes-Returns :
    (b rest : List ℕ) (r : Reader)
    → IsSteady r
    → stream r ≡ b ++ rest
    → Returns b rest (take_bytes (length b) r)
unfolding take_bytes
take_bytes-Returns b rest r st e =
    elim (Bool-cases (leb (length b) (length r.unread) && leb (length b) 1024)) [
      | inl near ↦ rw near (by_slab b rest r st e (ground arith))
      | inr far ↦ rw far (by_copy b rest r st e)
    ]

sized_steps :
    (op : ByteOp) (n : ℕ) (r : Reader)
    → IsAllowed r.cfg (suc n)
    → read_sized op (pos (suc n)) r ≡ take_bytes (suc n) r
unfolding read_sized
sized_steps op n r h = ground arith

read_sized-Returns :
    (op : ByteOp) (b rest : List ℕ) (r : Reader)
    → IsAllowed r.cfg (length b)
    → IsSteady r
    → stream r ≡ b ++ rest
    → Returns b rest (read_sized op (pos (length b)) r)
read_sized-Returns op [] rest r ok st e = unfold read_sized in (refl, st, e)
read_sized-Returns op (x ∷ xs) rest r ok st e =
    rw (sized_steps op (length xs) r ok) (take_bytes-Returns (x ∷ xs) rest r st e)

-- The length as a long, then the bytes.
read_bytes_as-Returns :
    (op : ByteOp) (w : Writer) (b sent rest : List ℕ) (r : Reader)
    → IsAllowed r.cfg (length b)
    → (write_long w (pos (length b))).buf ++ b ≡ w.buf ++ sent
    → IsSteady r
    → stream r ≡ sent ++ rest
    → Returns b rest (read_bytes_as op r)
unfolding read_bytes_as
read_bytes_as-Returns op w b sent rest r ok appended st e =
    let range : InRange 64 (pos (length b)) = omega arith in
    let head : List ℕ = groups 9 (zigzag_number (pos (length b))) in
    let written = long_bytes w (pos (length b)) range in
    let whole : sent ≡ head ++ b =
      append_cancel_left w.buf _ _
        (sym appended ∙ ap (λ t. t ++ b) written ∙ append_assoc w.buf head b) in
    let split : stream r ≡ head ++ (b ++ rest) =
      e ∙ ap (λ t. t ++ rest) whole ∙ append_assoc head b rest in
    let (size, st', left) =
      read_long-write_long w (pos (length b)) head (b ++ rest) r range written st split in
    let same : (read_long r).1.cfg ≡ r.cfg = unfold read_long in cfg-read_varint long_width r in
    rw size (read_sized-Returns op b rest (read_long r).1 (rw same ok) st' left)

-- Bytes that WriteBytes appended are what ReadBytes returns, where the limits of the reader's
-- configuration let that many pass; it takes what was appended and no more, and reports no error.
pub read_bytes-write_bytes :
    (w : Writer) (b sent rest : List ℕ) (r : Reader)
    → IsAllowed r.cfg (length b)
    → (write_bytes w b).buf ≡ w.buf ++ sent
    → IsSteady r
    → stream r ≡ sent ++ rest
    → Returns b rest (read_bytes r)
unfolding read_bytes write_bytes
read_bytes-write_bytes w b sent rest r ok appended st e =
    read_bytes_as-Returns bytes_op w b sent rest r ok appended st e

string_written :
    (w : Writer) (s : List ℕ)
    → w.error ≡ none
    → utf8_valid s ≡ true
    → (write_string w s).buf ≡ (write_long w (pos (length s))).buf ++ s
unfolding write_string
string_written w s clean valid = ground arith

-- Valid UTF-8 that WriteString of a writer without an error appended is what ReadString returns, where
-- the limits of the reader's configuration let that many bytes pass; it takes what was appended and no
-- more, and reports no error.
pub read_string-write_string :
    (w : Writer) (s sent rest : List ℕ) (r : Reader)
    → w.error ≡ none
    → utf8_valid s ≡ true
    → IsAllowed r.cfg (length s)
    → (write_string w s).buf ≡ w.buf ++ sent
    → IsSteady r
    → stream r ≡ sent ++ rest
    → Returns s rest (read_string r)
unfolding read_string
read_string-write_string w s sent rest r clean valid ok appended st e =
    let written = sym (string_written w s clean valid) ∙ appended in
    let (same, st', left) = read_bytes_as-Returns string_op w s sent rest r ok written st e in
    rw (same, valid) (refl, st', left)
