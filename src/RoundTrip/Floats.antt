-- ===== src/RoundTrip/Floats.antt =====
-- ReadFloat after WriteFloat, and ReadDouble after WriteDouble, on bit patterns.
use native.Mathlib.Nat.{pow-suc}
use avro.Prelude.{
  ℕ, zero, suc, ◌/◌, ◌^◌, ◌<◌, ◌≡◌, refl, sym, ◌∙◌, ap, arith, List, ◌++◌, append_cancel_left,
  length,
}
use avro.Reader.State.{Reader}
use avro.Reader.Values.{read, little_endian, read_float, read_double}
use avro.Reader.Stream.{stream, IsSteady}
use avro.Writer.{Writer, little_bytes, write_float, write_double}
use avro.RoundTrip.Numbers.{Returns}
use avro.RoundTrip.Bytes.{by_copy}

length-little_bytes : (n v : ℕ) → length (little_bytes n v) ≡ n
unfolding little_bytes
length-little_bytes zero v = refl
length-little_bytes (suc n) v = ap suc (length-little_bytes n (v / 256))

little_endian-little_bytes : (n v : ℕ) → v < 256 ^ n → little_endian (little_bytes n v) ≡ v
unfolding little_bytes little_endian
little_endian-little_bytes zero v h = omega arith
little_endian-little_bytes (suc n) v h =
    omega (arith, little_endian-little_bytes n (v / 256) (omega (arith, pow-suc 256 n)))

read_little :
    (n bits : ℕ) (rest : List ℕ) (r : Reader)
    → bits < 256 ^ n
    → IsSteady r
    → stream r ≡ little_bytes n bits ++ rest
    → Returns bits rest (little_endian (read n r).0, (read n r).1)
read_little n bits rest r h st e =
    let size = length-little_bytes n bits in
    let (bytes, st', left) = rw size at (by_copy (little_bytes n bits) rest r st e) in
    (ap little_endian bytes ∙ little_endian-little_bytes n bits h, st', left)

-- The bit pattern of a double that WriteDouble appended is what ReadDouble returns, and that of a float
-- that WriteFloat appended is what ReadFloat returns, in whatever pieces the bytes come; they take what was
-- appended and no more, and report no error.
pub read_double-write_double :
    (w w' : Writer) (bits bits' : ℕ) (sent sent' rest rest' : List ℕ) (r r' : Reader)
    → bits < 2 ^ 64
    → bits' < 2 ^ 32
    → (write_double w bits).buf ≡ w.buf ++ sent
    → (write_float w' bits').buf ≡ w'.buf ++ sent'
    → IsSteady r
    → IsSteady r'
    → stream r ≡ sent ++ rest
    → stream r' ≡ sent' ++ rest'
    → Returns bits rest (read_double r) × Returns bits' rest' (read_float r')
unfolding read_double read_float write_double write_float
read_double-write_double w w' bits bits' sent sent' rest rest' r r' h h' appended appended' st st' e
      e' =
    let same : sent ≡ little_bytes 8 bits = append_cancel_left w.buf _ _ (sym appended) in
    let same' : sent' ≡ little_bytes 4 bits' = append_cancel_left w'.buf _ _ (sym appended') in
    (
      read_little 8 bits rest r (omega arith) st (e ∙ ap (λ t. t ++ rest) same),
      read_little 4 bits' rest' r' (omega arith) st' (e' ∙ ap (λ t. t ++ rest') same'),
    )
