-- ===== src/Reader/Strings.antt =====
-- Reading bytes or a string never changes a reader's configuration.
use avro.Prelude.{ℕ, zero, suc, ◌-◌, ◌≡◌, ◌∙◌, refl, arith, length, take}
use avro.Prelude.Int.{ℤ, pos, negsuc}
use avro.Reader.State.{Reader, load_if_empty, report_error, report_unexpected_eof}
use avro.Reader.Varint.{read_long, long_width, advance}
use avro.Reader.Values.{
  read_loop, read, take_bytes, read_sized, read_bytes_as, string_op, bytes_op, read_bytes,
  read_string, ByteOp,
}
use avro.Reader.Settings.{cfg-load_more, cfg-read_varint}

pub cfg-load_if_empty : (r : Reader) → (load_if_empty r).1.cfg ≡ r.cfg
unfolding load_if_empty
cfg-load_if_empty r = ground (arith, cfg-load_more r)

cfg-read_loop : (fuel left : ℕ) (r : Reader) → (read_loop fuel left r).1.cfg ≡ r.cfg
unfolding read_loop report_unexpected_eof
cfg-read_loop fuel zero r = refl
cfg-read_loop zero (suc left) r = refl
cfg-read_loop (suc fuel) (suc left) r =
    let r' : Reader = (load_if_empty r).1 in
    let n : ℕ = length (take (suc left) r'.unread) in
    ground (arith, cfg-load_if_empty r, cfg-read_loop fuel (suc left - n) (advance r' n))

cfg-take_bytes : (size : ℕ) (r : Reader) → (take_bytes size r).1.cfg ≡ r.cfg
unfolding take_bytes read
cfg-take_bytes size r = ground (arith, cfg-read_loop size size r)

cfg-read_sized : (op : ByteOp) (size : ℤ) (r : Reader) → (read_sized op size r).1.cfg ≡ r.cfg
unfolding read_sized report_error
cfg-read_sized op (negsuc n) r = ground arith
cfg-read_sized op (pos size) r = ground (arith, cfg-take_bytes size r)

pub cfg-read_bytes_as : (op : ByteOp) (r : Reader) → (read_bytes_as op r).1.cfg ≡ r.cfg
unfolding read_bytes_as read_long
cfg-read_bytes_as op r =
    cfg-read_sized op (read_long r).0 (read_long r).1 ∙ cfg-read_varint long_width r

pub cfg-read_string : (r : Reader) → (read_string r).1.cfg ≡ r.cfg
unfolding read_string report_error
cfg-read_string r = ground (arith, cfg-read_bytes_as string_op r)

pub cfg-read_bytes : (r : Reader) → (read_bytes r).1.cfg ≡ r.cfg
unfolding read_bytes
cfg-read_bytes r = cfg-read_bytes_as bytes_op r
