-- ===== src/Reader/Settings.antt =====
-- Reading never changes a reader's configuration.
use avro.Prelude.{ℕ, zero, suc, ◌+◌, ◌≡◌, refl, arith, length}
use avro.Reader.State.{Reader, load_more, report_error}
use avro.Reader.Varint.{
  Width, Scan, found, overflow, ran_out, scan, slice, advance, read_fast, read_slow, read_varint,
}

pub cfg-load_more : (r : Reader) → (load_more r).1.cfg ≡ r.cfg
unfolding load_more
cfg-load_more r = ground arith

round-cfg :
    (fuel : ℕ) (w : Width) (c v s : ℕ) (r : Reader) (result : Scan)
    → ((c' v' s' : ℕ) (r' : Reader) → (read_slow fuel w c' v' s' r').1.cfg ≡ r'.cfg)
    → scan w c v s (slice w c r) ≡ result
    → (read_slow (suc fuel) w c v s r).1.cfg ≡ r.cfg
unfolding read_slow report_error
round-cfg fuel w c v s r (found x end) ih e = rw (e, read_slow)
round-cfg fuel w c v s r overflow ih e = rw (e, read_slow)
round-cfg fuel w c v s r (ran_out v' s') ih e =
    let n : ℕ = length (slice w c r) in
    ground (arith, cfg-load_more (advance r n), ih (c + n) v' s' (load_more (advance r n)).1)

cfg-read_slow :
    (fuel : ℕ) (w : Width) (c v s : ℕ) (r : Reader) → (read_slow fuel w c v s r).1.cfg ≡ r.cfg
cfg-read_slow zero w c v s r = unfold read_slow in refl
cfg-read_slow (suc fuel) w c v s r =
    round-cfg fuel w c v s r (scan w c v s (slice w c r)) (cfg-read_slow fuel w) refl

cfg-read_fast : (w : Width) (r : Reader) → (read_fast w r).1.cfg ≡ r.cfg
unfolding read_fast report_error
cfg-read_fast w r = ground arith

pub cfg-read_varint : (w : Width) (r : Reader) → (read_varint w r).1.cfg ≡ r.cfg
unfolding read_varint
cfg-read_varint w r =
    ground (arith, cfg-read_fast w r, cfg-read_slow (suc w.max_buf_size) w 0 0 0 r)
