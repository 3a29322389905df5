-- ===== src/Ocf.antt =====
-- ocf/ocf.go: object container files. The codec that reads and writes the values of a schema is not
-- part of the model: `read_val` and `write_val` stand for ReadVal and WriteVal under the file's schema.
pub mod Decoder
pub mod Encoder
pub mod Codecs
pub mod BlockData
pub mod Blocks
pub mod Progress
pub mod Settles
pub mod Runs
pub mod Files
pub mod Opening
pub mod Creating
pub mod Options
pub mod Headers
pub mod HeaderFields
pub mod HeaderBytes
pub mod HeaderMeta
pub mod Complete
pub mod Container
pub mod Appending
use avro.Prelude.{ℕ, String, ◌⊎◌, Option, none, some, List, [], ◌∷◌, if◌then◌else◌, ◌==◌, ltb}
use avro.Prelude.Int.{ℤ, pos, negsuc}
use avro.Errors.{Error}
use avro.Reader.State.{Reader}
use avro.Writer.{Writer}
use avro.MapCodec.{GoMap}

-- The interface Codec, and the Close of a codec that has one.
pub record Codec : Type 0 where
  pub decode_block : List ℕ → Error ⊎ List ℕ
  pub encode_block : List ℕ → List ℕ
  pub closer : Option (Option Error)

pub record Header : Type 0 where
  pub magic : List ℕ
  pub meta : GoMap (List ℕ)
  pub sync : List ℕ

-- ReadVal and WriteVal under the schema of the file.
pub record ValueCodec (V : Type 0) : Type 0 where
  pub read_val : V → Reader → V × Reader
  pub write_val : V → Writer → Writer

-- 64 << 20 and 64 << 20.
abbrev pub default_max_block_bytes : ℤ
default_max_block_bytes = pos 67_108_864

abbrev pub default_max_decompressed_block_bytes : ℤ
default_max_decompressed_block_bytes = pos 67_108_864

abbrev pub default_max_block_records : ℤ
default_max_block_records = pos 1_048_576

-- A limit of zero is no limit, so a negative setting turns the limit off.
unfoldable pub resolve_limit : ℤ → ℤ → ℤ
resolve_limit (negsuc n) default_value = pos 0
resolve_limit (pos n) default_value = if n == 0 then default_value else pos n

abbrev pub magic_bytes : List ℕ
magic_bytes = 0x4f ∷ 0x62 ∷ 0x6a ∷ 0x01 ∷ []
