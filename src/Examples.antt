-- ===== src/Examples.antt =====
-- Runs of the modelled code at concrete inputs.
pub mod Values
pub mod Checksums
pub mod Frames
pub mod Schemas
pub mod Skips
pub mod Arrays
pub mod Containers
pub mod Files
pub mod Decoders
pub mod Enums
pub mod Registry
pub mod Clients
pub mod Maps
use avro.Prelude.{ℕ, Option, none, some, List, [], ◌∷◌, false}
use avro.Prelude.Int.{ℤ, pos, negsuc}
use avro.Config.{Config}
use avro.Reader.State.{ReadResult, Reader}
use avro.Writer.{Output, Writer}

abbrev pub plain_config : Config
plain_config = record {
  tag_key = "";
  block_length = pos 0;
  disable_block_size_header = false;
  disable_caching = false;
  max_byte_slice_size = pos 0;
  max_slice_alloc_size = pos 0;
  max_map_alloc_size = pos 0;
}

-- A writer that holds a byte already.
abbrev pub some_writer : Writer
some_writer = record {
  cfg = plain_config;
  config_err = none;
  out = some (record { taken = []; answers = [] });
  buf = 7 ∷ [];
  error = none;
}

abbrev pub piece : List ℕ → ReadResult
piece bs = record { bytes = bs; err = none }

-- A reader with `unread` in its buffer, and one more piece to come.
abbrev pub two_pieces : List ℕ → List ℕ → Reader
two_pieces unread later = record {
  cfg = plain_config;
  config_err = none;
  source = some (piece later ∷ []);
  unread = unread;
  pending_err = none;
  error = none;
}
