-- ===== src/Config.antt =====
-- config.go: the settings of a frozen configuration and the limits that they stand for.
use avro.Prelude.{ℕ, ◌^◌, ◌<◌, ◌≤◌, arith, String, Bool, if◌then◌else◌, str_eq}
use avro.Prelude.Int.{ℤ, pos, negsuc, ltb_ℤ}

-- Go's int is an int64 here: config_x64.go is the file that is built.
pub record Config : Type 0 where
  pub tag_key : String
  pub block_length : ℤ
  pub disable_block_size_header : Bool
  pub disable_caching : Bool
  pub max_byte_slice_size : ℤ
  pub max_slice_alloc_size : ℤ
  pub max_map_alloc_size : ℤ

-- `math.MaxInt`.
abbrev pub max_int : ℕ
max_int = 0x7fff_ffff_ffff_ffff

-- `min(math.MaxInt, 1<<48)`.
abbrev pub max_alloc_size : ℕ
max_alloc_size = 2 ^ 48

abbrev pub default_max_byte_slice_size : ℤ
default_max_byte_slice_size = pos 1_048_576

abbrev pub default_max_collection_size : ℕ
default_max_collection_size = 1_048_576

unfoldable pub get_tag_key : Config → String
get_tag_key c = if str_eq c.tag_key "" then "avro" else c.tag_key

-- A block length that is not positive stands for 100.
length_or_100 : ℤ → ℕ
length_or_100 (pos n) = if ltb_ℤ (pos 0) (pos n) then n else 100
length_or_100 (negsuc n) = 100

unfoldable pub get_block_length : Config → ℕ
unfolding length_or_100
get_block_length c = length_or_100 c.block_length

length_or_100_positive : (n : ℤ) → 0 < length_or_100 n
unfolding length_or_100
length_or_100_positive (pos n) = ground arith
length_or_100_positive (negsuc n) = omega arith

pub get_block_length_positive : (c : Config) → 0 < get_block_length c
unfolding get_block_length
get_block_length_positive c = length_or_100_positive c.block_length

-- Zero stands for the default; a negative size stays negative, which callers read as "no limit".
byte_limit : ℤ → ℤ
byte_limit (pos n) = if ltb_ℤ (pos 0) (pos n) then pos n else default_max_byte_slice_size
byte_limit (negsuc n) = negsuc n

unfoldable pub get_max_byte_slice_size : Config → ℤ
unfolding byte_limit
get_max_byte_slice_size c = byte_limit c.max_byte_slice_size

-- The shared body of getMaxSliceAllocSize and getMaxMapAllocSize.
collection_limit : ℤ → ℕ
collection_limit (negsuc n) = max_alloc_size
collection_limit (pos n) =
    if ltb_ℤ (pos max_alloc_size) (pos n)
    then max_alloc_size
    else if ltb_ℤ (pos 0) (pos n)
    then n
    else default_max_collection_size

unfoldable pub get_max_slice_alloc_size : Config → ℕ
unfolding collection_limit
get_max_slice_alloc_size c = collection_limit c.max_slice_alloc_size

unfoldable pub get_max_map_alloc_size : Config → ℕ
unfolding collection_limit
get_max_map_alloc_size c = collection_limit c.max_map_alloc_size

collection_limit_bounds : (n : ℤ) → (0 < collection_limit n) × (collection_limit n ≤ max_alloc_size)
unfolding collection_limit
collection_limit_bounds (negsuc n) = omega arith
collection_limit_bounds (pos n) = ground arith

-- Whatever the settings of a configuration, a block holds an element at least, and the limits on slices
-- and maps are positive and within the largest allocation of the platform.
pub get_max_slice_alloc_size_bounds :
    (c : Config)
    → (0 < get_block_length c)
      × (0 < get_max_slice_alloc_size c)
      × (get_max_slice_alloc_size c ≤ max_alloc_size)
      × (0 < get_max_map_alloc_size c)
      × (get_max_map_alloc_size c ≤ max_alloc_size)
unfolding get_max_slice_alloc_size get_max_map_alloc_size
get_max_slice_alloc_size_bounds c =
    let slices = collection_limit_bounds c.max_slice_alloc_size in
    let maps = collection_limit_bounds c.max_map_alloc_size in
    (get_block_length_positive c, slices.0, slices.1, maps.0, maps.1)
