-- ===== src/Compress.antt =====
-- The compression of values: `mmc_compress` and `mmc_uncompress` of memcache.cpp. The libraries are
-- parameters, and so is `bz2_decompress_safe`, which drives bzip2's stream. The notices are left out.
pub mod Round
pub mod Storing
mod Tests
use php_pecl_memcache_zynga.Prelude.{
  ℕ, zero, suc, ◌+◌, ◌-◌, ◌*◌, ◌/◌, ◌%◌, ◌^◌, Bool, true, false, not, ◌&&◌, ◌||◌, List, [], ◌∷◌,
  Option, none, some, ltb, leb, ◌==◌, if◌then◌else◌, length,
}
use php_pecl_memcache_zynga.Prelude.Int.{ℤ, pos, negsuc, ltb_ℤ}
use php_pecl_memcache_zynga.Prelude.Bytes.{Bytes}

-- Z_OK, Z_MEM_ERROR, Z_BUF_ERROR, Z_STREAM_ERROR, Z_DATA_ERROR
pub data ZStatus : Type 0 where
  z_ok z_mem_error z_buf_error z_stream_error z_data_error : ZStatus

-- LZO_E_OK, LZO_E_OUTPUT_OVERRUN and the others
pub data LzoStatus : Type 0 where
  lzo_ok lzo_output_overrun lzo_error : LzoStatus

-- The libraries: what a call gives for the data and the room of its output buffer, its status and
-- what it has written. bzip2's answer is BZ_OK with its output, or nothing.
pub record Codecs : Type 0 where
  pub compress2 : Bytes → ℕ → ℤ → ZStatus × Bytes
  pub compress : Bytes → ℕ → ZStatus × Bytes
  pub uncompress : Bytes → ℕ → ZStatus × Bytes
  pub bz2_compress : Bytes → ℕ → Option Bytes
  pub bz2_decompress_safe : Bytes → ℕ → ZStatus × Bytes
  pub lzo_compress : Bytes → LzoStatus × Bytes
  pub lzo_decompress : Bytes → ℕ → LzoStatus × Bytes

-- `flags & 2 ^ k`
abbrev pub has_flag : ℕ → ℕ → Bool
has_flag bit flags = flags / bit % 2 == 1

abbrev pub mmc_compressed : ℕ
mmc_compressed = 2

abbrev pub mmc_compressed_lzo : ℕ
mmc_compressed_lzo = 4

abbrev pub mmc_compressed_bzip2 : ℕ
mmc_compressed_bzip2 = 16

-- `*result_len` of the output buffer
unfoldable pub compress_room : ℕ → ℕ
compress_room data_len = data_len + data_len / 16 + 64 + 3

-- The value where the status is Z_OK.
unfoldable pub if_z_ok : ZStatus × Bytes → Option Bytes
if_z_ok (z_ok, plain) = some plain
if_z_ok (_, plain) = none

unfoldable pub lzo_compress_status : LzoStatus × Bytes → ZStatus × Bytes
lzo_compress_status (lzo_ok, plain) = (z_ok, plain)
lzo_compress_status (lzo_output_overrun, plain) = (z_buf_error, plain)
lzo_compress_status (lzo_error, plain) = (z_data_error, plain)

unfoldable pub bz2_status : Option Bytes → ZStatus × Bytes
bz2_status (some plain) = (z_ok, plain)
bz2_status none = (z_data_error, [])

-- `if (level == 0) level = 6`
unfoldable pub zlib_level : ℤ → ℤ
zlib_level (pos zero) = pos 6
zlib_level level = level

module _ (codecs : Codecs) where
  unfoldable pub zlib_compress : Bool → Bytes → ℕ → ℤ → ZStatus × Bytes
  zlib_compress true plain room level = codecs.compress plain room
  zlib_compress false plain room level = codecs.compress2 plain room level

  -- The library's call by the flags.
  unfoldable pub compress_by : Bool → Bool → Bytes → ℕ → ℤ → ZStatus × Bytes
  unfolding zlib_compress zlib_level bz2_status lzo_compress_status
  compress_by true bzip2 plain room level =
      zlib_compress (ltb_ℤ (zlib_level level) (pos 0)) plain room (zlib_level level)
  compress_by false true plain room level = bz2_status (codecs.bz2_compress plain room)
  compress_by false false plain room level = lzo_compress_status (codecs.lzo_compress plain)

  -- `mmc_compress` at the setting `compression_level`; `none` for 0
  unfoldable pub mmc_compress : ℤ → Bytes → ℕ → Option Bytes
  unfolding compress_by if_z_ok compress_room
  mmc_compress level plain flags = if_z_ok (
      compress_by (has_flag mmc_compressed flags) (has_flag mmc_compressed_bzip2 flags) plain
        (compress_room (length plain)) level)

  unfoldable pub uncompress_by : Bool → Bool → Bytes → ℕ → ZStatus × Bytes
  unfolding lzo_compress_status
  uncompress_by true bzip2 plain room = codecs.uncompress plain room
  uncompress_by false true plain room = codecs.bz2_decompress_safe plain room
  uncompress_by false false plain room = lzo_compress_status (codecs.lzo_decompress plain room)

-- Whether the loop goes on.
abbrev no_room : ZStatus → Bool
no_room z_buf_error = true
no_room _ = false

-- The loop of `mmc_uncompress` from `factor`, with the rounds that are left; `attempt` is the call with
-- the room given.
unfoldable pub uncompress_loop : (ℕ → ZStatus × Bytes) → ℕ → ℕ → ℕ → ZStatus × Bytes
uncompress_loop attempt data_len zero factor = attempt (data_len * 2 ^ factor)
uncompress_loop attempt data_len (suc left) factor =
    let again = uncompress_loop attempt data_len left (suc factor) in
    let tried = attempt (data_len * 2 ^ factor) in if no_room tried.0 then again else tried

module _ (codecs : Codecs) where
  -- `mmc_uncompress`: the factors 1 to 15; `none` for 0
  unfoldable pub mmc_uncompress : Bytes → ℕ → Option Bytes
  unfolding uncompress_by uncompress_loop if_z_ok
  mmc_uncompress plain flags = if_z_ok (
      uncompress_loop
        (uncompress_by codecs (has_flag mmc_compressed flags) (has_flag mmc_compressed_bzip2 flags)
          plain)
        (length plain) 14 1)
