-- ===== src/Store/Pack.antt =====
-- What `mmc_pool_store` makes of a value before it is sent: the flags, the compression, the checksums.
use php_pecl_memcache_zynga.Prelude.{
  ℕ, Bool, true, false, not, ◌&&◌, ◌||◌, Option, none, some, ltb, leb, ◌==◌, if◌then◌else◌, length,
}
use php_pecl_memcache_zynga.Prelude.Int.{ℤ, pos, ltb_ℤ}
use php_pecl_memcache_zynga.Prelude.Bytes.{Bytes, bytes, starts_with}
use php_pecl_memcache_zynga.Net.{Env}
use php_pecl_memcache_zynga.Compress.{
  Codecs, has_flag, mmc_compressed, mmc_compressed_lzo, mmc_compressed_bzip2, mmc_compress,
}
use php_pecl_memcache_zynga.Hash.{get_checksum, get_checksum_extra}
use php_pecl_memcache_zynga.Store.Request.{clear_flag, set_flag}

-- What the settings and PHP give: the library's calls, the checksum's step, the bytes of an `int`.
pub record StoreEnv : Type 0 where
  pub env : Env
  pub algo : Bytes
  pub codecs : Codecs
  pub crc_step : ℕ → ℕ → ℕ
  pub flag_bytes : ℕ → Bytes
  pub lzo_enabled : Bool
  pub compression_level : ℤ

-- The value of a round behind the compression, with whether `data` holds it.
pub record Packed : Type 0 where
  pub text : Bytes
  pub is_data : Bool
  pub packed_flags : ℕ
  pub packed_crc32 : ℕ
  pub packed_uncrc32 : ℕ

-- `command` begins "append" or "prepend"
unfoldable pub is_concatenation : Bytes → Bool
is_concatenation command =
    starts_with command (bytes "append") || starts_with command (bytes "prepend")

-- `flags & (MMC_COMPRESSED | MMC_COMPRESSED_LZO | MMC_COMPRESSED_BZIP2)`
abbrev pub any_compressed : ℕ → Bool
any_compressed flags =
    has_flag mmc_compressed flags
    || (has_flag mmc_compressed_lzo flags || has_flag mmc_compressed_bzip2 flags)

module _ (e : StoreEnv) where
  -- The flags by the command and the threshold.
  unfoldable pub choose_flags : Bool → ℕ → ℕ → ℕ → ℕ
  unfolding set_flag
  choose_flags true threshold value_len flags = 0
  choose_flags false threshold value_len flags =
      if ltb 0 threshold && (leb threshold value_len && not (any_compressed flags))
      then set_flag
          (if ltb_ℤ (pos 0) e.compression_level then mmc_compressed else mmc_compressed_lzo) flags
      else flags

  -- Without lzo: its flag is replaced by zlib's, unless bzip2's is set.
  unfoldable pub without_lzo : Bool → ℕ → ℕ
  unfolding clear_flag set_flag
  without_lzo true flags = flags
  without_lzo false flags =
      let cleared = clear_flag mmc_compressed_lzo flags in
      if has_flag mmc_compressed_bzip2 cleared then cleared else set_flag mmc_compressed cleared

  unfoldable pub clear_compressed : ℕ → ℕ
  unfolding clear_flag
  clear_compressed flags =
      clear_flag mmc_compressed
        (clear_flag mmc_compressed_lzo (clear_flag mmc_compressed_bzip2 flags))

  -- The checksum that protects the flags with the value, or the old one.
  unfoldable pub new_checksum : Bool → ℕ → Bytes → ℕ
  new_checksum true flags text = get_checksum_extra e.crc_step (e.flag_bytes flags) text
  new_checksum false flags text = get_checksum e.crc_step text

  -- Whether the compressed text is kept.
  unfoldable pub keep_compressed : Bool → Bool → Bool → Bytes → Bytes → ℕ → ℕ → ℕ → Packed
  unfolding new_checksum clear_compressed
  keep_compressed true calc_crc add_new_crc value compressed flags crc32 uncrc32 = record {
    text = compressed;
    is_data = true;
    packed_flags = flags;
    packed_crc32 = if calc_crc then new_checksum add_new_crc flags compressed else crc32;
    packed_uncrc32 = if calc_crc then get_checksum e.crc_step value else uncrc32;
  }
  keep_compressed false calc_crc add_new_crc value compressed flags crc32 uncrc32 = record {
    text = value;
    is_data = false;
    packed_flags = clear_compressed flags;
    packed_crc32 = crc32;
    packed_uncrc32 = uncrc32;
  }

  unfoldable pub if_compressed :
      Option Bytes → (ℕ → ℕ → Bool) → Bool → Bool → Bytes → ℕ → ℕ → ℕ → Option Packed
  unfolding keep_compressed
  if_compressed none saves calc_crc add_new_crc value flags crc32 uncrc32 = none
  if_compressed (some compressed) saves calc_crc add_new_crc value flags crc32 uncrc32 = some (
      keep_compressed (saves (length compressed) (length value)) calc_crc add_new_crc value
        compressed flags crc32 uncrc32)

  -- The compression of a value whose flags ask for it; `none` where it fails.
  unfoldable pub pack : Bool → (ℕ → ℕ → Bool) → Bool → Bool → Bytes → ℕ → ℕ → ℕ → Option Packed
  unfolding if_compressed without_lzo mmc_compress
  pack false saves calc_crc add_new_crc value flags crc32 uncrc32 = some (record {
    text = value;
    is_data = false;
    packed_flags = flags;
    packed_crc32 = crc32;
    packed_uncrc32 = uncrc32;
  })
  pack true saves calc_crc add_new_crc value flags crc32 uncrc32 =
      let kept = without_lzo e.lzo_enabled flags in
      if_compressed (mmc_compress e.codecs e.compression_level value kept) saves calc_crc
        add_new_crc value kept crc32 uncrc32

  -- The checksum of the value, where none is calculated yet.
  unfoldable pub complete_checksum : Bool → Bool → Packed → Packed
  unfolding new_checksum
  complete_checksum calc_crc add_new_crc p =
      if calc_crc && p.packed_uncrc32 == 0
      then record p { packed_uncrc32 = new_checksum add_new_crc p.packed_flags p.text }
      else p
