-- ===== src/Compress/Tests.antt =====
-- One value compressed and uncompressed.
use php_pecl_memcache_zynga.Prelude.{◌*◌, ◌^◌, ◌≡◌, refl, inl, length}
use php_pecl_memcache_zynga.Prelude.Int.{pos}
use php_pecl_memcache_zynga.Prelude.Bytes.{bytes}
use php_pecl_memcache_zynga.Compress.{mmc_compress, mmc_uncompress}
use php_pecl_memcache_zynga.Compress.Round.{if_fits, mmc_uncompress-compress}
use php_pecl_memcache_zynga.Compress.Storing.{storing, storing-Lossless}

mmc_uncompress-compress_example :
    mmc_uncompress storing (bytes "xabc") 2 ≡ if_fits (length (bytes "xabc") * 2 ^ 15) (bytes "abc")
unfolding mmc_compress
mmc_uncompress-compress_example =
    mmc_uncompress-compress storing (pos 0) (bytes "abc") (bytes "xabc") 2 storing-Lossless
      (inl refl) refl
