-- ===== src/Key/Tests.antt =====
-- Keys in a caller's buffer of 250 bytes.
use php_pecl_memcache_zynga.Prelude.{ℕ, ◌≡◌, refl, List, replicate, arith}
use php_pecl_memcache_zynga.Prelude.Bytes.{bytes}
use php_pecl_memcache_zynga.Key.{overrun, prepare_key_ex}
use php_pecl_memcache_zynga.Key.Fits.{Reads, prepare_key_ex-Reads, prepare_key_ex-overrun}

abbrev buffer_250 : List ℕ
buffer_250 = replicate 250 0

prepare_key_ex-Reads_example : Reads (bytes "user 1") (prepare_key_ex (bytes "user 1") buffer_250)
prepare_key_ex-Reads_example =
    prepare_key_ex-Reads (bytes "user 1") buffer_250 (omega arith) (omega arith) refl

prepare_key_ex-overrun_example : prepare_key_ex (replicate 250 97) buffer_250 ≡ overrun
prepare_key_ex-overrun_example =
    prepare_key_ex-overrun (replicate 250 97) buffer_250 (omega arith) refl
