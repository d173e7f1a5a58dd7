-- ===== src/Config/Tests.antt =====
-- Settings that are run.
use php_pecl_memcache_zynga.Prelude.{◌+◌, ◌%◌, ◌^◌, ◌≡◌, refl, leb, ◌&&◌, none, some, arith}
use php_pecl_memcache_zynga.Prelude.Int.{pos}
use php_pecl_memcache_zynga.Prelude.Bytes.{bytes}
use php_pecl_memcache_zynga.Prelude.Numbers.{print_ℕ, decimal}
use php_pecl_memcache_zynga.Config.{
  Globals, retry_interval, compression_level, default_timeout_ms, hash_strategy, integrity_algo,
  accepted, refused, on_update, on_update_integrity_retry_count,
}
use php_pecl_memcache_zynga.Config.Printed.{accept_if, on_update-print}

abbrev first : Globals
first = record {
  max_failover_attempts = pos 20;
  chunk_size = pos 8192;
  hash_strategy = 1;
  hash_function = 1;
  default_timeout_ms = pos 10000;
  compression_level = pos 0;
  proxy_host = none;
  proxy_hostlen = 0;
  retry_interval = pos 15;
  log_conf = none;
  integrity_error_retry_count = pos 3;
  integrity_algo = bytes "crc32";
}

abbrev consistent : Globals
consistent = record first { hash_strategy = 2 }

-- 2^32 + 15 is accepted as 15.
on_update-print_example :
    (on_update decimal first compression_level (some (print_ℕ (2 ^ 32 + 15)))
      ≡ accept_if (leb (2 ^ 32 + 15) 9) (record first { compression_level = pos (2 ^ 32 + 15) }))
    × ((on_update decimal first default_timeout_ms (some (print_ℕ (2 ^ 32 + 15)))
          ≡ accept_if
              (leb 1 (2 ^ 32 + 15))
              (record first { default_timeout_ms = pos (2 ^ 32 + 15) }))
        × (on_update decimal first retry_interval (some (print_ℕ (2 ^ 32 + 15)))
            ≡ accept_if
                (leb 3 ((2 ^ 32 + 15) % 2 ^ 32) && leb ((2 ^ 32 + 15) % 2 ^ 32) 30)
                (record first { retry_interval = pos ((2 ^ 32 + 15) % 2 ^ 32) })))
on_update-print_example = on_update-print decimal first (2 ^ 32 + 15) (omega arith)

wrapped_interval :
    on_update decimal first retry_interval (some (bytes "4294967311")) ≡ accepted first
unfolding on_update
wrapped_interval = refl

unknown_algo : on_update decimal first integrity_algo (some (bytes "CRC32")) ≡ refused
unfolding on_update
unknown_algo = refl

retry_count_limit : on_update_integrity_retry_count decimal first (bytes "4") ≡ refused
unfolding on_update_integrity_retry_count
retry_count_limit = refl
