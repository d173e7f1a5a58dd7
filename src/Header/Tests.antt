-- ===== src/Header/Tests.antt =====
-- A value's header with a checksum and a cas.
use php_pecl_memcache_zynga.Prelude.{arith, ◌≡◌, refl, true}
use php_pecl_memcache_zynga.Prelude.Bytes.{bytes}
use php_pecl_memcache_zynga.Header.{parsed, parse_header}
use php_pecl_memcache_zynga.Header.Round.{parse_header-line}
use php_pecl_memcache_zynga.Header.Line.{header_line, header_fields}

parse_header-line_example :
    parse_header true true (header_line true true (bytes "k1") 5 12 (bytes "0002:1a2b") 77)
    ≡ parsed (header_fields true true (bytes "k1") 5 12 (bytes "0002:1a2b") 77)
parse_header-line_example =
    parse_header-line true true (bytes "k1") 5 12 (bytes "0002:1a2b") 77 (refl, (refl, tt))
      (refl, (refl, (refl, (refl, (refl, (refl, (refl, (refl, (refl, tt))))))))) (omega arith)
      (omega arith) (omega arith)
