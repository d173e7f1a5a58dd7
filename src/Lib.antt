-- ===== src/Lib.antt =====
-- The memcached client of the PHP extension php-pecl-memcache-zynga, modelled function by function.
--
-- The parts and how they interact. A pool keeps its servers (`mmc_t`) in a hash strategy, the
-- weighted list of memcache_standard_hash.c or the circle of memcache_consistent_hash.c; the hash of
-- a key (memcache.cpp) picks a server, `mmc_open` connects it, and a failed server is passed over for
-- the next attempt's. A command writes one request and reads one line. memcache_queue.c holds the
-- requests that a multiget has open. Every request leaves a log record, and the rules of parse.cpp
-- choose which of them are written.
--
-- Files:
--   Prelude: lists, bytes, integers and number texts that the others share.
--   Queue: memcache_queue.c and memcache_queue.h, each function and macro under its name without the
--     prefix `mmc_queue_`. A pointer is a number and NULL is 0.
--   Rule, Rule/Build, Rule/Eval: parse.cpp and include/parser.h. `getNextToken` is `get_token`,
--     `checkInvalidOpr` is `check_invalid_opr`, `buildTree` is `build_tree` and `evaluateTree` is
--     `evaluate_tree`; a failed assertion, an unset integer and a wrong cast are values.
--   Hash: the hash functions and checksums of memcache.cpp.
--   Consistent: memcache_consistent_hash.c without its lookup: points, buckets, search.
--   Net: `mmc_t` (php_memcache.h), the store of all of them by address, the texts' tests, and the
--     outside: PHP's streams and clock are functions of the number of calls so far.
--   Server, Server/Open: memcache.cpp from `mmc_server_new` to `mmc_server_failure`, and `mmc_readline`,
--     `mmc_sendcmd`, `mmc_get_version`, `_mmc_open` and `mmc_open`. A read through a NULL stream is
--     `crash`.
--   Failover, Failover/Find: `should_failover` and `find_server` of both strategies, with the proxy of
--     memcache.cpp (`mmc_get_proxy`, and `mmc_find_persistent` for an entry that is there).
--   Key: `mmc_prepare_key_ex` of memcache.cpp, which writes into the caller's buffer.
--   Command: `mmc_server_received_error`, `mmc_server_store`, `mmc_delete` and `mmc_incr_decr` of
--     memcache.cpp.
--   Header: `mmc_parse_response` of memcache.cpp, the header line of a value.
--   Config: the handlers of the INI entries of memcache.cpp (`OnUpdateChunkSize` and the others) and
--     the table that registers them.
--   Compress: `mmc_compress` and `mmc_uncompress` of memcache.cpp.
--   Pool, Pool/Strategies: `mmc_pool_new`, `mmc_pool_init_hash`, `mmc_pool_add`, `get_options` and
--     `mmc_pool_find` of memcache.cpp; `mmc_hash_t` is the interface `Strategy`, which both strategies
--     fill.
--   Store, Store/Pack, Store/Request: `mmc_pool_store` of memcache.cpp: a round of its loop is
--     `store_round`, the variables that go from round to round are `Item`.
--   Value, Value/Body, Value/Scan, Value/Check: `mmc_read_value` of memcache.cpp: the loop of its bytes,
--     `%x` and `strtol` in base 16, and what it does with the sums and the compression.
-- The other files of a component's directory hold its theorems, and Tests its concrete cases.
--
-- Bounds and fuel. The binary search of the circle has a round for each point, and the loop that
-- empties a queue one for each item and one more; `print_ℕ` has a round more than the number. The
-- loops of connection attempts and of failover count the settings that bound them in the code.
-- The loop that reads a value has a
-- round for each byte that is left. The rounds of `mmc_pool_store` are fuel: without failover the
-- failures that are left of the key's server bound them. The buffer that a value is uncompressed into is doubled 14 times at most, as in the code.
-- 32-bit values wrap at 2 ^ 32; `atoi`, `strtol` and `strtoul` stop and wrap as in glibc. A lookup
-- among no buckets divides by 0, and is `crash`. A queue's cells that `erealloc` adds hold any value.
--
-- Parameters. `qsort` sorts and keeps its points, `php_memnstr` finds the first occurrence, the CRC32
-- macro is any function, zlib, lzo and bzip2 (with `bz2_decompress_safe`, which drives its stream) are
-- functions of a text and a room, the engine's `OnUpdateLong` stores what `zend_atol` gives, the
-- comparison of doubles that decides on compression is any test, an `erealloc` may move a block or not,
-- and the streams answer anything.
--
-- Not modelled: the bindings to PHP's values, the session handler, the statistics, the gets of
-- one and many keys, the closing of a pool, serialised values and the files of the logger; options of
-- sockets; the value that php.ini gives an entry when it is registered; the stream that a failed
-- round of the connection loop writes before the next;
-- what a failure callback does to the client; reference counts and the freeing of memory, but for the
-- buffers of a store.
pub mod Prelude
pub mod Config
pub mod Queue
pub mod Rule
pub mod Hash
pub mod Consistent
pub mod Net
pub mod Server
pub mod Failover
pub mod Key
pub mod Command
pub mod Header
pub mod Compress
pub mod Pool
pub mod Store
pub mod Value
