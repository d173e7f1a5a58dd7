-- ===== src/Store/Tests.antt =====
-- Stores that are run.
use php_pecl_memcache_zynga.Prelude.{
  ℕ, List, Bool, ◌++◌, ◌≡◌, refl, true, false, [], ◌∷◌, Option, none, some, ltb, arith,
  if◌then◌else◌,
}
use php_pecl_memcache_zynga.Prelude.Int.{ℤ, pos}
use php_pecl_memcache_zynga.Prelude.Bytes.{bytes}
use php_pecl_memcache_zynga.Prelude.Numbers.{print_ℤ, print_ℕ}
use php_pecl_memcache_zynga.Hash.{mmc_hash_crc32}
use php_pecl_memcache_zynga.Failover.Find.{mmc_hash}
use php_pecl_memcache_zynga.Net.{unknown, Env, World, Event, wrote}
use php_pecl_memcache_zynga.Server.{Run, ret, crash, server_new}
use php_pecl_memcache_zynga.Server.Failure.{Ends}
use php_pecl_memcache_zynga.Server.Steps.{FitAt, weight}
use php_pecl_memcache_zynga.Compress.{Codecs, z_ok, z_data_error, lzo_ok, lzo_error}
use php_pecl_memcache_zynga.Consistent.Insertion.{insertion}
use php_pecl_memcache_zynga.Net.Search.{search_text}
use php_pecl_memcache_zynga.Pool.Tests.{
  storing_net, plain_settings, fresh_servers, fresh_servers-AllLive, sum_step, list_strategy,
  two_pool,
}
use php_pecl_memcache_zynga.Pool.Strategies.{
  hash_of, HashState, standard_hash, ValidState, pool_strategy,
}
use php_pecl_memcache_zynga.Pool.Law.{pool_strategy-Lawful}
use php_pecl_memcache_zynga.Pool.Home.{HomeState, pool_strategy-Homing}
use php_pecl_memcache_zynga.Store.Pack.{StoreEnv}
use php_pecl_memcache_zynga.Store.{Item, Stored, held, pool_store}
use php_pecl_memcache_zynga.Store.Intact.{Intact}
use php_pecl_memcache_zynga.Store.Ended.{HasEnded, pool_store-Ends}
use php_pecl_memcache_zynga.Store.Next.{Homely}

abbrev short_codes : Codecs
short_codes = record {
  compress2 = λ v room level. (z_ok, bytes "z");
  compress = λ v room. (z_ok, bytes "z");
  uncompress = λ v room. (z_data_error, []);
  bz2_compress = λ v room. none;
  bz2_decompress_safe = λ v room. (z_data_error, []);
  lzo_compress = λ v. (lzo_ok, bytes "l");
  lzo_decompress = λ v room. (lzo_error, []);
}

abbrev store_env : StoreEnv
store_env = record {
  env = storing_net;
  algo = bytes "crc32";
  codecs = short_codes;
  crc_step = sum_step;
  flag_bytes = λ flags. flags ∷ 0 ∷ 0 ∷ 0 ∷ [];
  lzo_enabled = true;
  compression_level = pos 6;
}

abbrev plain_item : Item HashState
plain_item = record {
  pool = two_pool;
  key = held (bytes "user:1");
  shard_key = none;
  flags = 0;
  value = held (bytes "abc");
  cas = 0;
  crc32 = 0;
  uncrc32 = 0;
  crc_in_hdr = [];
  retries_left = 2;
}

unfoldable result_of : Run (Option (Stored HashState)) → Option (ℤ × ℕ)
result_of crash = none
result_of (ret none w) = none
result_of (ret (some s) w) = some (s.result, s.variables.cas)

unfoldable first_event : List Event → Option Event
first_event [] = none
first_event (e ∷ es) = some e

unfoldable last_event : Run (Option (Stored HashState)) → Option Event
unfolding first_event
last_event crash = none
last_event (ret o w) = first_event w.events

-- A server whose options are known, alone in its pool.
abbrev one_item : Item HashState
one_item = record plain_item {
  pool = record two_pool {
    hash_state = standard_hash 1 (record { num_servers = 1; buckets = 0 ∷ [] });
    enable_checksum = false;
  };
}

abbrev asked_servers : World
asked_servers = record {
  servers = λ j. record (server_new (bytes "cache") 11211 true 1 (pos 15) false) {
    stream = some 9;
    status = unknown;
    got_options = true;
  };
  calls = 4;
  events = [];
}

-- A stored cas turns the set into a cas; the reply gives the new one.
stored_result :
    result_of (pool_store store_env list_strategy (bytes "set") (pos 0) 2 one_item asked_servers)
    ≡ some (pos 1, 7)
unfolding result_of pool_store search_text pool_strategy server_new print_ℤ print_ℕ
stored_result = refl

stored_request :
    last_event (pool_store store_env list_strategy (bytes "set") (pos 0) 2 one_item asked_servers)
    ≡ some (
        wrote 9
          (bytes "cas user:1 0 0 3  41 returncas" ++ (13 ∷ 10 ∷ (bytes "abc" ++ (13 ∷ 10 ∷ [])))))
unfolding last_event pool_store search_text pool_strategy server_new print_ℤ print_ℕ
stored_request = refl

plain_item-Intact : Intact ValidState plain_item
plain_item-Intact = record {
  valid = λ e. cc e;
  direct = refl;
  no_threshold = refl;
  plain = refl;
  short_key = omega arith;
  short_shard = tt;
  value_held = tt;
}

plain_item-Homely :
    Homely (HomeState sum_step (bytes "user:1") 0) store_env (bytes "user:1") 2 0 plain_item
unfolding mmc_hash_crc32 mmc_hash hash_of
plain_item-Homely = record { found_by_key = refl; home = refl }

fresh_servers-FitAt : FitAt storing_net 2 0 fresh_servers
unfolding weight server_new
fresh_servers-FitAt = record { quick = λ m n. omega arith; failed_at = tt; light = omega arith }

pool_store-Ends_example :
    Ends HasEnded
      (pool_store store_env list_strategy (bytes "set") (pos 0) 3 plain_item fresh_servers)
pool_store-Ends_example =
    pool_store-Ends ValidState (HomeState sum_step (bytes "user:1") 0) store_env (bytes "set")
      (pos 0) list_strategy (pool_strategy-Lawful storing_net plain_settings sum_step insertion 1 1)
      (bytes "user:1") 0
      (pool_strategy-Homing storing_net plain_settings insertion.sort sum_step 1 1 (bytes "user:1")
        0 refl)
      2 plain_item fresh_servers plain_item-Intact plain_item-Homely fresh_servers-AllLive
      fresh_servers-FitAt

-- A persistent connection that has been closed meanwhile, and a value that is compressed: the second
-- round reads the freed block.
abbrev lossy_net : Env
lossy_net = record storing_net {
  line = λ n. if ltb n 6 then none else some (bytes "options DIAlgo=none x");
}

abbrev lossy_env : StoreEnv
lossy_env = record store_env { env = lossy_net }

abbrev packed_item : Item HashState
packed_item = record one_item { flags = 2 }

crashes : Run (Option (Stored HashState)) → Bool
crashes crash = true
crashes (ret o w) = false

freed_value :
    crashes (
      pool_store lossy_env
        (pool_strategy sum_step lossy_net plain_settings insertion.sort 1 1)
        (bytes "set")
        (pos 0)
        2
        packed_item
        asked_servers)
    ≡ true
unfolding crashes pool_store pool_strategy server_new search_text print_ℤ print_ℕ
freed_value = refl
