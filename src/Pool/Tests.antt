-- ===== src/Pool/Tests.antt =====
-- Pools of servers that answer their options and store every value.
use php_pecl_memcache_zynga.Prelude.{
  ℕ, ◌+◌, ◌*◌, ◌%◌, ◌^◌, ◌≡◌, refl, true, false, [], ◌∷◌, none, some, ltb, if◌then◌else◌,
}
use php_pecl_memcache_zynga.Prelude.Int.{pos}
use php_pecl_memcache_zynga.Prelude.Bytes.{bytes}
use php_pecl_memcache_zynga.Net.{Env, World}
use php_pecl_memcache_zynga.Net.Search.{search_text}
use php_pecl_memcache_zynga.Server.{server_new}
use php_pecl_memcache_zynga.Server.Live.{AllLive}
use php_pecl_memcache_zynga.Server.Failure.{Ends}
use php_pecl_memcache_zynga.Consistent.Insertion.{insertion}
use php_pecl_memcache_zynga.Failover.{Settings}
use php_pecl_memcache_zynga.Failover.Find.{StandardState}
use php_pecl_memcache_zynga.Pool.{Strategy, Pool, pool_find, reply_algo}
use php_pecl_memcache_zynga.Pool.Strategies.{HashState, standard_hash, pool_strategy, ValidState}
use php_pecl_memcache_zynga.Pool.Ready.{PoolFound, pool_find-Ready}
use php_pecl_memcache_zynga.Pool.Law.{pool_strategy-Lawful}
use php_pecl_memcache_zynga.Hash.{mmc_hash_crc32}
use php_pecl_memcache_zynga.Failover.Find.{mmc_hash}
use php_pecl_memcache_zynga.Pool.Strategies.{hash_of}
use php_pecl_memcache_zynga.Pool.Options.{Lawful}
use php_pecl_memcache_zynga.Pool.Homing.{Homing}
use php_pecl_memcache_zynga.Pool.Home.{HomeState, pool_strategy-Homing}

-- The first line answers the options.
abbrev pub storing_net : Env
storing_net = record {
  connect = λ n. record { opened = some n; errstr = none; err = 0 };
  accept = λ n len. len;
  line = λ n. if ltb n 4 then some (bytes "options DIAlgo=crc32 x") else some (bytes "STORED 7");
  read = λ n len. [];
  time = λ n. 1000;
  memnstr = search_text;
}

abbrev pub plain_settings : Settings
plain_settings = record {
  connection_retry_count = 0;
  allow_failover = false;
  max_failover_attempts = 20;
  proxy = none;
}

abbrev pub fresh_servers : World
fresh_servers = record {
  servers = λ j. server_new (bytes "cache") 11211 true 1 (pos 15) false;
  calls = 0;
  events = [];
}

pub fresh_servers-AllLive : AllLive fresh_servers
unfolding server_new
fresh_servers-AllLive = record { at = λ j. tt }

abbrev pub sum_step : ℕ → ℕ → ℕ
sum_step h c = (h * 33 + c) % 2 ^ 32

abbrev pub list_strategy : Strategy HashState
list_strategy = pool_strategy sum_step storing_net plain_settings insertion.sort 1 1

-- Two servers, one of weight 2.
abbrev pub two_servers : StandardState
two_servers = record { num_servers = 2; buckets = 0 ∷ 1 ∷ 1 ∷ [] }

abbrev pub two_pool : Pool HashState
two_pool = record {
  servers = 0 ∷ 1 ∷ [];
  compress_threshold = 0;
  proxy_enabled = false;
  saves_enough = λ n m. ltb n m;
  hash_state = standard_hash 1 two_servers;
  false_on_error = false;
  cas_array = (bytes "user:1", 41) ∷ [];
  enable_checksum = true;
}

crc_reply : reply_algo storing_net 22 (bytes "options DIAlgo=crc32 x") ≡ 2
unfolding reply_algo search_text
crc_reply = refl

off_reply : reply_algo storing_net 21 (bytes "options DIAlgo=none x") ≡ 1
unfolding reply_algo search_text
off_reply = refl

unsupported_reply : reply_algo storing_net 7 (bytes "ERROR x") ≡ 0
unfolding reply_algo search_text
unsupported_reply = refl

pool_find-Ready_example :
    Ends
      (PoolFound ValidState two_pool)
      (pool_find storing_net (bytes "crc32") list_strategy two_pool (bytes "user:1") fresh_servers)
pool_find-Ready_example =
    pool_find-Ready storing_net (bytes "crc32") list_strategy ValidState two_pool (bytes "user:1")
      fresh_servers (pool_strategy-Lawful storing_net plain_settings sum_step insertion 1 1)
      (λ e. cc e) refl fresh_servers-AllLive

pool_strategy-Lawful_example :
    Lawful (pool_strategy sum_step storing_net plain_settings insertion.sort 2 2) ValidState
pool_strategy-Lawful_example =
    pool_strategy-Lawful storing_net plain_settings sum_step insertion 2 2

pool_strategy-Homing_example :
    Homing storing_net
      (pool_strategy sum_step storing_net plain_settings insertion.sort 1 1)
      ValidState
      (HomeState sum_step (bytes "user:1") 0)
      (bytes "user:1")
      0
pool_strategy-Homing_example =
    pool_strategy-Homing storing_net plain_settings insertion.sort sum_step 1 1 (bytes "user:1") 0
      refl

-- The home of the key among the two servers.
home_of_key : HomeState sum_step (bytes "user:1") 0 two_pool.hash_state
unfolding mmc_hash_crc32 mmc_hash hash_of
home_of_key = refl
