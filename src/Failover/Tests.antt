-- ===== src/Failover/Tests.antt =====
-- A pool of three servers, whose first connections are refused.
use php_pecl_memcache_zynga.Prelude.{
  ℕ, ◌+◌, ◌%◌, ◌^◌, refl, true, false, [], ◌∷◌, none, some, leb, if◌then◌else◌, length,
}
use php_pecl_memcache_zynga.Prelude.Int.{pos}
use php_pecl_memcache_zynga.Prelude.Bytes.{Bytes, bytes}
use php_pecl_memcache_zynga.Net.{Env, World}
use php_pecl_memcache_zynga.Server.{server_new}
use php_pecl_memcache_zynga.Server.Live.{AllLive}
use php_pecl_memcache_zynga.Server.Failure.{Ends}
use php_pecl_memcache_zynga.Consistent.Insertion.{insertion}
use php_pecl_memcache_zynga.Consistent.{State}
use php_pecl_memcache_zynga.Failover.{Settings}
use php_pecl_memcache_zynga.Failover.Find.{
  StandardState, standard_create_state, standard_add_server, bucket_of, mmc_hash, standard_key,
  consistent_find_server, standard_find_server,
}
use php_pecl_memcache_zynga.Failover.Choice.{
  Found, FoundIn, consistent_find_server-Found, standard_find_server-Found,
}

abbrev waking_net : Env
waking_net = record {
  connect = λ n. record { opened = if leb n 4 then none else some n; errstr = none; err = 111 };
  accept = λ n len. len;
  line = λ n. none;
  read = λ n len. [];
  time = λ n. 1000 + n;
  memnstr = λ needle text. none;
}

abbrev settings : Settings
settings = record {
  connection_retry_count = 1;
  allow_failover = true;
  max_failover_attempts = 5;
  proxy = none;
}

abbrev fresh : World
fresh = record {
  servers = λ j. server_new (bytes "cache") 11211 true 1 (pos 15) false;
  calls = 0;
  events = [];
}

fresh-AllLive : AllLive fresh
unfolding server_new
fresh-AllLive = record { at = λ j. tt }

-- A hash that is the sum of the bytes.
sum_bytes : Bytes → ℕ
sum_bytes [] = 0
sum_bytes (c ∷ cs) = c + sum_bytes cs

abbrev circle : State
circle = record {
  num_servers = 3;
  points =
      record { server = 0; point = 10 }
      ∷ record { server = 1; point = 20 }
      ∷ record { server = 2; point = 30 }
      ∷ [];
  buckets = [];
  buckets_populated = false;
}

abbrev weighted : StandardState
weighted =
    standard_add_server (standard_add_server (standard_add_server standard_create_state 0 1) 1 2) 2
      1

consistent_find_server-Found_example :
    FoundIn waking_net settings sum_bytes insertion circle (bytes "user") (
      consistent_find_server waking_net settings sum_bytes insertion.sort circle
        (bytes "user")
        false
        fresh)
consistent_find_server-Found_example =
    consistent_find_server-Found waking_net settings sum_bytes insertion circle (bytes "user") fresh
      refl (λ e. cc e) fresh-AllLive

standard_find_server-Found_example :
    Ends
      (Found waking_net settings
        (λ i h. (h + mmc_hash sum_bytes (standard_key (bytes "user") i)) % 2 ^ 32)
        (bucket_of weighted.buckets (length weighted.buckets))
        (mmc_hash sum_bytes (bytes "user"))
        false)
      (standard_find_server waking_net settings sum_bytes weighted (bytes "user") false fresh)
unfolding standard_add_server
standard_find_server-Found_example =
    standard_find_server-Found waking_net settings sum_bytes weighted (bytes "user") fresh refl
      (λ e. cc e) fresh-AllLive
