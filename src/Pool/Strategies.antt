-- ===== src/Pool/Strategies.antt =====
-- The two hash strategies of a pool, by the settings: `mmc_pool_init_hash` of memcache.cpp and the
-- tables of operations of the two files.
use php_pecl_memcache_zynga.Prelude.{ℕ, ◌≢◌, Bool, List, [], Option, ◌==◌, if◌then◌else◌}
use php_pecl_memcache_zynga.Prelude.Bytes.{Bytes}
use php_pecl_memcache_zynga.Net.{Env, World}
use php_pecl_memcache_zynga.Server.{Run}
use php_pecl_memcache_zynga.Hash.{mmc_hash_crc32, mmc_hash_fnv1a}
use php_pecl_memcache_zynga.Consistent.{Point, State, create_state, add_server}
use php_pecl_memcache_zynga.Failover.{Settings}
use php_pecl_memcache_zynga.Failover.Find.{
  StandardState, standard_create_state, standard_add_server, consistent_find_server,
  standard_find_server,
}
use php_pecl_memcache_zynga.Config.{mmc_consistent_hash, hash_fnv1a}
use php_pecl_memcache_zynga.Pool.{Strategy}

-- A strategy's state with the function that its servers' keys are hashed with.
pub data HashState : Type 0 where
  standard_hash : ℕ → StandardState → HashState
  consistent_hash : ℕ → State → HashState

-- `mmc_pool_init_hash` at the settings `hash_strategy` and `hash_function`
unfoldable pub init_hash : ℕ → ℕ → HashState
init_hash hash_strategy hash_function =
    if hash_strategy == mmc_consistent_hash
    then consistent_hash hash_function create_state
    else standard_hash hash_function standard_create_state

module _ (crc_step : ℕ → ℕ → ℕ) where
  unfoldable pub hash_of : ℕ → Bytes → ℕ
  hash_of hash_function key =
      if hash_function == hash_fnv1a then mmc_hash_fnv1a key else mmc_hash_crc32 crc_step key

  module _ (env : Env) (cfg : Settings) (qsort : List Point → List Point) where
    unfoldable pub find_by_state : HashState → Bytes → Bool → World → HashState × Run (Option ℕ)
    unfolding hash_of consistent_find_server standard_find_server
    find_by_state (standard_hash h s) key use_proxy w =
        (standard_hash h s, standard_find_server env cfg (hash_of h) s key use_proxy w)
    find_by_state (consistent_hash h s) key use_proxy w =
        let found = consistent_find_server env cfg (hash_of h) qsort s key use_proxy w in
        (consistent_hash h found.0, found.1)

    unfoldable pub add_by_state : HashState → ℕ → ℕ → World → HashState
    unfolding standard_add_server hash_of
    add_by_state (standard_hash h s) i weight w = standard_hash h (standard_add_server s i weight)
    add_by_state (consistent_hash h s) i weight w =
        consistent_hash h (add_server (hash_of h) s i (w.servers i).host (w.servers i).port weight)

    -- `pool->hash` by the settings
    unfoldable pub pool_strategy : ℕ → ℕ → Strategy HashState
    unfolding init_hash find_by_state add_by_state
    pool_strategy hash_strategy hash_function = record {
      create_state = init_hash hash_strategy hash_function;
      find_server = find_by_state;
      add_server = add_by_state;
    }

-- There is a bucket to choose, or a point.
abbrev pub ValidState : HashState → Type 0
ValidState (standard_hash h s) = s.buckets ≢ []
ValidState (consistent_hash h s) = s.points ≢ []
