-- ===== src/Config.antt =====
-- The settings of the extension: the handlers of memcache.cpp that the engine calls for a new value
-- of an ini entry, and the table that registers them. `OnUpdateLong` is the engine's: what it stores
-- is the parameter `zend_atol`. The notices of a refusal are left out.
pub mod Range
pub mod Printed
mod Tests
use php_pecl_memcache_zynga.Prelude.{
  ℕ, suc, ◌+◌, ◌-◌, ◌%◌, ◌^◌, Bool, true, false, not, ◌&&◌, ◌||◌, List, [], ◌∷◌, Option, none, some,
  ltb, leb, ◌==◌, if◌then◌else◌, length, map,
}
use php_pecl_memcache_zynga.Prelude.Int.{ℤ, pos, negsuc, ltb_ℤ}
use php_pecl_memcache_zynga.Prelude.Bytes.{Bytes, bytes, bytes_eq}
use php_pecl_memcache_zynga.Prelude.Numbers.{strtol, int_of_long}

-- The module's globals that the entries below set.
pub record Globals : Type 0 where
  pub max_failover_attempts : ℤ
  pub chunk_size : ℤ
  pub hash_strategy : ℕ
  pub hash_function : ℕ
  pub default_timeout_ms : ℤ
  pub compression_level : ℤ
  pub proxy_host : Option Bytes
  pub proxy_hostlen : ℕ
  pub retry_interval : ℤ
  pub log_conf : Option Bytes
  pub integrity_error_retry_count : ℤ
  pub integrity_algo : Bytes

pub data Entry : Type 0 where
  max_failover_attempts chunk_size hash_strategy hash_function default_timeout_ms : Entry
  compression_level proxy_host retry_interval log_conf : Entry
  integrity_error_retry_count integrity_algo : Entry

-- SUCCESS with the globals, FAILURE, which leaves them, or a NULL text read.
pub data Update : Type 0 where
  accepted : Globals → Update
  refused : Update
  crashed : Update

abbrev pub mmc_standard_hash : ℕ
mmc_standard_hash = 1

abbrev pub mmc_consistent_hash : ℕ
mmc_consistent_hash = 2

abbrev pub hash_crc32 : ℕ
hash_crc32 = 1

abbrev pub hash_fnv1a : ℕ
hash_fnv1a = 2

unfoldable pub to_lower : ℕ → ℕ
to_lower c = if leb 65 c && leb c 90 then c + 32 else c

-- `!strcasecmp(a, b)`
unfoldable pub same_word : Bytes → Bytes → Bool
unfolding to_lower
same_word a b = bytes_eq (map to_lower a) (map to_lower b)

unfoldable pub unless_refused : Bool → Globals → Update
unless_refused true g = refused
unless_refused false g = accepted g

-- `lval <= 0`
abbrev pub not_positive : ℤ → Bool
not_positive lval = not (ltb_ℤ (pos 0) lval)

abbrev pub outside : ℤ → ℤ → ℤ → Bool
outside low high lval = ltb_ℤ lval low || ltb_ℤ high lval

-- The first of two words, the second, or neither.
unfoldable pub choose : Bool → Bool → Globals → Globals → Update
choose true b g h = accepted g
choose false true g h = accepted h
choose false false g h = refused

-- The handlers that read the text at once.
unfoldable pub on_text : (Bytes → Update) → Option Bytes → Update
on_text f none = crashed
on_text f (some s) = f s

-- The handlers that leave the setting where there is no text.
unfoldable pub on_some : (Bytes → Update) → Globals → Option Bytes → Update
on_some f g none = accepted g
on_some f g (some s) = f s

module _ (zend_atol : Bytes → ℤ) (g : Globals) where
  -- `OnUpdateChunkSize`
  unfoldable pub on_update_chunk_size : Bytes → Update
  unfolding unless_refused strtol
  on_update_chunk_size s =
      unless_refused (not_positive (strtol s)) (record g { chunk_size = zend_atol s })

  -- `OnUpdateFailoverAttempts`
  unfoldable pub on_update_failover_attempts : Bytes → Update
  unfolding unless_refused strtol
  on_update_failover_attempts s =
      unless_refused (not_positive (strtol s)) (record g { max_failover_attempts = zend_atol s })

  -- `OnUpdateHashStrategy`
  unfoldable pub on_update_hash_strategy : Bytes → Update
  unfolding choose same_word
  on_update_hash_strategy s =
      choose (same_word s (bytes "standard")) (same_word s (bytes "consistent"))
        (record g { hash_strategy = mmc_standard_hash })
        (record g { hash_strategy = mmc_consistent_hash })

  -- `OnUpdateHashFunction`
  unfoldable pub on_update_hash_function : Bytes → Update
  unfolding choose same_word
  on_update_hash_function s =
      choose (same_word s (bytes "crc32")) (same_word s (bytes "fnv"))
        (record g { hash_function = hash_crc32 }) (record g { hash_function = hash_fnv1a })

  -- `OnUpdateDefaultTimeout`
  unfoldable pub on_update_default_timeout : Bytes → Update
  unfolding unless_refused strtol
  on_update_default_timeout s =
      unless_refused (not_positive (strtol s)) (record g { default_timeout_ms = strtol s })

  -- `OnUpdateCompressionLevel`
  unfoldable pub on_update_compression_level : Bytes → Update
  unfolding unless_refused strtol
  on_update_compression_level s =
      unless_refused (outside (pos 0) (pos 9) (strtol s))
        (record g { compression_level = strtol s })

  -- `OnUpdateRetryInterval`
  unfoldable pub on_update_retry_interval : Bytes → Update
  unfolding unless_refused strtol int_of_long
  on_update_retry_interval s =
      unless_refused (outside (pos 3) (pos 30) (int_of_long (strtol s)))
        (record g { retry_interval = int_of_long (strtol s) })

  -- `OnUpdateProxyHost`
  unfoldable pub on_update_proxy_host : Bytes → Update
  on_update_proxy_host s = accepted (record g { proxy_hostlen = length s; proxy_host = some s })

  -- `OnUpdateLogConf`
  unfoldable pub on_update_log_conf : Bytes → Update
  on_update_log_conf s = accepted (record g { log_conf = some s })

  -- `OnUpdateIntegrityRetryCount`, which the table does not name
  unfoldable pub on_update_integrity_retry_count : Bytes → Update
  unfolding unless_refused strtol int_of_long
  on_update_integrity_retry_count s =
      unless_refused (outside (pos 0) (pos 3) (int_of_long (strtol s)))
        (record g { integrity_error_retry_count = int_of_long (strtol s) })

  -- `OnUpdateIntegrityAlgo`
  unfoldable pub on_update_integrity_algo : Bytes → Update
  unfolding unless_refused
  on_update_integrity_algo s =
      unless_refused (not (bytes_eq s (bytes "crc32") || bytes_eq s (bytes "none")))
        (record g { integrity_algo = s })

  -- The handler that the table gives an entry.
  unfoldable pub on_update : Entry → Option Bytes → Update
  unfolding on_text on_some on_update_chunk_size on_update_failover_attempts on_update_hash_strategy
      on_update_hash_function on_update_default_timeout on_update_compression_level
      on_update_retry_interval on_update_proxy_host on_update_log_conf on_update_integrity_algo
  on_update max_failover_attempts v = on_text on_update_failover_attempts v
  on_update chunk_size v = on_text on_update_chunk_size v
  on_update hash_strategy v = on_text on_update_hash_strategy v
  on_update hash_function v = on_text on_update_hash_function v
  on_update default_timeout_ms v = on_text on_update_default_timeout v
  on_update compression_level v = on_text on_update_compression_level v
  on_update proxy_host v = on_some on_update_proxy_host g v
  on_update retry_interval v = on_text on_update_retry_interval v
  on_update log_conf v = on_some on_update_log_conf g v
  on_update integrity_error_retry_count v =
      on_text (λ s. accepted (record g { integrity_error_retry_count = zend_atol s })) v
  on_update integrity_algo v = on_some on_update_integrity_algo g v

-- The table's entries with their first values.
abbrev pub ini_entries : List (Entry × Option Bytes)
ini_entries =
    (max_failover_attempts, some (bytes "20"))
    ∷ (chunk_size, some (bytes "8192"))
    ∷ (hash_strategy, some (bytes "standard"))
    ∷ (hash_function, some (bytes "crc32"))
    ∷ (default_timeout_ms, some (bytes "10000"))
    ∷ (compression_level, some (bytes "0"))
    ∷ (proxy_host, none)
    ∷ (retry_interval, some (bytes "15"))
    ∷ (log_conf, none)
    ∷ (integrity_error_retry_count, some (bytes "3"))
    ∷ (integrity_algo, some (bytes "crc32"))
    ∷ []

-- The engine's calls in a row; a refusal leaves the globals.
module _ (zend_atol : Bytes → ℤ) where
  unfoldable pub after_update : Globals → Update → Option Globals
  after_update g (accepted h) = some h
  after_update g refused = some g
  after_update g crashed = none

  unfoldable pub update_all : List (Entry × Option Bytes) → Option Globals → Option Globals
  unfolding on_update after_update
  update_all [] o = o
  update_all (e ∷ es) none = none
  update_all ((e, v) ∷ es) (some g) = update_all es (after_update g (on_update zend_atol g e v))
