-- ===== src/Config/Range.antt =====
-- The settings stay in their ranges, whatever texts the handlers are given.
use php_pecl_memcache_zynga.Prelude.{
  ℕ, zero, suc, ◌≤◌, ◌≡◌, refl, ◌⊎◌, inl, inr, Bool, true, false, not, ◌||◌, Option, none, some,
  arith,
}
use php_pecl_memcache_zynga.Prelude.Int.{ℤ, pos, negsuc}
use php_pecl_memcache_zynga.Prelude.Bytes.{Bytes, bytes, bytes_eq, bytes_eq_iff}
use php_pecl_memcache_zynga.Config.{
  Globals, Entry, max_failover_attempts, chunk_size, hash_strategy, hash_function,
  default_timeout_ms, compression_level, proxy_host, retry_interval, log_conf,
  integrity_error_retry_count, integrity_algo, Update, accepted, refused, crashed, unless_refused,
  not_positive, outside, choose, on_text, on_some, on_update, on_update_chunk_size,
  on_update_failover_attempts, on_update_hash_strategy, on_update_hash_function,
  on_update_default_timeout, on_update_compression_level, on_update_retry_interval,
  on_update_proxy_host, on_update_log_conf, on_update_integrity_algo, ini_entries, update_all,
  same_word, mmc_standard_hash, mmc_consistent_hash, hash_crc32, hash_fnv1a,
}
use php_pecl_memcache_zynga.Prelude.Numbers.{strtol, int_of_long}

-- A number between two bounds.
pub record Within (low high : ℕ) (z : ℤ) : Type 0 where
  pub value : ℕ
  pub is_value : z ≡ pos value
  pub above : low ≤ value
  pub below : value ≤ high

pub record IsPositive (z : ℤ) : Type 0 where
  pub amount : ℕ
  pub is_amount : z ≡ pos (suc amount)

pub record Ranges (strategy function : ℕ) (timeout level interval : ℤ) (algo : Bytes) : Type 0 where
  pub strategy_known : (strategy ≡ 1) ⊎ (strategy ≡ 2)
  pub function_known : (function ≡ 1) ⊎ (function ≡ 2)
  pub timeout_positive : IsPositive timeout
  pub level_within : Within 0 9 level
  pub interval_within : Within 3 30 interval
  pub algo_known : (algo ≡ bytes "crc32") ⊎ (algo ≡ bytes "none")

abbrev pub InRange : Globals → Type 0
InRange g =
    Ranges g.hash_strategy g.hash_function g.default_timeout_ms g.compression_level g.retry_interval
      g.integrity_algo

-- What the handler accepts has the property.
abbrev pub Accepts : (Globals → Type 0) → Update → Type 0
Accepts P (accepted g) = P g
Accepts P refused = Unit {0}
Accepts P crashed = Unit {0}

outside-Within : (low high : ℕ) (z : ℤ) → outside (pos low) (pos high) z ≡ false → Within low high z
outside-Within low high (pos n) h = record {
  value = n;
  is_value = refl;
  above = ground arith;
  below = ground arith;
}
outside-Within low high (negsuc n) h = absurd (ground arith)

not_positive-IsPositive : (z : ℤ) → not_positive z ≡ false → IsPositive z
not_positive-IsPositive (pos zero) h = absurd (ground arith)
not_positive-IsPositive (pos (suc n)) h = record { amount = n; is_amount = refl }
not_positive-IsPositive (negsuc n) h = absurd (ground arith)

unless-Accepts :
    (P : Globals → Type 0) (b : Bool) (g : Globals)
    → (b ≡ false → P g)
    → Accepts P (unless_refused b g)
unfolding unless_refused
unless-Accepts P true g h = tt
unless-Accepts P false g h = h refl

choose-Accepts :
    (P : Globals → Type 0) (b c : Bool) (g h : Globals) → P g → P h → Accepts P (choose b c g h)
unfolding choose
choose-Accepts P true c g h p q = p
choose-Accepts P false true g h p q = q
choose-Accepts P false false g h p q = tt

text-Accepts :
    (P : Globals → Type 0) (f : Bytes → Update) (v : Option Bytes)
    → ((s : Bytes) → Accepts P (f s))
    → Accepts P (on_text f v)
unfolding on_text
text-Accepts P f none h = tt
text-Accepts P f (some s) h = h s

some-Accepts :
    (P : Globals → Type 0) (f : Bytes → Update) (g : Globals) (v : Option Bytes)
    → P g
    → ((s : Bytes) → Accepts P (f s))
    → Accepts P (on_some f g v)
unfolding on_some
some-Accepts P f g none p h = p
some-Accepts P f g (some s) p h = h s

either_word : (b c : Bool) → not (b || c) ≡ false → (b ≡ true) ⊎ (c ≡ true)
either_word true c h = inl refl
either_word false true h = inr refl
either_word false false h = absurd (ground arith)

one_of_two : (s a b : Bytes) → not (bytes_eq s a || bytes_eq s b) ≡ false → (s ≡ a) ⊎ (s ≡ b)
one_of_two s a b h = elim (either_word (bytes_eq s a) (bytes_eq s b) h) [
  | inl e ↦ inl ((bytes_eq_iff s a).0 e)
  | inr e ↦ inr ((bytes_eq_iff s b).0 e)
]

module _ (zend_atol : Bytes → ℤ) where
  -- Every handler of the table.
  pub on_update-InRange :
      (g : Globals) (e : Entry) (v : Option Bytes)
      → InRange g
      → Accepts InRange (on_update zend_atol g e v)
  unfolding on_update on_update_chunk_size on_update_failover_attempts on_update_hash_strategy
      on_update_hash_function on_update_default_timeout on_update_compression_level
      on_update_retry_interval on_update_proxy_host on_update_log_conf on_update_integrity_algo
  on_update-InRange g max_failover_attempts v r =
      text-Accepts InRange (on_update_failover_attempts zend_atol g) v (λ s.
        unless-Accepts InRange (not_positive (strtol s))
          (record g { max_failover_attempts = zend_atol s }) (λ e. r))
  on_update-InRange g chunk_size v r =
      text-Accepts InRange (on_update_chunk_size zend_atol g) v (λ s.
        unless-Accepts InRange (not_positive (strtol s)) (record g { chunk_size = zend_atol s })
          (λ e. r))
  on_update-InRange g hash_strategy v r =
      text-Accepts InRange (on_update_hash_strategy zend_atol g) v (λ s.
        choose-Accepts InRange (same_word s (bytes "standard")) (same_word s (bytes "consistent"))
          (record g { hash_strategy = mmc_standard_hash })
          (record g { hash_strategy = mmc_consistent_hash })
          (record {
            strategy_known = inl refl;
            function_known = r.function_known;
            timeout_positive = r.timeout_positive;
            level_within = r.level_within;
            interval_within = r.interval_within;
            algo_known = r.algo_known;
          })
          (record {
            strategy_known = inr refl;
            function_known = r.function_known;
            timeout_positive = r.timeout_positive;
            level_within = r.level_within;
            interval_within = r.interval_within;
            algo_known = r.algo_known;
          }))
  on_update-InRange g hash_function v r =
      text-Accepts InRange (on_update_hash_function zend_atol g) v (λ s.
        choose-Accepts InRange (same_word s (bytes "crc32")) (same_word s (bytes "fnv"))
          (record g { hash_function = hash_crc32 }) (record g { hash_function = hash_fnv1a })
          (record {
            strategy_known = r.strategy_known;
            function_known = inl refl;
            timeout_positive = r.timeout_positive;
            level_within = r.level_within;
            interval_within = r.interval_within;
            algo_known = r.algo_known;
          })
          (record {
            strategy_known = r.strategy_known;
            function_known = inr refl;
            timeout_positive = r.timeout_positive;
            level_within = r.level_within;
            interval_within = r.interval_within;
            algo_known = r.algo_known;
          }))
  on_update-InRange g default_timeout_ms v r =
      text-Accepts InRange (on_update_default_timeout zend_atol g) v (λ s.
        unless-Accepts InRange (not_positive (strtol s))
          (record g { default_timeout_ms = strtol s })
          (λ e. record {
            strategy_known = r.strategy_known;
            function_known = r.function_known;
            timeout_positive = not_positive-IsPositive (strtol s) e;
            level_within = r.level_within;
            interval_within = r.interval_within;
            algo_known = r.algo_known;
          }))
  on_update-InRange g compression_level v r =
      text-Accepts InRange (on_update_compression_level zend_atol g) v (λ s.
        unless-Accepts InRange (outside (pos 0) (pos 9) (strtol s))
          (record g { compression_level = strtol s })
          (λ e. record {
            strategy_known = r.strategy_known;
            function_known = r.function_known;
            timeout_positive = r.timeout_positive;
            level_within = outside-Within 0 9 (strtol s) e;
            interval_within = r.interval_within;
            algo_known = r.algo_known;
          }))
  on_update-InRange g proxy_host v r =
      some-Accepts InRange (on_update_proxy_host zend_atol g) g v r (λ s. r)
  on_update-InRange g retry_interval v r =
      text-Accepts InRange (on_update_retry_interval zend_atol g) v (λ s.
        unless-Accepts InRange (outside (pos 3) (pos 30) (int_of_long (strtol s)))
          (record g { retry_interval = int_of_long (strtol s) })
          (λ e. record {
            strategy_known = r.strategy_known;
            function_known = r.function_known;
            timeout_positive = r.timeout_positive;
            level_within = r.level_within;
            interval_within = outside-Within 3 30 (int_of_long (strtol s)) e;
            algo_known = r.algo_known;
          }))
  on_update-InRange g log_conf v r =
      some-Accepts InRange (on_update_log_conf zend_atol g) g v r (λ s. r)
  on_update-InRange g integrity_error_retry_count v r =
      text-Accepts InRange (λ s. accepted (record g { integrity_error_retry_count = zend_atol s }))
        v (λ s. r)
  on_update-InRange g integrity_algo v r =
      some-Accepts InRange (on_update_integrity_algo zend_atol g) g v r (λ s.
        unless-Accepts InRange (not (bytes_eq s (bytes "crc32") || bytes_eq s (bytes "none")))
          (record g { integrity_algo = s })
          (λ e. record {
            strategy_known = r.strategy_known;
            function_known = r.function_known;
            timeout_positive = r.timeout_positive;
            level_within = r.level_within;
            interval_within = r.interval_within;
            algo_known = one_of_two s (bytes "crc32") (bytes "none") e;
          }))

  -- The globals behind the registration and any updates.
  pub data Reachable : Globals → Type 0 where
    registered : (g h : Globals) → update_all zend_atol ini_entries (some g) ≡ some h → Reachable h
    updated :
        (g h : Globals) (e : Entry) (v : Option Bytes)
        → Reachable g
        → on_update zend_atol g e v ≡ accepted h
        → Reachable h

  -- What the registration makes of any globals.
  abbrev registered_globals : Globals → Globals
  registered_globals g = record {
    max_failover_attempts = zend_atol (bytes "20");
    chunk_size = zend_atol (bytes "8192");
    hash_strategy = mmc_standard_hash;
    hash_function = hash_crc32;
    default_timeout_ms = pos 10000;
    compression_level = pos 0;
    proxy_host = g.proxy_host;
    proxy_hostlen = g.proxy_hostlen;
    retry_interval = pos 15;
    log_conf = g.log_conf;
    integrity_error_retry_count = zend_atol (bytes "3");
    integrity_algo = bytes "crc32";
  }
