-- ===== src/Pool.antt =====
-- The pool of servers: its creation, `mmc_pool_add`, the options that are exchanged with a server, and
-- `mmc_pool_find`, of memcache.cpp. The hash strategy is an interface, as `mmc_hash_t` is.
pub mod Strategies
pub mod Options
pub mod Ready
pub mod Law
pub mod Homing
pub mod Tried
pub mod Home
pub mod Tests
use php_pecl_memcache_zynga.Prelude.{
  ◌%◌, ◌^◌, ℕ, suc, ◌+◌, ◌-◌, Bool, true, false, not, ◌&&◌, ◌||◌, List, [], ◌∷◌, ◌++◌, Option, none,
  some, ◌==◌, if◌then◌else◌, take, drop,
}
use php_pecl_memcache_zynga.Prelude.Bytes.{Bytes, bytes}
use php_pecl_memcache_zynga.Net.{
  Status, failed_status, disconnected, unknown, connected, Server, Env, World, update, str_left,
}
use php_pecl_memcache_zynga.Server.{server_failure, readline, Run, ret, crash, ◌>>=◌}
use php_pecl_memcache_zynga.Command.{write_prefix, write_request}

-- `mmc_hash_t`: the operations of a strategy on its state.
pub record Strategy (S : Type 0) : Type 0 where
  pub create_state : S
  pub find_server : S → Bytes → Bool → World → S × Run (Option ℕ)
  pub add_server : S → ℕ → ℕ → World → S

-- `mmc_pool_t`. `saves_enough data_len value_len` is the comparison of doubles
-- `data_len < value_len * (1 - min_compress_savings)`; `cas_array` is keyed by texts.
pub record Pool (S : Type 0) : Type 0 where
  pub servers : List ℕ
  pub compress_threshold : ℕ
  pub proxy_enabled : Bool
  pub saves_enough : ℕ → ℕ → Bool
  pub hash_state : S
  pub false_on_error : Bool
  pub cas_array : List (Bytes × ℕ)
  pub enable_checksum : Bool

module _ {S : Type 0} (strategy : Strategy S) where
  -- `mmc_pool_new` with the settings it reads; `default_savings` compares with MMC_DEFAULT_SAVINGS.
  unfoldable pub pool_new : Bool → Bool → (ℕ → ℕ → Bool) → Pool S
  pool_new proxy_enabled false_on_error default_savings = record {
    servers = [];
    compress_threshold = 0;
    proxy_enabled = proxy_enabled;
    saves_enough = default_savings;
    hash_state = strategy.create_state;
    false_on_error = false_on_error;
    cas_array = [];
    enable_checksum = false;
  }

  -- `mmc_pool_add`
  unfoldable pub pool_add : Pool S → ℕ → ℕ → World → Pool S
  pool_add pool i weight w = record pool {
    servers = pool.servers ++ (i ∷ []);
    hash_state = strategy.add_server pool.hash_state i (weight % 2 ^ 32) w;
  }

-- The request for the options; `algo` is the setting `integrity_algo`.
unfoldable pub options_text : Bytes → Bool → Bytes
options_text algo enable_checksum =
    bytes "options version=2.5.0.7 DIAlgo="
    ++ ((if enable_checksum then algo else bytes "none") ++ (13 ∷ 10 ∷ []))

abbrev set_got_options : ℕ → World → World
set_got_options i w = update i (record (w.servers i) { got_options = true }) w

unfoldable pub got_from_proxy : Bool → Option ℕ → World → World
unfolding update
got_from_proxy true (some p) w = set_got_options p w
got_from_proxy _ proxy w = w

-- `di_algo_in_use`
unfoldable pub algo_in_use : Bool → ℕ → ℕ
algo_in_use true algo = algo
algo_in_use false algo = if algo == 0 then 0 else 1

unfoldable pub use_algo : Bool → ℕ → World → World
unfolding algo_in_use update
use_algo enable_checksum i w =
    update i
      (record (w.servers i) {
        di_algo_in_use = algo_in_use enable_checksum (w.servers i).data_integrity_algo;
      })
      w

abbrev got_options_of : Option ℕ → World → Bool
got_options_of none w = true
got_options_of (some p) w = (w.servers p).got_options

abbrev pub is_failed : Status → Bool
is_failed failed_status = true
is_failed _ = false

abbrev pub is_null : Option ℕ → Bool
is_null none = true
is_null (some p) = false

module _ (env : Env) where
  -- The text from its first "=", if there is one: DI_CHKSUM_CRC or DI_CHKSUM_SUPPORTED_OFF.
  unfoldable pub algo_at : Option ℕ → Bytes → ℕ
  algo_at none text = 1
  algo_at (some at) text = elim (env.memnstr (bytes "crc32") (drop at text)) [
    | none ↦ 1
    | some found ↦ 2
  ]

  -- The text from "DIAlgo", if there is one.
  unfoldable pub di_options : Option ℕ → Bytes → ℕ
  unfolding algo_at
  di_options none text = 0
  di_options (some at) text = algo_at (env.memnstr (bytes "=") (drop at text)) (drop at text)

  -- `data_integrity_algo` behind a reply of `response_len` bytes.
  unfoldable pub reply_algo : ℕ → Bytes → ℕ
  unfolding di_options str_left
  reply_algo response_len inbuf =
      let text = take (response_len - 2) inbuf in
      if str_left env inbuf (bytes "options")
      then di_options (env.memnstr (bytes "DIAlgo") text) text
      else 0

  unfoldable pub take_options : Bool → ℕ → ℕ → World → Run Bool
  unfolding reply_algo update
  take_options true response_len i w = ret false w
  take_options false response_len i w = ret true (
      update i
        (record (w.servers i) { data_integrity_algo = reply_algo response_len (w.servers i).inbuf })
        w)

  unfoldable pub read_options : ℕ → Option ℕ × World → Run Bool
  unfolding take_options str_left
  read_options i (none, w) = ret false w
  read_options i (some response_len, w) =
      take_options (str_left env (w.servers i).inbuf (bytes "SERVER_ERROR")) response_len i w

  unfoldable pub options_sent : ℕ → Bool → World → Run Bool
  unfolding read_options readline
  options_sent i false w = ret false w
  options_sent i true w = read_options i (readline env i w)

  -- `get_options`: true for 0; the timeout of the stream is left out
  unfoldable pub get_options : Bytes → Bool → ℕ → World → Run Bool
  unfolding write_prefix write_request options_text options_sent
  get_options algo enable_checksum i w =
      (write_prefix env i w >>= write_request env (options_text algo enable_checksum) i)
      >>= options_sent i

  unfoldable pub note_options : Bool → ℕ → Bool → World → World
  unfolding got_from_proxy server_failure update
  note_options proxy_enabled i true w =
      got_from_proxy proxy_enabled (w.servers i).proxy (set_got_options i w)
  note_options proxy_enabled i false w = (server_failure env i w).1

module _ {S : Type 0} (env : Env) (algo : Bytes) where
  unfoldable pub ask_options : Pool S → ℕ → Bool → World → Run (Pool S × Option ℕ)
  unfolding get_options note_options use_algo
  ask_options pool i true w = get_options env algo pool.enable_checksum i w >>= (λ ok w'.
      ret (pool, some i)
        (use_algo pool.enable_checksum i (note_options env pool.proxy_enabled i ok w')))
  ask_options pool i false w = ret (pool, some i) (use_algo pool.enable_checksum i w)

  unfoldable pub with_found : Pool S → Bool → ℕ → World → Run (Pool S × Option ℕ)
  unfolding ask_options
  with_found pool true i w = ret (pool, some i) w
  with_found pool false i w =
      ask_options pool i
        (not (w.servers i).got_options
          || (pool.proxy_enabled && not (got_options_of (w.servers i).proxy w)))
        w

  unfoldable pub check_found : Pool S → Option ℕ → World → Run (Pool S × Option ℕ)
  unfolding with_found
  check_found pool none w = ret (pool, none) w
  check_found pool (some i) w =
      with_found pool
        (is_failed (w.servers i).status || (pool.proxy_enabled && is_null (w.servers i).proxy)) i w

  -- `mmc_pool_find`, with the pool it leaves
  unfoldable pub pool_find : Strategy S → Pool S → Bytes → World → Run (Pool S × Option ℕ)
  unfolding check_found
  pool_find strategy pool key w =
      let found = strategy.find_server pool.hash_state key pool.proxy_enabled w in
      found.1 >>= check_found (record pool { hash_state = found.0 })
