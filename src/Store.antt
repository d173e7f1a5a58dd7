-- ===== src/Store.antt =====
-- Storing a value: `mmc_pool_store` of memcache.cpp. A buffer that has been freed is kept as such: the
-- model crashes where the code reads it. Keys and values are texts without NUL bytes. The logger is left
-- out but for the status code.
pub mod Request
pub mod Pack
pub mod Intact
pub mod Safe
pub mod Rounds
pub mod Replies
pub mod Next
pub mod Ended
mod Tests
use php_pecl_memcache_zynga.Prelude.{
  ℕ, zero, suc, ◌+◌, ◌-◌, ◌/◌, ◌%◌, ◌^◌, Bool, true, false, not, ◌&&◌, ◌||◌, List, [], ◌∷◌, ◌++◌,
  Option, none, some, ltb, leb, ◌==◌, if◌then◌else◌, length, take,
}
use php_pecl_memcache_zynga.Prelude.Int.{ℤ, pos, negsuc, ltb_ℤ}
use php_pecl_memcache_zynga.Prelude.Bytes.{Bytes, bytes, bytes_eq, starts_with}
use php_pecl_memcache_zynga.Prelude.Numbers.{print_ℤ, print_ℕ}
use php_pecl_memcache_zynga.Net.{Server, Env, World}
use php_pecl_memcache_zynga.Server.{server_failure, Run, ret, crash, ◌>>=◌}
use php_pecl_memcache_zynga.Command.{Done, server_store}
use php_pecl_memcache_zynga.Compress.{
  Codecs, has_flag, mmc_compressed, mmc_compressed_lzo, mmc_compressed_bzip2, mmc_compress,
}
use php_pecl_memcache_zynga.Hash.{get_checksum, get_checksum_extra}
use php_pecl_memcache_zynga.Pool.{Strategy, Pool, pool_find, is_failed}
use Pack.{StoreEnv, Packed, any_compressed, is_concatenation, choose_flags, pack, complete_checksum}
use Request.{store_request, checksum_header, clear_flag, set_flag, lookup_cas, remove_cas}

-- Memory that is read through a pointer.
pub data Buffer : Type 0 where
  held : Bytes → Buffer
  freed : Buffer

-- The status codes of logger.h that are set here.
abbrev pub compress_failed : ℕ
compress_failed = 107

abbrev pub connect_failed : ℕ
connect_failed = 117

abbrev pub di_checksum_set_failed : ℕ
di_checksum_set_failed = 138

abbrev pub key_limit : ℕ
key_limit = 250

-- The variables that go from one round of the loop to the next. `retries_left` is
-- `integrity_error_retry_count - 1 - retry_count`, stopping at 0.
pub record Item (S : Type 0) : Type 0 where
  pub pool : Pool S
  pub key : Buffer
  pub shard_key : Option Buffer
  pub flags : ℕ
  pub value : Buffer
  pub cas : ℕ
  pub crc32 : ℕ
  pub uncrc32 : ℕ
  pub crc_in_hdr : Bytes
  pub retries_left : ℕ

-- What the loop ends with; `server` is `mmc`.
pub record Stored (S : Type 0) : Type 0 where
  pub result : ℤ
  pub server : Option ℕ
  pub code : Option ℕ
  pub variables : Item S

-- A round breaks out of the loop, returns from the function, or ends with its result.
pub data RoundEnd (S : Type 0) : Type 0 where
  broke returned : Stored S → RoundEnd S
  ended : Stored S → RoundEnd S

abbrev cut_key : Bytes → Bytes
cut_key key = take key_limit key

-- A key behind the round: the copy of a long one is freed.
abbrev key_after : Bytes → Buffer
key_after key = if ltb key_limit (length key) then freed else held key

unfoldable pub to_ulong : ℤ → ℕ
to_ulong (pos n) = n
to_ulong (negsuc n) = 2 ^ 64 - 1 - n

unfoldable pub new_cas : Option ℤ → ℕ → ℕ
unfolding to_ulong
new_cas none cas = cas
new_cas (some v) cas = to_ulong v

-- The texts of a round.
pub record Texts : Type 0 where
  pub key : Bytes
  pub shard : Option Bytes
  pub value : Bytes

abbrev pub reading : Buffer → (Bytes → Option Texts) → Option Texts
reading freed f = none
reading (held text) f = f text

unfoldable pub read_shard : Option Buffer → Bytes → Bytes → Option Texts
read_shard none key value = some (record { key = key; shard = none; value = value })
read_shard (some freed) key value = none
read_shard (some (held shard)) key value =
    some (record { key = key; shard = some (cut_key shard); value = value })

abbrev pub shard_after : Option Buffer → Option Buffer
shard_after none = none
shard_after (some freed) = some freed
shard_after (some (held shard)) = some (key_after shard)

abbrev pub key_left : Buffer → Buffer
key_left freed = freed
key_left (held key) = key_after key

-- The key of the entry in `cas_array`.
abbrev pub cas_key : Texts → Bytes
cas_key t = elim t.shard [ none ↦ t.key | some shard ↦ t.key ++ shard ]

abbrev pub begins_s : Bytes → Bool
begins_s [] = false
begins_s (c ∷ cs) = c == b's'

unfoldable pub is_checksum_failed : ℤ → Bool
is_checksum_failed (negsuc (suc zero)) = true
is_checksum_failed _ = false

module _ {S : Type 0} where
  -- The buffers that every round reads; `none` where one of them is freed.
  unfoldable pub read_buffers : Item S → Option Texts
  unfolding read_shard
  read_buffers item =
      reading item.key
        (λ key. reading item.value (λ value. read_shard item.shard_key (cut_key key) value))

  -- The stored cas of a key, which is looked up with `cas_key` and deleted with the key.
  unfoldable pub take_cas : Bool → Texts → Item S → Item S
  unfolding lookup_cas remove_cas
  take_cas false t item = item
  take_cas true t item = elim (lookup_cas (cas_key t) item.pool.cas_array) [
    | none ↦ item
    | some v ↦ record item {
      cas = v;
      pool = record (item.pool) { cas_array = remove_cas t.key item.pool.cas_array };
    }
  ]

  -- The variables with which the request is written, and behind the round.
  abbrev with_packed : ℕ → Packed → Item S → Item S
  with_packed algo p item = record item {
    flags = p.packed_flags;
    crc32 = p.packed_crc32;
    uncrc32 = p.packed_uncrc32;
    crc_in_hdr =
        if has_flag 2 algo || has_flag 1 algo
        then checksum_header algo p.packed_crc32 p.packed_uncrc32
        else item.crc_in_hdr;
    value = if p.is_data then freed else item.value;
  }

module _ {S : Type 0} (e : StoreEnv) where
  unfoldable pub after_store : Item S → ℕ → Option ℕ → ℤ → World → Run (RoundEnd S)
  unfolding server_failure
  after_store item i code (negsuc zero) w =
      ret (ended (record { result = negsuc 0; server = some i; code = code; variables = item }))
        (server_failure e.env i w).1
  after_store item i code (negsuc (suc zero)) w =
      ret
        (ended (record {
          result = pos 0;
          server = some i;
          code = some di_checksum_set_failed;
          variables = item;
        }))
        w
  after_store item i code result w =
      ret (ended (record { result = result; server = some i; code = code; variables = item })) w

  -- The calls of `mmc_server_store`, again on -2 while retries are left.
  unfoldable pub store_retries : ℕ → Item S → Bytes → ℕ → World → Run (RoundEnd S)
  unfolding server_store after_store new_cas is_checksum_failed
  store_retries zero item request i w = server_store e.env i request w >>= (λ d.
      after_store (record item { cas = new_cas d.number item.cas; retries_left = 0 }) i d.code
        d.result)
  store_retries (suc left) item request i w = server_store e.env i request w >>= (λ d w'.
      let again = store_retries left item request i w' in
      if is_checksum_failed d.result
      then again
      else after_store (record item { cas = new_cas d.number item.cas; retries_left = suc left }) i
          d.code d.result w')

  unfoldable pub send_packed :
      Bytes → ℤ → Texts → Item S → ℕ → Option Packed → World → Run (RoundEnd S)
  unfolding complete_checksum take_cas store_retries store_request checksum_header
  send_packed command expire t item i none w =
      ret
        (returned (record {
          result = negsuc 0;
          server = some i;
          code = some compress_failed;
          variables = item;
        }))
        w
  send_packed command expire t item i (some packed) w =
      let algo = (w.servers i).di_algo_in_use in
      let p = complete_checksum e (has_flag 2 algo) (has_flag 2 algo || has_flag 1 algo) packed in
      let item' = take_cas (begins_s command) t (with_packed algo p item) in
      store_retries item'.retries_left
        (record item' { key = key_left item.key; shard_key = shard_after item.shard_key })
        (store_request command t.key item'.flags expire item'.crc_in_hdr item'.cas p.text) i w

  -- The value goes to the server found.
  unfoldable pub send_value : Bytes → ℤ → Item S → ℕ → Option Texts → World → Run (RoundEnd S)
  unfolding pack choose_flags is_concatenation send_packed
  send_value command expire item i none w = crash
  send_value command expire item i (some t) w =
      let algo = (w.servers i).di_algo_in_use in
      let flags =
        choose_flags e (is_concatenation command) item.pool.compress_threshold (length t.value)
          item.flags in
      send_packed command expire t item i
        (pack e (any_compressed flags) item.pool.saves_enough (has_flag 2 algo)
          (has_flag 2 algo || has_flag 1 algo) t.value flags item.crc32 item.uncrc32)
        w

  abbrev not_connected : Option ℕ → Item S → RoundEnd S
  not_connected server item =
      broke (record {
        result = negsuc 0;
        server = server;
        code = some connect_failed;
        variables = item;
      })

  unfoldable pub send_unless_failed : Bool → Bytes → ℤ → Item S → ℕ → World → Run (RoundEnd S)
  unfolding send_value read_buffers
  send_unless_failed true command expire item i w = ret (not_connected (some i) item) w
  send_unless_failed false command expire item i w =
      send_value command expire item i (read_buffers item) w

  unfoldable pub with_server : Bytes → ℤ → Item S → Pool S × Option ℕ → World → Run (RoundEnd S)
  unfolding send_unless_failed
  with_server command expire item (pool, none) w =
      ret (not_connected none (record item { pool = pool })) w
  with_server command expire item (pool, some i) w =
      send_unless_failed (is_failed (w.servers i).status) command expire
        (record item { pool = pool }) i w

  -- The key that the server is found by.
  abbrev finding_key : Item S → Buffer
  finding_key item = elim item.shard_key [ none ↦ item.key | some shard ↦ shard ]

  unfoldable pub find_by : Strategy S → Buffer → Pool S → World → Run (Pool S × Option ℕ)
  unfolding pool_find
  find_by strategy freed pool w = crash
  find_by strategy (held key) pool w = pool_find e.env e.algo strategy pool key w

  -- One round of the loop.
  unfoldable pub store_round : Strategy S → Bytes → ℤ → Item S → World → Run (RoundEnd S)
  unfolding find_by with_server
  store_round strategy command expire item w =
      find_by strategy (finding_key item) item.pool w >>= with_server command expire item

  -- Behind the loop.
  unfoldable pub store_end : Stored S → World → Run (Option (Stored S))
  store_end s w = ret (some (record s { code = final_code s w })) w
    where
      status_code : Option ℕ → Bool → Option ℕ
      status_code code true = some connect_failed
      status_code code false = code

      final_code : Stored S → World → Option ℕ
      final_code s w = elim s.server [
        | none ↦ some connect_failed
        | some i ↦ status_code s.code (is_failed (w.servers i).status)
      ]

  -- A break goes to the end, a return does not.
  unfoldable pub next_round :
      (Item S → World → Run (Option (Stored S))) → RoundEnd S → World → Run (Option (Stored S))
  unfolding store_end
  next_round again (broke s) w = store_end s w
  next_round again (returned s) w = ret (some s) w
  next_round again (ended s) w =
      if ltb_ℤ s.result (pos 0) then again s.variables w else store_end s w

  -- The loop of `mmc_pool_store`, with the rounds that are left; `none` where they are used up.
  unfoldable pub pool_store : Strategy S → Bytes → ℤ → ℕ → Item S → World → Run (Option (Stored S))
  unfolding store_round next_round
  pool_store strategy command expire zero item w = ret none w
  pool_store strategy command expire (suc rounds) item w =
      store_round strategy command expire item w
      >>= next_round (pool_store strategy command expire rounds)
