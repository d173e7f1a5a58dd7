-- ===== src/Failover.antt =====
-- Choosing the server of a key: `mmc_consistent_find_server` of memcache_consistent_hash.c,
-- `mmc_standard_find_server` of memcache_standard_hash.c, and the proxy of memcache.cpp.
pub mod Find
pub mod Usable
pub mod Choice
mod Tests
use php_pecl_memcache_zynga.Prelude.{
  ℕ, zero, suc, ◌+◌, ◌-◌, ◌*◌, ◌/◌, ◌%◌, ◌^◌, Bool, true, false, not, ◌&&◌, List, [], ◌∷◌, ◌++◌,
  Option, none, some, ltb, leb, ◌==◌, if◌then◌else◌, length, get_or, replicate,
}
use php_pecl_memcache_zynga.Prelude.Int.{ℤ, pos, negsuc}
use php_pecl_memcache_zynga.Prelude.Bytes.{Bytes, bytes}
use php_pecl_memcache_zynga.Prelude.Numbers.{print_ℕ}
use php_pecl_memcache_zynga.Net.{
  Status, failed_status, disconnected, unknown, connected, Server, Env, World, update, tick,
}
use php_pecl_memcache_zynga.Server.{server_disconnect, server_sleep, Run, ret, crash, ◌>>=◌}
use php_pecl_memcache_zynga.Server.Open.{mmc_open, due_at, retry_due}
use php_pecl_memcache_zynga.Consistent.{
  Point, no_point, State, consistent_buckets, populate_buckets,
}

-- The settings of the extension that are read here. `proxy` is the address of the proxy's `mmc_t`
-- in the list of persistent connections, `none` where no proxy host is set.
pub record Settings : Type 0 where
  pub connection_retry_count : ℕ
  pub allow_failover : Bool
  pub max_failover_attempts : ℕ
  pub proxy : Option ℕ

-- The state of an entry that `mmc_find_persistent` finds.
unfoldable pub check_again : Status → Status
check_again connected = unknown
check_again s = s

-- `mmc_find_persistent` where the entry is there
unfoldable pub find_persistent : ℕ → ℕ → ℤ → World → World
unfolding check_again update
find_persistent i timeout retry_interval w =
    update i
      (record (w.servers i) {
        timeout = timeout;
        retry_interval = retry_interval;
        status = check_again (w.servers i).status;
      })
      w

module _ (env : Env) (cfg : Settings) where
  unfoldable pub proxy_or_null : ℕ → Bool → World → Run (Option ℕ)
  unfolding server_sleep
  proxy_or_null p true w = ret (some p) w
  proxy_or_null p false w = ret none (server_sleep p w)

  -- `mmc_get_proxy` outside of a multiget
  unfoldable pub get_proxy : Option ℕ → World → Run (Option ℕ)
  unfolding find_persistent mmc_open proxy_or_null
  get_proxy none w = ret none w
  get_proxy (some p) w =
      mmc_open env cfg.connection_retry_count p true (find_persistent p 1000 (pos 0) w)
      >>= proxy_or_null p

  unfoldable pub retry_or_failover : ℕ → Bool × World → Run Bool
  unfolding update
  retry_or_failover i (true, w) = ret false (update i (record (w.servers i) { status = unknown }) w)
  retry_or_failover i (false, w) = ret true w

  unfoldable pub failover_by_status : Status → ℕ → World → Run Bool
  unfolding retry_or_failover retry_due
  failover_by_status failed_status i w =
      retry_or_failover i (retry_due env cfg.connection_retry_count i w)
  failover_by_status _ i w = ret false w

  -- `should_failover`, the same in both files
  unfoldable pub should_failover : Option ℕ → ℕ → World → Run Bool
  unfolding mmc_open failover_by_status
  should_failover none i w =
      mmc_open env cfg.connection_retry_count i false w >>= (λ opened. ret (not opened))
  should_failover (some p) i w = failover_by_status (w.servers i).status i w

  -- The loop over the attempts, with the attempts left, the next one's number and the hash so far.
  -- `next` gives the hash of an attempt and `server_of` its server.
  module _ (next : ℕ → ℕ → ℕ) (server_of : ℕ → ℕ) where
    unfoldable pub failover_loop : Option ℕ → ℕ → ℕ → ℕ → World → Run ℕ
    unfolding should_failover
    failover_loop proxy zero i hash w =
        should_failover proxy (server_of hash) w >>= (λ down. ret (server_of hash))
    failover_loop proxy (suc left) i hash w =
        should_failover proxy (server_of hash) w >>= (λ down w'.
          let more = failover_loop proxy left (suc i) (next i hash) w' in
          if down && cfg.allow_failover then more else ret (server_of hash) w')

  -- The only server of a pool; NULL is returned at once where its proxy is to be left.
  unfoldable pub only_server : Option ℕ → ℕ → World → Run (Option ℕ)
  unfolding mmc_open should_failover
  only_server none i w =
      mmc_open env cfg.connection_retry_count i false w >>= (λ opened. ret (some i))
  only_server (some p) i w =
      should_failover (some p) i w >>= (λ down. ret (if down then none else some i))

  unfoldable pub is_usable : Status → Bool
  is_usable failed_status = false
  is_usable _ = true

  -- `mmc->proxy = proxy` behind a disconnection, or `mmc->proxy = NULL`
  unfoldable pub set_proxy : Option ℕ → Bool → ℕ → World → World
  unfolding server_disconnect update
  set_proxy (some p) true i w =
      let w' = server_disconnect i w in update i (record (w'.servers i) { proxy = some p }) w'
  set_proxy _ usable i w = update i (record (w.servers i) { proxy = none }) w

  unfoldable pub settle : Option ℕ → ℕ → World → World
  unfolding set_proxy is_usable
  settle proxy i w = set_proxy proxy (is_usable (w.servers i).status) i w

  -- `mmc->status != MMC_STATUS_FAILED ? mmc : NULL`
  unfoldable pub usable_or_null : ℕ → World → Run (Option ℕ)
  unfolding is_usable
  usable_or_null i w = ret (if is_usable (w.servers i).status then some i else none) w

  unfoldable pub settle_consistent : Option ℕ → Option ℕ → World → Run (Option ℕ)
  unfolding settle usable_or_null
  settle_consistent proxy none w = ret none w
  settle_consistent proxy (some i) w = usable_or_null i (settle proxy i w)

  -- The lookup behind the proxy's: NULL where a proxy is wanted and not had.
  unfoldable pub with_proxy :
      {A : Type 0} → Bool → (Option ℕ → World → Run (Option A)) → World → Run (Option A)
  unfolding get_proxy
  with_proxy false find w = find none w
  with_proxy true find w =
      get_proxy cfg.proxy w >>= (λ p w'. elim p [ none ↦ ret none w' | some q ↦ find (some q) w' ])
