-- ===== src/Store/Rounds.antt =====
-- The rounds of a store in a live store of servers.
use php_pecl_memcache_zynga.Prelude.{
  ℕ, zero, suc, ◌≡◌, refl, sym, Bool, true, false, Option, none, some, if◌then◌else◌,
}
use mathlib.Core.Path.{subst}
use php_pecl_memcache_zynga.Prelude.Int.{ℤ, pos, ltb_ℤ}
use php_pecl_memcache_zynga.Prelude.Bytes.{Bytes}
use php_pecl_memcache_zynga.Net.{World}
use php_pecl_memcache_zynga.Server.{Run}
use php_pecl_memcache_zynga.Server.Live.{AllLive}
use php_pecl_memcache_zynga.Server.Failure.{Ends, Ends->>=}
use php_pecl_memcache_zynga.Pool.{Strategy, Pool, is_failed}
use php_pecl_memcache_zynga.Pool.Ready.{PoolFound, pool_find-Ready, streamed_cases}
use php_pecl_memcache_zynga.Pool.Options.{LiveReady, Lawful}
use php_pecl_memcache_zynga.Store.Pack.{StoreEnv}
use php_pecl_memcache_zynga.Store.{
  Buffer, held, freed, Item, Stored, RoundEnd, broke, returned, ended, cut_key, read_buffers,
  read_shard, send_unless_failed, with_server, finding_key, find_by, store_round, store_end,
  next_round, pool_store, reading,
}
use php_pecl_memcache_zynga.Store.Safe.{send_value-After}
use php_pecl_memcache_zynga.Store.Intact.{ShortKey, ShortShard, IsHeld, Intact, After}

buffers_read :
    (key : Buffer) (shard : Option Buffer) (value : Buffer)
    → ShortKey key
    → ShortShard shard
    → IsHeld value
    → reading key (λ k. reading value (λ v. read_shard shard (cut_key k) v)) ≡ none
    → ⊥
unfolding read_shard
buffers_read freed shard value a b c q = a
buffers_read (held k) shard freed a b c q = c
buffers_read (held k) none (held v) a b c q = cc q
buffers_read (held k) (some freed) (held v) a b c q = b
buffers_read (held k) (some (held h)) (held v) a b c q = cc q

module _ {S : Type 0} (Valid : S → Type 0) where
  pub read_buffers-some : (item : Item S) → Intact Valid item → read_buffers item ≡ none → ⊥
  unfolding read_buffers
  read_buffers-some item t =
      buffers_read item.key item.shard_key item.value t.short_key t.short_shard t.value_held

  -- The pool's state behind the lookup.
  pub pool-Intact :
      (item : Item S) (s : S)
      → Valid s
      → Intact Valid item
      → Intact Valid (record item { pool = record (item.pool) { hash_state = s } })
  pool-Intact item s v t = record {
    valid = v;
    direct = t.direct;
    no_threshold = t.no_threshold;
    plain = t.plain;
    short_key = t.short_key;
    short_shard = t.short_shard;
    value_held = t.value_held;
  }

  module _ (e : StoreEnv) (command : Bytes) (expire : ℤ) where
    send_unless-After :
        (b : Bool) (item : Item S) (i : ℕ) (w : World)
        → is_failed (w.servers i).status ≡ b
        → Intact Valid item
        → LiveReady i w
        → Ends (After Valid) (send_unless_failed e b command expire item i w)
    unfolding send_unless_failed
    send_unless-After true item i w q t r = r.live
    send_unless-After false item i w q t r =
        send_value-After Valid e command expire item i (read_buffers item) w
          (read_buffers-some item t) t
          (record {
            live = r.live;
            no_proxy = r.ready.no_proxy;
            has_stream =
                streamed_cases (w.servers i).status (w.servers i).stream (r.live.at i)
                  r.ready.streamed q;
          })

    with_server-After :
        (item : Item S) (pool : Pool S) (o : Option ℕ) (w : World)
        → Intact Valid item
        → PoolFound Valid item.pool (pool, o) w
        → Ends (After Valid) (with_server e command expire item (pool, o) w)
    unfolding with_server
    with_server-After item pool none w t f = f.live
    with_server-After item pool (some i) w t f =
        send_unless-After _ (record item { pool = pool }) i w refl
          (subst (λ (p : Pool S). Intact Valid (record item { pool = p })) (sym f.same_pool)
            (pool-Intact item pool.hash_state f.valid t))
          (record { live = f.live; ready = f.ready })

    module _ (strategy : Strategy S) (law : Lawful strategy Valid) where
      pub found_by :
          (b : Buffer) (pool : Pool S) (w : World)
          → ShortKey b
          → Valid pool.hash_state
          → pool.proxy_enabled ≡ false
          → AllLive w
          → Ends (PoolFound Valid pool) (find_by e strategy b pool w)
      unfolding find_by
      found_by freed pool w h v p l = elim h [ ]
      found_by (held key) pool w h v p l =
          pool_find-Ready e.env e.algo strategy Valid pool key w law v p l

      pub finding-ShortKey :
          (key : Buffer) (o : Option Buffer)
          → ShortKey key
          → ShortShard o
          → ShortKey (elim o [ none ↦ key | some shard ↦ shard ])
      finding-ShortKey key none a b = a
      finding-ShortKey key (some shard) a b = b

      pub round-After :
          (item : Item S) (w : World)
          → Intact Valid item
          → AllLive w
          → Ends (After Valid) (store_round e strategy command expire item w)
      unfolding store_round
      round-After item w t l =
          Ends->>= (PoolFound Valid item.pool) (After Valid)
            (find_by e strategy (finding_key e item) item.pool w)
            (with_server e command expire item) (λ r w' f. with_server-After item r.0 r.1 w' t f)
            (found_by (finding_key e item) item.pool w
              (finding-ShortKey item.key item.shard_key t.short_key t.short_shard) t.valid t.direct
              l)

      next-AllLive :
          (again : Item S → World → Run (Option (Stored S))) (r : RoundEnd S) (w : World)
          → ((item : Item S) (w' : World)
              → Intact Valid item
              → AllLive w'
              → Ends (λ o. AllLive) (again item w'))
          → After Valid r w
          → Ends (λ o. AllLive) (next_round e again r w)
      unfolding next_round store_end
      next-AllLive again (broke s) w h a = a
      next-AllLive again (returned s) w h a = a
      next-AllLive again (ended s) w h a = by_result (ltb_ℤ s.result (pos 0))
        where
          by_result :
              (b : Bool) → Ends (λ o. AllLive) (if b then again s.variables w else store_end e s w)
          by_result true = h s.variables w a.1 a.0
          by_result false = a.0

      pub pool_store-AllLive :
          (rounds : ℕ) (item : Item S) (w : World)
          → Intact Valid item
          → AllLive w
          → Ends (λ o. AllLive) (pool_store e strategy command expire rounds item w)
      unfolding pool_store
      pool_store-AllLive zero item w t l = l
      pool_store-AllLive (suc rounds) item w t l =
          Ends->>= (After Valid) (λ o. AllLive) (store_round e strategy command expire item w)
            (next_round e (pool_store e strategy command expire rounds))
            (λ r w' a.
              next-AllLive (pool_store e strategy command expire rounds) r w'
                (λ it w'' t' l'. pool_store-AllLive rounds it w'' t' l') a)
            (round-After item w t l)
