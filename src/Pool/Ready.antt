-- ===== src/Pool/Ready.antt =====
-- What `mmc_pool_find` leaves: a live store, and a server to which a request can be sent, or a failed
-- one.
use php_pecl_memcache_zynga.Prelude.{
  ℕ, ◌≡◌, refl, sym, ap, ◌∙◌, ◌⊎◌, inl, inr, Bool, true, false, ◌&&◌, ◌||◌, Option, none, some,
  arith,
}
use mathlib.Core.Path.{subst}
use php_pecl_memcache_zynga.Prelude.Bytes.{Bytes}
use php_pecl_memcache_zynga.Net.{
  Status, failed_status, disconnected, unknown, connected, Env, World,
}
use php_pecl_memcache_zynga.Server.{Run, ret, ◌>>=◌}
use php_pecl_memcache_zynga.Server.Live.{HasStream, LiveStatus, AllLive}
use php_pecl_memcache_zynga.Server.Failure.{Ends, Ends->>=, Ends-map, Kept}
use php_pecl_memcache_zynga.Pool.{
  Strategy, Pool, get_options, note_options, use_algo, ask_options, is_failed, with_found,
  check_found, pool_find, is_null,
}
use php_pecl_memcache_zynga.Pool.Options.{
  ReadyAt, Lawful, Sendable, Kept-Sendable, LiveReady, Sendable-LiveReady, get_options-Kept,
  note_options-LiveReady, use_algo-LiveReady,
}

-- What `mmc_pool_find` leaves of the pool and the store.
pub record PoolFound {S : Type 0} (Valid : S → Type 0) (pool : Pool S) (r : Pool S × Option ℕ)
    (w' : World) : Type 0 where
  pub valid : Valid r.0.hash_state
  pub same_pool : r.0 ≡ record pool { hash_state = r.0.hash_state }
  pub live : AllLive w'
  pub ready : ReadyAt r.1 w'

pub streamed_cases :
    (s : Status) (st : Option ℕ)
    → LiveStatus s st
    → (s ≡ failed_status) ⊎ HasStream st
    → is_failed s ≡ false
    → HasStream st
streamed_cases failed_status st l k e = absurd (ground arith)
streamed_cases disconnected st l (inr h) e = h
streamed_cases disconnected st l (inl q) e = absurd (ground arith)
streamed_cases unknown st l k e = l
streamed_cases connected st l k e = l

pub no_proxy_test : (a b : Bool) → (a || (false && b)) ≡ a
no_proxy_test true b = refl
no_proxy_test false b = refl

module _ {S : Type 0} (env : Env) (algo : Bytes) where
  ReadyOne : (pool : Pool S) (i : ℕ) (r : Pool S × Option ℕ) (w' : World) → Type 0
  ReadyOne pool i r w' = (r ≡ (pool, some i)) × LiveReady i w'

  ask-Ready :
      (pool : Pool S) (i : ℕ) (b : Bool) (w : World)
      → pool.proxy_enabled ≡ false
      → Sendable i w
      → Ends (ReadyOne pool i) (ask_options env algo pool i b w)
  unfolding ask_options ReadyOne
  ask-Ready pool i false w p s =
      (refl, use_algo-LiveReady env pool.enable_checksum i w (Sendable-LiveReady i w s))
  ask-Ready pool i true w p s =
      Ends->>= (λ ok. Kept i w) (ReadyOne pool i) (get_options env algo pool.enable_checksum i w)
        (λ ok w'.
          ret (pool, some i)
            (use_algo pool.enable_checksum i (note_options env pool.proxy_enabled i ok w')))
        (λ ok w' t. (
          refl,
          use_algo-LiveReady env pool.enable_checksum i _ (
              subst (λ (b : Bool). LiveReady i (note_options env b i ok w')) (sym p)
                (note_options-LiveReady env i ok w' (Kept-Sendable i w w' t s))),
        ))
        (get_options-Kept env algo pool.enable_checksum i w s)

  found-Ready :
      (Valid : S → Type 0) (pool : Pool S) (i : ℕ) (r : Run (Pool S × Option ℕ))
      → Valid pool.hash_state
      → Ends (ReadyOne pool i) r
      → Ends (PoolFound Valid pool) r
  unfolding ReadyOne
  found-Ready Valid pool i r v = Ends-map (ReadyOne pool i) (PoolFound Valid pool) r (λ a w' p.
      subst (λ (t : Pool S × Option ℕ). PoolFound Valid pool t w') (sym p.0)
        (record { valid = v; same_pool = refl; live = p.1.live; ready = p.1.ready }))

  with_found-Ready :
      (Valid : S → Type 0) (pool : Pool S) (b : Bool) (i : ℕ) (w : World)
      → Valid pool.hash_state
      → pool.proxy_enabled ≡ false
      → is_failed (w.servers i).status ≡ b
      → LiveReady i w
      → Ends (PoolFound Valid pool) (with_found env algo pool b i w)
  unfolding with_found
  with_found-Ready Valid pool true i w v p e r = record {
    valid = v;
    same_pool = refl;
    live = r.live;
    ready = r.ready;
  }
  with_found-Ready Valid pool false i w v p e r = found-Ready Valid pool i _ v (
      ask-Ready pool i _ w p (record {
        live = r.live;
        no_proxy = r.ready.no_proxy;
        has_stream =
            streamed_cases (w.servers i).status (w.servers i).stream (r.live.at i) r.ready.streamed
              e;
      }))

  check_found-Ready :
      (Valid : S → Type 0) (pool : Pool S) (o : Option ℕ) (w : World)
      → Valid pool.hash_state
      → pool.proxy_enabled ≡ false
      → AllLive w
      → ReadyAt o w
      → Ends (PoolFound Valid pool) (check_found env algo pool o w)
  unfolding check_found
  check_found-Ready Valid pool none w v p l r = record {
    valid = v;
    same_pool = refl;
    live = l;
    ready = tt;
  }
  check_found-Ready Valid pool (some i) w v p l r =
      with_found-Ready Valid pool _ i w v p
        (sym (
          ap (λ (b : Bool). is_failed (w.servers i).status || (b && is_null (w.servers i).proxy)) p
          ∙ no_proxy_test (is_failed (w.servers i).status) (is_null (w.servers i).proxy)))
        (record { live = l; ready = r })

  -- `mmc_pool_find` without a proxy, with a strategy that keeps its promises, in a live store: it comes
  -- to its end, whatever is sent, read or lost; no NULL stream is used; the store is live again; the
  -- pool is as it was, but for the strategy's state, which is valid; and the server found, if any, is
  -- not behind a proxy and has failed or has a stream.
  pub pool_find-Ready :
      (strategy : Strategy S) (Valid : S → Type 0) (pool : Pool S) (key : Bytes) (w : World)
      → Lawful strategy Valid
      → Valid pool.hash_state
      → pool.proxy_enabled ≡ false
      → AllLive w
      → Ends (PoolFound Valid pool) (pool_find env algo strategy pool key w)
  unfolding pool_find
  pool_find-Ready strategy Valid pool key w law v p l =
      subst
        (λ (b : Bool).
          let found : S × Run (Option ℕ) = strategy.find_server pool.hash_state key b w in
          Ends (PoolFound Valid pool)
            (found.1 >>= check_found env algo (record pool { hash_state = found.0 })))
        (sym p)
        (Ends->>= (λ r w'. AllLive w' × ReadyAt r w') (PoolFound Valid pool) found.1
          (check_found env algo pool')
          (λ o w' q.
            Ends-map (PoolFound Valid pool') (PoolFound Valid pool)
              (check_found env algo pool' o w')
              (λ a w'' f. record {
                valid = f.valid;
                same_pool = f.same_pool;
                live = f.live;
                ready = f.ready;
              })
              (check_found-Ready Valid pool' o w' (law.stays_valid pool.hash_state key w v l) p q.0
                q.1))
          (law.finds pool.hash_state key w v l))
    where
      found : S × Run (Option ℕ)
      found = strategy.find_server pool.hash_state key false w

      pool' : Pool S
      pool' = record pool { hash_state = found.0 }
