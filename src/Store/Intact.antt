-- ===== src/Store/Intact.antt =====
-- What a round of `mmc_pool_store` keeps of its variables.
use php_pecl_memcache_zynga.Prelude.{
  ℕ, zero, suc, ◌≡◌, Bool, true, false, Option, none, some, if◌then◌else◌, length, ◌≤◌, [],
}
use php_pecl_memcache_zynga.Prelude.Int.{ℤ, pos, negsuc}
use php_pecl_memcache_zynga.Prelude.Bytes.{Bytes}
use php_pecl_memcache_zynga.Net.{Env, World}
use php_pecl_memcache_zynga.Server.{Run}
use php_pecl_memcache_zynga.Server.Live.{AllLive}
use php_pecl_memcache_zynga.Server.Failure.{Ends, Ends->>=, Ends-map, Kept}
use php_pecl_memcache_zynga.Command.{server_store}
use php_pecl_memcache_zynga.Command.Live.{commands-Kept}
use php_pecl_memcache_zynga.Pool.Options.{Sendable, Kept-Sendable, failure-LiveReady}
use php_pecl_memcache_zynga.Store.Pack.{StoreEnv, any_compressed}
use php_pecl_memcache_zynga.Store.{
  Buffer, held, freed, Item, RoundEnd, broke, returned, ended, key_limit, after_store,
  store_retries, is_checksum_failed, new_cas,
}

-- `mmc_server_store` to a server that a request can be sent to.
pub server_store-Sendable :
    (env : Env) (i : ℕ) (request : Bytes) (w : World)
    → Sendable i w
    → Ends (λ d. Sendable i) (server_store env i request w)
server_store-Sendable env i request w s =
    Ends-map (λ d. Kept i w) (λ d. Sendable i) (server_store env i request w)
      (λ d w' k. Kept-Sendable i w w' k s)
      (commands-Kept env i [] request (pos 0) true (pos 0) w s.no_proxy s.has_stream s.live).1.1

-- A key that no round copies.
abbrev pub ShortKey : Buffer → Type 0
ShortKey freed = ⊥
ShortKey (held key) = length key ≤ key_limit

abbrev pub ShortShard : Option Buffer → Type 0
ShortShard none = Unit {0}
ShortShard (some shard) = ShortKey shard

abbrev pub IsHeld : Buffer → Type 0
IsHeld freed = ⊥
IsHeld (held text) = Unit {0}

-- An item that every round can read: short keys, and a value that is not compressed.
pub record Intact {S : Type 0} (Valid : S → Type 0) (item : Item S) : Type 0 where
  pub valid : Valid item.pool.hash_state
  pub direct : item.pool.proxy_enabled ≡ false
  pub no_threshold : item.pool.compress_threshold ≡ 0
  pub plain : any_compressed item.flags ≡ false
  pub short_key : ShortKey item.key
  pub short_shard : ShortShard item.shard_key
  pub value_held : IsHeld item.value

-- What a round leaves.
abbrev pub After : {S : Type 0} (Valid : S → Type 0) → RoundEnd S → World → Type 0
After Valid (broke s) w = AllLive w
After Valid (returned s) w = AllLive w
After Valid (ended s) w = AllLive w × Intact Valid s.variables

module _ {S : Type 0} (Valid : S → Type 0) (e : StoreEnv) where
  after_store-After :
      (item : Item S) (i : ℕ) (code : Option ℕ) (result : ℤ) (w : World)
      → Intact Valid item
      → Sendable i w
      → Ends (After Valid) (after_store e item i code result w)
  unfolding after_store
  after_store-After item i code (pos n) w t s = (s.live, t)
  after_store-After item i code (negsuc zero) w t s = ((failure-LiveReady e.env i w s).live, t)
  after_store-After item i code (negsuc (suc zero)) w t s = (s.live, t)
  after_store-After item i code (negsuc (suc (suc n))) w t s = (s.live, t)

  retried-Intact :
      (item : Item S) (cas left : ℕ)
      → Intact Valid item
      → Intact Valid (record item { cas = cas; retries_left = left })
  retried-Intact item cas left t = record {
    valid = t.valid;
    direct = t.direct;
    no_threshold = t.no_threshold;
    plain = t.plain;
    short_key = t.short_key;
    short_shard = t.short_shard;
    value_held = t.value_held;
  }

  either_run :
      (b : Bool) (r q : Run (RoundEnd S))
      → Ends (After Valid) r
      → Ends (After Valid) q
      → Ends (After Valid) (if b then r else q)
  either_run true r q h k = h
  either_run false r q h k = k

  pub retries-After :
      (left : ℕ) (item : Item S) (request : Bytes) (i : ℕ) (w : World)
      → Intact Valid item
      → Sendable i w
      → Ends (After Valid) (store_retries e left item request i w)
  unfolding store_retries
  retries-After zero item request i w t s =
      Ends->>= (λ d. Sendable i) (After Valid) (server_store e.env i request w) _
        (λ d w' s'.
          after_store-After (record item { cas = new_cas d.number item.cas; retries_left = 0 }) i
            d.code d.result w' (retried-Intact item _ 0 t) s')
        (server_store-Sendable e.env i request w s)
  retries-After (suc left) item request i w t s =
      Ends->>= (λ d. Sendable i) (After Valid) (server_store e.env i request w) _
        (λ d w' s'.
          either_run (is_checksum_failed d.result) (store_retries e left item request i w') _
            (retries-After left item request i w' t s')
            (after_store-After
              (record item { cas = new_cas d.number item.cas; retries_left = suc left }) i d.code
              d.result w' (retried-Intact item _ (suc left) t) s'))
        (server_store-Sendable e.env i request w s)
