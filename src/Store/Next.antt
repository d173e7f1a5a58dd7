-- ===== src/Store/Next.antt =====
-- A round of `mmc_pool_store` ends, or goes on with a failure less left.
use php_pecl_memcache_zynga.Prelude.{
  ℕ, zero, suc, ◌≡◌, refl, sym, ap, ◌∙◌, ◌||◌, Bool, true, false, Option, none, some, if◌then◌else◌,
  arith,
}
use mathlib.Core.Path.{subst}
use php_pecl_memcache_zynga.Prelude.Int.{ℤ, pos, negsuc, ltb_ℤ}
use php_pecl_memcache_zynga.Prelude.Bytes.{Bytes}
use php_pecl_memcache_zynga.Net.{Status, Env, World}
use php_pecl_memcache_zynga.Server.{Run, ◌>>=◌, server_failure}
use php_pecl_memcache_zynga.Server.Live.{AllLive}
use php_pecl_memcache_zynga.Server.Failure.{Ends, Ends->>=, Kept}
use php_pecl_memcache_zynga.Command.{server_store}
use php_pecl_memcache_zynga.Compress.{has_flag}
use php_pecl_memcache_zynga.Pool.{Strategy, Pool, pool_find, is_failed}
use php_pecl_memcache_zynga.Pool.Ready.{PoolFound, pool_find-Ready, streamed_cases}
use php_pecl_memcache_zynga.Pool.Options.{Ready, LiveReady, Lawful, Sendable, Kept-Sendable}
use php_pecl_memcache_zynga.Store.Request.{store_request, lookup_cas, remove_cas}
use php_pecl_memcache_zynga.Store.Pack.{StoreEnv, Packed, complete_checksum}
use php_pecl_memcache_zynga.Store.{
  Buffer, held, Item, RoundEnd, broke, returned, ended, Texts, key_left, shard_after, take_cas,
  cas_key, begins_s, with_packed, read_buffers, after_store, store_retries, is_checksum_failed,
  new_cas, send_packed, send_value, send_unless_failed, with_server, finding_key, find_by,
  store_round,
}
use php_pecl_memcache_zynga.Store.Safe.{key_left-short, shard_after-short}
use php_pecl_memcache_zynga.Store.Intact.{ShortKey, ShortShard, Intact}
use php_pecl_memcache_zynga.Server.Steps.{
  FitAt, OpenStatus, Kept-FitAt, failure-FitAt, failure-FitAt_any,
}
use php_pecl_memcache_zynga.Pool.Homing.{
  LeftAt, left_failed, left_open, left_less, Homing, HomeLeft, pool_find-Left, both-Ends,
  some_weight,
}
use php_pecl_memcache_zynga.Store.Rounds.{read_buffers-some, pool-Intact}
use php_pecl_memcache_zynga.Store.Replies.{KnownResult, server_store-Kept}

-- A failure less is left.
abbrev pub Fewer : Env → ℕ → ℕ → World → Type 0
Fewer env k m w = (j : ℕ) × (k ≡ suc j) × FitAt env j m w

-- The server that is sent to: open with `k` failures left, or with one less.
data SentAt (env : Env) (k m : ℕ) (w : World) : Type 0 where
  sent_open : FitAt env k m w → OpenStatus env (w.servers m).status → SentAt env k m w
  sent_less : Fewer env k m w → SentAt env k m w

module _ (env : Env) (k m : ℕ) where
  left-SentAt :
      (w : World) → LeftAt env k m w → is_failed (w.servers m).status ≡ false → SentAt env k m w
  left-SentAt w (left_failed q) h = absurd (cc (ap is_failed q, h))
  left-SentAt w (left_open f o) h = sent_open f o
  left-SentAt w (left_less j q f) h = sent_less (j, q, f)

  Kept-SentAt : (w w' : World) → Kept m w w' → SentAt env k m w → SentAt env k m w'
  Kept-SentAt w w' t (sent_open f o) =
      sent_open (Kept-FitAt env k m w w' t f)
        (subst (λ (t : Status × (ℕ × ℤ)). OpenStatus env t.0) (sym t.same_life) o)
  Kept-SentAt w w' t (sent_less (j, q, f)) = sent_less (j, q, Kept-FitAt env j m w w' t f)

  failed-Fewer :
      (w : World)
      → (w.servers m).proxy ≡ none
      → SentAt env k m w
      → Fewer env k m (server_failure env m w).1
  failed-Fewer w p (sent_open f o) =
      let (j, q) = some_weight env k (w.servers m).status o f.light in
      (j, q, failure-FitAt env j m w p o (subst (λ (n : ℕ). FitAt env n m w) q f))
  failed-Fewer w p (sent_less (j, q, f)) = (j, q, failure-FitAt_any env j m w p f)

module _ {S : Type 0} (Home : S → Type 0) (e : StoreEnv) (key : Bytes) (k m : ℕ) where
  -- The item is found by the key.
  pub record Homely (item : Item S) : Type 0 where
    pub found_by_key : finding_key e item ≡ held key
    pub home : Home item.pool.hash_state

  abbrev pub Next : RoundEnd S → World → Type 0
  Next (broke s) w = Unit {0}
  Next (returned s) w = Unit {0}
  Next (ended s) w = Homely s.variables × (ltb_ℤ s.result (pos 0) ≡ true → Fewer e.env k m w)

  after_store-Next :
      (item : Item S) (code : Option ℕ) (result : ℤ) (w : World)
      → KnownResult result
      → Homely item
      → (w.servers m).proxy ≡ none
      → SentAt e.env k m w
      → Ends Next (after_store e item m code result w)
  unfolding after_store
  after_store-Next item code (pos n) w r h p t = (h, λ q. absurd (ground arith))
  after_store-Next item code (negsuc zero) w r h p t = (h, λ q. failed-Fewer e.env k m w p t)
  after_store-Next item code (negsuc (suc zero)) w r h p t = (h, λ q. absurd (ground arith))
  after_store-Next item code (negsuc (suc (suc n))) w r h p t = elim r [ ]

  either-Next :
      (b : Bool) (r q : Run (RoundEnd S))
      → Ends Next r
      → Ends Next q
      → Ends Next (if b then r else q)
  either-Next true r q h t = h
  either-Next false r q h t = t

  -- What a retry needs.
  record Resent (w : World) : Type 0 where
    sendable : Sendable m w
    pub sent : SentAt e.env k m w

  Kept-Resent : (w w' : World) → Kept m w w' → Resent w → Resent w'
  Kept-Resent w w' t r = record {
    sendable = Kept-Sendable m w w' t r.sendable;
    sent = Kept-SentAt e.env k m w w' t r.sent;
  }

  retries-Next :
      (left : ℕ) (item : Item S) (request : Bytes) (w : World)
      → Homely item
      → Resent w
      → Ends Next (store_retries e left item request m w)
  unfolding store_retries
  retries-Next zero item request w h r =
      Ends->>= (λ d w'. Kept m w w' × KnownResult d.result) Next (server_store e.env m request w) _
        (λ d w' t.
          let r' = Kept-Resent w w' t.0 r in
          after_store-Next (record item { cas = new_cas d.number item.cas; retries_left = 0 })
            d.code d.result w' t.1 (record { found_by_key = h.found_by_key; home = h.home })
            r'.sendable.no_proxy r'.sent)
        (server_store-Kept e.env m request w r.sendable)
  retries-Next (suc left) item request w h r =
      Ends->>= (λ d w'. Kept m w w' × KnownResult d.result) Next (server_store e.env m request w) _
        (λ d w' t.
          let r' = Kept-Resent w w' t.0 r in
          either-Next (is_checksum_failed d.result) (store_retries e left item request m w') _
            (retries-Next left item request w' h r')
            (after_store-Next
              (record item { cas = new_cas d.number item.cas; retries_left = suc left }) d.code
              d.result w' t.1 (record { found_by_key = h.found_by_key; home = h.home })
              r'.sendable.no_proxy r'.sent))
        (server_store-Kept e.env m request w r.sendable)

  -- The item behind the round is found by the same key.
  same_key :
      (i j : Item S)
      → ShortKey i.key
      → ShortShard i.shard_key
      → finding_key e (record j { key = key_left i.key; shard_key = shard_after i.shard_key })
        ≡ finding_key e i
  same_key i j a b = rw (key_left-short i.key a, shard_after-short i.shard_key b) refl

  take_cas-home :
      (b : Bool) (x : Texts) (item : Item S)
      → Home item.pool.hash_state
      → Home (take_cas b x item).pool.hash_state
  unfolding take_cas
  take_cas-home false x item h = h
  take_cas-home true x item h = go (lookup_cas (cas_key x) item.pool.cas_array)
    where
      go :
          (o : Option ℕ)
          → let after : Item S = elim o [
            | none ↦ item
            | some v ↦ record item {
              cas = v;
              pool = record (item.pool) { cas_array = remove_cas x.key item.pool.cas_array };
            }
          ] in
            Home after.pool.hash_state
      go none = h
      go (some v) = h

  module _ (Valid : S → Type 0) (command : Bytes) (expire : ℤ) where
    send_packed-Next :
        (x : Texts) (item : Item S) (o : Option Packed) (w : World)
        → Intact Valid item
        → Homely item
        → Resent w
        → Ends Next (send_packed e command expire x item m o w)
    unfolding send_packed
    send_packed-Next x item none w t h r = tt
    send_packed-Next x item (some p) w t h r =
        let algo : ℕ = (w.servers m).di_algo_in_use in
        let q : Packed =
          complete_checksum e (has_flag 2 algo) (has_flag 2 algo || has_flag 1 algo) p in
        let item' : Item S = take_cas (begins_s command) x (with_packed algo q item) in
        retries-Next item'.retries_left
          (record item' { key = key_left item.key; shard_key = shard_after item.shard_key })
          (store_request command x.key item'.flags expire item'.crc_in_hdr item'.cas q.text) w
          (record {
            found_by_key = same_key item item' t.short_key t.short_shard ∙ h.found_by_key;
            home = take_cas-home (begins_s command) x (with_packed algo q item) h.home;
          })
          r

    send_value-Next :
        (item : Item S) (o : Option Texts) (w : World)
        → (o ≡ none → ⊥)
        → Intact Valid item
        → Homely item
        → Resent w
        → Ends Next (send_value e command expire item m o w)
    unfolding send_value
    send_value-Next item none w ne t h r = elim (ne refl) [ ]
    send_value-Next item (some x) w ne t h r = send_packed-Next x item _ w t h r

    send_unless-Next :
        (b : Bool) (item : Item S) (w : World)
        → is_failed (w.servers m).status ≡ b
        → Intact Valid item
        → Homely item
        → LiveReady m w
        → LeftAt e.env k m w
        → Ends Next (send_unless_failed e b command expire item m w)
    unfolding send_unless_failed
    send_unless-Next true item w q t h r l = tt
    send_unless-Next false item w q t h r l =
        send_value-Next item (read_buffers item) w (read_buffers-some Valid item t) t h (record {
          sendable = record {
            live = r.live;
            no_proxy = r.ready.no_proxy;
            has_stream =
                streamed_cases (w.servers m).status (w.servers m).stream (r.live.at m)
                  r.ready.streamed q;
          };
          sent = left-SentAt e.env k m w l q;
        })

    with_server-Next :
        (item : Item S) (pool : Pool S) (o : Option ℕ) (w : World)
        → Intact Valid item
        → finding_key e item ≡ held key
        → PoolFound Valid item.pool (pool, o) w
        → HomeLeft e.env e.algo Home k m (pool, o) w
        → Ends Next (with_server e command expire item (pool, o) w)
    unfolding with_server
    with_server-Next item pool none w t h f l = tt
    with_server-Next item pool (some i) w t h f (home, (q, l)) =
        subst
          (λ (n : ℕ). Ends Next (
            send_unless_failed e (is_failed (w.servers n).status) command expire
              (record item { pool = pool }) n w))
          (sym q)
          (send_unless-Next _ (record item { pool = pool }) w refl
            (subst (λ (p : Pool S). Intact Valid (record item { pool = p })) (sym f.same_pool)
              (pool-Intact Valid item pool.hash_state f.valid t))
            (record { found_by_key = h; home = home })
            (record { live = f.live; ready = subst (λ (n : ℕ). Ready n w) q f.ready }) l)

    module _ (strategy : Strategy S) (law : Lawful strategy Valid)
        (homing : Homing e.env strategy Valid Home key m) where
      pub round-Next :
          (item : Item S) (w : World)
          → Intact Valid item
          → Homely item
          → AllLive w
          → FitAt e.env k m w
          → Ends Next (store_round e strategy command expire item w)
      unfolding store_round find_by
      round-Next item w t h l f =
          subst
            (λ (b : Buffer).
              Ends Next (find_by e strategy b item.pool w >>= with_server e command expire item))
            (sym h.found_by_key)
            (Ends->>= (λ r w'. PoolFound Valid item.pool r w' × HomeLeft e.env e.algo Home k m r w')
              Next (pool_find e.env e.algo strategy item.pool key w)
              (with_server e command expire item)
              (λ r w' q. with_server-Next item r.0 r.1 w' t h.found_by_key q.0 q.1)
              (both-Ends (PoolFound Valid item.pool) (HomeLeft e.env e.algo Home k m)
                (pool_find e.env e.algo strategy item.pool key w)
                (pool_find-Ready e.env e.algo strategy Valid item.pool key w law t.valid t.direct l)
                (pool_find-Left e.env e.algo strategy Valid Home item.pool key k m w law homing
                  t.valid h.home t.direct l f)))
