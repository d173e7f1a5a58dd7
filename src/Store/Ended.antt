-- ===== src/Store/Ended.antt =====
-- The rounds that a store takes.
use php_pecl_memcache_zynga.Prelude.{
  ℕ, zero, suc, ◌≡◌, refl, sym, Bool, true, false, Option, none, some, if◌then◌else◌, arith,
}
use mathlib.Core.Path.{subst}
use php_pecl_memcache_zynga.Prelude.Int.{ℤ, pos, ltb_ℤ}
use php_pecl_memcache_zynga.Prelude.Bytes.{Bytes}
use php_pecl_memcache_zynga.Net.{World}
use php_pecl_memcache_zynga.Server.{Run, ◌>>=◌}
use php_pecl_memcache_zynga.Server.Live.{AllLive}
use php_pecl_memcache_zynga.Server.Failure.{Ends, Ends->>=}
use php_pecl_memcache_zynga.Pool.{Strategy}
use php_pecl_memcache_zynga.Pool.Options.{Lawful}
use php_pecl_memcache_zynga.Store.Pack.{StoreEnv}
use php_pecl_memcache_zynga.Store.{
  Item, Stored, RoundEnd, broke, returned, ended, store_round, store_end, next_round, pool_store,
}
use php_pecl_memcache_zynga.Store.Intact.{Intact, After}
use php_pecl_memcache_zynga.Server.Steps.{FitAt}
use php_pecl_memcache_zynga.Pool.Homing.{Homing, both-Ends}
use php_pecl_memcache_zynga.Store.Rounds.{round-After}
use php_pecl_memcache_zynga.Store.Next.{Fewer, Homely, Next, round-Next}

-- The loop has a result.
abbrev pub HasResult : {S : Type 0} → Option (Stored S) → Type 0
HasResult none = ⊥
HasResult (some s) = Unit {0}

abbrev pub HasEnded : {S : Type 0} → Option (Stored S) → World → Type 0
HasEnded r w = HasResult r × AllLive w

nothing_left : (j : ℕ) → 0 ≡ suc j → ⊥
nothing_left j h = omega arith

same_suc : (k j : ℕ) → suc k ≡ suc j → k ≡ j
same_suc k j h = omega (arith, h)

module _ {S : Type 0} (Valid Home : S → Type 0) (e : StoreEnv) (key : Bytes) (m : ℕ) where
  -- What the rounds behind a round do, where it ends with a failure less.
  Next-HasEnded :
      (k : ℕ) (again : Item S → World → Run (Option (Stored S))) (r : RoundEnd S) (w : World)
      → ((item : Item S) (w' : World)
          → Intact Valid item
          → Homely Home e key k m item
          → AllLive w'
          → Fewer e.env k m w'
          → Ends HasEnded (again item w'))
      → After Valid r w
      → Next Home e key k m r w
      → Ends HasEnded (next_round e again r w)
  unfolding next_round store_end
  Next-HasEnded k again (broke s) w ih a n = (tt, a)
  Next-HasEnded k again (returned s) w ih a n = (tt, a)
  Next-HasEnded k again (ended s) w ih a n = by_result (ltb_ℤ s.result (pos 0)) refl
    where
      by_result :
          (b : Bool)
          → ltb_ℤ s.result (pos 0) ≡ b
          → Ends HasEnded (if b then again s.variables w else store_end e s w)
      by_result true q = ih s.variables w a.1 n.0 a.0 (n.1 q)
      by_result false q = (tt, a.0)

  same_Homely : (k l : ℕ) (item : Item S) → Homely Home e key k m item → Homely Home e key l m item
  same_Homely k l item h = record { found_by_key = h.found_by_key; home = h.home }

module _ {S : Type 0} (Valid Home : S → Type 0) (e : StoreEnv) (command : Bytes) (expire : ℤ)
    (strategy : Strategy S) (law : Lawful strategy Valid) (key : Bytes) (m : ℕ)
    (homing : Homing e.env strategy Valid Home key m) where
  round-HasEnded :
      (k : ℕ) (again : Item S → World → Run (Option (Stored S))) (item : Item S) (w : World)
      → ((i : Item S) (w' : World)
          → Intact Valid i
          → Homely Home e key k m i
          → AllLive w'
          → Fewer e.env k m w'
          → Ends HasEnded (again i w'))
      → Intact Valid item
      → Homely Home e key k m item
      → AllLive w
      → FitAt e.env k m w
      → Ends HasEnded (store_round e strategy command expire item w >>= next_round e again)
  round-HasEnded k again item w ih t h l f =
      Ends->>= (λ r w'. After Valid r w' × Next Home e key k m r w') HasEnded
        (store_round e strategy command expire item w) (next_round e again)
        (λ r w' q. Next-HasEnded Valid Home e key m k again r w' ih q.0 q.1)
        (both-Ends (After Valid) (Next Home e key k m)
          (store_round e strategy command expire item w)
          (round-After Valid e command expire strategy law item w t l)
          (round-Next Home e key k m Valid command expire strategy law homing item w t h l f))

  -- A store whose lookups lead to one server, which has at most `k` failures left and is not tried again
  -- meanwhile, of a value that is not compressed, under keys of at most 250 bytes, in a live store: it
  -- ends with a result after at most `k + 1` rounds, whatever is sent, read or lost; no NULL stream and no
  -- freed buffer is read; and the store of servers is live again. An open server has 1 failure left, a
  -- disconnected one 2 and one in the unknown state 3.
  pub pool_store-Ends :
      (k : ℕ) (item : Item S) (w : World)
      → Intact Valid item
      → Homely Home e key k m item
      → AllLive w
      → FitAt e.env k m w
      → Ends HasEnded (pool_store e strategy command expire (suc k) item w)
  unfolding pool_store
  pool_store-Ends zero item w t h l f =
      round-HasEnded 0 (pool_store e strategy command expire 0) item w
        (λ i w' t' h' l' (j, q, g). elim (nothing_left j q) [ ]) t h l f
  pool_store-Ends (suc k) item w t h l f =
      round-HasEnded (suc k) (pool_store e strategy command expire (suc k)) item w
        (λ i w' t' h' l' (j, q, g).
          pool_store-Ends k i w' t' (same_Homely Valid Home e key m (suc k) k i h') l'
            (subst (λ (n : ℕ). FitAt e.env n m w') (sym (same_suc k j q)) g))
        t h l f
