-- ===== src/Pool/Home.antt =====
-- Without failover both strategies lead a key to one server.
use php_pecl_memcache_zynga.Prelude.{
  ℕ, ◌≡◌, refl, sym, ap, inl, inr, true, false, List, Option, none, some, ltb, Bool-cases,
}
use mathlib.Core.Path.{subst}
use php_pecl_memcache_zynga.Prelude.Bytes.{Bytes}
use php_pecl_memcache_zynga.Net.{Env, World}
use php_pecl_memcache_zynga.Server.{Run}
use php_pecl_memcache_zynga.Server.Live.{AllLive}
use php_pecl_memcache_zynga.Server.Failure.{Ends}
use php_pecl_memcache_zynga.Consistent.{Point, State}
use php_pecl_memcache_zynga.Failover.{Settings, with_proxy}
use php_pecl_memcache_zynga.Failover.Find.{
  consistent_find_server, populated, find_in, consistent_choose,
}
use php_pecl_memcache_zynga.Pool.Strategies.{
  HashState, standard_hash, consistent_hash, hash_of, find_by_state, pool_strategy, ValidState,
}
use php_pecl_memcache_zynga.Server.Steps.{FitAt}
use php_pecl_memcache_zynga.Pool.Homing.{Homed, Homing}
use php_pecl_memcache_zynga.Pool.Tried.{
  standard_home, consistent_home, standard_find-Homed, consistent_choose-Homed,
}
use php_pecl_memcache_zynga.Failover.Choice.{Ends-unless_empty}
use php_pecl_memcache_zynga.Failover.Find.{with_points}
use php_pecl_memcache_zynga.Prelude.{◌≢◌, []}

-- The state leads the key to the server `m`; a circle of several servers has its buckets populated.
abbrev pub HomeState : (ℕ → ℕ → ℕ) → Bytes → ℕ → HashState → Type 0
HomeState crc_step key m (standard_hash h s) = standard_home (hash_of crc_step h) s key ≡ m
HomeState crc_step key m (consistent_hash h s) =
    (ltb 1 s.num_servers ≡ true → s.buckets_populated ≡ true)
    × (consistent_home (hash_of crc_step h) s key ≡ m)

module _ (env : Env) (cfg : Settings) (qsort : List Point → List Point) where
  populated_stays :
      (hashing : Bytes → ℕ) (s : State)
      → (ltb 1 s.num_servers ≡ true → s.buckets_populated ≡ true)
      → populated env cfg hashing qsort s ≡ some s
  unfolding populated
  populated_stays hashing s h = elim (Bool-cases (ltb 1 s.num_servers)) [
    | inl many ↦ rw (many, h many) refl
    | inr one ↦ rw one refl
  ]

  consistent_find-home :
      (hashing : Bytes → ℕ) (s : State) (key : Bytes) (w : World)
      → (ltb 1 s.num_servers ≡ true → s.buckets_populated ≡ true)
      → consistent_find_server env cfg hashing qsort s key false w
        ≡ (s, with_points s (consistent_choose env cfg hashing s key none w))
  unfolding consistent_find_server find_in with_proxy
  consistent_find-home hashing s key w h =
      ap (λ (o : Option State). find_in env cfg hashing o s key false w)
        (populated_stays hashing s h)

  -- Without failover and without a proxy a key has one home in either strategy: the server of its
  -- bucket, or the only one. Every lookup of the key in a live store gives this server or NULL, and
  -- the state it leaves has the same home for the key. A server that has `k` failures left at most,
  -- no two calls being its retry interval apart, has then failed, or is open with `k` left at most. A
  -- circle of several servers has its buckets populated, and there is a bucket, or a point.
  pub pool_strategy-Homing :
      (crc_step : ℕ → ℕ → ℕ) (hash_strategy hash_function : ℕ) (key : Bytes) (m : ℕ)
      → cfg.allow_failover ≡ false
      → Homing env
          (pool_strategy crc_step env cfg qsort hash_strategy hash_function)
          ValidState
          (HomeState crc_step key m)
          key
          m
  unfolding pool_strategy find_by_state
  pool_strategy-Homing crc_step hash_strategy hash_function key m alone = record {
    stays_home = stay;
    homes = home;
  }
    where
      stay :
          (s : HashState) (w : World)
          → HomeState crc_step key m s
          → HomeState crc_step key m (find_by_state crc_step env cfg qsort s key false w).0
      stay (standard_hash h s) w e = e
      stay (consistent_hash h s) w e =
          subst (λ (r : State × Run (Option ℕ)). HomeState crc_step key m (consistent_hash h r.0))
            (sym (consistent_find-home (hash_of crc_step h) s key w e.0)) e

      points-Homed :
          (s : State) (k : ℕ) (w : World)
          → s.points ≢ []
          → (r : Run (Option ℕ)) → Ends (Homed env k m) r
          → Ends (Homed env k m) (with_points s r)
      points-Homed s k w v r h = elim (Bool-cases (ltb 1 s.num_servers)) [
        | inl many ↦ rw many h
        | inr one ↦ rw one (Ends-unless_empty (Homed env k m) s.points r v h)
      ]

      home :
          (s : HashState) (k : ℕ) (w : World)
          → ValidState s
          → HomeState crc_step key m s
          → AllLive w
          → FitAt env k m w
          → Ends (Homed env k m) (find_by_state crc_step env cfg qsort s key false w).1
      home (standard_hash h s) k w v e l f =
          standard_find-Homed env cfg k m (hash_of crc_step h) s key w alone v e l f
      home (consistent_hash h s) k w v e l f =
          subst (λ (r : State × Run (Option ℕ)). Ends (Homed env k m) r.1)
            (sym (consistent_find-home (hash_of crc_step h) s key w e.0))
            (points-Homed s k w v _
              (consistent_choose-Homed env cfg k m (hash_of crc_step h) s key w alone e.1 l f))
