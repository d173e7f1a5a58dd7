-- ===== src/Failover/Find.antt =====
-- The two strategies: the circle of memcache_consistent_hash.c, and the weighted list of
-- memcache_standard_hash.c.
use php_pecl_memcache_zynga.Prelude.{
  ◌∷◌, ℕ, ◌+◌, ◌/◌, ◌%◌, ◌^◌, Bool, List, [], ◌++◌, Option, none, some, ltb, ◌==◌, if◌then◌else◌,
  length, get_or, replicate,
}
use php_pecl_memcache_zynga.Prelude.Bytes.{Bytes, bytes}
use php_pecl_memcache_zynga.Prelude.Numbers.{print_ℕ}
use php_pecl_memcache_zynga.Net.{Env, World}
use php_pecl_memcache_zynga.Server.{Run, ret, crash, ◌>>=◌}
use php_pecl_memcache_zynga.Consistent.{
  Point, no_point, State, consistent_buckets, populate_buckets,
}
use php_pecl_memcache_zynga.Failover.{
  Settings, failover_loop, only_server, settle, settle_consistent, with_proxy,
}

-- `mmc_standard_state_t`; `num_buckets` is the length of `buckets`
pub record StandardState : Type 0 where
  pub num_servers : ℕ
  pub buckets : List ℕ

-- `mmc_standard_create_state`
abbrev pub standard_create_state : StandardState
standard_create_state = record { num_servers = 0; buckets = [] }

-- `mmc_standard_add_server`
unfoldable pub standard_add_server : StandardState → ℕ → ℕ → StandardState
standard_add_server s id weight = record {
  num_servers = s.num_servers + 1;
  buckets = s.buckets ++ replicate weight id;
}

-- `mmc_hash`: 15 bits of the hash, never 0
unfoldable pub mmc_hash : (Bytes → ℕ) → Bytes → ℕ
mmc_hash hash key = let h = hash key / 2 ^ 16 % 2 ^ 15 in if h == 0 then 1 else h

-- "%s-%d" and "%d%s" of an attempt
unfoldable pub consistent_key : Bytes → ℕ → Bytes
consistent_key key i = key ++ (bytes "-" ++ print_ℕ i)

unfoldable pub standard_key : Bytes → ℕ → Bytes
standard_key key i = print_ℕ (i + 1) ++ key

-- `buckets[hash % n]` of a list of `n` servers or more
abbrev pub bucket_of : List ℕ → ℕ → ℕ → ℕ
bucket_of buckets n hash = get_or buckets (hash % n) 0

-- A lookup that divides by the length of an empty list, or reads its first element.
abbrev pub unless_empty : {A B : Type 0} → List A → Run B → Run B
unless_empty [] r = crash
unless_empty (x ∷ xs) r = r

-- A lookup that reads the first point where there are no several servers.
abbrev pub with_points : {B : Type 0} → State → Run B → Run B
with_points s r = if ltb 1 s.num_servers then r else unless_empty s.points r

module _ (env : Env) (cfg : Settings) (hash : Bytes → ℕ) where
  -- The loop's server, and what is left of the lookup, of a pool with populated buckets.
  unfoldable pub consistent_choose : State → Bytes → Option ℕ → World → Run (Option ℕ)
  unfolding failover_loop settle_consistent only_server consistent_key
  consistent_choose s key proxy w =
      if ltb 1 s.num_servers
      then failover_loop env cfg (λ i h. hash (consistent_key key i))
          (bucket_of s.buckets consistent_buckets) proxy cfg.max_failover_attempts 0 (hash key) w
        >>= (λ i. settle_consistent env cfg proxy (some i))
      else only_server env cfg proxy (get_or s.points 0 no_point).server w
        >>= settle_consistent env cfg proxy

  unfoldable pub populated : (List Point → List Point) → State → Option State
  populated qsort s =
      if ltb 1 s.num_servers
      then if s.buckets_populated then some s else populate_buckets qsort s
      else some s

  unfoldable pub find_in : Option State → State → Bytes → Bool → World → State × Run (Option ℕ)
  unfolding consistent_choose with_proxy
  find_in none s key use_proxy w = (s, crash)
  find_in (some s') s key use_proxy w =
      (s', with_points s' (with_proxy env cfg use_proxy (consistent_choose s' key) w))

  -- `mmc_consistent_find_server`, with the state it leaves; `crash` where a bucket cannot be filled
  unfoldable pub consistent_find_server :
      (List Point → List Point) → State → Bytes → Bool → World → State × Run (Option ℕ)
  unfolding populated find_in
  consistent_find_server qsort s key use_proxy w = find_in (populated qsort s) s key use_proxy w

  unfoldable pub settle_standard : Option ℕ → Option ℕ → World → Run (Option ℕ)
  unfolding settle
  settle_standard proxy none w = ret none w
  settle_standard proxy (some i) w = ret (some i) (settle env cfg proxy i w)

  unfoldable pub standard_choose : StandardState → Bytes → Option ℕ → World → Run (Option ℕ)
  unfolding failover_loop settle_standard only_server standard_key mmc_hash
  standard_choose s key proxy w =
      if ltb 1 s.num_servers
      then failover_loop env cfg (λ i h. (h + mmc_hash hash (standard_key key i)) % 2 ^ 32)
          (bucket_of s.buckets (length s.buckets)) proxy cfg.max_failover_attempts 0
          (mmc_hash hash key) w
        >>= (λ i. settle_standard proxy (some i))
      else only_server env cfg proxy (get_or s.buckets 0 0) w >>= settle_standard proxy

  -- `mmc_standard_find_server`; `crash` where there is no bucket, as for servers of weight 2 ^ 32
  unfoldable pub standard_find_server : StandardState → Bytes → Bool → World → Run (Option ℕ)
  unfolding standard_choose with_proxy
  standard_find_server s key use_proxy w =
      unless_empty s.buckets (with_proxy env cfg use_proxy (standard_choose s key) w)
